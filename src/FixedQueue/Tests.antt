-- ===== src/FixedQueue/Tests.antt =====
-- A queue of one place: two threads try to enqueue, and one dequeues; and one that waits while another
-- tries.
use osi.Prelude.{
  ℕ, ◌≤◌, ◌≡◌, refl, true, false, Option, none, some, List, [], ◌∷◌, length, get_elem?, set, All,
}
use osi.FixedQueue.{enqueue, try_enqueue, dequeue, step}
use osi.FixedQueue.Counts.{sum}
use osi.FixedQueue.Flags.{
  Place, at_statement, QueueState, move, System, moves, Reaches, stays, goes,
}
use osi.FixedQueue.Moves.{abort_of, fits}
use osi.FixedQueue.Reach.{begin, starts, Reaches-bounded}

abbrev Run : System → Type 0
Run first = (s : System) × Reaches first s

abbrev moved :
    (first s : System) (i : ℕ) (p : Place) (o : Option (Place × QueueState))
    → Reaches first s
    → get_elem? s.places i ≡ some p
    → move p s.shared ≡ o
    → Run first
moved first s i p none r at h = (s, r)
moved first s i p (some (p', shared)) r at h = (
  record { shared = shared; places = set s.places i p' },
  goes first s (record { shared = shared; places = set s.places i p' }) r
      (moves s i p p' shared at h),
)

abbrev turn :
    (first s : System) (i : ℕ) (o : Option Place)
    → Reaches first s
    → get_elem? s.places i ≡ o
    → Run first
turn first s i none r at = (s, r)
turn first s i (some p) r at = moved first s i p (move p s.shared) r at refl

abbrev turns : (first : System) → List ℕ → Run first → Run first
turns first [] (s, r) = (s, r)
turns first (i ∷ is) (s, r) = turns first is (turn first s i (get_elem? s.places i) r refl)

abbrev places : List Place
places = at_statement (try_enqueue 8) ∷ at_statement (try_enqueue 9) ∷ at_statement dequeue ∷ []

abbrev first : System
first = begin 1 places

-- The second thread finds no room while the first is in `semaphore_try_wait`.
abbrev last : Run first
last = turns first (0 ∷ 1 ∷ 0 ∷ 1 ∷ 0 ∷ 1 ∷ 1 ∷ 0 ∷ 0 ∷ 0 ∷ 2 ∷ 2 ∷ 2 ∷ []) (first, stays first)

places_start : All (λ p. starts p ≡ true) places
places_start = (refl, (refl, (refl, tt)))

places_fit : All (λ p. fits true false p ≡ true) places
places_fit = (refl, (refl, (refl, tt)))

Reaches-bounded_example :
    (length (last.0).shared.queue.list ≤ 1) × (sum abort_of (last.0).places ≡ 0)
Reaches-bounded_example = Reaches-bounded true false 1 places last.0 places_start places_fit last.1

-- A thread that waits for room while another is in `semaphore_try_wait` goes on without a count, and the
-- queue of one place has two entries.
abbrev mixed : System
mixed =
    begin 1
      (at_statement (try_enqueue 7) ∷ at_statement (enqueue 8) ∷ at_statement (enqueue 9) ∷ [])

overfull :
    length (turns mixed (1 ∷ 0 ∷ 0 ∷ 2 ∷ 1 ∷ 2 ∷ []) (mixed, stays mixed)).0.shared.queue.list ≡ 2
unfolding move step
overfull = refl
