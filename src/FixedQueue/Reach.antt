-- ===== src/FixedQueue/Reach.antt =====
-- The states of a fixed queue that threads reach in any interleaving.
use osi.Prelude.{
  ℕ, zero, suc, ◌≤◌, ◌≡◌, ◌⊎◌, inl, inr, refl, ◌∙◌, subst, sym, Bool, true, false, List, [], ◌∷◌,
  length, set, get_elem?, some, All, arith,
}
use osi.FixedQueue.{new, enqueue, try_enqueue, dequeue, try_dequeue, try_remove, done}
use osi.FixedQueue.Counts.{sum, others, sum-others, IsBalanced}
use osi.FixedQueue.Flags.{Place, at_statement, start, System, Step, moves, Reaches, stays, goes}
use osi.FixedQueue.Moves.{
  room_of, claim_of, abort_of, holds, number, held, fits, blocking, Keeps, move-Keeps,
}

All-at {ℓ} :
    {A : Type ℓ} (P : A → Type 0) (xs : List A) (i : ℕ) (x : A)
    → All P xs
    → get_elem? xs i ≡ some x
    → P x
All-at P [] i x h at = absurd cc
All-at P (y ∷ xs) zero x (h, hs) at = let e : y ≡ x = cc in subst P e h
All-at P (y ∷ xs) (suc i) x (h, hs) at = All-at P xs i x hs at

All-set {ℓ} :
    {A : Type ℓ} (P : A → Type 0) (xs : List A) (i : ℕ) (x : A)
    → All P xs
    → P x
    → All P (set xs i x)
All-set P [] i x h p = tt
All-set P (y ∷ xs) zero x (h, hs) p = (p, hs)
All-set P (y ∷ xs) (suc i) x (h, hs) p = (h, All-set P xs i x hs p)

-- The list may change where no thread holds the lock.
unheld : (l : List ℕ) (p : Place) → holds p ≡ 0 → held l p ≡ true
unheld l p h = ground arith

all_unheld : (l : List ℕ) (ps : List Place) → sum holds ps ≡ 0 → All (λ p. held l p ≡ true) ps
all_unheld l [] h = tt
all_unheld l (p ∷ ps) h = (unheld l p (omega (arith, h)), all_unheld l ps (omega (arith, h)))

others_unheld :
    (l : List ℕ) (ps : List Place) (i : ℕ) (p : Place)
    → others holds ps i ≡ 0
    → held l p ≡ true
    → All (λ u. held l u ≡ true) (set ps i p)
others_unheld l [] i p none_held h = tt
others_unheld l (u ∷ ps) zero p none_held h = (h, all_unheld l ps none_held)
others_unheld l (u ∷ ps) (suc i) p none_held h =
    (unheld l u (omega (arith, none_held)), others_unheld l ps i p (omega (arith, none_held)) h)

set-held :
    (l l' : List ℕ) (ps : List Place) (i : ℕ) (p : Place)
    → All (λ u. held l u ≡ true) ps
    → (l' ≡ l) ⊎ (others holds ps i ≡ 0)
    → held l' p ≡ true
    → All (λ u. held l' u ≡ true) (set ps i p)
set-held l l' ps i p hs (inl e) h =
    All-set (λ u. held l' u ≡ true) ps i p (subst (λ xs. All (λ u. held xs u ≡ true) ps) (sym e) hs)
      h
set-held l l' ps i p hs (inr none_held) h = others_unheld l' ps i p none_held h

module _ (e d : Bool) where
  -- Every place is in `enqueue_sem`, with a thread or an entry, every entry is in `dequeue_sem` or
  -- with a thread; the lock is held by the thread that removes an entry, which is in the list; no
  -- semaphore is waited for that is tried; and no assertion has failed.
  pub record IsValid (s : System) : Type 0 where
    pub balanced : IsBalanced s.shared.queue (sum room_of s.places) (sum claim_of s.places)
    pub locked : number s.shared.is_locked ≡ sum holds s.places
    pub all_held : All (λ p. held s.shared.queue.list p ≡ true) s.places
    pub all_fit : All (λ p. fits e d p ≡ true) s.places
    pub all_blocking : blocking e d s.shared ≡ true
    pub unaborted : sum abort_of s.places ≡ 0

  Step-IsValid :
      (s s' : System)
      → Step s s'
      → IsValid s
      → IsValid s' × (s'.shared.queue.capacity ≡ s.shared.queue.capacity)
  Step-IsValid s s' (moves _ i p p' shared at h) v =
      let ps = s.places in
      let (room_was, room_is) = sum-others room_of ps i p p' at in
      let (claim_was, claim_is) = sum-others claim_of ps i p p' at in
      let (holds_was, holds_is) = sum-others holds ps i p p' at in
      let (abort_was, abort_is) = sum-others abort_of ps i p p' at in
      let l = s.shared.queue.list in
      let (balanced, locked, is_held, is_fit, is_blocking, no_abort, same, capacity) =
        subst (Keeps e d s.shared (others room_of ps i) (others claim_of ps i) (others holds ps i))
          h
          (move-Keeps e d s.shared (others room_of ps i) (others claim_of ps i) (others holds ps i)
            p
            (
              (omega (arith, v.balanced, room_was), omega (arith, v.balanced, claim_was)),
              v.locked ∙ holds_was,
              All-at (λ u. held l u ≡ true) ps i p v.all_held at,
              All-at (λ u. fits e d u ≡ true) ps i p v.all_fit at,
              v.all_blocking,
            )) in
      (
        record {
          balanced = (omega (arith, balanced, room_is), omega (arith, balanced, claim_is));
          locked = locked ∙ sym holds_is;
          all_held = set-held l shared.queue.list ps i p' v.all_held same is_held;
          all_fit = All-set (λ u. fits e d u ≡ true) ps i p' v.all_fit is_fit;
          all_blocking = is_blocking;
          unaborted = omega (arith, v.unaborted, abort_was, abort_is, no_abort);
        },
        capacity,
      )

  Reaches-IsValid :
      (s s' : System)
      → Reaches s s'
      → IsValid s
      → IsValid s' × (s'.shared.queue.capacity ≡ s.shared.queue.capacity)
  Reaches-IsValid s s' (stays _) v = (v, refl)
  Reaches-IsValid s s' (goes _ s1 _ r h) v =
      let (v1, same1) = Reaches-IsValid s s1 r v in
      let (v2, same2) = Step-IsValid s1 s' h v1 in (v2, same2 ∙ same1)

-- A thread at the start of an operation.
abbrev pub starts : Place → Bool
starts (at_statement (enqueue _)) = true
starts (at_statement (try_enqueue _)) = true
starts (at_statement dequeue) = true
starts (at_statement try_dequeue) = true
starts (at_statement (try_remove _)) = true
starts _ = false

start-counts :
    (l : List ℕ) (p : Place)
    → starts p ≡ true
    → (room_of p ≡ 0) × (claim_of p ≡ 0) × (holds p ≡ 0) × (abort_of p ≡ 0)
start-counts l p h = ground arith

start-sums :
    (ps : List Place)
    → All (λ p. starts p ≡ true) ps
    → (sum room_of ps ≡ 0) × (sum claim_of ps ≡ 0) × (sum holds ps ≡ 0) × (sum abort_of ps ≡ 0)
start-sums [] h = (refl, refl, refl, refl)
start-sums (p ∷ ps) (h, rest) = ground (arith, start-counts [] p h, start-sums ps rest)

abbrev pub begin : ℕ → List Place → System
begin capacity ps = record { shared = start (new capacity); places = ps }

begin-IsValid :
    (e d : Bool) (capacity : ℕ) (ps : List Place)
    → All (λ p. starts p ≡ true) ps
    → All (λ p. fits e d p ≡ true) ps
    → IsValid e d (begin capacity ps)
begin-IsValid e d capacity ps h fit =
    let (rooms, claims, locks, aborts) = start-sums ps h in
    record {
      balanced = (omega (arith, rooms), omega (arith, claims));
      locked = sym locks;
      all_held = all_unheld [] ps locks;
      all_fit = fit;
      all_blocking = ground arith;
      unaborted = aborts;
    }

-- Any number of threads that start operations on a new queue, in any interleaving of their statements
-- and of the system calls of `semaphore_try_wait`: the queue never holds more than its capacity, and
-- no thread stops at an assertion, so `list_front` always finds an entry and the removal of a contained
-- one succeeds. The condition: a semaphore that one thread tries, no thread waits for, so that
-- `enqueue` does not meet `try_enqueue`, nor `dequeue` one of `try_dequeue` and `try_remove`.
pub Reaches-bounded :
    (enqueue_tried dequeue_tried : Bool) (capacity : ℕ) (ps : List Place) (s : System)
    → All (λ p. starts p ≡ true) ps
    → All (λ p. fits enqueue_tried dequeue_tried p ≡ true) ps
    → Reaches (begin capacity ps) s
    → (length s.shared.queue.list ≤ capacity) × (sum abort_of s.places ≡ 0)
Reaches-bounded e d capacity ps s h fit r =
    let (v, same) =
      Reaches-IsValid e d (begin capacity ps) s r (begin-IsValid e d capacity ps h fit) in
    (omega (arith, v.balanced, same), v.unaborted)

-- A thread whose operation has returned.
abbrev pub ends : Place → Bool
ends (at_statement (done _)) = true
ends _ = false
