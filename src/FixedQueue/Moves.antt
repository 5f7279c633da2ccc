-- ===== src/FixedQueue/Moves.antt =====
-- What a step of a thread keeps, when no semaphore is both waited for and tried.
use osi.Prelude.{
  ℕ, ◌+◌, ◌≡◌, refl, ap, ◌⊎◌, List, [], ◌∷◌, Option, none, some, Bool, true, false, not, ◌&&◌, ◌||◌,
  length, arith, length-append, if◌then◌else◌,
}
use osi.Alarm.Schedule.{list_contains}
use osi.FixedQueue.{
  Thread, enqueue, try_enqueue, enqueue_append, enqueue_post, dequeue, try_dequeue, dequeue_remove,
  try_remove, dequeue_post, done, aborted, step, dequeue_locked,
}
use osi.FixedQueue.Counts.{room, claim, abort, IsBalanced, length-list_remove, list_remove-head}
use osi.FixedQueue.Flags.{
  Tried, for_enqueue, for_dequeue, for_remove, Place, at_statement, got_flags, set_flags, has_read,
  QueueState, move, move_from, read_sem, restored, lifted,
}

-- What a thread holds of the counts.
abbrev pub room_of : Place → ℕ
room_of (at_statement t) = room t
room_of (has_read (for_enqueue d) saved true) = 1
room_of _ = 0

abbrev pub claim_of : Place → ℕ
claim_of (at_statement t) = claim t
claim_of (has_read for_dequeue saved true) = 1
claim_of (has_read (for_remove d) saved true) = 1
claim_of _ = 0

abbrev pub abort_of : Place → ℕ
abort_of (at_statement t) = abort t
abort_of _ = 0

abbrev pub in_remove : Tried → ℕ
in_remove (for_remove d) = 1
in_remove _ = 0

-- Whether it holds the lock between two steps.
abbrev pub holds : Place → ℕ
holds (at_statement t) = 0
holds (got_flags tried saved) = in_remove tried
holds (set_flags tried saved) = in_remove tried
holds (has_read tried saved rc) = in_remove tried

abbrev pub number : Bool → ℕ
number true = 1
number false = 0

abbrev pub in_list : List ℕ → Tried → Bool
in_list l (for_remove d) = list_contains l d
in_list l _ = true

-- What the holder of the lock removes is in the list.
abbrev pub held : List ℕ → Place → Bool
held l (at_statement t) = true
held l (got_flags tried saved) = in_list l tried
held l (set_flags tried saved) = in_list l tried
held l (has_read tried saved rc) = in_list l tried

abbrev pub tries : (enqueue_tried dequeue_tried : Bool) → Tried → Bool
tries e d (for_enqueue _) = e
tries e d _ = d

-- Where `enqueue_tried` says whether threads call `semaphore_try_wait` or `semaphore_wait` on
-- `enqueue_sem`, and `dequeue_tried` on `dequeue_sem`: the thread calls nothing else.
abbrev pub fits : (enqueue_tried dequeue_tried : Bool) → Place → Bool
fits e d (at_statement (enqueue _)) = not e
fits e d (at_statement (try_enqueue _)) = e
fits e d (at_statement dequeue) = not d
fits e d (at_statement try_dequeue) = d
fits e d (at_statement (try_remove _)) = d
fits e d (at_statement _) = true
fits e d (got_flags tried saved) = tries e d tried
fits e d (set_flags tried saved) = tries e d tried
fits e d (has_read tried saved rc) = tries e d tried

-- The descriptors that are only waited for are blocking.
abbrev pub blocking : (enqueue_tried dequeue_tried : Bool) → QueueState → Bool
blocking e d s = (e || not s.enqueue_nonblock) && (d || not s.dequeue_nonblock)

-- What a step keeps, for the counts and the lock of the other threads. The list changes only when none of
-- them holds the lock.
abbrev pub Keeps : (e d : Bool) (s : QueueState) (r c k : ℕ) → Option (Place × QueueState) → Type 0
Keeps e d s r c k none = Unit
Keeps e d s r c k (some (p', s')) =
    IsBalanced s'.queue (room_of p' + r) (claim_of p' + c)
    × (number s'.is_locked ≡ holds p' + k)
    × (held s'.queue.list p' ≡ true)
    × (fits e d p' ≡ true)
    × (blocking e d s' ≡ true)
    × (abort_of p' ≡ 0)
    × ((s'.queue.list ≡ s.queue.list) ⊎ (k ≡ 0))
    × (s'.queue.capacity ≡ s.queue.capacity)

module _ (e d : Bool) (s : QueueState) (r c k : ℕ) where
  abbrev Before : Place → Type 0
  Before p =
      IsBalanced s.queue (room_of p + r) (claim_of p + c)
      × (number s.is_locked ≡ holds p + k)
      × (held s.queue.list p ≡ true)
      × (fits e d p ≡ true)
      × (blocking e d s ≡ true)

  locked-Keeps :
      (l : List ℕ)
      → s.queue.list ≡ l
      → Before (at_statement dequeue_remove)
      → Keeps e d s r c k (if s.is_locked then none else lifted s (some (dequeue_locked s.queue l)))
  unfolding dequeue_locked
  locked-Keeps [] same h = absurd (omega (arith, h.0.1, ap (λ (xs : List ℕ). length xs) same))
  locked-Keeps (x ∷ l) same h = ground (arith, list_remove-head x l)

  move_from-Keeps : (t : Thread) → Before (at_statement t) → Keeps e d s r c k (move_from t s)
  unfolding step
  move_from-Keeps (enqueue v) h = ground arith
  move_from-Keeps (try_enqueue v) h = ground arith
  move_from-Keeps (enqueue_append v a) h = ground (arith, length-append s.queue.list (v ∷ []))
  move_from-Keeps (enqueue_post a) h = ground arith
  move_from-Keeps dequeue h = ground arith
  move_from-Keeps try_dequeue h = ground arith
  move_from-Keeps dequeue_remove h = locked-Keeps s.queue.list refl h
  move_from-Keeps (try_remove v) h = ground arith
  move_from-Keeps (dequeue_post v) h = ground arith
  move_from-Keeps (done a) h = tt
  move_from-Keeps aborted h = tt

  read-Keeps :
      (tried : Tried) (saved : Bool)
      → Before (set_flags tried saved)
      → Keeps e d s r c k (read_sem tried saved s)
  read-Keeps (for_enqueue v) saved h = ground arith
  read-Keeps for_dequeue saved h = ground arith
  read-Keeps (for_remove v) saved h = ground arith

  restored-Keeps :
      (tried : Tried) (saved rc : Bool)
      → Before (has_read tried saved rc)
      → Keeps e d s r c k (some (restored tried saved rc s))
  restored-Keeps (for_enqueue v) saved true h = ground arith
  restored-Keeps (for_enqueue v) saved false h = ground arith
  restored-Keeps for_dequeue saved true h = ground arith
  restored-Keeps for_dequeue saved false h = ground arith
  restored-Keeps (for_remove v) saved true h = ground (arith, length-list_remove s.queue.list v)
  restored-Keeps (for_remove v) saved false h = ground arith

  -- A step of a thread keeps the balance of the counts, the lock and the flags, for any counts of the
  -- other threads, and does not abort.
  pub move-Keeps : (p : Place) → Before p → Keeps e d s r c k (move p s)
  unfolding move
  move-Keeps (at_statement t) h = move_from-Keeps t h
  move-Keeps (got_flags (for_enqueue v) saved) h = ground arith
  move-Keeps (got_flags for_dequeue saved) h = ground arith
  move-Keeps (got_flags (for_remove v) saved) h = ground arith
  move-Keeps (set_flags tried saved) h = read-Keeps tried saved h
  move-Keeps (has_read tried saved rc) h = restored-Keeps tried saved rc h
