-- ===== src/FixedQueue/Flags.antt =====
-- Threads on a queue of src/fixed_queue.c that interleave. `semaphore_try_wait` of src/semaphore.c makes
-- the descriptor, which all threads share, non-blocking while it reads: it is four steps, a call of
-- fcntl or eventfd_read each. A `semaphore_wait` whose read fails meanwhile goes on without a count, and
-- the read of `semaphore_try_wait` waits when another thread has restored the flags. The lock is held
-- over several steps only by `fixed_queue_try_remove_from_queue`, so it is a flag of its own, and a
-- section under it waits for it.
use osi.Prelude.{
  ℕ, zero, suc, ◌≡◌, Bool, true, false, Option, none, some, List, if◌then◌else◌, set, get_elem?,
}
use osi.Alarm.Schedule.{list_remove, list_contains}
use osi.FixedQueue.{
  FixedQueue, Thread, enqueue, try_enqueue, enqueue_append, dequeue, try_dequeue, dequeue_remove,
  try_remove, dequeue_post, done, aborted, returned, answered, taken, sem_wait, step, with_list,
}

-- The operation that calls `semaphore_try_wait`, with its data pointer.
pub data Tried : Type 0 where
  for_enqueue : ℕ → Tried
  for_dequeue : Tried
  for_remove : ℕ → Tried

-- Where a thread is: at a statement, or in `semaphore_try_wait` behind F_GETFL, behind the F_SETFL that
-- sets O_NONBLOCK, or behind the read, with the flag that it saved and whether it took a count.
pub data Place : Type 0 where
  at_statement : Thread → Place
  got_flags : Tried → (saved : Bool) → Place
  set_flags : Tried → (saved : Bool) → Place
  has_read : Tried → (saved rc : Bool) → Place

-- The queue, O_NONBLOCK of its two descriptors, and its lock.
pub record QueueState : Type 0 where
  pub queue : FixedQueue
  pub enqueue_nonblock : Bool
  pub dequeue_nonblock : Bool
  pub is_locked : Bool

abbrev pub start : FixedQueue → QueueState
start q = record {
  queue = q;
  enqueue_nonblock = false;
  dequeue_nonblock = false;
  is_locked = false;
}

-- `semaphore_wait`: what it leaves; `none` waits.
abbrev pub waited : (nonblock : Bool) → ℕ → Option ℕ
waited nonblock (suc n) = some n
waited true zero = some zero
waited false zero = none

-- What a statement does to the queue.
abbrev pub lifted : QueueState → Option (Thread × FixedQueue) → Option (Place × QueueState)
lifted s none = none
lifted s (some (t, q)) = some (at_statement t, record s { queue = q })

-- The restoring of the flags, and what the operation does with the answer.
abbrev pub restored : Tried → (saved rc : Bool) → QueueState → Place × QueueState
restored (for_enqueue d) saved rc s = (
  at_statement (if rc then enqueue_append d (answered true) else done (answered false)),
  record s { enqueue_nonblock = saved },
)
restored for_dequeue saved rc s = (
  at_statement (if rc then dequeue_remove else done (taken none)),
  record s { dequeue_nonblock = saved },
)
restored (for_remove d) saved rc s =
    if rc
    then (if list_contains s.queue.list d
        then (
          at_statement (dequeue_post d),
          record s {
            queue = with_list s.queue (list_remove s.queue.list d);
            dequeue_nonblock = saved;
            is_locked = false;
          },
        )
        else (at_statement aborted, record s { dequeue_nonblock = saved }))
    else (
      at_statement (done (taken none)),
      record s { dequeue_nonblock = saved; is_locked = false },
    )

-- `eventfd_read` in `semaphore_try_wait`.
abbrev pub read_sem : Tried → Bool → QueueState → Option (Place × QueueState)
read_sem (for_enqueue d) saved s = elim (sem_wait s.queue.enqueue_sem) [
  | none ↦ if s.enqueue_nonblock then some (has_read (for_enqueue d) saved false, s) else none
  | some n ↦ some (
    has_read (for_enqueue d) saved true,
    record s { queue = record (s.queue) { enqueue_sem = n } },
  )
]
read_sem tried saved s = elim (sem_wait s.queue.dequeue_sem) [
  | none ↦ if s.dequeue_nonblock then some (has_read tried saved false, s) else none
  | some n ↦
      some (has_read tried saved true, record s { queue = record (s.queue) { dequeue_sem = n } })
]

abbrev pub set_nonblock : Tried → QueueState → QueueState
set_nonblock (for_enqueue d) s = record s { enqueue_nonblock = true }
set_nonblock _ s = record s { dequeue_nonblock = true }

-- A statement; F_GETFL comes with the one that begins `semaphore_try_wait`.
abbrev pub move_from : Thread → QueueState → Option (Place × QueueState)
move_from (enqueue d) s = elim (waited s.enqueue_nonblock s.queue.enqueue_sem) [
  | none ↦ none
  | some n ↦ some (
    at_statement (enqueue_append d returned),
    record s { queue = record (s.queue) { enqueue_sem = n } },
  )
]
move_from (try_enqueue d) s = some (got_flags (for_enqueue d) s.enqueue_nonblock, s)
move_from (enqueue_append d a) s =
    if s.is_locked then none else lifted s (step (enqueue_append d a) s.queue)
move_from dequeue s = elim (waited s.dequeue_nonblock s.queue.dequeue_sem) [
  | none ↦ none
  | some n ↦
      some (at_statement dequeue_remove, record s { queue = record (s.queue) { dequeue_sem = n } })
]
move_from try_dequeue s = some (got_flags for_dequeue s.dequeue_nonblock, s)
move_from dequeue_remove s = if s.is_locked then none else lifted s (step dequeue_remove s.queue)
move_from (try_remove d) s =
    if s.is_locked
    then none
    else if list_contains s.queue.list d
    then some (got_flags (for_remove d) s.dequeue_nonblock, record s { is_locked = true })
    else some (at_statement (done (taken none)), s)
move_from t s = lifted s (step t s.queue)

-- One step of a thread.
unfoldable pub move : Place → QueueState → Option (Place × QueueState)
move (at_statement t) s = move_from t s
move (got_flags tried saved) s = some (set_flags tried saved, set_nonblock tried s)
move (set_flags tried saved) s = read_sem tried saved s
move (has_read tried saved rc) s = some (restored tried saved rc s)

pub record System : Type 0 where
  pub shared : QueueState
  pub places : List Place

-- One step of the program: thread `i` takes it.
pub data Step : System → System → Type 0 where
  moves :
      (s : System) (i : ℕ) (p p' : Place) (shared : QueueState)
      → get_elem? s.places i ≡ some p
      → move p s.shared ≡ some (p', shared)
      → Step s (record { shared = shared; places = set s.places i p' })

-- The states that the program reaches from a state.
pub data Reaches : System → System → Type 0 where
  stays : (s : System) → Reaches s s
  goes : (s s1 s2 : System) → Reaches s s1 → Step s1 s2 → Reaches s s2
