-- ===== src/FixedQueue.antt =====
-- src/fixed_queue.c and src/semaphore.c: a bounded queue between threads. The list is the list
-- of its data pointers, which are numbers, and a semaphore is the value of its eventfd. A thread
-- in an operation stands at one of its statements. `step` is a statement of a thread that runs alone
-- meanwhile: one semaphore call or one section under the lock. Flags has threads that interleave,
-- where `semaphore_try_wait` is four steps. A step that aborts on an assertion ends in `aborted`.
-- The eventfd and fcntl calls are taken to succeed. The registration at a reactor is not modelled.
pub mod Counts
pub mod Flags
pub mod Moves
pub mod Reach
mod Tests
use osi.Prelude.{
  ℕ, zero, suc, ◌+◌, ◌&&◌, ◌≡◌, Bool, true, false, Option, none, some, List, [], ◌∷◌, ◌++◌, ltb,
  if◌then◌else◌, length, set, get_elem?,
}
use osi.Alarm.Schedule.{list_remove, list_contains}

pub record FixedQueue : Type 0 where
  pub list : List ℕ
  pub enqueue_sem : ℕ
  pub dequeue_sem : ℕ
  pub capacity : ℕ

-- `fixed_queue_new`
abbrev pub new : ℕ → FixedQueue
new capacity = record { list = []; enqueue_sem = capacity; dequeue_sem = 0; capacity = capacity }

-- `semaphore_try_wait` on the value: the value left, or `none` when the read fails. A
-- `semaphore_wait` takes the same and blocks where this fails.
abbrev pub sem_wait : ℕ → Option ℕ
sem_wait zero = none
sem_wait (suc n) = some n

-- `semaphore_post`
abbrev pub sem_post : ℕ → ℕ
sem_post n = suc n

-- `fixed_queue_is_empty`, `fixed_queue_length`, and the two peeks.
pub is_empty : FixedQueue → Bool
is_empty q = elim q.list [ [] ↦ true | _ ↦ false ]

pub queue_length : FixedQueue → ℕ
queue_length q = length q.list

abbrev front : List ℕ → Option ℕ
front [] = none
front (x ∷ _) = some x

abbrev back : List ℕ → Option ℕ
back [] = none
back (x ∷ xs) = elim xs [ [] ↦ some x | _ ↦ back xs ]

pub try_peek_first : FixedQueue → Option ℕ
try_peek_first q = front q.list

pub try_peek_last : FixedQueue → Option ℕ
try_peek_last q = back q.list

-- What an operation returns: nothing, a Boolean, or a data pointer that may be NULL.
pub data Answer : Type 0 where
  returned : Answer
  answered : Bool → Answer
  taken : Option ℕ → Answer

-- Where a thread is: at the start of an operation, between two of its statements, at its end, or
-- stopped by an assertion.
pub data Thread : Type 0 where
  enqueue : ℕ → Thread
  try_enqueue : ℕ → Thread
  enqueue_append : ℕ → Answer → Thread
  enqueue_post : Answer → Thread
  dequeue : Thread
  try_dequeue : Thread
  dequeue_remove : Thread
  try_remove : ℕ → Thread
  dequeue_post : ℕ → Thread
  done : Answer → Thread
  aborted : Thread

abbrev pub with_list : FixedQueue → List ℕ → FixedQueue
with_list q l = record q { list = l }

-- The section of `fixed_queue_dequeue` and `fixed_queue_try_dequeue` under the lock: `list_front`
-- asserts that the list is not empty.
unfoldable pub dequeue_locked : FixedQueue → List ℕ → Thread × FixedQueue
dequeue_locked q [] = (aborted, q)
dequeue_locked q (x ∷ xs) = (dequeue_post x, with_list q (list_remove (x ∷ xs) x))

-- `semaphore_try_wait` on `dequeue_sem` in `fixed_queue_try_remove_from_queue`, then the removal.
unfoldable pub remove_waited : FixedQueue → ℕ → Option ℕ → Thread × FixedQueue
remove_waited q d none = (done (taken none), q)
remove_waited q d (some n) =
    (dequeue_post d, record q { dequeue_sem = n; list = list_remove q.list d })

-- One statement of a thread, where no other thread is in `semaphore_try_wait`; `none` when it is
-- blocked or has ended.
unfoldable pub step : Thread → FixedQueue → Option (Thread × FixedQueue)
step (enqueue d) q = elim (sem_wait q.enqueue_sem) [
  | none ↦ none
  | some n ↦ some (enqueue_append d returned, record q { enqueue_sem = n })
]
step (try_enqueue d) q = elim (sem_wait q.enqueue_sem) [
  | none ↦ some (done (answered false), q)
  | some n ↦ some (enqueue_append d (answered true), record q { enqueue_sem = n })
]
step (enqueue_append d a) q = some (enqueue_post a, with_list q (q.list ++ (d ∷ [])))
step (enqueue_post a) q = some (done a, record q { dequeue_sem = sem_post q.dequeue_sem })
step dequeue q = elim (sem_wait q.dequeue_sem) [
  | none ↦ none
  | some n ↦ some (dequeue_remove, record q { dequeue_sem = n })
]
step try_dequeue q = elim (sem_wait q.dequeue_sem) [
  | none ↦ some (done (taken none), q)
  | some n ↦ some (dequeue_remove, record q { dequeue_sem = n })
]
step dequeue_remove q = some (dequeue_locked q q.list)
step (try_remove d) q = some (
    if list_contains q.list d
    then remove_waited q d (sem_wait q.dequeue_sem)
    else (done (taken none), q))
step (dequeue_post x) q =
    some (done (taken (some x)), record q { enqueue_sem = sem_post q.enqueue_sem })
step (done a) q = none
step aborted q = none

-- A thread's step behind another.
abbrev pub then_step : Option (Thread × FixedQueue) → Option (Thread × FixedQueue)
then_step none = none
then_step (some (t, q)) = step t q

abbrev pub queue_of : Option (Thread × FixedQueue) → Option FixedQueue
queue_of none = none
queue_of (some (t, q)) = some q

-- `fixed_queue_enqueue` with no step of another thread in between; `none` is a call that waits.
unfoldable pub enqueue_call : FixedQueue → ℕ → Option FixedQueue
unfolding step
enqueue_call q d = queue_of (then_step (then_step (step (enqueue d) q)))

-- A thread's step behind another, unless it has returned.
abbrev pub unless_done : Option (Thread × FixedQueue) → Option (Thread × FixedQueue)
unless_done none = none
unless_done (some (done a, q)) = some (done a, q)
unless_done (some (t, q)) = step t q

abbrev pub taken_of : Option (Thread × FixedQueue) → Option (Option ℕ × FixedQueue)
taken_of (some (done (taken o), q)) = some (o, q)
taken_of _ = none

-- `fixed_queue_dequeue` and `fixed_queue_try_dequeue` with no step of another thread in between.
unfoldable pub dequeue_call : FixedQueue → Option (Option ℕ × FixedQueue)
unfolding step dequeue_locked
dequeue_call q = taken_of (unless_done (unless_done (step dequeue q)))

unfoldable pub try_dequeue_call : FixedQueue → Option (Option ℕ × FixedQueue)
unfolding step dequeue_locked
try_dequeue_call q = taken_of (unless_done (unless_done (step try_dequeue q)))
