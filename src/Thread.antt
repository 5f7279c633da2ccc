-- ===== src/Thread.antt =====
-- src/thread.c: work items are posted to a fixed queue, and the thread runs them: one for each event of
-- the queue, and those that are left when its reactor has stopped. An item is a number, and `func` what
-- its function does to the state that items share; it posts nothing. The calls of the queue run with no
-- step of another thread in between.
pub mod Drain
pub mod Life
pub mod Places
pub mod Alive
pub mod Starts
pub mod Ends
pub mod Reach
pub mod Moves
pub mod Progress
mod Tests
use osi.Prelude.{ℕ, zero, suc, ◌+◌, Option, none, some}
use osi.FixedQueue.{FixedQueue, new, enqueue_call, dequeue_call, try_dequeue_call}

abbrev pub default_work_queue_capacity : ℕ
default_work_queue_capacity = 128

-- `thread_post`; `none` is a call that waits for room.
unfoldable pub post : FixedQueue → (item : ℕ) → Option FixedQueue
post work_queue item = enqueue_call work_queue item

module _ {ℓ} {S : Type ℓ} (func : ℕ → S → S) where
  -- The item that `fixed_queue_dequeue` gives is run.
  abbrev pub run_item : S → Option (Option ℕ × FixedQueue) → Option (FixedQueue × S)
  run_item s (some (some item, q)) = some (q, func item s)
  run_item s _ = none

  -- `work_queue_read_cb`; `none` is a call that waits for an item.
  unfoldable pub work_queue_read_cb : FixedQueue → S → Option (FixedQueue × S)
  work_queue_read_cb work_queue s = run_item s (dequeue_call work_queue)

  -- The loop at the end of `run_thread`, on what `fixed_queue_try_dequeue` gave. The number is that of
  -- the rounds for which `count` is still at most the capacity. An item taken when none is left is not run.
  unfoldable pub drain_from : ℕ → Option (Option ℕ × FixedQueue) → S → Option (FixedQueue × S)
  drain_from n none s = none
  drain_from n (some (none, q)) s = some (q, s)
  drain_from zero (some (some item, q)) s = some (q, s)
  drain_from (suc n) (some (some item, q)) s = drain_from n (try_dequeue_call q) (func item s)

  -- `run_thread` behind `reactor_start`.
  unfoldable pub drain : FixedQueue → S → Option (FixedQueue × S)
  drain q s = drain_from (q.capacity + 1) (try_dequeue_call q) s
