-- ===== src/Future.antt =====
-- src/future.c: one thread waits for a value that another one gives. Each stands between two of its
-- statements, and a step is one statement. The semaphore is its count, as in src/semaphore.c; `none` is
-- NULL, for an immediate future.
pub mod Reach
mod Tests
use osi.Prelude.{ℕ, zero, suc, Bool, true, false, Option, none, some, ◌≡◌, if◌then◌else◌}

pub record Future : Type 0 where
  pub ready_can_be_called : Bool
  pub semaphore : Option ℕ
  pub result : ℕ
  pub is_freed : Bool

-- `future_new`, where the semaphore can be made.
abbrev pub new : Future
new = record { ready_can_be_called = true; semaphore = some 0; result = 0; is_freed = false }

abbrev pub new_immediate : ℕ → Future
new_immediate value = record {
  ready_can_be_called = false;
  semaphore = none;
  result = value;
  is_freed = false;
}

-- Where a thread is in `future_ready`: before the assertions and the write of `ready_can_be_called`,
-- before that of `result`, before `semaphore_post`, or behind it.
pub data Readying : Type 0 where
  calls_ready : ℕ → Readying
  storing : ℕ → Readying
  posting : ℕ → Readying
  is_ready : ℕ → Readying

-- Where a thread is in `future_await`: before `semaphore_wait`, before the read of `result`, before
-- `future_free`, or returned.
pub data Awaiting : Type 0 where
  calls_await : Awaiting
  loading : Awaiting
  freeing : ℕ → Awaiting
  awaited : ℕ → Awaiting

pub record System : Type 0 where
  pub future : Future
  pub readying : Readying
  pub awaiting : Awaiting

-- A step goes on, waits, or fails: at an assertion, or by the use of a future that was freed.
pub data Outcome : Type 0 where
  blocks : Outcome
  faults : Outcome
  goes : System → Outcome

abbrev pub post : System → ℕ → Option ℕ → Outcome
post s value none = faults
post s value (some n) =
    goes (record s {
      future = record s.future { semaphore = some (suc n) };
      readying = is_ready value;
    })

-- The statements of `future_ready` on a future that is there.
abbrev pub ready_from : System → Readying → Outcome
ready_from s (calls_ready value) =
    if s.future.ready_can_be_called
    then goes (record s {
      future = record s.future { ready_can_be_called = false };
      readying = storing value;
    })
    else faults
ready_from s (storing value) =
    goes (record s { future = record s.future { result = value }; readying = posting value })
ready_from s (posting value) = post s value s.future.semaphore
ready_from s (is_ready value) = blocks

-- `semaphore_wait`, when there is a semaphore.
abbrev pub take_count : System → Option ℕ → Outcome
take_count s none = goes (record s { awaiting = loading })
take_count s (some zero) = blocks
take_count s (some (suc n)) =
    goes (record s { future = record s.future { semaphore = some n }; awaiting = loading })

-- The statements of `future_await` on a future that is there.
abbrev pub await_from : System → Awaiting → Outcome
await_from s calls_await = take_count s s.future.semaphore
await_from s loading = goes (record s { awaiting = freeing s.future.result })
await_from s (freeing value) =
    goes (record s { future = record s.future { is_freed = true }; awaiting = awaited value })
await_from s (awaited value) = blocks

abbrev pub at_end : Readying → Bool
at_end (is_ready _) = true
at_end _ = false

abbrev pub has_returned : Awaiting → Bool
has_returned (awaited _) = true
has_returned _ = false

unfoldable pub ready_step : System → Outcome
ready_step s =
    if at_end s.readying
    then blocks
    else if s.future.is_freed
    then faults
    else ready_from s s.readying

unfoldable pub await_step : System → Outcome
await_step s =
    if has_returned s.awaiting
    then blocks
    else if s.future.is_freed
    then faults
    else await_from s s.awaiting

-- The steps of the two threads in any order.
pub data Reaches : System → System → Type 0 where
  stays : (s : System) → Reaches s s
  readies : (s s1 s2 : System) → Reaches s s1 → ready_step s1 ≡ goes s2 → Reaches s s2
  awaits : (s s1 s2 : System) → Reaches s s1 → await_step s1 ≡ goes s2 → Reaches s s2
