-- ===== src/Thread/Life.antt =====
-- src/thread.c: the life of a thread, as two threads in any order of their statements: the one that calls
-- `thread_new_sized`, `thread_stop`, `thread_join` and `thread_free`, and the one that runs `run_thread`. A
-- step that uses what is not there fails. The Boolean is what the system answers, and the `Event` what
-- `run_thread` meets. `reactor_register` is taken to give an object: its NULL would go to
-- `reactor_unregister`, where an assertion fails.
use osi.Prelude.{ℕ, zero, suc, ◌+◌, Bool, true, false, ◌&&◌, ◌||◌, ◌≡◌, if◌then◌else◌}

-- Whether the frame of `thread_new` and the semaphore `start_sem` are there, with its count and `error`;
-- whether the reactor was told to stop; `is_joined`; and whether the queue, the reactor and the
-- `thread_t` are there.
pub record Shared : Type 0 where
  pub has_start : Bool
  pub has_sem : Bool
  pub start_sem : ℕ
  pub error : Bool
  pub stop : Bool
  pub is_joined : Bool
  pub has_queue : Bool
  pub has_reactor : Bool
  pub has_thread : Bool

-- Where the caller is: in `thread_new_sized` before `reactor_new`, `fixed_queue_new`, `semaphore_new`,
-- `pthread_create`, `semaphore_wait`, `semaphore_free` and the test of `start.error`, and at the label
-- `error`, before each release; with a thread; in `thread_join` before the test of `is_joined` and before
-- `pthread_join`, called by `thread_free` or not; in `thread_free`, before each release; or at the end, with
-- NULL or behind `thread_free`.
pub data Caller : Type 0 where
  making_reactor : Caller
  making_queue : Caller
  making_sem : Caller
  creating : Caller
  waiting : Caller
  started : Caller
  checking : Caller
  error_queue : Caller
  error_reactor : Caller
  error_thread : Caller
  is_null : Caller
  holding : Caller
  joining : (frees : Bool) → Caller
  in_join : (frees : Bool) → Caller
  free_queue : Caller
  free_reactor : Caller
  free_thread : Caller
  is_freed : Caller

-- What a caller with a thread does next.
pub data Choice : Type 0 where
  to_stop : Choice
  to_join : Choice
  to_free : Choice

-- Where `run_thread` is: not started; before `prctl`; before the write of `error` and the post that
-- follows it; before `gettid` and the post; before `reactor_register`, in `reactor_start`, before
-- `reactor_unregister`, before the loop at the end; in an item that waits; or returned.
pub data Runner : Type 0 where
  absent : Runner
  entering : Runner
  failing : Runner
  failed : Runner
  named : Runner
  posting : Runner
  registering : Runner
  running : Runner
  unregistering : Runner
  draining : Runner
  item_waiting : Runner
  exited : Runner

-- Every call succeeds and the items return; `prctl` fails, or `reactor_start` returns untold by the
-- caller, since `epoll_wait` fails or an item has called `thread_stop`; or an item waits for ever, as one
-- that posts to the full queue of its own thread does.
pub data Event : Type 0 where
  well : Event
  fails : Event
  item_waits : Event

abbrev pub is_failure : Event → Bool
is_failure fails = true
is_failure _ = false

pub record System : Type 0 where
  pub shared : Shared
  pub caller : Caller
  pub runner : Runner

pub data Outcome : Type 0 where
  blocks : Outcome
  faults : Outcome
  goes : System → Outcome

-- A step that is taken when what it uses is there.
abbrev pub using : Bool → Outcome → Outcome
using true o = o
using false o = faults

abbrev pub run_to : System → Runner → Outcome
run_to s r = goes (record s { runner = r })

abbrev pub run_with : System → Shared → Runner → Outcome
run_with s shared r = goes (record s { shared = shared; runner = r })

abbrev pub post : Shared → Shared
post s = record s { start_sem = s.start_sem + 1 }

-- `reactor_start`, in which the items run, and the loop at the end.
abbrev pub running_from : Event → System → Outcome
running_from item_waits s = run_to s item_waiting
running_from event s = if s.shared.stop || is_failure event then run_to s unregistering else blocks

abbrev pub draining_from : Event → System → Outcome
draining_from item_waits s = run_to s item_waiting
draining_from event s = run_to s exited

-- `run_thread`
abbrev pub runner_from : Event → System → Runner → Outcome
runner_from event s absent = blocks
runner_from event s entering =
    using (s.shared.has_start && s.shared.has_thread)
      (run_to s (if is_failure event then failing else named))
runner_from event s failing =
    using s.shared.has_start (run_with s (record (s.shared) { error = true }) failed)
runner_from event s failed =
    using (s.shared.has_start && s.shared.has_sem) (run_with s (post s.shared) exited)
runner_from event s named = using s.shared.has_thread (run_to s posting)
runner_from event s posting =
    using (s.shared.has_start && s.shared.has_sem) (run_with s (post s.shared) registering)
runner_from event s registering =
    using (s.shared.has_thread && (s.shared.has_queue && s.shared.has_reactor)) (run_to s running)
runner_from event s running =
    using (s.shared.has_thread && (s.shared.has_queue && s.shared.has_reactor))
      (running_from event s)
runner_from event s unregistering =
    using (s.shared.has_thread && (s.shared.has_queue && s.shared.has_reactor)) (run_to s draining)
runner_from event s draining =
    using (s.shared.has_thread && s.shared.has_queue) (draining_from event s)
runner_from event s item_waiting = blocks
runner_from event s exited = blocks

unfoldable pub runner_step : Event → System → Outcome
runner_step event s = runner_from event s s.runner

abbrev pub call_to : System → Shared → Caller → Outcome
call_to s shared c = goes (record s { shared = shared; caller = c })

-- `semaphore_wait`
abbrev pub take_from : System → ℕ → Outcome
take_from s zero = blocks
take_from s (suc n) = call_to s (record (s.shared) { start_sem = n }) started

-- Behind `thread_join`.
abbrev pub after_join : Bool → Caller
after_join true = free_queue
after_join false = holding

-- `pthread_join`
abbrev pub join_from : Bool → System → Runner → Outcome
join_from frees s exited = call_to s s.shared (after_join frees)
join_from frees s _ = blocks

-- `thread_stop`, which `thread_free` begins with; or `thread_join`.
abbrev pub choose_from : Choice → System → Outcome
choose_from to_stop s =
    using (s.shared.has_thread && s.shared.has_reactor)
      (call_to s (record (s.shared) { stop = true }) holding)
choose_from to_join s = call_to s s.shared (joining false)
choose_from to_free s =
    using (s.shared.has_thread && s.shared.has_reactor)
      (call_to s (record (s.shared) { stop = true }) (joining true))

-- `thread_new_sized` from `reactor_new`, where the answer is that a call succeeds, and that of
-- `pthread_create` is dropped; then `thread_stop`, `thread_join` and `thread_free`.
abbrev pub caller_from : Bool → Choice → System → Caller → Outcome
caller_from answer choice s making_reactor =
    call_to s (record (s.shared) { has_reactor = answer })
      (if answer then making_queue else error_queue)
caller_from answer choice s making_queue =
    call_to s (record (s.shared) { has_queue = answer })
      (if answer then making_sem else error_queue)
caller_from answer choice s making_sem =
    call_to s (record (s.shared) { has_sem = answer }) (if answer then creating else error_queue)
caller_from answer choice s creating =
    goes (record s { caller = waiting; runner = if answer then entering else s.runner })
caller_from answer choice s waiting = using s.shared.has_sem (take_from s s.shared.start_sem)
caller_from answer choice s started =
    using s.shared.has_sem (call_to s (record (s.shared) { has_sem = false }) checking)
caller_from answer choice s checking =
    if s.shared.error
    then call_to s s.shared error_queue
    else call_to s (record (s.shared) { has_start = false }) holding
caller_from answer choice s error_queue =
    call_to s (record (s.shared) { has_queue = false }) error_reactor
caller_from answer choice s error_reactor =
    call_to s (record (s.shared) { has_reactor = false }) error_thread
caller_from answer choice s error_thread =
    using s.shared.has_thread
      (call_to s (record (s.shared) { has_thread = false; has_start = false }) is_null)
caller_from answer choice s is_null = blocks
caller_from answer choice s holding = choose_from choice s
caller_from answer choice s (joining frees) = using s.shared.has_thread (
    if s.shared.is_joined
    then call_to s s.shared (after_join frees)
    else call_to s (record (s.shared) { is_joined = true }) (in_join frees))
caller_from answer choice s (in_join frees) = join_from frees s s.runner
caller_from answer choice s free_queue =
    using (s.shared.has_thread && s.shared.has_queue)
      (call_to s (record (s.shared) { has_queue = false }) free_reactor)
caller_from answer choice s free_reactor =
    using (s.shared.has_thread && s.shared.has_reactor)
      (call_to s (record (s.shared) { has_reactor = false }) free_thread)
caller_from answer choice s free_thread =
    using s.shared.has_thread (call_to s (record (s.shared) { has_thread = false }) is_freed)
caller_from answer choice s is_freed = blocks

unfoldable pub caller_step : Bool → Choice → System → Outcome
caller_step answer choice s = caller_from answer choice s s.caller

-- `thread_new_sized` before `reactor_new`, with the block of the thread.
abbrev pub begin : System
begin = record {
  shared = record {
    has_start = true;
    has_sem = false;
    start_sem = 0;
    error = false;
    stop = false;
    is_joined = false;
    has_queue = false;
    has_reactor = false;
    has_thread = true;
  };
  caller = making_reactor;
  runner = absent;
}

pub data Reaches : System → System → Type 0 where
  stays : (s : System) → Reaches s s
  calls :
      (s s1 s2 : System) (answer : Bool) (choice : Choice)
      → Reaches s s1
      → caller_step answer choice s1 ≡ goes s2
      → Reaches s s2
  runs :
      (s s1 s2 : System) (event : Event)
      → Reaches s s1
      → runner_step event s1 ≡ goes s2
      → Reaches s s2
