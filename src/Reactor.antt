-- ===== src/Reactor.antt =====
-- src/reactor.c: one thread waits for descriptors and calls back, while others register and unregister.
-- A pointer is a number, 0 is NULL, and a callback is a number that stands for the function. The thread
-- of `run_reactor` stands between two statements, as does a thread in `reactor_unregister`, and an action
-- is one of their steps: a system call, a section under `list_lock`, or a test. `interest` is the set
-- that `epoll_ctl` keeps: the pointer of each descriptor in it.
pub mod Invariant
pub mod Changed
pub mod Register
pub mod Unregister
pub mod Waits
pub mod Rounds
pub mod Reach
pub mod Kept
pub mod Once
mod Tests
use osi.Prelude.{
  update, ℕ, zero, suc, ◌+◌, ◌*◌, length, Bool, true, false, not, ◌&&◌, ◌||◌, Option, none, some,
  List, [], ◌∷◌, ◌++◌, ◌==◌, if◌then◌else◌, is_some,
}
use osi.Alarm.Schedule.{list_contains}

pub record Object : Type 0 where
  pub fd : ℕ
  pub context : ℕ
  pub read_ready : Option ℕ
  pub write_ready : Option ℕ

-- The data pointer of a `struct epoll_event`, and what its bits say: `readable` for any of EPOLLIN,
-- EPOLLHUP, EPOLLRDHUP and EPOLLERR, `writable` for EPOLLOUT. The pointer of `event_fd` is NULL.
pub record Event : Type 0 where
  pub ptr : ℕ
  pub readable : Bool
  pub writable : Bool

pub data Status : Type 0 where
  status_stop : Status
  status_error : Status
  status_done : Status

-- The rounds that are left.
pub data Iterations : Type 0 where
  forever : Iterations
  times : ℕ → Iterations

-- Where the thread of the reactor is: outside `run_reactor`, at the test of its loop, before
-- `epoll_wait`, before the next of the events, or at one of four points under the lock of an object:
-- before the test of `read_ready`, in it, before the test of `write_ready`, in it, and behind it.
pub data Loop : Type 0 where
  outside : Option Status → Loop
  top : Iterations → Loop
  waiting : Iterations → Loop
  handling : Iterations → List Event → Loop
  locked : Iterations → Event → List Event → Loop
  reading : Iterations → Event → List Event → Loop
  tested : Iterations → Event → List Event → Loop
  writing : Iterations → Event → List Event → Loop
  called : Iterations → Event → List Event → Loop

-- Where the unregistration of an object is: not begun, behind `epoll_ctl`, behind the section under
-- `list_lock`, or returned to a callback on the reactor's thread.
pub data Stage : Type 0 where
  idle : Stage
  deleted : Stage
  listed : Stage
  removed : Stage

pub record Reactor : Type 0 where
  pub object : ℕ → Option Object
  pub interest : ℕ → Option ℕ
  pub event_count : ℕ
  pub invalidation_list : List ℕ
  pub is_running : Bool
  pub object_removed : Bool
  pub loop : Loop
  pub stage : ℕ → Stage

-- `reactor_new`, where nothing fails.
abbrev pub new : Reactor
new = record {
  object = λ _. none;
  interest = λ _. none;
  event_count = 0;
  invalidation_list = [];
  is_running = false;
  object_removed = false;
  loop = outside none;
  stage = λ _. idle;
}

-- A step goes on, waits, or uses an object that is not allocated.
pub data Outcome : Type 0 where
  blocks : Outcome
  faults : Outcome
  goes : Reactor → Outcome

-- The object whose lock the thread of the reactor holds, 0 for none.
abbrev pub held : Loop → ℕ
held (locked _ e _) = e.ptr
held (reading _ e _) = e.ptr
held (tested _ e _) = e.ptr
held (writing _ e _) = e.ptr
held (called _ e _) = e.ptr
held _ = 0

-- What a statement does with the object that it reads.
abbrev pub with_object : Option Object → (Object → Outcome) → Outcome
with_object none k = faults
with_object (some o) k = k o

-- `reactor_register`; `p` is what `osi_calloc` returns and `is_added` whether `epoll_ctl` can add the
-- descriptor, which it does not when it has it already. A failure frees the object again.
unfoldable pub register : (p : ℕ) → Object → (is_added : Bool) → Reactor → Outcome
register p o is_added r =
    if not is_added || is_some (r.interest o.fd)
    then goes r
    else goes (record r {
      object = update r.object p (some o);
      interest = update r.interest o.fd (some p);
    })

-- `reactor_change_registration`; `is_modified` is whether `epoll_ctl` succeeds. It waits for the lock.
unfoldable pub change_registration :
    (p : ℕ) → (read_ready write_ready : Option ℕ) → (is_modified : Bool) → Reactor → Outcome
change_registration p read_ready write_ready is_modified r = with_object (r.object p) (λ o.
    if not is_modified
    then goes r
    else if held r.loop == p
    then blocks
    else goes (record r {
      object =
          update r.object p
            (some (record o { read_ready = read_ready; write_ready = write_ready }));
    }))

-- `epoll_ctl` with EPOLL_CTL_DEL, which is taken to succeed, and the test for the reactor's thread: in a callback on it,
-- `object_removed` is set and nothing else is done.
unfoldable pub unregister : (is_run_thread : Bool) → (p : ℕ) → Reactor → Outcome
unregister is_run_thread p r = with_object (r.object p) (λ o.
    if r.is_running && is_run_thread
    then goes (record r {
      interest = update r.interest o.fd none;
      object_removed = true;
      stage = update r.stage p removed;
    })
    else goes
        (record r { interest = update r.interest o.fd none; stage = update r.stage p deleted }))

-- The section of `reactor_unregister` under `list_lock`.
abbrev pub append_from : ℕ → Reactor → Stage → Outcome
append_from p r deleted = goes (record r {
  invalidation_list = r.invalidation_list ++ (p ∷ []);
  stage = update r.stage p listed;
})
append_from p r _ = blocks

-- The rest of it: the lock is taken and given back, and the object is freed.
abbrev pub free_from : ℕ → Reactor → Stage → Outcome
free_from p r listed = with_object (r.object p) (λ _.
    if held r.loop == p
    then blocks
    else goes (record r { object = update r.object p none; stage = update r.stage p idle }))
free_from p r _ = blocks

unfoldable pub unregister_append : ℕ → Reactor → Outcome
unregister_append p r = append_from p r (r.stage p)

unfoldable pub unregister_free : ℕ → Reactor → Outcome
unregister_free p r = free_from p r (r.stage p)

-- `reactor_stop`
unfoldable pub stop : Reactor → Outcome
stop r = goes (record r { event_count = r.event_count + 1 })

-- `run_reactor` up to its loop: `reactor_start` gives `forever`, `reactor_run_once` one round.
abbrev pub start_from : Iterations → Reactor → Loop → Outcome
start_from iterations r (outside _) = goes (record r { is_running = true; loop = top iterations })
start_from iterations r _ = blocks

unfoldable pub start : Iterations → Reactor → Outcome
start iterations r = start_from iterations r r.loop

-- What `epoll_wait` returns when it is not interrupted: an error, or events.
pub data Wait : Type 0 where
  wait_fails : Wait
  wait_gives : List Event → Wait

-- `run_reactor` returns.
abbrev pub finish : Status → Reactor → Outcome
finish status r = goes (record r { is_running = false; loop = outside (some status) })

abbrev pub next_round : Iterations → Reactor → Outcome
next_round (times zero) r = finish status_done r
next_round (times (suc n)) r = goes (record r { invalidation_list = []; loop = waiting (times n) })
next_round forever r = goes (record r { invalidation_list = []; loop = waiting forever })

abbrev pub wait : Iterations → Wait → Reactor → Outcome
wait iterations wait_fails r = finish status_error r
wait iterations (wait_gives events) r = goes (record r { loop = handling iterations events })

-- An event: of `event_fd`, of an object in the invalidation list, or of one that is locked.
abbrev pub handle : Iterations → Event → List Event → Reactor → Outcome
handle iterations e rest r =
    if e.ptr == 0
    then finish status_stop (record r { event_count = 0 })
    else if list_contains r.invalidation_list e.ptr
    then goes (record r { loop = handling iterations rest })
    else with_object (r.object e.ptr)
        (λ _. goes (record r { object_removed = false; loop = locked iterations e rest }))

-- The unlock, and the release of an object that was unregistered in a callback.
abbrev pub unlock : Iterations → Event → List Event → Reactor → Outcome
unlock iterations e rest r = with_object (r.object e.ptr) (λ _.
    if r.object_removed
    then goes (record r {
      object = update r.object e.ptr none;
      stage = update r.stage e.ptr idle;
      loop = handling iterations rest;
    })
    else goes (record r { loop = handling iterations rest }))

-- A statement of `run_reactor`; a callback that runs returns.
abbrev pub run_from : Wait → Reactor → Loop → Outcome
run_from w r (outside _) = blocks
run_from w r (top iterations) = next_round iterations r
run_from w r (waiting iterations) = wait iterations w r
run_from w r (handling iterations []) = goes (record r { loop = top iterations })
run_from w r (handling iterations (e ∷ rest)) = handle iterations e rest r
run_from w r (locked iterations e rest) = with_object (r.object e.ptr) (λ o.
    if e.readable && is_some o.read_ready
    then goes (record r { loop = reading iterations e rest })
    else goes (record r { loop = tested iterations e rest }))
run_from w r (reading iterations e rest) = goes (record r { loop = tested iterations e rest })
run_from w r (tested iterations e rest) = with_object (r.object e.ptr) (λ o.
    if not r.object_removed && (e.writable && is_some o.write_ready)
    then goes (record r { loop = writing iterations e rest })
    else goes (record r { loop = called iterations e rest }))
run_from w r (writing iterations e rest) = goes (record r { loop = called iterations e rest })
run_from w r (called iterations e rest) = unlock iterations e rest r

unfoldable pub run_reactor : Wait → Reactor → Outcome
run_reactor w r = run_from w r r.loop

pub data Action : Type 0 where
  registers : (p : ℕ) → Object → (is_added : Bool) → Action
  changes : (p : ℕ) → (read_ready write_ready : Option ℕ) → (is_modified : Bool) → Action
  unregisters : (is_run_thread : Bool) → (p : ℕ) → Action
  appends : (p : ℕ) → Action
  frees : (p : ℕ) → Action
  stops : Action
  starts : Iterations → Action
  moves : Wait → Action

-- A step of any thread.
unfoldable pub act : Action → Reactor → Outcome
act (registers p o is_added) r = register p o is_added r
act (changes p read_ready write_ready is_modified) r =
    change_registration p read_ready write_ready is_modified r
act (unregisters is_run_thread p) r = unregister is_run_thread p r
act (appends p) r = unregister_append p r
act (frees p) r = unregister_free p r
act stops r = stop r
act (starts iterations) r = start iterations r
act (moves w) r = run_reactor w r

abbrev pub then_run : (Reactor → Outcome) → Outcome → Outcome
then_run k blocks = blocks
then_run k faults = faults
then_run k (goes r) = k r

-- `run_reactor` with no other thread in between, until it returns. `blocks` is fuel that runs out.
abbrev pub loop_from : (Reactor → Outcome) → Wait → Reactor → Loop → Outcome
loop_from k w r (outside _) = goes r
loop_from k w r l = then_run k (run_from w r l)

unfoldable pub run_loop : ℕ → Wait → Reactor → Outcome
run_loop zero w r = blocks
run_loop (suc fuel) w r = loop_from (run_loop fuel w) w r r.loop

-- An event takes six statements at most, and the others are five.
abbrev pub enough : Wait → ℕ
enough wait_fails = 5
enough (wait_gives events) = suc (suc (6 * length events + 3))

-- `reactor_run_once`
unfoldable pub run_once : Wait → Reactor → Outcome
run_once w r = then_run (run_loop (enough w) w) (start (times 1) r)
