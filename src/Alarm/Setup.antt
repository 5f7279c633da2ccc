-- ===== src/Alarm/Setup.antt =====
-- src/alarm.c: what `lazy_initialize` acquires and `alarm_cleanup` releases. A Boolean says whether a
-- global pointer is not NULL, and the numbers count the timers that exist in the system. The answers
-- of the allocators are arguments. `fixed_queue_free` unregisters its queue.
use osi.Prelude.{ℕ, ◌+◌, ◌-◌, Bool, true, false, if◌then◌else◌}

pub record Globals : Type 0 where
  pub monitor : Bool
  pub alarms : Bool
  pub timers : ℕ
  pub wakeup_timers : ℕ
  pub alarm_expired : Bool
  pub default_callback_thread : Bool
  pub default_callback_queue : Bool
  pub processing : Bool
  pub dispatcher_thread : Bool
  pub dispatcher_thread_active : Bool

-- Whether each call of `lazy_initialize` returns something.
pub record Answers : Type 0 where
  pub list_new : Bool
  pub timer_create : Bool
  pub wakeup_timer_create : Bool
  pub semaphore_new : Bool
  pub callback_thread_new : Bool
  pub queue_new : Bool
  pub dispatcher_thread_new : Bool

-- What follows the label `error`.
unfoldable pub release :
    (timer_initialized wakeup_timer_initialized : Bool) → Globals → Bool × Globals
release timer_initialized wakeup_timer_initialized g = (
  false,
  record {
    default_callback_queue = false;
    processing = false;
    default_callback_thread = false;
    dispatcher_thread = false;
    dispatcher_thread_active = false;
    alarm_expired = false;
    wakeup_timers = if wakeup_timer_initialized then g.wakeup_timers - 1 else g.wakeup_timers;
    timers = if timer_initialized then g.timers - 1 else g.timers;
    alarms = false;
    monitor = false;
  },
)

abbrev pub with_dispatcher : Bool → Globals → Bool × Globals
with_dispatcher answer g =
    let g' : Globals = record g { dispatcher_thread_active = true; dispatcher_thread = answer } in
    if answer then (true, g') else release true true g'

abbrev pub with_queue : Answers → Bool → Globals → Bool × Globals
with_queue answers answer g =
    if answer
    then with_dispatcher answers.dispatcher_thread_new
        (record g { default_callback_queue = true; processing = true })
    else release true true (record g { default_callback_queue = false })

abbrev pub with_callback_thread : Answers → Bool → Globals → Bool × Globals
with_callback_thread answers answer g =
    if answer
    then with_queue answers answers.queue_new (record g { default_callback_thread = true })
    else release true true (record g { default_callback_thread = false })

abbrev pub with_semaphore : Answers → Bool → Globals → Bool × Globals
with_semaphore answers answer g =
    if answer
    then with_callback_thread answers answers.callback_thread_new
        (record g { alarm_expired = true })
    else release true true (record g { alarm_expired = false })

-- `timer_create_internal` adds a timer when it succeeds.
abbrev pub with_wakeup_timer : Answers → Bool → Globals → Bool × Globals
with_wakeup_timer answers answer g =
    if answer
    then with_semaphore answers answers.semaphore_new
        (record g { wakeup_timers = g.wakeup_timers + 1 })
    else release true false g

abbrev pub with_timer : Answers → Bool → Globals → Bool × Globals
with_timer answers answer g =
    if answer
    then with_wakeup_timer answers answers.wakeup_timer_create (record g { timers = g.timers + 1 })
    else release false false g

-- `lazy_initialize`
unfoldable pub lazy_initialize : Answers → Globals → Bool × Globals
unfolding release
lazy_initialize answers g =
    let g' : Globals = record g { monitor = true; alarms = answers.list_new } in
    if answers.list_new then with_timer answers answers.timer_create g' else release false false g'

-- `alarm_cleanup`. It hands `timer_delete` the address of `timer` and not the timer, so no timer is
-- deleted.
unfoldable pub cleanup : Globals → Globals
cleanup g =
    if g.alarms
    then record g {
      dispatcher_thread_active = false;
      dispatcher_thread = false;
      default_callback_queue = false;
      processing = false;
      default_callback_thread = false;
      alarm_expired = false;
      alarms = false;
      monitor = false;
    }
    else g

-- Nothing is acquired but some timers.
abbrev pub idle : (timers wakeup_timers : ℕ) → Globals
idle m n = record {
  monitor = false;
  alarms = false;
  timers = m;
  wakeup_timers = n;
  alarm_expired = false;
  default_callback_thread = false;
  default_callback_queue = false;
  processing = false;
  dispatcher_thread = false;
  dispatcher_thread_active = false;
}

-- Everything is, and one more timer of each kind.
abbrev pub ready : (timers wakeup_timers : ℕ) → Globals
ready m n = record {
  monitor = true;
  alarms = true;
  timers = m + 1;
  wakeup_timers = n + 1;
  alarm_expired = true;
  default_callback_thread = true;
  default_callback_queue = true;
  processing = true;
  dispatcher_thread = true;
  dispatcher_thread_active = true;
}
