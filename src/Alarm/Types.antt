-- ===== src/Alarm/Types.antt =====
-- The data of src/alarm.c. An alarm, a queue and a callback are numbers that stand for pointers; the
-- store gives the `alarm_t` of each. The globals of the file are the record `State`. A `period_ms_t`
-- is a `uint64_t`, whose sums wrap; the counters of calls are `size_t` and are not run to their end.
use osi.Prelude.{update, ℕ, ◌+◌, ◌-◌, ◌%◌, ◌^◌, Bool, Option, none, List, ltb, if◌then◌else◌}

pub record Stat : Type 0 where
  pub count : ℕ
  pub total_ms : ℕ
  pub max_ms : ℕ

pub record AlarmStats : Type 0 where
  pub name : List ℕ
  pub scheduled_count : ℕ
  pub canceled_count : ℕ
  pub rescheduled_count : ℕ
  pub total_updates : ℕ
  pub last_update_ms : ℕ
  pub callback_execution : Stat
  pub overdue_scheduling : Stat
  pub premature_scheduling : Stat

-- A NULL `queue` or `callback` is `none`; `user_data` is the field `data`.
pub record Alarm : Type 0 where
  pub creation_time : ℕ
  pub period : ℕ
  pub deadline : ℕ
  pub prev_deadline : ℕ
  pub is_periodic : Bool
  pub queue : Option ℕ
  pub callback : Option ℕ
  pub user_data : ℕ
  pub stats : AlarmStats

-- `it_value` of a `struct itimerspec`.
pub record TimerValue : Type 0 where
  pub tv_sec : ℕ
  pub tv_nsec : ℕ

-- `alarms` is the list of pending alarms, `queue` gives what waits in each processing queue,
-- `alarm_expired` is the value of the semaphore, and `wake_locks` counts the successful calls of
-- `wakelock_acquire` less the calls of `wakelock_release`.
pub record State : Type 0 where
  pub alarm : ℕ → Alarm
  pub alarms : List ℕ
  pub timer_set : Bool
  pub timer : TimerValue
  pub wakeup_timer : TimerValue
  pub alarm_expired : ℕ
  pub queue : ℕ → List ℕ
  pub wake_locks : ℕ

-- What the system answers during a call: the time at which an alarm is scheduled, the time at which
-- the timers are set, whether the wake lock can be taken, and whether `timer_gettime` finds the timer
-- run out.
pub record System : Type 0 where
  pub now : ℕ
  pub root_now : ℕ
  pub wakelock_ok : Bool
  pub timer_ran_out : Bool

abbrev pub ms_mod : ℕ
ms_mod = 2 ^ 64

-- `uint64_t` subtraction
abbrev pub sub_ms : ℕ → ℕ → ℕ
sub_ms a b = (a + ms_mod - b) % ms_mod

abbrev pub with_alarm : State → ℕ → Alarm → State
with_alarm s id a = record s { alarm = update s.alarm id a }

pub update_stat : Stat → ℕ → Stat
update_stat stat delta = record {
  max_ms = if ltb stat.max_ms delta then delta else stat.max_ms;
  total_ms = (stat.total_ms + delta) % ms_mod;
  count = stat.count + 1;
}

unfoldable pub update_scheduling_stats :
    AlarmStats → (now deadline execution_delta : ℕ) → AlarmStats
unfolding update_stat
update_scheduling_stats stats now deadline execution_delta =
    let counted : AlarmStats = record stats {
      total_updates = stats.total_updates + 1;
      last_update_ms = now;
      callback_execution = update_stat stats.callback_execution execution_delta;
    } in
    if ltb deadline now
    then record counted {
      overdue_scheduling = update_stat counted.overdue_scheduling (now - deadline);
    }
    else if ltb now deadline
    then record counted {
      premature_scheduling = update_stat counted.premature_scheduling (deadline - now);
    }
    else counted

-- What `osi_calloc` and `alarm_new_internal` leave in a new alarm.
abbrev zero_stat : Stat
zero_stat = record { count = 0; total_ms = 0; max_ms = 0 }

unfoldable pub new_internal : List ℕ → Bool → Alarm
new_internal name is_periodic = record {
  creation_time = 0;
  period = 0;
  deadline = 0;
  prev_deadline = 0;
  is_periodic = is_periodic;
  queue = none;
  callback = none;
  user_data = 0;
  stats = record {
    name = name;
    scheduled_count = 0;
    canceled_count = 0;
    rescheduled_count = 0;
    total_updates = 0;
    last_update_ms = 0;
    callback_execution = zero_stat;
    overdue_scheduling = zero_stat;
    premature_scheduling = zero_stat;
  };
}
