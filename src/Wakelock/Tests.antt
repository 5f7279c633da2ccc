-- ===== src/Wakelock/Tests.antt =====
-- A native lock that was acquired at 1000 for the second time, whose write fails.
use osi.Prelude.{◌+◌, ◌≡◌, refl, true, false, none, some, is_some, if◌then◌else◌, arith}
use osi.Wakelock.{Stats, State, System, standard, fail, once, release}
use osi.Wakelock.Interval.{IsValid}
use osi.Wakelock.Lock.{release-IsValid}

abbrev stats : Stats
stats = record {
  is_acquired = true;
  acquired_count = 2;
  released_count = 1;
  acquired_errors = 0;
  released_errors = 0;
  min_acquired_interval_ms = 30;
  max_acquired_interval_ms = 30;
  last_acquired_interval_ms = 30;
  total_acquired_interval_ms = 30;
  last_acquired_timestamp_ms = 1000;
  last_released_timestamp_ms = 500;
  last_reset_timestamp_ms = 0;
}

stats-IsValid : IsValid stats
stats-IsValid = record {
  alternate = refl;
  min_le_last = omega arith;
  last_le_max = omega arith;
  total_lower = omega arith;
  total_upper = omega arith;
}

abbrev state : State
state = record {
  is_native = true;
  wake_lock_path = standard;
  wake_unlock_path = standard;
  locked_id_len = some 20;
  initialized = true;
  wake_lock_fd = some 5;
  wake_unlock_fd = some 6;
  stats = stats;
}

abbrev no_write : System
no_write = record {
  init_now = 0;
  now = 1010;
  opened_lock = some 5;
  opened_unlock = some 6;
  wrote = none;
  callout = fail;
}

state_native : (once no_write state).is_native ≡ true
unfolding once
state_native = refl

release-IsValid_example :
    let s1 = once no_write state in
    let (done, s') = release no_write state in
    (done ≡ is_some s1.wake_unlock_fd)
    × (s'.stats.released_errors ≡ s1.stats.released_errors + (if done then 0 else 1))
    × (s'.stats.is_acquired ≡ false)
    × IsValid s'.stats
unfolding once
release-IsValid_example =
    release-IsValid no_write state state_native stats-IsValid (omega arith) (omega arith)
      (omega arith)
