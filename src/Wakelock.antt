-- ===== src/Wakelock.antt =====
-- src/wakelock.c: the kernel wake lock, taken through two files or through callouts, and its
-- statistics. The globals of the file are one record. What the system answers is an argument: the
-- time that `now` returns, the descriptors that `open` returns, what `write` wrote (`none` for -1),
-- the status of a callout. Times are `uint64_t`, so that a difference wraps. Locking, logging and
-- the call of `metrics_wake_event` (in metrics.cpp) change nothing here.
pub mod Interval
pub mod Lock
mod Tests
use osi.Prelude.{
  ℕ, ◌+◌, ◌-◌, ◌/◌, ◌%◌, ◌^◌, Bool, true, false, Option, none, some, List, ◌||◌, ◌&&◌, ltb, ◌==◌,
  if◌then◌else◌, is_some, not, take,
}

-- `bt_status_t`, as far as this file names it; any other code is a failure of a callout.
pub data Status : Type 0 where
  success fail parm_invalid : Status
  other : ℕ → Status

abbrev pub is_success : Status → Bool
is_success success = true
is_success _ = false

-- `wakelock_stats_t`
pub record Stats : Type 0 where
  pub is_acquired : Bool
  pub acquired_count : ℕ
  pub released_count : ℕ
  pub acquired_errors : ℕ
  pub released_errors : ℕ
  pub min_acquired_interval_ms : ℕ
  pub max_acquired_interval_ms : ℕ
  pub last_acquired_interval_ms : ℕ
  pub total_acquired_interval_ms : ℕ
  pub last_acquired_timestamp_ms : ℕ
  pub last_released_timestamp_ms : ℕ
  pub last_reset_timestamp_ms : ℕ

-- A path pointer: NULL, the default string, or a copy of the caller's bytes.
pub data LockPath : Type 0 where
  unset standard : LockPath
  custom : List ℕ → LockPath

-- An invalid descriptor, and the length -1, are `none`.
pub record State : Type 0 where
  pub is_native : Bool
  pub wake_lock_path : LockPath
  pub wake_unlock_path : LockPath
  pub locked_id_len : Option ℕ
  pub initialized : Bool
  pub wake_lock_fd : Option ℕ
  pub wake_unlock_fd : Option ℕ
  pub stats : Stats

-- What the system answers during one call.
pub record System : Type 0 where
  pub init_now : ℕ
  pub now : ℕ
  pub opened_lock : Option ℕ
  pub opened_unlock : Option ℕ
  pub wrote : Option ℕ
  pub callout : Status

-- `reset_wakelock_stats`
pub reset_stats : ℕ → Stats
reset_stats now = record {
  is_acquired = false;
  acquired_count = 0;
  released_count = 0;
  acquired_errors = 0;
  released_errors = 0;
  min_acquired_interval_ms = 0;
  max_acquired_interval_ms = 0;
  last_acquired_interval_ms = 0;
  total_acquired_interval_ms = 0;
  last_acquired_timestamp_ms = 0;
  last_released_timestamp_ms = 0;
  last_reset_timestamp_ms = now;
}

abbrev pub or_standard : LockPath → LockPath
or_standard unset = standard
or_standard path = path

pub initialize_native : System → State → State
initialize_native sys s = record s {
  wake_lock_path = or_standard s.wake_lock_path;
  wake_lock_fd = sys.opened_lock;
  wake_unlock_path = or_standard s.wake_unlock_path;
  wake_unlock_fd = sys.opened_unlock;
}

pub initialize : System → State → State
unfolding initialize_native reset_stats
initialize sys s =
    let s' : State = record s { stats = reset_stats sys.init_now; initialized = true } in
    if s'.is_native then initialize_native sys s' else s'

-- `pthread_once(&initialized, wakelock_initialize)`
pub once : System → State → State
unfolding initialize
once sys s = if s.initialized then s else initialize sys s

-- `NULL` callouts mean the native lock.
pub set_os_callouts : Bool → State → State
set_os_callouts has_callouts s = record s { is_native = not has_callouts }

-- A short write is only logged.
pub acquire_native : System → State → Status × State
acquire_native sys s =
    if not (is_some s.wake_lock_fd)
    then (parm_invalid, s)
    else if not (is_some s.wake_unlock_fd)
    then (parm_invalid, s)
    else (if is_some sys.wrote then success else fail, record s { locked_id_len = sys.wrote })

-- The write may fail or be short: that is only logged.
pub release_native : System → State → Status × State
release_native sys s = if not (is_some s.wake_unlock_fd) then (parm_invalid, s) else (success, s)

pub update_acquired_stats : ℕ → Status → Stats → Stats
update_acquired_stats now status st =
    let counted : Stats =
      if is_success status then st else record st { acquired_errors = st.acquired_errors + 1 } in
    if counted.is_acquired then counted else record counted {
      is_acquired = true;
      acquired_count = counted.acquired_count + 1;
      last_acquired_timestamp_ms = now;
    }

-- `uint64_t` subtraction
abbrev pub sub_ms : ℕ → ℕ → ℕ
sub_ms a b = (a + 2 ^ 64 - b) % 2 ^ 64

-- The interval of `delta` ms that ends now, counted in.
pub add_interval : ℕ → Stats → Stats
add_interval delta st = record st {
  min_acquired_interval_ms =
      if ltb delta st.min_acquired_interval_ms || (st.released_count == 1)
      then delta
      else st.min_acquired_interval_ms;
  max_acquired_interval_ms =
      if ltb st.max_acquired_interval_ms delta then delta else st.max_acquired_interval_ms;
  last_acquired_interval_ms = delta;
  total_acquired_interval_ms = (st.total_acquired_interval_ms + delta) % 2 ^ 64;
}

pub count_released_error : Status → Stats → Stats
count_released_error status st =
    if is_success status then st else record st { released_errors = st.released_errors + 1 }

-- The release of an acquired lock, with the interval since it was acquired.
pub close_interval : ℕ → Stats → Stats
unfolding add_interval
close_interval now st = add_interval (sub_ms now st.last_acquired_timestamp_ms) (record st {
  is_acquired = false;
  released_count = st.released_count + 1;
  last_released_timestamp_ms = now;
})

pub update_released_stats : ℕ → Status → Stats → Stats
unfolding close_interval count_released_error
update_released_stats now status st =
    let counted = count_released_error status st in
    if counted.is_acquired then close_interval now counted else counted

pub acquire : System → State → Bool × State
unfolding once acquire_native update_acquired_stats
acquire sys s =
    let s1 = once sys s in
    let (status, s2) = if s1.is_native then acquire_native sys s1 else (sys.callout, s1) in
    (is_success status, record s2 { stats = update_acquired_stats sys.now status s2.stats })

pub release : System → State → Bool × State
unfolding once release_native update_released_stats
release sys s =
    let s1 = once sys s in
    let (status, s2) = if s1.is_native then release_native sys s1 else (sys.callout, s1) in
    (is_success status, record s2 { stats = update_released_stats sys.now status s2.stats })

-- A copy is freed and its pointer reset; the default string stays.
abbrev pub reset_path : LockPath → LockPath
reset_path (custom _) = unset
reset_path path = path

-- `wakelock_cleanup`
pub cleanup : State → State
cleanup s = record s {
  wake_lock_path = reset_path s.wake_lock_path;
  wake_unlock_path = reset_path s.wake_unlock_path;
  initialized = false;
}

-- `osi_strndup` of a path that is not NULL, up to PATH_MAX bytes.
abbrev pub path_max : ℕ
path_max = 4096

abbrev pub copy_path : Option (List ℕ) → LockPath → LockPath
copy_path none old = old
copy_path (some p) old = custom (take path_max p)

-- `wakelock_set_paths`
pub set_paths : Option (List ℕ) → Option (List ℕ) → State → State
set_paths lock_path unlock_path s = record s {
  wake_lock_path = copy_path lock_path s.wake_lock_path;
  wake_unlock_path = copy_path unlock_path s.wake_unlock_path;
}

-- The numbers that `wakelock_debug_dump` prints.
pub record Dump : Type 0 where
  pub last_interval : ℕ
  pub min_interval : ℕ
  pub max_interval : ℕ
  pub ave_interval : ℕ
  pub total_interval : ℕ
  pub run_time : ℕ

pub debug_dump : ℕ → Stats → Dump
debug_dump now st =
    let delta : ℕ = if st.is_acquired then sub_ms now st.last_acquired_timestamp_ms else 0 in
    let total : ℕ = (st.total_acquired_interval_ms + delta) % 2 ^ 64 in
    record {
      last_interval = if st.is_acquired then delta else st.last_acquired_interval_ms;
      max_interval =
          if st.is_acquired && ltb st.max_acquired_interval_ms delta
          then delta
          else st.max_acquired_interval_ms;
      min_interval =
          if st.is_acquired && ltb delta st.min_acquired_interval_ms
          then delta
          else st.min_acquired_interval_ms;
      ave_interval = if ltb 0 st.acquired_count then total / st.acquired_count else 0;
      total_interval = total;
      run_time = sub_ms now st.last_reset_timestamp_ms;
    }
