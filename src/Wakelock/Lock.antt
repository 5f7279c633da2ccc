-- ===== src/Wakelock/Lock.antt =====
-- `wakelock_acquire` and `wakelock_release`: what they answer, and what the statistics record.
use osi.Prelude.{
  ◌+◌, ◌^◌, ◌≤◌, ◌<◌, ◌≡◌, Bool-cases, inl, inr, true, false, if◌then◌else◌, is_some, ◌&&◌, arith,
}
use osi.Wakelock.Interval.{IsValid, update_released-IsValid}
use osi.Wakelock.{success, parm_invalid, State, System, once, acquire, release}

-- With the native lock, `wakelock_acquire` answers true exactly when both files are open and the
-- write succeeds, and counts an error exactly when it answers false. Whatever it answers, the
-- statistics then say that the lock is acquired.
pub acquire-native :
    (sys : System) (s : State)
    → (once sys s).is_native ≡ true
    → let s1 = once sys s in
      let (done, s') = acquire sys s in
      (done ≡ (is_some s1.wake_lock_fd && (is_some s1.wake_unlock_fd && is_some sys.wrote)))
      × (s'.stats.acquired_errors ≡ s1.stats.acquired_errors + (if done then 0 else 1))
      × (s'.stats.is_acquired ≡ true)
unfolding acquire
acquire-native sys s native = ground arith

release-native :
    (sys : System) (s : State)
    → (once sys s).is_native ≡ true
    → let s1 = once sys s in
      let (done, s') = release sys s in
      (done ≡ is_some s1.wake_unlock_fd)
      × (s'.stats.released_errors ≡ s1.stats.released_errors + (if done then 0 else 1))
      × (s'.stats.is_acquired ≡ false)
unfolding release
release-native sys s native = ground arith

-- With the native lock, `wakelock_release` answers true exactly when the unlock file is open, even if the
-- write to it fails, and counts an error exactly when it answers false. The statistics then say that the
-- lock is not acquired, and stay valid: the counts of acquisitions and releases agree, and the shortest,
-- the longest and the last interval bound one another and the total. They were valid before, the clock
-- has not run backwards, and the total does not wrap.
pub release-IsValid :
    (sys : System) (s : State)
    → (once sys s).is_native ≡ true
    → IsValid (once sys s).stats
    → (once sys s).stats.last_acquired_timestamp_ms ≤ sys.now
    → sys.now < 2 ^ 64
    → (once sys s).stats.total_acquired_interval_ms + sys.now < 2 ^ 64
    → let s1 = once sys s in
      let (done, s') = release sys s in
      (done ≡ is_some s1.wake_unlock_fd)
      × (s'.stats.released_errors ≡ s1.stats.released_errors + (if done then 0 else 1))
      × (s'.stats.is_acquired ≡ false)
      × IsValid s'.stats
unfolding release
release-IsValid sys s native v le small fits =
    let (answer, errors, idle) = release-native sys s native in
    let s1 = once sys s in
    (
      answer,
      errors,
      idle,
      elim (Bool-cases (is_some s1.wake_unlock_fd)) [
        | inl e ↦ rw (native, e) (update_released-IsValid sys.now success s1.stats v le small fits)
        | inr e ↦
            rw (native, e) (update_released-IsValid sys.now parm_invalid s1.stats v le small fits)
      ],
    )
