-- ===== src/Thread/Places.antt =====
-- What is there and what has happened, at each place of the two threads.
use osi.Prelude.{ℕ, ◌+◌, ◌≡◌, Bool, true, false}
use osi.Thread.Life.{
  Shared, Caller, Runner, Outcome, blocks, faults, goes, making_reactor, making_queue, making_sem,
  creating, waiting, started, checking, error_queue, error_reactor, error_thread, is_null, holding,
  joining, in_join, free_queue, free_reactor, free_thread, is_freed, absent, entering, failing,
  failed, named, posting, registering, running, unregistering, draining, item_waiting, exited,
}

pub data Mark : Type 0 where
  there : Mark
  missing : Mark
  either : Mark

abbrev pub Is : Mark → Bool → Type 0
Is there b = b ≡ true
Is missing b = b ≡ false
Is either b = Unit

-- While the caller is at a place: what is there of the frame, the semaphore, the queue, the reactor and
-- the thread; how often it has taken the count of `start_sem`; whether the other thread cannot have
-- started, or cannot be on its way; whether the reactor was told to stop; and whether the caller waits
-- in `pthread_join`.
pub record Place : Type 0 where
  pub start : Mark
  pub sem : Mark
  pub queue : Mark
  pub reactor : Mark
  pub thread : Mark
  pub taken : ℕ
  pub unborn : Bool
  pub gone : Bool
  pub told : Bool
  pub waits : Bool

abbrev marks : Mark → Mark → Mark → Mark → Mark → ℕ → Bool → Bool → Bool → Bool → Place
marks start sem queue reactor thread taken unborn gone told waits = record {
  start = start;
  sem = sem;
  queue = queue;
  reactor = reactor;
  thread = thread;
  taken = taken;
  unborn = unborn;
  gone = gone;
  told = told;
  waits = waits;
}

abbrev pub place : Caller → Place
place making_reactor = marks there missing missing missing there 0 true false false false
place making_queue = marks there missing missing there there 0 true false false false
place making_sem = marks there missing there there there 0 true false false false
place creating = marks there there there there there 0 true false false false
place waiting = marks there there there there there 0 false false false false
place started = marks there there there there there 1 false false false false
place checking = marks there missing there there there 1 false false false false
place error_queue = marks there missing either either there 1 false true false false
place error_reactor = marks there missing missing either there 1 false true false false
place error_thread = marks there missing missing missing there 1 false true false false
place is_null = marks missing missing missing missing missing 1 false true false false
place holding = marks missing missing there there there 1 false false false false
place (joining frees) = marks missing missing there there there 1 false false frees false
place (in_join frees) = marks missing missing there there there 1 false false frees true
place free_queue = marks missing missing there there there 1 false true true false
place free_reactor = marks missing missing missing there there 1 false true true false
place free_thread = marks missing missing missing missing there 1 false true true false
place is_freed = marks missing missing missing missing missing 1 false true true false

-- How often the runner has posted, and whether it is on its way.
abbrev pub posts_of : Runner → ℕ
posts_of absent = 0
posts_of entering = 0
posts_of failing = 0
posts_of failed = 0
posts_of named = 0
posts_of posting = 0
posts_of registering = 1
posts_of running = 1
posts_of unregistering = 1
posts_of draining = 1
posts_of item_waiting = 1
posts_of exited = 1

abbrev pub is_mid : Runner → Bool
is_mid absent = false
is_mid entering = true
is_mid failing = true
is_mid failed = true
is_mid named = true
is_mid posting = true
is_mid registering = true
is_mid running = true
is_mid unregistering = true
is_mid draining = true
is_mid item_waiting = true
is_mid exited = false

-- The `error` that the runner has written.
abbrev pub Error : Runner → Bool → Type 0
Error absent e = e ≡ false
Error entering e = e ≡ false
Error failing e = e ≡ false
Error failed e = e ≡ true
Error named e = e ≡ false
Error posting e = e ≡ false
Error registering e = e ≡ false
Error running e = e ≡ false
Error unregistering e = e ≡ false
Error draining e = e ≡ false
Error item_waiting e = e ≡ false
Error exited e = Unit

abbrev pub Flags : Caller → Shared → Type 0
Flags c f =
    Is (place c).start f.has_start
    × Is (place c).sem f.has_sem
    × Is (place c).queue f.has_queue
    × Is (place c).reactor f.has_reactor
    × Is (place c).thread f.has_thread

pub record Valid (c : Caller) (r : Runner) (f : Shared) : Type 0 where
  pub flags : Flags c f
  pub sem : (place c).gone ≡ false → f.start_sem + (place c).taken ≡ posts_of r
  pub err : Error r f.error
  pub gone : (place c).gone ≡ true → is_mid r ≡ false
  pub unborn : (place c).unborn ≡ true → r ≡ absent
  pub told : (place c).told ≡ true → f.stop ≡ true
  pub joined : (place c).waits ≡ false → f.is_joined ≡ true → r ≡ exited

abbrev pub Safe : Outcome → Type 0
Safe blocks = Unit
Safe faults = false ≡ true
Safe (goes s) = Valid s.caller s.runner s.shared
