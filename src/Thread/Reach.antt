-- ===== src/Thread/Reach.antt =====
-- All orders of the steps of both threads.
use osi.Prelude.{◌≡◌, ◌≢◌, ◌⊎◌, inl, inr, refl, subst, Bool, true, false}
use osi.Thread.Life.{
  System, faults, runner_step, caller_step, begin, Reaches, stays, calls, runs, Shared, Caller,
  Choice, Runner, Event, is_null, is_freed,
}
use osi.Thread.Places.{is_mid, Valid, Safe}
use osi.Thread.Alive.{at_places, runner_from-Safe}
use osi.Thread.Ends.{caller_from-Safe}

abbrev pub AllValid : System → Type 0
AllValid s = Valid s.caller s.runner s.shared

caller_step-Safe :
    (answer : Bool) (choice : Choice) (s : System) → AllValid s → Safe (caller_step answer choice s)
unfolding caller_step
caller_step-Safe answer choice s v = caller_from-Safe answer choice s.runner s.shared s.caller v

runner_step-Safe : (event : Event) (s : System) → AllValid s → Safe (runner_step event s)
unfolding runner_step
runner_step-Safe event s v = runner_from-Safe event s.caller s.shared s.runner v

pub begin-Valid : AllValid begin
begin-Valid = record {
  flags = (refl, refl, refl, refl, refl);
  sem = λ g. refl;
  err = refl;
  gone = λ g. cc;
  unborn = λ g. refl;
  told = λ g. cc;
  joined = λ w g. cc;
}

pub Reaches-Valid : (s s' : System) → Reaches s s' → AllValid s → AllValid s'
Reaches-Valid s s' (stays _) v = v
Reaches-Valid s s' (calls _ s1 _ answer choice reach e) v =
    subst Safe e (caller_step-Safe answer choice s1 (Reaches-Valid s s1 reach v))
Reaches-Valid s s' (runs _ s1 _ event reach e) v =
    subst Safe e (runner_step-Safe event s1 (Reaches-Valid s s1 reach v))

-- The call that made or freed the thread has returned.
abbrev pub at_end : Caller → Bool
at_end is_null = true
at_end is_freed = true
at_end _ = false

-- Nothing of the thread is left, and `run_thread` is not on its way.
abbrev pub Released : System → Type 0
Released s =
    (s.shared.has_thread ≡ false)
    × (s.shared.has_reactor ≡ false)
    × (s.shared.has_queue ≡ false)
    × (s.shared.has_sem ≡ false)
    × (is_mid s.runner ≡ false)

Valid-Released :
    (c : Caller) (r : Runner) (f : Shared)
    → Valid c r f
    → (at_end c ≡ false) ⊎ Released (at_places f c r)
Valid-Released is_null r f v = let (a, b, q, p, t) = v.flags in inr (t, p, q, b, v.gone refl)
Valid-Released is_freed r f v = let (a, b, q, p, t) = v.flags in inr (t, p, q, b, v.gone refl)
Valid-Released _ r f v = inl refl

-- In whatever order the statements of the two threads go, from `thread_new_sized` to the end of
-- `thread_free`, no step uses the thread, its reactor, its queue, the semaphore or the frame of
-- `thread_new_sized` where it is not there. When `thread_new_sized` has returned NULL, or `thread_free`
-- has returned, the thread, its reactor, its queue and the semaphore are all released, and `run_thread`
-- has returned or was never started. `reactor_register` is taken to give an object.
pub Reaches-Released :
    (s : System) (answer : Bool) (choice : Choice) (event : Event)
    → Reaches begin s
    → (caller_step answer choice s ≢ faults)
      × (runner_step event s ≢ faults)
      × ((at_end s.caller ≡ false) ⊎ Released s)
Reaches-Released s answer choice event reach =
    let v = Reaches-Valid begin s reach begin-Valid in
    (
      (λ e. let bad : false ≡ true = subst Safe e (caller_step-Safe answer choice s v) in cc),
      (λ e. let bad : false ≡ true = subst Safe e (runner_step-Safe event s v) in cc),
      Valid-Released s.caller s.runner s.shared v,
    )
