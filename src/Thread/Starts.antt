-- ===== src/Thread/Starts.antt =====
-- The caller of `thread_new_sized`: its steps up to the test of `start.error`.
use osi.Prelude.{
  ℕ, zero, suc, ◌+◌, ◌≡◌, refl, sym, ap, ◌∙◌, subst, Bool, true, false, if◌then◌else◌, arith,
}
use osi.Thread.Life.{
  Shared, Caller, Choice, Runner, goes, take_from, caller_from, making_reactor, making_queue,
  making_sem, creating, waiting, started, checking, error_queue, holding, absent, entering, failing,
  failed, named, posting, registering, running, unregistering, draining, item_waiting, exited,
}
use osi.Thread.Places.{place, posts_of, is_mid, Error, Flags, Valid, Safe}
use osi.Thread.Alive.{at_places}

-- Only a failure that was posted is an error.
Error-exited :
    (r : Runner) (e : Bool) (n : ℕ) → Error r e → e ≡ true → n + 1 ≡ posts_of r → r ≡ exited
Error-exited absent e n h is p = let bad : true ≡ false = sym is ∙ h in cc
Error-exited entering e n h is p = let bad : true ≡ false = sym is ∙ h in cc
Error-exited failing e n h is p = let bad : true ≡ false = sym is ∙ h in cc
Error-exited failed e n h is p = absurd (omega (arith, p))
Error-exited named e n h is p = let bad : true ≡ false = sym is ∙ h in cc
Error-exited posting e n h is p = let bad : true ≡ false = sym is ∙ h in cc
Error-exited registering e n h is p = let bad : true ≡ false = sym is ∙ h in cc
Error-exited running e n h is p = let bad : true ≡ false = sym is ∙ h in cc
Error-exited unregistering e n h is p = let bad : true ≡ false = sym is ∙ h in cc
Error-exited draining e n h is p = let bad : true ≡ false = sym is ∙ h in cc
Error-exited item_waiting e n h is p = let bad : true ≡ false = sym is ∙ h in cc
Error-exited exited e n h is p = refl

module _ {c : Caller} {r : Runner} {f : Shared} (v : Valid c r f) where
  idle : (place c).unborn ≡ true → is_mid r ≡ false
  idle u = ap is_mid (v.unborn u)

  -- Another place, where nothing that the runner looks at has changed.
  pub on :
      {c' : Caller} {f' : Shared}
      → Flags c' f'
      → f'.start_sem + (place c').taken ≡ f.start_sem + (place c).taken
      → (place c).gone ≡ false
      → f'.error ≡ f.error
      → ((place c').gone ≡ true → is_mid r ≡ false)
      → ((place c').unborn ≡ true → (place c).unborn ≡ true)
      → ((place c').told ≡ true → f'.stop ≡ true)
      → ((place c').waits ≡ false → f'.is_joined ≡ true → r ≡ exited)
      → Valid c' r f'
  on {c'} {f'} flags sem here err gone unborn told joined = record {
    flags = flags;
    sem = λ g. sem ∙ v.sem here;
    err = subst (Error r) (sym err) v.err;
    gone = gone;
    unborn = λ u. v.unborn (unborn u);
    told = told;
    joined = joined;
  }

  -- A place behind one at which the runner has returned or was never started.
  pub behind :
      {c' : Caller} {f' : Shared}
      → Flags c' f'
      → is_mid r ≡ false
      → (place c').gone ≡ true
      → f'.error ≡ f.error
      → (place c').unborn ≡ false
      → ((place c').told ≡ true → f'.stop ≡ true)
      → ((place c').waits ≡ false → f'.is_joined ≡ true → r ≡ exited)
      → Valid c' r f'
  behind {c'} {f'} flags is here err later told joined = record {
    flags = flags;
    sem = λ g. let bad : true ≡ false = sym here ∙ g in cc;
    err = subst (Error r) (sym err) v.err;
    gone = λ g. is;
    unborn = λ u. let bad : true ≡ false = sym u ∙ later in cc;
    told = told;
    joined = joined;
  }

pub making_reactor-Safe :
    (answer : Bool) (choice : Choice) (r : Runner) (f : Shared)
    → Valid making_reactor r f
    → Safe (caller_from answer choice (at_places f making_reactor r) making_reactor)
making_reactor-Safe true choice r f v =
    let (a, b, q, p, t) = v.flags in
    on v {c' = making_queue} {f' = record f { has_reactor = true }} (a, b, q, refl, t) refl refl
      refl (λ g. cc) (λ u. refl) (λ g. cc) v.joined
making_reactor-Safe false choice r f v =
    let (a, b, q, p, t) = v.flags in
    behind v {c' = error_queue} {f' = record f { has_reactor = false }} (a, b, tt, tt, t)
      (idle v refl) refl refl refl (λ g. cc) v.joined

pub making_queue-Safe :
    (answer : Bool) (choice : Choice) (r : Runner) (f : Shared)
    → Valid making_queue r f
    → Safe (caller_from answer choice (at_places f making_queue r) making_queue)
making_queue-Safe true choice r f v =
    let (a, b, q, p, t) = v.flags in
    on v {c' = making_sem} {f' = record f { has_queue = true }} (a, b, refl, p, t) refl refl refl
      (λ g. cc) (λ u. refl) (λ g. cc) v.joined
making_queue-Safe false choice r f v =
    let (a, b, q, p, t) = v.flags in
    behind v {c' = error_queue} {f' = record f { has_queue = false }} (a, b, tt, tt, t)
      (idle v refl) refl refl refl (λ g. cc) v.joined

pub making_sem-Safe :
    (answer : Bool) (choice : Choice) (r : Runner) (f : Shared)
    → Valid making_sem r f
    → Safe (caller_from answer choice (at_places f making_sem r) making_sem)
making_sem-Safe true choice r f v =
    let (a, b, q, p, t) = v.flags in
    on v {c' = creating} {f' = record f { has_sem = true }} (a, refl, q, p, t) refl refl refl
      (λ g. cc) (λ u. refl) (λ g. cc) v.joined
making_sem-Safe false choice r f v =
    let (a, b, q, p, t) = v.flags in
    behind v {c' = error_queue} {f' = record f { has_sem = false }} (a, refl, tt, tt, t)
      (idle v refl) refl refl refl (λ g. cc) v.joined

pub creating-Safe :
    (answer : Bool) (choice : Choice) (r : Runner) (f : Shared)
    → Valid creating r f
    → Safe (caller_from answer choice (at_places f creating r) creating)
creating-Safe true choice r f v =
    let born : r ≡ absent = v.unborn refl in
    record {
      flags = v.flags;
      sem = λ g. v.sem refl ∙ ap posts_of born;
      err = subst (λ i. Error i f.error) born v.err;
      gone = λ g. cc;
      unborn = λ u. cc;
      told = λ g. cc;
      joined = λ w g. let bad : absent ≡ exited = sym born ∙ v.joined refl g in cc;
    }
creating-Safe false choice r f v =
    on v {c' = waiting} v.flags refl refl refl (λ g. cc) (λ u. refl) (λ g. cc) v.joined

pub take_from-Safe :
    (r : Runner) (f : Shared) (n : ℕ)
    → f.start_sem ≡ n
    → Valid waiting r f
    → Safe (take_from (at_places f waiting r) n)
take_from-Safe r f zero e v = tt
take_from-Safe r f (suc n) e v =
    on v {c' = started} {f' = record f { start_sem = n }} v.flags (omega arith) refl refl (λ g. cc)
      (λ u. cc) (λ g. cc) v.joined

pub checking-Safe :
    (r : Runner) (f : Shared) (b : Bool)
    → f.error ≡ b
    → Valid checking r f
    → Safe (
        if b
        then goes (at_places f error_queue r)
        else goes (at_places (record f { has_start = false }) holding r))
checking-Safe r f true e v =
    let (a, b, q, p, t) = v.flags in
    behind v {c' = error_queue} (a, b, tt, tt, t)
      (ap is_mid (Error-exited r f.error f.start_sem v.err e (v.sem refl))) refl refl refl (λ g. cc)
      v.joined
checking-Safe r f false e v =
    let (a, b, q, p, t) = v.flags in
    on v {c' = holding} {f' = record f { has_start = false }} (refl, b, q, p, t) refl refl refl
      (λ g. cc) (λ u. cc) (λ g. cc) v.joined
