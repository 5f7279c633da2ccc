-- ===== src/Thread/Progress.antt =====
-- Who can go on.
use osi.Prelude.{
  ℕ, zero, suc, ◌≡◌, ◌≢◌, ◌⊎◌, inl, inr, refl, sym, ap, ◌∙◌, Bool, true, false, ◌&&◌, if◌then◌else◌,
  arith,
}
use osi.Thread.Life.{
  System, blocks, goes, using, runner_from, runner_step, caller_from, caller_step, take_from, begin,
  Reaches, stays, calls, runs, Shared, Caller, to_stop, Runner, making_reactor, making_queue,
  making_sem, creating, waiting, started, checking, error_queue, error_reactor, error_thread,
  is_null, holding, joining, in_join, free_queue, free_reactor, free_thread, is_freed, absent,
  entering, failing, failed, named, posting, registering, running, unregistering, draining,
  item_waiting, exited, well,
}
use osi.Thread.Places.{is_mid, Valid}
use osi.Thread.Alive.{at_places, both}
use osi.Thread.Reach.{at_end, Reaches-Valid, begin-Valid}
use osi.Thread.Moves.{goes_on, using-goes_on, runner_goes, running-goes}

-- `pthread_create` has failed, and `thread_new_sized` waits: a later state is still this one.
abbrev pub Unstarted : System → System → Type 0
Unstarted s s' = (s.caller ≡ waiting) × (s.runner ≡ absent) × (s' ≡ s)

-- The caller waits in a `thread_join` of its own for a thread that it did not stop.
abbrev pub Unstopped : System → Type 0
Unstopped s = (s.caller ≡ in_join false) × (s.runner ≡ running) × (s.shared.stop ≡ false)

-- The caller waits in `pthread_join` for a thread in which an item waits.
abbrev pub ItemWaits : System → Type 0
ItemWaits s = ((frees : Bool) × (s.caller ≡ in_join frees)) × (s.runner ≡ item_waiting)

-- A step of the caller; or one of the runner where no call fails and no item stops the thread or waits.
abbrev pub GoesOn : System → Type 0
GoesOn s = (goes_on (caller_step true to_stop s) ≡ true) ⊎ (goes_on (runner_step well s) ≡ true)

abbrev pub Halts : System → System → Type 0
Halts s s' = (at_end s.caller ≡ true) ⊎ (Unstarted s s' ⊎ (Unstopped s ⊎ ItemWaits s))

blocked :
    (f : Shared) (s2 : System)
    → f.start_sem ≡ 0
    → using f.has_sem (take_from (at_places f waiting absent) f.start_sem) ≢ goes s2
blocked f s2 e =
    rw e (elim f.has_sem as (λ b. using b (take_from (at_places f waiting absent) 0) ≢ goes s2) [
      | true ↦ λ p. cc
      | false ↦ λ p. cc
    ])

unstarted-stays :
    (f : Shared) (s s' : System)
    → f.start_sem ≡ 0
    → s ≡ at_places f waiting absent
    → Reaches s s'
    → s' ≡ at_places f waiting absent
unfolding caller_step runner_step
unstarted-stays f s s' zero_sem e (stays _) = e
unstarted-stays f s s' zero_sem e (calls _ s1 _ answer choice reach p) =
    let same = unstarted-stays f s s1 zero_sem e reach in
    absurd (blocked f s' zero_sem (sym (ap (caller_step answer choice) same) ∙ p))
unstarted-stays f s s' zero_sem e (runs _ s1 _ event reach p) =
    let same = unstarted-stays f s s1 zero_sem e reach in
    let bad : blocks ≡ goes s' = sym (ap (runner_step event) same) ∙ p in cc

-- Who goes on, where the caller is at a place: what `caller_step` and `runner_step` compute to.
abbrev Either : Caller → Shared → Runner → Type 0
Either c f r =
    (goes_on (caller_from true to_stop (at_places f c r) c) ≡ true)
    ⊎ (goes_on (runner_from well (at_places f c r) r) ≡ true)

by_runner :
    (c : Caller) (f : Shared) (r : Runner)
    → Valid c r f
    → is_mid r ≡ true
    → r ≢ running
    → r ≢ item_waiting
    → Either c f r
by_runner c f r v mid other free = inr (runner_goes c f r v mid other free)

waiting-goes :
    (f : Shared) (r : Runner)
    → Valid waiting r f
    → f.start_sem ≡ 0
    → Either waiting f r ⊎ (r ≡ absent)
waiting-goes f absent v e = inr refl
waiting-goes f entering v e = inl (by_runner waiting f entering v refl (λ i. cc) (λ i. cc))
waiting-goes f failing v e = inl (by_runner waiting f failing v refl (λ i. cc) (λ i. cc))
waiting-goes f failed v e = inl (by_runner waiting f failed v refl (λ i. cc) (λ i. cc))
waiting-goes f named v e = inl (by_runner waiting f named v refl (λ i. cc) (λ i. cc))
waiting-goes f posting v e = inl (by_runner waiting f posting v refl (λ i. cc) (λ i. cc))
waiting-goes f registering v e = absurd (omega (arith, v.sem refl))
waiting-goes f running v e = absurd (omega (arith, v.sem refl))
waiting-goes f unregistering v e = absurd (omega (arith, v.sem refl))
waiting-goes f draining v e = absurd (omega (arith, v.sem refl))
waiting-goes f item_waiting v e = absurd (omega (arith, v.sem refl))
waiting-goes f exited v e = absurd (omega (arith, v.sem refl))

taking-goes :
    (f : Shared) (r : Runner) (n : ℕ) → f.has_sem ≡ true → f.start_sem ≡ suc n → Either waiting f r
taking-goes f r n here e = inl (rw e (using-goes_on f.has_sem _ here refl))

stopped-goes :
    (f : Shared) (b : Bool)
    → f.stop ≡ b
    → Valid (in_join false) running f
    → Either (in_join false) f running ⊎ (f.stop ≡ false)
stopped-goes f true e v = inl (inr (running-goes (in_join false) f v e))
stopped-goes f false e v = inr e

joining-goes :
    (frees : Bool) (f : Shared) (r : Runner)
    → Valid (in_join frees) r f
    → Either (in_join frees) f r
      ⊎ (((frees ≡ false) × (r ≡ running) × (f.stop ≡ false)) ⊎ (r ≡ item_waiting))
joining-goes frees f absent v = absurd (omega (arith, v.sem refl))
joining-goes frees f entering v = absurd (omega (arith, v.sem refl))
joining-goes frees f failing v = absurd (omega (arith, v.sem refl))
joining-goes frees f failed v = absurd (omega (arith, v.sem refl))
joining-goes frees f named v = absurd (omega (arith, v.sem refl))
joining-goes frees f posting v = absurd (omega (arith, v.sem refl))
joining-goes frees f registering v =
    inl (by_runner (in_join frees) f registering v refl (λ i. cc) (λ i. cc))
joining-goes true f running v = inl (inr (running-goes (in_join true) f v (v.told refl)))
joining-goes false f running v = elim (stopped-goes f f.stop refl v) [
  | inl go ↦ inl go
  | inr untold ↦ inr (inl (refl, refl, untold))
]
joining-goes frees f unregistering v =
    inl (by_runner (in_join frees) f unregistering v refl (λ i. cc) (λ i. cc))
joining-goes frees f draining v =
    inl (by_runner (in_join frees) f draining v refl (λ i. cc) (λ i. cc))
joining-goes frees f item_waiting v = inr (inr refl)
joining-goes frees f exited v = inl (inl refl)

goes_on-branch : (b : Bool) (s s' : System) → goes_on (if b then goes s else goes s') ≡ true
goes_on-branch true s s' = refl
goes_on-branch false s s' = refl

unstarted-Halts :
    (f : Shared) (r : Runner) (s' : System)
    → f.start_sem ≡ 0
    → r ≡ absent
    → Reaches (at_places f waiting r) s'
    → Halts (at_places f waiting r) s'
unstarted-Halts f r s' e is reach =
    let same : at_places f waiting r ≡ at_places f waiting absent = ap (at_places f waiting) is in
    inr (inl (refl, is, unstarted-stays f (at_places f waiting r) s' e same reach ∙ sym same))

waiting-GoesOn :
    (f : Shared) (r : Runner) (s' : System) (n : ℕ)
    → f.start_sem ≡ n
    → Valid waiting r f
    → Reaches (at_places f waiting r) s'
    → Either waiting f r ⊎ Halts (at_places f waiting r) s'
waiting-GoesOn f r s' zero e v reach = elim (waiting-goes f r v e) [
  | inl go ↦ inl go
  | inr is ↦ inr (unstarted-Halts f r s' e is reach)
]
waiting-GoesOn f r s' (suc n) e v reach = inl (taking-goes f r n v.flags.1 e)

in_join-GoesOn :
    (frees : Bool) (f : Shared) (r : Runner) (s' : System)
    → Valid (in_join frees) r f
    → Either (in_join frees) f r ⊎ Halts (at_places f (in_join frees) r) s'
in_join-GoesOn frees f r s' v = elim (joining-goes frees f r v) [
  | inl go ↦ inl go
  | inr (inl (own, is, untold)) ↦ inr (inr (inr (inl (ap in_join own, is, untold))))
  | inr (inr is) ↦ inr (inr (inr (inr ((frees, refl), is))))
]

progress :
    (c : Caller) (f : Shared) (r : Runner) (s' : System)
    → Valid c r f
    → Reaches (at_places f c r) s'
    → Either c f r ⊎ Halts (at_places f c r) s'
progress making_reactor f r s' v reach = inl (inl refl)
progress making_queue f r s' v reach = inl (inl refl)
progress making_sem f r s' v reach = inl (inl refl)
progress creating f r s' v reach = inl (inl refl)
progress waiting f r s' v reach = waiting-GoesOn f r s' f.start_sem refl v reach
progress started f r s' v reach = inl (inl (using-goes_on f.has_sem _ v.flags.1 refl))
progress checking f r s' v reach = inl (inl (goes_on-branch f.error _ _))
progress error_queue f r s' v reach = inl (inl refl)
progress error_reactor f r s' v reach = inl (inl refl)
progress error_thread f r s' v reach = inl (inl (using-goes_on f.has_thread _ v.flags.4 refl))
progress is_null f r s' v reach = inr (inl refl)
progress holding f r s' v reach = inl (
    inl (
      using-goes_on (f.has_thread && f.has_reactor) _
        (both f.has_thread f.has_reactor v.flags.4 v.flags.3) refl))
progress (joining frees) f r s' v reach =
    inl (inl (using-goes_on f.has_thread _ v.flags.4 (goes_on-branch f.is_joined _ _)))
progress (in_join frees) f r s' v reach = in_join-GoesOn frees f r s' v
progress free_queue f r s' v reach = inl (
    inl (
      using-goes_on (f.has_thread && f.has_queue) _
        (both f.has_thread f.has_queue v.flags.4 v.flags.2) refl))
progress free_reactor f r s' v reach = inl (
    inl (
      using-goes_on (f.has_thread && f.has_reactor) _
        (both f.has_thread f.has_reactor v.flags.4 v.flags.3) refl))
progress free_thread f r s' v reach = inl (inl (using-goes_on f.has_thread _ v.flags.4 refl))
progress is_freed f r s' v reach = inr (inl refl)

-- In every state that the two threads of a thread's life reach, one of them can go on, where no call of
-- the runner fails and no item stops the thread or waits; or the call that made or freed the thread has returned;
-- or `pthread_create` has failed and `thread_new_sized` waits, and every later state is this one; or the
-- caller waits in a `thread_join` of its own for a thread in `reactor_start` that was not told to stop; or it
-- waits in `pthread_join` for a thread in which an item waits, as one that posts to the full queue of its
-- own thread does. `reactor_register` is taken to give an object.
pub Reaches-GoesOn : (s s' : System) → Reaches begin s → Reaches s s' → GoesOn s ⊎ Halts s s'
unfolding caller_step runner_step
Reaches-GoesOn s s' reach later =
    progress s.caller s.shared s.runner s' (Reaches-Valid begin s reach begin-Valid) later
