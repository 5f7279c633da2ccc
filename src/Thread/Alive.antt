-- ===== src/Thread/Alive.antt =====
-- The steps of `run_thread` find what they use.
use osi.Prelude.{
  ◌+◌, ◌≡◌, refl, sym, ap, ap₂, ◌∙◌, Bool, true, false, ◌&&◌, ◌||◌, if◌then◌else◌, arith,
}
use osi.Thread.Life.{
  Shared, Caller, Runner, System, Outcome, blocks, goes, using, runner_from, post, making_reactor,
  making_queue, making_sem, creating, waiting, started, checking, error_queue, error_reactor,
  error_thread, is_null, holding, joining, in_join, free_queue, free_reactor, free_thread, is_freed,
  absent, entering, failing, failed, named, posting, registering, running, unregistering, draining,
  item_waiting, exited, Event, well, fails, item_waits, running_from, draining_from, is_failure,
}
use osi.Thread.Places.{
  Mark, there, missing, either, place, Is, posts_of, is_mid, Error, Flags, Valid, Safe,
}

pub using-Safe : (b : Bool) (o : Outcome) → b ≡ true → Safe o → Safe (using b o)
using-Safe true o e h = h
using-Safe false o e h = cc

pub both : (a b : Bool) → a ≡ true → b ≡ true → (a && b) ≡ true
both a b x y = ap₂ (λ i j. i && j) x y

-- Before the post is taken, the frame and the semaphore are there; while the runner is on its way, so
-- are the queue, the reactor and the thread.
early :
    (c : Caller)
    → (place c).unborn ≡ false
    → (place c).taken ≡ 0
    → ((place c).start ≡ there) × ((place c).sem ≡ there)
early making_reactor u e = cc
early making_queue u e = cc
early making_sem u e = cc
early creating u e = cc
early waiting u e = (refl, refl)
early started u e = absurd (omega (arith, e))
early checking u e = absurd (omega (arith, e))
early error_queue u e = absurd (omega (arith, e))
early error_reactor u e = absurd (omega (arith, e))
early error_thread u e = absurd (omega (arith, e))
early is_null u e = absurd (omega (arith, e))
early holding u e = absurd (omega (arith, e))
early (joining frees) u e = absurd (omega (arith, e))
early (in_join frees) u e = absurd (omega (arith, e))
early free_queue u e = absurd (omega (arith, e))
early free_reactor u e = absurd (omega (arith, e))
early free_thread u e = absurd (omega (arith, e))
early is_freed u e = absurd (omega (arith, e))

alive :
    (c : Caller)
    → (place c).unborn ≡ false
    → (place c).gone ≡ false
    → ((place c).queue ≡ there) × ((place c).reactor ≡ there) × ((place c).thread ≡ there)
alive making_reactor u e = cc
alive making_queue u e = cc
alive making_sem u e = cc
alive creating u e = cc
alive waiting u e = (refl, refl, refl)
alive started u e = (refl, refl, refl)
alive checking u e = (refl, refl, refl)
alive error_queue u e = cc
alive error_reactor u e = cc
alive error_thread u e = cc
alive is_null u e = cc
alive holding u e = (refl, refl, refl)
alive (joining frees) u e = (refl, refl, refl)
alive (in_join frees) u e = (refl, refl, refl)
alive free_queue u e = cc
alive free_reactor u e = cc
alive free_thread u e = cc
alive is_freed u e = cc

found : (b : Bool) (m : Mark) → Is m b → m ≡ there → b ≡ true
found b there h e = h
found b missing h e = cc
found b either h e = cc

not_true : (b : Bool) → (b ≡ true → false ≡ true) → b ≡ false
not_true true h = sym (h refl)
not_true false h = refl

-- A runner that is on its way: what it may use, and the state when it goes on.
module _ (c : Caller) (r : Runner) (f : Shared) (v : Valid c r f) (mid : is_mid r ≡ true) where
  not_gone : (place c).gone ≡ true → false ≡ true
  not_gone g = sym (v.gone g) ∙ mid

  not_unborn : (place c).unborn ≡ true → false ≡ true
  not_unborn g = sym (ap is_mid (v.unborn g)) ∙ mid

  pub uses : (f.has_queue ≡ true) × (f.has_reactor ≡ true) × (f.has_thread ≡ true)
  uses =
      let (a, b, q, p, t) = v.flags in
      let born = not_true (place c).unborn not_unborn in
      let (x, y, z) = alive c born (not_true (place c).gone not_gone) in
      (
        found f.has_queue (place c).queue q x,
        found f.has_reactor (place c).reactor p y,
        found f.has_thread (place c).thread t z,
      )

  pub uses_start : posts_of r ≡ 0 → (f.has_start ≡ true) × (f.has_sem ≡ true)
  uses_start e =
      let (a, b, q, p, t) = v.flags in
      let counted = v.sem (not_true (place c).gone not_gone) in
      let (x, y) = early c (not_true (place c).unborn not_unborn) (omega (arith, counted, e)) in
      (found f.has_start (place c).start a x, found f.has_sem (place c).sem b y)

  moves :
      (r' : Runner) (f' : Shared)
      → Flags c f'
      → f'.start_sem + posts_of r ≡ f.start_sem + posts_of r'
      → Error r' f'.error
      → f'.stop ≡ f.stop
      → f'.is_joined ≡ f.is_joined
      → Valid c r' f'
  moves r' f' flags sem err same same_joined = record {
    flags = flags;
    sem = λ g. omega (arith, sem, v.sem g);
    err = err;
    gone = λ g. let bad = not_gone g in cc;
    unborn = λ g. let bad = not_unborn g in cc;
    told = λ g. same ∙ v.told g;
    joined = λ w g.
        let bad : false ≡ true = sym (ap is_mid (v.joined w (sym same_joined ∙ g))) ∙ mid in cc;
  }

abbrev pub at_places : Shared → Caller → Runner → System
at_places f c r = record { shared = f; caller = c; runner = r }

leaving-Safe :
    (b : Bool) (c : Caller) (f : Shared)
    → Valid c running f
    → Safe (if b then goes (at_places f c unregistering) else blocks)
leaving-Safe true c f v = moves c running f v refl unregistering f v.flags refl v.err refl refl
leaving-Safe false c f v = tt

running-Safe :
    (event : Event) (c : Caller) (f : Shared)
    → Valid c running f
    → Safe (running_from event (at_places f c running))
running-Safe well c f v = leaving-Safe (f.stop || false) c f v
running-Safe fails c f v = leaving-Safe (f.stop || true) c f v
running-Safe item_waits c f v = moves c running f v refl item_waiting f v.flags refl v.err refl refl

draining-Safe :
    (event : Event) (c : Caller) (f : Shared)
    → Valid c draining f
    → Safe (draining_from event (at_places f c draining))
draining-Safe well c f v = moves c draining f v refl exited f v.flags refl tt refl refl
draining-Safe fails c f v = moves c draining f v refl exited f v.flags refl tt refl refl
draining-Safe item_waits c f v =
    moves c draining f v refl item_waiting f v.flags refl v.err refl refl

entering-Safe :
    (b : Bool) (c : Caller) (f : Shared)
    → Valid c entering f
    → Safe (goes (at_places f c (if b then failing else named)))
entering-Safe true c f v = moves c entering f v refl failing f v.flags refl v.err refl refl
entering-Safe false c f v = moves c entering f v refl named f v.flags refl v.err refl refl

pub runner_from-Safe :
    (event : Event) (c : Caller) (f : Shared) (r : Runner)
    → Valid c r f
    → Safe (runner_from event (at_places f c r) r)
runner_from-Safe event c f absent v = tt
runner_from-Safe event c f entering v =
    let (q, p, t) = uses c entering f v refl in
    let (a, b) = uses_start c entering f v refl refl in
    using-Safe (f.has_start && f.has_thread)
      (goes (at_places f c (if is_failure event then failing else named)))
      (both f.has_start f.has_thread a t) (entering-Safe (is_failure event) c f v)
runner_from-Safe event c f failing v =
    let (a, b) = uses_start c failing f v refl refl in
    let f' : Shared = record f { error = true } in
    using-Safe f.has_start (goes (at_places f' c failed)) a
      (moves c failing f v refl failed f' v.flags refl refl refl refl)
runner_from-Safe event c f failed v =
    let (a, b) = uses_start c failed f v refl refl in
    using-Safe (f.has_start && f.has_sem) (goes (at_places (post f) c exited))
      (both f.has_start f.has_sem a b)
      (moves c failed f v refl exited (post f) v.flags (omega arith) tt refl refl)
runner_from-Safe event c f named v =
    let (q, p, t) = uses c named f v refl in
    using-Safe f.has_thread (goes (at_places f c posting)) t
      (moves c named f v refl posting f v.flags refl v.err refl refl)
runner_from-Safe event c f posting v =
    let (a, b) = uses_start c posting f v refl refl in
    using-Safe (f.has_start && f.has_sem) (goes (at_places (post f) c registering))
      (both f.has_start f.has_sem a b)
      (moves c posting f v refl registering (post f) v.flags (omega arith) v.err refl refl)
runner_from-Safe event c f registering v =
    let (q, p, t) = uses c registering f v refl in
    using-Safe (f.has_thread && (f.has_queue && f.has_reactor)) (goes (at_places f c running))
      (both f.has_thread (f.has_queue && f.has_reactor) t (both f.has_queue f.has_reactor q p))
      (moves c registering f v refl running f v.flags refl v.err refl refl)
runner_from-Safe event c f running v =
    let (q, p, t) = uses c running f v refl in
    using-Safe (f.has_thread && (f.has_queue && f.has_reactor))
      (running_from event (at_places f c running))
      (both f.has_thread (f.has_queue && f.has_reactor) t (both f.has_queue f.has_reactor q p))
      (running-Safe event c f v)
runner_from-Safe event c f unregistering v =
    let (q, p, t) = uses c unregistering f v refl in
    using-Safe (f.has_thread && (f.has_queue && f.has_reactor)) (goes (at_places f c draining))
      (both f.has_thread (f.has_queue && f.has_reactor) t (both f.has_queue f.has_reactor q p))
      (moves c unregistering f v refl draining f v.flags refl v.err refl refl)
runner_from-Safe event c f draining v =
    let (q, p, t) = uses c draining f v refl in
    using-Safe (f.has_thread && f.has_queue) (draining_from event (at_places f c draining))
      (both f.has_thread f.has_queue t q) (draining-Safe event c f v)
runner_from-Safe event c f item_waiting v = tt
runner_from-Safe event c f exited v = tt
