-- ===== src/Thread/Ends.antt =====
-- The caller that has a thread, and the releases: no step meets what is not there.
use osi.Prelude.{◌+◌, ◌≡◌, refl, ap, Bool, true, false, ◌&&◌, if◌then◌else◌}
use osi.Thread.Life.{
  Shared, Caller, Choice, to_stop, to_join, to_free, Runner, goes, take_from, after_join, join_from,
  choose_from, caller_from, making_reactor, making_queue, making_sem, creating, waiting, started,
  checking, error_queue, error_reactor, error_thread, is_null, holding, joining, in_join,
  free_queue, free_reactor, free_thread, is_freed, absent, entering, failing, failed, named,
  posting, registering, running, unregistering, draining, item_waiting, exited,
}
use osi.Thread.Places.{place, is_mid, Flags, Valid, Safe}
use osi.Thread.Alive.{at_places, using-Safe, both}
use osi.Thread.Starts.{
  on, behind, making_reactor-Safe, making_queue-Safe, making_sem-Safe, creating-Safe,
  take_from-Safe, checking-Safe,
}

choose_from-Safe :
    (choice : Choice) (r : Runner) (f : Shared)
    → Valid holding r f
    → Safe (choose_from choice (at_places f holding r))
choose_from-Safe to_stop r f v =
    let (a, b, q, p, t) = v.flags in
    using-Safe (f.has_thread && f.has_reactor)
      (goes (at_places (record f { stop = true }) holding r)) (both f.has_thread f.has_reactor t p)
      (on v {c' = holding} {f' = record f { stop = true }} v.flags refl refl refl (λ g. cc)
        (λ u. cc) (λ g. cc) v.joined)
choose_from-Safe to_join r f v =
    on v {c' = joining false} v.flags refl refl refl (λ g. cc) (λ u. cc) (λ g. cc) v.joined
choose_from-Safe to_free r f v =
    let (a, b, q, p, t) = v.flags in
    using-Safe (f.has_thread && f.has_reactor)
      (goes (at_places (record f { stop = true }) (joining true) r))
      (both f.has_thread f.has_reactor t p)
      (on v {c' = joining true} {f' = record f { stop = true }} v.flags refl refl refl (λ g. cc)
        (λ u. cc) (λ g. refl) v.joined)

-- The runner has returned, and the caller leaves `thread_join`.
joined-Safe :
    (frees : Bool) (c : Caller) (r : Runner) (f : Shared)
    → (place c).gone ≡ false
    → f.start_sem + 1 ≡ f.start_sem + (place c).taken
    → Flags holding f
    → (frees ≡ true → f.stop ≡ true)
    → Valid c r f
    → r ≡ exited
    → Safe (goes (at_places f (after_join frees) r))
joined-Safe true c r f here sem flags told v is =
    behind v {c' = free_queue} flags (ap is_mid is) refl refl refl told (λ w j. is)
joined-Safe false c r f here sem flags told v is =
    on v {c' = holding} flags sem here refl (λ g. cc) (λ u. cc) (λ g. cc) (λ w j. is)

joining-Safe :
    (frees : Bool) (r : Runner) (f : Shared) (b : Bool)
    → f.is_joined ≡ b
    → Valid (joining frees) r f
    → Safe (
        if b
        then goes (at_places f (after_join frees) r)
        else goes (at_places (record f { is_joined = true }) (in_join frees) r))
joining-Safe frees r f true e v =
    joined-Safe frees (joining frees) r f refl refl v.flags v.told v (v.joined refl e)
joining-Safe frees r f false e v =
    on v {c' = in_join frees} {f' = record f { is_joined = true }} v.flags refl refl refl (λ g. cc)
      (λ u. cc) v.told (λ w. cc)

join_from-Safe :
    (frees : Bool) (f : Shared) (r : Runner)
    → Valid (in_join frees) r f
    → Safe (join_from frees (at_places f (in_join frees) r) r)
join_from-Safe frees f absent v = tt
join_from-Safe frees f entering v = tt
join_from-Safe frees f failing v = tt
join_from-Safe frees f failed v = tt
join_from-Safe frees f named v = tt
join_from-Safe frees f posting v = tt
join_from-Safe frees f registering v = tt
join_from-Safe frees f running v = tt
join_from-Safe frees f unregistering v = tt
join_from-Safe frees f draining v = tt
join_from-Safe frees f item_waiting v = tt
join_from-Safe frees f exited v =
    joined-Safe frees (in_join frees) exited f refl refl v.flags v.told v refl

-- The releases, which the runner no longer looks at.
module _ (r : Runner) (f : Shared) where
  error_queue-Safe :
      Valid error_queue r f
      → Safe (goes (at_places (record f { has_queue = false }) error_reactor r))
  error_queue-Safe v =
      let (a, b, q, p, t) = v.flags in
      behind v {c' = error_reactor} {f' = record f { has_queue = false }} (a, b, refl, tt, t)
        (v.gone refl) refl refl refl (λ g. cc) v.joined

  error_reactor-Safe :
      Valid error_reactor r f
      → Safe (goes (at_places (record f { has_reactor = false }) error_thread r))
  error_reactor-Safe v =
      let (a, b, q, p, t) = v.flags in
      behind v {c' = error_thread} {f' = record f { has_reactor = false }} (a, b, q, refl, t)
        (v.gone refl) refl refl refl (λ g. cc) v.joined

  error_thread-Safe :
      Valid error_thread r f
      → Safe (goes (at_places (record f { has_thread = false; has_start = false }) is_null r))
  error_thread-Safe v =
      let (a, b, q, p, t) = v.flags in
      behind v {c' = is_null} {f' = record f { has_thread = false; has_start = false }}
        (refl, b, q, p, refl) (v.gone refl) refl refl refl (λ g. cc) v.joined

  free_queue-Safe :
      Valid free_queue r f → Safe (goes (at_places (record f { has_queue = false }) free_reactor r))
  free_queue-Safe v =
      let (a, b, q, p, t) = v.flags in
      behind v {c' = free_reactor} {f' = record f { has_queue = false }} (a, b, refl, p, t)
        (v.gone refl) refl refl refl v.told v.joined

  free_reactor-Safe :
      Valid free_reactor r f
      → Safe (goes (at_places (record f { has_reactor = false }) free_thread r))
  free_reactor-Safe v =
      let (a, b, q, p, t) = v.flags in
      behind v {c' = free_thread} {f' = record f { has_reactor = false }} (a, b, q, refl, t)
        (v.gone refl) refl refl refl v.told v.joined

  free_thread-Safe :
      Valid free_thread r f → Safe (goes (at_places (record f { has_thread = false }) is_freed r))
  free_thread-Safe v =
      let (a, b, q, p, t) = v.flags in
      behind v {c' = is_freed} {f' = record f { has_thread = false }} (a, b, q, p, refl)
        (v.gone refl) refl refl refl v.told v.joined

pub caller_from-Safe :
    (answer : Bool) (choice : Choice) (r : Runner) (f : Shared) (c : Caller)
    → Valid c r f
    → Safe (caller_from answer choice (at_places f c r) c)
caller_from-Safe answer choice r f making_reactor v = making_reactor-Safe answer choice r f v
caller_from-Safe answer choice r f making_queue v = making_queue-Safe answer choice r f v
caller_from-Safe answer choice r f making_sem v = making_sem-Safe answer choice r f v
caller_from-Safe answer choice r f creating v = creating-Safe answer choice r f v
caller_from-Safe answer choice r f waiting v =
    using-Safe f.has_sem (take_from (at_places f waiting r) f.start_sem) v.flags.1
      (take_from-Safe r f f.start_sem refl v)
caller_from-Safe answer choice r f started v =
    let (a, b, q, p, t) = v.flags in
    using-Safe f.has_sem (goes (at_places (record f { has_sem = false }) checking r)) b (
      on v {c' = checking} {f' = record f { has_sem = false }} (a, refl, q, p, t) refl refl refl
        (λ g. cc) (λ u. cc) (λ g. cc) v.joined)
caller_from-Safe answer choice r f checking v = checking-Safe r f f.error refl v
caller_from-Safe answer choice r f error_queue v = error_queue-Safe r f v
caller_from-Safe answer choice r f error_reactor v = error_reactor-Safe r f v
caller_from-Safe answer choice r f error_thread v =
    using-Safe f.has_thread
      (goes (at_places (record f { has_thread = false; has_start = false }) is_null r)) v.flags.4
      (error_thread-Safe r f v)
caller_from-Safe answer choice r f is_null v = tt
caller_from-Safe answer choice r f holding v = choose_from-Safe choice r f v
caller_from-Safe answer choice r f (joining frees) v =
    using-Safe f.has_thread
      (if f.is_joined
        then goes (at_places f (after_join frees) r)
        else goes (at_places (record f { is_joined = true }) (in_join frees) r))
      v.flags.4 (joining-Safe frees r f f.is_joined refl v)
caller_from-Safe answer choice r f (in_join frees) v = join_from-Safe frees f r v
caller_from-Safe answer choice r f free_queue v =
    using-Safe (f.has_thread && f.has_queue)
      (goes (at_places (record f { has_queue = false }) free_reactor r))
      (both f.has_thread f.has_queue v.flags.4 v.flags.2) (free_queue-Safe r f v)
caller_from-Safe answer choice r f free_reactor v =
    using-Safe (f.has_thread && f.has_reactor)
      (goes (at_places (record f { has_reactor = false }) free_thread r))
      (both f.has_thread f.has_reactor v.flags.4 v.flags.3) (free_reactor-Safe r f v)
caller_from-Safe answer choice r f free_thread v =
    using-Safe f.has_thread (goes (at_places (record f { has_thread = false }) is_freed r))
      v.flags.4 (free_thread-Safe r f v)
caller_from-Safe answer choice r f is_freed v = tt
