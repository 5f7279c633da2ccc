-- ===== src/Thread/Moves.antt =====
-- The steps that go on: a runner on its way does, but in `reactor_start` or in an item that waits.
use osi.Prelude.{◌≡◌, ◌≢◌, refl, Bool, true, false, ◌&&◌}
use osi.Thread.Life.{
  Outcome, goes, using, runner_from, Shared, Caller, Runner, absent, entering, failing, failed,
  named, posting, registering, running, unregistering, draining, item_waiting, exited, well,
}
use osi.Thread.Places.{is_mid, Valid}
use osi.Thread.Alive.{at_places, both, uses, uses_start}

abbrev pub goes_on : Outcome → Bool
goes_on (goes _) = true
goes_on _ = false

pub using-goes_on :
    (b : Bool) (o : Outcome) → b ≡ true → goes_on o ≡ true → goes_on (using b o) ≡ true
using-goes_on true o e h = h
using-goes_on false o e h = cc

-- A runner on its way goes on, except in `reactor_start` of a reactor that was not told to stop and in an
-- item that waits.
module _ (c : Caller) (f : Shared) where
  abbrev RunnerGoes : Runner → Type 0
  RunnerGoes r = goes_on (runner_from well (at_places f c r) r) ≡ true

  all_there :
      {r : Runner}
      → Valid c r f
      → is_mid r ≡ true
      → f.has_thread && (f.has_queue && f.has_reactor) ≡ true
  all_there {r} v mid =
      let (q, p, t) = uses c r f v mid in
      both f.has_thread (f.has_queue && f.has_reactor) t (both f.has_queue f.has_reactor q p)

  pub runner_goes :
      (r : Runner) → Valid c r f → is_mid r ≡ true → r ≢ running → r ≢ item_waiting → RunnerGoes r
  runner_goes absent v mid other free = cc
  runner_goes entering v mid other free =
      let (q, p, t) = uses c entering f v refl in
      let (a, b) = uses_start c entering f v refl refl in
      using-goes_on (f.has_start && f.has_thread) _ (both f.has_start f.has_thread a t) refl
  runner_goes failing v mid other free =
      let (a, b) = uses_start c failing f v refl refl in using-goes_on f.has_start _ a refl
  runner_goes failed v mid other free =
      let (a, b) = uses_start c failed f v refl refl in
      using-goes_on (f.has_start && f.has_sem) _ (both f.has_start f.has_sem a b) refl
  runner_goes named v mid other free =
      let (q, p, t) = uses c named f v refl in using-goes_on f.has_thread _ t refl
  runner_goes posting v mid other free =
      let (a, b) = uses_start c posting f v refl refl in
      using-goes_on (f.has_start && f.has_sem) _ (both f.has_start f.has_sem a b) refl
  runner_goes registering v mid other free =
      using-goes_on (f.has_thread && (f.has_queue && f.has_reactor)) _ (all_there v refl) refl
  runner_goes running v mid other free = absurd (other refl)
  runner_goes unregistering v mid other free =
      using-goes_on (f.has_thread && (f.has_queue && f.has_reactor)) _ (all_there v refl) refl
  runner_goes draining v mid other free =
      let (q, p, t) = uses c draining f v refl in
      using-goes_on (f.has_thread && f.has_queue) _ (both f.has_thread f.has_queue t q) refl
  runner_goes item_waiting v mid other free = absurd (free refl)
  runner_goes exited v mid other free = cc

  pub running-goes : Valid c running f → f.stop ≡ true → RunnerGoes running
  running-goes v told =
      using-goes_on (f.has_thread && (f.has_queue && f.has_reactor)) _ (all_there v refl)
        (rw told refl)
