-- ===== src/Reactor/Tests.antt =====
-- Two objects: one is unregistered in its own callback, the other by another thread.
use osi.Prelude.{ℕ, ◌⊎◌, ◌≡◌, ◌≢◌, refl, inr, true, false, none, some, [], ◌∷◌}
use osi.Reactor.{
  Object, Event, Reactor, new, Outcome, goes, faults, outside, register, unregister,
  unregister_append, unregister_free, start, run_reactor, run_once, times, forever, Wait,
  wait_gives, wait_fails, Action, registers, unregisters, appends, frees, starts, moves, act, held,
  status_done,
}
use osi.Reactor.Invariant.{WaitOk}
use osi.Reactor.Reach.{
  Reaches, stays, acts, new-IsValid, Reaches-IsValid, Reaches-unfaulted, Reaches-freed,
  unregistering,
}
use osi.Reactor.Once.{ReturnsWith, run_once-returns}

abbrev reader : ℕ → Object
reader fd = record { fd = fd; context = 0; read_ready = some 1; write_ready = none }

abbrev ready : ℕ → Event
ready p = record { ptr = p; readable = true; writable = false }

abbrev both : Wait
both = wait_gives (ready 10 ∷ ready 20 ∷ [])

-- The state that an outcome goes on with.
abbrev state : Outcome → Reactor
state (goes r) = r
state _ = new

abbrev step : Action → Reactor → Reactor
step a r = state (act a r)

abbrev s1 : Reactor
unfolding act register unregister unregister_append unregister_free start run_reactor
s1 = step (registers 10 (reader 3) true) new

s1-Reaches : Reaches new s1
unfolding act register unregister unregister_append unregister_free start run_reactor
s1-Reaches = acts new new s1 (registers 10 (reader 3) true) (stays new) ((λ e. cc), refl) refl

abbrev s2 : Reactor
unfolding act register unregister unregister_append unregister_free start run_reactor
s2 = step (registers 20 (reader 4) true) s1

s2-Reaches : Reaches new s2
unfolding act register unregister unregister_append unregister_free start run_reactor
s2-Reaches = acts new s1 s2 (registers 20 (reader 4) true) s1-Reaches ((λ e. cc), refl) refl

abbrev s3 : Reactor
unfolding act register unregister unregister_append unregister_free start run_reactor
s3 = step (starts forever) s2

s3-Reaches : Reaches new s3
unfolding act register unregister unregister_append unregister_free start run_reactor
s3-Reaches = acts new s2 s3 (starts forever) s2-Reaches tt refl

abbrev s4 : Reactor
unfolding act register unregister unregister_append unregister_free start run_reactor
s4 = step (moves wait_fails) s3

s4-Reaches : Reaches new s4
unfolding act register unregister unregister_append unregister_free start run_reactor
s4-Reaches = acts new s3 s4 (moves wait_fails) s3-Reaches tt refl

abbrev s5 : Reactor
unfolding act register unregister unregister_append unregister_free start run_reactor
s5 = step (moves both) s4

s5-Reaches : Reaches new s5
unfolding act register unregister unregister_append unregister_free start run_reactor
s5-Reaches =
    acts new s4 s5 (moves both) s4-Reaches
      ((inr (3, refl), (inr (4, refl), tt)), ((refl, tt), (tt, tt))) refl

abbrev s6 : Reactor
unfolding act register unregister unregister_append unregister_free start run_reactor
s6 = step (unregisters false 20) s5

s6-Reaches : Reaches new s6
unfolding act register unregister unregister_append unregister_free start run_reactor
s6-Reaches = acts new s5 s6 (unregisters false 20) s5-Reaches (refl, λ e. cc) refl

abbrev s7 : Reactor
unfolding act register unregister unregister_append unregister_free start run_reactor
s7 = step (moves wait_fails) s6

s7-Reaches : Reaches new s7
unfolding act register unregister unregister_append unregister_free start run_reactor
s7-Reaches = acts new s6 s7 (moves wait_fails) s6-Reaches tt refl

abbrev s8 : Reactor
unfolding act register unregister unregister_append unregister_free start run_reactor
s8 = step (moves wait_fails) s7

s8-Reaches : Reaches new s8
unfolding act register unregister unregister_append unregister_free start run_reactor
s8-Reaches = acts new s7 s8 (moves wait_fails) s7-Reaches tt refl

abbrev s9 : Reactor
unfolding act register unregister unregister_append unregister_free start run_reactor
s9 = step (appends 20) s8

s9-Reaches : Reaches new s9
unfolding act register unregister unregister_append unregister_free start run_reactor
s9-Reaches = acts new s8 s9 (appends 20) s8-Reaches tt refl

abbrev s10 : Reactor
unfolding act register unregister unregister_append unregister_free start run_reactor
s10 = step (unregisters true 10) s9

s10-Reaches : Reaches new s10
unfolding act register unregister unregister_append unregister_free start run_reactor
s10-Reaches = acts new s9 s10 (unregisters true 10) s9-Reaches (refl, λ _. refl) refl

abbrev t1 : Reactor
unfolding act register unregister unregister_append unregister_free start run_reactor
t1 = step (registers 10 (reader 3) true) new

t1-Reaches : Reaches new t1
unfolding act register unregister unregister_append unregister_free start run_reactor
t1-Reaches = acts new new t1 (registers 10 (reader 3) true) (stays new) ((λ e. cc), refl) refl

abbrev t2 : Reactor
unfolding act register unregister unregister_append unregister_free start run_reactor
t2 = step (starts (times 1)) t1

t2-Reaches : Reaches new t2
unfolding act register unregister unregister_append unregister_free start run_reactor
t2-Reaches = acts new t1 t2 (starts (times 1)) t1-Reaches tt refl

abbrev t3 : Reactor
unfolding act register unregister unregister_append unregister_free start run_reactor
t3 = step (moves wait_fails) t2

t3-Reaches : Reaches new t3
unfolding act register unregister unregister_append unregister_free start run_reactor
t3-Reaches = acts new t2 t3 (moves wait_fails) t2-Reaches tt refl

abbrev t4 : Reactor
unfolding act register unregister unregister_append unregister_free start run_reactor
t4 = step (moves (wait_gives (ready 10 ∷ []))) t3

t4-Reaches : Reaches new t4
unfolding act register unregister unregister_append unregister_free start run_reactor
t4-Reaches =
    acts new t3 t4 (moves (wait_gives (ready 10 ∷ []))) t3-Reaches ((inr (3, refl), tt), (tt, tt))
      refl

abbrev t5 : Reactor
unfolding act register unregister unregister_append unregister_free start run_reactor
t5 = step (moves wait_fails) t4

t5-Reaches : Reaches new t5
unfolding act register unregister unregister_append unregister_free start run_reactor
t5-Reaches = acts new t4 t5 (moves wait_fails) t4-Reaches tt refl

abbrev t6 : Reactor
unfolding act register unregister unregister_append unregister_free start run_reactor
t6 = step (moves wait_fails) t5

t6-Reaches : Reaches new t6
unfolding act register unregister unregister_append unregister_free start run_reactor
t6-Reaches = acts new t5 t6 (moves wait_fails) t5-Reaches tt refl

abbrev t7 : Reactor
unfolding act register unregister unregister_append unregister_free start run_reactor
t7 = step (unregisters true 10) t6

t7-Reaches : Reaches new t7
unfolding act register unregister unregister_append unregister_free start run_reactor
t7-Reaches = acts new t6 t7 (unregisters true 10) t6-Reaches (refl, λ _. refl) refl

abbrev t8 : Reactor
unfolding act register unregister unregister_append unregister_free start run_reactor
t8 = step (moves wait_fails) t7

t8-Reaches : Reaches new t8
unfolding act register unregister unregister_append unregister_free start run_reactor
t8-Reaches = acts new t7 t8 (moves wait_fails) t7-Reaches tt refl

abbrev t9 : Reactor
unfolding act register unregister unregister_append unregister_free start run_reactor
t9 = step (moves wait_fails) t8

t9-Reaches : Reaches new t9
unfolding act register unregister unregister_append unregister_free start run_reactor
t9-Reaches = acts new t8 t9 (moves wait_fails) t8-Reaches tt refl

abbrev t10 : Reactor
unfolding act register unregister unregister_append unregister_free start run_reactor
t10 = step (moves wait_fails) t9

t10-Reaches : Reaches new t10
unfolding act register unregister unregister_append unregister_free start run_reactor
t10-Reaches = acts new t9 t10 (moves wait_fails) t9-Reaches tt refl

Reaches-unfaulted_example : act (frees 20) s10 ≢ faults
Reaches-unfaulted_example = Reaches-unfaulted s10 (frees 20) s10-Reaches tt

-- The object 10 was freed, and 20 is registered.
abbrev t11 : Reactor
unfolding act register unregister unregister_append unregister_free start run_reactor
t11 = step (registers 20 (reader 4) true) t10

t11-Reaches : Reaches new t11
unfolding act register unregister unregister_append unregister_free start run_reactor
t11-Reaches = acts new t10 t11 (registers 20 (reader 4) true) t10-Reaches ((λ e. cc), refl) refl

held_at_t11 : held t11.loop ≡ 0
unfolding t11
held_at_t11 = refl

object_at_t11 : t11.object 20 ≡ some (reader 4)
unfolding t11
object_at_t11 = refl

Reaches-freed_example : (t11.interest 4 ≡ some 20) ⊎ (unregistering (t11.stage 20) ≡ true)
Reaches-freed_example = Reaches-freed t11 20 (reader 4) t11-Reaches held_at_t11 object_at_t11

s2_outside : s2.loop ≡ outside none
unfolding s2
s2_outside = refl

both_reported : WaitOk s2 both
unfolding s2
both_reported = ((inr (3, refl), (inr (4, refl), tt)), ((refl, tt), (tt, tt)))

run_once-returns_example : ReturnsWith (run_once both s2) status_done
run_once-returns_example =
    run_once-returns both s2 none s2_outside (Reaches-IsValid new s2 s2-Reaches new-IsValid)
      both_reported
