-- ===== src/Future/Tests.antt =====
-- The value 7, given before it is waited for, and an immediate future.
use osi.Prelude.{◌≡◌, ◌≢◌, ◌⊎◌, refl, true}
use osi.Future.{
  new_immediate, System, is_ready, calls_await, awaited, Outcome, faults, goes, ready_step,
  await_step, Reaches, stays, readies, awaits, has_returned,
}
use osi.Future.Reach.{begin, Gives, goes_on, Reaches-Gives}

abbrev state : Outcome → System
state (goes s) = s
state _ = begin 0

abbrev s1 : System
unfolding ready_step
s1 = state (ready_step (begin 7))

abbrev s2 : System
unfolding ready_step
s2 = state (ready_step s1)

abbrev s3 : System
unfolding ready_step
s3 = state (ready_step s2)

abbrev s4 : System
unfolding await_step
s4 = state (await_step s3)

s4-Reaches : Reaches (begin 7) s4
unfolding ready_step await_step
s4-Reaches =
    awaits _ s3 _
      (readies _ s2 _ (readies _ s1 _ (readies _ (begin 7) _ (stays (begin 7)) refl) refl) refl)
      refl

immediate :
    await_step (
      state (
        await_step (
          state (
            await_step (record {
              future = new_immediate 5;
              readying = is_ready 5;
              awaiting = calls_await;
            })))))
    ≡ goes (record {
      future = record (new_immediate 5) { is_freed = true };
      readying = is_ready 5;
      awaiting = awaited 5;
    })
unfolding await_step
immediate = refl

Reaches-Gives_example :
    (ready_step s4 ≢ faults)
    × (await_step s4 ≢ faults)
    × Gives 7 s4.awaiting
    × ((goes_on (ready_step s4) ≡ true)
        ⊎ ((goes_on (await_step s4) ≡ true) ⊎ (has_returned s4.awaiting ≡ true)))
Reaches-Gives_example = Reaches-Gives 7 s4 s4-Reaches
