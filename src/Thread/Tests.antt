-- ===== src/Thread/Tests.antt =====
-- Three items, of which the reactor calls back for one, and a queue that is overfull; a thread from
-- `thread_new_sized` to `thread_free`, and one that `pthread_create` does not start.
use osi.Prelude.{ℕ, ◌≡◌, ◌≢◌, ◌⊎◌, Bool, true, false, refl, some, List, [], ◌∷◌, ◌++◌, arith}
use osi.Alarm.Schedule.{list_remove}
use osi.FixedQueue.{new, try_dequeue_call, step, dequeue_locked}
use osi.Thread.Life.{
  System, Outcome, goes, faults, Choice, to_stop, to_free, caller_step, runner_step, begin, Reaches,
  stays, calls, runs, is_freed, Event, well,
}
use osi.Thread.Reach.{at_end, Released, Reaches-Released}
use osi.Thread.Progress.{GoesOn, Halts, Reaches-GoesOn}
use osi.Thread.{drain, drain_from}
use osi.Thread.Drain.{queue, post_all, run_posted, run_all, post-drain}

abbrev log : ℕ → List ℕ → List ℕ
log item s = s ++ (item ∷ [])

-- With one item more than the rounds, the last one is taken and not run.
overfull : drain log (queue 0 1 (5 ∷ 6 ∷ 7 ∷ [])) [] ≡ some (queue 3 1 [], 5 ∷ 6 ∷ [])
unfolding drain drain_from try_dequeue_call step dequeue_locked list_remove
overfull = refl

post-drain_example :
    run_posted log (post_all (5 ∷ 6 ∷ 7 ∷ []) (new 5)) 1 []
    ≡ some (new 5, run_all log (5 ∷ 6 ∷ 7 ∷ []) [])
post-drain_example = post-drain log 2 1 (5 ∷ 6 ∷ 7 ∷ []) [] (omega arith)

data Turn : Type 0 where
  call : (answer : Bool) (choice : Choice) → Turn
  run : Event → Turn

abbrev Run : Type 0
Run = (s : System) × Reaches begin s

-- A step that does not go on is left out.
abbrev called :
    (s : System) (answer : Bool) (choice : Choice) (o : Outcome)
    → Reaches begin s
    → caller_step answer choice s ≡ o
    → Run
called s answer choice (goes s') reach e = (s', calls begin s s' answer choice reach e)
called s answer choice _ reach e = (s, reach)

abbrev ran :
    (s : System) (event : Event) (o : Outcome) → Reaches begin s → runner_step event s ≡ o → Run
ran s event (goes s') reach e = (s', runs begin s s' event reach e)
ran s event _ reach e = (s, reach)

abbrev take_turns : List Turn → Run → Run
take_turns [] (s, reach) = (s, reach)
take_turns (call answer choice ∷ ts) (s, reach) =
    take_turns ts (called s answer choice (caller_step answer choice s) reach refl)
take_turns (run event ∷ ts) (s, reach) =
    take_turns ts (ran s event (runner_step event s) reach refl)

abbrev new_turns : List Turn
new_turns = call true to_stop ∷ call true to_stop ∷ call true to_stop ∷ []

-- The thread runs its reactor, and is stopped and freed while it does.
abbrev freed : Run
freed =
    take_turns
      (new_turns
        ++ (call true to_stop
            ∷ run well
            ∷ run well
            ∷ run well
            ∷ call true to_stop
            ∷ call true to_stop
            ∷ run well
            ∷ call true to_stop
            ∷ call true to_free
            ∷ run well
            ∷ call true to_free
            ∷ run well
            ∷ run well
            ∷ call true to_free
            ∷ call true to_free
            ∷ call true to_free
            ∷ call true to_free
            ∷ []))
      (begin, stays begin)

freed-is_freed : (freed.0).caller ≡ is_freed
unfolding caller_step runner_step
freed-is_freed = refl

Reaches-Released_example :
    (caller_step true to_free freed.0 ≢ faults)
    × (runner_step well freed.0 ≢ faults)
    × ((at_end (freed.0).caller ≡ false) ⊎ Released freed.0)
Reaches-Released_example = Reaches-Released freed.0 true to_free well freed.1

abbrev unstarted : Run
unstarted = take_turns (new_turns ++ (call false to_stop ∷ [])) (begin, stays begin)

Reaches-GoesOn_example : GoesOn unstarted.0 ⊎ Halts unstarted.0 unstarted.0
Reaches-GoesOn_example = Reaches-GoesOn unstarted.0 unstarted.0 unstarted.1 (stays unstarted.0)
