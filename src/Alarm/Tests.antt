-- ===== src/Alarm/Tests.antt =====
-- Two pending alarms: the alarm 1, one-shot, due at 5000 on the queue 7, and the alarm 2, every
-- 4000 ms since 1000, due at 9000 on the same queue. The timer is set for the first.
use osi.Prelude.{
  ltb, ℕ, zero, suc, ◌+◌, ◌-◌, ◌%◌, ◌≤◌, ◌<◌, ◌≡◌, refl, true, false, none, some, List, [], ◌∷◌,
  inl, inr, if◌then◌else◌, ◌==◌, arith,
}
use osi.Alarm.Types.{Alarm, State, System, new_internal}
use osi.Alarm.Schedule.{
  at_deadline, end_of_time, next_deadline, schedule_next_instance, insert_next_instance,
  reschedule_root_alarm, list_remove, remove_pending_alarm, insert_by_deadline, plan_root,
  plan_front, expires_soon, drain,
}
use osi.Alarm.Calls.{
  dispatch_front, expire, set_internal, cancel, prepared, dispatch, queue_ready, call,
}
use osi.Alarm.Valid.{IsValid}
use osi.Alarm.Reach.{begin, Reaches, stays, sets, cancels, dispatches, serves, Reaches-IsValid}
use osi.Alarm.Pending.{stale_instance}
use osi.Alarm.Cycles.{cycles, lazy_initialize-Settled, cycles-timers}
use osi.Alarm.Setup.{Answers, lazy_initialize, idle, ready}
use osi.Alarm.Preserve.{FrontTimed}
use osi.Alarm.Period.{next_deadline-periodic}

abbrev once : Alarm
once = record (new_internal [] false) {
  creation_time = 1000;
  period = 4000;
  deadline = 5000;
  queue = some 7;
  callback = some 100;
  user_data = 1;
}

abbrev ticker : Alarm
ticker = record (new_internal [] true) {
  creation_time = 1000;
  period = 4000;
  deadline = 9000;
  prev_deadline = 5000;
  queue = some 7;
  callback = some 200;
  user_data = 2;
}

abbrev store : ℕ → Alarm
store zero = new_internal [] false
store (suc zero) = once
store (suc (suc _)) = ticker

abbrev queues : ℕ → List ℕ
queues q = if q == 7 then 3 ∷ [] else []

abbrev state : State
state = record {
  alarm = store;
  alarms = 1 ∷ 2 ∷ [];
  timer_set = true;
  timer = at_deadline 5000;
  wakeup_timer = end_of_time;
  alarm_expired = 0;
  queue = queues;
  wake_locks = 1;
}

abbrev at_5000 : System
at_5000 = record { now = 5000; root_now = 5001; wakelock_ok = true; timer_ran_out = false }

state-IsValid : IsValid state
unfolding new_internal
state-IsValid = record {
  ordered = record {
    sorted = ((omega arith, tt), (tt, tt));
    distinct = (refl, (refl, tt));
    active = ((refl, omega arith), ((refl, omega arith), tt));
  };
  locked = refl;
}

deadline_positive :
    (id : ℕ) → 0 < next_deadline 5000 (record (store id) { prev_deadline = (store id).deadline })
unfolding next_deadline new_internal
deadline_positive zero = omega arith
deadline_positive (suc zero) = omega arith
deadline_positive (suc (suc i)) = omega arith

next_positive : 0 < next_deadline 5000 once
unfolding next_deadline new_internal
next_positive = omega arith

once-is_periodic : once.is_periodic ≡ false
unfolding new_internal
once-is_periodic = refl

ticker-is_periodic : ticker.is_periodic ≡ true
unfolding new_internal
ticker-is_periodic = refl

set_positive : 0 < next_deadline 5000 (prepared 5000 once 600 300 4 8)
unfolding next_deadline new_internal
set_positive = omega arith

-- The alarms from 2 on are periodic, and 2 is set.
abbrev first : State
first = begin (λ _. []) (λ id. ltb 1 id)

abbrev at_1000 : System
at_1000 = record { now = 1000; root_now = 1000; wakelock_ok = true; timer_ran_out = false }

abbrev set_two : State
set_two = set_internal at_1000 1000 first 2 4000 100 1 7

set_two-Reaches : Reaches first set_two
unfolding next_deadline new_internal
set_two-Reaches = sets at_1000 1000 2 4000 100 1 7 stays (inr (omega arith)) (omega arith)

-- It expires at 5000, is scheduled again, and is served by a callback that cancels it.
set_two-FrontTimed : FrontTimed at_5000 set_two set_two.alarms
unfolding next_deadline new_internal set_internal schedule_next_instance insert_next_instance
    reschedule_root_alarm remove_pending_alarm insert_by_deadline list_remove
set_two-FrontTimed = inr (omega arith)

abbrev served : State
served =
    (queue_ready (λ t. cancel at_5000 t 2) 5001 5002 (dispatch 5000 at_5000 at_5000 set_two) 7).1

served-Reaches : Reaches first served
unfolding dispatch next_deadline new_internal set_internal schedule_next_instance
    insert_next_instance reschedule_root_alarm list_remove remove_pending_alarm expire
    insert_by_deadline plan_root plan_front expires_soon dispatch_front drain
served-Reaches =
    serves (λ t. cancel at_5000 t 2) 5001 5002 7
      (dispatches 5000 at_5000 at_5000 set_two-Reaches set_two-FrontTimed)
      (λ u. cancels at_5000 2 stays) (inl refl)

Reaches-IsValid_example : IsValid served
Reaches-IsValid_example = Reaches-IsValid (λ _. []) (λ id. ltb 1 id) served served-Reaches

-- The alarm 1 has expired into the queue 7.
abbrev expired : State
expired = record state { alarms = 2 ∷ []; queue = λ q. if q == 7 then 1 ∷ [] else [] }

stale_instance_example :
    let s1 = set_internal at_5000 5000 expired 1 600 300 4 8 in
    let (ready, s2) = queue_ready (λ t. t) 5001 5002 s1 7 in
    (ready ≡ call (some 300) 4) × ((s2.alarm 1).callback ≡ none)
stale_instance_example =
    stale_instance at_5000 5000 5001 5002 expired 1 7 600 300 4 8 [] once-is_periodic refl
      (λ e. absurd (omega arith))

next_deadline-periodic_example :
    let d = next_deadline 6500 ticker in
    (6500 < d) × (d ≤ 6500 + ticker.period) × ((d - ticker.creation_time) % ticker.period ≡ 0)
next_deadline-periodic_example =
    next_deadline-periodic 6500 ticker ticker-is_periodic (omega arith) (omega arith) (omega arith)

-- Every call succeeds, and the same but for the queue.
abbrev all_ok : Answers
all_ok = record {
  list_new = true;
  timer_create = true;
  wakeup_timer_create = true;
  semaphore_new = true;
  callback_thread_new = true;
  queue_new = true;
  dispatcher_thread_new = true;
}

abbrev no_queue : Answers
no_queue = record all_ok { queue_new = false }

lazy_initialize-Settled_example :
    (lazy_initialize no_queue (idle 1 1)).1
    ≡ (if (lazy_initialize no_queue (idle 1 1)).0 then ready 1 1 else idle 1 1)
lazy_initialize-Settled_example = lazy_initialize-Settled no_queue 1 1

twice_ok : (cycles (all_ok ∷ no_queue ∷ all_ok ∷ []) (idle 0 0)).0 ≡ 2
unfolding cycles
twice_ok = refl

cycles-timers_example :
    let r = cycles (all_ok ∷ no_queue ∷ all_ok ∷ []) (idle 0 0) in r.1 ≡ idle (0 + r.0) (0 + r.0)
cycles-timers_example = cycles-timers (all_ok ∷ no_queue ∷ all_ok ∷ []) 0 0
