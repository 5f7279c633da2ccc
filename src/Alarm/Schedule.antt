-- ===== src/Alarm/Schedule.antt =====
-- The scheduling of src/alarm.c: the list of pending alarms and the timers behind it.
use osi.Prelude.{
  update, ℕ, zero, suc, ◌+◌, ◌-◌, ◌*◌, ◌/◌, ◌%◌, ◌^◌, Bool, false, not, Option, none, some, List,
  [], ◌∷◌, ltb, leb, ◌==◌, ◌||◌, ◌&&◌, if◌then◌else◌, length, is_some,
}
use osi.Alarm.Types.{Alarm, State, System, TimerValue, with_alarm, sub_ms, ms_mod}

-- `list_remove` of an alarm.
unfoldable pub list_remove : List ℕ → ℕ → List ℕ
list_remove [] id = []
list_remove (x ∷ xs) id = if x == id then xs else x ∷ list_remove xs id

abbrev pub list_contains : List ℕ → ℕ → Bool
list_contains [] id = false
list_contains (x ∷ xs) id = x == id || list_contains xs id

-- The loop of `remove_pending_alarm`: `fixed_queue_try_remove_from_queue` until it returns NULL. The
-- fuel is the length of the queue, and each round removes one element.
unfoldable pub drain : ℕ → List ℕ → ℕ → List ℕ
unfolding list_remove
drain zero xs id = xs
drain (suc fuel) xs id =
    let rest = drain fuel (list_remove xs id) id in if list_contains xs id then rest else xs

-- A NULL queue holds nothing.
abbrev pub drain_queue : Option ℕ → (ℕ → List ℕ) → ℕ → ℕ → List ℕ
drain_queue none queue id = queue
drain_queue (some q) queue id = update queue q (drain (length (queue q)) (queue q) id)

unfoldable pub remove_pending_alarm : State → ℕ → State
remove_pending_alarm s id = record s {
  alarms = list_remove s.alarms id;
  queue = drain_queue (s.alarm id).queue s.queue id;
}

-- The test `!list_is_empty(alarms) && list_front(alarms) == alarm`.
abbrev pub is_front : List ℕ → ℕ → Bool
is_front [] id = false
is_front (x ∷ xs) id = x == id

-- The loop that inserts behind `node`, before the first alarm with a later deadline.
unfoldable pub insert_after_from : (ℕ → Alarm) → ℕ → ℕ → List ℕ → List ℕ
insert_after_from alarm id node [] = node ∷ id ∷ []
insert_after_from alarm id node (next ∷ rest) =
    if ltb (alarm id).deadline (alarm next).deadline
    then node ∷ id ∷ next ∷ rest
    else node ∷ insert_after_from alarm id next rest

unfoldable pub insert_by_deadline : (ℕ → Alarm) → ℕ → List ℕ → List ℕ
unfolding insert_after_from
insert_by_deadline alarm id [] = id ∷ []
insert_by_deadline alarm id (x ∷ xs) =
    if ltb (alarm id).deadline (alarm x).deadline
    then id ∷ x ∷ xs
    else insert_after_from alarm id x xs

abbrev pub timer_interval_for_wakelock_in_ms : ℕ
timer_interval_for_wakelock_in_ms = 3000

abbrev pub zeroed : TimerValue
zeroed = record { tv_sec = 0; tv_nsec = 0 }

abbrev pub at_deadline : ℕ → TimerValue
at_deadline d = record { tv_sec = d / 1000; tv_nsec = (d % 1000) * 1000000 }

abbrev pub end_of_time : TimerValue
end_of_time = record { tv_sec = 2 ^ 62; tv_nsec = 0 }

-- `next->deadline - now() < TIMER_INTERVAL_FOR_WAKELOCK_IN_MS`, where the difference is read as an
-- `int64_t`.
unfoldable pub expires_soon : ℕ → ℕ → Bool
expires_soon deadline now =
    let diff = sub_ms deadline now in
    leb (2 ^ 63) diff || ltb diff timer_interval_for_wakelock_in_ms

-- What is known at the label `done`: the value for the timer, the wakeup timer, and the wake lock.
pub record Plan : Type 0 where
  pub timer_time : TimerValue
  pub wakeup : TimerValue
  pub acquired : Bool

-- The timers for the alarm at the front, the head of the list.
unfoldable pub plan_front : System → State → List ℕ → Plan
unfolding expires_soon
plan_front sys s [] = record { timer_time = zeroed; wakeup = s.wakeup_timer; acquired = false }
plan_front sys s (next ∷ _) =
    let deadline = (s.alarm next).deadline in
    if expires_soon deadline sys.root_now
    then (if not s.timer_set && not sys.wakelock_ok
        then record { timer_time = zeroed; wakeup = s.wakeup_timer; acquired = false }
        else record {
          timer_time = at_deadline deadline;
          wakeup = end_of_time;
          acquired = not s.timer_set;
        })
    else record { timer_time = zeroed; wakeup = at_deadline deadline; acquired = false }

-- The part of `reschedule_root_alarm` before the label `done`.
unfoldable pub plan_root : System → State → Plan
plan_root sys s = plan_front sys s s.alarms

abbrev pub is_armed : TimerValue → Bool
is_armed t = not (t.tv_sec == 0) || not (t.tv_nsec == 0)

unfoldable pub reschedule_root_alarm : System → State → State
reschedule_root_alarm sys s =
    let plan = plan_root sys s in
    let held = if plan.acquired then s.wake_locks + 1 else s.wake_locks in
    let armed = is_armed plan.timer_time in
    record s {
      timer_set = armed;
      wake_locks = if s.timer_set && not armed then held - 1 else held;
      timer = plan.timer_time;
      wakeup_timer = plan.wakeup;
      alarm_expired = if armed && sys.timer_ran_out then s.alarm_expired + 1 else s.alarm_expired;
    }

-- The deadline of the next instance. A periodic alarm of period 0 divides by zero in the source.
unfoldable pub next_deadline : ℕ → Alarm → ℕ
next_deadline just_now a =
    let ms_into_period : ℕ =
      if a.is_periodic then sub_ms just_now a.creation_time % a.period else 0 in
    (just_now + sub_ms a.period ms_into_period) % ms_mod

-- `schedule_next_instance` up to the insertion in the list.
unfoldable pub insert_next_instance : System → State → ℕ → State
insert_next_instance sys s id =
    let s1 = if is_some (s.alarm id).callback then remove_pending_alarm s id else s in
    let a : Alarm = record (s1.alarm id) { deadline = next_deadline sys.now (s1.alarm id) } in
    let s2 : State = with_alarm s1 id a in
    record s2 { alarms = insert_by_deadline s2.alarm id s2.alarms }

unfoldable pub schedule_next_instance : System → State → ℕ → State
schedule_next_instance sys s id =
    let needs_reschedule = is_front s.alarms id in
    let s' = insert_next_instance sys s id in
    if needs_reschedule || is_front s'.alarms id then reschedule_root_alarm sys s' else s'
