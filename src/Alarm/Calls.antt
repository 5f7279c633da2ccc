-- ===== src/Alarm/Calls.antt =====
-- The calls of src/alarm.c, and the rounds of its two threads.
use osi.Prelude.{
  update, ℕ, ◌+◌, ◌-◌, Bool, Option, none, some, List, [], ◌∷◌, ltb, if◌then◌else◌, is_some, ◌++◌,
}
use osi.Alarm.Types.{Alarm, State, System, with_alarm, update_scheduling_stats}
use osi.Alarm.Schedule.{
  list_remove, remove_pending_alarm, is_front, reschedule_root_alarm, schedule_next_instance,
}

unfoldable pub get_remaining_ms : Alarm → ℕ → ℕ
get_remaining_ms a just_now = if ltb just_now a.deadline then a.deadline - just_now else 0

-- The fields that `alarm_set_internal` fills in before it schedules.
abbrev pub prepared : ℕ → Alarm → (period : ℕ) → (cb : ℕ) → (user_data : ℕ) → (queue : ℕ) → Alarm
prepared now a period cb user_data queue = record a {
  creation_time = now;
  period = period;
  queue = some queue;
  callback = some cb;
  user_data = user_data;
}

-- `creation_now` is what the first call of `now` returns.
unfoldable pub set_internal : System → ℕ → State → ℕ → (period cb user_data queue : ℕ) → State
set_internal sys creation_now s id period cb user_data queue =
    let s1 : State =
      with_alarm s id (prepared creation_now (s.alarm id) period cb user_data queue) in
    let s2 = schedule_next_instance sys s1 id in
    let a = s2.alarm id in
    with_alarm s2 id
      (record a { stats = record (a.stats) { scheduled_count = a.stats.scheduled_count + 1 } })

-- The fields that `alarm_cancel` resets.
abbrev pub canceled : Alarm → Alarm
canceled a = record a {
  deadline = 0;
  prev_deadline = 0;
  callback = none;
  user_data = 0;
  stats = record (a.stats) { canceled_count = a.stats.canceled_count + 1 };
}

unfoldable pub cancel : System → State → ℕ → State
cancel sys s id =
    let needs_reschedule = is_front s.alarms id in
    let s1 = remove_pending_alarm s id in
    let s2 : State = with_alarm s1 id (canceled (s1.alarm id)) in
    if needs_reschedule then reschedule_root_alarm sys s2 else s2

unfoldable pub is_scheduled : Alarm → Bool
is_scheduled a = is_some a.callback

-- What a round of the processing thread does: nothing, or a callback with its argument. A NULL
-- callback is called too, and crashes.
pub data Ready : Type 0 where
  nothing : Ready
  call : (callback : Option ℕ) → (user_data : ℕ) → Ready

-- The reset of a one-shot alarm that is about to be called.
abbrev pub serviced : Alarm → Alarm
serviced a = if a.is_periodic then a else record a { deadline = 0; callback = none; user_data = 0 }

abbrev pub served_deadline : Alarm → ℕ
served_deadline a = if a.is_periodic then a.prev_deadline else a.deadline

-- What is done for the alarm at the front of the queue `q`. The statistics are updated after the
-- callback, which `effect` stands for: it may call back into this file. `t0` and `t1` are the times
-- around it.
unfoldable pub ready_front : (State → State) → (t0 t1 : ℕ) → State → ℕ → List ℕ → Ready × State
ready_front effect t0 t1 s q [] = (nothing, s)
ready_front effect t0 t1 s q (id ∷ rest) =
    let a = s.alarm id in
    let s1 : State = record s {
      queue = update s.queue q rest;
      alarm = update s.alarm id (serviced a);
    } in
    let s2 = effect s1 in
    let b = s2.alarm id in
    (
      call a.callback a.user_data,
      with_alarm s2 id
          (record b { stats = update_scheduling_stats b.stats t0 (served_deadline a) (t1 - t0) }),
    )

-- `alarm_queue_ready`
unfoldable pub queue_ready : (State → State) → (t0 t1 : ℕ) → State → ℕ → Ready × State
unfolding ready_front
queue_ready effect t0 t1 s q = ready_front effect t0 t1 s q (s.queue q)

-- An expired alarm leaves the list; a periodic one is scheduled again.
unfoldable pub expire : System → State → ℕ → State
expire sys s id =
    let s1 : State = record s { alarms = list_remove s.alarms id } in
    let a = s.alarm id in
    if a.is_periodic
    then (let s2 =
          schedule_next_instance sys (with_alarm s1 id (record a { prev_deadline = a.deadline }))
            id in
        let b = s2.alarm id in
        with_alarm s2 id (record b {
          stats = record (b.stats) { rescheduled_count = b.stats.rescheduled_count + 1 };
        }))
    else s1

-- `fixed_queue_enqueue`; the queue of a pending alarm is not NULL.
abbrev pub enqueue : Option ℕ → ℕ → (ℕ → List ℕ) → ℕ → List ℕ
enqueue none id queue = queue
enqueue (some q) id queue = update queue q (queue q ++ (id ∷ []))

-- What is done for the alarm at the front of the list.
unfoldable pub dispatch_front : (expired_now : ℕ) → (sys sys' : System) → State → List ℕ → State
dispatch_front expired_now sys sys' s [] = reschedule_root_alarm sys' s
dispatch_front expired_now sys sys' s (id ∷ _) =
    if ltb expired_now (s.alarm id).deadline
    then reschedule_root_alarm sys' s
    else (let s' = reschedule_root_alarm sys' (expire sys s id) in
        record s' { queue = enqueue (s'.alarm id).queue id s'.queue })

-- One round of `callback_dispatch` behind `semaphore_wait`, while the thread is active. `expired_now`
-- is the time of its own test, `sys` and `sys'` are for the two calls that set the timers.
unfoldable pub dispatch : (expired_now : ℕ) → (sys sys' : System) → State → State
unfolding dispatch_front
dispatch expired_now sys sys' s = dispatch_front expired_now sys sys' s s.alarms
