-- ===== src/Alarm/Preserve.antt =====
-- Every call of src/alarm.c, and every round of its threads, keeps the invariant.
use osi.Prelude.{
  update, ℕ, ◌+◌, ◌<◌, ◌≡◌, refl, ap, ◌∙◌, sym, Bool, true, false, List, [], ◌∷◌, ltb,
  if◌then◌else◌, All, Bool-cases, inl, inr, arith, is_some, subst, ◌||◌, ◌⊎◌,
}
use osi.Alarm.Types.{Alarm, AlarmStats, State, System, with_alarm}
use osi.Alarm.Schedule.{
  list_remove, list_contains, remove_pending_alarm, is_front, next_deadline, reschedule_root_alarm,
  insert_next_instance, schedule_next_instance,
}
use osi.Alarm.Calls.{
  prepared, set_internal, canceled, cancel, expire, dispatch, dispatch_front, queue_ready,
  ready_front, serviced,
}
use osi.Alarm.Valid.{
  Active, IsValid, IsValid-if, IsOrdered-remove, IsOrdered-update, IsOrdered-same,
  reschedule_root-IsValid, remove_pending-IsValid, schedule_next-IsValid,
}

-- The alarms after scheduling: only the deadline of one has changed.
scheduled : System → State → ℕ → ℕ → Alarm
scheduled sys s id =
    update s.alarm id (record (s.alarm id) { deadline = next_deadline sys.now (s.alarm id) })

pub alarm-reschedule_root :
    (sys : System) (s : State) → (reschedule_root_alarm sys s).alarm ≡ s.alarm
unfolding reschedule_root_alarm
alarm-reschedule_root sys s = refl

pub alarms-reschedule_root :
    (sys : System) (s : State) → (reschedule_root_alarm sys s).alarms ≡ s.alarms
unfolding reschedule_root_alarm
alarms-reschedule_root sys s = refl

alarm-insert_next :
    (sys : System) (s : State) (id : ℕ) → (insert_next_instance sys s id).alarm ≡ scheduled sys s id
unfolding insert_next_instance scheduled remove_pending_alarm
alarm-insert_next sys s id = elim (Bool-cases (is_some (s.alarm id).callback)) [
  | inl c ↦ rw c
  | inr c ↦ rw c
]

alarm_if :
    (b : Bool) (x y : State) (f : ℕ → Alarm)
    → x.alarm ≡ f
    → y.alarm ≡ f
    → (if b then x else y).alarm ≡ f
alarm_if true x y f p q = p
alarm_if false x y f p q = q

alarm-schedule_next :
    (sys : System) (s : State) (id : ℕ)
    → (schedule_next_instance sys s id).alarm ≡ scheduled sys s id
unfolding schedule_next_instance
alarm-schedule_next sys s id =
    let s' = insert_next_instance sys s id in
    let inserted = alarm-insert_next sys s id in
    alarm_if (is_front s.alarms id || is_front s'.alarms id) (reschedule_root_alarm sys s') s'
      (scheduled sys s id) (alarm-reschedule_root sys s' ∙ inserted) inserted

update_self : (f : ℕ → Alarm) (id : ℕ) (a : Alarm) → update f id a id ≡ a
update_self f id a = ground arith

-- After scheduling, the alarm itself: its callback is the one that it had.
callback-schedule_next :
    (sys : System) (s : State) (id : ℕ)
    → ((schedule_next_instance sys s id).alarm id).callback ≡ (s.alarm id).callback
unfolding scheduled
callback-schedule_next sys s id =
    ap (λ (f : ℕ → Alarm). (f id).callback) (alarm-schedule_next sys s id)
    ∙ ap (λ (a : Alarm). a.callback)
        (update_self s.alarm id
          (record (s.alarm id) { deadline = next_deadline sys.now (s.alarm id) }))

-- What `alarm_set_on_queue` makes of the alarm, its deadline and statistics aside.
pub field-set {ℓ} :
    {A : Type ℓ} (field : Alarm → A)
    → ((a : Alarm) (d : ℕ) (st : AlarmStats)
        → field (record a { deadline = d; stats = st }) ≡ field a)
    → (sys : System) (creation_now : ℕ) (s : State) (id period cb user_data queue : ℕ)
    → field ((set_internal sys creation_now s id period cb user_data queue).alarm id)
      ≡ field (prepared creation_now (s.alarm id) period cb user_data queue)
unfolding set_internal scheduled
field-set field free sys creation_now s id period cb user_data queue =
    let a = prepared creation_now (s.alarm id) period cb user_data queue in
    let s1 : State = with_alarm s id a in
    let s2 = schedule_next_instance sys s1 id in
    let b = s2.alarm id in
    let counted : AlarmStats = record (b.stats) { scheduled_count = b.stats.scheduled_count + 1 } in
    let d = next_deadline sys.now (s1.alarm id) in
    ap field (update_self s2.alarm id (record b { stats = counted }))
    ∙ (free b b.deadline counted
        ∙ (ap (λ (f : ℕ → Alarm). field (f id)) (alarm-schedule_next sys s1 id)
            ∙ (ap field (update_self s1.alarm id (record (s1.alarm id) { deadline = d }))
                ∙ (free (s1.alarm id) d (s1.alarm id).stats
                    ∙ ap field (update_self s.alarm id a)))))

-- A change of an alarm that keeps its deadline and has a callback.
IsValid-same :
    (s : State) (id : ℕ) (a : Alarm)
    → IsValid s
    → a.deadline ≡ (s.alarm id).deadline
    → (is_some (s.alarm id).callback ≡ true → is_some a.callback ≡ true)
    → IsValid (with_alarm s id a)
IsValid-same s id a v e c = record {
  ordered = IsOrdered-same s.alarm s.alarms id a v.ordered e c;
  locked = v.locked;
}

-- `alarm_set` and `alarm_set_on_queue` keep the invariant, when the deadline does not wrap to 0.
pub set-IsValid :
    (sys : System) (creation_now : ℕ) (s : State) (id period cb user_data queue : ℕ)
    → IsValid s
    → 0 < next_deadline sys.now (prepared creation_now (s.alarm id) period cb user_data queue)
    → IsValid (set_internal sys creation_now s id period cb user_data queue)
unfolding set_internal
set-IsValid sys creation_now s id period cb user_data queue v pos =
    let a = prepared creation_now (s.alarm id) period cb user_data queue in
    let s1 : State = with_alarm s id a in
    let self = update_self s.alarm id a in
    let s2 = schedule_next_instance sys s1 id in
    let v1 = IsValid-same s id a v refl (λ _. refl) in
    let v2 =
      schedule_next-IsValid sys s1 id v1 (ap (λ (b : Alarm). is_some b.callback) self)
        (subst (λ b. 0 < next_deadline sys.now b) (sym self) pos) in
    let b = s2.alarm id in
    IsValid-same s2 id
      (record b { stats = record (b.stats) { scheduled_count = b.stats.scheduled_count + 1 } }) v2
      refl (λ c. c)

gone_if :
    (b : Bool) (x y : State) (id : ℕ)
    → list_contains x.alarms id ≡ false
    → list_contains y.alarms id ≡ false
    → list_contains (if b then x else y).alarms id ≡ false
gone_if true x y id p q = p
gone_if false x y id p q = q

-- `alarm_cancel` keeps the invariant, and afterwards the alarm is not pending.
pub cancel-IsValid :
    (sys : System) (s : State) (id : ℕ)
    → IsValid s
    → let s' = cancel sys s id in IsValid s' × (list_contains s'.alarms id ≡ false)
unfolding cancel
cancel-IsValid sys s id v =
    let (valid, new, same) = remove_pending-IsValid s id v in
    let s1 = remove_pending_alarm s id in
    let s2 : State = with_alarm s1 id (canceled (s1.alarm id)) in
    let v2 : IsValid s2 = record {
      ordered = IsOrdered-update s1.alarm s1.alarms valid.ordered id (canceled (s1.alarm id)) new;
      locked = valid.locked;
    } in
    (
      IsValid-if (is_front s.alarms id) (reschedule_root_alarm sys s2) s2
          (reschedule_root-IsValid sys s2 v2) v2,
      gone_if (is_front s.alarms id) (reschedule_root_alarm sys s2) s2 id
          (ap (λ (xs : List ℕ). list_contains xs id) (alarms-reschedule_root sys s2) ∙ new) new,
    )

-- The first pending alarm is not periodic, or its deadline after an expiry does not wrap to 0.
abbrev pub FrontTimed : System → State → List ℕ → Type 0
FrontTimed sys s [] = Unit
FrontTimed sys s (id ∷ _) =
    ((s.alarm id).is_periodic ≡ false)
    ⊎ (0 < next_deadline sys.now (record (s.alarm id) { prev_deadline = (s.alarm id).deadline }))

-- An expired alarm off the list.
taken-IsValid :
    (s : State) (id : ℕ) → IsValid s → IsValid (record s { alarms = list_remove s.alarms id })
taken-IsValid s id v = record {
  ordered = IsOrdered-remove s.alarm s.alarms v.ordered id;
  locked = v.locked;
}

-- Taking an expired alarm off the list, and scheduling a periodic one again.
expire-IsValid :
    (sys : System) (s : State) (id : ℕ) (xs : List ℕ)
    → IsValid s
    → Active (s.alarm id)
    → FrontTimed sys s (id ∷ xs)
    → IsValid (expire sys s id)
unfolding expire
expire-IsValid sys s id xs v active (inl once) = rw once (taken-IsValid s id v)
expire-IsValid sys s id xs v (c, _) (inr pos) =
    let s1 : State = record s { alarms = list_remove s.alarms id } in
    let v1 = taken-IsValid s id v in
    let a : Alarm = record (s.alarm id) { prev_deadline = (s.alarm id).deadline } in
    let again : State = with_alarm s1 id a in
    let self = update_self s.alarm id a in
    let v2 =
      schedule_next-IsValid sys again id (IsValid-same s1 id a v1 refl (λ h. h))
        (ap (λ (b : Alarm). is_some b.callback) self ∙ c)
        (subst (λ b. 0 < next_deadline sys.now b) (sym self) pos) in
    let s2 = schedule_next_instance sys again id in
    let b : Alarm = s2.alarm id in
    let b' : Alarm = record b {
      stats = record (b.stats) { rescheduled_count = b.stats.rescheduled_count + 1 };
    } in
    IsValid-if (s.alarm id).is_periodic (with_alarm s2 id b') s1
      (IsValid-same s2 id b' v2 refl (λ h. h)) v1

-- One round of the dispatching thread keeps the invariant, when the first alarm is `FrontTimed`.
pub dispatch-IsValid :
    (expired_now : ℕ) (sys sys' : System) (s : State)
    → IsValid s
    → FrontTimed sys s s.alarms
    → IsValid (dispatch expired_now sys sys' s)
unfolding dispatch
dispatch-IsValid expired_now sys sys' s v timed = front s.alarms v.ordered.active timed
  where
    front :
        (xs : List ℕ)
        → All (λ id. Active (s.alarm id)) xs
        → FrontTimed sys s xs
        → IsValid (dispatch_front expired_now sys sys' s xs)
    front [] h timed = reschedule_root-IsValid sys' s v
    front (id ∷ xs) (active, h) timed =
        IsValid-if (ltb expired_now (s.alarm id).deadline) _ _ (reschedule_root-IsValid sys' s v) (
          let v' =
            reschedule_root-IsValid sys' (expire sys s id)
              (expire-IsValid sys s id xs v active timed) in
          record { ordered = v'.ordered; locked = v'.locked })

-- The first alarm of a queue is periodic or not pending.
abbrev pub FrontApart : State → List ℕ → Type 0
FrontApart s [] = Unit
FrontApart s (id ∷ _) = ((s.alarm id).is_periodic ≡ true) ⊎ (list_contains s.alarms id ≡ false)

-- An alarm that is served: its record in the list is as good as before if it is periodic, and it is
-- not in the list otherwise.
serviced-IsValid :
    (s : State) (id q : ℕ) (rest : List ℕ)
    → IsValid s
    → ((s.alarm id).is_periodic ≡ true) ⊎ (list_contains s.alarms id ≡ false)
    → IsValid (record s {
      queue = update s.queue q rest;
      alarm = update s.alarm id (serviced (s.alarm id));
    })
serviced-IsValid s id q rest v (inl periodic) = record {
  ordered =
      IsOrdered-same s.alarm s.alarms id (serviced (s.alarm id)) v.ordered (rw periodic)
        (λ h. rw periodic h);
  locked = v.locked;
}
serviced-IsValid s id q rest v (inr gone) = record {
  ordered = IsOrdered-update s.alarm s.alarms v.ordered id (serviced (s.alarm id)) gone;
  locked = v.locked;
}

-- One round of a processing thread keeps the invariant, if the alarm that it serves is periodic or is
-- not pending, and if the callback keeps the invariant.
pub queue_ready-IsValid :
    (effect : State → State) (t0 t1 : ℕ) (s : State) (q : ℕ)
    → IsValid s
    → ((t : State) → IsValid t → IsValid (effect t))
    → FrontApart s (s.queue q)
    → IsValid (queue_ready effect t0 t1 s q).1
unfolding queue_ready
queue_ready-IsValid effect t0 t1 s q v keep apart = front (s.queue q) apart
  where
    front : (xs : List ℕ) → FrontApart s xs → IsValid (ready_front effect t0 t1 s q xs).1
    front [] h = v
    front (id ∷ xs) one =
        IsValid-same _ id _ (keep _ (serviced-IsValid s id q xs v one)) refl (λ c. c)
