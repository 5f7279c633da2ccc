-- ===== src/Alarm/Pending.antt =====
-- What `alarm_cancel` and `alarm_set_on_queue` leave in the processing queues.
use osi.Prelude.{
  ℕ, zero, suc, ◌+◌, ◌≤◌, ◌≡◌, ◌≢◌, refl, ap, ap₂, ◌∙◌, sym, Bool, true, false, Option, none, some,
  List, [], ◌∷◌, if◌then◌else◌, ◌||◌, ◌==◌, length, Bool-cases, inl, inr, arith, ne→==, is_some,
}
use osi.Alarm.Types.{Alarm, State, System, with_alarm}
use osi.Alarm.Schedule.{
  list_remove, list_contains, drain, drain_queue, remove_pending_alarm, reschedule_root_alarm,
  insert_next_instance, schedule_next_instance, is_front,
}
use osi.Alarm.Calls.{prepared, set_internal, queue_ready, call}
use osi.Alarm.Preserve.{field-set}

-- A list without an alarm.
abbrev pub without : List ℕ → ℕ → List ℕ
without [] id = []
without (x ∷ xs) id = if x == id then without xs id else x ∷ without xs id

without_absent : (xs : List ℕ) (id : ℕ) → list_contains xs id ≡ false → without xs id ≡ xs
without_absent [] id h = refl
without_absent (x ∷ xs) id h = ground (arith, without_absent xs id)

without-remove : (xs : List ℕ) (id : ℕ) → without (list_remove xs id) id ≡ without xs id
unfolding list_remove
without-remove [] id = refl
without-remove (x ∷ xs) id = ground (arith, without-remove xs id)

length-remove :
    (xs : List ℕ) (id : ℕ) → list_contains xs id ≡ true → length (list_remove xs id) + 1 ≡ length xs
unfolding list_remove
length-remove [] id h = cc
length-remove (x ∷ xs) id h = ground (arith, length-remove xs id)

drain-without :
    (fuel : ℕ) (xs : List ℕ) (id : ℕ) → length xs ≤ fuel → drain fuel xs id ≡ without xs id
unfolding drain
drain-without zero [] id h = refl
drain-without zero (x ∷ xs) id h = absurd (omega arith)
drain-without (suc fuel) xs id h = elim (Bool-cases (list_contains xs id)) [
  | inl there ↦ rw there (
      drain-without fuel (list_remove xs id) id (omega (arith, length-remove xs id there))
      ∙ without-remove xs id)
  | inr gone ↦ rw gone (sym (without_absent xs id gone))
]

-- The loop of `remove_pending_alarm` ends with every instance of the alarm taken out of the queue that
-- the alarm names; the order of what stays is kept, and so are the other queues.
pub remove_pending-without :
    (s : State) (id q other : ℕ)
    → (s.alarm id).queue ≡ some q
    → (remove_pending_alarm s id).queue other
      ≡ (if other == q then without (s.queue q) id else s.queue other)
unfolding remove_pending_alarm
remove_pending-without s id q other e =
    ap (λ (o : Option ℕ). drain_queue o s.queue id other) e ∙ elim (Bool-cases (other == q)) [
      | inl same ↦ rw same (drain-without (length (s.queue q)) (s.queue q) id (omega arith))
      | inr apart ↦ rw apart
    ]

queue-reschedule_root : (sys : System) (s : State) → (reschedule_root_alarm sys s).queue ≡ s.queue
unfolding reschedule_root_alarm
queue-reschedule_root sys s = refl

queue_if : (b : Bool) (x y : State) → x.queue ≡ y.queue → (if b then x else y).queue ≡ y.queue
queue_if true x y e = e
queue_if false x y e = refl

-- The alarms' callbacks and queues after `alarm_set_on_queue`.
queue-schedule_next :
    (sys : System) (s : State) (id : ℕ)
    → is_some (s.alarm id).callback ≡ true
    → (schedule_next_instance sys s id).queue ≡ (remove_pending_alarm s id).queue
unfolding schedule_next_instance insert_next_instance
queue-schedule_next sys s id c =
    let s' = insert_next_instance sys s id in
    queue_if (is_front s.alarms id || is_front s'.alarms id) (reschedule_root_alarm sys s') s'
      (queue-reschedule_root sys s')
    ∙ rw c

-- `alarm_set_on_queue` takes the alarm's instances out of the queue that it is now set on, and out of
-- no other: what an earlier queue holds of the alarm stays there.
pub set-queue :
    (sys : System) (creation_now : ℕ) (s : State) (id period cb user_data queue other : ℕ)
    → (set_internal sys creation_now s id period cb user_data queue).queue other
      ≡ (if other == queue then without (s.queue queue) id else s.queue other)
unfolding set_internal
set-queue sys creation_now s id period cb user_data queue other =
    let a = prepared creation_now (s.alarm id) period cb user_data queue in
    let s1 : State = with_alarm s id a in
    let self : s1.alarm id ≡ a = ground arith in
    ap (λ (f : ℕ → List ℕ). f other)
      (queue-schedule_next sys s1 id (ap (λ (b : Alarm). is_some b.callback) self))
    ∙ remove_pending-without s1 id queue other (ap (λ (b : Alarm). b.queue) self)

-- A one-shot alarm that expired into one queue and is set again on another, with a new callback,
-- before it is served: when the first queue is served, the new callback is called at once, whatever
-- its deadline, and the alarm is left with no callback.
pub stale_instance :
    (sys : System) (creation_now t0 t1 : ℕ) (s : State) (id q period cb user_data queue : ℕ)
    (rest : List ℕ)
    → (s.alarm id).is_periodic ≡ false
    → s.queue q ≡ id ∷ rest
    → q ≢ queue
    → let s1 = set_internal sys creation_now s id period cb user_data queue in
      let (ready, s2) = queue_ready (λ t. t) t0 t1 s1 q in
      (ready ≡ call (some cb) user_data) × ((s2.alarm id).callback ≡ none)
unfolding queue_ready
stale_instance sys creation_now t0 t1 s id q period cb user_data queue rest once there apart =
    let s1 = set_internal sys creation_now s id period cb user_data queue in
    let still : s1.queue q ≡ id ∷ rest =
      set-queue sys creation_now s id period cb user_data queue q
      ∙ rw (ne→== q queue apart) there in
    let now_cb : (s1.alarm id).callback ≡ some cb =
      field-set (λ a. a.callback) (λ _ _ _. refl) sys creation_now s id period cb user_data queue in
    let now_data : (s1.alarm id).user_data ≡ user_data =
      field-set (λ a. a.user_data) (λ _ _ _. refl) sys creation_now s id period cb user_data
        queue in
    let one_shot : (s1.alarm id).is_periodic ≡ false =
      field-set (λ a. a.is_periodic) (λ _ _ _. refl) sys creation_now s id period cb user_data queue
      ∙ once in
    rw still (ap₂ call now_cb now_data, ground arith)
