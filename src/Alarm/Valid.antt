-- ===== src/Alarm/Valid.antt =====
-- The invariant of src/alarm.c: pending alarms stand by deadline, each once and with a callback, and
-- the wake lock is held exactly while the timer is set. Every call keeps it.
use osi.Prelude.{
  update, ℕ, ◌+◌, ◌-◌, ◌≤◌, ◌<◌, ◌≡◌, refl, ap, ◌∙◌, sym, Bool, true, false, List, [], ◌∷◌, ◌==◌,
  if◌then◌else◌, All, Bool-cases, inl, inr, subst, not, ◌&&◌, arith, ==→eq, is_some,
}
use osi.Alarm.Types.{Alarm, State, System, with_alarm}
use osi.Alarm.Schedule.{
  list_remove, list_contains, remove_pending_alarm, insert_by_deadline, next_deadline, plan_front,
  plan_root, reschedule_root_alarm, insert_next_instance, schedule_next_instance, at_deadline,
  is_armed,
}
use osi.Alarm.Order.{
  Sorted, Distinct, All-remove, contains-remove, Distinct-remove, Sorted-remove, All-update,
  Sorted-update, insert_by_deadline-place, All-place, Distinct-place, Sorted-place,
}

-- A pending alarm has a callback and a deadline.
abbrev pub Active : Alarm → Type 0
Active a = (is_some a.callback ≡ true) × (0 < a.deadline)

-- The list of pending alarms is in order.
pub record IsOrdered (alarm : ℕ → Alarm) (alarms : List ℕ) : Type 0 where
  pub sorted : Sorted alarm alarms
  pub distinct : Distinct alarms
  pub active : All (λ id. Active (alarm id)) alarms

pub record IsValid (s : State) : Type 0 where
  pub ordered : IsOrdered s.alarm s.alarms
  pub locked : s.wake_locks ≡ (if s.timer_set then 1 else 0)

module _ (alarm : ℕ → Alarm) (alarms : List ℕ) (o : IsOrdered alarm alarms) (id : ℕ) where
  pub IsOrdered-remove : IsOrdered alarm (list_remove alarms id)
  IsOrdered-remove = record {
    sorted = Sorted-remove alarm alarms id o.sorted;
    distinct = Distinct-remove alarms id o.distinct;
    active = All-remove (λ i. Active (alarm i)) alarms id o.active;
  }

  -- A change of an alarm that is not pending.
  pub IsOrdered-update :
      (a : Alarm) → list_contains alarms id ≡ false → IsOrdered (update alarm id a) alarms
  IsOrdered-update a new = record {
    sorted = Sorted-update alarm id a alarms new o.sorted;
    distinct = o.distinct;
    active = All-update Active alarm id a alarms new o.active;
  }

  pub IsOrdered-insert :
      Active (alarm id)
      → list_contains alarms id ≡ false
      → IsOrdered alarm (insert_by_deadline alarm id alarms)
  IsOrdered-insert a new = rw (insert_by_deadline-place alarm id alarms) (record {
    sorted = Sorted-place alarm id alarms o.sorted;
    distinct = Distinct-place alarm id alarms new o.distinct;
    active = All-place (λ i. Active (alarm i)) alarm id alarms a o.active;
  })

-- A change of an alarm that leaves its deadline, and a callback.
All-update_any {ℓ} :
    {A : Type 0} (P : A → Type ℓ) (f : ℕ → A) (id : ℕ) (v : A) (xs : List ℕ)
    → (P (f id) → P v)
    → All (λ y. P (f y)) xs
    → All (λ y. P (update f id v y)) xs
All-update_any P f id v [] keep h = tt
All-update_any P f id v (x ∷ xs) keep (p, h) = elim (Bool-cases (x == id)) [
  | inl e ↦ (rw e (keep (subst (λ i. P (f i)) (==→eq x id e) p)), All-update_any P f id v xs keep h)
  | inr e ↦ (rw e p, All-update_any P f id v xs keep h)
]

deadline-update :
    (alarm : ℕ → Alarm) (id : ℕ) (a : Alarm) (x : ℕ)
    → a.deadline ≡ (alarm id).deadline
    → (update alarm id a x).deadline ≡ (alarm x).deadline
deadline-update alarm id a x e = elim (Bool-cases (x == id)) [
  | inl q ↦ rw q (e ∙ ap (λ (i : ℕ). (alarm i).deadline) (sym (==→eq x id q)))
  | inr q ↦ rw q
]

Sorted-same :
    (alarm : ℕ → Alarm) (id : ℕ) (a : Alarm) (xs : List ℕ)
    → a.deadline ≡ (alarm id).deadline
    → Sorted alarm xs
    → Sorted (update alarm id a) xs
Sorted-same alarm id a [] e s = tt
Sorted-same alarm id a (x ∷ xs) e (first, s) = (
  rw (deadline-update alarm id a x e) (
      All-update_any (λ b. (alarm x).deadline ≤ b.deadline) alarm id a xs (λ le. omega arith)
        first),
  Sorted-same alarm id a xs e s,
)

pub IsOrdered-same :
    (alarm : ℕ → Alarm) (alarms : List ℕ) (id : ℕ) (a : Alarm)
    → IsOrdered alarm alarms
    → a.deadline ≡ (alarm id).deadline
    → (is_some (alarm id).callback ≡ true → is_some a.callback ≡ true)
    → IsOrdered (update alarm id a) alarms
IsOrdered-same alarm alarms id a o e active = record {
  sorted = Sorted-same alarm id a alarms e o.sorted;
  distinct = o.distinct;
  active = All-update_any Active alarm id a alarms (λ (c, pos). (active c, omega arith)) o.active;
}

pub IsValid-if : (b : Bool) (x y : State) → IsValid x → IsValid y → IsValid (if b then x else y)
IsValid-if true x y p q = p
IsValid-if false x y p q = q

-- Setting the timers leaves the alarms alone, and keeps the wake lock in step with the timer.
armed_at : (d : ℕ) → 0 < d → is_armed (at_deadline d) ≡ true
armed_at d h = ground arith

plan_front-acquired :
    (sys : System) (s : State) (xs : List ℕ)
    → All (λ id. Active (s.alarm id)) xs
    → let plan = plan_front sys s xs in
      plan.acquired ≡ (is_armed plan.timer_time && not s.timer_set)
unfolding plan_front
plan_front-acquired sys s [] h = refl
plan_front-acquired sys s (x ∷ xs) ((c, pos), h) = ground (arith, armed_at (s.alarm x).deadline pos)

lock_step :
    (was armed : Bool) (locks : ℕ)
    → locks ≡ (if was then 1 else 0)
    → (if was && not armed
        then (if armed && not was then locks + 1 else locks) - 1
        else (if armed && not was then locks + 1 else locks))
      ≡ (if armed then 1 else 0)
lock_step was armed locks e = ground arith

-- `reschedule_root_alarm` keeps the invariant: the wake lock is taken when the timer is first set
-- and given back when it is not set again.
pub reschedule_root-IsValid :
    (sys : System) (s : State) → IsValid s → IsValid (reschedule_root_alarm sys s)
unfolding reschedule_root_alarm plan_root
reschedule_root-IsValid sys s v = record {
  ordered = v.ordered;
  locked =
      rw (plan_front-acquired sys s s.alarms v.ordered.active)
        (lock_step s.timer_set (is_armed (plan_root sys s).timer_time) s.wake_locks v.locked);
}

pub remove_pending-IsValid :
    (s : State) (id : ℕ)
    → IsValid s
    → let s' = remove_pending_alarm s id in
      IsValid s' × (list_contains s'.alarms id ≡ false) × (s'.alarm ≡ s.alarm)
unfolding remove_pending_alarm
remove_pending-IsValid s id v = (
  record { ordered = IsOrdered-remove s.alarm s.alarms v.ordered id; locked = v.locked },
  contains-remove s.alarms id v.ordered.distinct,
  refl,
)

-- An alarm that is not pending, with a callback, is put in the list.
insert_gone-IsValid :
    (s : State) (id d : ℕ)
    → IsValid s
    → list_contains s.alarms id ≡ false
    → is_some (s.alarm id).callback ≡ true
    → 0 < d
    → let s2 : State = with_alarm s id (record (s.alarm id) { deadline = d }) in
      IsValid (record s2 { alarms = insert_by_deadline s2.alarm id s2.alarms })
insert_gone-IsValid s id d v new c pos =
    let a : Alarm = record (s.alarm id) { deadline = d } in
    let o = IsOrdered-update s.alarm s.alarms v.ordered id a new in
    let self : update s.alarm id a id ≡ a = ground arith in
    record {
      ordered =
          IsOrdered-insert (update s.alarm id a) s.alarms o id (subst Active (sym self) (c, pos))
            new;
      locked = v.locked;
    }

insert_next-IsValid :
    (sys : System) (s : State) (id : ℕ)
    → IsValid s
    → is_some (s.alarm id).callback ≡ true
    → 0 < next_deadline sys.now (s.alarm id)
    → IsValid (insert_next_instance sys s id)
unfolding insert_next_instance remove_pending_alarm
insert_next-IsValid sys s id v c pos =
    let (valid, new, _) = remove_pending-IsValid s id v in
    rw c (
      insert_gone-IsValid (remove_pending_alarm s id) id (next_deadline sys.now (s.alarm id)) valid
        new c pos)

-- `schedule_next_instance` keeps the invariant, for an alarm with a callback and a deadline that
-- does not wrap to 0.
pub schedule_next-IsValid :
    (sys : System) (s : State) (id : ℕ)
    → IsValid s
    → is_some (s.alarm id).callback ≡ true
    → 0 < next_deadline sys.now (s.alarm id)
    → IsValid (schedule_next_instance sys s id)
unfolding schedule_next_instance
schedule_next-IsValid sys s id v c pos =
    IsValid-if _ _ _ (reschedule_root-IsValid sys _ inserted) inserted
  where
    inserted : IsValid (insert_next_instance sys s id)
    inserted = insert_next-IsValid sys s id v c pos
