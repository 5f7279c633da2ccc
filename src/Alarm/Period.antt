-- ===== src/Alarm/Period.antt =====
-- The deadlines that `schedule_next_instance` computes.
use osi.Prelude.{ℕ, ◌+◌, ◌-◌, ◌*◌, ◌/◌, ◌%◌, ◌≤◌, ◌<◌, ◌≡◌, ap, ◌∙◌, true, false, arith}
use native.Mathlib.Nat.{mod-lt, mod-le, div-add-mod, add-mod_right, mul-mod_right}
use osi.Alarm.Types.{Alarm, sub_ms, ms_mod}
use osi.Alarm.Schedule.{next_deadline}

-- A one-shot alarm is due one interval from now.
pub next_deadline-once :
    (now : ℕ) (a : Alarm)
    → a.is_periodic ≡ false
    → now + a.period < ms_mod
    → next_deadline now a ≡ now + a.period
unfolding next_deadline
next_deadline-once now a once fits = rw once (omega arith)

-- Without wraps, what is computed is now, less the time into the period, plus one period.
next_deadline_unwrapped :
    (now : ℕ) (a : Alarm)
    → a.is_periodic ≡ true
    → 0 < a.period
    → a.creation_time ≤ now
    → now + a.period < ms_mod
    → next_deadline now a + (now - a.creation_time) % a.period ≡ now + a.period
unfolding next_deadline
next_deadline_unwrapped now a periodic pos after fits =
    let elapsed : sub_ms now a.creation_time ≡ now - a.creation_time = omega arith in
    let small : (now - a.creation_time) % a.period < a.period =
      mod-lt (now - a.creation_time) pos in
    rw (periodic, elapsed) (omega arith)

whole_periods : (e p : ℕ) → (e + p - e % p) % p ≡ 0
whole_periods e p =
    ap (λ (n : ℕ). n % p) {y = p * (e / p) + p} (omega (arith, div-add-mod e p))
    ∙ (add-mod_right (p * (e / p)) p ∙ mul-mod_right p (e / p))

-- A periodic alarm is due at the first whole number of periods since it was set that lies after now.
pub next_deadline-periodic :
    (now : ℕ) (a : Alarm)
    → a.is_periodic ≡ true
    → 0 < a.period
    → a.creation_time ≤ now
    → now + a.period < ms_mod
    → let d = next_deadline now a in
      (now < d) × (d ≤ now + a.period) × ((d - a.creation_time) % a.period ≡ 0)
unfolding next_deadline
next_deadline-periodic now a periodic pos after fits =
    let due = next_deadline_unwrapped now a periodic pos after fits in
    let e : ℕ = now - a.creation_time in
    let small : e % a.period < a.period = mod-lt e pos in
    let le : e % a.period ≤ e = mod-le e a.period in
    (
      omega arith,
      omega arith,
      ap (λ (n : ℕ). n % a.period) {y = e + a.period - e % a.period} (omega arith)
          ∙ whole_periods e a.period,
    )
