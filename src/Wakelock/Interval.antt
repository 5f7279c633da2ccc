-- ===== src/Wakelock/Interval.antt =====
-- The wake lock's statistics: acquisitions and releases alternate, and the intervals' minimum,
-- maximum, last and total fit together.
use osi.Prelude.{
  ℕ, ◌+◌, ◌*◌, ◌%◌, ◌≤◌, ◌<◌, ◌^◌, ◌≡◌, refl, ap, ◌∙◌, Bool, true, false, if◌then◌else◌, Bool-cases,
  ltb, ltb→lt, ltb→le, ◌==◌, ◌||◌, inl, inr, or_right, ==→eq, arith,
}
use osi.Wakelock.{
  Status, Stats, reset_stats, update_acquired_stats, update_released_stats, add_interval, sub_ms,
  close_interval, count_released_error,
}

pub record IsValid (st : Stats) : Type 0 where
  pub alternate : st.acquired_count ≡ st.released_count + (if st.is_acquired then 1 else 0)
  pub min_le_last : st.min_acquired_interval_ms ≤ st.last_acquired_interval_ms
  pub last_le_max : st.last_acquired_interval_ms ≤ st.max_acquired_interval_ms
  pub total_lower : st.min_acquired_interval_ms * st.released_count ≤ st.total_acquired_interval_ms
  pub total_upper : st.total_acquired_interval_ms ≤ st.max_acquired_interval_ms * st.released_count

-- The statistics are valid after a reset.
pub reset-IsValid : (now : ℕ) → IsValid (reset_stats now)
unfolding reset_stats
reset-IsValid now = record {
  alternate = refl;
  min_le_last = omega arith;
  last_le_max = omega arith;
  total_lower = omega arith;
  total_upper = omega arith;
}

-- Acquiring keeps the statistics valid, whatever the status.
pub update_acquired-IsValid :
    (now : ℕ) (status : Status) (st : Stats)
    → IsValid st
    → IsValid (update_acquired_stats now status st)
unfolding update_acquired_stats
update_acquired-IsValid now status st v = ground arith

max_total : (mx total r d : ℕ) → total ≤ mx * r → total + d ≤ (if ltb mx d then d else mx) * (r + 1)
max_total mx total r d h = elim (Bool-cases (ltb mx d)) [
  | inl p ↦ rw p (let lt = ltb→lt mx d p in grind arith)
  | inr p ↦ rw p (let le = ltb→le mx d p in grind arith)
]

mul_mono : (a b r : ℕ) → a < b → a * r ≤ b * r
mul_mono a b r lt = let le : a ≤ b = omega arith in grind arith

min_total :
    (mn total r d : ℕ)
    → mn * r ≤ total
    → (if ltb d mn || ((r + 1) == 1) then d else mn) * (r + 1) ≤ total + d
min_total mn total r d h = elim (Bool-cases (ltb d mn || ((r + 1) == 1))) [
  | inl p ↦ rw p (elim (Bool-cases (ltb d mn)) [
    | inl less ↦ let lt = ltb→lt d mn less in let step = mul_mono d mn r lt in omega arith
    | inr more ↦
        let one = ==→eq _ _ (or_right (ltb d mn) _ p more) in
        let first : r ≡ 0 = omega arith in omega (arith, ap (λ (t : ℕ). d * t) first)
  ])
  | inr p ↦ rw p (let le : mn ≤ d = ground arith in grind arith)
]

-- One more interval, after `r` of them.
add_interval-IsValid :
    (delta r : ℕ) (st : Stats)
    → st.released_count ≡ r + 1
    → st.acquired_count ≡ r + 1
    → st.is_acquired ≡ false
    → st.min_acquired_interval_ms * r ≤ st.total_acquired_interval_ms
    → st.total_acquired_interval_ms ≤ st.max_acquired_interval_ms * r
    → st.total_acquired_interval_ms + delta < 2 ^ 64
    → IsValid (add_interval delta st)
unfolding add_interval
add_interval-IsValid delta r st released acquired idle lower upper fits =
    let total : (st.total_acquired_interval_ms + delta) % 2 ^ 64
        ≡ st.total_acquired_interval_ms + delta =
      omega arith in
    record {
      alternate = rw idle (omega arith);
      min_le_last = ground arith;
      last_le_max = ground arith;
      total_lower =
          rw (total, released)
            (min_total st.min_acquired_interval_ms st.total_acquired_interval_ms r delta lower);
      total_upper =
          rw (total, released)
            (max_total st.max_acquired_interval_ms st.total_acquired_interval_ms r delta upper);
    }

close_interval-IsValid :
    (now : ℕ) (st : Stats)
    → IsValid st
    → st.is_acquired ≡ true
    → st.last_acquired_timestamp_ms ≤ now
    → now < 2 ^ 64
    → st.total_acquired_interval_ms + now < 2 ^ 64
    → IsValid (close_interval now st)
unfolding close_interval
close_interval-IsValid now st v held le small fits =
    add_interval-IsValid (sub_ms now st.last_acquired_timestamp_ms) st.released_count
      (record st {
        is_acquired = false;
        released_count = st.released_count + 1;
        last_released_timestamp_ms = now;
      })
      refl (v.alternate ∙ ap (λ (b : Bool). st.released_count + (if b then 1 else 0)) held) refl
      v.total_lower v.total_upper (omega arith)

count_released_error-IsValid :
    (status : Status) (st : Stats)
    → IsValid st
    → let st' = count_released_error status st in
      IsValid st'
      × (st'.last_acquired_timestamp_ms ≡ st.last_acquired_timestamp_ms)
      × (st'.total_acquired_interval_ms ≡ st.total_acquired_interval_ms)
unfolding count_released_error
count_released_error-IsValid status st v = ground arith

IsValid-if :
    (b : Bool) (x y : Stats) → (b ≡ true → IsValid x) → IsValid y → IsValid (if b then x else y)
IsValid-if true x y h k = h refl
IsValid-if false x y h k = k

-- Releasing keeps the statistics valid, whatever the status, while the clock does not run backwards
-- and the total does not wrap.
pub update_released-IsValid :
    (now : ℕ) (status : Status) (st : Stats)
    → IsValid st
    → st.last_acquired_timestamp_ms ≤ now
    → now < 2 ^ 64
    → st.total_acquired_interval_ms + now < 2 ^ 64
    → IsValid (update_released_stats now status st)
unfolding update_released_stats
update_released-IsValid now status st v le small fits =
    let counted = count_released_error status st in
    let (valid, since, total) = count_released_error-IsValid status st v in
    IsValid-if counted.is_acquired (close_interval now counted) counted
      (λ held. close_interval-IsValid now counted valid held (omega arith) small (omega arith))
      valid
