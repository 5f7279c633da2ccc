-- ===== src/Alarm/Order.antt =====
-- Lists of alarms by deadline: removal, a change of an alarm that is not in the list, insertion.
use osi.Prelude.{
  update, ℕ, ◌≤◌, ◌<◌, ◌≡◌, refl, ap, ◌∙◌, sym, false, List, [], ◌∷◌, ◌++◌, ltb, ◌==◌, ◌||◌,
  if◌then◌else◌, All, All-map, Bool-cases, inl, inr, arith, ltb→lt, ltb→le, ==→eq,
}
use osi.Alarm.Types.{Alarm}
use osi.Alarm.Schedule.{list_remove, list_contains, insert_after_from, insert_by_deadline}

-- Deadlines do not fall along the list.
abbrev pub Sorted : (ℕ → Alarm) → List ℕ → Type 0
Sorted alarm [] = Unit
Sorted alarm (x ∷ xs) = All (λ y. (alarm x).deadline ≤ (alarm y).deadline) xs × Sorted alarm xs

abbrev pub Distinct : List ℕ → Type 0
Distinct [] = Unit
Distinct (x ∷ xs) = (list_contains xs x ≡ false) × Distinct xs

pub All-remove {ℓ} : (P : ℕ → Type ℓ) (xs : List ℕ) (id : ℕ) → All P xs → All P (list_remove xs id)
unfolding list_remove
All-remove P [] id h = h
All-remove P (x ∷ xs) id (p, h) = elim (Bool-cases (x == id)) [
  | inl e ↦ rw e h
  | inr e ↦ rw e (p, All-remove P xs id h)
]

pub contains-remove_other :
    (xs : List ℕ) (id y : ℕ)
    → list_contains xs y ≡ false
    → list_contains (list_remove xs id) y ≡ false
unfolding list_remove
contains-remove_other [] id y h = refl
contains-remove_other (x ∷ xs) id y h = ground (arith, contains-remove_other xs id y)

pub contains-remove :
    (xs : List ℕ) (id : ℕ) → Distinct xs → list_contains (list_remove xs id) id ≡ false
unfolding list_remove
contains-remove [] id d = refl
contains-remove (x ∷ xs) id (new, d) = elim (Bool-cases (x == id)) [
  | inl e ↦ rw e (ap (λ (i : ℕ). list_contains xs i) (sym (==→eq x id e)) ∙ new)
  | inr e ↦ rw (e, e) (contains-remove xs id d)
]

pub Distinct-remove : (xs : List ℕ) (id : ℕ) → Distinct xs → Distinct (list_remove xs id)
unfolding list_remove
Distinct-remove [] id d = d
Distinct-remove (x ∷ xs) id (new, d) = elim (Bool-cases (x == id)) [
  | inl e ↦ rw e d
  | inr e ↦ rw e (contains-remove_other xs id x new, Distinct-remove xs id d)
]

pub Sorted-remove :
    (alarm : ℕ → Alarm) (xs : List ℕ) (id : ℕ) → Sorted alarm xs → Sorted alarm (list_remove xs id)
unfolding list_remove
Sorted-remove alarm [] id s = s
Sorted-remove alarm (x ∷ xs) id (first, s) = elim (Bool-cases (x == id)) [
  | inl e ↦ rw e s
  | inr e ↦ rw e (
    All-remove (λ y. (alarm x).deadline ≤ (alarm y).deadline) xs id first,
    Sorted-remove alarm xs id s,
  )
]

-- What holds of alarms other than `id` is not touched by a change of `id`.
pub All-update {ℓ} :
    {A : Type 0} (P : A → Type ℓ) (f : ℕ → A) (id : ℕ) (v : A) (xs : List ℕ)
    → list_contains xs id ≡ false
    → All (λ y. P (f y)) xs
    → All (λ y. P (update f id v y)) xs
All-update P f id v [] new h = h
All-update P f id v (x ∷ xs) new (p, h) = elim (Bool-cases (x == id)) [
  | inl e ↦ absurd (ground arith)
  | inr e ↦ (rw e p, All-update P f id v xs (ground arith) h)
]

pub Sorted-update :
    (alarm : ℕ → Alarm) (id : ℕ) (a : Alarm) (xs : List ℕ)
    → list_contains xs id ≡ false
    → Sorted alarm xs
    → Sorted (update alarm id a) xs
Sorted-update alarm id a [] new s = s
Sorted-update alarm id a (x ∷ xs) new (first, s) = elim (Bool-cases (x == id)) [
  | inl e ↦ absurd (ground arith)
  | inr e ↦ (
    rw e (All-update (λ b. (alarm x).deadline ≤ b.deadline) alarm id a xs (ground arith) first),
    Sorted-update alarm id a xs (ground arith) s,
  )
]

-- The same list by one recursion.
abbrev pub place : (ℕ → Alarm) → ℕ → List ℕ → List ℕ
place alarm id [] = id ∷ []
place alarm id (x ∷ xs) =
    if ltb (alarm id).deadline (alarm x).deadline then id ∷ x ∷ xs else x ∷ place alarm id xs

insert_after_from-place :
    (alarm : ℕ → Alarm) (id node : ℕ) (xs : List ℕ)
    → insert_after_from alarm id node xs ≡ node ∷ place alarm id xs
unfolding insert_after_from
insert_after_from-place alarm id node [] = refl
insert_after_from-place alarm id node (x ∷ xs) =
    elim (Bool-cases (ltb (alarm id).deadline (alarm x).deadline)) [
      | inl e ↦ rw e
      | inr e ↦ rw e (ap (◌∷◌ node) (insert_after_from-place alarm id x xs))
    ]

pub insert_by_deadline-place :
    (alarm : ℕ → Alarm) (id : ℕ) (xs : List ℕ) → insert_by_deadline alarm id xs ≡ place alarm id xs
unfolding insert_by_deadline
insert_by_deadline-place alarm id [] = refl
insert_by_deadline-place alarm id (x ∷ xs) =
    elim (Bool-cases (ltb (alarm id).deadline (alarm x).deadline)) [
      | inl e ↦ rw e
      | inr e ↦ rw e (insert_after_from-place alarm id x xs)
    ]

-- Where an alarm is put.
pub record Placed (alarm : ℕ → Alarm) (id : ℕ) (xs out : List ℕ) : Type 0 where
  pub before : List ℕ
  pub after : List ℕ
  pub old : xs ≡ before ++ after
  pub new : out ≡ before ++ (id ∷ after)
  pub not_later : All (λ y. (alarm y).deadline ≤ (alarm id).deadline) before
  pub later : All (λ y. (alarm id).deadline < (alarm y).deadline) after

-- In a list by deadline an alarm is put behind all alarms that are not later, and before all that
-- are: alarms with one deadline keep the order in which they were set.
pub insert-Placed :
    (alarm : ℕ → Alarm) (id : ℕ) (xs : List ℕ)
    → Sorted alarm xs
    → Placed alarm id xs (insert_by_deadline alarm id xs)
insert-Placed alarm id xs s = rw (insert_by_deadline-place alarm id xs) (go xs s)
  where
    front :
        (x : ℕ) (ys : List ℕ)
        → (alarm id).deadline < (alarm x).deadline
        → Sorted alarm (x ∷ ys)
        → Placed alarm id (x ∷ ys) (id ∷ x ∷ ys)
    front x ys lt (first, _) = record {
      before = [];
      after = x ∷ ys;
      old = refl;
      new = refl;
      not_later = tt;
      later = (lt, All-map _ _ (λ y le. omega arith) ys first);
    }

    behind :
        (x : ℕ) (ys out : List ℕ)
        → (alarm x).deadline ≤ (alarm id).deadline
        → Placed alarm id ys out
        → Placed alarm id (x ∷ ys) (x ∷ out)
    behind x ys out le p = record {
      before = x ∷ p.before;
      after = p.after;
      old = ap (◌∷◌ x) p.old;
      new = ap (◌∷◌ x) p.new;
      not_later = (le, p.not_later);
      later = p.later;
    }

    go : (ys : List ℕ) → Sorted alarm ys → Placed alarm id ys (place alarm id ys)
    go [] _ = record { before = []; after = []; old = refl; new = refl; not_later = tt; later = tt }
    go (x ∷ ys) (first, r) = elim (Bool-cases (ltb (alarm id).deadline (alarm x).deadline)) [
      | inl e ↦ rw e (front x ys (ltb→lt _ _ e) (first, r))
      | inr e ↦ rw e (behind x ys _ (ltb→le _ _ e) (go ys r))
    ]

pub All-place {ℓ} :
    (P : ℕ → Type ℓ) (alarm : ℕ → Alarm) (id : ℕ) (xs : List ℕ)
    → P id
    → All P xs
    → All P (place alarm id xs)
All-place P alarm id [] p h = (p, tt)
All-place P alarm id (x ∷ xs) p (q, h) =
    elim (Bool-cases (ltb (alarm id).deadline (alarm x).deadline)) [
      | inl e ↦ rw e (p, (q, h))
      | inr e ↦ rw e (q, All-place P alarm id xs p h)
    ]

pub contains-place :
    (alarm : ℕ → Alarm) (id y : ℕ) (xs : List ℕ)
    → list_contains (place alarm id xs) y ≡ (id == y || list_contains xs y)
contains-place alarm id y [] = refl
contains-place alarm id y (x ∷ xs) = ground (arith, contains-place alarm id y xs)

pub Distinct-place :
    (alarm : ℕ → Alarm) (id : ℕ) (xs : List ℕ)
    → list_contains xs id ≡ false
    → Distinct xs
    → Distinct (place alarm id xs)
Distinct-place alarm id [] new d = (refl, tt)
Distinct-place alarm id (x ∷ xs) new (fresh, d) =
    elim (Bool-cases (ltb (alarm id).deadline (alarm x).deadline)) [
      | inl e ↦ rw e (new, (fresh, d))
      | inr e ↦ rw e (
        contains-place alarm id x xs ∙ ground (arith, fresh, new),
        Distinct-place alarm id xs (ground arith) d,
      )
    ]

pub Sorted-place :
    (alarm : ℕ → Alarm) (id : ℕ) (xs : List ℕ) → Sorted alarm xs → Sorted alarm (place alarm id xs)
Sorted-place alarm id [] s = (tt, tt)
Sorted-place alarm id (x ∷ xs) (first, s) =
    elim (Bool-cases (ltb (alarm id).deadline (alarm x).deadline)) [
      | inl e ↦
          let lt = ltb→lt (alarm id).deadline (alarm x).deadline e in
          rw e (
            (
              omega arith,
              All-map (λ y. (alarm x).deadline ≤ (alarm y).deadline)
                  (λ y. (alarm id).deadline ≤ (alarm y).deadline) (λ y le. omega arith) xs first,
            ),
            (first, s),
          )
      | inr e ↦ rw e (
        All-place (λ y. (alarm x).deadline ≤ (alarm y).deadline) alarm id xs (ltb→le _ _ e) first,
        Sorted-place alarm id xs s,
      )
    ]
