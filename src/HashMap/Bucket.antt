-- ===== src/HashMap/Bucket.antt =====
-- The laws that the keys' callbacks are documented to have, and searches in one bucket.
use osi.Prelude.{
  ◌≡◌, refl, true, false, none, some, List, [], ◌∷◌, ◌++◌, if◌then◌else◌, length, ◌+◌, is_some,
  Bool-cases, inl, inr, arith,
}
use osi.HashMap.{KeyOps, Entry, find_bucket_entry, remove_entry}

-- Equality of keys is an equivalence, and equal keys have one hash.
pub record IsLawful {ℓ} {K : Type ℓ} (ops : KeyOps K) : Type ℓ where
  pub refl_key : (a : K) → ops.keys_are_equal a a ≡ true
  pub sym_key : (a b : K) → ops.keys_are_equal a b ≡ true → ops.keys_are_equal b a ≡ true
  pub trans_key :
      (a b c : K)
      → ops.keys_are_equal a b ≡ true
      → ops.keys_are_equal b c ≡ true
      → ops.keys_are_equal a c ≡ true
  pub hash_key : (a b : K) → ops.keys_are_equal a b ≡ true → ops.hash_fn a ≡ ops.hash_fn b

module _ {ℓ κ} {K : Type ℓ} (D : Type κ) (ops : KeyOps K) (law : IsLawful ops) where
  open ops use {keys_are_equal}

  pub eq_right : (a b c : K) → keys_are_equal b c ≡ true → keys_are_equal a b ≡ keys_are_equal a c
  eq_right a b c e = ground (arith, law.trans_key a b c, law.trans_key a c b, law.sym_key b c)

  pub find-eq :
      (es : List (Entry K D)) (b c : K)
      → keys_are_equal b c ≡ true
      → find_bucket_entry ops es b ≡ find_bucket_entry ops es c
  unfolding find_bucket_entry
  find-eq [] b c e = refl
  find-eq (x ∷ es) b c e = rw (eq_right x.key b c e, find-eq es b c e)

  pub find-append :
      (es : List (Entry K D)) (x : Entry K D) (j : K)
      → find_bucket_entry ops (es ++ (x ∷ [])) j ≡ (elim (find_bucket_entry ops es j) [
        | some e ↦ some e
        | none ↦ if keys_are_equal x.key j then some x else none
      ])
  unfolding find_bucket_entry
  find-append [] x j = refl
  find-append (y ∷ es) x j = ground (arith, find-append es x j)

  -- No key stands twice in a bucket.
  abbrev pub Distinct : List (Entry K D) → Type 0
  Distinct [] = Unit
  Distinct (x ∷ es) = (is_some (find_bucket_entry ops es x.key) ≡ false) × Distinct es

  pub find-remove :
      (es : List (Entry K D)) (k j : K)
      → Distinct es
      → find_bucket_entry ops (remove_entry ops es k) j
        ≡ (if keys_are_equal k j then none else find_bucket_entry ops es j)
  unfolding find_bucket_entry remove_entry
  find-remove [] k j d = ground arith
  find-remove (x ∷ es) k j (new, d) = elim (Bool-cases (keys_are_equal x.key k)) [
    | inl hit ↦ elim (Bool-cases (keys_are_equal k j)) [
      | inl same ↦
          rw (hit, same)
            (ground (arith, find-eq es x.key j (law.trans_key x.key k j hit same), new))
      | inr other ↦
          rw (hit, other) (ground (arith, law.trans_key k x.key j (law.sym_key x.key k hit)))
    ]
    | inr miss ↦
        rw miss (ground (arith, find-remove es k j d, law.trans_key x.key j k, law.sym_key k j))
  ]

  pub find_remove_is_some :
      (es : List (Entry K D)) (k j : K)
      → is_some (find_bucket_entry ops es j) ≡ false
      → is_some (find_bucket_entry ops (remove_entry ops es k) j) ≡ false
  unfolding find_bucket_entry remove_entry
  find_remove_is_some [] k j h = refl
  find_remove_is_some (x ∷ es) k j h = ground (arith, find_remove_is_some es k j)

  pub Distinct-remove :
      (es : List (Entry K D)) (k : K) → Distinct es → Distinct (remove_entry ops es k)
  unfolding remove_entry
  Distinct-remove [] k d = d
  Distinct-remove (x ∷ es) k (new, d) = elim (Bool-cases (keys_are_equal x.key k)) [
    | inl hit ↦ rw hit d
    | inr miss ↦ rw miss (find_remove_is_some es k x.key new, Distinct-remove es k d)
  ]

  pub Distinct-append :
      (es : List (Entry K D)) (x : Entry K D)
      → Distinct es
      → is_some (find_bucket_entry ops es x.key) ≡ false
      → Distinct (es ++ (x ∷ []))
  unfolding find_bucket_entry
  Distinct-append [] x d new = (refl, tt)
  Distinct-append (y ∷ es) x (fresh, d) new = (
    ground (arith, find-append es x y.key, law.sym_key x.key y.key),
    Distinct-append es x d (ground arith),
  )

  pub length-remove :
      (es : List (Entry K D)) (k : K)
      → length (remove_entry ops es k) + (if is_some (find_bucket_entry ops es k) then 1 else 0)
        ≡ length es
  unfolding find_bucket_entry remove_entry
  length-remove [] k = refl
  length-remove (x ∷ es) k = ground (arith, length-remove es k)
