-- ===== src/HashMap/Iterate.antt =====
-- `hash_map_foreach` and what `hash_map_clear` releases, against the list of all entries.
use osi.Prelude.{
  ◌≡◌, refl, ap, Bool, none, List, [], ◌∷◌, ◌++◌, if◌then◌else◌, Bool-cases, inl, inr, All,
}
use osi.HashMap.{
  Entry, Bucket, HashMap, entries, foreach_entry, foreach_bucket, foreach, clear, clear_buckets,
}

module _ {ℓ κ} {K : Type ℓ} {D : Type κ} where
  -- The entries of all buckets, in the order of the buckets.
  abbrev pub all_entries : List (Bucket K D) → List (Entry K D)
  all_entries [] = []
  all_entries (b ∷ bs) = entries b ++ all_entries bs

  module _ {σ} {S : Type σ} (callback : Entry K D → S → Bool × S) where
    -- The callback's state after the entries up to the first at which it answers false.
    abbrev pub visit : List (Entry K D) → S → S
    visit [] s = s
    visit (e ∷ es) s =
        let rest = visit es (callback e s).1 in if (callback e s).0 then rest else (callback e s).1

    visit-append :
        (xs ys : List (Entry K D)) (s : S)
        → visit (xs ++ ys) s ≡ (
            if (foreach_entry callback xs s).0
            then visit ys (foreach_entry callback xs s).1
            else (foreach_entry callback xs s).1)
    unfolding foreach_entry
    visit-append [] ys s = refl
    visit-append (x ∷ xs) ys s = elim (Bool-cases (callback x s).0) [
      | inl more ↦ rw more (visit-append xs ys (callback x s).1)
      | inr done ↦ rw done
    ]

    foreach_bucket-visit :
        (bs : List (Bucket K D)) (s : S) → foreach_bucket callback bs s ≡ visit (all_entries bs) s
    unfolding foreach_bucket
    foreach_bucket-visit [] s = refl
    foreach_bucket-visit (b ∷ bs) s =
        rw (visit-append (entries b) (all_entries bs) s)
          (rw (foreach_bucket-visit bs (foreach_entry callback (entries b) s).1))

    -- `hash_map_foreach` calls back on the entries of all buckets in turn, through bucket ends, up to
    -- the first call that answers false, and on none behind it.
    pub foreach-visit :
        (m : HashMap K D) (s : S) → foreach callback m s ≡ visit (all_entries m.bucket) s
    unfolding foreach
    foreach-visit m s = foreach_bucket-visit m.bucket s

  clear_buckets-frees :
      (bs : List (Bucket K D))
      → ((clear_buckets bs).0 ≡ all_entries bs) × All (λ b. b ≡ none) (clear_buckets bs).1
  unfolding clear_buckets
  clear_buckets-frees [] = (refl, tt)
  clear_buckets-frees (b ∷ bs) =
      let (freed, reset) = clear_buckets-frees bs in
      (ap (λ (es : List (Entry K D)). entries b ++ es) freed, (refl, reset))

  -- `hash_map_clear` releases every entry once and resets every bucket.
  pub clear-frees :
      (m : HashMap K D)
      → ((clear m).0 ≡ all_entries m.bucket) × All (λ b. b ≡ none) (clear m).1.bucket
  unfolding clear
  clear-frees m = clear_buckets-frees m.bucket
