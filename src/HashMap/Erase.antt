-- ===== src/HashMap/Erase.antt =====
-- `hash_map_erase` and `hash_map_clear`: what a search finds afterwards.
use mathlib.Core.Option
use osi.Prelude.{
  ℕ, zero, suc, ◌≡◌, refl, ap, ◌∙◌, none, List, [], ◌∷◌, if◌then◌else◌, get_or, Bool-cases,
  Option-cases, inl, inr,
}
use osi.HashMap.{
  KeyOps, Bucket, HashMap, entries, find_bucket_entry, remove_entry, index, chain, get, has_key,
  with_chain, erase, size_dec, size, clear, clear_buckets,
}
use osi.HashMap.Bucket.{IsLawful, find-remove, Distinct-remove}
use osi.HashMap.Search.{
  IsValid, search, IsValid-with_chain, search-with_chain, search-eq, get_of_search,
}

module _ {ℓ κ} {K : Type ℓ} {D : Type κ} (ops : KeyOps K) (law : IsLawful ops) where
  open ops use {hash_fn, keys_are_equal}

  -- Unlinking the entry found leaves a valid map that has every other key.
  module _ (m : HashMap K D) (v : IsValid ops law m) (k : K) where
    pub removed-IsValid : IsValid ops law (with_chain ops m k (remove_entry ops (chain ops m k) k))
    removed-IsValid =
        IsValid-with_chain ops law m v k _
          (Distinct-remove D ops law (chain ops m k) k (v.distinct k))

    pub search-removed :
        (j : K)
        → search ops law (with_chain ops m k (remove_entry ops (chain ops m k) k)) j
          ≡ (if keys_are_equal k j then none else search ops law m j)
    search-removed =
        search-with_chain ops law m v k _ none
          λ j. find-remove D ops law (chain ops m k) k j (v.distinct k)

  -- The count of entries has no part in the search.
  pub search-hash_size :
      (m : HashMap K D) (n : ℕ) (j : K)
      → search ops law (record m { hash_size = n }) j ≡ search ops law m j
  unfolding index
  search-hash_size m n j = refl

  pub IsValid-hash_size :
      (m : HashMap K D) (n : ℕ) → IsValid ops law m → IsValid ops law (record m { hash_size = n })
  unfolding index
  IsValid-hash_size m n v = record { some_bucket = v.some_bucket; distinct = v.distinct }

  -- A key that is not there.
  pub search-absent :
      (m : HashMap K D) (k : K)
      → search ops law m k ≡ none
      → (j : K) → search ops law m j ≡ (if keys_are_equal k j then none else search ops law m j)
  search-absent m k absent j = elim (Bool-cases (keys_are_equal k j)) [
    | inl e ↦ rw (e, ← search-eq ops law m k j e) absent
    | inr e ↦ rw e
  ]

  -- `hash_map_erase` says whether the key was there; afterwards it is not, every other key has the
  -- value that it had, and no bucket holds a key twice.
  pub get-erase :
      (m : HashMap K D) (k : K)
      → IsValid ops law m
      → let (freed, found, m') = erase ops m k in
        (found ≡ has_key ops m k)
        × ((j : K) → get ops m' j ≡ (if keys_are_equal k j then none else get ops m j))
        × IsValid ops law m'
  unfolding erase has_key
  get-erase m k v = elim (Option-cases (search ops law m k)) [
    | inl absent ↦
        rw (absent, erase) (refl, get_of_search ops law m m k none (search-absent m k absent), v)
    | inr (e, found) ↦
        rw (found, erase)
          (
            refl,
            get_of_search ops law m _ k none (λ j.
                search-hash_size (with_chain ops m k (remove_entry ops (chain ops m k) k))
                  (size_dec m.hash_size) j
                ∙ search-removed m v k j),
            IsValid-hash_size _ (size_dec m.hash_size) (removed-IsValid m v k),
          )
  ]

  search-clear_buckets :
      (bs : List (Bucket K D)) (i : ℕ) (j : K)
      → find_bucket_entry ops (entries (get_or (clear_buckets bs).1 i none)) j ≡ none
  unfolding clear_buckets find_bucket_entry
  search-clear_buckets [] i j = refl
  search-clear_buckets (b ∷ bs) zero j = refl
  search-clear_buckets (b ∷ bs) (suc i) j = search-clear_buckets bs i j

  -- After `hash_map_clear` no key has a value, yet the size that the map reports is the one from
  -- before: a map that reported entries still reports them.
  pub clear-get-size :
      (m : HashMap K D) → ((j : K) → get ops (clear m).1 j ≡ none) × (size (clear m).1 ≡ size m)
  unfolding clear get size
  clear-get-size m = (λ j. ap (Option.map (λ e. e.value)) (search-clear_buckets m.bucket _ j), refl)
