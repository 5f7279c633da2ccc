-- ===== src/HashMap/Set.antt =====
-- `hash_map_set`: what a search finds afterwards, whether the allocations succeed or fail.
use osi.Prelude.{
  ◌≡◌, refl, ap, ◌∙◌, Bool, true, false, Option, none, some, [], ◌∷◌, ◌++◌, if◌then◌else◌, get_or,
  Bool-cases, Option-cases, inl, inr, arith,
}
use mathlib.Core.Option
use osi.HashMap.{
  KeyOps, Entry, HashMap, Alloc, find_bucket_entry, remove_entry, index, chain, get, with_chain,
  set_tail, set_found, set_key, size_inc,
}
use osi.HashMap.Bucket.{IsLawful, find-append, find-eq, Distinct-append}
use osi.HashMap.Search.{IsValid, search, IsValid-with_chain, search-with_chain, get_of_search}
use osi.HashMap.Erase.{
  removed-IsValid, search-removed, search-hash_size, search-absent, IsValid-hash_size,
}

module _ {ℓ κ} {K : Type ℓ} {D : Type κ} (ops : KeyOps K) (law : IsLawful ops) where
  open ops use {hash_fn, keys_are_equal}

  -- The entry that a successful allocation makes.
  abbrev entry : K → D → Entry K D
  entry k d = record { key = k; value = d }

  pick :
      (b : Bool) (k : K) (d : D)
      → Option.map (λ (e : Entry K D). e.value) (if b then some (entry k d) else none)
        ≡ (if b then some d else none)
  pick true k d = refl
  pick false k d = refl

  record Sets (m : HashMap K D) (k : K) (d : D) (done : Bool) (m' : HashMap K D)
      : Type (ℓ ⊔ κ) where
    valid : IsValid ops law m'
    found :
        (j : K)
        → search ops law m' j ≡ (
            if keys_are_equal k j
            then (if done then some (entry k d) else none)
            else search ops law m j)

  -- A failure leaves a map without the key.
  Sets-absent :
      (m : HashMap K D) (k : K) (d : D)
      → IsValid ops law m
      → search ops law m k ≡ none
      → Sets m k d false m
  Sets-absent m k d v absent = record { valid = v; found = search-absent ops law m k absent }

  -- Appending the new entry to a bucket without the key.
  Sets-append :
      (m : HashMap K D) (k : K) (d : D)
      → IsValid ops law m
      → search ops law m k ≡ none
      → Sets m k d true (with_chain ops m k (chain ops m k ++ (entry k d ∷ [])))
  Sets-append m k d v absent = record {
    valid =
        IsValid-with_chain ops law m v k _
          (Distinct-append D ops law (chain ops m k) (entry k d) (v.distinct k) (ground arith));
    found = search-with_chain ops law m v k _ (some (entry k d)) λ j. agree j;
  }
    where
      agree :
          (j : K)
          → find_bucket_entry ops (chain ops m k ++ (entry k d ∷ [])) j ≡ (
              if keys_are_equal k j
              then some (entry k d)
              else find_bucket_entry ops (chain ops m k) j)
      agree j = ground (
        arith,
        find-append D ops law (chain ops m k) (entry k d) j,
        find-eq D ops law (chain ops m k) k j,
      )

  set_tail-Sets :
      (alloc : Alloc) (m : HashMap K D) (k : K) (d : D)
      → IsValid ops law m
      → search ops law m k ≡ none
      → let (done, m') = set_tail ops alloc m k d in Sets m k d done m'
  unfolding set_tail
  set_tail-Sets alloc m k d v absent = elim (Bool-cases alloc.entry_ok) [
    | inl p ↦ elim (Bool-cases alloc.node_ok) [
      | inl q ↦ rw (p, q) (Sets-append m k d v absent)
      | inr q ↦ rw (p, q) (Sets-absent m k d v absent)
    ]
    | inr p ↦ rw p (Sets-absent m k d v absent)
  ]

  -- From a map that agrees on all keys but `k`, which it lacks.
  Sets-trans :
      (m m1 m' : HashMap K D) (k : K) (d : D) (done : Bool)
      → ((j : K) → search ops law m1 j ≡ (if keys_are_equal k j then none else search ops law m j))
      → Sets m1 k d done m'
      → Sets m k d done m'
  Sets-trans m m1 m' k d done less s = record {
    valid = s.valid;
    found = λ j. ground (arith, s.found j, less j);
  }

  -- The maps at which `set_tail` is called.
  abbrev counted : HashMap K D → HashMap K D
  counted m = record m { hash_size = size_inc m.hash_size }

  abbrev unlinked : HashMap K D → K → HashMap K D
  unlinked m k = with_chain ops m k (remove_entry ops (chain ops m k) k)

  set_found-Sets :
      (alloc : Alloc) (m : HashMap K D) (k : K) (d : D)
      → IsValid ops law m
      → let (freed, done, m') = set_found ops alloc m k d in Sets m k d done m'
  unfolding set_found
  set_found-Sets alloc m k d v = elim (Option-cases (search ops law m k)) [
    | inl absent ↦
        rw (absent, set_found)
          (Sets-trans m (counted m) _ k d _
            (λ j.
              search-hash_size ops law m (size_inc m.hash_size) j
              ∙ search-absent ops law m k absent j)
            (set_tail-Sets alloc (counted m) k d
              (IsValid-hash_size ops law m (size_inc m.hash_size) v)
              (search-hash_size ops law m (size_inc m.hash_size) k ∙ absent)))
    | inr (e, found) ↦
        rw (found, set_found)
          (Sets-trans m (unlinked m k) _ k d _ (search-removed ops law m v k) (
            set_tail-Sets alloc (unlinked m k) k d (removed-IsValid ops law m v k)
              (search-removed ops law m v k k ∙ (rw (law.refl_key k)))))
  ]

  null_bucket :
      (m : HashMap K D) (k : K)
      → get_or m.bucket (index ops m k) none ≡ none
      → search ops law m k ≡ none
  unfolding find_bucket_entry
  null_bucket m k null = rw null

  -- A new list in place of NULL.
  search-started :
      (m : HashMap K D) (v : IsValid ops law m) (k : K)
      → get_or m.bucket (index ops m k) none ≡ none
      → (j : K)
      → search ops law (with_chain ops m k []) j
        ≡ (if keys_are_equal k j then none else search ops law m j)
  unfolding find_bucket_entry
  search-started m v k null =
      search-with_chain ops law m v k [] none
        λ j. rw null (elim (Bool-cases (keys_are_equal k j)) [ inl e ↦ rw e | inr e ↦ rw e ])

  set_key-Sets :
      (alloc : Alloc) (m : HashMap K D) (k : K) (d : D)
      → IsValid ops law m
      → let (freed, done, m') = set_key ops alloc m k d in Sets m k d done m'
  unfolding set_key
  set_key-Sets alloc m k d v = elim (Option-cases (get_or m.bucket (index ops m k) none)) [
    | inl null ↦
        rw (null, set_key)
          (elim (Bool-cases alloc.list_ok) [
            | inl p ↦ rw p (
                Sets-trans m (with_chain ops m k []) _ k d _ (search-started m v k null) (
                  set_found-Sets (record alloc { list_ok = true }) (with_chain ops m k []) k d
                    (IsValid-with_chain ops law m v k [] tt)))
            | inr p ↦ rw p (Sets-absent m k d v (null_bucket m k null))
          ])
    | inr (es, there) ↦ rw (there, set_key) (set_found-Sets alloc m k d v)
  ]

  -- After `hash_map_set` every other key has the value that it had. The key itself has the new value
  -- if the call says true, and none if an allocation failed: the old entry is gone even then. No
  -- bucket holds a key twice.
  pub get-set :
      (alloc : Alloc) (m : HashMap K D) (k : K) (d : D)
      → IsValid ops law m
      → let (freed, done, m') = set_key ops alloc m k d in
        ((j : K)
          → get ops m' j
            ≡ (if keys_are_equal k j then (if done then some d else none) else get ops m j))
        × IsValid ops law m'
  get-set alloc m k d v =
      let s = set_key-Sets alloc m k d v in
      let done : Bool = (set_key ops alloc m k d).1 in
      (
        λ j.
            get_of_search ops law m (set_key ops alloc m k d).2 k
              (if done then some (entry k d) else none) s.found j
            ∙ ap (λ (r : Option D). if keys_are_equal k j then r else get ops m j) (pick done k d),
        s.valid,
      )
