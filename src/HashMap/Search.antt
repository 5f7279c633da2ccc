-- ===== src/HashMap/Search.antt =====
-- A valid table, the search for a key in it, and a change of one bucket.
use osi.Prelude.{
  ℕ, ◌≡◌, ◌<◌, ◌%◌, refl, ap, ◌∙◌, true, Option, none, some, List, if◌then◌else◌, length,
  Bool-cases, inl, inr, arith, get_or, get_or-set_self, get_or-set_ne, length-set, ◌==◌, ==→eq,
  ==→ne, ◌≢◌,
}
use mathlib.Core.Option
use osi.HashMap.{KeyOps, Entry, HashMap, entries, find_bucket_entry, index, chain, get, with_chain}
use osi.HashMap.Bucket.{IsLawful, Distinct, find-eq}

module _ {ℓ κ} {K : Type ℓ} {D : Type κ} (ops : KeyOps K) (law : IsLawful ops) where
  open ops use {hash_fn, keys_are_equal}

  -- There are buckets, and no bucket holds a key twice.
  pub record IsValid (m : HashMap K D) : Type ℓ where
    pub some_bucket : 0 < length m.bucket
    pub distinct : (k : K) → Distinct D ops law (chain ops m k)

  -- The entry of a key.
  abbrev pub search : HashMap K D → K → Option (Entry K D)
  search m k = find_bucket_entry ops (chain ops m k) k

  module _ (m : HashMap K D) (v : IsValid m) (k : K) (es : List (Entry K D)) where
    pub index-lt : index ops m k < length m.bucket
    unfolding index
    index-lt = let pos = v.some_bucket in grind arith

    index-with_chain : (j : K) → index ops (with_chain ops m k es) j ≡ index ops m j
    unfolding index
    index-with_chain j = rw (length-set m.bucket (hash_fn k % length m.bucket) (some es))

    chain-same : (j : K) → index ops m k ≡ index ops m j → chain ops (with_chain ops m k es) j ≡ es
    chain-same j e =
        rw (
          index-with_chain j,
          ← e,
          get_or-set_self m.bucket (index ops m k) (some es) none index-lt,
        )

    chain-other :
        (j : K)
        → index ops m k ≢ index ops m j
        → chain ops (with_chain ops m k es) j ≡ chain ops m j
    chain-other j ne = rw (
      index-with_chain j,
      get_or-set_ne m.bucket (index ops m k) (index ops m j) (some es) none ne,
    )

    pub IsValid-with_chain : Distinct D ops law es → IsValid (with_chain ops m k es)
    IsValid-with_chain d = record {
      some_bucket = rw (length-set m.bucket (index ops m k) (some es)) v.some_bucket;
      distinct = λ j. elim (Bool-cases (index ops m k == index ops m j)) [
        | inl e ↦ rw (chain-same j (==→eq _ _ e)) d
        | inr e ↦ rw (chain-other j (==→ne _ _ e)) (v.distinct j)
      ];
    }

  -- The bucket of `k` is given the entries `es`, which agree with the old ones on other keys.
  pub search-with_chain :
      (m : HashMap K D) (v : IsValid m) (k : K) (es : List (Entry K D)) (new : Option (Entry K D))
      → ((j : K)
          → find_bucket_entry ops es j
            ≡ (if keys_are_equal k j then new else find_bucket_entry ops (chain ops m k) j))
      → (j : K)
      → search (with_chain ops m k es) j ≡ (if keys_are_equal k j then new else search m j)
  unfolding index
  search-with_chain m v k es new agree j = elim (Bool-cases (index ops m k == index ops m j)) [
    | inl e ↦
        rw (chain-same m v k es j (==→eq _ _ e), agree j)
          (ap
            (λ (i : ℕ).
              if keys_are_equal k j
              then new
              else find_bucket_entry ops (entries (get_or m.bucket i none)) j)
            (==→eq _ _ e))
    | inr e ↦ elim (Bool-cases (keys_are_equal k j)) [
      | inl same ↦
          absurd (==→ne _ _ e (ap (λ (h : ℕ). h % length m.bucket) (law.hash_key k j same)))
      | inr other ↦ rw (other, chain-other m v k es j (==→ne _ _ e))
    ]
  ]

  pub search-eq : (m : HashMap K D) (k j : K) → keys_are_equal k j ≡ true → search m k ≡ search m j
  unfolding index
  search-eq m k j e =
      ap (λ (h : ℕ). find_bucket_entry ops (entries (get_or m.bucket (h % length m.bucket) none)) k)
        (law.hash_key k j e)
      ∙ find-eq D ops law (chain ops m j) k j e

  pub get-search : (m : HashMap K D) (j : K) → get ops m j ≡ Option.map (λ e. e.value) (search m j)
  unfolding get
  get-search m j = refl

  -- From what a search finds to what get answers.
  pub get_of_search :
      (m m' : HashMap K D) (k : K) (new : Option (Entry K D))
      → ((j : K) → search m' j ≡ (if keys_are_equal k j then new else search m j))
      → (j : K)
      → get ops m' j ≡ (if keys_are_equal k j then Option.map (λ e. e.value) new else get ops m j)
  get_of_search m m' k new h j =
      rw (get-search m' j, get-search m j, h j)
        (elim (Bool-cases (keys_are_equal k j)) [ inl e ↦ rw e | inr e ↦ rw e ])
