-- ===== src/HashMap/Count.antt =====
-- `hash_map_size` against the entries that the buckets hold.
use osi.Prelude.{
  ℕ, zero, suc, ◌≡◌, ◌<◌, ◌^◌, refl, Bool, true, false, none, some, List, [], ◌∷◌, ◌++◌,
  if◌then◌else◌, length, ◌+◌, Bool-cases, Option-cases, inl, inr, arith, get_or, set, length-append,
}
use osi.HashMap.{
  KeyOps, Entry, Bucket, HashMap, Alloc, entries, remove_entry, index, chain, with_chain, set_tail,
  set_found, set_key, erase, size, size_inc,
}
use osi.HashMap.Bucket.{IsLawful, length-remove}
use osi.HashMap.Search.{IsValid, search, index-lt, IsValid-with_chain}
use osi.HashMap.Erase.{removed-IsValid, IsValid-hash_size}

module _ {ℓ κ} {K : Type ℓ} {D : Type κ} where
  -- The entries in all buckets.
  abbrev pub total : List (Bucket K D) → ℕ
  total [] = 0
  total (b ∷ bs) = length (entries b) + total bs

  total-set :
      (bs : List (Bucket K D)) (i : ℕ) (b : Bucket K D)
      → i < length bs
      → total (set bs i b) + length (entries (get_or bs i none)) ≡ total bs + length (entries b)
  total-set [] i b lt = absurd (omega arith)
  total-set (x ∷ bs) zero b lt = omega arith
  total-set (x ∷ bs) (suc i) b lt = omega (arith, total-set bs i b (omega arith))

module _ {ℓ κ} {K : Type ℓ} {D : Type κ} (ops : KeyOps K) (law : IsLawful ops) where
  -- A change of one bucket changes the total by the lengths of its lists.
  total-with_chain :
      (m : HashMap K D) (v : IsValid ops law m) (k : K) (es : List (Entry K D))
      → total (with_chain ops m k es).bucket + length (chain ops m k) ≡ total m.bucket + length es
  total-with_chain m v k es =
      total-set m.bucket (index ops m k) (some es) (index-lt ops law m v k es)

  found_one :
      (m : HashMap K D) (k : K) (e : Entry K D)
      → search ops law m k ≡ some e
      → length (remove_entry ops (chain ops m k) k) + 1 ≡ length (chain ops m k)
  found_one m k e found = rw found at (length-remove D ops law (chain ops m k) k)

  -- `hash_map_erase` keeps the size equal to the number of entries.
  pub size-erase :
      (m : HashMap K D) (k : K)
      → IsValid ops law m
      → size m ≡ total m.bucket
      → size m < 2 ^ 64
      → let (freed, found, m') = erase ops m k in size m' ≡ total m'.bucket
  unfolding erase size
  size-erase m k v e lt = elim (Option-cases (search ops law m k)) [
    | inl absent ↦ rw (absent, erase) e
    | inr (x, found) ↦
        rw (found, erase)
          (omega (
            arith,
            found_one m k x found,
            total-with_chain m v k (remove_entry ops (chain ops m k) k),
          ))
  ]

  set_tail-total :
      (alloc : Alloc) (m : HashMap K D) (k : K) (d : D)
      → IsValid ops law m
      → let (done, m') = set_tail ops alloc m k d in
        (m'.hash_size ≡ m.hash_size) × (total m'.bucket ≡ total m.bucket + (if done then 1 else 0))
  unfolding set_tail
  set_tail-total alloc m k d v = elim (Bool-cases alloc.entry_ok) [
    | inl p ↦ elim (Bool-cases alloc.node_ok) [
      | inl q ↦
          rw (p, q)
            (
              refl,
              omega (
                arith,
                total-with_chain m v k (chain ops m k ++ (record { key = k; value = d } ∷ [])),
                length-append {ℓ ⊔ κ} (chain ops m k) (record { key = k; value = d } ∷ []),
              ),
            )
      | inr q ↦ rw (p, q) (refl, omega arith)
    ]
    | inr p ↦ rw p (refl, omega arith)
  ]

  -- The size is one more than the number of entries, if an allocation failed.
  abbrev Sized : Bool → HashMap K D → Type 0
  Sized done m = m.hash_size ≡ total m.bucket + (if done then 0 else 1)

  Sized-of_total :
      (done : Bool) (n : ℕ) (m' : HashMap K D)
      → m'.hash_size ≡ n + 1
      → total m'.bucket ≡ n + (if done then 1 else 0)
      → Sized done m'
  Sized-of_total true n m' p q = omega arith
  Sized-of_total false n m' p q = omega arith

  set_found-Sized :
      (alloc : Alloc) (m : HashMap K D) (k : K) (d : D)
      → IsValid ops law m
      → m.hash_size ≡ total m.bucket
      → m.hash_size + 1 < 2 ^ 64
      → let (freed, done, m') = set_found ops alloc m k d in Sized done m'
  unfolding set_found
  set_found-Sized alloc m k d v e lt = elim (Option-cases (search ops law m k)) [
    | inl absent ↦
        rw (absent, set_found)
          (let m1 : HashMap K D = record m { hash_size = size_inc m.hash_size } in
            let (s, t) =
              set_tail-total alloc m1 k d (IsValid-hash_size ops law m (size_inc m.hash_size) v) in
            Sized-of_total (set_tail ops alloc m1 k d).0 (total m.bucket)
              (set_tail ops alloc m1 k d).1 (omega arith) t)
    | inr (x, found) ↦
        rw (found, set_found)
          (let es : List (Entry K D) = remove_entry ops (chain ops m k) k in
            let m1 : HashMap K D = with_chain ops m k es in
            let (s, t) = set_tail-total alloc m1 k d (removed-IsValid ops law m v k) in
            let less = total-with_chain m v k es in
            let one = found_one m k x found in
            Sized-of_total (set_tail ops alloc m1 k d).0 (total m1.bucket)
              (set_tail ops alloc m1 k d).1 (omega arith) t)
  ]

  -- `hash_map_set` keeps the size equal to the number of entries if it returns true. If the entry
  -- or its node cannot be allocated, the size is one more than that, whether or not the key was
  -- there. The map is valid, the list of a bucket can be allocated, and the size does not wrap.
  pub size-set :
      (alloc : Alloc) (m : HashMap K D) (k : K) (d : D)
      → IsValid ops law m
      → alloc.list_ok ≡ true
      → size m ≡ total m.bucket
      → size m + 1 < 2 ^ 64
      → let (freed, done, m') = set_key ops alloc m k d in
        size m' ≡ total m'.bucket + (if done then 0 else 1)
  unfolding set_key size
  size-set alloc m k d v p e lt = elim (Option-cases (get_or m.bucket (index ops m k) none)) [
    | inl null ↦
        rw (null, set_key)
          (let m1 : HashMap K D = with_chain ops m k [] in
            let empty : length (chain ops m k) ≡ 0 = rw null in
            let same = total-with_chain m v k [] in
            rw p (
              set_found-Sized (record alloc { list_ok = true }) m1 k d
                (IsValid-with_chain ops law m v k [] tt) (omega arith) lt))
    | inr (es, there) ↦ rw (there, set_key) (set_found-Sized alloc m k d v e lt)
  ]
