-- ===== src/HashMap.antt =====
-- src/hash_map.c: a table of buckets, each NULL until its first use, then a list of entries.
-- The callbacks `hash_fn` and `keys_are_equal` are the record `KeyOps`. What `key_fn` and `data_fn`
-- are called on is returned as the list of the entries that `bucket_free_` released. The allocator
-- is the caller's: `Alloc` says which of the allocations of a call succeed. The back pointer of an
-- entry to its map is left out: it is the map at hand. `list_remove` is handed the entry that the
-- search found, and entries are separate allocations, so it unlinks the first match.
pub mod Bucket
pub mod New
pub mod Search
pub mod Set
pub mod Erase
pub mod Count
pub mod Iterate
mod Tests
use osi.Prelude.{
  ℕ, zero, suc, ◌+◌, ◌-◌, ◌%◌, ◌^◌, Bool, true, false, Option, none, some, List, [], ◌∷◌, ◌++◌,
  if◌then◌else◌, length, set, get_or, replicate, is_some, ◌==◌,
}
use mathlib.Core.Option

pub record KeyOps {ℓ} (K : Type ℓ) : Type ℓ where
  pub hash_fn : K → ℕ
  pub keys_are_equal : K → K → Bool

pub record Entry {ℓ κ} (K : Type ℓ) (D : Type κ) : Type (ℓ ⊔ κ) where
  pub key : K
  pub value : D

-- A bucket's list is `none` while the pointer is NULL.
abbrev pub Bucket {ℓ κ} : Type ℓ → Type κ → Type (ℓ ⊔ κ)
Bucket K D = Option (List (Entry K D))

pub record HashMap {ℓ κ} (K : Type ℓ) (D : Type κ) : Type (ℓ ⊔ κ) where
  pub bucket : List (Bucket K D)
  pub hash_size : ℕ

-- Which allocations of `hash_map_set` succeed: the bucket's list, the entry, the list's node.
pub record Alloc : Type 0 where
  pub list_ok : Bool
  pub entry_ok : Bool
  pub node_ok : Bool

-- `size_t` arithmetic on `hash_size`
abbrev pub size_inc : ℕ → ℕ
size_inc n = (n + 1) % 2 ^ 64

abbrev pub size_dec : ℕ → ℕ
size_dec n = (n + (2 ^ 64 - 1)) % 2 ^ 64

module _ {ℓ κ} {K : Type ℓ} {D : Type κ} where
  -- The map of `hash_map_new_internal`, and of `hash_map_new`, whose allocator aborts rather than fail.
  unfoldable pub new_map : ℕ → HashMap K D
  new_map num_bucket = record { bucket = replicate num_bucket none; hash_size = 0 }

  -- `hash_map_new_internal`; `bucket_ok` and `map_ok` say whether its two allocations succeed.
  pub new_internal : (map_ok bucket_ok : Bool) → ℕ → Option (HashMap K D)
  unfolding new_map
  new_internal map_ok bucket_ok num_bucket =
      if map_ok then (if bucket_ok then some (new_map num_bucket) else none) else none

  pub size : HashMap K D → ℕ
  size m = m.hash_size

  pub is_empty : HashMap K D → Bool
  is_empty m = m.hash_size == 0

  pub num_buckets : HashMap K D → ℕ
  num_buckets m = length m.bucket

  -- The list of a bucket, empty while it is NULL.
  abbrev pub entries : Bucket K D → List (Entry K D)
  entries none = []
  entries (some xs) = xs

  -- The loop of `hash_map_clear`: every list is freed, entry by entry, and its pointer reset.
  pub clear_buckets : List (Bucket K D) → List (Entry K D) × List (Bucket K D)
  clear_buckets [] = ([], [])
  clear_buckets (b ∷ bs) = let (freed, bs') = clear_buckets bs in (entries b ++ freed, none ∷ bs')

  -- `hash_size` is left as it is.
  pub clear : HashMap K D → List (Entry K D) × HashMap K D
  unfolding clear_buckets
  clear m = let (freed, bs) = clear_buckets m.bucket in (freed, record m { bucket = bs })

  -- The loop over the entries of a bucket, with the callback's state; `false` ends the iteration.
  pub foreach_entry {σ} :
      {S : Type σ} → (Entry K D → S → Bool × S) → List (Entry K D) → S → Bool × S
  foreach_entry callback [] s = (true, s)
  foreach_entry callback (e ∷ es) s =
      let (more, s') = callback e s in
      let rest = foreach_entry callback es s' in if more then rest else (false, s')

  pub foreach_bucket {σ} : {S : Type σ} → (Entry K D → S → Bool × S) → List (Bucket K D) → S → S
  unfolding foreach_entry
  foreach_bucket callback [] s = s
  foreach_bucket callback (b ∷ bs) s =
      let (more, s') = foreach_entry callback (entries b) s in
      let rest = foreach_bucket callback bs s' in if more then rest else s'

  pub foreach {σ} : {S : Type σ} → (Entry K D → S → Bool × S) → HashMap K D → S → S
  unfolding foreach_bucket
  foreach callback m s = foreach_bucket callback m.bucket s

  module _ (ops : KeyOps K) where
    open ops use {hash_fn, keys_are_equal}

    -- `find_bucket_entry_`
    unfoldable pub find_bucket_entry : List (Entry K D) → K → Option (Entry K D)
    find_bucket_entry [] k = none
    find_bucket_entry (e ∷ es) k = if keys_are_equal e.key k then some e else find_bucket_entry es k

    -- `list_remove` of the entry that the search finds, with what `bucket_free_` is called on.
    unfoldable pub remove_entry : List (Entry K D) → K → List (Entry K D)
    remove_entry [] k = []
    remove_entry (e ∷ es) k = if keys_are_equal e.key k then es else e ∷ remove_entry es k

    unfoldable pub index : HashMap K D → K → ℕ
    index m k = hash_fn k % length m.bucket

    -- The entries of the bucket of a key.
    abbrev pub chain : HashMap K D → K → List (Entry K D)
    chain m k = entries (get_or m.bucket (index m k) none)

    unfoldable pub get : HashMap K D → K → Option D
    unfolding find_bucket_entry index
    get m k = Option.map (λ e. e.value) (find_bucket_entry (chain m k) k)

    pub has_key : HashMap K D → K → Bool
    unfolding find_bucket_entry index
    has_key m k = is_some (find_bucket_entry (chain m k) k)

    -- The map with the entries of the bucket of `k` replaced.
    abbrev pub with_chain : HashMap K D → K → List (Entry K D) → HashMap K D
    with_chain m k es = record m { bucket = set m.bucket (index m k) (some es) }

    -- The part of `hash_map_set` behind the search: the entry and its node are allocated.
    unfoldable pub set_tail : Alloc → HashMap K D → K → D → Bool × HashMap K D
    unfolding index
    set_tail alloc m k d =
        if alloc.entry_ok
        then (if alloc.node_ok
            then (true, with_chain m k (chain m k ++ (record { key = k; value = d } ∷ [])))
            else (false, m))
        else (false, m)

    -- The search of `hash_map_set`, in a bucket whose list is there.
    unfoldable pub set_found : Alloc → HashMap K D → K → D → List (Entry K D) × Bool × HashMap K D
    unfolding find_bucket_entry remove_entry set_tail
    set_found alloc m k d = elim (find_bucket_entry (chain m k) k) [
      | some e ↦
          let (done, m') = set_tail alloc (with_chain m k (remove_entry (chain m k) k)) k d in
          (e ∷ [], done, m')
      | none ↦
          let (done, m') = set_tail alloc (record m { hash_size = size_inc m.hash_size }) k d in
          ([], done, m')
    ]

    -- The entries released, the result and the map.
    unfoldable pub set_key : Alloc → HashMap K D → K → D → List (Entry K D) × Bool × HashMap K D
    unfolding set_found
    set_key alloc m k d = elim (get_or m.bucket (index m k) none) [
      | none ↦ if alloc.list_ok then set_found alloc (with_chain m k []) k d else ([], false, m)
      | some es ↦ set_found alloc m k d
    ]

    pub erase : HashMap K D → K → List (Entry K D) × Bool × HashMap K D
    unfolding find_bucket_entry remove_entry index
    erase m k = elim (find_bucket_entry (chain m k) k) [
      | none ↦ ([], false, m)
      | some e ↦ (
        e ∷ [],
        true,
        record (with_chain m k (remove_entry (chain m k) k)) { hash_size = size_dec m.hash_size },
      )
    ]
