-- ===== src/HashMap/Tests.antt =====
-- A map of numbers in 2 buckets, with the keys 1 and 3 in one bucket and 4 in the other.
use osi.Prelude.{
  get_or, zero, suc, ◌<◌, ◌^◌, ℕ, ◌+◌, ◌≡◌, refl, Bool, true, false, none, some, [], ◌∷◌,
  if◌then◌else◌, ◌==◌, arith,
}
use osi.HashMap.{
  clear, find_bucket_entry, entries, index, KeyOps, Entry, HashMap, Alloc, size, get, has_key,
  set_key, erase,
}
use osi.HashMap.Bucket.{IsLawful, Distinct}
use osi.HashMap.New.{number-IsLawful}
use osi.HashMap.Search.{IsValid}
use osi.HashMap.Erase.{get-erase, clear-get-size}
use osi.HashMap.Count.{total, size-set}
use osi.HashMap.Set.{get-set}

abbrev ops : KeyOps ℕ
ops = record { hash_fn = λ k. k; keys_are_equal = ◌==◌ }

law : IsLawful ops
law = number-IsLawful (λ k. k)

abbrev items : HashMap ℕ ℕ
items = record {
  bucket =
      some (record { key = 4; value = 40 } ∷ [])
      ∷ some (record { key = 1; value = 10 } ∷ record { key = 3; value = 30 } ∷ [])
      ∷ [];
  hash_size = 3;
}

bucket-Distinct : (i : ℕ) → Distinct ℕ ops law (entries (get_or items.bucket i none))
unfolding find_bucket_entry
bucket-Distinct zero = (refl, tt)
bucket-Distinct (suc zero) = (refl, (refl, tt))
bucket-Distinct (suc (suc i)) = tt

items-IsValid : IsValid ops law items
items-IsValid = record {
  some_bucket = omega arith;
  distinct = λ k. bucket-Distinct (index ops items k);
}

abbrev no_node : Alloc
no_node = record { list_ok = true; entry_ok = true; node_ok = false }

items-size : size items ≡ 3
unfolding size
items-size = refl

items-size_small : size items + 1 < 2 ^ 64
unfolding size
items-size_small = omega arith

get-erase_example :
    let (freed, found, m') = erase ops items 3 in
    (found ≡ has_key ops items 3)
    × ((j : ℕ) → get ops m' j ≡ (if 3 == j then none else get ops items j))
    × IsValid ops law m'
get-erase_example = get-erase ops law items 3 items-IsValid

get-set_example :
    let (freed, done, m') = set_key ops no_node items 1 11 in
    ((j : ℕ)
      → get ops m' j ≡ (if 1 == j then (if done then some 11 else none) else get ops items j))
    × IsValid ops law m'
get-set_example = get-set ops law no_node items 1 11 items-IsValid

size-set_example :
    let (freed, done, m') = set_key ops no_node items 1 11 in
    size m' ≡ total m'.bucket + (if done then 0 else 1)
size-set_example =
    size-set ops law no_node items 1 11 items-IsValid refl items-size items-size_small

clear-get-size_example :
    ((j : ℕ) → get ops (clear items).1 j ≡ none) × (size (clear items).1 ≡ size items)
clear-get-size_example = clear-get-size ops law items

abbrev until_three : Entry ℕ ℕ → ℕ → Bool × ℕ
until_three e s = if e.key == 3 then (false, s) else (true, s + e.value)
