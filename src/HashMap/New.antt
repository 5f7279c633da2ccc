-- ===== src/HashMap/New.antt =====
-- A new map is valid and holds nothing; with an allocator that does not fail, `hash_map_set` succeeds.
use osi.Prelude.{
  ◌==◌, ==-self, ==→eq, ap, length, ℕ, zero, suc, ◌<◌, ◌≡◌, refl, true, none, [], replicate, get_or,
  length-replicate, arith,
}
use osi.HashMap.{
  KeyOps, Bucket, HashMap, Alloc, entries, index, get, set_key, set_found, set_tail,
  find_bucket_entry, new_map,
}
use osi.HashMap.Bucket.{IsLawful}
use osi.HashMap.Search.{IsValid}

-- Numbers that are compared as such are lawful keys, under any hash function.
abbrev pub number_ops : (ℕ → ℕ) → KeyOps ℕ
number_ops hash_fn = record { hash_fn = hash_fn; keys_are_equal = ◌==◌ }

pub number-IsLawful : (hash_fn : ℕ → ℕ) → IsLawful (number_ops hash_fn)
number-IsLawful hash_fn = record {
  refl_key = λ a. ==-self a;
  sym_key = λ a b h. ground (arith, ==→eq a b h, ==-self a);
  trans_key = λ a b c h k. ground (arith, ==→eq a b h, ==→eq b c k);
  hash_key = λ a b h. ap hash_fn (==→eq a b h);
}

abbrev pub all_ok : Alloc
all_ok = record { list_ok = true; entry_ok = true; node_ok = true }

module _ {ℓ κ} {K : Type ℓ} {D : Type κ} (ops : KeyOps K) (law : IsLawful ops) where
  null_bucket : (n i : ℕ) → entries {K = K} {D = D} (get_or (replicate n none) i none) ≡ []
  null_bucket zero i = refl
  null_bucket (suc n) zero = refl
  null_bucket (suc n) (suc i) = null_bucket n i

  pub new-IsValid : (n : ℕ) → 0 < n → IsValid ops law (new_map {K = K} {D = D} n)
  unfolding new_map
  new-IsValid n h = record {
    some_bucket =
        let sized : length (replicate {A = Bucket K D} n none) ≡ n = length-replicate n none in
        omega (arith, sized);
    distinct = λ k. rw (null_bucket n (index ops (new_map {K = K} {D = D} n) k)) tt;
  }

  pub get-new : (n : ℕ) (k : K) → get ops (new_map {K = K} {D = D} n) k ≡ none
  unfolding get new_map find_bucket_entry
  get-new n k = rw (null_bucket n (index ops (new_map {K = K} {D = D} n) k)) refl

  pub set_key_done : (m : HashMap K D) (k : K) (d : D) → (set_key ops all_ok m k d).1 ≡ true
  unfolding set_key set_found set_tail
  set_key_done m k d = ground arith
