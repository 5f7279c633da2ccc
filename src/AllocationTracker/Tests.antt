-- ===== src/AllocationTracker/Tests.antt =====
-- A tracker with two empty buckets, and a block of 24 bytes at the address 1000.
use osi.Prelude.{
  ℕ, zero, suc, ◌+◌, ◌≡◌, refl, true, none, some, [], ◌∷◌, ◌++◌, bytes, get_or, inr, arith,
}
use osi.HashMap.{
  set_found, set_tail, HashMap, Alloc, entries, index, get, set_key, erase, find_bucket_entry,
}
use osi.HashMap.Bucket.{Distinct}
use osi.HashMap.Search.{IsValid}
use osi.AllocationTracker.{
  Allocation, Tracker, pointer_ops, allocated, notify_alloc, notify_free, osi_malloc,
  resize_for_canary, write, matches, canary_size, osi_strdup, osi_strndup, osi_free, with_map,
  add_canaries, check_canaries,
}
use osi.AllocationTracker.Strings.{copied, tracked_map, strndup-copied}
use osi.AllocationTracker.Notify.{pointer-IsLawful, free_after, Freed, alloc-free}

abbrev no_entries : HashMap ℕ Allocation
no_entries = record { bucket = none ∷ none ∷ []; hash_size = 0 }

bucket-Distinct :
    (i : ℕ)
    → Distinct Allocation pointer_ops pointer-IsLawful (entries (get_or no_entries.bucket i none))
bucket-Distinct zero = tt
bucket-Distinct (suc zero) = tt
bucket-Distinct (suc (suc i)) = tt

no_entries-IsValid : IsValid pointer_ops pointer-IsLawful no_entries
no_entries-IsValid = record {
  some_bucket = omega arith;
  distinct = λ k. bucket-Distinct (index pointer_ops no_entries k);
}

abbrev tracker : Tracker
tracker = record { allocations = some no_entries; memory = λ _. 0 }

abbrev all_ok : Alloc
all_ok = record { list_ok = true; entry_ok = true; node_ok = true }

absent : get pointer_ops no_entries 1008 ≡ none
unfolding get index find_bucket_entry
absent = refl

entered : (set_key pointer_ops all_ok no_entries 1008 (allocated 42 1008 8)).1 ≡ true
unfolding set_key set_found set_tail index find_bucket_entry
entered = refl

alloc-free_example : Freed no_entries 1000 (free_after 42 (notify_alloc all_ok tracker 42 1000 8))
alloc-free_example =
    alloc-free all_ok tracker no_entries 42 1000 8 refl no_entries-IsValid
      (λ e. absurd (omega arith)) absent entered

-- The tracker with the block entered.
abbrev one_entry : HashMap ℕ Allocation
one_entry = record {
  bucket = some (record { key = 1008; value = allocated 42 1008 8 } ∷ []) ∷ [];
  hash_size = 1;
}

one-Distinct :
    (i : ℕ)
    → Distinct Allocation pointer_ops pointer-IsLawful (entries (get_or one_entry.bucket i none))
unfolding find_bucket_entry
one-Distinct zero = (refl, tt)
one-Distinct (suc i) = tt

one_entry-IsValid : IsValid pointer_ops pointer-IsLawful one_entry
one_entry-IsValid = record {
  some_bucket = omega arith;
  distinct = λ k. one-Distinct (index pointer_ops one_entry k);
}

abbrev holding : Tracker
holding = record { allocations = some one_entry; memory = add_canaries (λ _. 0) 1008 8 }

abbrev released : Tracker
released = record holding { allocations = some (erase pointer_ops one_entry 1008).2 }

first_free : notify_free holding 42 1008 ≡ some (1000, released)
unfolding notify_free get index find_bucket_entry check_canaries matches add_canaries write
first_free = refl

abbrev allocated_tracker : Tracker
allocated_tracker = record {
  allocations = some (set_key pointer_ops all_ok no_entries 1008 (allocated 42 1008 8)).2;
  memory = add_canaries (λ _. 0) 1008 8;
}

malloc_run : osi_malloc all_ok (λ _. 1000) tracker 8 ≡ some (1008, allocated_tracker)
unfolding osi_malloc notify_alloc resize_for_canary get index find_bucket_entry
malloc_run = refl

three_entered : (set_key pointer_ops all_ok no_entries 1008 (allocated 42 1008 3)).1 ≡ true
unfolding set_key set_found set_tail index find_bucket_entry
three_entered = refl

-- Two of three bytes are copied.
abbrev copied_tracker : Tracker
copied_tracker = record {
  allocations = some (set_key pointer_ops all_ok no_entries 1008 (allocated 42 1008 3)).2;
  memory = write (add_canaries (λ _. 0) 1008 3) 1008 (bytes "ab" ++ (0 ∷ []));
}

strndup_run : osi_strndup all_ok (λ _. 1000) tracker (bytes "abc") 2 ≡ some (1008, copied_tracker)
unfolding osi_strndup notify_alloc resize_for_canary get index find_bucket_entry
strndup_run = refl

strndup-copied_example :
    (◌≡◌ {A = ℕ} 1008 (1000 + canary_size))
    × (matches copied_tracker.memory 1008 (copied (bytes "abc") 2) ≡ true)
    × (check_canaries copied_tracker.memory 1008 3 ≡ true)
    × (copied_tracker.memory 1019 ≡ 0)
    × (osi_free copied_tracker 1008
        ≡ some (
          1000,
          with_map copied_tracker
              (erase pointer_ops
                (tracked_map all_ok (λ _. 1000) tracker no_entries (copied (bytes "abc") 2))
                1008).2,
        ))
    × (osi_strdup all_ok (λ _. 1000) tracker (bytes "abc")
        ≡ osi_strndup all_ok (λ _. 1000) tracker (bytes "abc") 3)
unfolding resize_for_canary
strndup-copied_example =
    strndup-copied all_ok (λ _. 1000) tracker copied_tracker no_entries (bytes "abc") 2 1008 1019
      refl no_entries-IsValid absent three_entered strndup_run (omega arith) (inr (omega arith))
