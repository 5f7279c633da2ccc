-- ===== src/AllocationTracker/Notify.antt =====
-- Allocation and release through the tracker of src/allocation_tracker.c.
use osi.Prelude.{
  ℕ, ◌+◌, ◌-◌, ◌*◌, ◌^◌, ◌≤◌, ◌<◌, ◌≡◌, ◌≢◌, ◌⊎◌, refl, ap, ◌∙◌, sym, true, Option, none, some,
  ◌==◌, ==→eq, ==-self, ne→==, Bool-cases, Option-cases, inl, inr, arith,
}
use osi.HashMap.{HashMap, Alloc, get, set_key, erase}
use osi.HashMap.Bucket.{IsLawful}
use osi.HashMap.Search.{IsValid}
use osi.HashMap.New.{number-IsLawful}
use osi.HashMap.Set.{get-set}
use osi.HashMap.Erase.{get-erase}
use osi.AllocationTracker.{
  hash_function_pointer, Allocation, Tracker, pointer_ops, canary_size, allocated, notify_alloc,
  notify_free, alloc_allocator_id, add_canaries, check_canaries, osi_malloc, resize_for_canary,
  with_map,
}
use osi.AllocationTracker.Canary.{check-add_canaries, add_canaries_outside}

-- Addresses are lawful keys.
pub pointer-IsLawful : IsLawful pointer_ops
pointer-IsLawful = number-IsLawful hash_function_pointer

pub notify_alloc-absent :
    (alloc : Alloc) (t : Tracker) (m : HashMap ℕ Allocation) (allocator_id ptr size : ℕ)
    → t.allocations ≡ some m
    → ptr ≢ 0
    → get pointer_ops m (ptr + canary_size) ≡ none
    → let p = ptr + canary_size in
      notify_alloc alloc t allocator_id ptr size
      ≡ some (
        p,
        record {
          allocations = some (set_key pointer_ops alloc m p (allocated allocator_id p size)).2;
          memory = add_canaries t.memory p size;
        },
      )
unfolding notify_alloc
notify_alloc-absent alloc t m allocator_id ptr size on ne absent =
    rw (on, ne→== ptr 0 ne, absent) refl

pub notify_free-there :
    (t : Tracker) (m : HashMap ℕ Allocation) (allocator_id ptr size : ℕ)
    → t.allocations ≡ some m
    → ptr ≢ 0
    → get pointer_ops m ptr ≡ some (allocated allocator_id ptr size)
    → check_canaries t.memory ptr size ≡ true
    → notify_free t allocator_id ptr
      ≡ some (ptr - canary_size, with_map t (erase pointer_ops m ptr).2)
unfolding notify_free
notify_free-there t m allocator_id ptr size on ne there intact =
    rw (on, ne→== ptr 0 ne, there, ==-self allocator_id, intact) refl

-- The release of what an allocation returned.
abbrev pub free_after : ℕ → Option (ℕ × Tracker) → Option (ℕ × Tracker)
free_after allocator_id none = none
free_after allocator_id (some (ptr, t)) = notify_free t allocator_id ptr

-- What a release that succeeds returns and leaves: the map answers as `m` does.
pub record Freed (m : HashMap ℕ Allocation) (ptr : ℕ) (r : Option (ℕ × Tracker)) : Type 0 where
  pub after : Tracker
  pub left : HashMap ℕ Allocation
  pub result : r ≡ some (ptr, after)
  pub tracked : after.allocations ≡ some left
  pub same : (j : ℕ) → get pointer_ops left j ≡ get pointer_ops m j
  pub valid : IsValid pointer_ops pointer-IsLawful left

-- An address that the tracker does not know is allocated and released again, by one allocator: no
-- assertion fails, the release gives back the address of the block, and the tracker's map answers
-- as before. The tracker is on, and its own allocations succeed.
pub alloc-free :
    (alloc : Alloc) (t : Tracker) (m : HashMap ℕ Allocation) (allocator_id ptr size : ℕ)
    → t.allocations ≡ some m
    → IsValid pointer_ops pointer-IsLawful m
    → ptr ≢ 0
    → get pointer_ops m (ptr + canary_size) ≡ none
    → (set_key pointer_ops alloc m
        (ptr + canary_size)
        (allocated allocator_id (ptr + canary_size) size)).1
      ≡ true
    → Freed m ptr (free_after allocator_id (notify_alloc alloc t allocator_id ptr size))
alloc-free alloc t m allocator_id ptr size on valid ne absent ok =
    let p = ptr + canary_size in
    let a = allocated allocator_id p size in
    let m1 : HashMap ℕ Allocation = (set_key pointer_ops alloc m p a).2 in
    let t1 : Tracker = record { allocations = some m1; memory = add_canaries t.memory p size } in
    let (found1, valid1) = get-set pointer_ops pointer-IsLawful alloc m p a valid in
    let (was, found2, valid2) = get-erase pointer_ops pointer-IsLawful m1 p valid1 in
    let there : get pointer_ops m1 p ≡ some a = found1 p ∙ rw (==-self p, ok) refl in
    record {
      after = with_map t1 (erase pointer_ops m1 p).2;
      left = (erase pointer_ops m1 p).2;
      result =
          ap (free_after allocator_id)
            (notify_alloc-absent alloc t m allocator_id ptr size on ne absent)
          ∙ notify_free-there t1 m1 allocator_id p size refl (omega arith) there
              (check-add_canaries t.memory p size (omega arith))
          ∙ ap (λ q. some (q, with_map t1 (erase pointer_ops m1 p).2)) (omega arith);
      tracked = refl;
      same = λ j. found2 j ∙ elim (Bool-cases (p == j)) [
        | inl e ↦ rw e (sym absent ∙ ap (λ (k : ℕ). get pointer_ops m k) (==→eq p j e))
        | inr e ↦ rw e (found1 j ∙ rw e refl)
      ];
      valid = valid2;
    }

freed_map :
    (t t' : Tracker) (m : HashMap ℕ Allocation) (allocator_id ptr block : ℕ)
    → t.allocations ≡ some m
    → ptr ≢ 0
    → notify_free t allocator_id ptr ≡ some (block, t')
    → t'.allocations ≡ some (erase pointer_ops m ptr).2
unfolding notify_free
freed_map t t' m allocator_id ptr block on ne h = ground arith

-- A pointer that was released is not released a second time: the assertion that it is tracked fails.
pub free-twice :
    (t t' : Tracker) (m : HashMap ℕ Allocation) (allocator_id other ptr block : ℕ)
    → t.allocations ≡ some m
    → IsValid pointer_ops pointer-IsLawful m
    → ptr ≢ 0
    → notify_free t allocator_id ptr ≡ some (block, t')
    → notify_free t' other ptr ≡ none
unfolding notify_free
free-twice t t' m allocator_id other ptr block on valid ne h =
    let (was, found, valid') = get-erase pointer_ops pointer-IsLawful m ptr valid in
    let gone : get pointer_ops (erase pointer_ops m ptr).2 ptr ≡ none =
      found ptr ∙ rw (==-self ptr) refl in
    rw (freed_map t t' m allocator_id ptr block on ne h, ne→== ptr 0 ne, gone) refl

notify_memory :
    (alloc : Alloc) (t t' : Tracker) (allocator_id block size ptr i : ℕ)
    → notify_alloc alloc t allocator_id block size ≡ some (ptr, t')
    → (i < block) ⊎ (block + (size + 2 * canary_size) ≤ i)
    → t'.memory i ≡ t.memory i
unfolding notify_alloc
notify_memory alloc t t' allocator_id block size ptr i h outside =
    ground (
      arith,
      add_canaries_outside t.memory (block + canary_size) size i (omega arith) (omega arith),
    )

-- `osi_malloc` writes no byte outside of the block that `malloc` gave for the size that it asked for.
malloc-inside :
    (alloc : Alloc) (malloc : ℕ → ℕ) (t t' : Tracker) (size ptr i : ℕ)
    → osi_malloc alloc malloc t size ≡ some (ptr, t')
    → size + 2 * canary_size < 2 ^ 64
    → (i < malloc (resize_for_canary t size))
      ⊎ (malloc (resize_for_canary t size) + resize_for_canary t size ≤ i)
    → t'.memory i ≡ t.memory i
unfolding osi_malloc resize_for_canary notify_alloc
malloc-inside alloc malloc t t' size ptr i h small outside =
    let block = malloc (resize_for_canary t size) in
    elim (Option-cases t.allocations) [
      | inl off ↦ ground arith
      | inr (m, on) ↦
          let asked : resize_for_canary t size ≡ size + 2 * canary_size = rw on (omega arith) in
          let called : notify_alloc alloc t alloc_allocator_id block size ≡ some (ptr, t') =
            ground arith in
          notify_memory alloc t t' alloc_allocator_id block size ptr i called (ground arith)
    ]
