-- ===== src/AllocationTracker.antt =====
-- src/allocation_tracker.c and src/allocator.c: the map of live allocations and the canaries around
-- each. A pointer is an address, 0 is NULL, and the memory gives the byte at an address; the caller
-- says what `malloc` returns. A failed assertion is `none`. The tracker's own map is src/hash_map.c.
-- The `calloc` of an allocation record is taken to succeed.
pub mod Canary
pub mod Notify
pub mod Strings
mod Tests
use osi.Prelude.{
  ℕ, zero, suc, ◌+◌, ◌-◌, ◌*◌, ◌%◌, ◌^◌, Bool, true, false, not, Option, none, some, List, [], ◌∷◌,
  ◌++◌, ◌==◌, ◌&&◌, if◌then◌else◌, bytes, map, set, length, take, ltb,
}
use osi.HashMap.{
  KeyOps, Entry, HashMap, Alloc, new_internal, clear, foreach, get, set_key, erase, chain,
  with_chain,
}

abbrev pub Memory : Type 0
Memory = ℕ → ℕ

-- `allocation_t`
pub record Allocation : Type 0 where
  pub allocator_id : ℕ
  pub ptr : ℕ
  pub size : ℕ
  pub freed : Bool

-- `hash_function_pointer`, and `default_key_equality` on addresses.
abbrev pub hash_function_pointer : ℕ → ℕ
hash_function_pointer key = key * 2654435761 % 2 ^ 64

abbrev pub pointer_ops : KeyOps ℕ
pointer_ops = record { hash_fn = hash_function_pointer; keys_are_equal = ◌==◌ }

abbrev pub canary : List ℕ
canary = bytes "tinybird"

abbrev pub canary_size : ℕ
canary_size = 8

abbrev pub allocation_hash_map_size : ℕ
allocation_hash_map_size = 1024

-- The globals: `allocations` is `none` while it is NULL.
pub record Tracker : Type 0 where
  pub allocations : Option (HashMap ℕ Allocation)
  pub memory : Memory

abbrev pub with_map : Tracker → HashMap ℕ Allocation → Tracker
with_map t m = record t { allocations = some m }

-- `allocation_tracker_init`; `map_ok` and `bucket_ok` say whether the map's own storage is there.
unfoldable pub tracker_init : (map_ok bucket_ok : Bool) → Tracker → Tracker
tracker_init map_ok bucket_ok t = elim t.allocations [
  | none ↦ record t { allocations = new_internal map_ok bucket_ok allocation_hash_map_size }
  | some _ ↦ t
]

unfoldable pub tracker_uninit : Tracker → Tracker
tracker_uninit t = record t { allocations = none }

unfoldable pub tracker_reset : Tracker → Tracker
tracker_reset t = elim t.allocations [ none ↦ t | some m ↦ with_map t (clear m).1 ]

-- `allocation_entry_freed_checker`: the bytes of an entry that is not freed are added up.
abbrev pub allocation_entry_freed_checker : Entry ℕ Allocation → ℕ → Bool × ℕ
allocation_entry_freed_checker e unfreed =
    (true, if not e.value.freed then (unfreed + e.value.size) % 2 ^ 64 else unfreed)

unfoldable pub expect_no_allocations : Tracker → ℕ
expect_no_allocations t = elim t.allocations [
  | none ↦ 0
  | some m ↦ foreach allocation_entry_freed_checker m 0
]

-- `memcpy` of bytes to an address.
unfoldable pub write : Memory → ℕ → List ℕ → Memory
write mem a [] = mem
write mem a (x ∷ xs) = λ i. if i == a then x else write mem (a + 1) xs i

-- The comparison of the bytes at an address.
unfoldable pub matches : Memory → ℕ → List ℕ → Bool
matches mem a [] = true
matches mem a (x ∷ xs) = (mem a == x) && matches mem (a + 1) xs

abbrev pub allocated : ℕ → ℕ → ℕ → Allocation
allocated allocator_id ptr size = record {
  allocator_id = allocator_id;
  ptr = ptr;
  size = size;
  freed = false;
}

-- The canaries on both sides of a block.
unfoldable pub add_canaries : Memory → (ptr size : ℕ) → Memory
add_canaries mem ptr size = write (write mem (ptr - canary_size) canary) (ptr + size) canary

unfoldable pub check_canaries : Memory → (ptr size : ℕ) → Bool
check_canaries mem ptr size =
    matches mem (ptr - canary_size) canary && matches mem (ptr + size) canary

-- The record of an entry that is there is overwritten in place.
abbrev pub overwrite : ℕ → Allocation → Entry ℕ Allocation → Entry ℕ Allocation
overwrite key a e = if e.key == key then record e { value = a } else e

-- The map with the record of `ptr`: a freed one is used again, else one is entered.
abbrev pub record_alloc :
    Alloc
    → HashMap ℕ Allocation
    → ℕ
    → Allocation
    → Option Allocation
    → Option (HashMap ℕ Allocation)
record_alloc alloc m ptr a none = some (set_key pointer_ops alloc m ptr a).2
record_alloc alloc m ptr a (some old) =
    if old.freed
    then some (with_chain pointer_ops m ptr (map (overwrite ptr a) (chain pointer_ops m ptr)))
    else none

abbrev pub alloc_done :
    Tracker → (ptr size : ℕ) → Option (HashMap ℕ Allocation) → Option (ℕ × Tracker)
alloc_done t ptr size none = none
alloc_done t ptr size (some m) =
    some (ptr, record { allocations = some m; memory = add_canaries t.memory ptr size })

-- `allocation_tracker_notify_alloc`; `alloc` says which allocations of `hash_map_set` succeed.
unfoldable pub notify_alloc :
    Alloc → Tracker → (allocator_id ptr requested_size : ℕ) → Option (ℕ × Tracker)
notify_alloc alloc t allocator_id ptr requested_size = elim t.allocations [
  | none ↦ some (ptr, t)
  | some m ↦
      if ptr == 0
      then some (ptr, t)
      else (let return_ptr = ptr + canary_size in
          alloc_done t return_ptr requested_size (
            record_alloc alloc m return_ptr (allocated allocator_id return_ptr requested_size)
              (get pointer_ops m return_ptr)))
]

-- The assertions of `allocation_tracker_notify_free` on the record of the pointer, and the erase.
abbrev pub free_tracked :
    Tracker
    → HashMap ℕ Allocation
    → (allocator_id ptr : ℕ) → Option Allocation
    → Option (ℕ × Tracker)
free_tracked t m allocator_id ptr none = none
free_tracked t m allocator_id ptr (some a) =
    if not a.freed && ((a.allocator_id == allocator_id) && check_canaries t.memory ptr a.size)
    then some (ptr - canary_size, with_map t (erase pointer_ops m ptr).2)
    else none

-- `allocation_tracker_notify_free`
unfoldable pub notify_free : Tracker → (allocator_id ptr : ℕ) → Option (ℕ × Tracker)
notify_free t allocator_id ptr = elim t.allocations [
  | none ↦ some (ptr, t)
  | some m ↦
      if ptr == 0 then some (ptr, t) else free_tracked t m allocator_id ptr (get pointer_ops m ptr)
]

unfoldable pub resize_for_canary : Tracker → ℕ → ℕ
resize_for_canary t size = elim t.allocations [
  | none ↦ size
  | some _ ↦ (size + 2 * canary_size) % 2 ^ 64
]

abbrev pub alloc_allocator_id : ℕ
alloc_allocator_id = 42

-- `osi_malloc`, and `osi_calloc`, whose block the caller finds zeroed: `malloc size` is the address
-- of a block of that many bytes, and `assert(ptr)` fails at NULL.
unfoldable pub osi_malloc : Alloc → (ℕ → ℕ) → Tracker → ℕ → Option (ℕ × Tracker)
osi_malloc alloc malloc t size =
    let ptr = malloc (resize_for_canary t size) in
    if ptr == 0 then none else notify_alloc alloc t alloc_allocator_id ptr size

-- `osi_free`: the address that is handed to `free`.
unfoldable pub osi_free : Tracker → ℕ → Option (ℕ × Tracker)
osi_free t ptr = notify_free t alloc_allocator_id ptr

-- `memcpy` of bytes to what the tracker returned, unless that is NULL.
abbrev pub copy_to : List ℕ → Option (ℕ × Tracker) → Option (ℕ × Tracker)
copy_to xs none = none
copy_to xs (some (p, t)) =
    if p == 0 then some (p, t) else some (p, record t { memory = write t.memory p xs })

-- `osi_strdup`. A string is its bytes before the NUL.
unfoldable pub osi_strdup : Alloc → (ℕ → ℕ) → Tracker → (str : List ℕ) → Option (ℕ × Tracker)
osi_strdup alloc malloc t str =
    let size = length str + 1 in
    let ptr = malloc (resize_for_canary t size) in
    if ptr == 0
    then none
    else copy_to (str ++ (0 ∷ [])) (notify_alloc alloc t alloc_allocator_id ptr size)

-- `osi_strndup`
unfoldable pub osi_strndup :
    Alloc → (ℕ → ℕ) → Tracker → (str : List ℕ) (len : ℕ) → Option (ℕ × Tracker)
osi_strndup alloc malloc t str len =
    let size = if ltb len (length str) then len else length str in
    let ptr = malloc (resize_for_canary t (size + 1)) in
    if ptr == 0
    then none
    else copy_to (take size str ++ (0 ∷ []))
        (notify_alloc alloc t alloc_allocator_id ptr (size + 1))

-- `osi_free_and_reset`: what `free` is handed, and NULL for the caller's pointer.
unfoldable pub osi_free_and_reset : Tracker → (p_ptr : ℕ) → Option (ℕ × ℕ × Tracker)
osi_free_and_reset t p_ptr = elim (osi_free t p_ptr) [
  | none ↦ none
  | some (block, t') ↦ some (block, 0, t')
]
