-- ===== src/AllocationTracker/Strings.antt =====
-- The copies of strings of src/allocator.c.
use osi.Prelude.{
  ℕ, ◌+◌, ◌-◌, ◌*◌, ◌^◌, ◌≤◌, ◌<◌, ◌≡◌, ◌≢◌, ◌⊎◌, refl, ap, ap₂, ◌∙◌, sym, subst, ◌&&◌, Bool, true,
  false, Option, none, some, List, [], ◌∷◌, ◌++◌, length, take, take-all, length-take,
  length-append, ltb, if◌then◌else◌, ◌==◌, ne→==, ==-self, Bool-cases, inl, inr, arith,
}
use osi.HashMap.{HashMap, Alloc, get, set_key, erase}
use osi.HashMap.Search.{IsValid}
use osi.HashMap.Set.{get-set}
use osi.AllocationTracker.Notify.{pointer-IsLawful, notify_alloc-absent, notify_free-there}
use osi.AllocationTracker.{
  allocated, pointer_ops, osi_free, with_map, Memory, Allocation, Tracker, write, matches, canary,
  canary_size, notify_alloc, alloc_allocator_id, add_canaries, check_canaries, osi_strdup,
  osi_strndup, copy_to, resize_for_canary,
}
use osi.AllocationTracker.Canary.{
  matches_from, matches-write, write_outside, check-add_canaries, add_canaries_outside,
}

-- Bytes between the canaries leave these as they are.
check_canaries-write :
    (mem : Memory) (ptr : ℕ) (xs : List ℕ)
    → canary_size ≤ ptr
    → check_canaries (write mem ptr xs) ptr (length xs) ≡ check_canaries mem ptr (length xs)
unfolding check_canaries
check_canaries-write mem ptr xs h =
    ap₂ (λ a b. a && b)
      (matches_from (write mem ptr xs) mem (ptr - canary_size) canary
        (λ i p q. write_outside mem ptr i xs (inl (omega arith))))
      (matches_from (write mem ptr xs) mem (ptr + length xs) canary
        (λ i p q. write_outside mem ptr i xs (inr (omega arith))))

notify_alloc-tracked :
    (alloc : Alloc) (t t' : Tracker) (m : HashMap ℕ Allocation) (allocator_id block size ptr : ℕ)
    → t.allocations ≡ some m
    → block ≢ 0
    → notify_alloc alloc t allocator_id block size ≡ some (ptr, t')
    → (ptr ≡ block + canary_size) × (t'.memory ≡ add_canaries t.memory (block + canary_size) size)
unfolding notify_alloc
notify_alloc-tracked alloc t t' m allocator_id block size ptr on ne h = ground arith

-- What `copy_to` leaves of a block with two canaries.
module _ (t : Tracker) (block i : ℕ) (xs : List ℕ) where
  abbrev Written : Option (ℕ × Tracker) → Type 0
  Written none = Unit
  Written (some (p, t')) =
      (p ≡ block + canary_size)
      × (matches t'.memory p xs ≡ true)
      × (check_canaries t'.memory p (length xs) ≡ true)
      × (t'.memory i ≡ t.memory i)

  Outside : Type 0
  Outside = (i < block) ⊎ (block + (length xs + 2 * canary_size) ≤ i)

  write-Written :
      (p : ℕ) (t1 : Tracker)
      → Outside
      → p ≡ block + canary_size
      → t1.memory ≡ add_canaries t.memory p (length xs)
      → Written (some (p, record t1 { memory = write t1.memory p xs }))
  unfolding Outside
  write-Written p t1 outside e same = (
    e,
    matches-write t1.memory p xs,
    check_canaries-write t1.memory p xs (omega arith)
        ∙ ap (λ mem. check_canaries mem p (length xs)) same
        ∙ check-add_canaries t.memory p (length xs) (omega arith),
    write_outside t1.memory p i xs (omega arith)
        ∙ ap (λ (mem : Memory). mem i) same
        ∙ add_canaries_outside t.memory p (length xs) i (omega arith) (omega arith),
  )

  copy_to-Written :
      (alloc : Alloc) (m : HashMap ℕ Allocation) (r : Option (ℕ × Tracker))
      → t.allocations ≡ some m
      → block ≢ 0
      → Outside
      → notify_alloc alloc t alloc_allocator_id block (length xs) ≡ r
      → Written (copy_to xs r)
  copy_to-Written alloc m none on ne outside e = tt
  copy_to-Written alloc m (some (p, t1)) on ne outside e =
      let (at, same) =
        notify_alloc-tracked alloc t t1 m alloc_allocator_id block (length xs) p on ne e in
      let same' = same ∙ ap (λ a. add_canaries t.memory a (length xs)) (sym at) in
      rw (ne→== p 0 (λ z. absurd (omega (arith, at, z)))) (write-Written p t1 outside at same')

-- The bytes that `osi_strndup` copies.
abbrev pub copied : List ℕ → ℕ → List ℕ
copied str len = take len str ++ (0 ∷ [])

length-copied :
    (str : List ℕ) (len : ℕ)
    → length (copied str len) ≡ (if ltb len (length str) then len else length str) + 1
length-copied str len = ground (arith, length-append (take len str) (0 ∷ []), length-take len str)

take-size :
    (str : List ℕ) (len : ℕ)
    → take (if ltb len (length str) then len else length str) str ≡ take len str
take-size str len = elim (Bool-cases (ltb len (length str))) [
  | inl less ↦ rw less refl
  | inr more ↦ rw more (take-all (length str) len str (omega arith) (ground arith))
]

take_whole : (xs : List ℕ) → take (length xs) xs ≡ xs
take_whole [] = refl
take_whole (x ∷ xs) = ap (◌∷◌ x) (take_whole xs)

if_same : (b : Bool) (n : ℕ) → (if b then n else n) ≡ n
if_same true n = refl
if_same false n = refl

-- The address that `malloc` gives for bytes and their canaries.
abbrev pub block_for : (ℕ → ℕ) → Tracker → List ℕ → ℕ
block_for malloc t xs = malloc (resize_for_canary t (length xs))

copy_to-map :
    (xs : List ℕ) (ptr : ℕ) (t' : Tracker) (p : ℕ) (t1 : Tracker)
    → copy_to xs (some (p, t1)) ≡ some (ptr, t')
    → t'.allocations ≡ t1.allocations
copy_to-map xs ptr t' p t1 h = ground arith

module _ (alloc : Alloc) (malloc : ℕ → ℕ) (t : Tracker) where
  -- The tracker's record of the bytes at the address that is returned, and the map with it.
  abbrev pub record_for : List ℕ → Allocation
  record_for xs = allocated alloc_allocator_id (block_for malloc t xs + canary_size) (length xs)

  abbrev pub tracked_map : HashMap ℕ Allocation → List ℕ → HashMap ℕ Allocation
  tracked_map m xs =
      (set_key pointer_ops alloc m (block_for malloc t xs + canary_size) (record_for xs)).2

  copy_new : List ℕ → Option (ℕ × Tracker)
  copy_new xs =
      if block_for malloc t xs == 0
      then none
      else copy_to xs (notify_alloc alloc t alloc_allocator_id (block_for malloc t xs) (length xs))

  strndup-copy_new :
      (str : List ℕ) (len : ℕ) → osi_strndup alloc malloc t str len ≡ copy_new (copied str len)
  unfolding osi_strndup copy_new
  strndup-copy_new str len = rw (length-copied str len, take-size str len) refl

  strdup-strndup :
      (str : List ℕ) → osi_strdup alloc malloc t str ≡ osi_strndup alloc malloc t str (length str)
  unfolding osi_strdup osi_strndup
  strdup-strndup str =
      rw (if_same (ltb (length str) (length str)) (length str), take_whole str) refl

  copy_new-Written :
      (m : HashMap ℕ Allocation) (xs : List ℕ) (i : ℕ) (r : Option (ℕ × Tracker)) (b : Bool)
      → t.allocations ≡ some m
      → Outside t (block_for malloc t xs) i xs
      → (block_for malloc t xs == 0) ≡ b
      → copy_new xs ≡ r
      → Written t (block_for malloc t xs) i xs r
  unfolding copy_new
  copy_new-Written m xs i r true on outside e h =
      subst (Written t (block_for malloc t xs) i xs) (rw e at h) tt
  copy_new-Written m xs i r false on outside e h =
      let block = block_for malloc t xs in
      let some_block : block ≢ 0 =
        λ z. let bad : true ≡ false = sym (ap (λ (a : ℕ). a == 0) z) ∙ e in cc in
      subst (Written t block i xs) (rw e at h) (
        copy_to-Written t block i xs alloc m
          (notify_alloc alloc t alloc_allocator_id block (length xs)) on some_block outside refl)

  -- The map of the tracker once `copy_new` has returned a block that it did not know.
  copy_new-map :
      (m : HashMap ℕ Allocation) (xs : List ℕ) (ptr : ℕ) (t' : Tracker)
      → t.allocations ≡ some m
      → get pointer_ops m (block_for malloc t xs + canary_size) ≡ none
      → copy_new xs ≡ some (ptr, t')
      → t'.allocations ≡ some (tracked_map m xs)
  unfolding copy_new
  copy_new-map m xs ptr t' on absent h = elim (Bool-cases (block_for malloc t xs == 0)) [
    | inl e ↦ let bad : ◌≡◌ {A = Option (ℕ × Tracker)} none (some (ptr, t')) = rw e at h in cc
    | inr e ↦
        let p = block_for malloc t xs + canary_size in
        let some_block : block_for malloc t xs ≢ 0 =
          λ z. let bad : true ≡ false = sym (ap (λ (a : ℕ). a == 0) z) ∙ e in cc in
        let told =
          notify_alloc-absent alloc t m alloc_allocator_id (block_for malloc t xs) (length xs) on
            some_block absent in
        let after : Tracker = record {
          allocations = some (tracked_map m xs);
          memory = add_canaries t.memory p (length xs);
        } in
        copy_to-map xs ptr t' p after (rw (e, told) at h)
  ]

  -- A block that is entered in the map and has its canaries is released.
  free-copied :
      (t' : Tracker) (m : HashMap ℕ Allocation) (xs : List ℕ)
      → IsValid pointer_ops pointer-IsLawful m
      → t'.allocations ≡ some (tracked_map m xs)
      → (set_key pointer_ops alloc m (block_for malloc t xs + canary_size) (record_for xs)).1 ≡ true
      → check_canaries t'.memory (block_for malloc t xs + canary_size) (length xs) ≡ true
      → osi_free t' (block_for malloc t xs + canary_size)
        ≡ some (
          block_for malloc t xs,
          with_map t'
              (erase pointer_ops (tracked_map m xs) (block_for malloc t xs + canary_size)).2,
        )
  unfolding osi_free
  free-copied t' m xs valid on ok intact =
      let block = block_for malloc t xs in
      let p = block + canary_size in
      let (found, _) = get-set pointer_ops pointer-IsLawful alloc m p (record_for xs) valid in
      let there : get pointer_ops (tracked_map m xs) p ≡ some (record_for xs) =
        found p ∙ rw (==-self p, ok) refl in
      notify_free-there t' (tracked_map m xs) alloc_allocator_id p (length xs) on (omega arith)
        there intact
      ∙ ap (λ q. some (q, with_map t' (erase pointer_ops (tracked_map m xs) p).2)) (omega arith)

  -- `osi_strndup` with the tracker on, on a string of which at most `len` bytes are copied: what
  -- it returns stands behind the first canary of a new block, has the bytes and a NUL, and has a
  -- canary on both sides. No byte outside of the block is written. `osi_free` then takes it back
  -- without a failed assertion, gives the address of the block and drops the record.
  -- `osi_strdup` copies the whole string in the same way. The conditions: the tracker does not
  -- know the address, its own allocations succeed, and the size with the canaries does not wrap.
  pub strndup-copied :
      (t' : Tracker) (m : HashMap ℕ Allocation) (str : List ℕ) (len ptr i : ℕ)
      → t.allocations ≡ some m
      → IsValid pointer_ops pointer-IsLawful m
      → get pointer_ops m (block_for malloc t (copied str len) + canary_size) ≡ none
      → (set_key pointer_ops alloc m
          (block_for malloc t (copied str len) + canary_size)
          (record_for (copied str len))).1
        ≡ true
      → osi_strndup alloc malloc t str len ≡ some (ptr, t')
      → length (copied str len) + 2 * canary_size < 2 ^ 64
      → (i < block_for malloc t (copied str len))
        ⊎ (block_for malloc t (copied str len) + resize_for_canary t (length (copied str len)) ≤ i)
      → (ptr ≡ block_for malloc t (copied str len) + canary_size)
        × (matches t'.memory ptr (copied str len) ≡ true)
        × (check_canaries t'.memory ptr (length (copied str len)) ≡ true)
        × (t'.memory i ≡ t.memory i)
        × (osi_free t' ptr
            ≡ some (
              block_for malloc t (copied str len),
              with_map t' (erase pointer_ops (tracked_map m (copied str len)) ptr).2,
            ))
        × (osi_strdup alloc malloc t str ≡ osi_strndup alloc malloc t str (length str))
  unfolding Outside resize_for_canary
  strndup-copied t' m str len ptr i on valid absent ok h small outside =
      let xs = copied str len in
      let block = block_for malloc t xs in
      let asked : resize_for_canary t (length xs) ≡ length xs + 2 * canary_size =
        rw on (omega arith) in
      let h' = sym (strndup-copy_new str len) ∙ h in
      let (e, there, kept, same) =
        copy_new-Written m xs i (some (ptr, t')) (block == 0) on (omega (arith, asked)) refl h' in
      let freed =
        free-copied t' m xs valid (copy_new-map m xs ptr t' on absent h') ok
          (subst (λ p. check_canaries t'.memory p (length xs) ≡ true) e kept) in
      (
        e,
        there,
        kept,
        same,
        subst
            (λ p.
              osi_free t' p ≡ some (block, with_map t' (erase pointer_ops (tracked_map m xs) p).2))
            (sym e) freed,
        strdup-strndup str,
      )
