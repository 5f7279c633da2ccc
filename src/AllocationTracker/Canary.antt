-- ===== src/AllocationTracker/Canary.antt =====
-- The canaries that an allocation writes are the ones that its release finds.
use osi.Prelude.{
  ℕ, ◌+◌, ◌-◌, ◌≤◌, ◌<◌, ◌≡◌, ◌⊎◌, refl, true, List, [], ◌∷◌, ◌==◌, ◌&&◌, length, ==-self, ne→==,
  ap₂, ◌∙◌, arith,
}
use osi.AllocationTracker.{
  Memory, write, matches, canary, canary_size, add_canaries, check_canaries,
}

-- A write leaves the bytes before it.
write_below : (mem : Memory) (a i : ℕ) (xs : List ℕ) → i < a → write mem a xs i ≡ mem i
unfolding write
write_below mem a i [] h = refl
write_below mem a i (x ∷ xs) h =
    rw (ne→== i a (omega arith)) (write_below mem (a + 1) i xs (omega arith))

pub matches_from :
    (f g : Memory) (a : ℕ) (xs : List ℕ)
    → ((i : ℕ) → a ≤ i → i < a + length xs → f i ≡ g i)
    → matches f a xs ≡ matches g a xs
unfolding matches
matches_from f g a [] h = refl
matches_from f g a (x ∷ xs) h =
    ap₂ (λ u v. (u == x) && v) (h a (omega arith) (omega arith))
      (matches_from f g (a + 1) xs (λ i p q. h i (omega arith) (omega arith)))

pub matches-write : (mem : Memory) (a : ℕ) (xs : List ℕ) → matches (write mem a xs) a xs ≡ true
unfolding matches write
matches-write mem a [] = refl
matches-write mem a (x ∷ xs) =
    rw (==-self a, ==-self x)
      (matches_from (write mem a (x ∷ xs)) (write mem (a + 1) xs) (a + 1) xs
          (λ i p q. rw (ne→== i a (omega arith)) refl)
        ∙ matches-write mem (a + 1) xs)

pub check-add_canaries :
    (mem : Memory) (ptr size : ℕ)
    → canary_size ≤ ptr
    → check_canaries (add_canaries mem ptr size) ptr size ≡ true
unfolding check_canaries add_canaries
check-add_canaries mem ptr size h =
    let first = write mem (ptr - canary_size) canary in
    ap₂ ◌&&◌
      (matches_from (write first (ptr + size) canary) first (ptr - canary_size) canary
          (λ i p q. write_below first (ptr + size) i canary (omega arith))
        ∙ matches-write mem (ptr - canary_size) canary)
      (matches-write first (ptr + size) canary)

pub write_outside :
    (mem : Memory) (a i : ℕ) (xs : List ℕ)
    → (i < a) ⊎ (a + length xs ≤ i)
    → write mem a xs i ≡ mem i
unfolding write
write_outside mem a i [] h = refl
write_outside mem a i (x ∷ xs) h =
    rw (ne→== i a (omega arith)) (write_outside mem (a + 1) i xs (omega arith))

pub add_canaries_outside :
    (mem : Memory) (ptr size i : ℕ)
    → canary_size ≤ ptr
    → (i < ptr - canary_size) ⊎ (ptr + size + canary_size ≤ i)
    → add_canaries mem ptr size i ≡ mem i
unfolding add_canaries
add_canaries_outside mem ptr size i h outside =
    write_outside (write mem (ptr - canary_size) canary) (ptr + size) i canary (omega arith)
    ∙ write_outside mem (ptr - canary_size) i canary (omega arith)
