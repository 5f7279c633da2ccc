-- ===== src/Buffer/Counts.antt =====
-- The buffers that callers hold, each with its root, and what they have to do with the blocks.
use osi.Prelude.{
  ℕ, ◌+◌, ◌^◌, ◌≤◌, ◌<◌, ◌≡◌, ◌≢◌, refl, ap, sym, ◌∙◌, subst, Bool, true, false, ◌||◌, Option, none,
  some, List, [], ◌∷◌, ◌==◌, if◌then◌else◌, length, All, Bool-cases, inl, inr, ==→eq, ==→ne, ne→==,
  arith,
}
use osi.Buffer.{Buffer, Memory}

abbrev pub Refs : Type 0
Refs = List (ℕ × ℕ)

-- How many have the root `q`.
abbrev pub count : ℕ → Refs → ℕ
count q [] = 0
count q ((h, r) ∷ refs) = (if r == q then 1 else 0) + count q refs

abbrev pub holds : ℕ → Refs → Bool
holds q [] = false
holds q ((h, r) ∷ refs) = h == q || holds q refs

abbrev pub remove : ℕ → Refs → Refs
remove q [] = []
remove q ((h, r) ∷ refs) = if h == q then refs else (h, r) ∷ remove q refs

abbrev pub Apart : ℕ → Refs → Type 0
Apart q refs = All (λ ref. (ref.0 == q) ≡ false) refs

abbrev pub Distinct : Refs → Type 0
Distinct [] = Unit
Distinct ((h, r) ∷ refs) = Apart h refs × Distinct refs

-- The root and the length of a block.
abbrev pub shape : Option Buffer → Option (ℕ × ℕ)
shape none = none
shape (some b) = some (b.root, b.length)

-- A buffer with its root: the root is its own, and no shorter.
abbrev pub Fits : Option (ℕ × ℕ) → Option (ℕ × ℕ) → ℕ → Type 0
Fits (some (r, n)) (some (r', n')) root = (r ≡ root) × (r' ≡ root) × (n ≤ n')
Fits _ _ root = false ≡ true

abbrev pub Held : Memory → ℕ × ℕ → Type 0
Held memory (h, r) = Fits (shape (memory h)) (shape (memory r)) r

-- The count of a root is the number of buffers that have it, and a leaf is held.
abbrev pub Block : Refs → ℕ → Option Buffer → Type 0
Block refs q none = count q refs ≡ 0
Block refs q (some b) =
    ((b.root == q) ≡ true
      → (b.refcount ≡ count q refs) × (0 < b.refcount) × (length b.bytes ≡ b.length))
    × ((b.root == q) ≡ false → (holds q refs ≡ true) × (count q refs ≡ 0))

pub record Valid (memory : Memory) (refs : Refs) : Type 0 where
  pub held : All (Held memory) refs
  pub each : (q : ℕ) → Block refs q (memory q)
  pub distinct : Distinct refs
  pub few : length refs < 2 ^ 64

pub count-le-length : (q : ℕ) (refs : Refs) → count q refs ≤ length refs
count-le-length q [] = omega arith
count-le-length q ((h, r) ∷ refs) = ground (arith, count-le-length q refs)

pub length-remove : (q : ℕ) (refs : Refs) → length (remove q refs) ≤ length refs
length-remove q [] = omega arith
length-remove q ((h, r) ∷ refs) = ground (arith, length-remove q refs)

-- What is held, at one of the buffers.
pub held_at :
    (memory : Memory) (q : ℕ) (refs : Refs)
    → All (Held memory) refs
    → holds q refs ≡ true
    → (r : ℕ) × Held memory (q, r)
held_at memory q [] all h = cc
held_at memory q ((h, r) ∷ refs) (one, all) is = elim (Bool-cases (h == q)) [
  | inl e ↦ (r, subst (λ i. Held memory (i, r)) (==→eq h q e) one)
  | inr e ↦ held_at memory q refs all (subst (λ b. (b || holds q refs) ≡ true) e is)
]

pub Apart-remove : (q : ℕ) (refs : Refs) → Distinct refs → Apart q (remove q refs)
Apart-remove q [] d = tt
Apart-remove q ((h, r) ∷ refs) (apart, d) = elim (Bool-cases (h == q)) [
  | inl e ↦ rw e (subst (λ i. Apart i refs) (==→eq h q e) apart)
  | inr e ↦ rw e (e, Apart-remove q refs d)
]

pub All-remove : (P : ℕ × ℕ → Type 0) (q : ℕ) (refs : Refs) → All P refs → All P (remove q refs)
All-remove P q [] all = tt
All-remove P q ((h, r) ∷ refs) (one, all) = elim (Bool-cases (h == q)) [
  | inl e ↦ rw e all
  | inr e ↦ rw e (one, All-remove P q refs all)
]

pub Distinct-remove : (q : ℕ) (refs : Refs) → Distinct refs → Distinct (remove q refs)
Distinct-remove q [] d = tt
Distinct-remove q ((h, r) ∷ refs) (apart, d) = elim (Bool-cases (h == q)) [
  | inl e ↦ rw e d
  | inr e ↦ rw e (All-remove (λ ref. (ref.0 == h) ≡ false) q refs apart, Distinct-remove q refs d)
]

pub holds-remove :
    (q p : ℕ) (refs : Refs) → (q == p) ≡ false → holds q (remove p refs) ≡ holds q refs
holds-remove q p [] ne = refl
holds-remove q p ((h, r) ∷ refs) ne = ground (arith, holds-remove q p refs ne, ==→ne q p ne)

Fits-root : (s t t' : Option (ℕ × ℕ)) (r r' : ℕ) → Fits s t r → Fits s t' r' → r ≡ r'
Fits-root (some (x, n)) (some (y, m)) (some (z, k)) r r' (e, _, _) (e', _, _) = sym e ∙ e'
Fits-root none t t' r r' h k = cc
Fits-root (some (x, n)) none t' r r' h k = cc
Fits-root (some (x, n)) (some (y, m)) none r r' h k = cc

-- The root of a buffer that is taken out is counted once less.
pub count-remove :
    (memory : Memory) (q p r : ℕ) (refs : Refs)
    → All (Held memory) refs
    → holds p refs ≡ true
    → Held memory (p, r)
    → count q refs ≡ (if r == q then 1 else 0) + count q (remove p refs)
count-remove memory q p r [] all is one = cc
count-remove memory q p r ((h, r') ∷ refs) (this, all) is one = elim (Bool-cases (h == p)) [
  | inl e ↦
      let same =
        Fits-root (shape (memory p)) (shape (memory r')) (shape (memory r)) r' r
          (subst (λ i. Held memory (i, r')) (==→eq h p e) this) one in
      rw e (ap (λ i. (if i == q then 1 else 0) + count q refs) same)
  | inr e ↦
      let rest =
        count-remove memory q p r refs all (subst (λ b. (b || holds p refs) ≡ true) e is) one in
      rw e (omega (arith, rest))
]

-- A buffer is held as before when the shapes of its block and of its root's block are.
pub Held-kept :
    (memory memory' : Memory) (h r : ℕ)
    → shape (memory' h) ≡ shape (memory h)
    → shape (memory' r) ≡ shape (memory r)
    → Held memory (h, r)
    → Held memory' (h, r)
Held-kept memory memory' h r e e' held =
    subst (λ s. Fits s (shape (memory' r)) r) (sym e)
      (subst (λ s. Fits (shape (memory h)) s r) (sym e') held)

-- The buffers held stay so, where neither they nor their roots are at `p`.
pub All-Held-kept :
    (memory memory' : Memory) (p : ℕ) (refs : Refs)
    → ((q : ℕ) → (q == p) ≡ false → shape (memory' q) ≡ shape (memory q))
    → All (λ ref. ((ref.0 == p) ≡ false) × ((ref.1 == p) ≡ false)) refs
    → All (Held memory) refs
    → All (Held memory') refs
All-Held-kept memory memory' p [] same apart all = tt
All-Held-kept memory memory' p ((h, r) ∷ refs) same ((ne, ne'), apart) (one, all) = (
  Held-kept memory memory' h r (same h ne) (same r ne') one,
  All-Held-kept memory memory' p refs same apart all,
)

Fits-none : (s t : Option (ℕ × ℕ)) (r : ℕ) → Fits s t r → (s ≢ none) × (t ≢ none)
Fits-none (some (x, n)) (some (y, m)) r h = ((λ e. cc), (λ e. cc))
Fits-none none t r h = cc
Fits-none (some (x, n)) none r h = cc

-- No buffer that is held is at a block that is not allocated, and no root.
pub free-apart :
    (memory : Memory) (p : ℕ) (refs : Refs)
    → memory p ≡ none
    → All (Held memory) refs
    → All (λ ref. ((ref.0 == p) ≡ false) × ((ref.1 == p) ≡ false)) refs
free-apart memory p [] free all = tt
free-apart memory p ((h, r) ∷ refs) free (one, all) =
    let (ne, ne') = Fits-none (shape (memory h)) (shape (memory r)) r one in
    (
      (
        ne→== h p (λ e. ne (ap (λ i. shape (memory i)) e ∙ ap shape free)),
        ne→== r p (λ e. ne' (ap (λ i. shape (memory i)) e ∙ ap shape free)),
      ),
      free-apart memory p refs free all,
    )
