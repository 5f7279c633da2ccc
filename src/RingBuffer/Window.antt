-- ===== src/RingBuffer/Window.antt =====
-- The bytes that a ring holds, oldest first, and how a write, a drop and a wrapped head change them.
use osi.Prelude.{
  ℕ, zero, suc, ◌+◌, ◌-◌, ◌≤◌, ◌<◌, ◌≡◌, ◌≢◌, refl, sym, ap, ap₂, ◌∙◌, List, [], ◌∷◌, ◌++◌, leb,
  if◌then◌else◌, length, set, get_or, take, drop, get_or-set_self, get_or-set_ne, arith, min,
}
use osi.RingBuffer.{RingBuffer, size}

-- An offset below twice the total, brought into the storage.
abbrev pub wrap : ℕ → ℕ → ℕ
wrap total i = if leb total i then i - total else i

module _ (base : List ℕ) (total : ℕ) where
  -- the `n` bytes from offset `h` on
  pub window : ℕ → ℕ → List ℕ
  window h zero = []
  window h (suc n) = get_or base (wrap total h) 0 ∷ window (suc h) n

  pub length-window : (h n : ℕ) → length (window h n) ≡ n
  unfolding window
  length-window h zero = refl
  length-window h (suc n) = ap suc (length-window (suc h) n)

  pub window_of_pos :
      (h n m : ℕ) → n ≡ suc m → window h n ≡ get_or base (wrap total h) 0 ∷ window (suc h) m
  unfolding window
  window_of_pos h n m e = ap (window h) e

  pub window_none : (h n : ℕ) → n ≡ 0 → window h n ≡ []
  unfolding window
  window_none h n e = ap (window h) e

  pub take-window : (k h n : ℕ) → take k (window h n) ≡ window h (min k n)
  unfolding window
  take-window zero h n = sym (window_none h _ (omega arith))
  take-window (suc k) h zero = sym (window_none h _ (omega arith))
  take-window (suc k) h (suc n) =
      ap (◌∷◌ (get_or base (wrap total h) 0)) (take-window k (suc h) n)
      ∙ sym (window_of_pos h (min (suc k) (suc n)) (min k n) (omega arith))

  pub drop-window : (k h n : ℕ) → k ≤ n → drop k (window h n) ≡ window (h + k) (n - k)
  unfolding window
  drop-window zero h n le = ap₂ window (omega arith) (omega arith)
  drop-window (suc k) h zero le = absurd (omega arith)
  drop-window (suc k) h (suc n) le =
      drop-window k (suc h) n (omega arith) ∙ ap₂ window (omega arith) (omega arith)

  -- Past the end of the storage the window starts over.
  pub window-over : (j n : ℕ) → j + n ≤ total → window (j + total) n ≡ window j n
  unfolding window
  window-over j zero le = refl
  window-over j (suc n) le =
      ap₂ ◌∷◌ (ap (λ (i : ℕ). get_or base i 0) (ground arith))
        (ap (λ (i : ℕ). window i n) (omega arith) ∙ window-over (suc j) n (omega arith))

  pub window-wrap : (h n : ℕ) → h + n ≤ total + total → window (wrap total h) n ≡ window h n
  unfolding window
  window-wrap h zero le = refl
  window-wrap h (suc n) le = ground (arith, window-over (h - total) (suc n))

-- A write just past a window extends it by that byte.
pub window-set :
    (base : List ℕ) (total x n h : ℕ)
    → length base ≡ total
    → n < total
    → h + n < total + total
    → window (set base (wrap total (h + n)) x) total h (suc n) ≡ window base total h n ++ (x ∷ [])
unfolding window
window-set base total x zero h e lt le =
    ap (λ (i : ℕ). i ∷ [])
      (ap (λ (i : ℕ). get_or (set base (wrap total i) x) (wrap total h) 0) (omega arith)
        ∙ get_or-set_self base (wrap total h) x 0 (ground arith))
window-set base total x (suc n) h e lt le =
    ap₂ ◌∷◌
      (get_or-set_ne base (wrap total (h + suc n)) (wrap total h) x 0 (apart (h + suc n) refl))
      (ap (λ (i : ℕ). window (set base (wrap total i) x) total (suc h) (suc n)) (omega arith)
        ∙ window-set base total x n (suc h) e (omega arith) (omega arith))
  where
    apart : (i : ℕ) → i ≡ h + suc n → wrap total i ≢ wrap total h
    apart i q = ground arith

abbrev pub contents : RingBuffer → List ℕ
contents rb = window rb.base rb.total rb.head (size rb)

-- `head` of an empty storage is 0.
abbrev pub head_limit : ℕ → ℕ
head_limit total = if leb total 0 then 1 else total

-- The offsets lie in the storage, and `tail` stands behind the bytes held. A ring of no bytes has
-- both offsets at 0.
pub record IsValid (rb : RingBuffer) : Type 0 where
  pub storage : length rb.base ≡ rb.total
  pub fits : rb.available ≤ rb.total
  pub head_in : rb.head < head_limit rb.total
  pub tail_behind : rb.tail ≡ wrap rb.total (rb.head + size rb)
