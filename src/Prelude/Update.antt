-- ===== src/Prelude/Update.antt =====
-- A function on numbers with a new value at one of them.
use Prim.Native.Nat.{ℕ}
use mathlib.Core.Path.{◌≡◌, refl, sym, ap, ◌∙◌, subst, fun_ext}
use mathlib.Core.Logic.{◌⊎◌, inl, inr}
use mathlib.Core.Bool.{false}
use osi.Prelude.Tests.{◌==◌, if◌then◌else◌, Bool-cases, ==→eq, ==-self}

abbrev pub update {ℓ} : {A : Type ℓ} → (ℕ → A) → ℕ → A → ℕ → A
update f p a q = if q == p then a else f q

module _ {ℓ} {A : Type ℓ} where
  pub update_at : (f : ℕ → A) (p : ℕ) (a : A) → update f p a p ≡ a
  update_at f p a = rw (==-self p) refl

  pub update_other : (f : ℕ → A) (p : ℕ) (a : A) (q : ℕ) → (q == p) ≡ false → update f p a q ≡ f q
  update_other f p a q ne = rw ne refl

  -- A value that is written over itself.
  pub update-same : (f : ℕ → A) (p : ℕ) (a : A) → f p ≡ a → update f p a ≡ f
  update-same f p a same = fun_ext (λ q. elim (Bool-cases (q == p)) [
    | inl e ↦ rw e (sym same ∙ ap f (sym (==→eq q p e)))
    | inr e ↦ rw e refl
  ])

  pub updated :
      (f : ℕ → A) (p : ℕ) (a : A) (q : ℕ) (x : A)
      → update f p a q ≡ x
      → ((q ≡ p) × (a ≡ x)) ⊎ (((q == p) ≡ false) × (f q ≡ x))
  updated f p a q x h = elim (Bool-cases (q == p)) [
    | inl e ↦ inl (==→eq q p e, subst (λ b. (if b then a else f q) ≡ x) e h)
    | inr e ↦ inr (e, subst (λ b. (if b then a else f q) ≡ x) e h)
  ]

  pub update-all {μ} :
      (P : ℕ → A → Type μ) (f : ℕ → A) (p : ℕ) (a : A)
      → P p a
      → ((q : ℕ) → (q == p) ≡ false → P q (f q))
      → (q : ℕ) → P q (update f p a q)
  update-all P f p a new old q = elim (Bool-cases (q == p)) [
    | inl e ↦ rw e (subst (λ i. P i a) (sym (==→eq q p e)) new)
    | inr e ↦ rw e (old q e)
  ]

  -- What holds of the new values and of the old ones elsewhere holds after an update.
  pub update₂-all {κ μ} :
      {B : Type κ} (P : ℕ → A → B → Type μ) (f : ℕ → A) (g : ℕ → B) (p : ℕ) (a : A) (b : B)
      → P p a b
      → ((q : ℕ) → (q == p) ≡ false → P q (f q) (g q))
      → (q : ℕ) → P q (update f p a q) (update g p b q)
  update₂-all P f g p a b new old q = elim (Bool-cases (q == p)) [
    | inl e ↦ rw e (subst (λ i. P i a b) (sym (==→eq q p e)) new)
    | inr e ↦ rw e (old q e)
  ]

  -- A value that is written over another.
  pub update-update : (f : ℕ → A) (p : ℕ) (a b : A) → update (update f p a) p b ≡ update f p b
  update-update f p a b =
      fun_ext (λ q. elim (Bool-cases (q == p)) [ inl e ↦ rw e refl | inr e ↦ rw e refl ])

  -- What the old value and the new one have in common.
  pub update-carry {μ} :
      (P : A → Type μ) (f : ℕ → A) (p : ℕ) (a : A) (q : ℕ)
      → (P (f p) → P a)
      → P (f q)
      → P (update f p a q)
  update-carry P f p a q new old = elim (Bool-cases (q == p)) [
    | inl e ↦ rw e (new (subst (λ i. P (f i)) (==→eq q p e) old))
    | inr e ↦ rw e old
  ]
