-- ===== src/Reactor/Changed.antt =====
-- A state of the reactor in which one pointer has new values.
use osi.Prelude.{
  update, update₂-all, ℕ, ◌≡◌, ◌≢◌, ◌⊎◌, inl, inr, refl, ap, sym, ◌∙◌, subst, Bool, true, false,
  ◌&&◌, ◌||◌, Option, none, some, List, [], ◌∷◌, ◌==◌, is_some, All, Bool-cases, ==→eq, ==→ne,
  arith,
}
use osi.Alarm.Schedule.{list_contains}
use osi.Reactor.{Object, Event, Stage, idle, deleted, listed, removed, Reactor, held}
use osi.Reactor.Invariant.{is_idle, is_open, fd_of, later, pending, PtrOk, held_ok, Other, IsValid}

-- What a pointer has to do with the rest of the state.
abbrev pub Interested : ℕ → (q : ℕ) → Option Object → Stage → Option ℕ → Type 0
Interested fd q o s i = i ≡ some q → (is_idle s ≡ true) × (fd_of o ≡ some fd)

pending_mono :
    (xs ys : List ℕ) (q : ℕ) (o : Option Object) (s : Stage)
    → (list_contains xs q ≡ true → list_contains ys q ≡ true)
    → pending xs q o s ≡ true
    → pending ys q o s ≡ true
pending_mono xs ys q o s grows h = elim (Bool-cases (q == 0)) [
  | inl e ↦ rw e refl
  | inr e ↦ elim (Bool-cases (list_contains xs q)) [
    | inl c ↦ rw (e, grows c) refl
    | inr c ↦ elim (Bool-cases (list_contains ys q)) [
      | inl d ↦ rw (e, d) refl
      | inr d ↦
          rw (e, d)
            (subst (λ b. (b || (is_some o && is_open s)) ≡ true) c
              (subst (λ b. (b || (list_contains xs q || (is_some o && is_open s))) ≡ true) e h))
    ]
  ]
]

-- New values for one pointer, where `r` and `l` are as before in the rest.
module _ (r : Reactor) (v : IsValid r) (p : ℕ) (o : Option Object) (s : Stage)
    (interest : ℕ → Option ℕ) (invalid : List ℕ) (flag : Bool)
    (interested : (fd q : ℕ)
      → Interested fd q (update r.object p o q) (update r.stage p s q) (interest fd))
    (null : p ≡ 0 → is_some o ≡ false) (ok : PtrOk r.loop p o s)
    (holding : (held r.loop ≡ p → held_ok flag p o s ≡ true)
      × (held r.loop ≢ p → flag ≡ r.object_removed))
    (grows : (q : ℕ) → list_contains r.invalidation_list q ≡ true → list_contains invalid q ≡ true)
    (at : Other p (later r.loop)
      ⊎ (pending r.invalidation_list p (r.object p) (r.stage p) ≡ true
          → pending invalid p o s ≡ true)) where
  waits :
      (es : List Event)
      → Other p es
        ⊎ (pending r.invalidation_list p (r.object p) (r.stage p) ≡ true
            → pending invalid p o s ≡ true)
      → All (λ e. pending r.invalidation_list e.ptr (r.object e.ptr) (r.stage e.ptr) ≡ true) es
      → All
          (λ e. pending invalid e.ptr (update r.object p o e.ptr) (update r.stage p s e.ptr) ≡ true)
          es
  waits [] h k = tt
  waits (e ∷ es) (inl (ne, other)) (k, ks) = (
    rw ne (
        pending_mono r.invalidation_list invalid e.ptr (r.object e.ptr) (r.stage e.ptr)
          (grows e.ptr) k),
    waits es (inl other) ks,
  )
  waits (e ∷ es) (inr h) (k, ks) = (
    elim (Bool-cases (e.ptr == p)) [
      | inl is ↦ rw is (
          subst (λ q. pending invalid q o s ≡ true) (sym (==→eq e.ptr p is))
            (h (
              subst (λ q. pending r.invalidation_list q (r.object q) (r.stage q) ≡ true)
                (==→eq e.ptr p is) k)))
      | inr ne ↦ rw ne (
          pending_mono r.invalidation_list invalid e.ptr (r.object e.ptr) (r.stage e.ptr)
            (grows e.ptr) k)
    ],
    waits es (inr h) ks,
  )

  pub changed-IsValid : IsValid (record r {
    object = update r.object p o;
    stage = update r.stage p s;
    interest = interest;
    invalidation_list = invalid;
    object_removed = flag;
  })
  changed-IsValid = record {
    interested = interested;
    null = elim (Bool-cases (0 == p)) [
      | inl e ↦ rw e (null (sym (==→eq 0 p e)))
      | inr e ↦ rw e v.null
    ];
    each = update₂-all (PtrOk r.loop) r.object r.stage p o s ok (λ q _. v.each q);
    holding = elim (Bool-cases (held r.loop == p)) [
      | inl e ↦ rw e (
          subst (λ q. held_ok flag q o s ≡ true) (sym (==→eq (held r.loop) p e))
            (holding.0 (==→eq (held r.loop) p e)))
      | inr e ↦ rw (e, holding.1 (==→ne (held r.loop) p e)) v.holding
    ];
    pendings = waits (later r.loop) at v.pendings;
    nonzero = v.nonzero;
    fresh = v.fresh;
    distinct = v.distinct;
  }

pub idle_of : (s : Stage) → is_idle s ≡ true → s ≡ idle
idle_of idle h = refl
idle_of deleted h = cc
idle_of listed h = cc
idle_of removed h = cc

pub idle_where :
    (s : Stage) (o : Option Object) → (is_idle s || is_some o) ≡ true → o ≡ none → s ≡ idle
idle_where idle o h free = refl
idle_where deleted none h free = cc
idle_where listed none h free = cc
idle_where removed none h free = cc
idle_where deleted (some o) h free = cc
idle_where listed (some o) h free = cc
idle_where removed (some o) h free = cc

pub or-or_true : (a b : Bool) → (a || (b || true)) ≡ true
or-or_true true b = refl
or-or_true false true = refl
or-or_true false false = refl

pub held-there :
    (flag : Bool) (p : ℕ) (o : Option Object) (s : Stage)
    → held_ok flag p o s ≡ true
    → o ≡ none
    → p ≡ 0
held-there flag p none s h free = ground arith
held-there flag p (some o) s h free = cc

pub holding_at :
    (r : Reactor) (p : ℕ)
    → IsValid r
    → held r.loop ≡ p
    → held_ok r.object_removed p (r.object p) (r.stage p) ≡ true
holding_at r p v is =
    subst (λ q. held_ok r.object_removed q (r.object q) (r.stage q) ≡ true) is v.holding

pub used-cases :
    (o : Option Object) (s : Stage)
    → (is_some o && is_idle s) ≡ true
    → (o' : Object) × (o ≡ some o') × (s ≡ idle)
used-cases none s h = cc
used-cases (some o) s h = (o, refl, idle_of s h)

pub not_null : (r : Reactor) (p : ℕ) (o : Object) → IsValid r → r.object p ≡ some o → p ≢ 0
not_null r p o v there =
    λ z. let bad : false ≡ true = sym v.null ∙ ap is_some (ap r.object (sym z) ∙ there) in cc

pub or_true : (a : Bool) → (a || true) ≡ true
or_true true = refl
or_true false = refl

pub some-none : {A : Type 0} (o : Option A) → is_some o ≡ true → o ≢ none
some-none none h = λ _. cc
some-none (some a) h = λ e. cc
