-- ===== src/Buffer/Calls.antt =====
-- `buffer_new` and `buffer_new_slice` keep the counts.
use osi.Prelude.{
  ℕ, suc, ◌^◌, ◌≤◌, ◌<◌, ◌≡◌, refl, ap, sym, ◌∙◌, subst, Bool, true, false, ◌||◌, Option, none,
  some, [], ◌∷◌, ◌==◌, length, All, Bool-cases, inl, inr, ==→eq, ==→ne, ne→==, ==-self, arith,
  lt→ltb, le→leb, update, update-all, replicate, length-replicate, update_other, update_at,
}
use osi.Buffer.{Buffer, Memory, new, new_slice, count_ref, size_max, increment, length_of}
use osi.Buffer.Counts.{
  Refs, count, holds, Apart, shape, Fits, Held, Block, Valid, count-le-length, held_at,
  All-Held-kept, free-apart,
}

-- A call that gives a memory in which the counts are right.
abbrev pub Gives : Refs → Option Memory → Type 0
Gives refs o = (memory : Memory) × (o ≡ some memory) × Valid memory refs

Apart-refs :
    (p : ℕ) (refs : Refs)
    → All (λ ref. ((ref.0 == p) ≡ false) × ((ref.1 == p) ≡ false)) refs
    → Apart p refs
Apart-refs p [] h = tt
Apart-refs p (ref ∷ refs) ((ne, _), h) = (ne, Apart-refs p refs h)

or_last : (a b : Bool) → b ≡ true → (a || b) ≡ true
or_last true b h = refl
or_last false b h = h

-- A block that is not at the new buffer, nor at its root.
Block-other :
    (refs : Refs) (h r q : ℕ) (o : Option Buffer)
    → (q == r) ≡ false
    → Block refs q o
    → Block ((h, r) ∷ refs) q o
Block-other refs h r q none ne k = ground (arith, ==→ne q r ne)
Block-other refs h r q (some b) ne (is_root, is_leaf) = (
  (λ e. let (a, b', c) = is_root e in (ground (arith, ==→ne q r ne), b', c)),
  (λ e.
      let (a, b') = is_leaf e in (or_last (h == q) (holds q refs) a, ground (arith, ==→ne q r ne))),
)

pub new-Valid :
    (p size : ℕ) (memory : Memory) (refs : Refs)
    → Valid memory refs
    → memory p ≡ none
    → 0 < size
    → suc (length refs) < 2 ^ 64
    → Gives ((p, p) ∷ refs) (new p size memory)
unfolding new
new-Valid p size memory refs v free pos few =
    let b : Buffer = record { root = p; refcount = 1; length = size; bytes = replicate size 0 } in
    let apart = free-apart memory p refs free v.held in
    let none_there : count p refs ≡ 0 = subst (Block refs p) free (v.each p) in
    (
      update memory p (some b),
      rw (lt→ltb 0 size pos) refl,
      record {
        held = (
          subst (λ s. Fits s s p) (ap shape (sym (update_at memory p (some b))))
              (refl, refl, omega arith),
          All-Held-kept memory (update memory p (some b)) p refs
              (λ q ne. ap shape (update_other memory p (some b) q ne)) apart v.held,
        );
        each =
            update-all (Block ((p, p) ∷ refs)) memory p (some b)
              (
                (λ _. (
                  rw (==-self p) (omega (arith, none_there)),
                  omega arith,
                  length-replicate size 0,
                )),
                (λ e. absurd (==→ne p p e refl)),
              )
              (λ q ne. Block-other refs p p q (memory q) ne (v.each q));
        distinct = (Apart-refs p refs apart, v.distinct);
        few = few;
      },
    )

Fits-blocks :
    (memory : Memory) (q r : ℕ) (o o' : Option Buffer)
    → memory r ≡ o'
    → Fits (shape o) (shape o') r
    → (b : Buffer) × (o ≡ some b)
      × (rb : Buffer) × (memory b.root ≡ some rb)
      × (rb.root ≡ b.root)
      × (b.length ≤ rb.length)
Fits-blocks memory q r none o' at h = cc
Fits-blocks memory q r (some b) none at h = cc
Fits-blocks memory q r (some b) (some rb) at (e, e', le) =
    (b, refl, rb, ap memory e ∙ at, e' ∙ sym e, le)

-- The block of a buffer that is held, and that of its root.
pub held-blocks :
    (memory : Memory) (q : ℕ) (refs : Refs)
    → All (Held memory) refs
    → holds q refs ≡ true
    → (b : Buffer) × (memory q ≡ some b)
      × (rb : Buffer) × (memory b.root ≡ some rb)
      × (rb.root ≡ b.root)
      × (b.length ≤ rb.length)
held-blocks memory q refs all is =
    let (r, h) = held_at memory q refs all is in Fits-blocks memory q r (memory q) (memory r) refl h

abbrev pub root_of : Option Buffer → ℕ
root_of none = 0
root_of (some b) = b.root

module _ (p buf n : ℕ) (memory : Memory) (refs : Refs) (v : Valid memory refs)
    (free : memory p ≡ none) (is : holds buf refs ≡ true) (few : suc (length refs) < 2 ^ 64) where
  -- A leaf at `p`, and the root counted once more.
  leaf-Valid :
      (b rb : Buffer)
      → memory b.root ≡ some rb
      → rb.root ≡ b.root
      → n ≤ rb.length
      → Valid
          (update
            (update memory p
              (some (record { root = b.root; refcount = size_max; length = n; bytes = [] })))
            b.root
            (some (record rb { refcount = increment rb.refcount })))
          ((p, b.root) ∷ refs)
  leaf-Valid b rb at_root own le =
      let leaf : Buffer = record { root = b.root; refcount = size_max; length = n; bytes = [] } in
      let root : Buffer = record rb { refcount = increment rb.refcount } in
      let memory1 : Memory = update memory p (some leaf) in
      let memory2 : Memory = update memory1 b.root (some root) in
      let apart = free-apart memory p refs free v.held in
      let none_there : count p refs ≡ 0 = subst (Block refs p) free (v.each p) in
      let p_root : (b.root == p) ≡ false =
        ne→== b.root p
          (λ e. let bad : none ≡ some rb = sym free ∙ (ap memory (sym e) ∙ at_root) in cc) in
      let root_p : (p == b.root) ≡ false = ne→== p b.root (λ e. ==→ne b.root p p_root (sym e)) in
      let at_p : shape (memory2 p) ≡ some (b.root, n) =
        ap shape
          (update_other memory1 b.root (some root) p root_p ∙ update_at memory p (some leaf)) in
      let at_r : shape (memory2 b.root) ≡ some (b.root, rb.length) =
        ap shape (update_at memory1 b.root (some root)) ∙ ap (λ i. some (i, rb.length)) own in
      let same : (q : ℕ) → (q == p) ≡ false → shape (memory2 q) ≡ shape (memory q) = λ q ne.
        elim (Bool-cases (q == b.root)) [
          | inl e ↦
              ap shape (ap memory2 (==→eq q b.root e) ∙ update_at memory1 b.root (some root))
              ∙ sym (ap shape (ap memory (==→eq q b.root e) ∙ at_root))
          | inr e ↦
              ap shape (
                update_other memory1 b.root (some root) q e
                ∙ update_other memory p (some leaf) q ne)
        ] in
      let (counted, _) = subst (Block refs b.root) at_root (v.each b.root) in
      let (is_count, positive, full) =
        counted (subst (λ i. (i == b.root) ≡ true) (sym own) (==-self b.root)) in
      record {
        held = (
          subst (λ s. Fits s (shape (memory2 b.root)) b.root) (sym at_p)
              (subst (λ s. Fits (some (b.root, n)) s b.root) (sym at_r) (refl, refl, le)),
          All-Held-kept memory memory2 p refs same apart v.held,
        );
        each =
            update-all (Block ((p, b.root) ∷ refs)) memory1 b.root (some root)
              (
                (λ _. (
                  rw (==-self b.root) (ground (arith, is_count, count-le-length b.root refs, few)),
                  ground (arith, is_count, count-le-length b.root refs, few),
                  full,
                )),
                (λ e. absurd (==→ne rb.root b.root e own)),
              )
              (λ q ne.
                update-all (λ i o. (i == b.root) ≡ false → Block ((p, b.root) ∷ refs) i o) memory p
                  (some leaf)
                  (λ _. (
                    (λ e. absurd (==→ne b.root p p_root (==→eq b.root p e))),
                    (λ _. (rw (==-self p) refl, rw p_root (omega (arith, none_there)))),
                  ))
                  (λ i _ other. Block-other refs p b.root i (memory i) other (v.each i)) q ne);
        distinct = (Apart-refs p refs apart, v.distinct);
        few = few;
      }

  pub slice-Valid :
      0 < n
      → n ≤ length_of (memory buf)
      → Gives ((p, root_of (memory buf)) ∷ refs) (new_slice p buf n memory)
  unfolding new_slice
  slice-Valid pos le =
      let (b, at, rb, at_root, own, fits) = held-blocks memory buf refs v.held is in
      let leaf : Buffer = record { root = b.root; refcount = size_max; length = n; bytes = [] } in
      let root_p : (b.root == p) ≡ false =
        ne→== b.root p
          (λ e. let bad : none ≡ some rb = sym free ∙ (ap memory (sym e) ∙ at_root) in cc) in
      let le_b : n ≤ b.length = subst (λ o. n ≤ length_of o) at le in
      rw at (
        _,
        rw (lt→ltb 0 n pos, le→leb n b.length le_b)
            (ap (count_ref (update memory p (some leaf)) b.root)
              (update_other memory p (some leaf) b.root root_p ∙ at_root)),
        leaf-Valid b rb at_root own (omega (arith, le_b, fits)),
      )
