-- ===== src/Buffer/Free.antt =====
-- `buffer_free` keeps the counts, and frees a root with the last buffer that has it.
use osi.Prelude.{
  ℕ, suc, ◌+◌, ◌≤◌, ◌<◌, ◌≡◌, ◌⊎◌, refl, ap, sym, ◌∙◌, subst, true, false, Option, none, some, [],
  ◌∷◌, ◌==◌, if◌then◌else◌, length, All, Bool-cases, inl, inr, ==→eq, ==→ne, ne→==, ==-self, arith,
  update, update_other, update_at,
}
use osi.Buffer.{Buffer, Memory, free, decrement}
use osi.Buffer.Counts.{
  Refs, count, holds, remove, Apart, shape, Fits, Held, Block, Valid, length-remove, Apart-remove,
  All-remove, Distinct-remove, holds-remove, count-remove, Held-kept,
}
use osi.Buffer.Calls.{Gives, held-blocks}

-- A block other than the root that is counted less and the buffer that is taken out.
Block-removed :
    (refs : Refs) (buf r q : ℕ) (o : Option Buffer)
    → (q == r) ≡ false
    → (q == buf) ≡ false
    → count q refs ≡ (if r == q then 1 else 0) + count q (remove buf refs)
    → Block refs q o
    → Block (remove buf refs) q o
Block-removed refs buf r q none ne ne' counts k = ground (arith, ==→ne q r ne)
Block-removed refs buf r q (some b) ne ne' counts (is_root, is_leaf) = (
  (λ e. let (a, b', c) = is_root e in (ground (arith, ==→ne q r ne), b', c)),
  (λ e. let (a, b') = is_leaf e in (holds-remove q buf refs ne' ∙ a, ground (arith, ==→ne q r ne))),
)

abbrev dropped : Buffer → Option Buffer
dropped rb =
    if decrement rb.refcount == 0
    then none
    else some (record rb { refcount = decrement rb.refcount })

Fits-first : (r n : ℕ) (t : Option (ℕ × ℕ)) (x : ℕ) → Fits (some (r, n)) t x → r ≡ x
Fits-first r n none x h = cc
Fits-first r n (some (r', n')) x (e, _, _) = e

module _ (buf r : ℕ) (memory memory' : Memory) (refs : Refs) (v : Valid memory refs)
    (is : holds buf refs ≡ true) (rb : Buffer) (at_root : memory r ≡ some rb) (own : rb.root ≡ r)
    (counts : (q : ℕ) → count q refs ≡ (if r == q then 1 else 0) + count q (remove buf refs))
    (at : memory' r ≡ dropped rb)
    (elsewhere : (q : ℕ) → (q == r) ≡ false → (q == buf) ≡ false → memory' q ≡ memory q)
    (at_buf : (buf == r) ≡ false → (memory' buf ≡ none) × (count buf refs ≡ 0)) where
  counted : (rb.refcount ≡ suc (count r (remove buf refs))) × (length rb.bytes ≡ rb.length)
  counted =
      let (is_root, _) = subst (Block refs r) at_root (v.each r) in
      let (a, b, c) = is_root (subst (λ i. (i == r) ≡ true) (sym own) (==-self r)) in
      let more : count r refs ≡ 1 + count r (remove buf refs) =
        counts r ∙ ap (λ b. (if b then 1 else 0) + count r (remove buf refs)) (==-self r) in
      (omega (arith, a, more), c)

  count_left : decrement rb.refcount ≡ count r (remove buf refs)
  count_left = ground (arith, counted.0)

  -- A block that is as before, but for the count.
  abbrev Stays : ℕ → Type 0
  Stays q = ((q == r) ≡ false × (q == buf) ≡ false) ⊎ ((q ≡ r) × (0 < count r (remove buf refs)))

  Stays-shape : (q : ℕ) → Stays q → shape (memory' q) ≡ shape (memory q)
  Stays-shape q (inl (ne, ne')) = ap shape (elsewhere q ne ne')
  Stays-shape q (inr (e, pos)) =
      let more : (decrement rb.refcount == 0) ≡ false =
        ne→== (decrement rb.refcount) 0 (λ z. omega (arith, z, pos, count_left)) in
      ap (λ i. shape (memory' i)) e
      ∙ (ap shape at
          ∙ (ap
                (λ b.
                  shape (if b then none else some (record rb { refcount = decrement rb.refcount })))
                more
              ∙ sym (ap (λ i. shape (memory i)) e ∙ ap shape at_root)))

  -- A root that is counted stays.
  Stays-root : (x : ℕ) → 0 < count x (remove buf refs) → Stays x
  Stays-root x pos = elim (Bool-cases (x == r)) [
    | inl e ↦ inr (==→eq x r e, subst (λ i. 0 < count i (remove buf refs)) (==→eq x r e) pos)
    | inr ne ↦ elim (Bool-cases (x == buf)) [
      | inl e ↦
          let buf_r : (buf == r) ≡ false = subst (λ i. (i == r) ≡ false) (==→eq x buf e) ne in
          let pos' = subst (λ i. 0 < count i (remove buf refs)) (==→eq x buf e) pos in
          absurd (omega (arith, pos', counts buf, (at_buf buf_r).1))
      | inr ne' ↦ inl (ne, ne')
    ]
  ]

  Fits-own : (h x : ℕ) → h ≡ r → Held memory (h, x) → r ≡ x
  Fits-own h x e held =
      let here =
        subst (λ s. Fits s (shape (memory x)) x) (ap (λ i. shape (memory i)) e ∙ ap shape at_root)
          held in
      sym own ∙ Fits-first rb.root rb.length (shape (memory x)) x here

  held_left :
      (xs : Refs)
      → All (Held memory) xs
      → Apart buf xs
      → ((q : ℕ) → count q xs ≤ count q (remove buf refs))
      → All (Held memory') xs
  held_left [] all apart le = tt
  held_left ((h, x) ∷ xs) (one, all) (ne, apart) le =
      let at_x : 0 < count x (remove buf refs) = ground (arith, le x, ==-self x) in
      let stays_h : Stays h = elim (Bool-cases (h == r)) [
        | inl e ↦ inr (
          ==→eq h r e,
          subst (λ i. 0 < count i (remove buf refs)) (sym (Fits-own h x (==→eq h r e) one)) at_x,
        )
        | inr other ↦ inl (other, ne)
      ] in
      (
        Held-kept memory memory' h x (Stays-shape h stays_h) (Stays-shape x (Stays-root x at_x))
            one,
        held_left xs all apart (λ q. ground (arith, le q)),
      )

  root_left : Block (remove buf refs) r (dropped rb)
  root_left = elim (Bool-cases (decrement rb.refcount == 0)) [
    | inl z ↦ rw z (sym count_left ∙ ==→eq (decrement rb.refcount) 0 z)
    | inr more ↦ rw more (
      (λ _. (count_left, ground (arith, ==→ne (decrement rb.refcount) 0 more), counted.1)),
      (λ e. absurd (==→ne rb.root r e own)),
    )
  ]

  each_left : (q : ℕ) → Block (remove buf refs) q (memory' q)
  each_left q = elim (Bool-cases (q == r)) [
    | inl e ↦
        subst (λ i. Block (remove buf refs) i (memory' i)) (sym (==→eq q r e))
          (subst (Block (remove buf refs) r) (sym at) root_left)
    | inr ne ↦ elim (Bool-cases (q == buf)) [
      | inl e ↦
          let buf_r : (buf == r) ≡ false = subst (λ i. (i == r) ≡ false) (==→eq q buf e) ne in
          let (freed, leaf) = at_buf buf_r in
          subst (λ i. Block (remove buf refs) i (memory' i)) (sym (==→eq q buf e))
            (subst (Block (remove buf refs) buf) (sym freed) (omega (arith, counts buf, leaf)))
      | inr ne' ↦
          subst (Block (remove buf refs) q) (sym (elsewhere q ne ne'))
            (Block-removed refs buf r q (memory q) ne ne' (counts q) (v.each q))
    ]
  ]

  free_left : Valid memory' (remove buf refs)
  free_left = record {
    held =
        held_left (remove buf refs) (All-remove (Held memory) buf refs v.held)
          (Apart-remove buf refs v.distinct) (λ q. omega arith);
    each = each_left;
    distinct = Distinct-remove buf refs v.distinct;
    few = omega (arith, v.few, length-remove buf refs);
  }

pub free-Valid :
    (buf : ℕ) (memory : Memory) (refs : Refs)
    → Valid memory refs
    → holds buf refs ≡ true
    → Gives (remove buf refs) (free buf memory)
unfolding free
free-Valid buf memory refs v is =
    let (b, there, rb, at_root, own, fits) = held-blocks memory buf refs v.held is in
    let one : Held memory (buf, b.root) =
      subst (λ o. Fits (shape o) (shape (memory b.root)) b.root) (sym there)
        (subst (λ o. Fits (some (b.root, b.length)) (shape o) b.root) (sym at_root)
          (refl, own, fits)) in
    let counts = λ (q : ℕ). count-remove memory q buf b.root refs v.held is one in
    rw there (elim (Bool-cases (b.root == buf)) [
      | inl e ↦ (
        update memory buf (dropped b),
        rw (e, there) refl,
        free_left buf buf memory (update memory buf (dropped b)) refs v is b there
            (==→eq b.root buf e)
            (λ q.
              counts q
              ∙ ap (λ i. (if i == q then 1 else 0) + count q (remove buf refs))
                  (==→eq b.root buf e))
            (update_at memory buf (dropped b)) (λ q ne _. update_other memory buf (dropped b) q ne)
            (λ ne. absurd (==→ne buf buf ne refl)),
      )
      | inr e ↦ (
        update (update memory b.root (dropped rb)) buf none,
        rw (e, at_root) refl,
        free_left buf b.root memory (update (update memory b.root (dropped rb)) buf none) refs v is
            rb at_root own counts
            (update_other (update memory b.root (dropped rb)) buf none b.root e
              ∙ update_at memory b.root (dropped rb))
            (λ q ne ne'.
              update_other (update memory b.root (dropped rb)) buf none q ne'
              ∙ update_other memory b.root (dropped rb) q ne)
            (λ ne. (
              update_at (update memory b.root (dropped rb)) buf none,
              ((subst (Block refs buf) there (v.each buf)).1 e).1,
            )),
      )
    ])
