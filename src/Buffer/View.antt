-- ===== src/Buffer/View.antt =====
-- The bytes that a slice has.
use osi.Prelude.{
  ℕ, ◌-◌, ◌≤◌, ◌<◌, ◌≡◌, ap, sym, ◌∙◌, subst, true, false, Option, none, some, List, [], length,
  drop, drop-length_le, drop-drop, arith, update, update_other, update_at, ◌==◌, ne→==, ==-self,
  ==→ne, Bool-cases, inl, inr, ==→eq, lt→ltb, le→leb,
}
use osi.Buffer.{
  Buffer, Memory, new_slice, count_ref, ptr, ptr_from, bytes_from, length_of, size_max, increment,
}
use osi.Buffer.Counts.{Refs, holds, Block, Valid}
use osi.Buffer.Calls.{held-blocks}

drop-tail :
    (N L n : ℕ) (xs : List ℕ)
    → length xs ≡ N
    → n ≤ L
    → L ≤ N
    → drop (length (drop (N - L) xs) - n) (drop (N - L) xs) ≡ drop (N - n) xs
drop-tail N L n xs e le le' =
    drop-drop (N - L) (length (drop (N - L) xs) - n) (N - n) xs
      (omega (arith, drop-length_le (N - L) xs))

-- `buffer_ptr` in the memory that a call gives.
abbrev pub ptr_in : ℕ → Option Memory → Option (List ℕ)
ptr_in q none = none
ptr_in q (some memory) = ptr q memory

abbrev pub last : ℕ → Option (List ℕ) → Option (List ℕ)
last n none = none
last n (some bytes) = some (drop (length bytes - n) bytes)

-- `buffer_new_slice` on a buffer that is held: the new buffer has the last bytes of the old one, as many
-- as were asked for, and the old one has what it had. The new block was not in use, and the size is
-- positive and no more than the length.
pub slice-last :
    (p buf n : ℕ) (memory : Memory) (refs : Refs)
    → Valid memory refs
    → memory p ≡ none
    → holds buf refs ≡ true
    → 0 < n
    → n ≤ length_of (memory buf)
    → (ptr_in p (new_slice p buf n memory) ≡ last n (ptr buf memory))
      × (ptr_in buf (new_slice p buf n memory) ≡ ptr buf memory)
unfolding new_slice ptr
slice-last p buf n memory refs v free is pos le =
    let (b, at, rb, at_root, own, fits) = held-blocks memory buf refs v.held is in
    let leaf : Buffer = record { root = b.root; refcount = size_max; length = n; bytes = [] } in
    let root : Buffer = record rb { refcount = increment rb.refcount } in
    let memory1 : Memory = update memory p (some leaf) in
    let memory2 : Memory = update memory1 b.root (some root) in
    let root_p : (b.root == p) ≡ false =
      ne→== b.root p
        (λ e. let bad : none ≡ some rb = sym free ∙ (ap memory (sym e) ∙ at_root) in cc) in
    let p_root : (p == b.root) ≡ false = ne→== p b.root (λ e. ==→ne b.root p root_p (sym e)) in
    let le_b : n ≤ b.length = subst (λ o. n ≤ length_of o) at le in
    let made : new_slice p buf n memory ≡ some memory2 =
      rw (at, lt→ltb 0 n pos, le→leb n b.length le_b)
        (ap (count_ref memory1 b.root)
          (update_other memory p (some leaf) b.root root_p ∙ at_root)) in
    let full : length rb.bytes ≡ rb.length =
      ((subst (Block refs b.root) at_root (v.each b.root)).0
        (subst (λ i. (i == b.root) ≡ true) (sym own) (==-self b.root))).2 in
    let was : ptr buf memory ≡ some (drop (rb.length - b.length) rb.bytes) =
      ap (ptr_from memory) at ∙ ap (bytes_from b.length) at_root in
    let new_bytes : ptr p memory2 ≡ some (drop (rb.length - n) rb.bytes) =
      ap (ptr_from memory2)
        (update_other memory1 b.root (some root) p p_root ∙ update_at memory p (some leaf))
      ∙ ap (bytes_from n) (update_at memory1 b.root (some root)) in
    let p_buf : (buf == p) ≡ false =
      ne→== buf p (λ e. let bad : none ≡ some b = sym free ∙ (ap memory (sym e) ∙ at) in cc) in
    let old : ptr buf memory2 ≡ some (drop (rb.length - b.length) rb.bytes) =
      elim (Bool-cases (buf == b.root)) [
        | inl e ↦
            let is_rb : some rb ≡ some b =
              sym at_root ∙ (ap memory (sym (==→eq buf b.root e)) ∙ at) in
            ap (ptr_from memory2)
              (ap memory2 (==→eq buf b.root e) ∙ update_at memory1 b.root (some root))
            ∙ (ap (λ i. bytes_from rb.length (memory2 i)) own
                ∙ (ap (bytes_from rb.length) (update_at memory1 b.root (some root))
                    ∙ ap (λ k. some (drop (rb.length - k) rb.bytes)) (ap length_of is_rb)))
        | inr e ↦
            ap (ptr_from memory2) (
              update_other memory1 b.root (some root) buf e
              ∙ (update_other memory p (some leaf) buf p_buf ∙ at))
            ∙ ap (bytes_from b.length) (update_at memory1 b.root (some root))
      ] in
    (
      ap (ptr_in p) made
          ∙ (new_bytes
              ∙ sym (
                  ap (last n) was
                  ∙ ap (λ xs. some xs) (drop-tail rb.length b.length n rb.bytes full le_b fits))),
      ap (ptr_in buf) made ∙ (old ∙ sym was),
    )
