-- ===== src/RingBuffer/Insert.antt =====
-- `ringbuffer_insert` appends to the bytes held.
use osi.Prelude.{
  ℕ, suc, ◌+◌, ◌-◌, ◌≤◌, ◌<◌, ◌≡◌, refl, ap, ◌∙◌, sym, List, [], ◌∷◌, ◌++◌, min, if◌then◌else◌,
  length, set, take, length-set, length-take, take-all, append-nil, Bool-cases, inl, inr, ltb,
  ltb→le, append_assoc, arith,
}
use osi.RingBuffer.{RingBuffer, size, advance, insert_loop, insert}
use osi.RingBuffer.Window.{window, wrap, window-set, contents, IsValid, head_limit}

-- What the loop leaves behind, started with `n` bytes in the ring.
record Inserted (rb : RingBuffer) (n : ℕ) (xs : List ℕ) (out : RingBuffer) : Type 0 where
  total_same : out.total ≡ rb.total
  available_same : out.available ≡ rb.available
  head_same : out.head ≡ rb.head
  storage : length out.base ≡ rb.total
  tail_behind : out.tail ≡ wrap rb.total (rb.head + (n + length xs))
  bytes : window out.base rb.total rb.head (n + length xs) ≡ window rb.base rb.total rb.head n ++ xs

-- One round's step of `tail`.
advance-wrap :
    (total i j : ℕ) → j ≡ i + 1 → j < total + total → advance total (wrap total i) ≡ wrap total j
advance-wrap total i j e p = ground arith

-- The ring after one round.
abbrev stored : RingBuffer → ℕ → RingBuffer
stored rb x = record rb { base = set rb.base rb.tail x; tail = advance rb.total rb.tail }

Inserted-cons :
    (rb : RingBuffer) (n x : ℕ) (xs : List ℕ) (out : RingBuffer)
    → window (set rb.base rb.tail x) rb.total rb.head (suc n)
      ≡ window rb.base rb.total rb.head n ++ (x ∷ [])
    → Inserted (stored rb x) (suc n) xs out
    → Inserted rb n (x ∷ xs) out
Inserted-cons rb n x xs out one rest = record {
  total_same = rest.total_same;
  available_same = rest.available_same;
  head_same = rest.head_same;
  storage = rest.storage;
  tail_behind = rest.tail_behind ∙ ap (λ (i : ℕ). wrap rb.total (rb.head + i)) (omega arith);
  bytes =
      ap (window out.base rb.total rb.head) (omega arith)
      ∙ (rest.bytes
          ∙ (ap (λ (w : List ℕ). w ++ xs) one
              ∙ append_assoc (window rb.base rb.total rb.head n) (x ∷ []) xs));
}

insert_loop-Inserted :
    (xs : List ℕ) (rb : RingBuffer) (n : ℕ)
    → length rb.base ≡ rb.total
    → rb.head < head_limit rb.total
    → n + length xs ≤ rb.total
    → rb.tail ≡ wrap rb.total (rb.head + n)
    → Inserted rb n xs (insert_loop rb xs)
unfolding insert_loop
insert_loop-Inserted [] rb n st hd fit tl = record {
  total_same = refl;
  available_same = refl;
  head_same = refl;
  storage = st;
  tail_behind = tl ∙ ap (λ (i : ℕ). wrap rb.total (rb.head + i)) (omega arith);
  bytes = ap (window rb.base rb.total rb.head) (omega arith) ∙ sym (append-nil _);
}
insert_loop-Inserted (x ∷ xs) rb n st hd fit tl =
    let small : rb.head < rb.total = ground arith in
    let one = window-set rb.base rb.total x n rb.head st (omega arith) (omega arith) in
    Inserted-cons rb n x xs _
      (ap (λ (i : ℕ). window (set rb.base i x) rb.total rb.head (suc n)) tl ∙ one)
      (insert_loop-Inserted xs (stored rb x) (suc n) (length-set rb.base rb.tail x ∙ st) hd
        (omega arith)
        (ap (advance rb.total) tl
          ∙ advance-wrap rb.total (rb.head + n) (rb.head + suc n) (omega arith) (omega arith)))

limit : (n k : ℕ) → (if ltb n k then n else k) ≡ min k n
limit n k = ground arith

take-limit :
    (n : ℕ) (xs : List ℕ) → take (if ltb n (length xs) then n else length xs) xs ≡ take n xs
take-limit n xs = elim (Bool-cases (ltb n (length xs))) [
  | inl short ↦ rw short
  | inr long ↦ rw long (take-all (length xs) n xs (omega arith) (ltb→le _ _ long))
]

-- From the loop's result to the whole call's.
Inserted-IsValid :
    (rb out : RingBuffer) (n : ℕ) (xs : List ℕ)
    → IsValid rb
    → n ≡ length xs
    → n ≤ rb.available
    → Inserted rb (size rb) xs out
    → let rb' = record out { available = out.available - n } in
      (contents rb' ≡ contents rb ++ xs) × (rb'.total ≡ rb.total) × IsValid rb'
Inserted-IsValid rb out n xs v e le i =
    let held : out.total - (out.available - n) ≡ size rb + length xs =
      omega (arith, i.total_same, i.available_same) in
    let room : out.head < head_limit out.total = rw (i.head_same, i.total_same) v.head_in in
    (
      ground arith,
      i.total_same,
      record {
        storage = i.storage ∙ sym i.total_same;
        fits = omega (arith, i.total_same, i.available_same);
        head_in = room;
        tail_behind = rw (held, i.head_same, i.total_same) i.tail_behind;
      },
    )

-- `ringbuffer_insert` takes as many bytes as are available, says how many, appends exactly those,
-- in order, to the bytes held, and keeps the invariant and the total.
pub insert-append :
    (rb : RingBuffer) (p : List ℕ)
    → IsValid rb
    → let (n, rb') = insert rb p in
      (n ≡ min (length p) rb.available)
      × (contents rb' ≡ contents rb ++ take rb.available p)
      × (rb'.total ≡ rb.total)
      × IsValid rb'
unfolding insert
insert-append rb p v =
    let len : ℕ = if ltb rb.available (length p) then rb.available else length p in
    let small : len ≤ rb.available = ground arith in
    let (bytes, total, valid) =
      Inserted-IsValid rb (insert_loop rb (take len p)) len (take len p) v
        (omega (arith, length-take {0} len p, limit rb.available (length p))) small
        (insert_loop-Inserted (take len p) rb (size rb) v.storage v.head_in
          (omega (arith, length-take {0} len p, v.fits)) v.tail_behind) in
    (
      ground arith,
      bytes ∙ ap (λ (t : List ℕ). contents rb ++ t) (take-limit rb.available p),
      total,
      valid,
    )
