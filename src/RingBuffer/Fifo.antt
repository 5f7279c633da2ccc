-- ===== src/RingBuffer/Fifo.antt =====
-- A ring behaves as a FIFO of bytes of bounded length: no sequence of calls tells them apart.
use osi.Prelude.{
  ℕ, zero, suc, ◌-◌, ◌≡◌, refl, ap, ap₂, ◌∙◌, List, [], ◌∷◌, ◌++◌, min, length, take, drop, arith,
  length-replicate, length-take,
}
use osi.RingBuffer.{RingBuffer, init, size, insert, delete, peek, pop}
use osi.RingBuffer.Window.{window_none, length-window, contents, IsValid}
use osi.RingBuffer.Insert.{insert-append}
use osi.RingBuffer.Remove.{delete-drop, peek-take, pop-take-drop}

pub data Op : Type 0 where
  put : List ℕ → Op
  discard : ℕ → Op
  look : ℕ → Op
  get : ℕ → Op

-- What a call returns: a count, or bytes.
pub data Reply : Type 0 where
  count : ℕ → Reply
  bytes : List ℕ → Reply

-- The calls on the ring.
pub run : RingBuffer → List Op → List Reply
run rb [] = []
run rb (put p ∷ ops) = let (n, rb') = insert rb p in count n ∷ run rb' ops
run rb (discard n ∷ ops) = let (k, rb') = delete rb n in count k ∷ run rb' ops
run rb (look n ∷ ops) = bytes (peek rb n) ∷ run rb ops
run rb (get n ∷ ops) = let (p, rb') = pop rb n in bytes p ∷ run rb' ops

-- The calls on a list of at most `total` bytes, oldest first.
pub run_fifo : ℕ → List ℕ → List Op → List Reply
run_fifo total q [] = []
run_fifo total q (put p ∷ ops) =
    count (min (length p) (total - length q)) ∷ run_fifo total (q ++ take (total - length q) p) ops
run_fifo total q (discard n ∷ ops) = count (min n (length q)) ∷ run_fifo total (drop n q) ops
run_fifo total q (look n ∷ ops) = bytes (take n q) ∷ run_fifo total q ops
run_fifo total q (get n ∷ ops) = bytes (take n q) ∷ run_fifo total (drop n q) ops

-- A new ring is valid and holds nothing.
pub init-IsValid : (n : ℕ) → IsValid (init n) × (contents (init n) ≡ [])
unfolding init
init-IsValid n = (
  record {
    storage = length-replicate n 0;
    fits = omega arith;
    head_in = ground arith;
    tail_behind = ground arith;
  },
  window_none _ n 0 (n - n) (omega arith),
)

drop-min : (n : ℕ) (xs : List ℕ) → drop (min n (length xs)) xs ≡ drop n xs
drop-min zero xs = ap (λ (k : ℕ). drop k xs) {y = 0} (omega arith)
drop-min (suc n) [] = ap (λ (k : ℕ). drop k []) {y = 0} (omega arith)
drop-min (suc n) (x ∷ xs) =
    ap (λ (k : ℕ). drop k (x ∷ xs)) {y = suc (min n (length xs))} (omega arith) ∙ drop-min n xs

space : (rb : RingBuffer) → IsValid rb → rb.total - length (contents rb) ≡ rb.available
space rb v = omega (arith, length-window rb.base rb.total rb.head (size rb))

-- On every sequence of calls a valid ring gives the replies that the bounded FIFO of its bytes gives.
pub run-fifo :
    (ops : List Op) (rb : RingBuffer)
    → IsValid rb
    → run rb ops ≡ run_fifo rb.total (contents rb) ops
unfolding run run_fifo
run-fifo [] rb v = refl
run-fifo (put p ∷ ops) rb v =
    let (n, held, total, valid) = insert-append rb p v in
    rw (space rb v) (
      ap₂ ◌∷◌ (ap count n) (
        run-fifo ops (insert rb p).1 valid
        ∙ ap₂ (λ (t : ℕ) (q : List ℕ). run_fifo t q ops) total held))
run-fifo (discard n ∷ ops) rb v =
    let (k, held, total, valid) = delete-drop rb n v in
    let left = held ∙ (ap (λ (i : ℕ). drop i (contents rb)) k ∙ drop-min n (contents rb)) in
    ap₂ ◌∷◌ (ap count k) (
      run-fifo ops (delete rb n).1 valid
      ∙ ap₂ (λ (t : ℕ) (q : List ℕ). run_fifo t q ops) total left)
run-fifo (look n ∷ ops) rb v = ap₂ ◌∷◌ (ap bytes (peek-take rb n v)) (run-fifo ops rb v)
run-fifo (get n ∷ ops) rb v =
    let (copied, held, total, valid) = pop-take-drop rb n v in
    let taken = ap (length {0}) copied ∙ length-take n (contents rb) in
    let left = held ∙ (ap (λ (i : ℕ). drop i (contents rb)) taken ∙ drop-min n (contents rb)) in
    ap₂ ◌∷◌ (ap bytes copied)
      (run-fifo ops (pop rb n).1 valid ∙ ap₂ (λ (t : ℕ) (q : List ℕ). run_fifo t q ops) total left)
