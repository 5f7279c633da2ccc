-- ===== src/RingBuffer/Remove.antt =====
-- `ringbuffer_delete`, `ringbuffer_peek` and `ringbuffer_pop` work at the old end of the bytes held.
use osi.Prelude.{
  ℕ, zero, suc, ◌+◌, ◌-◌, ◌≤◌, ◌<◌, ◌≡◌, refl, ap, ◌∙◌, sym, ◌∷◌, min, if◌then◌else◌, length, take,
  drop, length-take, lt→ltb, ltb, arith, get_or, false, ◌&&◌,
}
use native.Mathlib.Decide.{dec_lt}
use osi.RingBuffer.{RingBuffer, size, advance, release, delete, peek_loop, peek, pop}
use osi.RingBuffer.Window.{
  window, length-window, drop-window, take-window, window_of_pos, window_none, window-wrap, wrap,
  contents, IsValid, head_limit,
}

-- Releasing `n` bytes held drops them, and keeps the invariant.
release-drop :
    (rb : RingBuffer) (n : ℕ)
    → IsValid rb
    → n ≤ size rb
    → (contents (release rb n) ≡ drop n (contents rb)) × IsValid (release rb n)
release-drop rb n v le =
    let held : size (release rb n) ≡ size rb - n = omega (arith, v.fits) in
    let fits : rb.head + n + (size rb - n) ≤ rb.total + rb.total = ground arith in
    (
      ap (window rb.base rb.total (release rb n).head) held
          ∙ (window-wrap rb.base rb.total (rb.head + n) (size rb - n) fits
              ∙ sym (drop-window rb.base rb.total n rb.head (size rb) le)),
      record {
        storage = v.storage;
        fits = omega (arith, v.fits);
        head_in = ground arith;
        tail_behind = ground arith;
      },
    )

-- `ringbuffer_delete` drops the oldest bytes, as many as asked for or all that are held, says how
-- many, and keeps the invariant and the total.
pub delete-drop :
    (rb : RingBuffer) (n : ℕ)
    → IsValid rb
    → let (k, rb') = delete rb n in
      (k ≡ min n (length (contents rb)))
      × (contents rb' ≡ drop k (contents rb))
      × (rb'.total ≡ rb.total)
      × IsValid rb'
unfolding delete
delete-drop rb n v =
    let k : ℕ = if ltb (size rb) n then size rb else n in
    let (bytes, valid) = release-drop rb k v (ground arith) in
    (ground (arith, length-window rb.base rb.total rb.head (size rb)), bytes, refl, valid)

-- `b` after one more byte.
advance-wrap-suc :
    (total i : ℕ) → suc i < total + total → advance total (wrap total i) ≡ wrap total (suc i)
advance-wrap-suc total i p = ground arith

-- What is left to copy after `copied` bytes, with the read offset `b` behind them.
peek_loop-window :
    (fuel n copied i : ℕ) (rb : RingBuffer)
    → i ≡ rb.head + copied
    → rb.head < head_limit rb.total
    → n ≤ copied + fuel
    → peek_loop fuel n copied (wrap rb.total i) rb
      ≡ window rb.base rb.total i (min n (size rb) - copied)
unfolding peek_loop
peek_loop-window zero n copied i rb e hd enough =
    sym (window_none rb.base rb.total i (min n (size rb) - copied) (omega arith))
peek_loop-window (suc fuel) n copied i rb e hd enough = elim (dec_lt copied (min n (size rb))) [
  | yes more ↦
      rw (lt→ltb copied n (omega arith), lt→ltb copied (size rb) (omega arith))
        (ap (◌∷◌ (get_or rb.base (wrap rb.total i) 0)) (
            ap (λ (b : ℕ). peek_loop fuel n (copied + 1) b rb)
              (advance-wrap-suc rb.total i (ground arith))
            ∙ (peek_loop-window fuel n (copied + 1) (suc i) rb (omega arith) hd (omega arith)
                ∙ ap (window rb.base rb.total (suc i)) {y = min n (size rb) - suc copied}
                    (omega arith)))
          ∙ sym (
              window_of_pos rb.base rb.total i (min n (size rb) - copied)
                (min n (size rb) - suc copied) (omega arith)))
  | no done ↦
      let stop : (ltb copied n && ltb copied (size rb)) ≡ false = ground arith in
      rw stop (sym (window_none rb.base rb.total i (min n (size rb) - copied) (omega arith)))
]

-- `ringbuffer_peek` copies the oldest bytes, as many as asked for or all that are held.
pub peek-take : (rb : RingBuffer) (n : ℕ) → IsValid rb → peek rb n ≡ take n (contents rb)
unfolding peek
peek-take rb n v =
    ap (λ (b : ℕ). peek_loop n n 0 b rb) {y = wrap rb.total rb.head} (ground arith)
    ∙ (peek_loop-window n n 0 rb.head rb (omega arith) v.head_in (omega arith)
        ∙ (ap (window rb.base rb.total rb.head) {y = min n (size rb)} (omega arith)
            ∙ sym (take-window rb.base rb.total n rb.head (size rb))))

-- `ringbuffer_pop` copies what peek copies, drops it, and keeps the invariant and the total.
pub pop-take-drop :
    (rb : RingBuffer) (n : ℕ)
    → IsValid rb
    → let (copied, rb') = pop rb n in
      (copied ≡ take n (contents rb))
      × (contents rb' ≡ drop (length copied) (contents rb))
      × (rb'.total ≡ rb.total)
      × IsValid rb'
unfolding pop
pop-take-drop rb n v =
    let copied = peek-take rb n v in
    let small : length (peek rb n) ≤ size rb = omega (
      arith,
      ap (length {0}) copied,
      length-take {0} n (contents rb),
      length-window rb.base rb.total rb.head (size rb),
    ) in
    let (bytes, valid) = release-drop rb (length (peek rb n)) v small in
    (copied, bytes, refl, valid)
