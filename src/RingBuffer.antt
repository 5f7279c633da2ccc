-- ===== src/RingBuffer.antt =====
-- src/ringbuffer.c: a byte ring over a fixed storage. The pointers `base`, `head` and `tail` are
-- kept as offsets from the start of the storage, whose bytes are the list `base`. What the caller's
-- `p` points at is the list of the bytes passed or filled. `size_t` sums do not wrap here: a total
-- is the size of one allocation.
pub mod Window
pub mod Insert
pub mod Remove
pub mod Fifo
mod Tests
use osi.Prelude.{
  ℕ, zero, suc, ◌+◌, ◌-◌, ◌&&◌, List, [], ◌∷◌, ltb, leb, if◌then◌else◌, length, set, get_or, take,
  replicate,
}

pub record RingBuffer : Type 0 where
  pub total : ℕ
  pub available : ℕ
  pub base : List ℕ
  pub head : ℕ
  pub tail : ℕ

-- `osi_calloc` zeroes the storage, and aborts rather than return NULL.
pub init : ℕ → RingBuffer
init n = record { total = n; available = n; base = replicate n 0; head = 0; tail = 0 }

-- `ringbuffer_size`
abbrev pub size : RingBuffer → ℕ
size rb = rb.total - rb.available

-- One past an offset, back to `base` at the end of the storage.
abbrev pub advance : ℕ → ℕ → ℕ
advance total i = if leb total (i + 1) then 0 else i + 1

-- The loop of `ringbuffer_insert` over the bytes that it copies.
pub insert_loop : RingBuffer → List ℕ → RingBuffer
insert_loop rb [] = rb
insert_loop rb (x ∷ xs) =
    insert_loop (record rb { base = set rb.base rb.tail x; tail = advance rb.total rb.tail }) xs

pub insert : RingBuffer → List ℕ → ℕ × RingBuffer
unfolding insert_loop
insert rb p =
    let len = if ltb rb.available (length p) then rb.available else length p in
    let rb' = insert_loop rb (take len p) in (len, record rb' { available = rb'.available - len })

-- `head += n`, wrapped, and `n` bytes more available: the end of both delete and pop.
abbrev release : RingBuffer → ℕ → RingBuffer
release rb n = record rb {
  head = if leb rb.total (rb.head + n) then rb.head + n - rb.total else rb.head + n;
  available = rb.available + n;
}

pub delete : RingBuffer → ℕ → ℕ × RingBuffer
delete rb n = let len = if ltb (size rb) n then size rb else n in (len, release rb len)

-- `fuel` bounds the rounds; `n` is always enough, since `copied` counts up to it.
pub peek_loop : (fuel n copied b : ℕ) → RingBuffer → List ℕ
peek_loop zero n copied b rb = []
peek_loop (suc fuel) n copied b rb =
    let rest = get_or rb.base b 0 ∷ peek_loop fuel n (copied + 1) (advance rb.total b) rb in
    if ltb copied n && ltb copied (size rb) then rest else []

-- The bytes copied to `p`; their number is what the C function returns.
pub peek : RingBuffer → ℕ → List ℕ
unfolding peek_loop
peek rb n = peek_loop n n 0 rb.head rb

pub pop : RingBuffer → ℕ → List ℕ × RingBuffer
unfolding peek
pop rb n = let copied = peek rb n in (copied, release rb (length copied))
