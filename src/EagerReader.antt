-- ===== src/EagerReader.antt =====
-- src/eager_reader.c: one thread reads a descriptor into buffers, another copies bytes out of them. Each
-- thread stands between two of its statements, and a step is one system call, one call of the queue or
-- one round of the copying loop; `none` is a call that blocks. `bytes_available` is the value of the
-- eventfd. `source` and `delivered` are the bytes read from the descriptor and copied to callers so far.
pub mod Window
pub mod Copy
pub mod Steps
pub mod Read
pub mod Free
mod Tests
use osi.Prelude.{
  ℕ, zero, suc, ◌+◌, ◌-◌, Bool, true, false, Option, none, some, List, [], ◌∷◌, ◌++◌, ◌==◌, ◌≡◌,
  ltb, leb, if◌then◌else◌, length, take, drop,
}

-- `data_buffer_t`
pub record DataBuffer : Type 0 where
  pub length : ℕ
  pub offset : ℕ
  pub bytes : List ℕ

-- Where the reading thread is in `inbound_data_waiting`: at its start, before the call of
-- `fixed_queue_enqueue`, or before that of `eventfd_write`.
pub data Inbound : Type 0 where
  waiting : Inbound
  enqueueing : DataBuffer → Inbound
  counting : ℕ → Inbound

-- Where the other thread is in `eager_reader_read`: outside, after a call that returned a number of
-- bytes, or at the test of the loop.
pub data Outbound : Type 0 where
  returned : ℕ → Outbound
  copying : (max_size bytes_available bytes_consumed : ℕ) → Outbound

pub record EagerReader : Type 0 where
  pub bytes_available : ℕ
  pub capacity : ℕ
  pub buffers : List DataBuffer
  pub current_buffer : Option DataBuffer
  pub inbound : Inbound
  pub outbound : Outbound
  pub source : List ℕ
  pub delivered : List ℕ

-- `eager_reader_new`, where nothing fails.
abbrev pub new : (max_buffer_count : ℕ) → EagerReader
new max_buffer_count = record {
  bytes_available = 0;
  capacity = max_buffer_count;
  buffers = [];
  current_buffer = none;
  inbound = waiting;
  outbound = returned 0;
  source = [];
  delivered = [];
}

-- `read` into a new buffer: `[]` when there is no memory, or nothing is read.
abbrev pub receive : List ℕ → EagerReader → EagerReader
receive [] r = r
receive (x ∷ xs) r = record r {
  inbound = enqueueing (record { length = length (x ∷ xs); offset = 0; bytes = x ∷ xs });
  source = r.source ++ (x ∷ xs);
}

abbrev pub inbound_from : List ℕ → EagerReader → Inbound → Option EagerReader
inbound_from bytes_read r waiting = some (receive bytes_read r)
inbound_from bytes_read r (enqueueing b) =
    if ltb (length r.buffers) r.capacity
    then some (record r { buffers = r.buffers ++ (b ∷ []); inbound = counting b.length })
    else none
inbound_from bytes_read r (counting n) =
    some (record r { bytes_available = r.bytes_available + n; inbound = waiting })

-- A step of `inbound_data_waiting`; `bytes_read` is what `read` gives.
unfoldable pub inbound_step : (bytes_read : List ℕ) → EagerReader → Option EagerReader
inbound_step bytes_read r = inbound_from bytes_read r r.inbound

abbrev pub bytes_to_copy : DataBuffer → ℕ → ℕ
bytes_to_copy b left = if ltb left (b.length - b.offset) then left else b.length - b.offset

-- A round of the loop on the current buffer, which is freed when it is used up.
abbrev pub copy_from : EagerReader → (max_size available consumed : ℕ) → DataBuffer → EagerReader
copy_from r max_size available consumed b =
    let n = bytes_to_copy b (max_size - consumed) in
    record r {
      current_buffer =
          if leb b.length (b.offset + n) then none else some (record b { offset = b.offset + n });
      outbound = copying max_size available (consumed + n);
      delivered = r.delivered ++ take n (drop b.offset b.bytes);
    }

-- `fixed_queue_dequeue` of a buffer, and the round on it.
abbrev pub dequeue_and_copy :
    EagerReader → (max_size available consumed : ℕ) → List DataBuffer → Option EagerReader
dequeue_and_copy r max_size available consumed [] = none
dequeue_and_copy r max_size available consumed (b ∷ rest) =
    some (copy_from (record r { buffers = rest }) max_size available consumed b)

abbrev pub copy_current :
    EagerReader → (max_size available consumed : ℕ) → Option DataBuffer → Option EagerReader
copy_current r max_size available consumed none =
    dequeue_and_copy r max_size available consumed r.buffers
copy_current r max_size available consumed (some b) =
    some (copy_from r max_size available consumed b)

abbrev pub outbound_from : ℕ → EagerReader → Outbound → Option EagerReader
outbound_from max_size r (returned _) =
    if r.bytes_available == 0
    then some (record r { outbound = returned 0 })
    else some (record r {
      bytes_available = 0;
      outbound =
          copying (if ltb r.bytes_available max_size then r.bytes_available else max_size)
            r.bytes_available 0;
    })
outbound_from _ r (copying max_size available consumed) =
    if ltb consumed max_size
    then copy_current r max_size available consumed r.current_buffer
    else some (record r {
      bytes_available = r.bytes_available + (available - consumed);
      outbound = returned consumed;
    })

-- A step of `eager_reader_read`; `max_size` is the argument of a call that begins.
unfoldable pub outbound_step : (max_size : ℕ) → EagerReader → Option EagerReader
outbound_step max_size r = outbound_from max_size r r.outbound

-- `eager_reader_read` with no step of the other thread in between: its steps until it returns. A round
-- copies a byte or more, so that `max_size` rounds are enough. `none` is a call that blocks, or fuel that
-- runs out.
abbrev pub continue : (EagerReader → Option EagerReader) → Option EagerReader → Option EagerReader
continue k none = none
continue k (some r) = k r

abbrev pub loop_from :
    (EagerReader → Option EagerReader) → EagerReader → Outbound → Option EagerReader
loop_from k r (returned _) = some r
loop_from k r (copying _ _ _) = continue k (outbound_step 0 r)

unfoldable pub read_loop : ℕ → EagerReader → Option EagerReader
read_loop zero r = none
read_loop (suc fuel) r = loop_from (read_loop fuel) r r.outbound

unfoldable pub read : (max_size : ℕ) → EagerReader → Option EagerReader
read max_size r = continue (read_loop (suc (suc max_size))) (outbound_step max_size r)

-- The rest of a call of `inbound_data_waiting` that is under way, while no other thread takes buffers.
abbrev pub then_step : Option EagerReader → Option EagerReader
then_step none = none
then_step (some r) = inbound_step [] r

abbrev pub finish_from : EagerReader → Inbound → Option EagerReader
finish_from r waiting = some r
finish_from r (enqueueing b) = then_step (inbound_from [] r (enqueueing b))
finish_from r (counting n) = inbound_from [] r (counting n)

abbrev pub with_current : Option DataBuffer → List DataBuffer → List DataBuffer
with_current none bs = bs
with_current (some b) bs = b ∷ bs

abbrev pub freed_buffers : Option EagerReader → Option (List DataBuffer)
freed_buffers none = none
freed_buffers (some r) = some (with_current r.current_buffer r.buffers)

-- `eager_reader_free` on a reader whose thread runs: `reactor_unregister` waits for the callback, which
-- holds the lock of the object, and keeps it from being called again. The result is the buffers that are
-- freed; `none` is a call that waits for ever.
unfoldable pub free : EagerReader → Option (List DataBuffer)
free r = freed_buffers (finish_from r r.inbound)

-- The steps of the two threads in any order.
pub data Step : EagerReader → EagerReader → Type 0 where
  inbound_moves :
      (bytes_read : List ℕ) (r r' : EagerReader) → inbound_step bytes_read r ≡ some r' → Step r r'
  outbound_moves :
      (max_size : ℕ) (r r' : EagerReader) → outbound_step max_size r ≡ some r' → Step r r'

pub data Reaches : EagerReader → EagerReader → Type 0 where
  stays : (r : EagerReader) → Reaches r r
  goes : (r r1 r2 : EagerReader) → Reaches r r1 → Step r1 r2 → Reaches r r2
