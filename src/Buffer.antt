-- ===== src/Buffer.antt =====
-- src/buffer.c: buffers that share their bytes. A pointer is a number, and `buffer` gives the blocks that
-- are allocated. A block is a root, whose `root` is itself, or a leaf, which has no bytes of its own.
-- `none` is a failed assertion, or the use of a block that is not allocated.
pub mod Counts
pub mod Calls
pub mod Free
pub mod Reach
pub mod View
mod Tests
use osi.Prelude.{
  ℕ, zero, suc, ◌+◌, ◌-◌, ◌%◌, ◌^◌, Bool, true, false, ◌&&◌, Option, none, some, List, [], ◌∷◌,
  ◌==◌, ltb, leb, if◌then◌else◌, replicate, drop, update,
}

-- `buffer_t`; the bytes of `data`.
pub record Buffer : Type 0 where
  pub root : ℕ
  pub refcount : ℕ
  pub length : ℕ
  pub bytes : List ℕ

abbrev pub Memory : Type 0
Memory = ℕ → Option Buffer

-- `SIZE_MAX`, and the wrap of a `size_t`.
abbrev pub size_max : ℕ
size_max = 2 ^ 64 - 1

abbrev pub increment : ℕ → ℕ
increment n = (n + 1) % 2 ^ 64

abbrev pub decrement : ℕ → ℕ
decrement n = if n == 0 then size_max else n - 1

-- `buffer_new`; `p` is what `osi_calloc` returns.
unfoldable pub new : (p size : ℕ) → Memory → Option Memory
new p size memory =
    if ltb 0 size
    then some (
        update memory p
          (some (record { root = p; refcount = 1; length = size; bytes = replicate size 0 })))
    else none

-- The count of the root, when there is one.
abbrev pub count_ref : Memory → ℕ → Option Buffer → Option Memory
count_ref memory root none = none
count_ref memory root (some r) =
    some (update memory root (some (record r { refcount = increment r.refcount })))

abbrev pub slice_from : (p slice_size : ℕ) → Memory → Option Buffer → Option Memory
slice_from p slice_size memory none = none
slice_from p slice_size memory (some buf) =
    if ltb 0 slice_size && leb slice_size buf.length
    then (let memory' = update memory p (
          some
            (record { root = buf.root; refcount = size_max; length = slice_size; bytes = [] })) in
        count_ref memory' buf.root (memory' buf.root))
    else none

-- `buffer_new_slice`
unfoldable pub new_slice : (p buf slice_size : ℕ) → Memory → Option Memory
new_slice p buf slice_size memory = slice_from p slice_size memory (memory buf)

abbrev pub length_of : Option Buffer → ℕ
length_of none = 0
length_of (some buf) = buf.length

-- `buffer_new_ref`
unfoldable pub new_ref : (p buf : ℕ) → Memory → Option Memory
unfolding new_slice
new_ref p buf memory = new_slice p buf (length_of (memory buf)) memory

-- `--refcount` of a root, and its release at 0.
abbrev pub drop_ref : Memory → ℕ → Option Buffer → Option Memory
drop_ref memory root none = none
drop_ref memory root (some r) = some (
    update memory root (
      if decrement r.refcount == 0
      then none
      else some (record r { refcount = decrement r.refcount })))

abbrev pub then_free : ℕ → Option Memory → Option Memory
then_free buf none = none
then_free buf (some memory) = some (update memory buf none)

abbrev pub free_from : ℕ → Memory → Option Buffer → Option Memory
free_from buffer memory none = none
free_from buffer memory (some b) =
    if b.root == buffer
    then drop_ref memory buffer (memory buffer)
    else then_free buffer (drop_ref memory b.root (memory b.root))

-- `buffer_free` of a buffer that is not NULL.
unfoldable pub free : (buffer : ℕ) → Memory → Option Memory
free buffer memory = free_from buffer memory (memory buffer)

-- `buffer_length`
unfoldable pub buffer_length : ℕ → Memory → Option ℕ
buffer_length buf memory = elim (memory buf) [ none ↦ none | some b ↦ some b.length ]

abbrev pub bytes_from : ℕ → Option Buffer → Option (List ℕ)
bytes_from length none = none
bytes_from length (some r) = some (drop (r.length - length) r.bytes)

abbrev pub ptr_from : Memory → Option Buffer → Option (List ℕ)
ptr_from memory none = none
ptr_from memory (some b) = bytes_from b.length (memory b.root)

-- `buffer_ptr`: the bytes from there to the end of the root.
unfoldable pub ptr : ℕ → Memory → Option (List ℕ)
ptr buf memory = ptr_from memory (memory buf)
