-- ===== src/Array.antt =====
-- src/array.c: an array that grows. The storage behind `data` is the list `storage`, one item per
-- element slot (the `element_size` bytes copied there), so a byte offset is an index times
-- `element_size`. `is_internal` is the test `data == internal_storage`. The answers of `realloc`
-- are an argument. The products with `element_size` are taken not to wrap.
pub mod Append
mod Tests
use osi.Prelude.{
  ℕ, zero, ◌+◌, ◌/◌, ◌&&◌, Bool, true, false, List, Option, none, some, ltb, ◌==◌, if◌then◌else◌,
  length, set, get_elem?, take, drop, replicate, ◌++◌,
}

abbrev pub internal_elements : ℕ
internal_elements = 16

pub record Array {ℓ} (A : Type ℓ) : Type ℓ where
  pub element_size : ℕ
  pub length : ℕ
  pub capacity : ℕ
  pub is_internal : Bool
  pub storage : List A

module _ {ℓ} {A : Type ℓ} where
  -- `blank` is the element whose bytes are all 0, as `osi_calloc` leaves them.
  unfoldable pub new : (element_size : ℕ) (blank : A) → Array A
  new element_size blank = record {
    element_size = element_size;
    length = 0;
    capacity = internal_elements;
    is_internal = true;
    storage = replicate internal_elements blank;
  }

  -- `array_at`: `none` where `assert(index < array->length)` fails.
  unfoldable pub array_at : Array A → ℕ → Option A
  array_at array index = if ltb index array.length then get_elem? array.storage index else none

  unfoldable pub array_ptr : Array A → Option A
  unfolding array_at
  array_ptr array = array_at array 0

  -- What `realloc` makes of the old block: its content, then bytes that nothing wrote. `rest` is
  -- what they happen to be. A NULL block, where the content is internal, starts with no content,
  -- and `memcpy` puts the first `length` elements there.
  abbrev pub reallocated : Array A → (new_capacity : ℕ) (rest : List A) → List A
  reallocated array new_capacity rest = take new_capacity (
      if array.is_internal
      then take array.length array.storage ++ drop array.length rest
      else array.storage ++ drop array.capacity rest)

  -- `grow`: `realloc` answers NULL, or the content of the bytes of a fresh block of the capacity
  -- asked for.
  unfoldable pub grow : Option (ℕ → List A) → Array A → Bool × Array A
  grow none array = (false, array)
  grow (some fresh) array =
      let new_capacity = array.capacity + array.capacity / 2 in
      (
        true,
        record array {
          is_internal = false;
          capacity = new_capacity;
          storage = reallocated array new_capacity (fresh new_capacity);
        },
      )

  abbrev pub append_to : A → Bool × Array A → Bool × Array A
  append_to value (false, array) = (false, array)
  append_to value (true, array) = (
    true,
    record array { length = array.length + 1; storage = set array.storage array.length value },
  )

  -- `array_append_ptr`; the call of `grow` is made when the array is full.
  unfoldable pub append_ptr : Option (ℕ → List A) → Array A → A → Bool × Array A
  append_ptr realloc array value =
      append_to value (if array.length == array.capacity then grow realloc array else (true, array))
