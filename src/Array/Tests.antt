-- ===== src/Array/Tests.antt =====
-- An array whose internal storage is full, so that the next append grows it.
use osi.Prelude.{ℕ, refl, true, Option, some, List, replicate, arith, length-replicate}
use osi.Array.{Array, append_ptr}
use osi.Array.Append.{IsValid, Fits, Appends, append-Appends}

abbrev full : Array ℕ
full = record {
  element_size = 4;
  length = 16;
  capacity = 16;
  is_internal = true;
  storage = replicate 16 7;
}

full-IsValid : IsValid full
unfolding IsValid
full-IsValid = (omega arith, refl, omega arith)

-- A `realloc` whose fresh bytes read as 9.
abbrev realloc : Option (ℕ → List ℕ)
realloc = some (λ n. replicate n 9)

realloc-Fits : Fits realloc
unfolding Fits
realloc-Fits = λ n. length-replicate n 9

append-Appends_example : Appends full 5 (append_ptr realloc full 5)
append-Appends_example = append-Appends realloc full 5 realloc-Fits full-IsValid
