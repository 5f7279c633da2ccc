-- ===== src/Array/Append.antt =====
-- What `array_append_ptr` keeps and adds.
use osi.Prelude.{
  ◌⊎◌, ==-self, ne→==, le→ltb, ◌==◌, ◌≢◌, not, ◌&&◌, is_some, ℕ, zero, suc, ◌+◌, ◌≤◌, ◌<◌, ◌≡◌,
  refl, ◌∙◌, Bool, true, false, Bool-cases, List, [], ◌∷◌, Option, none, some, length, set,
  get_elem?, take, drop, ◌++◌, ==→eq, ==→ne, length-set, length-append, length-take, drop-length_le,
  lt→ltb, inl, inr, if◌then◌else◌, arith,
}
use osi.Array.{new, Array, array_at, grow, append_ptr, append_to, reallocated}

-- The length is within the capacity, which is that of the storage and at least 2.
unfoldable pub IsValid {ℓ} : {A : Type ℓ} → Array A → Type 0
IsValid array =
    (array.length ≤ array.capacity) × (length array.storage ≡ array.capacity) × (2 ≤ array.capacity)

compare-cases : (i j : ℕ) → (i ≡ j) ⊎ ((i < j) ⊎ (j < i))
compare-cases i j = omega arith

module _ {ℓ} {A : Type ℓ} where
  -- A block of `realloc` has the size asked for.
  unfoldable pub Fits : Option (ℕ → List A) → Type 0
  Fits none = Unit
  Fits (some fresh) = (n : ℕ) → length (fresh n) ≡ n

  -- What an append of a value makes of an array: on failure nothing changes, and on success the
  -- array is well formed, one longer, and answers the value behind the old elements.
  unfoldable pub Appends : Array A → A → Bool × Array A → Type ℓ
  Appends array value (false, array') = array' ≡ array
  Appends array value (true, array') =
      IsValid array'
      × (array'.length ≡ array.length + 1)
      × ((j : ℕ) → array_at array' j ≡ (if j == array.length then some value else array_at array j))

  get-set_self : (xs : List A) (i : ℕ) (v : A) → i < length xs → get_elem? (set xs i v) i ≡ some v
  get-set_self [] i v h = absurd (omega arith)
  get-set_self (x ∷ xs) zero v h = refl
  get-set_self (x ∷ xs) (suc i) v h = get-set_self xs i v (omega arith)

  get-set_below :
      (xs : List A) (i j : ℕ) (v : A) → j < i → get_elem? (set xs i v) j ≡ get_elem? xs j
  get-set_below [] i j v h = refl
  get-set_below (x ∷ xs) zero j v h = absurd (omega arith)
  get-set_below (x ∷ xs) (suc i) zero v h = refl
  get-set_below (x ∷ xs) (suc i) (suc j) v h = get-set_below xs i j v (omega arith)

  get-take : (n j : ℕ) (xs : List A) → j < n → get_elem? (take n xs) j ≡ get_elem? xs j
  get-take zero j xs h = absurd (omega arith)
  get-take (suc n) j [] h = refl
  get-take (suc n) zero (x ∷ xs) h = refl
  get-take (suc n) (suc j) (x ∷ xs) h = get-take n j xs (omega arith)

  get-append : (xs ys : List A) (j : ℕ) → j < length xs → get_elem? (xs ++ ys) j ≡ get_elem? xs j
  get-append [] ys j h = absurd (omega arith)
  get-append (x ∷ xs) ys zero h = refl
  get-append (x ∷ xs) ys (suc j) h = get-append xs ys j (omega arith)

  -- The block that `grow` ends with has the new capacity, and the elements in use are the old.
  length-reallocated :
      (array : Array A) (n : ℕ) (rest : List A)
      → IsValid array
      → array.capacity ≤ n
      → length rest ≡ n
      → length (reallocated array n rest) ≡ n
  unfolding IsValid
  length-reallocated array n rest valid larger fits = elim (Bool-cases array.is_internal) [
    | inl e ↦ rw e (
        omega (
          arith,
          valid,
          length-take n (take array.length array.storage ++ drop array.length rest),
          length-append (take array.length array.storage) (drop array.length rest),
          length-take array.length array.storage,
          drop-length_le array.length rest,
        ))
    | inr e ↦ rw e (
        omega (
          arith,
          valid,
          length-take n (array.storage ++ drop array.capacity rest),
          length-append array.storage (drop array.capacity rest),
          drop-length_le array.capacity rest,
        ))
  ]

  get-reallocated :
      (array : Array A) (n : ℕ) (rest : List A) (j : ℕ)
      → IsValid array
      → array.capacity ≤ n
      → j < array.length
      → get_elem? (reallocated array n rest) j ≡ get_elem? array.storage j
  unfolding IsValid
  get-reallocated array n rest j valid larger below = elim (Bool-cases array.is_internal) [
    | inl e ↦ rw e (
        get-take n j (take array.length array.storage ++ drop array.length rest)
          (omega (arith, valid))
        ∙ get-append (take array.length array.storage) (drop array.length rest) j
            (omega (arith, valid, length-take array.length array.storage))
        ∙ get-take array.length j array.storage below)
    | inr e ↦ rw e (
        get-take n j (array.storage ++ drop array.capacity rest) (omega (arith, valid))
        ∙ get-append array.storage (drop array.capacity rest) j (omega (arith, valid)))
  ]

  -- The array with room that the append writes into.
  Roomy : Array A → Bool × Array A → Type ℓ
  Roomy array (false, array') = array' ≡ array
  Roomy array (true, array') =
      (array'.length ≡ array.length)
      × (array'.length < array'.capacity)
      × (length array'.storage ≡ array'.capacity)
      × (2 ≤ array'.capacity)
      × ((j : ℕ) → j < array.length → get_elem? array'.storage j ≡ get_elem? array.storage j)

  grow-Roomy :
      (realloc : Option (ℕ → List A)) (array : Array A)
      → Fits realloc
      → IsValid array
      → array.length ≡ array.capacity
      → Roomy array (grow realloc array)
  unfolding grow Roomy Fits IsValid
  grow-Roomy none array fits valid full = refl
  grow-Roomy (some fresh) array fits valid full = (
    refl,
    omega (arith, valid),
    length-reallocated array _ (fresh _) valid (omega arith) (fits _),
    omega (arith, valid),
    λ j below. get-reallocated array _ (fresh _) j valid (omega arith) below,
  )

  roomy :
      (array : Array A) → IsValid array → array.length ≢ array.capacity → Roomy array (true, array)
  unfolding Roomy IsValid
  roomy array (within, sized, two) ne = (refl, omega (arith, within), sized, two, λ j below. refl)

  appended :
      (array : Array A) (value : A) (r : Bool × Array A)
      → Roomy array r
      → Appends array value (append_to value r)
  unfolding Appends Roomy IsValid array_at
  appended array value (false, array') h = h
  appended array value (true, array') (same, room, sized, two, old) =
      let stored : get_elem? (set array'.storage array'.length value) array.length ≡ some value =
        rw same
          (get-set_self array'.storage array.length value (omega (arith, same, room, sized))) in
      (
        (omega (arith, room), length-set array'.storage array'.length value ∙ sized, two),
        omega (arith, same),
        λ j. elim (compare-cases j array.length) [
          | inl e ↦
              rw
                (
                  e,
                  ==-self array.length,
                  lt→ltb array.length (array'.length + 1) (omega (arith, same)),
                )
                stored
          | inr (inl below) ↦
              rw
                (
                  lt→ltb j (array'.length + 1) (omega (arith, same)),
                  lt→ltb j array.length below,
                  ne→== j array.length (omega arith),
                )
                (get-set_below array'.storage array'.length j value (omega (arith, same))
                  ∙ old j below)
          | inr (inr above) ↦
              rw
                (
                  le→ltb j (array'.length + 1) (omega (arith, same)),
                  le→ltb j array.length (omega arith),
                  ne→== j array.length (omega arith),
                )
                refl
        ],
      )

  -- `array_append_ptr` on a well-formed array, where `realloc` answers NULL or a block of the size
  -- asked for: on failure nothing changes. On success the array is well formed and one longer, and
  -- answers the value behind the old elements, these as before, also where the array has grown.
  pub append-Appends :
      (realloc : Option (ℕ → List A)) (array : Array A) (value : A)
      → Fits realloc
      → IsValid array
      → Appends array value (append_ptr realloc array value)
  unfolding append_ptr
  append-Appends realloc array value fits valid =
      elim (Bool-cases (array.length == array.capacity)) [
        | inl e ↦ rw e (
            appended array value (grow realloc array)
              (grow-Roomy realloc array fits valid (==→eq array.length array.capacity e)))
        | inr e ↦ rw e (
            appended array value (true, array)
              (roomy array valid (==→ne array.length array.capacity e)))
      ]

  -- The append fails only when the array is full and `realloc` answers NULL.
  pub append-fails :
      (realloc : Option (ℕ → List A)) (array : Array A) (value : A)
      → let (done, array') = append_ptr realloc array value in
        done ≡ not (array.length == array.capacity && not (is_some realloc))
  unfolding append_ptr grow
  append-fails realloc array value = ground arith

  -- A new array is well formed.
  pub new-IsValid : (element_size : ℕ) (blank : A) → IsValid (new element_size blank)
  unfolding IsValid new
  new-IsValid element_size blank = (omega arith, refl, omega arith)
