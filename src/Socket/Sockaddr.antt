-- ===== src/Socket/Sockaddr.antt =====
-- `osi_socket_make_sockaddr_un` of src/socket_utils/socket_local_client.c, as it is compiled for Linux.
-- A name is the list of its bytes before the NUL, and a
-- number that is no namespace is `other_number`.
use osi.Prelude.{
  ℕ, zero, suc, ◌+◌, ◌-◌, ◌≤◌, ◌<◌, ◌≡◌, refl, sym, ap, ap₂, ◌∙◌, inl, inr, true, false, Option,
  none, some, List, [], ◌∷◌, ◌++◌, ◌==◌, ltb, leb, if◌then◌else◌, length, take, drop, replicate,
  bytes, arith, le→leb, ltb→lt, ltb→le, Bool-cases, length-append, length-replicate,
}
use osi.Config.{Text}
use osi.Socket.{Address}

-- The sizes of `sun_path` and of what stands before it.
abbrev pub path_size : ℕ
path_size = 108

abbrev pub path_offset : ℕ
path_offset = 2

-- The `ANDROID_SOCKET_NAMESPACE_` constants.
pub data Namespace : Type 0 where
  abstract_names : Namespace
  reserved_names : Namespace
  filesystem_names : Namespace
  other_number : Namespace

-- The failure, a write past the end of `sun_path`, or the address.
pub data Made : Type 0 where
  refused : Made
  overrun : Made
  filled : Address → Made

-- `memcpy` of some bytes to a position of an array; `none` is a write past its end.
unfoldable pub copy_to : (position : ℕ) → List ℕ → (array : List ℕ) → Option (List ℕ)
copy_to i xs array =
    if leb (i + length xs) (length array)
    then some (take i array ++ xs ++ drop (i + length xs) array)
    else none

-- `strlen` of what an array holds.
abbrev pub strlen : List ℕ → ℕ
strlen [] = 0
strlen (x ∷ xs) = if x == 0 then 0 else suc (strlen xs)

abbrev pub and_then : Option (List ℕ) → (List ℕ → Option (List ℕ)) → Option (List ℕ)
and_then none f = none
and_then (some xs) f = f xs

-- `strcpy` and `strcat`
unfoldable pub strcpy : (array : List ℕ) → Text → Option (List ℕ)
unfolding copy_to
strcpy array text = copy_to 0 (text ++ 0 ∷ []) array

unfoldable pub strcat : (array : List ℕ) → Text → Option (List ℕ)
unfolding copy_to
strcat array text = copy_to (strlen array) (text ++ 0 ∷ []) array

-- `ANDROID_RESERVED_SOCKET_PREFIX`
abbrev pub reserved_prefix : Text
reserved_prefix = bytes "/dev/socket/"

abbrev pub finish : (namelen : ℕ) → Option (List ℕ) → Made
finish namelen none = overrun
finish namelen (some path) = filled (record { sun_path = path; alen = namelen + path_offset + 1 })

abbrev pub zeros : List ℕ
zeros = replicate path_size 0

-- `osi_socket_make_sockaddr_un`
unfoldable pub make_sockaddr_un : (name : Text) → (namespace : Namespace) → Made
unfolding copy_to strcpy strcat
make_sockaddr_un name abstract_names =
    if ltb path_size (length name + 1)
    then refused
    else finish (length name) (and_then (copy_to 0 (0 ∷ []) zeros) (copy_to 1 name))
make_sockaddr_un name reserved_names =
    if ltb (path_offset + path_size - path_offset - 1) (length name + length reserved_prefix)
    then refused
    else finish (length name + length reserved_prefix)
        (and_then (strcpy zeros reserved_prefix) (λ path. strcat path name))
make_sockaddr_un name filesystem_names =
    if ltb (path_offset + path_size - path_offset - 1) (length name)
    then refused
    else finish (length name) (strcpy zeros name)
make_sockaddr_un name other_number = refused

-- The bytes by which the kernel knows the address of a name.
abbrev pub named : (name : Text) → (namespace : Namespace) → Option (List ℕ)
named name abstract_names = some (0 ∷ name)
named name reserved_names = some (reserved_prefix ++ (name ++ 0 ∷ []))
named name filesystem_names = some (name ++ 0 ∷ [])
named name other_number = none

abbrev pub padded : List ℕ → ℕ → List ℕ
padded xs k = xs ++ replicate k 0

abbrev pub address_of : Option (List ℕ) → Made
address_of none = refused
address_of (some xs) =
    if leb (length xs) path_size
    then filled
        (record { sun_path = padded xs (path_size - length xs); alen = length xs + path_offset })
    else refused

take-append : (xs ys : List ℕ) → take (length xs) (xs ++ ys) ≡ xs
take-append [] ys = refl
take-append (x ∷ xs) ys = ap (λ zs. x ∷ zs) (take-append xs ys)

drop-append : (xs ys : List ℕ) (n : ℕ) → drop (length xs + n) (xs ++ ys) ≡ drop n ys
drop-append [] ys n = ap (λ i. drop i ys) (omega arith)
drop-append (x ∷ xs) ys n =
    let same : suc (length xs) + n ≡ suc (length xs + n) = omega arith in
    ap (λ i. drop i (x ∷ xs ++ ys)) same ∙ drop-append xs ys n

abbrev zeros_of : ℕ → List ℕ
zeros_of n = replicate n 0

drop-replicate : (n k : ℕ) → drop {A = ℕ} n (replicate k 0) ≡ replicate (k - n) 0
drop-replicate zero k = ap zeros_of {x = k} (omega arith)
drop-replicate (suc n) zero = ap zeros_of {x = 0} (omega arith)
drop-replicate (suc n) (suc k) = drop-replicate n k ∙ ap zeros_of {x = k - n} (omega arith)

-- Bytes that are copied behind some others, into an array that holds zeros from there.
copy_to-padded :
    (front xs : List ℕ) (k : ℕ)
    → length xs ≤ k
    → copy_to (length front) xs (padded front k) ≡ some (padded (front ++ xs) (k - length xs))
unfolding copy_to
copy_to-padded front xs k h =
    let size : length (padded front k) ≡ length front + k =
      length-append front (replicate k 0) ∙ ap (λ n. length front + n) (length-replicate k 0) in
    let fits : leb (length front + length xs) (length (padded front k)) ≡ true =
      le→leb (length front + length xs) (length (padded front k)) (omega (arith, size)) in
    rw fits (
      ap some (
        ap₂ (λ a b. a ++ xs ++ b) (take-append front (replicate k 0))
          (drop-append front (replicate k 0) (length xs) ∙ drop-replicate (length xs) k)))

length-terminated : (name : Text) → length (name ++ 0 ∷ []) ≡ length name + 1
length-terminated name = length-append name (0 ∷ [])

too_long-refused : (xs : List ℕ) → path_size < length xs → address_of (some xs) ≡ refused
too_long-refused xs h = let no : leb (length xs) path_size ≡ false = ground arith in rw no refl

-- The last copy into `sun_path`, behind what is there.
finish-copy_to :
    (namelen : ℕ) (front xs : List ℕ) (k : ℕ)
    → length front + k ≡ path_size
    → length xs ≤ k
    → namelen + 1 ≡ length front + length xs
    → finish namelen (copy_to (length front) xs (padded front k)) ≡ address_of (some (front ++ xs))
finish-copy_to namelen front xs k size h n =
    let total : length (front ++ xs) ≡ length front + length xs = length-append front xs in
    let yes : leb (length (front ++ xs)) path_size ≡ true =
      le→leb (length (front ++ xs)) path_size (omega (arith, total)) in
    let rest : k - length xs ≡ path_size - length (front ++ xs) = omega (arith, total) in
    let len : namelen + path_offset + 1 ≡ length (front ++ xs) + path_offset =
      omega (arith, total) in
    rw yes (
      ap (finish namelen) (copy_to-padded front xs k h)
      ∙ ap₂ (λ i j. filled (record { sun_path = padded (front ++ xs) i; alen = j })) rest len)

-- The address of a name holds the bytes by which the kernel knows the name, then zeros, and `alen` counts
-- the family and those bytes. A name is refused when they are more than the 108 of `sun_path` or the
-- namespace is none of the three; nothing is written past the end of `sun_path`.
pub make_sockaddr_un-named :
    (name : Text) (namespace : Namespace)
    → make_sockaddr_un name namespace ≡ address_of (named name namespace)
unfolding make_sockaddr_un strcpy strcat copy_to
make_sockaddr_un-named name abstract_names = elim (Bool-cases (ltb path_size (length name + 1))) [
  | inl e ↦ rw e (sym (too_long-refused (0 ∷ name) (ground arith)))
  | inr e ↦ rw e (finish-copy_to (length name) (0 ∷ []) name 107 refl (ground arith) (omega arith))
]
make_sockaddr_un-named name reserved_names =
    let size : length (name ++ 0 ∷ []) ≡ length name + 1 = length-append name (0 ∷ []) in
    elim (Bool-cases (ltb 107 (length name + 12))) [
      | inl e ↦ rw e (
          sym (
            too_long-refused (reserved_prefix ++ (name ++ 0 ∷ []))
              (omega (arith, size, ltb→lt 107 (length name + 12) e))))
      | inr e ↦ rw e (
          finish-copy_to (length name + 12) reserved_prefix (name ++ 0 ∷ []) 96 refl
            (omega (arith, size, ltb→le 107 (length name + 12) e)) (omega (arith, size)))
    ]
make_sockaddr_un-named name filesystem_names =
    let size : length (name ++ 0 ∷ []) ≡ length name + 1 = length-append name (0 ∷ []) in
    elim (Bool-cases (ltb 107 (length name))) [
      | inl e ↦ rw e (sym (too_long-refused (name ++ 0 ∷ []) (ground arith)))
      | inr e ↦
          rw e
            (finish-copy_to (length name) [] (name ++ 0 ∷ []) 108 refl (ground arith) (omega arith))
    ]
make_sockaddr_un-named name other_number = refl
