-- ===== src/HashMapUtils.antt =====
-- src/hash_map_utils.c and the hash functions of src/hash_functions.c: a map from a text of parameters
-- such as `k=v;l=w`. A text is the list of its bytes. `strtok_r` is written out: it passes over
-- separators and takes the bytes up to the next one.
pub mod Params
mod Tests
use osi.Prelude.{
  ℕ, zero, suc, ◌+◌, ◌-◌, ◌/◌, ◌++◌, ◌*◌, ◌%◌, ◌^◌, Bool, true, false, Option, none, some, List, [],
  ◌∷◌, ◌==◌, if◌then◌else◌, length,
}
use osi.HashMap.{KeyOps, HashMap, new_map, set_key}
use osi.HashMap.New.{all_ok}
use osi.Config.{Text, text_eq}
use osi.Config.Parse.{split_at}

-- `hash_index_t` is a `size_t`.
abbrev pub hash_mod : ℕ
hash_mod = 2 ^ 64

abbrev pub hash_function_naive : ℕ → ℕ
hash_function_naive key = key

abbrev pub hash_function_integer : ℕ → ℕ
hash_function_integer key = key * 2654435761 % hash_mod

-- A byte as the `char` of `name[i]`, which is signed, added to a `size_t`.
abbrev pub add_char : ℕ → ℕ → ℕ
add_char n c = (n + (if c / 128 == 0 then c else hash_mod - 256 + c)) % hash_mod

-- The loop of `hash_function_string`.
unfoldable pub hash_loop : ℕ → Text → ℕ
hash_loop hash [] = hash
hash_loop hash (c ∷ name) = hash_loop (add_char ((hash * 32 % hash_mod + hash) % hash_mod) c) name

unfoldable pub hash_function_string : Text → ℕ
hash_function_string name = hash_loop 5381 name

abbrev pub string_ops : KeyOps Text
string_ops = record { hash_fn = hash_function_string; keys_are_equal = text_eq }

abbrev pub buckets_num : ℕ
buckets_num = 5

-- The separator `;`.
abbrev pub is_separator : ℕ → Bool
is_separator c = c == 59

-- The tokens that the calls of `strtok_r` give, in order; the first is under way.
unfoldable pub tokens_from : Text → Text → List Text
tokens_from [] [] = []
tokens_from (t ∷ token) [] = (t ∷ token) ∷ []
tokens_from [] (c ∷ str) = tokens_from (if is_separator c then [] else c ∷ []) str
tokens_from (t ∷ token) (c ∷ str) = elim (is_separator c) [
  | true ↦ (t ∷ token) ∷ tokens_from [] str
  | false ↦ tokens_from ((t ∷ token) ++ (c ∷ [])) str
]

unfoldable pub strtok : Text → List Text
strtok str = tokens_from [] str

-- The key and the value of a token; `none` for one that begins with `=`, which is passed over.
abbrev pub key_value : Text → Option (Text × Text) → Option (Text × Text)
key_value kvpair none = some (kvpair, [])
key_value kvpair (some ([], value)) = none
key_value kvpair (some (k ∷ key, value)) = some (k ∷ key, value)

abbrev pub set_pair : HashMap Text Text → Option (Text × Text) → HashMap Text Text
set_pair map none = map
set_pair map (some (key, value)) = (set_key string_ops all_ok map key value).2

-- The loop over the tokens.
unfoldable pub set_pairs : HashMap Text Text → List Text → HashMap Text Text
set_pairs map [] = map
set_pairs map (kvpair ∷ rest) = set_pairs (set_pair map (key_value kvpair (split_at kvpair))) rest

-- `hash_map_utils_new_from_string_params`
unfoldable pub new_from_string_params : Text → HashMap Text Text
new_from_string_params params = set_pairs (new_map buckets_num) (strtok params)
