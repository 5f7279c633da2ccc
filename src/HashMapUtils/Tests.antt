-- ===== src/HashMapUtils/Tests.antt =====
-- Two parameters, and a text with stray separators.
use osi.Prelude.{◌≡◌, refl, none, List, [], ◌∷◌}
use osi.HashMap.{get}
use osi.Config.{Text}
use osi.HashMapUtils.{
  string_ops, hash_loop, hash_function_string, tokens_from, strtok, new_from_string_params,
}
use osi.HashMapUtils.Params.{assigned, print, params-assigned}

abbrev pairs : List (Text × Text)
pairs = (107 ∷ [], 49 ∷ 61 ∷ []) ∷ (108 ∷ [], []) ∷ (107 ∷ [], 50 ∷ []) ∷ []

strays : strtok (59 ∷ 59 ∷ 107 ∷ 59 ∷ 59 ∷ 108 ∷ []) ≡ (107 ∷ []) ∷ (108 ∷ []) ∷ []
unfolding strtok tokens_from
strays = refl

hash_a : hash_function_string (97 ∷ []) ≡ 177670
unfolding hash_function_string hash_loop
hash_a = refl

params-assigned_example :
    get string_ops (new_from_string_params (print pairs)) (107 ∷ [])
    ≡ assigned pairs (λ _. none) (107 ∷ [])
params-assigned_example = params-assigned pairs (107 ∷ []) (
  ((λ e. cc), (refl, tt), (refl, tt), (refl, (refl, tt))),
  (((λ e. cc), (refl, tt), (refl, tt), tt), (((λ e. cc), (refl, tt), (refl, tt), (refl, tt)), tt)),
)
