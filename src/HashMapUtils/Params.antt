-- ===== src/HashMapUtils/Params.antt =====
-- The map that a text of parameters gives.
use osi.Prelude.{
  ℕ, ◌≡◌, ◌≢◌, refl, ap, sym, ◌∙◌, Bool, Option, none, some, List, [], ◌∷◌, ◌++◌, if◌then◌else◌,
  All, append_assoc, append-nil, arith,
}
use osi.HashMap.{HashMap, get, set_key}
use osi.HashMap.Bucket.{IsLawful}
use osi.HashMap.Search.{IsValid}
use osi.HashMap.New.{all_ok, new-IsValid, get-new, set_key_done}
use osi.HashMap.Set.{get-set}
use osi.Config.{Text, text_eq}
use osi.Config.Entries.{text_eq_self, eq_of_text_eq}
use osi.Config.Scan.{Free, Free-append, split_at-append}
use osi.HashMapUtils.{
  string_ops, hash_function_string, tokens_from, strtok, key_value, set_pair, set_pairs,
  new_from_string_params,
}

pub string_ops-IsLawful : IsLawful string_ops
string_ops-IsLawful = record {
  refl_key = text_eq_self;
  sym_key = λ a b h. ap (λ (t : Text). text_eq t a) (sym (eq_of_text_eq a b h)) ∙ text_eq_self a;
  trans_key = λ a b c h k. ap (λ (t : Text). text_eq t c) (eq_of_text_eq a b h) ∙ k;
  hash_key = λ a b h. ap hash_function_string (eq_of_text_eq a b h);
}

-- Assignments in order, on top of what is assigned already: the last one of a key counts.
abbrev pub assigned : List (Text × Text) → (Text → Option Text) → Text → Option Text
assigned [] f j = f j
assigned ((key, value) ∷ ps) f j = assigned ps (λ i. if text_eq key i then some value else f i) j

-- `key=value;` for each pair.
abbrev pub print : List (Text × Text) → Text
print [] = []
print ((key, value) ∷ ps) = key ++ (61 ∷ (value ++ (59 ∷ print ps)))

-- The key is not empty and has neither `;` nor `=`, and the value has no `;`.
abbrev pub CleanPair : Text × Text → Type 0
CleanPair (key, value) = (key ≢ []) × Free 59 key × Free 61 key × Free 59 value

tokens_from-append :
    (t : ℕ) (token str rest : Text)
    → Free 59 str
    → tokens_from (t ∷ token) (str ++ (59 ∷ rest)) ≡ ((t ∷ token) ++ str) ∷ tokens_from [] rest
unfolding tokens_from
tokens_from-append t token [] rest free =
    ap (λ (xs : Text). xs ∷ tokens_from [] rest) (sym (append-nil (t ∷ token)))
tokens_from-append t token (c ∷ str) rest (ne, free) =
    rw (ne, tokens_from)
      (tokens_from-append t (token ++ (c ∷ [])) str rest free
        ∙ ap (λ (xs : Text). xs ∷ tokens_from [] rest) (append_assoc (t ∷ token) (c ∷ []) str))

-- The tokens of the printed pairs.
abbrev pub printed_tokens : List (Text × Text) → List Text
printed_tokens [] = []
printed_tokens ((key, value) ∷ ps) = (key ++ (61 ∷ value)) ∷ printed_tokens ps

strtok-print : (ps : List (Text × Text)) → All CleanPair ps → strtok (print ps) ≡ printed_tokens ps
unfolding strtok tokens_from
strtok-print [] clean = refl
strtok-print (([], value) ∷ ps) ((ne, _, _, _), clean) = absurd (ne refl)
strtok-print ((k ∷ key, value) ∷ ps) ((ne, (kne, free), free', free''), clean) =
    ap
      (λ (b : Bool).
        tokens_from (if b then [] else k ∷ []) (key ++ (61 ∷ (value ++ (59 ∷ print ps)))))
      kne
    ∙ (ap (tokens_from (k ∷ [])) (sym (append_assoc key (61 ∷ value) (59 ∷ print ps)))
        ∙ tokens_from-append k [] (key ++ (61 ∷ value)) (print ps)
            (Free-append 59 key (61 ∷ value) free (refl, free''))
        ∙ ap (λ (ts : List Text). (k ∷ (key ++ (61 ∷ value))) ∷ ts) (strtok-print ps clean))

set_pairs-assigned :
    (ps : List (Text × Text)) (map : HashMap Text Text) (f : Text → Option Text) (j : Text)
    → All CleanPair ps
    → IsValid string_ops string_ops-IsLawful map
    → ((i : Text) → get string_ops map i ≡ f i)
    → get string_ops (set_pairs map (printed_tokens ps)) j ≡ assigned ps f j
unfolding set_pairs
set_pairs-assigned [] map f j clean v same = same j
set_pairs-assigned (([], value) ∷ ps) map f j ((ne, _, _, _), clean) v same = absurd (ne refl)
set_pairs-assigned ((k ∷ key, value) ∷ ps) map f j ((ne, free, free', free''), clean) v same =
    let (found, valid) = get-set string_ops string_ops-IsLawful all_ok map (k ∷ key) value v in
    let done = set_key_done string_ops string_ops-IsLawful map (k ∷ key) value in
    ap
      (λ (o : Option (Text × Text)).
        get string_ops
          (set_pairs (set_pair map (key_value ((k ∷ key) ++ (61 ∷ value)) o)) (printed_tokens ps))
          j)
      (split_at-append (k ∷ key) value free')
    ∙ (set_pairs-assigned ps (set_key string_ops all_ok map (k ∷ key) value).2
        (λ i. if text_eq (k ∷ key) i then some value else f i) j clean valid
        (λ i.
          found i
          ∙ rw done
              (ap (λ (o : Option Text). if text_eq (k ∷ key) i then some value else o) (same i))))

-- The parameters printed from pairs give a map in which every key has the value that is assigned to it
-- last, and any other text none. Keys are not empty and free of `;` and `=`, and values free of `;`.
pub params-assigned :
    (ps : List (Text × Text)) (j : Text)
    → All CleanPair ps
    → get string_ops (new_from_string_params (print ps)) j ≡ assigned ps (λ _. none) j
unfolding new_from_string_params
params-assigned ps j clean = rw (strtok-print ps clean) (
    set_pairs-assigned ps _ (λ _. none) j clean
      (new-IsValid string_ops string_ops-IsLawful 5 (omega arith))
      (λ i. get-new string_ops string_ops-IsLawful 5 i))
