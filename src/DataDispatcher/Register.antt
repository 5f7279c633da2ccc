-- ===== src/DataDispatcher/Register.antt =====
-- The queue that is chosen after any sequence of registrations.
use osi.Prelude.{ℕ, ◌≡◌, ap, ◌∙◌, Option, none, some, List, [], ◌∷◌, ◌==◌, if◌then◌else◌, arith}
use osi.HashMap.{get, erase}
use osi.HashMap.Bucket.{IsLawful}
use osi.HashMap.Search.{IsValid}
use osi.HashMap.New.{all_ok, number-IsLawful, new-IsValid, get-new, set_key_done}
use osi.HashMap.Set.{get-set}
use osi.HashMap.Erase.{get-erase}
use osi.DataDispatcher.{
  type_ops, DataDispatcher, new, register, register_default, or_default, choose,
}

pub data Registration : Type 0 where
  of_type : (type : ℕ) → Option ℕ → Registration
  of_default : Option ℕ → Registration

abbrev pub registered : DataDispatcher → Registration → DataDispatcher
registered d (of_type type queue) = register d type queue
registered d (of_default queue) = register_default d queue

unfoldable pub run : List Registration → DataDispatcher → DataDispatcher
run [] d = d
run (r ∷ rs) d = run rs (registered d r)

-- The registrations as assignments: to a type, or to the default.
abbrev pub assign : Registration → (ℕ → Option ℕ) → ℕ → Option ℕ
assign (of_type type queue) f j = if type == j then queue else f j
assign (of_default queue) f j = f j

abbrev pub assign_default : Registration → Option ℕ → Option ℕ
assign_default (of_type type queue) q = q
assign_default (of_default queue) q = queue

abbrev pub routes : List Registration → (ℕ → Option ℕ) → Option ℕ → ℕ → Option ℕ
routes [] f q j = or_default (f j) q
routes (r ∷ rs) f q j = routes rs (assign r f) (assign_default r q) j

pub type_ops-IsLawful : IsLawful type_ops
type_ops-IsLawful = number-IsLawful (λ k. k)

abbrev pub IsValidTable : DataDispatcher → Type 0
IsValidTable d = IsValid type_ops type_ops-IsLawful d.dispatch_table

register-get :
    (d : DataDispatcher) (type : ℕ) (queue : Option ℕ)
    → IsValidTable d
    → ((j : ℕ)
        → get type_ops (register d type queue).dispatch_table j
          ≡ (if type == j then queue else get type_ops d.dispatch_table j))
      × IsValidTable (register d type queue)
unfolding register
register-get d type none v =
    let (was, found, valid) = get-erase type_ops type_ops-IsLawful d.dispatch_table type v in
    (found, valid)
register-get d type (some queue) v =
    let (was, found, valid) = get-erase type_ops type_ops-IsLawful d.dispatch_table type v in
    let erased = (erase type_ops d.dispatch_table type).2 in
    let (found', valid') = get-set type_ops type_ops-IsLawful all_ok erased type queue valid in
    let done = set_key_done type_ops type_ops-IsLawful erased type queue in
    (λ j. found' j ∙ rw done (ground (arith, found j)), valid')

run-routes :
    (rs : List Registration) (d : DataDispatcher) (f : ℕ → Option ℕ) (j : ℕ)
    → IsValidTable d
    → ((i : ℕ) → get type_ops d.dispatch_table i ≡ f i)
    → choose (run rs d) j ≡ routes rs f d.default_queue j
unfolding run choose register_default register
run-routes [] d f j v same = ap (λ o. or_default o d.default_queue) (same j)
run-routes (of_type type queue ∷ rs) d f j v same =
    let (found, valid) = register-get d type queue v in
    run-routes rs (register d type queue) (assign (of_type type queue) f) j valid
      (λ i. found i ∙ ap (λ o. if type == i then queue else o) (same i))
run-routes (of_default queue ∷ rs) d f j v same =
    run-routes rs (register_default d queue) f j v same

-- After any registrations on a new dispatcher the queue chosen for a type is the one registered for it
-- last, or the default registered last where that is NULL or there is none.
pub choose-routes :
    (rs : List Registration) (type : ℕ) → choose (run rs new) type ≡ routes rs (λ _. none) none type
choose-routes rs type =
    run-routes rs new (λ _. none) type (new-IsValid type_ops type_ops-IsLawful 10 (omega arith))
      (λ i. get-new type_ops type_ops-IsLawful 10 i)
