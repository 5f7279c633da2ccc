-- ===== src/LinkedList/Sequence.antt =====
-- The list as a sequence of values: no sequence of calls tells them apart.
use osi.Prelude.{
  ℕ, ◌≡◌, refl, ap, sym, subst, ◌∙◌, Bool, true, false, not, Option, none, some, List, [], ◌∷◌,
  ◌++◌, ◌==◌, if◌then◌else◌, length, ne→==,
}
use osi.LinkedList.{
  LinkedList, asserted, append_node, prepend_node, remove_value, contains_value, append, prepend,
  remove, contains, front, back, clear,
}
use osi.LinkedList.Cells.{Cells, values, IsList, length-values, values-append}
use osi.LinkedList.Insert.{
  Inserted, refused, inserted, append_node-Inserted, prepend_node-Inserted, last_split,
}
use osi.LinkedList.Remove.{
  has_value, erase, erase_cell, values-erase, Removed, removed, remove_value-Removed,
}
use osi.LinkedList.Walk.{
  contains_value-has, CellsCleared, cleared, clear-CellsCleared, front-first, back-last, empty-ends,
}

-- The calls; `fresh` is what the allocator returns during one.
pub data Call : Type 0 where
  appending : (fresh v : ℕ) → Call
  prepending : (fresh v : ℕ) → Call
  removing : ℕ → Call
  containing : ℕ → Call
  fronting : Call
  backing : Call
  counting : Call
  clearing : Call

pub data Reply : Type 0 where
  truth : Bool → Reply
  item : ℕ → Reply
  size : ℕ → Reply
  nothing : Reply

abbrev pub told {ℓ} : {A : Type ℓ} → Option (Bool × A) → Option (Reply × A)
told none = none
told (some (b, a)) = some (truth b, a)

abbrev pub about {ℓ κ} : {A : Type ℓ} {B : Type κ} → (B → Reply) → A → Option B → Option (Reply × A)
about f a none = none
about f a (some b) = some (f b, a)

abbrev pub silent {ℓ} : {A : Type ℓ} → Option A → Option (Reply × A)
silent none = none
silent (some a) = some (nothing, a)

-- A call on the list; `none` is an abort.
unfoldable pub step : Call → LinkedList → Option (Reply × LinkedList)
step (appending fresh v) list = told (append fresh v list)
step (prepending fresh v) list = told (prepend fresh v list)
step (removing v) list = told (remove v list)
step (containing v) list = about truth list (contains list v)
step fronting list = about item list (front list)
step backing list = about item list (back list)
step counting list = some (size list.length, list)
step clearing list = silent (clear list)

abbrev pub seq_front : List ℕ → Option ℕ
seq_front [] = none
seq_front (x ∷ _) = some x

abbrev pub seq_back : List ℕ → Option ℕ
seq_back [] = none
seq_back (x ∷ xs) = elim xs [ [] ↦ some x | _ ∷ _ ↦ seq_back xs ]

-- A call on a sequence: an insertion is refused where nothing could be allocated, and a call that is
-- given NULL for the value aborts.
unfoldable pub seq_step : Call → List ℕ → Option (Reply × List ℕ)
seq_step (appending fresh v) xs =
    asserted v (some (truth (not (fresh == 0)), if fresh == 0 then xs else xs ++ (v ∷ [])))
seq_step (prepending fresh v) xs =
    asserted v (some (truth (not (fresh == 0)), if fresh == 0 then xs else v ∷ xs))
seq_step (removing v) xs = asserted v (some (truth (has_value xs v), erase xs v))
seq_step (containing v) xs = asserted v (some (truth (has_value xs v), xs))
seq_step fronting xs = about item xs (seq_front xs)
seq_step backing xs = about item xs (seq_back xs)
seq_step counting xs = some (size (length xs), xs)
seq_step clearing xs = some (nothing, [])

-- The address that the allocator returns holds no node: it is NULL, or that of a new block.
abbrev pub Allowed : Call → LinkedList → Type 0
Allowed (appending fresh v) list = list.node fresh ≡ none
Allowed (prepending fresh v) list = list.node fresh ≡ none
Allowed _ list = Unit

pub data Agrees : Option (Reply × LinkedList) → Option (Reply × List ℕ) → Type 0 where
  aborts : Agrees none none
  goes :
      {reply : Reply} {list : LinkedList} {xs : Cells} {vs : List ℕ}
      → IsList list xs
      → vs ≡ values xs
      → Agrees (some (reply, list)) (some (reply, vs))

told-Inserted :
    (list : LinkedList) (xs new : Cells) (fresh : ℕ) (vs : List ℕ) (r : Option (Bool × LinkedList))
    → IsList list xs
    → vs ≡ values new
    → Inserted list new fresh r
    → Agrees (told r) (some (truth (not (fresh == 0)), if fresh == 0 then values xs else vs))
told-Inserted list xs new fresh vs r is e (refused null) = rw null (goes is refl)
told-Inserted list xs new fresh vs r is e (inserted ne is' _) = rw (ne→== fresh 0 ne) (goes is' e)

told-Removed :
    (list : LinkedList) (found : Bool) (new : Cells) (v : ℕ) (vs : List ℕ)
    (r : Option (Bool × LinkedList))
    → vs ≡ values new
    → Removed list found new v r
    → Agrees (told r) (some (truth found, vs))
told-Removed list found new v vs r e (removed is _) = goes is e

silent-cleared :
    (list : LinkedList) (xs : Cells) (r : Option LinkedList)
    → CellsCleared list xs r
    → Agrees (silent r) (some (nothing, []))
silent-cleared list xs r (cleared is _) = goes is refl

seq_back-append : (xs : List ℕ) (v : ℕ) → seq_back (xs ++ (v ∷ [])) ≡ some v
seq_back-append [] v = refl
seq_back-append (x ∷ []) v = refl
seq_back-append (x ∷ y ∷ xs) v = seq_back-append (y ∷ xs) v

backing_split :
    (list : LinkedList) (pre : Cells) (a v : ℕ)
    → IsList list (pre ++ ((a, v) ∷ []))
    → Agrees
        (about item list (back list))
        (about item (values (pre ++ ((a, v) ∷ []))) (seq_back (values (pre ++ ((a, v) ∷ [])))))
backing_split list pre a v is =
    let last = ap seq_back (values-append pre ((a, v) ∷ [])) ∙ seq_back-append (values pre) v in
    rw (back-last list pre a v is, last) (goes is refl)

backing-Agrees :
    (list : LinkedList) (xs : Cells)
    → IsList list xs
    → Agrees (about item list (back list)) (about item (values xs) (seq_back (values xs)))
backing-Agrees list [] is = rw ((empty-ends list is).1) aborts
backing-Agrees list (x ∷ xs) is =
    let (pre, a, v, split) = last_split x xs in
    subst
      (λ cells.
        Agrees (about item list (back list)) (about item (values cells) (seq_back (values cells))))
      (sym split) (backing_split list pre a v (subst (IsList list) split is))

asserted-Agrees {ℓ} :
    {A : Type ℓ} (b : Bool) (f : Option A → Option (Reply × LinkedList)) (r : Option A)
    (r' : Option (Reply × List ℕ))
    → f none ≡ none
    → Agrees (f r) r'
    → Agrees (f (if b then none else r)) (if b then none else r')
asserted-Agrees true f r r' e h = rw e aborts
asserted-Agrees false f r r' e h = h

-- Every call on a list with the cells `xs` does what it does on the sequence of their values.
pub step-Agrees :
    (call : Call) (list : LinkedList) (xs : Cells)
    → IsList list xs
    → Allowed call list
    → Agrees (step call list) (seq_step call (values xs))
unfolding step seq_step append prepend remove contains
step-Agrees (appending fresh v) list xs is ok =
    asserted-Agrees (v == 0) told (append_node fresh v list) _ refl (
      told-Inserted list xs (xs ++ ((fresh, v) ∷ [])) fresh (values xs ++ (v ∷ []))
        (append_node fresh v list) is (sym (values-append xs ((fresh, v) ∷ [])))
        (append_node-Inserted list xs fresh v is ok))
step-Agrees (prepending fresh v) list xs is ok =
    asserted-Agrees (v == 0) told (prepend_node fresh v list) _ refl (
      told-Inserted list xs ((fresh, v) ∷ xs) fresh (v ∷ values xs) (prepend_node fresh v list) is
        refl (prepend_node-Inserted list xs fresh v is ok))
step-Agrees (removing v) list xs is ok =
    asserted-Agrees (v == 0) told (remove_value v list) _ refl (
      told-Removed list (has_value (values xs) v) (erase_cell xs v) v (erase (values xs) v)
        (remove_value v list) (sym (values-erase xs v)) (remove_value-Removed list xs v is))
step-Agrees (containing v) list xs is ok =
    asserted-Agrees (v == 0) (about truth list) (contains_value list v) _ refl
      (rw (contains_value-has list xs v is) (goes is refl))
step-Agrees fronting list [] is ok = rw ((empty-ends list is).0) aborts
step-Agrees fronting list ((a, v) ∷ xs) is ok = rw (front-first list a v xs is) (goes is refl)
step-Agrees backing list xs is ok = backing-Agrees list xs is
step-Agrees counting list xs is ok =
    subst (λ n. Agrees (some (size list.length, list)) (some (size n, values xs)))
      (is.counted ∙ sym (length-values xs)) (goes is refl)
step-Agrees clearing list xs is ok =
    silent-cleared list xs (clear list) (clear-CellsCleared list xs is)

-- The replies to a sequence of calls, up to an abort.
abbrev pub replies {ℓ} : {A : Type ℓ} → (A → List Reply) → Option (Reply × A) → List Reply
replies rest none = []
replies rest (some (reply, a)) = reply ∷ rest a

unfoldable pub run : List Call → LinkedList → List Reply
run [] list = []
run (call ∷ calls) list = replies (run calls) (step call list)

unfoldable pub run_seq : List Call → List ℕ → List Reply
run_seq [] xs = []
run_seq (call ∷ calls) xs = replies (run_seq calls) (seq_step call xs)

abbrev pub Then {ℓ} : {A : Type ℓ} → (A → Type 0) → Option (Reply × A) → Type 0
Then P none = Unit
Then P (some (reply, a)) = P a

-- The allocator keeps to its contract in all the calls.
unfoldable pub AllAllowed : List Call → LinkedList → Type 0
AllAllowed [] list = Unit
AllAllowed (call ∷ calls) list = Allowed call list × Then (AllAllowed calls) (step call list)

agreed_replies :
    (f : LinkedList → List Reply) (g : List ℕ → List Reply) (P : LinkedList → Type 0)
    (r : Option (Reply × LinkedList)) (r' : Option (Reply × List ℕ))
    → Agrees r r'
    → Then P r
    → ((list : LinkedList) (xs : Cells) → IsList list xs → P list → f list ≡ g (values xs))
    → replies f r ≡ replies g r'
agreed_replies f g P r r' aborts p same = refl
agreed_replies f g P r r' (goes {reply} {list} {xs} is e) p same =
    ap (◌∷◌ reply) (same list xs is p ∙ ap g (sym e))

-- On every sequence of calls a list answers as the sequence of its values does, aborts included, when
-- what the allocator returns is NULL or a block that is not in use. A call that is given NULL for the
-- value aborts on both.
pub run-sequence :
    (calls : List Call) (list : LinkedList) (xs : Cells)
    → IsList list xs
    → AllAllowed calls list
    → run calls list ≡ run_seq calls (values xs)
unfolding run run_seq AllAllowed
run-sequence [] list xs is ok = refl
run-sequence (call ∷ calls) list xs is (ok, rest) =
    agreed_replies (run calls) (run_seq calls) (AllAllowed calls) (step call list)
      (seq_step call (values xs)) (step-Agrees call list xs is ok) rest
      (λ list' ys is' p. run-sequence calls list' ys is' p)
