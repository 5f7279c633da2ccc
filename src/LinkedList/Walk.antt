-- ===== src/LinkedList/Walk.antt =====
-- The functions of src/list.c that read a list from its head, and `list_clear`.
use osi.Prelude.{
  length-append, ℕ, zero, suc, ◌<◌, ◌≡◌, refl, ap, sym, subst, ◌∙◌, Bool, true, false, Option, none,
  some, [], ◌∷◌, ◌++◌, ◌==◌, if◌then◌else◌, length, Bool-cases, inl, inr, ne→==, append_assoc,
  append-nil, arith,
}
use osi.LinkedList.{
  value_at, Node, node_of, LinkedList, front, back, contains_value, contains_loop, free_node, clear,
  clear_loop, foreach, foreach_loop, emptied,
}
use osi.LinkedList.Cells.{
  Cells, values, first, Distinct, node_at, IsList, node_at_split, node_at-none,
}
use osi.LinkedList.Insert.{last_or-split, split_ne}
use osi.LinkedList.Remove.{has_value}

-- Reading on from any place of a list.
module _ (list : LinkedList) (pre : Cells) (a u : ℕ) (post : Cells)
    (is : IsList list (pre ++ ((a, u) ∷ post))) where
  pub there : list.node a ≡ some (node_of (first post) u)
  there = is.nodes a ∙ node_at_split pre a u post is.distinct

  pub not_null : (a == 0) ≡ false
  not_null = ne→== a 0 (split_ne pre a u post is.distinct)

  pub onward : IsList list ((pre ++ ((a, u) ∷ [])) ++ post)
  onward = subst (IsList list) (sym (append_assoc pre ((a, u) ∷ []) post)) is

contains_loop-has :
    (fuel : ℕ) (list : LinkedList) (v : ℕ) (pre post : Cells)
    → IsList list (pre ++ post)
    → length post < fuel
    → contains_loop fuel list (first post) v ≡ some (has_value (values post) v)
unfolding contains_loop
contains_loop-has zero list v pre post is enough = absurd (omega arith)
contains_loop-has (suc fuel) list v pre [] is enough = refl
contains_loop-has (suc fuel) list v pre ((a, u) ∷ post) is enough =
    rw (not_null list pre a u post is, there list pre a u post is, contains_loop)
      (elim (Bool-cases (u == v)) [
        | inl hit ↦ rw hit refl
        | inr miss ↦ rw miss (
            contains_loop-has fuel list v (pre ++ ((a, u) ∷ [])) post (onward list pre a u post is)
              (omega arith))
      ])

-- `list_contains` ends, reads only nodes of the list, and says whether the value is in it.
pub contains_value-has :
    (list : LinkedList) (xs : Cells) (v : ℕ)
    → IsList list xs
    → contains_value list v ≡ some (has_value (values xs) v)
unfolding contains_value
contains_value-has list xs v is =
    subst (λ h. contains_loop (suc list.length) list h v ≡ some (has_value (values xs) v))
      (sym is.head_first)
      (contains_loop-has (suc list.length) list v [] xs is (omega (arith, is.counted)))

-- The callback on the values in turn, up to the first answer `false`: the address of that cell.
abbrev pub visit {ℓ} : {S : Type ℓ} → (ℕ → S → Bool × S) → Cells → S → ℕ × S
visit callback [] s = (0, s)
visit callback ((a, v) ∷ xs) s =
    let (more, s') = callback v s in elim more [ true ↦ visit callback xs s' | false ↦ (a, s') ]

foreach_loop-visit {ℓ} :
    {S : Type ℓ} (callback : ℕ → S → Bool × S) (fuel : ℕ) (list : LinkedList) (pre post : Cells)
    (s : S)
    → IsList list (pre ++ post)
    → length post < fuel
    → foreach_loop callback fuel list (first post) s ≡ some (visit callback post s)
unfolding foreach_loop
foreach_loop-visit callback zero list pre post s is enough = absurd (omega arith)
foreach_loop-visit callback (suc fuel) list pre [] s is enough = refl
foreach_loop-visit callback (suc fuel) list pre ((a, u) ∷ post) s is enough =
    rw (not_null list pre a u post is, there list pre a u post is, foreach_loop)
      (elim (Bool-cases (callback u s).0) [
        | inl more ↦
            rw (more, visit)
              (foreach_loop-visit callback fuel list (pre ++ ((a, u) ∷ [])) post (callback u s).1
                (onward list pre a u post is) (omega arith))
        | inr stop ↦ rw (stop, visit) refl
      ])

-- `list_foreach` calls back on the values in order up to the first answer `false`, and returns the node
-- of that call, or NULL if there is none.
pub foreach-visit_cells {ℓ} :
    {S : Type ℓ} (callback : ℕ → S → Bool × S) (list : LinkedList) (xs : Cells) (s : S)
    → IsList list xs
    → foreach callback list s ≡ some (visit callback xs s)
unfolding foreach
foreach-visit_cells callback list xs s is =
    subst (λ h. foreach_loop callback (suc list.length) list h s ≡ some (visit callback xs s))
      (sym is.head_first)
      (foreach_loop-visit callback (suc list.length) list [] xs s is (omega (arith, is.counted)))

-- What is left while `list_clear` runs: the nodes of the cells behind the pointer.
record Rest (list : LinkedList) (xs : Cells) : Type 0 where
  distinct : Distinct xs
  nodes : (q : ℕ) → list.node q ≡ node_at xs q

-- A cleared list: no node is left, and the values were handed to the callback in order.
pub record Cleared (list : LinkedList) (xs : Cells) (list' : LinkedList) : Type 0 where
  pub gone : (q : ℕ) → list'.node q ≡ none
  pub called :
      list'.released ≡ (if list.has_free_cb then list.released ++ values xs else list.released)

pub data Clears (list : LinkedList) (xs : Cells) : Option LinkedList → Type 0 where
  clears : {list' : LinkedList} → Cleared list xs list' → Clears list xs (some list')

-- The list after `list_clear`.
pub data CellsCleared (list : LinkedList) (xs : Cells) : Option LinkedList → Type 0 where
  cleared :
      {list' : LinkedList}
      → IsList list' []
      → list'.released ≡ (if list.has_free_cb then list.released ++ values xs else list.released)
      → CellsCleared list xs (some list')

cons-Clears :
    (list : LinkedList) (a v : ℕ) (n : Node) (xs : Cells) (r : Option LinkedList)
    → n.value ≡ v
    → Clears (free_node list a n) xs r
    → Clears list ((a, v) ∷ xs) r
cons-Clears list a v n xs r e (clears done) = clears (record {
  gone = done.gone;
  called = ground (arith, done.called, append_assoc list.released (v ∷ []) (values xs));
})

clear_loop-Clears :
    (fuel : ℕ) (list : LinkedList) (xs : Cells)
    → Rest list xs
    → length xs < fuel
    → Clears list xs (clear_loop fuel list (first xs))
unfolding clear_loop node_at
clear_loop-Clears zero list xs rest enough = absurd (omega arith)
clear_loop-Clears (suc fuel) list [] rest enough =
    clears (record { gone = rest.nodes; called = ground (arith, append-nil list.released) })
clear_loop-Clears (suc fuel) list ((a, v) ∷ xs) rest enough =
    let (ne, new, d) = rest.distinct in
    let there : list.node a ≡ some (node_of (first xs) v) = ground (arith, rest.nodes a) in
    rw (ne→== a 0 ne, there, clear_loop)
      (cons-Clears list a v (node_of (first xs) v) xs _ refl (
        clear_loop-Clears fuel (free_node list a (node_of (first xs) v)) xs
          (record {
            distinct = d;
            nodes = λ q. ground (arith, rest.nodes q, node_at-none xs a new);
          })
          (omega arith)))

emptied-Clears :
    (list : LinkedList) (xs : Cells) (r : Option LinkedList)
    → Clears list xs r
    → CellsCleared list xs (emptied r)
unfolding node_at
emptied-Clears list xs r (clears done) =
    cleared
      (record {
        distinct = tt;
        nodes = done.gone;
        head_first = refl;
        tail_last = refl;
        counted = refl;
      })
      done.called

-- `list_clear` frees every node, calls back with every value in order, and leaves an empty list.
pub clear-CellsCleared :
    (list : LinkedList) (xs : Cells) → IsList list xs → CellsCleared list xs (clear list)
unfolding clear
clear-CellsCleared list xs is =
    emptied-Clears list xs (clear_loop (suc list.length) list list.head) (
      subst (λ h. Clears list xs (clear_loop (suc list.length) list h)) (sym is.head_first)
        (clear_loop-Clears (suc list.length) list xs
          (record { distinct = is.distinct; nodes = is.nodes }) (omega (arith, is.counted))))

-- `list_front` and `list_back` on a list that is not empty.
pub front-first :
    (list : LinkedList) (a v : ℕ) (xs : Cells) → IsList list ((a, v) ∷ xs) → front list ≡ some v
unfolding front
front-first list a v xs is =
    let some_length : (list.length == 0) ≡ false = ground (arith, is.counted) in
    let first_node : list.node list.head ≡ some (node_of (first xs) v) =
      ap (λ q. list.node q) is.head_first ∙ there list [] a v xs is in
    rw (some_length, value_at, first_node) refl

pub back-last :
    (list : LinkedList) (pre : Cells) (a v : ℕ)
    → IsList list (pre ++ ((a, v) ∷ []))
    → back list ≡ some v
unfolding back
back-last list pre a v is =
    let last : list.tail ≡ a = is.tail_last ∙ last_or-split pre 0 a v [] in
    let last_node : list.node list.tail ≡ some (node_of 0 v) =
      ap (λ q. list.node q) last ∙ there list pre a v [] is in
    let some_length : (list.length == 0) ≡ false =
      ground (arith, is.counted, length-append pre ((a, v) ∷ [])) in
    rw (some_length, value_at, last_node) refl

-- Of an empty list there is no front and no back: the assertion fails.
pub empty-ends : (list : LinkedList) → IsList list [] → (front list ≡ none) × (back list ≡ none)
unfolding front back
empty-ends list is =
    let no_length : (list.length == 0) ≡ true = ground (arith, is.counted) in
    (rw no_length refl, rw no_length refl)
