-- ===== src/LinkedList/Remove.antt =====
-- `list_remove` and `list_clear` on the cells.
use osi.Prelude.{
  ℕ, zero, suc, ◌<◌, ◌≡◌, refl, ap, sym, subst, ◌∙◌, Bool, true, false, Option, none, some, List,
  [], ◌∷◌, ◌++◌, ◌==◌, ◌||◌, ◌&&◌, if◌then◌else◌, length, Bool-cases, inl, inr, ==→eq, ne→==,
  append_assoc, arith,
}
use osi.LinkedList.{remove_head, node_of, LinkedList, remove_value, remove_loop, unlink}
use osi.LinkedList.Cells.{
  Cells, values, first, last_or, has, Distinct, node_at, IsList, has-append, node_at_split,
  node_at-none,
}
use osi.LinkedList.Insert.{last_or-split, first_split, split_out, split_ne, tail_behind, last_or_ne}

abbrev pub has_value : List ℕ → ℕ → Bool
has_value [] v = false
has_value (w ∷ xs) v = w == v || has_value xs v

-- A sequence without the first of a value.
abbrev pub erase : List ℕ → ℕ → List ℕ
erase [] v = []
erase (w ∷ xs) v = if w == v then xs else w ∷ erase xs v

abbrev pub erase_cell : Cells → ℕ → Cells
erase_cell [] v = []
erase_cell ((a, w) ∷ xs) v = if w == v then xs else (a, w) ∷ erase_cell xs v

pub values-erase : (xs : Cells) (v : ℕ) → values (erase_cell xs v) ≡ erase (values xs) v
values-erase [] v = refl
values-erase ((a, w) ∷ xs) v = ground (arith, values-erase xs v)

-- What a removal gives: whether the value was there, the cells without the first that has it, and the
-- value handed to the callback, if there is one.
pub data Removed (list : LinkedList) (found : Bool) (new : Cells) (v : ℕ)
    : Option (Bool × LinkedList) → Type 0 where
  removed :
      {list' : LinkedList}
      → IsList list' new
      → list'.released
        ≡ (if found && list.has_free_cb then list.released ++ (v ∷ []) else list.released)
      → Removed list found new v (some (found, list'))

node_at_drop :
    (pre : Cells) (p w a u : ℕ) (post : Cells) (q : ℕ)
    → Distinct (pre ++ ((p, w) ∷ (a, u) ∷ post))
    → node_at (pre ++ ((p, w) ∷ post)) q ≡ (
        if q == p
        then some (node_of (first post) w)
        else if q == a
        then none
        else node_at (pre ++ ((p, w) ∷ (a, u) ∷ post)) q)
unfolding node_at
node_at_drop [] p w a u post q (ne, out, (ne', out', d)) = ground (arith, node_at-none post a out')
node_at_drop ((b, t) ∷ []) p w a u post q (ne, out, d) =
    ground (arith, node_at_drop [] p w a u post q d)
node_at_drop ((b, t) ∷ c ∷ pre) p w a u post q (ne, out, d) = ground (
  arith,
  has-append (c ∷ pre) ((p, w) ∷ (a, u) ∷ post) b,
  node_at_drop (c ∷ pre) p w a u post q d,
)

has-drop :
    (pre : Cells) (x y : ℕ × ℕ) (post : Cells) (q : ℕ)
    → has (pre ++ (x ∷ y ∷ post)) q ≡ false
    → has (pre ++ (x ∷ post)) q ≡ false
has-drop [] (p, w) (a, u) post q h = ground arith
has-drop ((b, t) ∷ pre) x y post q h = ground (arith, has-drop pre x y post q)

Distinct-drop :
    (pre : Cells) (x y : ℕ × ℕ) (post : Cells)
    → Distinct (pre ++ (x ∷ y ∷ post))
    → Distinct (pre ++ (x ∷ post))
Distinct-drop [] (p, w) (a, u) post (ne, out, (ne', out', d)) = (ne, ground arith, d)
Distinct-drop ((b, t) ∷ pre) x y post (ne, out, d) =
    (ne, has-drop pre x y post b out, Distinct-drop pre x y post d)

length-drop :
    (pre : Cells) (x y : ℕ × ℕ) (post : Cells)
    → length (pre ++ (x ∷ y ∷ post)) ≡ suc (length (pre ++ (x ∷ post)))
length-drop [] x y post = refl
length-drop (z ∷ pre) x y post = ap suc (length-drop pre x y post)

shift :
    (list : LinkedList) (pre : Cells) (x y : ℕ × ℕ) (post : Cells)
    → IsList list (pre ++ (x ∷ y ∷ post))
    → IsList list ((pre ++ (x ∷ [])) ++ (y ∷ post))
shift list pre x y post is = subst (IsList list) (sym (append_assoc pre (x ∷ []) (y ∷ post))) is

-- The node behind `p` is unlinked and freed.
unlink-Removed :
    (list : LinkedList) (pre : Cells) (p w a v : ℕ) (post : Cells)
    → IsList list (pre ++ ((p, w) ∷ (a, v) ∷ post))
    → Removed list true
        (pre ++ ((p, w) ∷ post))
        v
        (unlink list p a (node_of (first post) v) (list.node p))
unlink-Removed list pre p w a v post is =
    let there : list.node p ≡ some (node_of a w) =
      is.nodes p ∙ node_at_split pre p w ((a, v) ∷ post) is.distinct in
    rw there (
      removed
        (record {
          distinct = Distinct-drop pre (p, w) (a, v) post is.distinct;
          nodes = λ q. ground (arith, is.nodes q, node_at_drop pre p w a v post q is.distinct);
          head_first = is.head_first ∙ first_split pre p w ((a, v) ∷ post) post;
          tail_last = rw (is.tail_last ∙ last_or-split pre 0 p w ((a, v) ∷ post)) (
              tail_behind a p post (
                split_out (pre ++ ((p, w) ∷ [])) a v post
                  (shift list pre (p, w) (a, v) post is).distinct)
              ∙ sym (last_or-split pre 0 p w post));
          counted = omega (arith, is.counted, length-drop pre (p, w) (a, v) post);
        })
        refl)

remove_loop-Removed :
    (fuel : ℕ) (list : LinkedList) (v : ℕ) (pre : Cells) (p w : ℕ) (post : Cells)
    → IsList list (pre ++ ((p, w) ∷ post))
    → length post < fuel
    → Removed list
        (has_value (values post) v)
        (pre ++ ((p, w) ∷ erase_cell post v))
        v
        (remove_loop fuel list v p (first post))
unfolding remove_loop
remove_loop-Removed zero list v pre p w post is enough = absurd (omega arith)
remove_loop-Removed (suc fuel) list v pre p w [] is enough = removed is refl
remove_loop-Removed (suc fuel) list v pre p w ((a, u) ∷ post) is enough =
    let is' = shift list pre (p, w) (a, u) post is in
    let there : list.node a ≡ some (node_of (first post) u) =
      is'.nodes a ∙ node_at_split (pre ++ ((p, w) ∷ [])) a u post is'.distinct in
    let ne = split_ne (pre ++ ((p, w) ∷ [])) a u post is'.distinct in
    rw (ne→== a 0 ne, there, remove_loop)
      (elim (Bool-cases (u == v)) [
        | inl hit ↦ rw hit (
            subst
              (λ t.
                Removed list true (pre ++ ((p, w) ∷ post)) t
                  (unlink list p a (node_of (first post) u) (list.node p)))
              (==→eq u v hit) (unlink-Removed list pre p w a u post is))
        | inr miss ↦ rw miss (
            subst
              (λ cells.
                Removed list (has_value (values post) v) cells v
                  (remove_loop fuel list v a (first post)))
              (append_assoc pre ((p, w) ∷ []) ((a, u) ∷ erase_cell post v))
              (remove_loop-Removed fuel list v (pre ++ ((p, w) ∷ [])) a u post is' (omega arith)))
      ])

head_tail :
    (list : LinkedList) (a u : ℕ) (xs : Cells)
    → IsList list ((a, u) ∷ xs)
    → (if list.tail == list.head then first xs else list.tail) ≡ last_or 0 xs
head_tail list a u [] is = ground (arith, is.tail_last, is.head_first)
head_tail list a u ((b, t) ∷ xs) is = ground (
  arith,
  is.tail_last,
  is.head_first,
  last_or_ne a b t xs (split_out [] a u ((b, t) ∷ xs) is.distinct),
)

-- `list_remove` on any list: it says whether the value is there, takes out the first cell that has it,
-- frees that node and calls back with the value; else the list is as before.
pub remove_value-Removed :
    (list : LinkedList) (xs : Cells) (v : ℕ)
    → IsList list xs
    → Removed list (has_value (values xs) v) (erase_cell xs v) v (remove_value v list)
unfolding remove_value node_at
remove_value-Removed list [] v is =
    let no_length : (list.length == 0) ≡ true = ground (arith, is.counted) in
    rw no_length (removed is refl)
remove_value-Removed list ((a, u) ∷ xs) v is =
    let there : list.node list.head ≡ some (node_of (first xs) u) =
      ap (λ q. list.node q) is.head_first ∙ is.nodes a ∙ node_at_split [] a u xs is.distinct in
    let some_length : (list.length == 0) ≡ false = ground (arith, is.counted) in
    rw (some_length, there)
      (elim (Bool-cases (u == v)) [
        | inl hit ↦ rw hit (
            subst
              (λ t. Removed list true xs t (some (true, remove_head list (node_of (first xs) u))))
              (==→eq u v hit)
              (removed
                (record {
                  distinct = is.distinct.2;
                  nodes = λ q. ground (arith, is.nodes q, is.head_first, node_at-none xs a);
                  head_first = refl;
                  tail_last = head_tail list a u xs is;
                  counted = omega (arith, is.counted);
                })
                refl))
        | inr miss ↦ rw miss (
            subst
              (λ h.
                Removed list (has_value (values xs) v) ((a, u) ∷ erase_cell xs v) v
                  (remove_loop list.length list v h (first xs)))
              (sym is.head_first)
              (remove_loop-Removed list.length list v [] a u xs is (omega (arith, is.counted))))
      ])
