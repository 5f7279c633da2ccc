-- ===== src/LinkedList/Insert.antt =====
-- `list_prepend`, `list_append` and `list_insert_after` on the cells.
use osi.Prelude.{
  append_assoc, ℕ, suc, ◌+◌, ◌≡◌, ◌≢◌, refl, ap, sym, subst, ◌∙◌, Bool, true, false, Option, none,
  some, [], ◌∷◌, ◌++◌, ◌==◌, ◌||◌, if◌then◌else◌, length, Bool-cases, inl, inr, ==→eq, ==→ne,
  ==-self, ne→==, arith,
}
use osi.LinkedList.{node_of, LinkedList, append_node, prepend_node, insert_node}
use osi.LinkedList.Cells.{
  Cells, first, last_or, has, Distinct, node_at, IsList, has-append, has_not, node_at_split,
}

-- What an insertion gives: it fails and changes nothing where no node can be allocated, and else the
-- list has the new cells. No value is released.
pub data Inserted (list : LinkedList) (new : Cells) (fresh : ℕ)
    : Option (Bool × LinkedList) → Type 0 where
  refused : fresh ≡ 0 → Inserted list new fresh (some (false, list))
  inserted :
      {list' : LinkedList}
      → fresh ≢ 0
      → IsList list' new
      → list'.released ≡ list.released
      → Inserted list new fresh (some (true, list'))

-- A cell between two others.
pub node_at_insert :
    (pre : Cells) (p w f v : ℕ) (post : Cells) (q : ℕ)
    → Distinct (pre ++ ((p, w) ∷ post))
    → has (pre ++ ((p, w) ∷ post)) f ≡ false
    → node_at (pre ++ ((p, w) ∷ (f, v) ∷ post)) q ≡ (
        if q == p
        then some (node_of f w)
        else if q == f
        then some (node_of (first post) v)
        else node_at (pre ++ ((p, w) ∷ post)) q)
unfolding node_at
node_at_insert [] p w f v post q d new = ground arith
node_at_insert ((b, u) ∷ []) p w f v post q (ne, out, d) new =
    ground (arith, node_at_insert [] p w f v post q d)
node_at_insert ((b, u) ∷ c ∷ pre) p w f v post q (ne, out, d) new =
    ground
      (arith, has-append (c ∷ pre) ((p, w) ∷ post) b, node_at_insert (c ∷ pre) p w f v post q d)

has-insert :
    (pre : Cells) (p w f v : ℕ) (post : Cells) (q : ℕ)
    → has (pre ++ ((p, w) ∷ (f, v) ∷ post)) q ≡ (q == f || has (pre ++ ((p, w) ∷ post)) q)
has-insert [] p w f v post q = ground arith
has-insert ((b, u) ∷ pre) p w f v post q = ground (arith, has-insert pre p w f v post q)

Distinct-insert :
    (pre : Cells) (p w f v : ℕ) (post : Cells)
    → Distinct (pre ++ ((p, w) ∷ post))
    → f ≢ 0
    → has (pre ++ ((p, w) ∷ post)) f ≡ false
    → Distinct (pre ++ ((p, w) ∷ (f, v) ∷ post))
Distinct-insert [] p w f v post (pne, out, d) ne new = (pne, ground arith, (ne, ground arith, d))
Distinct-insert ((b, u) ∷ pre) p w f v post (bne, out, d) ne new = (
  bne,
  ground (arith, has-insert pre p w f v post b),
  Distinct-insert pre p w f v post d ne (ground arith),
)

pub last_or-split :
    (pre : Cells) (d p w : ℕ) (post : Cells) → last_or d (pre ++ ((p, w) ∷ post)) ≡ last_or p post
last_or-split [] d p w post = refl
last_or-split ((b, u) ∷ pre) d p w post = last_or-split pre b p w post

-- The last address is in the list, or the list is empty.
pub last_or-has : (d a w : ℕ) (xs : Cells) → has ((a, w) ∷ xs) (last_or d ((a, w) ∷ xs)) ≡ true
last_or-has d a w [] = ground (arith, ==-self a)
last_or-has d a w ((b, u) ∷ xs) = ground (arith, last_or-has d b u xs)

pub last_ne_null : (a w : ℕ) (xs : Cells) → Distinct ((a, w) ∷ xs) → (last_or a xs == 0) ≡ false
last_ne_null a w [] (ne, out, d) = ground arith
last_ne_null a w ((b, u) ∷ xs) (ne, out, d) = last_ne_null b u xs d

-- Only the last cell is the last.
pub last_or_ne :
    (p b u : ℕ) (post : Cells) → has ((b, u) ∷ post) p ≡ false → (last_or b post == p) ≡ false
last_or_ne p b u post out = ground (arith, last_or-has p b u post)

length-insert :
    (pre : Cells) (x y : ℕ × ℕ) (post : Cells)
    → length (pre ++ (x ∷ y ∷ post)) ≡ suc (length (pre ++ (x ∷ post)))
length-insert [] x y post = refl
length-insert (z ∷ pre) x y post = ap suc (length-insert pre x y post)

-- The cells of a list that is not empty, split at the last.
pub last_split :
    (x : ℕ × ℕ) (xs : Cells) → (pre : Cells) × (a : ℕ) × (w : ℕ) × ((x ∷ xs) ≡ pre ++ ((a, w) ∷ []))
last_split (a, w) [] = ([], a, w, refl)
last_split x (y ∷ xs) = let (pre, a, w, e) = last_split y xs in (x ∷ pre, a, w, ap (◌∷◌ x) e)

pub first_split :
    (pre : Cells) (p w : ℕ) (post post' : Cells)
    → first (pre ++ ((p, w) ∷ post)) ≡ first (pre ++ ((p, w) ∷ post'))
first_split [] p w post post' = refl
first_split (x ∷ pre) p w post post' = refl

pub split_out :
    (pre : Cells) (p w : ℕ) (post : Cells) → Distinct (pre ++ ((p, w) ∷ post)) → has post p ≡ false
split_out [] p w post (ne, out, d) = out
split_out (x ∷ pre) p w post (ne, out, d) = split_out pre p w post d

pub split_ne : (pre : Cells) (p w : ℕ) (post : Cells) → Distinct (pre ++ ((p, w) ∷ post)) → p ≢ 0
split_ne [] p w post (ne, out, d) = ne
split_ne (x ∷ pre) p w post (ne, out, d) = split_ne pre p w post d

pub tail_behind :
    (p f : ℕ) (post : Cells)
    → has post p ≡ false
    → (if last_or p post == p then f else last_or p post) ≡ last_or f post
tail_behind p f [] out = rw (==-self p) refl
tail_behind p f ((b, u) ∷ post) out = rw (last_or_ne p b u post out) refl

front_tail :
    (f : ℕ) (xs : Cells)
    → Distinct xs
    → (if last_or 0 xs == 0 then f else last_or 0 xs) ≡ last_or f xs
front_tail f [] d = refl
front_tail f ((b, u) ∷ xs) d = rw (last_ne_null b u xs d) refl

-- The store of a list, changed as an insertion behind the cell `p` changes it.
insert-IsList :
    (list list' : LinkedList) (pre : Cells) (p w f v : ℕ) (post : Cells)
    → IsList list (pre ++ ((p, w) ∷ post))
    → f ≢ 0
    → list.node f ≡ none
    → ((q : ℕ)
        → list'.node q ≡ (
            if q == p
            then some (node_of f w)
            else if q == f
            then some (node_of (first post) v)
            else list.node q))
    → list'.head ≡ list.head
    → list'.tail ≡ (if list.tail == p then f else list.tail)
    → list'.length ≡ list.length + 1
    → IsList list' (pre ++ ((p, w) ∷ (f, v) ∷ post))
insert-IsList list list' pre p w f v post is ne unused nodes head tail count =
    let new = has_not (pre ++ ((p, w) ∷ post)) f (sym (is.nodes f) ∙ unused) in
    record {
      distinct = Distinct-insert pre p w f v post is.distinct ne new;
      nodes = λ q.
          ground (arith, nodes q, is.nodes q, node_at_insert pre p w f v post q is.distinct new);
      head_first = head ∙ is.head_first ∙ first_split pre p w post ((f, v) ∷ post);
      tail_last =
          tail
          ∙ rw (is.tail_last ∙ last_or-split pre 0 p w post) (
              tail_behind p f post (split_out pre p w post is.distinct)
              ∙ sym (last_or-split pre 0 p w ((f, v) ∷ post)));
      counted = omega (arith, count, is.counted, length-insert pre (p, w) (f, v) post);
    }

-- `list_prepend`, where the address that the allocator gives holds no node, or is NULL.
pub prepend_node-Inserted :
    (list : LinkedList) (xs : Cells) (fresh v : ℕ)
    → IsList list xs
    → list.node fresh ≡ none
    → Inserted list ((fresh, v) ∷ xs) fresh (prepend_node fresh v list)
unfolding prepend_node node_at
prepend_node-Inserted list xs fresh v is unused = elim (Bool-cases (fresh == 0)) [
  | inl e ↦ rw e (refused (==→eq fresh 0 e))
  | inr e ↦ rw e (
      inserted (==→ne fresh 0 e)
        (record {
          distinct =
              (==→ne fresh 0 e, has_not xs fresh (sym (is.nodes fresh) ∙ unused), is.distinct);
          nodes = λ q. ground (arith, is.nodes q, is.head_first);
          head_first = refl;
          tail_last = rw is.tail_last (front_tail fresh xs is.distinct);
          counted = omega (arith, is.counted);
        })
        refl)
]

append_split :
    (list : LinkedList) (pre : Cells) (a w fresh v : ℕ)
    → IsList list (pre ++ ((a, w) ∷ []))
    → fresh ≢ 0
    → list.node fresh ≡ none
    → Inserted list (pre ++ ((a, w) ∷ (fresh, v) ∷ [])) fresh (append_node fresh v list)
unfolding append_node
append_split list pre a w fresh v is ne unused =
    let last : list.tail ≡ a = is.tail_last ∙ last_or-split pre 0 a w [] in
    let there : list.node list.tail ≡ some (node_of 0 w) =
      ap (λ q. list.node q) last ∙ is.nodes a ∙ node_at_split pre a w [] is.distinct in
    let some_tail : (list.tail == 0) ≡ false = ground (arith, split_ne pre a w [] is.distinct) in
    let other : a ≢ fresh = λ e. absurd (ground (arith, ap (λ q. list.node q) (last ∙ e))) in
    rw (ne→== fresh 0 ne, some_tail, there)
      (inserted ne
        (insert-IsList list _ pre a w fresh v [] is ne unused (λ q. ground (arith, last)) refl
          (ground (arith, last)) refl)
        refl)

-- `list_append`, likewise.
pub append_node-Inserted :
    (list : LinkedList) (xs : Cells) (fresh v : ℕ)
    → IsList list xs
    → list.node fresh ≡ none
    → Inserted list (xs ++ ((fresh, v) ∷ [])) fresh (append_node fresh v list)
unfolding append_node node_at
append_node-Inserted list [] fresh v is unused = elim (Bool-cases (fresh == 0)) [
  | inl e ↦ rw e (refused (==→eq fresh 0 e))
  | inr e ↦
      rw (e, is.tail_last)
        (inserted (==→ne fresh 0 e)
          (record {
            distinct = (==→ne fresh 0 e, refl, tt);
            nodes = λ q. ground (arith, is.nodes q);
            head_first = refl;
            tail_last = refl;
            counted = omega (arith, is.counted);
          })
          refl)
]
append_node-Inserted list (x ∷ xs) fresh v is unused = elim (Bool-cases (fresh == 0)) [
  | inl e ↦ rw e (refused (==→eq fresh 0 e))
  | inr e ↦
      let (pre, a, w, split) = last_split x xs in
      subst (λ cells. Inserted list cells fresh (append_node fresh v list))
        (sym (
          ap (λ cells. cells ++ ((fresh, v) ∷ [])) split
          ∙ append_assoc pre ((a, w) ∷ []) ((fresh, v) ∷ [])))
        (append_split list pre a w fresh v (subst (IsList list) split is) (==→ne fresh 0 e) unused)
]

-- `list_insert_after` the node of a cell: the new cell stands directly behind it, wherever it is.
pub insert_node-Inserted :
    (list : LinkedList) (pre : Cells) (p w : ℕ) (post : Cells) (fresh v : ℕ)
    → IsList list (pre ++ ((p, w) ∷ post))
    → list.node fresh ≡ none
    → Inserted list (pre ++ ((p, w) ∷ (fresh, v) ∷ post)) fresh (insert_node fresh p v list)
unfolding insert_node
insert_node-Inserted list pre p w post fresh v is unused = elim (Bool-cases (fresh == 0)) [
  | inl e ↦ rw e (refused (==→eq fresh 0 e))
  | inr e ↦
      let there : list.node p ≡ some (node_of (first post) w) =
        is.nodes p ∙ node_at_split pre p w post is.distinct in
      rw (e, there)
        (inserted (==→ne fresh 0 e)
          (insert-IsList list _ pre p w fresh v post is (==→ne fresh 0 e) unused (λ q. refl) refl
            refl refl)
          refl)
]
