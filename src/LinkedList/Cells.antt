-- ===== src/LinkedList/Cells.antt =====
-- What a list stands for: the address and the value of each node, in order.
use osi.Prelude.{
  ℕ, suc, ◌≡◌, ◌≢◌, refl, ap, Bool, false, Option, none, some, List, [], ◌∷◌, ◌++◌, ◌==◌, ◌||◌,
  if◌then◌else◌, length, ==-self, arith,
}
use osi.LinkedList.{Node, node_of, LinkedList}

abbrev pub Cells : Type 0
Cells = List (ℕ × ℕ)

abbrev pub values : Cells → List ℕ
values [] = []
values ((_, v) ∷ xs) = v ∷ values xs

-- The address of the first node, or NULL.
abbrev pub first : Cells → ℕ
first [] = 0
first ((a, _) ∷ _) = a

-- The address of the last node, or the given one.
abbrev pub last_or : ℕ → Cells → ℕ
last_or d [] = d
last_or d ((a, _) ∷ xs) = last_or a xs

abbrev pub has : Cells → ℕ → Bool
has [] q = false
has ((a, _) ∷ xs) q = q == a || has xs q

-- No address is NULL, and none stands twice.
abbrev pub Distinct : Cells → Type 0
Distinct [] = Unit
Distinct ((a, _) ∷ xs) = (a ≢ 0) × (has xs a ≡ false) × Distinct xs

-- The node that the store has at an address.
unfoldable pub node_at : Cells → ℕ → Option Node
node_at [] q = none
node_at ((a, v) ∷ xs) q = if q == a then some (node_of (first xs) v) else node_at xs q

-- The store holds exactly the nodes of the cells, linked in their order.
pub record IsList (list : LinkedList) (xs : Cells) : Type 0 where
  pub distinct : Distinct xs
  pub nodes : (q : ℕ) → list.node q ≡ node_at xs q
  pub head_first : list.head ≡ first xs
  pub tail_last : list.tail ≡ last_or 0 xs
  pub counted : list.length ≡ length xs

pub length-values : (xs : Cells) → length (values xs) ≡ length xs
length-values [] = refl
length-values (x ∷ xs) = ap suc (length-values xs)

pub values-append : (xs ys : Cells) → values (xs ++ ys) ≡ values xs ++ values ys
values-append [] ys = refl
values-append (x ∷ xs) ys = ap (◌∷◌ (x.1)) (values-append xs ys)

pub has-append : (xs ys : Cells) (q : ℕ) → has (xs ++ ys) q ≡ (has xs q || has ys q)
has-append [] ys q = refl
has-append (x ∷ xs) ys q = ground (arith, has-append xs ys q)

-- An address without a node is not that of a cell.
pub has_not : (xs : Cells) (q : ℕ) → node_at xs q ≡ none → has xs q ≡ false
unfolding node_at
has_not [] q h = refl
has_not ((a, v) ∷ xs) q h = ground (arith, has_not xs q)

pub node_at-none : (xs : Cells) (q : ℕ) → has xs q ≡ false → node_at xs q ≡ none
unfolding node_at
node_at-none [] q h = refl
node_at-none ((a, v) ∷ xs) q h = ground (arith, node_at-none xs q)

-- NULL is the address of no cell.
pub null_not : (xs : Cells) → Distinct xs → has xs 0 ≡ false
null_not [] d = refl
null_not ((a, v) ∷ xs) (ne, new, d) = ground (arith, null_not xs d)

pub Distinct-append :
    (xs : Cells) (a v : ℕ) → Distinct xs → a ≢ 0 → has xs a ≡ false → Distinct (xs ++ ((a, v) ∷ []))
Distinct-append [] a v d ne new = (ne, refl, tt)
Distinct-append ((b, w) ∷ xs) a v (bne, bnew, d) ne new =
    (bne, ground (arith, has-append xs ((a, v) ∷ []) b), Distinct-append xs a v d ne (ground arith))

-- The cell at which a list is split: its node leads to what is behind it.
pub node_at_split :
    (pre : Cells) (a v : ℕ) (post : Cells)
    → Distinct (pre ++ ((a, v) ∷ post))
    → node_at (pre ++ ((a, v) ∷ post)) a ≡ some (node_of (first post) v)
unfolding node_at
node_at_split [] a v post d = rw (==-self a) refl
node_at_split ((b, w) ∷ pre) a v post (ne, new, d) =
    ground (arith, has-append pre ((a, v) ∷ post) b, node_at_split pre a v post d)
