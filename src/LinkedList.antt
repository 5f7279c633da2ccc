-- ===== src/LinkedList.antt =====
-- src/list.c: a singly linked list with a pointer to its last node. A pointer is a number, 0 is NULL.
-- `node` gives the nodes of the list that are allocated, so each function that writes to one, takes or
-- frees one passes the store on. What `alloc` returns is an argument. `none` is a failed assertion or a
-- read through a pointer that holds no node. `released` lists what was handed to `free_cb`.
pub mod Cells
pub mod Insert
pub mod Remove
pub mod Walk
pub mod Sequence
mod Tests
use osi.Prelude.{
  ℕ, zero, suc, ◌+◌, ◌-◌, Bool, true, false, Option, none, some, List, [], ◌∷◌, ◌++◌, ◌==◌,
  if◌then◌else◌,
}

pub record Node : Type 0 where
  pub next : ℕ
  pub value : ℕ

abbrev pub node_of : ℕ → ℕ → Node
node_of next value = record { next = next; value = value }

-- A `list_t` and its nodes.
pub record LinkedList : Type 0 where
  pub head : ℕ
  pub tail : ℕ
  pub length : ℕ
  pub has_free_cb : Bool
  pub node : ℕ → Option Node
  pub released : List ℕ

-- `list_new_internal`, where the list itself could be allocated.
abbrev pub new_internal : Bool → LinkedList
new_internal has_free_cb = record {
  head = 0;
  tail = 0;
  length = 0;
  has_free_cb = has_free_cb;
  node = λ _. none;
  released = [];
}

abbrev pub store : (ℕ → Option Node) → ℕ → Option Node → ℕ → Option Node
store node p c q = if q == p then c else node q

abbrev pub is_empty : LinkedList → Bool
is_empty list = list.length == 0

-- `list_begin` and `list_next`; `list_end` is NULL.
abbrev pub begin : LinkedList → ℕ
begin list = list.head

-- The field `data` of the node at a pointer.
abbrev pub value_at : LinkedList → ℕ → Option ℕ
value_at list p = elim (list.node p) [ none ↦ none | some n ↦ some n.value ]

unfoldable pub front : LinkedList → Option ℕ
front list = if is_empty list then none else value_at list list.head

unfoldable pub back : LinkedList → Option ℕ
back list = if is_empty list then none else value_at list list.tail

-- The assertion that the data pointer is not NULL, with which the calls that are given one begin.
abbrev pub asserted {ℓ} : {A : Type ℓ} → (value : ℕ) → Option A → Option A
asserted value r = if value == 0 then none else r

-- The loop of `list_contains`. Its fuel is the length of the list and one more for the end.
unfoldable pub contains_loop : ℕ → LinkedList → ℕ → ℕ → Option Bool
contains_loop zero list p value = none
contains_loop (suc fuel) list p value = elim (p == 0) [
  | true ↦ some false
  | false ↦ elim (list.node p) [
    | none ↦ none
    | some n ↦ elim (n.value == value) [
      | true ↦ some true
      | false ↦ contains_loop fuel list n.next value
    ]
  ]
]

-- `list_contains` behind its assertions.
unfoldable pub contains_value : LinkedList → ℕ → Option Bool
contains_value list value = contains_loop (suc list.length) list list.head value

-- `list_contains`
unfoldable pub contains : LinkedList → ℕ → Option Bool
unfolding contains_value
contains list value = asserted value (contains_value list value)

-- A link from the last node to a new one behind it; `tail` is NULL in an empty list.
abbrev pub link_tail : (fresh value : ℕ) → LinkedList → Option Node → Option (Bool × LinkedList)
link_tail fresh value list none = none
link_tail fresh value list (some last) = some (
  true,
  record list {
    node =
        store (store list.node list.tail (some (node_of fresh last.value))) fresh
          (some (node_of 0 value));
    tail = fresh;
    length = list.length + 1;
  },
)

-- `list_append` behind its assertions.
unfoldable pub append_node : (fresh value : ℕ) → LinkedList → Option (Bool × LinkedList)
append_node fresh value list =
    if fresh == 0
    then some (false, list)
    else if list.tail == 0
    then some (
      true,
      record list {
        node = store list.node fresh (some (node_of 0 value));
        head = fresh;
        tail = fresh;
        length = list.length + 1;
      },
    )
    else link_tail fresh value list (list.node list.tail)

-- `list_append`
unfoldable pub append : (fresh value : ℕ) → LinkedList → Option (Bool × LinkedList)
unfolding append_node
append fresh value list = asserted value (append_node fresh value list)

-- `list_prepend` behind its assertions.
unfoldable pub prepend_node : (fresh value : ℕ) → LinkedList → Option (Bool × LinkedList)
prepend_node fresh value list =
    if fresh == 0
    then some (false, list)
    else some (
      true,
      record list {
        node = store list.node fresh (some (node_of list.head value));
        head = fresh;
        tail = if list.tail == 0 then fresh else list.tail;
        length = list.length + 1;
      },
    )

-- `list_prepend`
unfoldable pub prepend : (fresh value : ℕ) → LinkedList → Option (Bool × LinkedList)
unfolding prepend_node
prepend fresh value list = asserted value (prepend_node fresh value list)

-- What `list_insert_after` does to the node that it is given.
abbrev pub link_after :
    (fresh prev value : ℕ) → LinkedList → Option Node → Option (Bool × LinkedList)
link_after fresh prev value list none = none
link_after fresh prev value list (some n) = some (
  true,
  record list {
    node =
        store (store list.node fresh (some (node_of n.next value))) prev
          (some (node_of fresh n.value));
    tail = if list.tail == prev then fresh else list.tail;
    length = list.length + 1;
  },
)

-- `list_insert_after` behind its assertions.
unfoldable pub insert_node : (fresh prev value : ℕ) → LinkedList → Option (Bool × LinkedList)
insert_node fresh prev value list =
    if fresh == 0 then some (false, list) else link_after fresh prev value list (list.node prev)

-- `list_insert_after`
unfoldable pub insert_after : (fresh prev value : ℕ) → LinkedList → Option (Bool × LinkedList)
unfolding insert_node
insert_after fresh prev value list = asserted value (insert_node fresh prev value list)

-- `list_free_node_` on the node read from `p`: what is left; the node's `next` is returned.
abbrev pub free_node : LinkedList → (p : ℕ) → Node → LinkedList
free_node list p n = record list {
  node = store list.node p none;
  released = if list.has_free_cb then list.released ++ (n.value ∷ []) else list.released;
  length = list.length - 1;
}

-- The head is freed, and the next node is the head.
abbrev pub remove_head : LinkedList → Node → LinkedList
remove_head list n = record (free_node list list.head n) {
  tail = if list.tail == list.head then n.next else list.tail;
  head = n.next;
}

-- `prev->next = list_free_node_(list, node)`, and the tail.
abbrev pub unlink : LinkedList → (prev p : ℕ) → Node → Option Node → Option (Bool × LinkedList)
unlink list prev p n none = none
unlink list prev p n (some before) = some (
  true,
  record (free_node list p n) {
    node = store (store list.node p none) prev (some (node_of n.next before.value));
    tail = if list.tail == p then prev else list.tail;
  },
)

-- The loop of `list_remove` behind the first node.
unfoldable pub remove_loop : ℕ → LinkedList → (value prev p : ℕ) → Option (Bool × LinkedList)
remove_loop zero list value prev p = none
remove_loop (suc fuel) list value prev p = elim (p == 0) [
  | true ↦ some (false, list)
  | false ↦ elim (list.node p) [
    | none ↦ none
    | some n ↦ elim (n.value == value) [
      | true ↦ unlink list prev p n (list.node prev)
      | false ↦ remove_loop fuel list value p n.next
    ]
  ]
]

abbrev pub remove_from : LinkedList → ℕ → Option Node → Option (Bool × LinkedList)
remove_from list value none = none
remove_from list value (some n) =
    if n.value == value
    then some (true, remove_head list n)
    else remove_loop list.length list value list.head n.next

-- `list_remove` behind its assertions.
unfoldable pub remove_value : ℕ → LinkedList → Option (Bool × LinkedList)
remove_value value list =
    if is_empty list then some (false, list) else remove_from list value (list.node list.head)

-- `list_remove`
unfoldable pub remove : ℕ → LinkedList → Option (Bool × LinkedList)
unfolding remove_value
remove value list = asserted value (remove_value value list)

-- The loop of `list_clear`.
unfoldable pub clear_loop : ℕ → LinkedList → ℕ → Option LinkedList
clear_loop zero list p = none
clear_loop (suc fuel) list p = elim (p == 0) [
  | true ↦ some list
  | false ↦ elim (list.node p) [
    | none ↦ none
    | some n ↦ clear_loop fuel (free_node list p n) n.next
  ]
]

abbrev pub emptied : Option LinkedList → Option LinkedList
emptied none = none
emptied (some list) = some (record list { head = 0; tail = 0; length = 0 })

unfoldable pub clear : LinkedList → Option LinkedList
clear list = emptied (clear_loop (suc list.length) list list.head)

-- `list_foreach`: the pointer that is returned, and the context that the callback is passed.
unfoldable pub foreach_loop {ℓ} :
    {S : Type ℓ} → (ℕ → S → Bool × S) → ℕ → LinkedList → ℕ → S → Option (ℕ × S)
foreach_loop callback zero list p s = none
foreach_loop callback (suc fuel) list p s = elim (p == 0) [
  | true ↦ some (0, s)
  | false ↦ elim (list.node p) [
    | none ↦ none
    | some n ↦
        let (more, s') = callback n.value s in
        elim more [ true ↦ foreach_loop callback fuel list n.next s' | false ↦ some (p, s') ]
  ]
]

unfoldable pub foreach {ℓ} : {S : Type ℓ} → (ℕ → S → Bool × S) → LinkedList → S → Option (ℕ × S)
foreach callback list s = foreach_loop callback (suc list.length) list list.head s
