-- ===== src/Buffer/Reach.antt =====
-- Callers that make, share and free buffers, in any order.
use osi.Prelude.{
  ℕ, suc, ◌^◌, ◌≤◌, ◌<◌, ◌≡◌, ◌≢◌, refl, ap, sym, ◌∙◌, subst, true, ◌==◌, Bool-cases, inl, inr,
  Option, none, some, [], ◌∷◌, length, arith,
}
use osi.Buffer.{Buffer, Memory, new, new_slice, free, length_of}
use osi.Buffer.Counts.{Refs, holds, remove, Valid, Block}
use osi.Buffer.Calls.{Gives, root_of, new-Valid, slice-Valid}
use osi.Buffer.Free.{free-Valid}

-- The blocks, and the buffers that callers hold.
pub record Callers : Type 0 where
  pub memory : Memory
  pub refs : Refs

pub data Action : Type 0 where
  news : (p size : ℕ) → Action
  slices : (p buf slice_size : ℕ) → Action
  frees : (buf : ℕ) → Action

abbrev pub with_refs : Refs → Option Memory → Option Callers
with_refs refs none = none
with_refs refs (some memory) = some (record { memory = memory; refs = refs })

unfoldable pub act : Action → Callers → Option Callers
act (news p size) c = with_refs ((p, p) ∷ c.refs) (new p size c.memory)
act (slices p buf slice_size) c =
    with_refs ((p, root_of (c.memory buf)) ∷ c.refs) (new_slice p buf slice_size c.memory)
act (frees buf) c = with_refs (remove buf c.refs) (free buf c.memory)

-- What callers keep to: `osi_calloc` gives a block that is not in use, a size is positive, a slice is no
-- longer than the buffer, a buffer is used only while it is held, and there are fewer than 2^64.
abbrev pub Allowed : Callers → Action → Type 0
Allowed c (news p size) = (c.memory p ≡ none) × (0 < size) × (suc (length c.refs) < 2 ^ 64)
Allowed c (slices p buf slice_size) =
    (c.memory p ≡ none)
    × (holds buf c.refs ≡ true)
    × (suc (length c.refs) < 2 ^ 64)
    × (0 < slice_size)
    × (slice_size ≤ length_of (c.memory buf))
Allowed c (frees buf) = holds buf c.refs ≡ true

abbrev pub begin : Callers
begin = record { memory = λ _. none; refs = [] }

pub data Reaches : Callers → Callers → Type 0 where
  stays : (c : Callers) → Reaches c c
  acts :
      (c c1 c2 : Callers) (a : Action)
      → Reaches c c1
      → Allowed c1 a
      → act a c1 ≡ some c2
      → Reaches c c2

abbrev Kept : Option Callers → Type 0
Kept o = (c : Callers) × (o ≡ some c) × Valid c.memory c.refs

Gives-Kept : (refs : Refs) (o : Option Memory) → Gives refs o → Kept (with_refs refs o)
Gives-Kept refs o (memory, e, v) =
    (record { memory = memory; refs = refs }, ap (with_refs refs) e, v)

act-Kept : (a : Action) (c : Callers) → Valid c.memory c.refs → Allowed c a → Kept (act a c)
unfolding act
act-Kept (news p size) c v (free_p, pos, few) =
    Gives-Kept ((p, p) ∷ c.refs) (new p size c.memory)
      (new-Valid p size c.memory c.refs v free_p pos few)
act-Kept (slices p buf n) c v (free_p, is, few, pos, le) =
    Gives-Kept ((p, root_of (c.memory buf)) ∷ c.refs) (new_slice p buf n c.memory)
      (slice-Valid p buf n c.memory c.refs v free_p is few pos le)
act-Kept (frees buf) c v is =
    Gives-Kept (remove buf c.refs) (free buf c.memory) (free-Valid buf c.memory c.refs v is)

some_inj : (c c' : Callers) → ◌≡◌ {A = Option Callers} (some c) (some c') → c ≡ c'
some_inj c c' e = cc

Kept-Valid : (o : Option Callers) (c : Callers) → o ≡ some c → Kept o → Valid c.memory c.refs
Kept-Valid o c e (c', e', v) = subst (λ d. Valid d.memory d.refs) (some_inj c' c (sym e' ∙ e)) v

pub Reaches-Valid :
    (c c' : Callers) → Reaches c c' → Valid c.memory c.refs → Valid c'.memory c'.refs
Reaches-Valid c c' (stays _) v = v
Reaches-Valid c c' (acts _ c1 _ a reach allowed e) v =
    Kept-Valid (act a c1) c' e (act-Kept a c1 (Reaches-Valid c c1 reach v) allowed)

pub begin-Valid : Valid begin.memory begin.refs
begin-Valid = record { held = tt; each = λ q. refl; distinct = tt; few = omega arith }

-- Callers that use a buffer only while they hold it never fail: no call meets a block that was freed,
-- and no block is freed twice.
pub Reaches-unfailed : (c : Callers) (a : Action) → Reaches begin c → Allowed c a → act a c ≢ none
Reaches-unfailed c a reach allowed = λ e.
    let (c', e', v) = act-Kept a c (Reaches-Valid begin c reach begin-Valid) allowed in
    let bad : none ≡ some c' = sym e ∙ e' in cc

Block-nil : (q : ℕ) (o : Option Buffer) → Block [] q o → o ≡ none
Block-nil q none h = refl
Block-nil q (some b) (is_root, is_leaf) = elim (Bool-cases (b.root == q)) [
  | inl e ↦ absurd (omega (arith, is_root e))
  | inr e ↦ let bad = (is_leaf e).0 in cc
]

-- When all buffers are freed, in any order, no block is left.
pub Reaches-empty : (c : Callers) (q : ℕ) → Reaches begin c → c.refs ≡ [] → c.memory q ≡ none
Reaches-empty c q reach e =
    Block-nil q (c.memory q) (
      subst (λ refs. Block refs q (c.memory q)) e
        ((Reaches-Valid begin c reach begin-Valid).each q))
