-- ===== src/Buffer/Tests.antt =====
-- A buffer of four bytes and a slice of it, where the buffer is freed first.
use osi.Prelude.{◌≤◌, true, ◌≡◌, ◌≢◌, refl, Option, none, some, [], arith}
use osi.Buffer.{new, new_slice, free, ptr, length_of}
use osi.Buffer.Counts.{holds}
use osi.Buffer.View.{ptr_in, last, slice-last}
use osi.Buffer.Reach.{
  Callers, news, slices, frees, act, begin, Reaches, stays, acts, begin-Valid, Reaches-Valid,
  Reaches-unfailed, Reaches-empty,
}

abbrev state : Option Callers → Callers
state none = begin
state (some c) = c

abbrev c1 : Callers
unfolding act new new_slice free
c1 = state (act (news 10 4) begin)

c1-Reaches : Reaches begin c1
unfolding act new new_slice free
c1-Reaches = acts begin begin c1 (news 10 4) (stays begin) (refl, omega arith, omega arith) refl

abbrev c2 : Callers
unfolding act new new_slice free
c2 = state (act (slices 20 10 2) c1)

c2-Reaches : Reaches begin c2
unfolding act new new_slice free
c2-Reaches =
    acts begin c1 c2 (slices 20 10 2) c1-Reaches (refl, refl, omega arith, omega arith, omega arith)
      refl

abbrev c3 : Callers
unfolding act new new_slice free
c3 = state (act (frees 10) c2)

c3-Reaches : Reaches begin c3
unfolding act new new_slice free
c3-Reaches = acts begin c2 c3 (frees 10) c2-Reaches refl refl

abbrev c4 : Callers
unfolding act new new_slice free
c4 = state (act (frees 20) c3)

c4-Reaches : Reaches begin c4
unfolding act new new_slice free
c4-Reaches = acts begin c3 c4 (frees 20) c3-Reaches refl refl

c3_holds : holds 20 c3.refs ≡ true
unfolding c3
c3_holds = refl

c4_empty : c4.refs ≡ []
unfolding c4
c4_empty = refl

c1_free : c1.memory 20 ≡ none
unfolding c1
c1_free = refl

c1_holds : holds 10 c1.refs ≡ true
unfolding c1
c1_holds = refl

c1_long : 2 ≤ length_of (c1.memory 10)
unfolding c1
c1_long = omega arith

Reaches-unfailed_example : act (frees 20) c3 ≢ none
Reaches-unfailed_example = Reaches-unfailed c3 (frees 20) c3-Reaches c3_holds

Reaches-empty_example : c4.memory 10 ≡ none
Reaches-empty_example = Reaches-empty c4 10 c4-Reaches c4_empty

slice-last_example :
    (ptr_in 20 (new_slice 20 10 2 c1.memory) ≡ last 2 (ptr 10 c1.memory))
    × (ptr_in 10 (new_slice 20 10 2 c1.memory) ≡ ptr 10 c1.memory)
slice-last_example =
    slice-last 20 10 2 c1.memory c1.refs (Reaches-Valid begin c1 c1-Reaches begin-Valid) c1_free
      c1_holds (omega arith) c1_long
