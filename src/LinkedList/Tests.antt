-- ===== src/LinkedList/Tests.antt =====
-- A list built at the addresses 10, 20 and 5, with a value removed from its end.
use osi.Prelude.{
  ℕ, ◌+◌, ◌≡◌, refl, Bool, true, false, none, some, List, [], ◌∷◌, ◌==◌, if◌then◌else◌, arith,
}
use osi.LinkedList.{
  LinkedList, node_of, new_internal, append, prepend, remove, remove_loop, contains, contains_loop,
  append_node, prepend_node, remove_value, contains_value, front, back, clear, clear_loop,
}
use osi.LinkedList.Cells.{Cells, IsList, node_at}
use osi.LinkedList.Sequence.{
  seq_step, Call, appending, prepending, removing, containing, fronting, backing, counting,
  clearing, truth, item, size, nothing, step, run, run_seq, AllAllowed, run-sequence,
}

abbrev calls : List Call
calls =
    appending 10 1
    ∷ appending 20 2
    ∷ prepending 5 3
    ∷ removing 2
    ∷ containing 2
    ∷ appending 0 4
    ∷ fronting
    ∷ backing
    ∷ counting
    ∷ clearing
    ∷ appending 30 0
    ∷ []

empty-IsList : IsList (new_internal true) []
unfolding node_at
empty-IsList = record {
  distinct = tt;
  nodes = λ q. refl;
  head_first = refl;
  tail_last = refl;
  counted = refl;
}

calls-AllAllowed : AllAllowed calls (new_internal true)
unfolding AllAllowed step append_node prepend_node remove_value contains_value append prepend remove
    remove_loop contains contains_loop front back clear clear_loop
calls-AllAllowed = (refl, (refl, (refl, (tt, (tt, (refl, (tt, (tt, (tt, (tt, (refl, tt)))))))))))

-- The replies, with the abort of the last call, which is given NULL.
sequence_replies :
    run_seq calls []
    ≡ truth true
      ∷ truth true
      ∷ truth true
      ∷ truth true
      ∷ truth false
      ∷ truth false
      ∷ item 3
      ∷ item 1
      ∷ size 2
      ∷ nothing
      ∷ []
unfolding run_seq seq_step
sequence_replies = refl

run-sequence_example : run calls (new_internal true) ≡ run_seq calls []
run-sequence_example = run-sequence calls (new_internal true) [] empty-IsList calls-AllAllowed

abbrev two_cells : Cells
two_cells = (10, 1) ∷ (20, 2) ∷ []

abbrev two : LinkedList
two = record {
  head = 10;
  tail = 20;
  length = 2;
  has_free_cb = true;
  node = λ q. if q == 10 then some (node_of 20 1) else if q == 20 then some (node_of 0 2) else none;
  released = [];
}

two-IsList : IsList two two_cells
unfolding node_at
two-IsList = record {
  distinct = (λ e. absurd (omega arith), refl, (λ e. absurd (omega arith), refl, tt));
  nodes = λ q. refl;
  head_first = refl;
  tail_last = refl;
  counted = refl;
}

abbrev until_two : ℕ → ℕ → Bool × ℕ
until_two v s = if v == 2 then (false, s) else (true, s + v)
