-- ===== src/RingBuffer/Tests.antt =====
-- A ring of 5 bytes that has wrapped: the offsets of its 4 bytes are 3, 4, 0 and 1.
use osi.Prelude.{◌≡◌, refl, List, [], ◌∷◌, arith}
use osi.RingBuffer.{RingBuffer, pop}
use osi.RingBuffer.Window.{contents, IsValid}
use osi.RingBuffer.Fifo.{Op, run, run_fifo, put, get, look, discard, run-fifo}

abbrev ring : RingBuffer
ring = record { total = 5; available = 1; base = 6 ∷ 7 ∷ 0 ∷ 4 ∷ 5 ∷ []; head = 3; tail = 2 }

ring-IsValid : IsValid ring
ring-IsValid = record {
  storage = refl;
  fits = omega arith;
  head_in = omega arith;
  tail_behind = refl;
}

-- A call on the wrapped ring, run.
pop-ring : pop ring 3 ≡ (4 ∷ 5 ∷ 6 ∷ [], record ring { available = 4; head = 1 })
unfolding pop
pop-ring = refl

abbrev calls : List Op
calls = put (8 ∷ 9 ∷ []) ∷ look 2 ∷ get 3 ∷ put (1 ∷ 2 ∷ []) ∷ discard 9 ∷ []

run-fifo_example : run ring calls ≡ run_fifo 5 (contents ring) calls
run-fifo_example = run-fifo calls ring ring-IsValid
