-- ===== src/EagerReader/Tests.antt =====
-- Three bytes that were read into a buffer, counted, and are read by a call for two; and a full queue.
use osi.Prelude.{ℕ, ◌+◌, ◌≤◌, ◌≡◌, ◌⊎◌, refl, List, [], ◌∷◌, ◌++◌, none, some, length, min, arith}
use osi.EagerReader.{
  DataBuffer, waiting, enqueueing, counting, returned, EagerReader, new, free, inbound_step,
  outbound_step, read, read_loop, inbound_moves, Reaches, stays, goes,
}
use osi.EagerReader.Window.{current_rest, queued, IsValid}
use osi.EagerReader.Steps.{Reaches-stream}
use osi.EagerReader.Free.{Stuck, Freed, free-Freed}
use osi.EagerReader.Read.{read-returns}

abbrev buffer : DataBuffer
buffer = record { length = 3; offset = 0; bytes = 1 ∷ 2 ∷ 3 ∷ [] }

abbrev received : EagerReader
received = record (new 2) { inbound = enqueueing buffer; source = 1 ∷ 2 ∷ 3 ∷ [] }

abbrev enqueued : EagerReader
enqueued = record (new 2) { buffers = buffer ∷ []; inbound = counting 3; source = 1 ∷ 2 ∷ 3 ∷ [] }

abbrev counted : EagerReader
counted = record (new 2) { buffers = buffer ∷ []; bytes_available = 3; source = 1 ∷ 2 ∷ 3 ∷ [] }

counted_run : Reaches (new 2) counted
unfolding inbound_step
counted_run =
    goes (new 2) enqueued counted
      (goes (new 2) received enqueued
        (goes (new 2) (new 2) received (stays (new 2))
          (inbound_moves (1 ∷ 2 ∷ 3 ∷ []) (new 2) received refl))
        (inbound_moves [] received enqueued refl))
      (inbound_moves [] enqueued counted refl)

Reaches-stream_example :
    ((waiting : List ℕ) × ([] ++ waiting ≡ 1 ∷ 2 ∷ 3 ∷ []))
    × (3 ≤ length (current_rest none) + length (queued (buffer ∷ [])))
    × ((r' : EagerReader) × (outbound_step 2 counted ≡ some r'))
Reaches-stream_example = Reaches-stream 2 2 counted counted_run

counted-IsValid : IsValid counted
counted-IsValid = record {
  stream = refl;
  accounts = refl;
  bounded = tt;
  full_current = tt;
  full_buffers = ((refl, omega arith), tt);
  full_inbound = tt;
}

-- The bytes of the call, run.
read_two :
    read 2 counted
    ≡ some (record counted {
      buffers = [];
      current_buffer = some (record buffer { offset = 2 });
      bytes_available = 1;
      outbound = returned 2;
      delivered = 1 ∷ 2 ∷ [];
    })
unfolding read read_loop outbound_step
read_two = refl

read-returns_example :
    (r' : EagerReader) × (read 2 counted ≡ some r')
    × (r'.outbound ≡ returned (min 3 2))
    × (length r'.delivered ≡ 0 + min 3 2)
    × (r'.source ≡ 1 ∷ 2 ∷ 3 ∷ [])
    × (r'.bytes_available + min 3 2 ≡ 3)
    × IsValid r'
read-returns_example = read-returns 2 counted 0 counted-IsValid refl

-- A queue for one buffer, with a second one at hand.
abbrev full : EagerReader
full = record (new 1) {
  buffers = record { length = 1; offset = 0; bytes = 1 ∷ [] } ∷ [];
  inbound = enqueueing (record { length = 1; offset = 0; bytes = 2 ∷ [] });
  bytes_available = 1;
  source = 1 ∷ 2 ∷ [];
}

full_run : Reaches (new 1) full
unfolding inbound_step
full_run =
    goes (new 1) _ full
      (goes (new 1) _ _
        (goes (new 1) _ _
          (goes (new 1) (new 1) _ (stays (new 1)) (inbound_moves (1 ∷ []) (new 1) _ refl))
          (inbound_moves [] _ _ refl))
        (inbound_moves [] _ (record full { inbound = waiting; source = 1 ∷ [] }) refl))
      (inbound_moves (2 ∷ []) _ full refl)

waits : free full ≡ none
unfolding free
waits = refl

free-Freed_example : Stuck full ⊎ Freed full
free-Freed_example = free-Freed 1 full full_run
