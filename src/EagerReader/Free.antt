-- ===== src/EagerReader/Free.antt =====
-- The end of a reader.
use osi.Prelude.{
  ltb, ℕ, ◌≤◌, ◌≡◌, ◌⊎◌, inl, inr, Bool-cases, refl, ap, sym, ◌∙◌, List, [], ◌∷◌, ◌++◌, Option,
  none, some, length, arith, append-nil,
}
use osi.EagerReader.{
  DataBuffer, Inbound, waiting, enqueueing, counting, EagerReader, inbound_step, with_current, free,
  Reaches, new,
}
use osi.EagerReader.Window.{rest, current_rest, queued, on_the_way, queued-append}
use osi.EagerReader.Steps.{Reaches-IsValid}

queued-with_current :
    (c : Option DataBuffer) (bs : List DataBuffer)
    → queued (with_current c bs) ≡ current_rest c ++ queued bs
queued-with_current none bs = refl
queued-with_current (some b) bs = refl

-- The reading thread waits for room in the queue, and the call of `eager_reader_free` for the thread.
abbrev pub Stuck : EagerReader → Type 0
Stuck r =
    ((b : DataBuffer) × (r.inbound ≡ enqueueing b))
    × (r.capacity ≤ length r.buffers)
    × (free r ≡ none)

-- The buffers that are freed have the bytes that were read and not delivered.
abbrev pub Freed : EagerReader → Type 0
Freed r =
    (freed : List DataBuffer) × (free r ≡ some freed) × (r.delivered ++ queued freed ≡ r.source)

abbrev Stream : EagerReader → List DataBuffer → List ℕ → Type 0
Stream r bs way = r.delivered ++ (current_rest r.current_buffer ++ (queued bs ++ way)) ≡ r.source

rest-freed :
    (r : EagerReader) (bs : List DataBuffer)
    → Stream r bs []
    → r.delivered ++ queued (with_current r.current_buffer bs) ≡ r.source
rest-freed r bs stream =
    ap (λ l. r.delivered ++ l)
      (queued-with_current r.current_buffer bs
        ∙ ap (λ l. current_rest r.current_buffer ++ l) (sym (append-nil (queued bs))))
    ∙ stream

enqueued-Stream :
    (r : EagerReader) (b : DataBuffer)
    → Stream r r.buffers (rest b)
    → Stream r (r.buffers ++ (b ∷ [])) []
enqueued-Stream r b stream =
    ap (λ l. r.delivered ++ (current_rest r.current_buffer ++ l))
      (append-nil (queued (r.buffers ++ (b ∷ []))) ∙ queued-append r.buffers b)
    ∙ stream

free_from-Freed :
    (r : EagerReader) (i : Inbound)
    → r.inbound ≡ i
    → Stream r r.buffers (on_the_way i)
    → Stuck r ⊎ Freed r
unfolding free inbound_step
free_from-Freed r waiting at stream =
    inr (with_current r.current_buffer r.buffers, rw at refl, rest-freed r r.buffers stream)
free_from-Freed r (counting n) at stream =
    inr (with_current r.current_buffer r.buffers, rw at refl, rest-freed r r.buffers stream)
free_from-Freed r (enqueueing b) at stream = elim (Bool-cases (ltb (length r.buffers) r.capacity)) [
  | inl room ↦ inr (
    with_current r.current_buffer (r.buffers ++ (b ∷ [])),
    rw at (rw room refl),
    rest-freed r (r.buffers ++ (b ∷ [])) (enqueued-Stream r b stream),
  )
  | inr no_room ↦ inl ((b, at), ground arith, rw at (rw no_room refl))
]

-- `eager_reader_free` on a reader that the two threads reach, while nothing else is done with it, frees
-- buffers that hold all bytes that were read and not delivered, in their order. But when the reading
-- thread waits for room in a full queue, the call waits for ever.
pub free-Freed :
    (max_buffer_count : ℕ) (r : EagerReader) → Reaches (new max_buffer_count) r → Stuck r ⊎ Freed r
free-Freed max_buffer_count r reach =
    free_from-Freed r r.inbound refl (Reaches-IsValid max_buffer_count r reach).stream
