-- ===== src/EagerReader/Steps.antt =====
-- Every step of either thread keeps the invariant.
use osi.Prelude.{
  ap₂, ◌==◌, ltb→lt, subst, ℕ, ◌+◌, ◌-◌, ◌≤◌, ◌<◌, ◌≡◌, refl, ap, sym, ◌∙◌, List, [], ◌∷◌, ◌++◌,
  Option, none, some, length, All, arith, length-append, append_assoc, ltb, if◌then◌else◌,
  Bool-cases, inl, inr,
}
use osi.EagerReader.{
  DataBuffer, Outbound, returned, copying, EagerReader, inbound_step, copy_from, dequeue_and_copy,
  copy_current, outbound_from, outbound_step, Step, inbound_moves, outbound_moves, Reaches, stays,
  goes, new,
}
use osi.EagerReader.Window.{
  rest, current_rest, queued, on_the_way, left, Bounded, Full, FullCurrent, IsValid,
}
use osi.EagerReader.Copy.{Round, IfSome, inbound_from-IsValid, copy_from-Round}

-- A round takes the next buffer where there is no current one. There always is one: the call of
-- `fixed_queue_dequeue` does not block.
of_buffers :
    (r s : EagerReader) (max_size available consumed : ℕ) (r' : EagerReader)
    → s.delivered ≡ r.delivered
    → s.source ≡ r.source
    → s.bytes_available ≡ r.bytes_available
    → Round s max_size available consumed r'
    → Round r max_size available consumed r'
of_buffers r s max_size available consumed r' d e a round = record {
  copied = round.copied;
  some_byte = round.some_byte;
  at_most = round.at_most;
  next = round.next;
  more_delivered = ground (arith, round.more_delivered, d);
  same_source = round.same_source ∙ e;
  same_available = round.same_available ∙ a;
  valid = round.valid;
}

module _ (r : EagerReader) (max_size available consumed : ℕ) (v : IsValid r)
    (at : r.outbound ≡ copying max_size available consumed) (more : consumed < max_size) where
  bound : max_size ≤ available
  bound = (subst Bounded at v.bounded).1

  abbrev pub Rounds : Option EagerReader → Type 0
  Rounds o = (r' : EagerReader) × (o ≡ some r') × Round r max_size available consumed r'

  dequeue_and_copy-Rounds :
      (bs : List DataBuffer)
      → r.current_buffer ≡ none
      → r.buffers ≡ bs
      → Rounds (dequeue_and_copy r max_size available consumed bs)
  dequeue_and_copy-Rounds [] none_current e =
      let bounds = bound in absurd (ground (arith, v.accounts, at, none_current, e))
  dequeue_and_copy-Rounds (b ∷ bs) none_current e =
      let s : EagerReader = record r { buffers = bs } in
      let (full, fulls) = subst (All Full) e v.full_buffers in
      (
        copy_from s max_size available consumed b,
        refl,
        of_buffers r s max_size available consumed _ refl refl refl (
            copy_from-Round s max_size available consumed b full
              (ap (λ xs. r.delivered ++ xs)
                  (sym (append_assoc (rest b) (queued bs) (on_the_way r.inbound)))
                ∙ ap₂
                    (λ o ys. r.delivered ++ (current_rest o ++ (queued ys ++ on_the_way r.inbound)))
                    (sym none_current) (sym e)
                ∙ v.stream)
              (ground (arith, v.accounts, at, none_current, e, length-append (rest b) (queued bs)))
              more bound fulls v.full_inbound),
      )

  pub copy_current-Rounds :
      (o : Option DataBuffer)
      → r.current_buffer ≡ o
      → Rounds (copy_current r max_size available consumed o)
  copy_current-Rounds none e = dequeue_and_copy-Rounds r.buffers e refl
  copy_current-Rounds (some b) e = (
    copy_from r max_size available consumed b,
    refl,
    copy_from-Round r max_size available consumed b (subst FullCurrent e v.full_current)
        (ap (λ o. r.delivered ++ (current_rest o ++ (queued r.buffers ++ on_the_way r.inbound)))
            (sym e)
          ∙ v.stream)
        (ground (arith, v.accounts, at, e)) more bound v.full_buffers v.full_inbound,
  )

pub with_outbound-IsValid :
    (r : EagerReader) (n : ℕ) (o : Outbound)
    → IsValid r
    → n + left o ≡ r.bytes_available + left r.outbound
    → Bounded o
    → IsValid (record r { bytes_available = n; outbound = o })
with_outbound-IsValid r n o v e bounded = record {
  stream = v.stream;
  accounts = omega (arith, v.accounts, e);
  bounded = bounded;
  full_current = v.full_current;
  full_buffers = v.full_buffers;
  full_inbound = v.full_inbound;
}

-- A step of `eager_reader_read` on a valid reader never blocks, and keeps it valid.
pub outbound_step-IsValid :
    (max_size : ℕ) (r : EagerReader)
    → IsValid r
    → (r' : EagerReader) × (outbound_step max_size r ≡ some r') × IsValid r'
unfolding outbound_step
outbound_step-IsValid max_size r v = by_place r.outbound refl
  where
    by_place :
        (o : Outbound)
        → r.outbound ≡ o
        → (r' : EagerReader) × (outbound_from max_size r o ≡ some r') × IsValid r'
    by_place (returned n) at = elim (Bool-cases (r.bytes_available == 0)) [
      | inl e ↦ (
        record r { outbound = returned 0 },
        rw e refl,
        with_outbound-IsValid r r.bytes_available (returned 0) v (ground (arith, at)) tt,
      )
      | inr e ↦
          let m = if ltb r.bytes_available max_size then r.bytes_available else max_size in
          (
            record r { bytes_available = 0; outbound = copying m r.bytes_available 0 },
            rw e refl,
            with_outbound-IsValid r 0 (copying m r.bytes_available 0) v (ground (arith, at))
                (ground arith),
          )
    ]
    by_place (copying m available consumed) at = elim (Bool-cases (ltb consumed m)) [
      | inl e ↦
          let (r', result, round) =
            copy_current-Rounds r m available consumed v at (ltb→lt consumed m e) r.current_buffer
              refl in
          (r', rw e result, round.valid)
      | inr e ↦ (
        record r {
          bytes_available = r.bytes_available + (available - consumed);
          outbound = returned consumed;
        },
        rw e refl,
        with_outbound-IsValid r (r.bytes_available + (available - consumed)) (returned consumed) v
            (ground (arith, at)) tt,
      )
    ]

-- A step of `inbound_data_waiting` that does not block keeps the reader valid.
pub inbound_step-IsValid :
    (bytes_read : List ℕ) (r : EagerReader) → IsValid r → IfSome IsValid (inbound_step bytes_read r)
unfolding inbound_step
inbound_step-IsValid bytes_read r v = inbound_from-IsValid bytes_read r r.inbound refl v

of_some : (r : EagerReader) (o : Option EagerReader) → o ≡ some r → IfSome IsValid o → IsValid r
of_some r none e v = absurd cc
of_some r (some s) e v = let same : s ≡ r = cc in subst IsValid same v

pub Step-IsValid : (r r' : EagerReader) → Step r r' → IsValid r → IsValid r'
Step-IsValid r r' (inbound_moves bytes_read _ _ h) v =
    of_some r' (inbound_step bytes_read r) h (inbound_step-IsValid bytes_read r v)
Step-IsValid r r' (outbound_moves max_size _ _ h) v =
    let (s, result, valid) = outbound_step-IsValid max_size r v in
    let same : s ≡ r' = cc in subst IsValid same valid

new-IsValid : (max_buffer_count : ℕ) → IsValid (new max_buffer_count)
new-IsValid max_buffer_count = record {
  stream = refl;
  accounts = refl;
  bounded = tt;
  full_current = tt;
  full_buffers = tt;
  full_inbound = tt;
}

pub Reaches-IsValid :
    (max_buffer_count : ℕ) (r : EagerReader) → Reaches (new max_buffer_count) r → IsValid r
Reaches-IsValid max_buffer_count r (stays _) = new-IsValid max_buffer_count
Reaches-IsValid max_buffer_count r (goes _ r1 _ h step) =
    Step-IsValid r1 r step (Reaches-IsValid max_buffer_count r1 h)

-- In any interleaving of the two threads, what was delivered is the beginning of what was read from
-- the descriptor, the eventfd counts no more bytes than wait in the buffers, and a thread in
-- `eager_reader_read` can always take its next step: it never waits for a buffer.
pub Reaches-stream :
    (max_buffer_count max_size : ℕ) (r : EagerReader)
    → Reaches (new max_buffer_count) r
    → ((waiting : List ℕ) × (r.delivered ++ waiting ≡ r.source))
      × (r.bytes_available ≤ length (current_rest r.current_buffer) + length (queued r.buffers))
      × ((r' : EagerReader) × (outbound_step max_size r ≡ some r'))
Reaches-stream max_buffer_count max_size r h =
    let v = Reaches-IsValid max_buffer_count r h in
    let (r', result, valid) = outbound_step-IsValid max_size r v in
    (
      (current_rest r.current_buffer ++ (queued r.buffers ++ on_the_way r.inbound), v.stream),
      omega (arith, v.accounts),
      (r', result),
    )
