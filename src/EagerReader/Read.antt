-- ===== src/EagerReader/Read.antt =====
-- A whole call of `eager_reader_read`: it ends, and what it returns.
use osi.Prelude.{
  ℕ, zero, suc, ◌+◌, ◌-◌, ◌≤◌, ◌<◌, ◌≡◌, refl, ap, ◌∙◌, some, length, min, arith, ltb,
  if◌then◌else◌, Bool-cases, inl, inr, ltb→lt, ◌==◌,
}
use osi.EagerReader.{
  returned, copying, EagerReader, outbound_from, outbound_step, read_loop, read, continue,
  loop_from,
}
use osi.EagerReader.Window.{IsValid, left}
use osi.EagerReader.Steps.{copy_current-Rounds, with_outbound-IsValid}

read_loop_more :
    (fuel : ℕ) (r : EagerReader) (max_size available consumed : ℕ)
    → r.outbound ≡ copying max_size available consumed
    → read_loop (suc fuel) r
      ≡ continue (read_loop fuel) (outbound_from 0 r (copying max_size available consumed))
unfolding read_loop outbound_step
read_loop_more fuel r max_size available consumed at =
    ap (loop_from (read_loop fuel) r) at
    ∙ ap (λ o. continue (read_loop fuel) (outbound_from 0 r o)) at

read_loop-Returned :
    (fuel : ℕ) (r : EagerReader) (max_size available consumed : ℕ)
    → IsValid r
    → r.outbound ≡ copying max_size available consumed
    → max_size - consumed + 1 < fuel
    → consumed ≤ max_size
    → max_size ≤ available
    → (r' : EagerReader) × (read_loop fuel r ≡ some r')
      × (r'.outbound ≡ returned max_size)
      × (length r'.delivered ≡ length r.delivered + (max_size - consumed))
      × (r'.source ≡ r.source)
      × (r'.bytes_available + max_size ≡ r.bytes_available + available)
      × IsValid r'
unfolding read_loop outbound_step
read_loop-Returned zero r max_size available consumed v at enough le bound = absurd (omega arith)
read_loop-Returned (suc zero) r max_size available consumed v at enough le bound =
    absurd (omega arith)
read_loop-Returned (suc (suc fuel)) r max_size available consumed v at enough le bound =
    elim (Bool-cases (ltb consumed max_size)) [
      | inl e ↦
          let (r1, result, round) =
            copy_current-Rounds r max_size available consumed v at (ltb→lt consumed max_size e)
              r.current_buffer refl in
          let (r', more, ended, delivered, source, left, valid) =
            read_loop-Returned (suc fuel) r1 max_size available (consumed + round.copied)
              round.valid round.next (omega (arith, round.some_byte)) round.at_most bound in
          (
            r',
            read_loop_more (suc fuel) r max_size available consumed at ∙ rw (e, result) more,
            ended,
            omega (arith, delivered, round.more_delivered, round.at_most),
            source ∙ round.same_source,
            omega (arith, left, round.same_available),
            valid,
          )
      | inr e ↦ (
        record r {
          bytes_available = r.bytes_available + (available - consumed);
          outbound = returned consumed;
        },
        read_loop_more (suc fuel) r max_size available consumed at ∙ rw e refl,
        ap returned (ground arith),
        ground arith,
        refl,
        ground arith,
        with_outbound-IsValid r (r.bytes_available + (available - consumed)) (returned consumed) v
            (ground (arith, at)) tt,
      )
    ]

-- A call of `eager_reader_read` on a valid reader returns, with the bytes that are available or as many
-- as it asks for, if these are fewer: they are the next ones of the stream, and the eventfd counts that
-- many less.
pub read-returns :
    (max_size : ℕ) (r : EagerReader) (n : ℕ)
    → IsValid r
    → r.outbound ≡ returned n
    → (r' : EagerReader) × (read max_size r ≡ some r')
      × (r'.outbound ≡ returned (min r.bytes_available max_size))
      × (length r'.delivered ≡ length r.delivered + min r.bytes_available max_size)
      × (r'.source ≡ r.source)
      × (r'.bytes_available + min r.bytes_available max_size ≡ r.bytes_available)
      × IsValid r'
unfolding read outbound_step read_loop
read-returns max_size r n v at = elim (Bool-cases (r.bytes_available == 0)) [
  | inl e ↦ (
    record r { outbound = returned 0 },
    ap (λ o. continue (read_loop (suc (suc max_size))) (outbound_from max_size r o)) at ∙ rw e refl,
    ap returned (ground arith),
    ground arith,
    refl,
    ground arith,
    with_outbound-IsValid r r.bytes_available (returned 0) v (ground (arith, at)) tt,
  )
  | inr e ↦
      let m = if ltb r.bytes_available max_size then r.bytes_available else max_size in
      let started : EagerReader = record r {
        bytes_available = 0;
        outbound = copying m r.bytes_available 0;
      } in
      let valid =
        with_outbound-IsValid r 0 (copying m r.bytes_available 0) v (ground (arith, at))
          (ground arith) in
      let m_min : m ≡ min r.bytes_available max_size = ground arith in
      let (r', ran, ended, delivered, source, left, valid') =
        read_loop-Returned (suc (suc max_size)) started m r.bytes_available 0 valid refl
          (ground arith) (omega arith) (ground arith) in
      (
        r',
        ap (λ o. continue (read_loop (suc (suc max_size))) (outbound_from max_size r o)) at
            ∙ rw e ran,
        ended ∙ ap returned m_min,
        omega (arith, delivered, m_min),
        source,
        omega (arith, left, m_min),
        valid',
      )
]
