-- ===== src/EagerReader/Copy.antt =====
-- The rounds of the copying loop, and the steps of the reading thread, keep a reader valid.
use osi.Prelude.{
  subst, ℕ, ◌+◌, ◌-◌, ◌≤◌, ◌<◌, ◌≡◌, refl, ap, sym, ◌∙◌, List, [], ◌∷◌, ◌++◌, Option, none, some,
  length, take, All, arith, length-append, append_assoc, append-nil, drop-length_le, length-take,
  ltb, Bool-cases, inl, inr,
}
use osi.EagerReader.{
  DataBuffer, Inbound, waiting, enqueueing, counting, copying, EagerReader, receive, inbound_from,
  bytes_to_copy, copy_from,
}
use osi.EagerReader.Window.{
  rest, current_rest, queued, on_the_way, uncounted, Full, FullInbound, IsValid, queued-append,
  All-append, copied_rest, used, used-Full, stream-snoc,
}

-- What a step gives, where it does not block.
abbrev pub IfSome : (EagerReader → Type 0) → Option EagerReader → Type 0
IfSome P none = Unit
IfSome P (some r) = P r

stream_at :
    (r : EagerReader) (i : Inbound)
    → r.inbound ≡ i
    → IsValid r
    → r.delivered ++ (current_rest r.current_buffer ++ (queued r.buffers ++ on_the_way i))
      ≡ r.source
stream_at r i at v =
    subst
      (λ j.
        r.delivered ++ (current_rest r.current_buffer ++ (queued r.buffers ++ on_the_way j))
        ≡ r.source)
      at v.stream

receive-IsValid :
    (bytes_read : List ℕ) (r : EagerReader)
    → r.inbound ≡ waiting
    → IsValid r
    → IsValid (receive bytes_read r)
receive-IsValid [] r at v = v
receive-IsValid (x ∷ xs) r at v = record {
  stream =
      stream-snoc r.delivered (current_rest r.current_buffer) (queued r.buffers) [] (x ∷ xs)
      ∙ ap (λ s. s ++ (x ∷ xs)) (stream_at r waiting at v);
  accounts = ground (arith, v.accounts, at);
  bounded = v.bounded;
  full_current = v.full_current;
  full_buffers = v.full_buffers;
  full_inbound = ((refl, omega arith), refl);
}

pub inbound_from-IsValid :
    (bytes_read : List ℕ) (r : EagerReader) (i : Inbound)
    → r.inbound ≡ i
    → IsValid r
    → IfSome IsValid (inbound_from bytes_read r i)
inbound_from-IsValid bytes_read r waiting at v = receive-IsValid bytes_read r at v
inbound_from-IsValid bytes_read r (enqueueing b) at v =
    elim (Bool-cases (ltb (length r.buffers) r.capacity)) [
      | inl e ↦ rw e (record {
        stream =
            ap (λ s. r.delivered ++ (current_rest r.current_buffer ++ s))
              (append-nil (queued (r.buffers ++ (b ∷ []))) ∙ queued-append r.buffers b)
            ∙ stream_at r (enqueueing b) at v;
        accounts =
            let f : FullInbound (enqueueing b) = subst FullInbound at v.full_inbound in
            ground (
              arith,
              v.accounts,
              at,
              ap length (queued-append r.buffers b),
              length-append (queued r.buffers) (rest b),
              drop-length_le b.offset b.bytes,
            );
        bounded = v.bounded;
        full_current = v.full_current;
        full_buffers =
            let f : FullInbound (enqueueing b) = subst FullInbound at v.full_inbound in
            All-append Full r.buffers b v.full_buffers f.0;
        full_inbound = tt;
      })
      | inr e ↦ rw e tt
    ]
inbound_from-IsValid bytes_read r (counting n) at v = record {
  stream = stream_at r (counting n) at v;
  accounts = ground (arith, v.accounts, at);
  bounded = v.bounded;
  full_current = v.full_current;
  full_buffers = v.full_buffers;
  full_inbound = tt;
}

-- What a round of the loop does: it copies at least a byte, and no more than are asked for.
pub record Round (r : EagerReader) (max_size available consumed : ℕ) (r' : EagerReader)
    : Type 0 where
  pub copied : ℕ
  pub some_byte : 0 < copied
  pub at_most : consumed + copied ≤ max_size
  pub next : r'.outbound ≡ copying max_size available (consumed + copied)
  pub more_delivered : length r'.delivered ≡ length r.delivered + copied
  pub same_source : r'.source ≡ r.source
  pub same_available : r'.bytes_available ≡ r.bytes_available
  pub valid : IsValid r'

-- A round of the loop on a buffer, where `r` has that buffer besides those in its queue.
module _ (r : EagerReader) (max_size available consumed : ℕ) (b : DataBuffer) (full : Full b)
    (stream : r.delivered ++ (rest b ++ (queued r.buffers ++ on_the_way r.inbound)) ≡ r.source)
    (accounts : r.bytes_available + uncounted r.inbound + (available - consumed)
      ≡ length (rest b) + length (queued r.buffers))
    (more : consumed < max_size) (bound : max_size ≤ available) where
  copy_from-IsValid :
      All Full r.buffers
      → FullInbound r.inbound
      → IsValid (copy_from r max_size available consumed b)
  copy_from-IsValid buffers inbound =
      let n = bytes_to_copy b (max_size - consumed) in
      let split = copied_rest b n full in
      let behind = queued r.buffers ++ on_the_way r.inbound in
      record {
        stream =
            append_assoc r.delivered (take n (rest b)) (current_rest (used b n) ++ behind)
            ∙ ap (λ xs. r.delivered ++ xs)
                (sym (append_assoc (take n (rest b)) (current_rest (used b n)) behind))
            ∙ ap (λ xs. r.delivered ++ (xs ++ behind)) split
            ∙ stream;
        accounts = ground (
          arith,
          accounts,
          full,
          bound,
          more,
          ap length split,
          length-append (take n (rest b)) (current_rest (used b n)),
          length-take n (rest b),
          drop-length_le b.offset b.bytes,
        );
        bounded = ground (arith, full, bound, more);
        full_current = used-Full b n full;
        full_buffers = buffers;
        full_inbound = inbound;
      }

  pub copy_from-Round :
      All Full r.buffers
      → FullInbound r.inbound
      → Round r max_size available consumed (copy_from r max_size available consumed b)
  copy_from-Round buffers inbound =
      let n = bytes_to_copy b (max_size - consumed) in
      record {
        copied = n;
        some_byte = ground (arith, full, more);
        at_most = ground (arith, full, more);
        next = refl;
        more_delivered = ground (
          arith,
          full,
          length-append r.delivered (take n (rest b)),
          length-take n (rest b),
          drop-length_le b.offset b.bytes,
        );
        same_source = refl;
        same_available = refl;
        valid = copy_from-IsValid buffers inbound;
      }
