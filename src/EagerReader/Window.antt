-- ===== src/EagerReader/Window.antt =====
-- The bytes that wait in the buffers, and the invariant.
use osi.Prelude.{
  drop-drop, leb, if◌then◌else◌, Bool-cases, inl, inr, ℕ, zero, suc, ◌+◌, ◌-◌, ◌≤◌, ◌<◌, ◌≡◌, refl,
  ap, sym, ◌∙◌, List, [], ◌∷◌, ◌++◌, Option, none, some, length, take, drop, All, arith,
  append_assoc, append-nil,
}
use osi.EagerReader.{
  DataBuffer, Inbound, enqueueing, counting, Outbound, returned, copying, EagerReader,
}

-- The bytes of a buffer that are not copied yet.
abbrev pub rest : DataBuffer → List ℕ
rest b = drop b.offset b.bytes

abbrev pub current_rest : Option DataBuffer → List ℕ
current_rest none = []
current_rest (some b) = rest b

abbrev pub queued : List DataBuffer → List ℕ
queued [] = []
queued (b ∷ bs) = rest b ++ queued bs

-- Read from the descriptor, but not in the queue yet.
abbrev pub on_the_way : Inbound → List ℕ
on_the_way (enqueueing b) = rest b
on_the_way _ = []

-- In the queue, but not in the eventfd yet.
abbrev pub uncounted : Inbound → ℕ
uncounted (counting n) = n
uncounted _ = 0

-- Taken from the eventfd, but not copied.
abbrev pub left : Outbound → ℕ
left (copying _ available consumed) = available - consumed
left (returned _) = 0

abbrev pub Bounded : Outbound → Type 0
Bounded (copying max_size available consumed) = (consumed ≤ max_size) × (max_size ≤ available)
Bounded (returned _) = Unit

-- A buffer has bytes that are not copied.
abbrev pub Full : DataBuffer → Type 0
Full b = (b.length ≡ length b.bytes) × (b.offset < b.length)

abbrev pub FullCurrent : Option DataBuffer → Type 0
FullCurrent none = Unit
FullCurrent (some b) = Full b

abbrev pub FullInbound : Inbound → Type 0
FullInbound (enqueueing b) = Full b × (b.offset ≡ 0)
FullInbound _ = Unit

-- No byte is lost, repeated or out of order, and the eventfd never counts more bytes than there are.
pub record IsValid (r : EagerReader) : Type 0 where
  pub stream :
      r.delivered ++ (current_rest r.current_buffer ++ (queued r.buffers ++ on_the_way r.inbound))
      ≡ r.source
  pub accounts :
      r.bytes_available + uncounted r.inbound + left r.outbound
      ≡ length (current_rest r.current_buffer) + length (queued r.buffers)
  pub bounded : Bounded r.outbound
  pub full_current : FullCurrent r.current_buffer
  pub full_buffers : All Full r.buffers
  pub full_inbound : FullInbound r.inbound

pub queued-append :
    (bs : List DataBuffer) (b : DataBuffer) → queued (bs ++ (b ∷ [])) ≡ queued bs ++ rest b
queued-append [] b = append-nil (rest b)
queued-append (c ∷ bs) b =
    ap (λ xs. rest c ++ xs) (queued-append bs b) ∙ sym (append_assoc (rest c) (queued bs) (rest b))

pub All-append {ℓ κ} :
    {A : Type ℓ} (P : A → Type κ) (xs : List A) (x : A) → All P xs → P x → All P (xs ++ (x ∷ []))
All-append P [] x h p = (p, tt)
All-append P (y ∷ xs) x (q, h) p = (q, All-append P xs x h p)

pub take-drop : (n : ℕ) (xs : List ℕ) → take n xs ++ drop n xs ≡ xs
take-drop zero xs = refl
take-drop (suc n) [] = refl
take-drop (suc n) (x ∷ xs) = ap (◌∷◌ x) (take-drop n xs)

drop-all : (n : ℕ) (xs : List ℕ) → length xs ≤ n → drop n xs ≡ []
drop-all zero [] h = refl
drop-all zero (x ∷ xs) h = absurd (omega arith)
drop-all (suc n) [] h = refl
drop-all (suc n) (x ∷ xs) h = drop-all n xs (omega arith)

-- What a round leaves of a buffer of which it has copied `n` bytes.
abbrev pub used : DataBuffer → ℕ → Option DataBuffer
used b n = if leb b.length (b.offset + n) then none else some (record b { offset = b.offset + n })

pub copied_rest :
    (b : DataBuffer) (n : ℕ) → Full b → take n (rest b) ++ current_rest (used b n) ≡ rest b
copied_rest b n (size, within) = elim (Bool-cases (leb b.length (b.offset + n))) [
  | inl e ↦ rw e (
      ap (λ xs. take n (rest b) ++ xs)
        (sym (
          drop-drop b.offset n (b.offset + n) b.bytes refl
          ∙ drop-all (b.offset + n) b.bytes (ground arith)))
      ∙ take-drop n (rest b))
  | inr e ↦ rw e (
      ap (λ xs. take n (rest b) ++ xs) (sym (drop-drop b.offset n (b.offset + n) b.bytes refl))
      ∙ take-drop n (rest b))
]

pub used-Full : (b : DataBuffer) (n : ℕ) → Full b → FullCurrent (used b n)
used-Full b n full = ground arith

-- A regrouping of the stream.
pub stream-snoc : (d c q w z : List ℕ) → d ++ (c ++ (q ++ (w ++ z))) ≡ (d ++ (c ++ (q ++ w))) ++ z
stream-snoc d c q w z =
    ap (λ xs. d ++ (c ++ xs)) (sym (append_assoc q w z))
    ∙ ap (λ xs. d ++ xs) (sym (append_assoc c (q ++ w) z))
    ∙ sym (append_assoc d (c ++ (q ++ w)) z)
