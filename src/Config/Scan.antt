-- ===== src/Config/Scan.antt =====
-- Lines as the parser of src/config.c sees them: their ends, spaces, and the split at a byte.
use osi.Prelude.{
  ℕ, zero, suc, ◌+◌, ◌≤◌, ◌<◌, ◌≡◌, refl, ap, ◌∙◌, subst, Bool, true, false, ◌||◌, some, [], ◌∷◌,
  ◌++◌, ◌==◌, if◌then◌else◌, length, All, Bool-cases, inl, inr, length-append, arith,
}
use osi.Config.{Text, Entry, Section}
use osi.Config.Parse.{
  isspace, trim_start, kept, trim_end, trim, fgets, c_string, section_name, split_at, Parser,
  parse_section, parse_trimmed, parse_line, parse_loop, parse_loop-enough,
}
use osi.Config.File.{head_text}

abbrev pub Free : ℕ → Text → Type 0
Free c t = All (λ d. (d == c) ≡ false) t

-- Neither a newline nor a NUL.
abbrev pub IsLine : Text → Type 0
IsLine t = Free 10 t × Free 0 t

-- No space at either end.
abbrev pub IsTrimmed : Text → Type 0
IsTrimmed t = (trim_start t ≡ t) × (trim_end t ≡ t)

pub Free-append : (c : ℕ) (xs ys : Text) → Free c xs → Free c ys → Free c (xs ++ ys)
Free-append c [] ys h k = k
Free-append c (x ∷ xs) ys (e, h) k = (e, Free-append c xs ys h k)

fgets-line :
    (room : ℕ) (line rest : Text)
    → Free 10 line
    → length line < room
    → fgets room (line ++ (10 ∷ rest)) ≡ (line ++ (10 ∷ []), rest)
unfolding fgets
fgets-line zero line rest free less = absurd (omega arith)
fgets-line (suc room) [] rest free less = refl
fgets-line (suc room) (c ∷ line) rest (ne, free) less =
    rw (ne, fgets-line room line rest free (omega arith)) refl

-- `config_parse` on what is left of the file.
abbrev pub parse_file : Parser → Text → Parser
parse_file p file = parse_loop (length file) p file

pub parse_file-line :
    (p : Parser) (line rest : Text)
    → Free 10 line
    → length line < 1023
    → parse_file p (line ++ (10 ∷ rest)) ≡ parse_file (parse_line p (line ++ (10 ∷ []))) rest
unfolding parse_loop
parse_file-line p [] rest free less =
    ap (λ t. parse_loop (length rest) (parse_line p t.0) t.1) (fgets-line 1023 [] rest free less)
parse_file-line p (c ∷ line) rest free less =
    ap (λ t. parse_loop (length (line ++ (10 ∷ rest))) (parse_line p t.0) t.1)
      (fgets-line 1023 (c ∷ line) rest free less)
    ∙ parse_loop-enough (length (line ++ (10 ∷ rest))) (length rest)
        (parse_line p (c ∷ (line ++ (10 ∷ [])))) rest
        (omega (arith, length-append line (10 ∷ rest))) (omega arith)

pub c_string-line : (t : Text) → Free 0 t → c_string t ≡ t
unfolding c_string
c_string-line [] free = refl
c_string-line (c ∷ cs) (ne, free) = rw ne (ap (◌∷◌ c) (c_string-line cs free))

pub trim_end-append :
    (xs ys : Text) (d : ℕ) (ds : Text) → trim_end ys ≡ d ∷ ds → trim_end (xs ++ ys) ≡ xs ++ (d ∷ ds)
unfolding trim_end
trim_end-append [] ys d ds h = h
trim_end-append (x ∷ []) ys d ds h = ap (kept x) h
trim_end-append (x ∷ x' ∷ xs) ys d ds h = ap (kept x) (trim_end-append (x' ∷ xs) ys d ds h)

pub trim_end-space :
    (xs : Text) (c : ℕ) → isspace c ≡ true → trim_end (xs ++ (c ∷ [])) ≡ trim_end xs
unfolding trim_end
trim_end-space [] c h = rw h refl
trim_end-space (x ∷ xs) c h = ap (kept x) (trim_end-space xs c h)

trim_start-le : (t : Text) → length (trim_start t) ≤ length t
unfolding trim_start
trim_start-le [] = omega arith
trim_start-le (c ∷ cs) = ground (arith, trim_start-le cs)

-- The first byte of a text that has no space in front.
pub first-space : (c : ℕ) (cs : Text) → trim_start (c ∷ cs) ≡ c ∷ cs → isspace c ≡ false
unfolding trim_start
first-space c cs h = elim (Bool-cases (isspace c)) [
  | inl e ↦
      let shorter : trim_start cs ≡ c ∷ cs =
        subst (λ b. (if b then trim_start cs else c ∷ cs) ≡ c ∷ cs) e h in
      absurd (omega (arith, ap length shorter, trim_start-le cs))
  | inr e ↦ e
]

section_name-bracket : (name : Text) → section_name (name ++ (93 ∷ [])) ≡ some name
unfolding section_name
section_name-bracket [] = refl
section_name-bracket (c ∷ []) = refl
section_name-bracket (c ∷ d ∷ ds) = rw (section_name-bracket (d ∷ ds)) refl

pub split_at-append :
    (key value : Text) → Free 61 key → split_at (key ++ (61 ∷ value)) ≡ some (key, value)
unfolding split_at
split_at-append [] value free = refl
split_at-append (k ∷ key) value (ne, free) = rw (ne, split_at-append key value free) refl

last_bracket : trim_end (93 ∷ 10 ∷ []) ≡ 93 ∷ []
unfolding trim_end
last_bracket = refl

pub starts_as : (c : ℕ) (cs : Text) → isspace c ≡ false → trim_start (c ∷ cs) ≡ c ∷ cs
unfolding trim_start
starts_as c cs h = rw h refl

starts_bracket : (cs : Text) → trim_start (91 ∷ cs) ≡ 91 ∷ cs
starts_bracket cs = starts_as 91 cs refl

-- The head of a section sets the name.
pub parse_line-head :
    (p : Parser) (sec : Section)
    → IsLine sec.name
    → parse_line p (head_text sec) ≡ record p { section = sec.name }
unfolding parse_line parse_trimmed trim
parse_line-head p sec (_, free) =
    let name = sec.name in
    let whole : c_string (91 ∷ (name ++ (93 ∷ 10 ∷ []))) ≡ 91 ∷ (name ++ (93 ∷ 10 ∷ [])) =
      c_string-line (91 ∷ (name ++ (93 ∷ 10 ∷ [])))
        (refl, Free-append 0 name (93 ∷ 10 ∷ []) free (refl, (refl, tt))) in
    let ends : trim_end (91 ∷ (name ++ (93 ∷ 10 ∷ []))) ≡ 91 ∷ (name ++ (93 ∷ [])) =
      trim_end-append (91 ∷ name) (93 ∷ 10 ∷ []) 93 [] last_bracket in
    ap (λ t. parse_trimmed p (trim_end (trim_start t))) whole
    ∙ (ap (λ t. parse_trimmed p (trim_end t)) (starts_bracket (name ++ (93 ∷ 10 ∷ [])))
        ∙ (ap (parse_trimmed p) ends ∙ ap (parse_section p) (section_name-bracket name)))

-- Whether a line with this key is a comment or the head of a section, or the key is empty.
abbrev pub opens : Text → Bool
opens [] = true
opens (c ∷ _) = c == 35 || c == 91

-- An entry that can be printed and read back: its line is one, and short enough for the buffer; the key is not empty, has no
-- `=` and does not begin as a comment or a section does; nothing has space at an end.
pub record CleanEntry (e : Entry) : Type 0 where
  pub key_line : IsLine e.key
  pub value_line : IsLine e.value
  pub key_trimmed : IsTrimmed e.key
  pub value_trimmed : IsTrimmed e.value
  pub key_equals : Free 61 e.key
  pub key_first : opens e.key ≡ false
  pub short : length e.key + length e.value < 1020
