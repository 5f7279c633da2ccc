-- ===== src/Config/Lines.antt =====
-- What `config_parse` makes of the lines that `config_save` prints.
use osi.Prelude.{
  ℕ, ◌<◌, ◌≡◌, refl, ap, ap₂, sym, ◌∙◌, false, some, [], ◌∷◌, ◌++◌, length, append_assoc,
  length-append, arith,
}
use osi.Config.{Text, Entry, Section, set_string}
use osi.Config.Parse.{
  trim_start, kept, trim_end, trim, c_string, split_at, Parser, parse_entry, parse_trimmed,
  parse_line,
}
use osi.Config.File.{entry_text, head_text}
use osi.Config.Scan.{
  Free, IsLine, IsTrimmed, Free-append, parse_file, parse_file-line, c_string-line, trim_end-append,
  trim_end-space, first-space, split_at-append, starts_as, parse_line-head, opens, CleanEntry,
}

-- What is behind the key on the trimmed line.
abbrev behind : Text → Text
behind [] = 32 ∷ 61 ∷ []
behind (v ∷ vs) = 32 ∷ 61 ∷ 32 ∷ v ∷ vs

trim_end-behind :
    (value : Text)
    → trim_end value ≡ value
    → trim_end (32 ∷ 61 ∷ 32 ∷ (value ++ (10 ∷ []))) ≡ behind value
unfolding trim_end
trim_end-behind [] h = refl
trim_end-behind (v ∷ vs) h =
    ap (λ t. kept 32 (kept 61 (kept 32 t))) (trim_end-space (v ∷ vs) 10 refl ∙ h)

behind-append :
    (key value : Text)
    → trim_end (32 ∷ 61 ∷ 32 ∷ (value ++ (10 ∷ []))) ≡ behind value
    → trim_end (key ++ (32 ∷ 61 ∷ 32 ∷ (value ++ (10 ∷ [])))) ≡ key ++ behind value
behind-append key [] h = trim_end-append key (32 ∷ 61 ∷ 32 ∷ 10 ∷ []) 32 (61 ∷ []) h
behind-append key (v ∷ vs) h =
    trim_end-append key (32 ∷ 61 ∷ 32 ∷ (v ∷ vs ++ (10 ∷ []))) 32 (61 ∷ 32 ∷ v ∷ vs) h

-- The trimmed line of an entry.
trim-entry :
    (k : ℕ) (ks value : Text)
    → IsTrimmed (k ∷ ks)
    → IsTrimmed value
    → trim ((k ∷ ks) ++ (32 ∷ 61 ∷ 32 ∷ (value ++ (10 ∷ [])))) ≡ (k ∷ ks) ++ behind value
unfolding trim
trim-entry k ks value (start, _) (_, ends) =
    ap trim_end (starts_as k (ks ++ (32 ∷ 61 ∷ 32 ∷ (value ++ (10 ∷ [])))) (first-space k ks start))
    ∙ behind-append (k ∷ ks) value (trim_end-behind value ends)

-- The value as it stands behind `=`.
abbrev spaced : Text → Text
spaced [] = []
spaced (v ∷ vs) = 32 ∷ v ∷ vs

behind-spaced : (value : Text) → behind value ≡ 32 ∷ 61 ∷ spaced value
behind-spaced [] = refl
behind-spaced (v ∷ vs) = refl

trim-spaced : (value : Text) → IsTrimmed value → trim (spaced value) ≡ value
unfolding trim trim_start
trim-spaced [] (start, ends) = ends
trim-spaced (v ∷ vs) (start, ends) = ap trim_end start ∙ ends

trim-key : (k : ℕ) (ks : Text) → IsTrimmed (k ∷ ks) → trim ((k ∷ ks) ++ (32 ∷ [])) ≡ k ∷ ks
unfolding trim
trim-key k ks (start, ends) =
    ap trim_end (starts_as k (ks ++ (32 ∷ [])) (first-space k ks start))
    ∙ (trim_end-space (k ∷ ks) 32 refl ∙ ends)

split-entry :
    (key value : Text)
    → Free 61 key
    → split_at (key ++ behind value) ≡ some (key ++ (32 ∷ []), spaced value)
split-entry key value free =
    ap (λ t. split_at (key ++ t)) (behind-spaced value)
    ∙ (ap split_at (sym (append_assoc key (32 ∷ []) (61 ∷ spaced value)))
        ∙ split_at-append (key ++ (32 ∷ [])) (spaced value)
            (Free-append 61 key (32 ∷ []) free (refl, tt)))

parse_trimmed-entry :
    (p : Parser) (k : ℕ) (cs : Text)
    → opens (k ∷ cs) ≡ false
    → parse_trimmed p (k ∷ cs) ≡ parse_entry p (split_at (k ∷ cs))
unfolding parse_trimmed
parse_trimmed-entry p k cs h = ground arith

-- The line of an entry sets its key in the current section.
parse_line-text :
    (p : Parser) (key value : Text)
    → CleanEntry (record { key = key; value = value })
    → parse_line p (key ++ (32 ∷ 61 ∷ 32 ∷ (value ++ (10 ∷ []))))
      ≡ record p { config = set_string p.config p.section key value }
unfolding parse_line
parse_line-text p [] value clean = let bad = clean.key_first in cc
parse_line-text p (k ∷ ks) value clean =
    let free : Free 0 ((k ∷ ks) ++ (32 ∷ 61 ∷ 32 ∷ (value ++ (10 ∷ [])))) =
      Free-append 0 (k ∷ ks) (32 ∷ 61 ∷ 32 ∷ (value ++ (10 ∷ []))) clean.key_line.1
        (refl, (refl, (refl, Free-append 0 value (10 ∷ []) clean.value_line.1 (refl, tt)))) in
    ap (λ t. parse_trimmed p (trim t))
      (c_string-line ((k ∷ ks) ++ (32 ∷ 61 ∷ 32 ∷ (value ++ (10 ∷ [])))) free)
    ∙ (ap (parse_trimmed p) (trim-entry k ks value clean.key_trimmed clean.value_trimmed)
        ∙ (parse_trimmed-entry p k (ks ++ behind value) clean.key_first
            ∙ (ap (parse_entry p) (split-entry (k ∷ ks) value clean.key_equals)
                ∙ ap₂ (λ a b. record p { config = set_string p.config p.section a b })
                    (trim-key k ks clean.key_trimmed) (trim-spaced value clean.value_trimmed))))

-- The part of the file that an entry is printed as, and that a head is.
pub parse_file-entry :
    (p : Parser) (e : Entry) (rest : Text)
    → CleanEntry e
    → parse_file p (entry_text e ++ rest)
      ≡ parse_file (record p { config = set_string p.config p.section e.key e.value }) rest
parse_file-entry p e rest clean =
    let line = e.key ++ (32 ∷ 61 ∷ 32 ∷ e.value) in
    let free : Free 10 line =
      Free-append 10 e.key (32 ∷ 61 ∷ 32 ∷ e.value) clean.key_line.0
        (refl, (refl, (refl, clean.value_line.0))) in
    let printed : entry_text e ++ rest ≡ line ++ (10 ∷ rest) =
      append_assoc e.key (32 ∷ 61 ∷ 32 ∷ (e.value ++ (10 ∷ []))) rest
      ∙ (ap (λ t. e.key ++ (32 ∷ 61 ∷ 32 ∷ t)) (append_assoc e.value (10 ∷ []) rest)
          ∙ sym (append_assoc e.key (32 ∷ 61 ∷ 32 ∷ e.value) (10 ∷ rest))) in
    ap (parse_file p) printed
    ∙ (parse_file-line p line rest free
          (omega (arith, clean.short, length-append e.key (32 ∷ 61 ∷ 32 ∷ e.value)))
        ∙ ap (λ q. parse_file q rest)
            (ap (parse_line p) (append_assoc e.key (32 ∷ 61 ∷ 32 ∷ e.value) (10 ∷ []))
              ∙ parse_line-text p e.key e.value clean))

pub parse_file-head :
    (p : Parser) (sec : Section) (rest : Text)
    → IsLine sec.name
    → length sec.name < 1021
    → parse_file p (head_text sec ++ rest) ≡ parse_file (record p { section = sec.name }) rest
parse_file-head p sec rest is_line short =
    let line = 91 ∷ (sec.name ++ (93 ∷ [])) in
    let free : Free 10 line = (refl, Free-append 10 sec.name (93 ∷ []) is_line.0 (refl, tt)) in
    ap (λ t. parse_file p (91 ∷ t))
      (append_assoc sec.name (93 ∷ 10 ∷ []) rest
        ∙ sym (append_assoc sec.name (93 ∷ []) (10 ∷ rest)))
    ∙ (parse_file-line p line rest free (omega (arith, short, length-append sec.name (93 ∷ [])))
        ∙ ap (λ q. parse_file q rest)
            (ap (λ t. parse_line p (91 ∷ t)) (append_assoc sec.name (93 ∷ []) (10 ∷ []))
              ∙ parse_line-head p sec is_line))

-- An empty line.
pub parse_file-newline : (p : Parser) (rest : Text) → parse_file p (10 ∷ rest) ≡ parse_file p rest
unfolding parse_line c_string trim trim_start trim_end parse_trimmed
parse_file-newline p rest = parse_file-line p [] rest tt (omega arith)
