-- ===== src/Config/RoundTrip.antt =====
-- `config_new` reads back what `config_save` leaves.
use osi.Prelude.{
  ◌<◌, ◌≡◌, ◌≢◌, refl, ap, sym, ◌∙◌, true, false, some, List, [], ◌∷◌, ◌++◌, if◌then◌else◌, bytes,
  length, All, append_assoc, append-nil,
}
use osi.Config.{Text, text_eq, Entry, Section, Config}
use osi.Config.File.{
  Io, Files, entry_text, head_text, entry_pieces, pieces, print, save, save-atomic,
}
use osi.Config.Parse.{Parser, parse_loop, config_parse, config_new}
use osi.Config.Scan.{IsLine, CleanEntry, parse_file}
use osi.Config.Lines.{parse_file-entry, parse_file-head, parse_file-newline}
use osi.Config.Rebuild.{
  FreshKeys, FreshNames, config_of, section_of, set_string-first, set_string-more,
}

-- A section that can be printed and read back: it has entries, each with a key of its own, and its name
-- is one short line.
pub record CleanSection (sec : Section) : Type 0 where
  pub name_line : IsLine sec.name
  pub name_short : length sec.name < 1021
  pub some_entry : sec.entries ≢ []
  pub entries_clean : All CleanEntry sec.entries
  pub keys_fresh : FreshKeys [] sec.entries

abbrev pub IsClean : Config → Type 0
IsClean c = All CleanSection c.sections × FreshNames [] c.sections

-- The parser in a section, with these sections read.
abbrev at : Text → List Section → Parser
at name secs = record { section = name; config = config_of secs }

abbrev Fresh : List Section → Text → Type 0
Fresh secs name = All (λ d. text_eq d.name name ≡ false) secs

parse-entries :
    (secs : List Section) (name : Text) (before es : List Entry) (more : List Text)
    → Fresh secs name
    → All CleanEntry es
    → FreshKeys before es
    → parse_file (at name (secs ++ (section_of name before ∷ []))) (print (entry_pieces es ++ more))
      ≡ parse_file (at name (secs ++ (section_of name (before ++ es) ∷ []))) (print more)
unfolding print
parse-entries secs name before [] more fresh clean keys =
    ap (λ es. parse_file (at name (secs ++ (section_of name es ∷ []))) (print more))
      (sym (append-nil before))
parse-entries secs name before (e ∷ es) more fresh (one, clean) (key, keys) =
    parse_file-entry (at name (secs ++ (section_of name before ∷ []))) e
      (print (entry_pieces es ++ more)) one
    ∙ (ap
          (λ c.
            parse_file (record { section = name; config = c }) (print (entry_pieces es ++ more)))
          (set_string-more secs name before e fresh key)
        ∙ (parse-entries secs name (before ++ (e ∷ [])) es more fresh clean keys
            ∙ ap (λ es'. parse_file (at name (secs ++ (section_of name es' ∷ []))) (print more))
                (append_assoc before (e ∷ []) es)))

parse-section :
    (current : Text) (secs : List Section) (name : Text) (es : List Entry) (more : List Text)
    → CleanSection (section_of name es)
    → Fresh secs name
    → parse_file
        (at current secs)
        (print ((head_text (section_of name es) ∷ entry_pieces es) ++ more))
      ≡ parse_file (at name (secs ++ (section_of name es ∷ []))) (print more)
unfolding print
parse-section current secs name [] more clean fresh = absurd (clean.some_entry refl)
parse-section current secs name (e ∷ es) more clean fresh =
    let rest = print (entry_pieces es ++ more) in
    parse_file-head (at current secs) (section_of name (e ∷ es)) (entry_text e ++ rest)
      clean.name_line clean.name_short
    ∙ (parse_file-entry (at name secs) e rest clean.entries_clean.0
        ∙ (ap (λ c. parse_file (record { section = name; config = c }) rest)
              (set_string-first secs name e fresh)
            ∙ parse-entries secs name (e ∷ []) es more fresh clean.entries_clean.1
                clean.keys_fresh.1))

parse-pieces :
    (current : Text) (secs rest : List Section)
    → All CleanSection rest
    → FreshNames secs rest
    → (parse_file (at current secs) (print (pieces rest))).config ≡ config_of (secs ++ rest)
unfolding pieces print parse_loop
parse-pieces current secs [] clean fresh = ap config_of (sym (append-nil secs))
parse-pieces current secs (sec ∷ []) (clean, _) (fresh, _) =
    ap (λ p. p.config) (parse-section current secs sec.name sec.entries [] clean fresh)
parse-pieces current secs (sec ∷ sec' ∷ rest) (one, clean) (fresh, names) =
    ap (λ p. p.config)
      (parse-section current secs sec.name sec.entries (bytes "\n" ∷ pieces (sec' ∷ rest)) one fresh
        ∙ parse_file-newline (at sec.name (secs ++ (sec ∷ []))) (print (pieces (sec' ∷ rest))))
    ∙ (parse-pieces sec.name (secs ++ (sec ∷ [])) (sec' ∷ rest) clean names
        ∙ ap config_of (append_assoc secs (sec ∷ []) (sec' ∷ rest)))

new-print : (c : Config) → IsClean c → config_new (some (print (pieces c.sections))) ≡ some c
unfolding config_new config_parse
new-print c (clean, fresh) =
    ap (λ c'. some c') (parse-pieces (bytes "Global") [] c.sections clean fresh)

-- When `config_save` answers true, `config_new` reads the configuration back from the file. Every
-- section has entries, and no name and no key of a section is there twice; no name, key or value has a
-- newline or a NUL; no key or value has space at an end; a key is not empty, has no `=` and does not
-- begin with `#` or `[`; and each line fits the buffer.
pub new-save :
    (io : Io) (c : Config) (files : Files)
    → IsClean c
    → (save io c files).0 ≡ true
    → config_new (save io c files).1.target ≡ some c
new-save io c files clean done =
    ap config_new (
      (save-atomic io c files).1
      ∙ ap (λ b. if b then some (print (pieces c.sections)) else files.target) done)
    ∙ new-print c clean
