-- ===== src/Config/Rebuild.antt =====
-- `config_set_string` on entries in the order in which they were saved rebuilds the sections.
use osi.Prelude.{◌≡◌, refl, ap, ◌∙◌, false, none, some, List, [], ◌∷◌, ◌++◌, All}
use osi.Config.{
  Text, text_eq, Entry, Section, Config, entry_new, section_new, find_section, section_find,
  set_entry, modify_section, set_string,
}
use osi.Config.Entries.{text_eq_self}

-- No two keys of a section, and no two names, are the same.
abbrev pub FreshKeys : (before : List Entry) → List Entry → Type 0
FreshKeys before [] = Unit
FreshKeys before (e ∷ es) =
    All (λ d. text_eq d.key e.key ≡ false) before × FreshKeys (before ++ (e ∷ [])) es

abbrev pub FreshNames : (before : List Section) → List Section → Type 0
FreshNames before [] = Unit
FreshNames before (sec ∷ secs) =
    All (λ d. text_eq d.name sec.name ≡ false) before × FreshNames (before ++ (sec ∷ [])) secs

set_entry-fresh :
    (es : List Entry) (key value : Text)
    → All (λ d. text_eq d.key key ≡ false) es
    → set_entry es key value ≡ es ++ (entry_new key value ∷ [])
unfolding set_entry
set_entry-fresh [] key value h = refl
set_entry-fresh (e ∷ es) key value (ne, h) = rw ne (ap (◌∷◌ e) (set_entry-fresh es key value h))

find-fresh :
    (secs : List Section) (name : Text)
    → All (λ d. text_eq d.name name ≡ false) secs
    → find_section secs name ≡ none
unfolding find_section
find-fresh [] name h = refl
find-fresh (sec ∷ secs) name (ne, h) = rw ne (find-fresh secs name h)

find-last :
    (secs : List Section) (sec : Section)
    → All (λ d. text_eq d.name sec.name ≡ false) secs
    → find_section (secs ++ (sec ∷ [])) sec.name ≡ some sec
unfolding find_section
find-last [] sec h = rw (text_eq_self sec.name) refl
find-last (d ∷ secs) sec (ne, h) = rw ne (find-last secs sec h)

modify-last :
    (f : List Entry → List Entry) (secs : List Section) (sec : Section)
    → All (λ d. text_eq d.name sec.name ≡ false) secs
    → modify_section f (secs ++ (sec ∷ [])) sec.name
      ≡ secs ++ (record sec { entries = f sec.entries } ∷ [])
unfolding modify_section
modify-last f [] sec h = rw (text_eq_self sec.name) refl
modify-last f (d ∷ secs) sec (ne, h) = rw ne (ap (◌∷◌ d) (modify-last f secs sec h))

abbrev pub config_of : List Section → Config
config_of secs = record { sections = secs }

abbrev pub section_of : Text → List Entry → Section
section_of name es = record { name = name; entries = es }

-- The first entry of a section that is not there yet.
pub set_string-first :
    (secs : List Section) (name : Text) (e : Entry)
    → All (λ d. text_eq d.name name ≡ false) secs
    → set_string (config_of secs) name e.key e.value
      ≡ config_of (secs ++ (section_of name (e ∷ []) ∷ []))
unfolding set_string section_find
set_string-first secs name e fresh =
    rw (find-fresh secs name fresh)
      (ap config_of (modify-last (λ es. set_entry es e.key e.value) secs (section_new name) fresh))

-- A further entry of the last section.
pub set_string-more :
    (secs : List Section) (name : Text) (es : List Entry) (e : Entry)
    → All (λ d. text_eq d.name name ≡ false) secs
    → All (λ d. text_eq d.key e.key ≡ false) es
    → set_string (config_of (secs ++ (section_of name es ∷ []))) name e.key e.value
      ≡ config_of (secs ++ (section_of name (es ++ (e ∷ [])) ∷ []))
unfolding set_string section_find
set_string-more secs name es e fresh keys = rw (find-last secs (section_of name es) fresh) (
    ap config_of (
      modify-last (λ es. set_entry es e.key e.value) secs (section_of name es) fresh
      ∙ ap (λ es'. secs ++ (section_of name es' ∷ [])) (set_entry-fresh es e.key e.value keys)))
