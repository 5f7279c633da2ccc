-- ===== src/Config/Sections.antt =====
-- The removal of a section of src/config.c.
use osi.Prelude.{
  ◌≡◌, refl, ap, ◌∙◌, sym, Bool, true, false, not, ◌&&◌, Option, none, some, List, [], ◌∷◌,
  if◌then◌else◌, is_some, Bool-cases, inl, inr, arith,
}
use osi.Config.{
  Text, text_eq, Section, Config, find_section, section_find, entry_find, has_section, get_string,
  drop_section, remove_section,
}
use osi.Config.Entries.{text_eq_self, eq_of_text_eq, text_eq_left}
use osi.Config.Access.{DistinctSections}

is_none : (o : Option Section) → is_some o ≡ false → o ≡ none
is_none none h = refl
is_none (some sec) h = absurd cc

find-drop_section :
    (secs : List Section) (s t : Text)
    → DistinctSections secs
    → find_section (drop_section secs s) t ≡ (if text_eq s t then none else find_section secs t)
unfolding find_section drop_section
find-drop_section [] s t d = elim (Bool-cases (text_eq s t)) [
  | inl e ↦ rw e refl
  | inr e ↦ rw e refl
]
find-drop_section (x ∷ secs) s t (new, keys, d) = elim (Bool-cases (text_eq x.name s)) [
  | inl hit ↦
      let same = text_eq_left x.name s t hit in
      rw (hit, same)
        (elim (Bool-cases (text_eq s t)) [
          | inl e ↦ rw e (
              is_none (find_section secs t) (
                ap (λ (n : Text). is_some (find_section secs n))
                  (sym (eq_of_text_eq x.name t (same ∙ e)))
                ∙ new))
          | inr e ↦ rw e refl
        ])
  | inr miss ↦
      let rest = find-drop_section secs s t d in
      rw miss (elim (Bool-cases (text_eq x.name t)) [
        | inl e ↦ rw (e, other s t (eq_of_text_eq x.name t e) miss) refl
        | inr e ↦ rw e rest
      ])
]
  where
    other : (s t : Text) → x.name ≡ t → text_eq x.name s ≡ false → text_eq s t ≡ false
    other s t e miss = elim (Bool-cases (text_eq s t)) [
      | inl h ↦
          let same : s ≡ x.name = eq_of_text_eq s t h ∙ sym e in
          absurd (ground (arith, ap (λ (n : Text). text_eq x.name n) same, text_eq_self x.name))
      | inr h ↦ h
    ]

-- What follows from the search for a section that gives nothing, or what it gave before.
answers :
    (b : Bool) (c c' : Config) (t j : Text) (def_value : Option Text)
    → find_section c'.sections t ≡ (if b then none else find_section c.sections t)
    → (has_section c' t ≡ (not b && has_section c t))
      × (get_string c' t j def_value ≡ (if b then def_value else get_string c t j def_value))
unfolding has_section get_string entry_find section_find
answers true c c' t j def_value h = (rw h refl, rw (h, get_string, entry_find) refl)
answers false c c' t j def_value h = (rw h refl, rw (h, get_string, entry_find) refl)

absent :
    (secs : List Section) (s t : Text)
    → is_some (find_section secs s) ≡ false
    → find_section secs t ≡ (if text_eq s t then none else find_section secs t)
absent secs s t h = elim (Bool-cases (text_eq s t)) [
  | inl e ↦ rw e (
      is_none (find_section secs t)
        (ap (λ (n : Text). is_some (find_section secs n)) (sym (eq_of_text_eq s t e)) ∙ h))
  | inr e ↦ rw e refl
]

-- `config_remove_section` says whether the section was there. Afterwards it is not, its keys have no
-- value, and every other section and its keys answer as before. The names of sections are distinct.
pub remove_section-rest :
    (c : Config) (s t j : Text) (def_value : Option Text)
    → DistinctSections c.sections
    → let (found, c') = remove_section c s in
      (found ≡ has_section c s)
      × (has_section c' t ≡ (not (text_eq s t) && has_section c t))
      × (get_string c' t j def_value
          ≡ (if text_eq s t then def_value else get_string c t j def_value))
unfolding remove_section has_section section_find
remove_section-rest c s t j def_value d = elim (Bool-cases (is_some (find_section c.sections s))) [
  | inl e ↦
      let after : Config = record { sections = drop_section c.sections s } in
      let (has, value) =
        answers (text_eq s t) c after t j def_value (find-drop_section c.sections s t d) in
      rw e (refl, has, value)
  | inr e ↦
      let (has, value) = answers (text_eq s t) c c t j def_value (absent c.sections s t e) in
      rw e (refl, has, value)
]
