-- ===== src/Config/Access.antt =====
-- What `config_get_string` answers after the operations of src/config.c.
use osi.Prelude.{
  ◌≡◌, refl, ap, ap₂, ◌∙◌, sym, Bool, true, false, Option, none, some, List, [], ◌∷◌, ◌++◌, ◌&&◌,
  if◌then◌else◌, is_some, subst, arith, Bool-cases, Option-cases, and_left, and_right, inl, inr,
}
use osi.Config.{
  Config, Text, text_eq, Entry, Section, section_new, find_section, find_entry, entry_find,
  has_section, has_key, get_string, set_entry, modify_section, set_string, drop_entry, remove_key,
}
use osi.Config.Entries.{
  eq_of_text_eq, text_eq_self, value_in, value-set_entry, DistinctKeys, value-drop_entry,
  find-modify_same, find-modify_other, find-append, find_section_eq,
}

-- What a section found says of a key, and what a default adds.
abbrev section_value : Option Section → Text → Option Text
section_value none j = none
section_value (some sec) j = value_in sec.entries j

abbrev or_default : Option Text → Option Text → Option Text
or_default none d = d
or_default (some v) d = some v

get_string-value :
    (c : Config) (t j : Text) (d : Option Text)
    → get_string c t j d ≡ or_default (section_value (find_section c.sections t) j) d
unfolding get_string
get_string-value c t j d = ground arith

-- The value of a key in a list of sections.
abbrev value_at : List Section → Text → Text → Option Text
value_at secs t j = section_value (find_section secs t) j

-- A change of the entries of one section that sets `k` to `new`.
value-modify :
    (f : List Entry → List Entry) (k : Text) (new : Option Text) (secs : List Section)
    (s t j : Text)
    → (sec : Section) → find_section secs s ≡ some sec
    → value_in (f sec.entries) j ≡ (if text_eq k j then new else value_in sec.entries j)
    → value_at (modify_section f secs s) t j
      ≡ (if text_eq s t && text_eq k j then new else value_at secs t j)
value-modify f k new secs s t j sec old agree = elim (Bool-cases (text_eq s t)) [
  | inl same ↦
      let there = sym (find_section_eq secs s t same) ∙ old in
      rw (find-modify_same f secs s t sec same there, there, same) agree
  | inr other ↦ rw (find-modify_other f secs s t other, other)
]

value-append :
    (secs : List Section) (s t j : Text)
    → find_section secs s ≡ none
    → value_at (secs ++ (section_new s ∷ [])) t j ≡ value_at secs t j
unfolding find_entry
value-append secs s t j new = ground (arith, find-append secs (section_new s) t)

find-append_self :
    (secs : List Section) (s : Text)
    → find_section secs s ≡ none
    → find_section (secs ++ (section_new s ∷ [])) s ≡ some (section_new s)
find-append_self secs s new = ground (arith, find-append secs (section_new s) s, text_eq_self s)

-- `config_set_string` gives the key the value, whether or not the section and the key were there, and
-- leaves the answer for every other section or key as it was.
pub get-set_string :
    (c : Config) (s k v t j : Text) (def_value : Option Text)
    → get_string (set_string c s k v) t j def_value
      ≡ (if text_eq s t && text_eq k j then some v else get_string c t j def_value)
unfolding set_string
get-set_string c s k v t j def_value =
    get_string-value (set_string c s k v) t j def_value
    ∙ (ap (λ (o : Option Text). or_default o def_value) (value (find_section c.sections s) refl)
        ∙ (either (text_eq s t && text_eq k j)
            ∙ ap (λ (o : Option Text). if text_eq s t && text_eq k j then some v else o)
                (sym (get_string-value c t j def_value))))
  where
    either :
        (b : Bool)
        → or_default (if b then some v else value_at c.sections t j) def_value
          ≡ (if b then some v else or_default (value_at c.sections t j) def_value)
    either true = refl
    either false = refl

    value :
        (o : Option Section)
        → find_section c.sections s ≡ o
        → value_at (set_string c s k v).sections t j
          ≡ (if text_eq s t && text_eq k j then some v else value_at c.sections t j)
    value none new =
        rw (new, set_string)
          (let secs = c.sections ++ (section_new s ∷ []) in
            value-modify (λ es. set_entry es k v) k (some v) secs s t j (section_new s)
              (find-append_self c.sections s new) (value-set_entry [] k v j)
            ∙ ap (λ (o : Option Text). if text_eq s t && text_eq k j then some v else o)
                (value-append c.sections s t j new))
    value (some sec) old =
        rw (old, set_string)
          (value-modify (λ es. set_entry es k v) k (some v) c.sections s t j sec old
            (value-set_entry sec.entries k v j))

-- The names of the sections are distinct, and so are the keys of each.
abbrev pub DistinctSections : List Section → Type 0
DistinctSections [] = Unit
DistinctSections (x ∷ secs) =
    (is_some (find_section secs x.name) ≡ false) × DistinctKeys x.entries × DistinctSections secs

found-DistinctKeys :
    (secs : List Section) (s : Text) (sec : Section)
    → DistinctSections secs
    → find_section secs s ≡ some sec
    → DistinctKeys sec.entries
unfolding find_section
found-DistinctKeys [] s sec d h = absurd (ground arith)
found-DistinctKeys (x ∷ secs) s sec (new, keys, d) h = elim (Bool-cases (text_eq x.name s)) [
  | inl hit ↦ subst (λ (o : Section). DistinctKeys o.entries) {x = x} {y = sec} (ground arith) keys
  | inr miss ↦ found-DistinctKeys secs s sec d (ground arith)
]

-- A key without a value.
get_absent :
    (c : Config) (s k t j : Text) (def_value : Option Text)
    → value_at c.sections s k ≡ none
    → get_string c t j def_value
      ≡ (if text_eq s t && text_eq k j then def_value else get_string c t j def_value)
get_absent c s k t j def_value h = elim (Bool-cases (text_eq s t && text_eq k j)) [
  | inl same ↦
      let es = eq_of_text_eq s t (and_left _ _ same) in
      let ek = eq_of_text_eq k j (and_right _ _ same) in
      rw same (
        get_string-value c t j def_value
        ∙ ap (λ (o : Option Text). or_default o def_value)
            (ap₂ (value_at c.sections) (sym es) (sym ek) ∙ h))
  | inr other ↦ rw other
]

find-modify_is_some :
    (f : List Entry → List Entry) (secs : List Section) (s t : Text)
    → is_some (find_section (modify_section f secs s) t) ≡ is_some (find_section secs t)
unfolding find_section modify_section
find-modify_is_some f [] s t = refl
find-modify_is_some f (x ∷ secs) s t = ground (arith, find-modify_is_some f secs s t)

-- The two outcomes of `config_remove_key`.
missing_key :
    (c : Config) (s k : Text)
    → entry_find c s k ≡ none
    → (remove_key c s k ≡ (false, c)) × (has_key c s k ≡ false) × (value_at c.sections s k ≡ none)
unfolding remove_key has_key
missing_key c s k h = (ground arith, ground arith, ground arith)

present_key :
    (c : Config) (s k : Text) (sec : Section) (e : Entry)
    → find_section c.sections s ≡ some sec
    → find_entry sec.entries k ≡ some e
    → (remove_key c s k
        ≡ (true, record { sections = modify_section (λ es. drop_entry es k) c.sections s }))
      × (has_key c s k ≡ true)
unfolding remove_key has_key
present_key c s k sec e old there = (ground arith, ground arith)

entry_find_in :
    (c : Config) (s k : Text) (o : Option Section)
    → find_section c.sections s ≡ o
    → entry_find c s k ≡ (elim o [ none ↦ none | some sec ↦ find_entry sec.entries k ])
unfolding entry_find
entry_find_in c s k o h = rw (h, entry_find)

-- What is to be shown of the result of `config_remove_key`.
abbrev Removes : Config → Text → Text → Text → Text → Option Text → Bool × Config → Type 0
Removes c s k t j def_value (found, c') =
    (found ≡ has_key c s k)
    × (get_string c' t j def_value
        ≡ (if text_eq s t && text_eq k j then def_value else get_string c t j def_value))
    × (has_section c' t ≡ has_section c t)

Removes-missing :
    (c : Config) (s k t j : Text) (def_value : Option Text)
    → entry_find c s k ≡ none
    → Removes c s k t j def_value (remove_key c s k)
Removes-missing c s k t j def_value h =
    let (result, has, value) = missing_key c s k h in
    subst (Removes c s k t j def_value) (sym result)
      (sym has, get_absent c s k t j def_value value, refl)

Removes-present :
    (c : Config) (s k t j : Text) (def_value : Option Text) (sec : Section) (e : Entry)
    → find_section c.sections s ≡ some sec
    → find_entry sec.entries k ≡ some e
    → DistinctKeys sec.entries
    → Removes c s k t j def_value (remove_key c s k)
unfolding has_section
Removes-present c s k t j def_value sec e old there d =
    let (result, has) = present_key c s k sec e old there in
    let c' : Config = record { sections = modify_section (λ es. drop_entry es k) c.sections s } in
    let value =
      value-modify (λ es. drop_entry es k) k none c.sections s t j sec old
        (value-drop_entry sec.entries k j d) in
    subst (Removes c s k t j def_value) (sym result) (
      sym has,
      get_string-value c' t j def_value
          ∙ (ap (λ (o : Option Text). or_default o def_value) value
              ∙ (either (text_eq s t && text_eq k j)
                  ∙ ap (λ (o : Option Text). if text_eq s t && text_eq k j then def_value else o)
                      (sym (get_string-value c t j def_value)))),
      find-modify_is_some (λ es. drop_entry es k) c.sections s t,
    )
  where
    either :
        (b : Bool)
        → or_default (if b then none else value_at c.sections t j) def_value
          ≡ (if b then def_value else or_default (value_at c.sections t j) def_value)
    either true = refl
    either false = refl

-- `config_remove_key` says whether the key was there. Afterwards it is not, every other answer is as
-- before, and no section is gone, even one that has lost its last key.
pub get-remove_key :
    (c : Config) (s k t j : Text) (def_value : Option Text)
    → DistinctSections c.sections
    → let (found, c') = remove_key c s k in
      (found ≡ has_key c s k)
      × (get_string c' t j def_value
          ≡ (if text_eq s t && text_eq k j then def_value else get_string c t j def_value))
      × (has_section c' t ≡ has_section c t)
get-remove_key c s k t j def_value d = elim (Option-cases (find_section c.sections s)) [
  | inl new ↦ Removes-missing c s k t j def_value (entry_find_in c s k none new)
  | inr (sec, old) ↦ elim (Option-cases (find_entry sec.entries k)) [
    | inl gone ↦ Removes-missing c s k t j def_value (entry_find_in c s k (some sec) old ∙ gone)
    | inr (e, there) ↦
        Removes-present c s k t j def_value sec e old there
          (found-DistinctKeys c.sections s sec d old)
  ]
]
