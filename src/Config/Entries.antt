-- ===== src/Config/Entries.antt =====
-- Equality of texts, and searches in the entries of a section and among the sections.
use osi.Prelude.{
  ◌≡◌, refl, ap, true, false, Option, none, some, List, [], ◌∷◌, ◌++◌, if◌then◌else◌, is_some,
  arith, Bool-cases, inl, inr,
}
use osi.Config.{
  Text, text_eq, Entry, Section, find_section, find_entry, set_entry, modify_section, drop_entry,
}

pub text_eq_self : (a : Text) → text_eq a a ≡ true
text_eq_self [] = refl
text_eq_self (x ∷ xs) = ground (arith, text_eq_self xs)

pub eq_of_text_eq : (a b : Text) → text_eq a b ≡ true → a ≡ b
eq_of_text_eq [] [] h = refl
eq_of_text_eq [] (y ∷ ys) h = cc
eq_of_text_eq (x ∷ xs) [] h = cc
eq_of_text_eq (x ∷ xs) (y ∷ ys) h = ground (arith, eq_of_text_eq xs ys)

-- Texts that `strcmp` finds equal are found equal to the same texts.
pub text_eq_same : (a b c : Text) → text_eq b c ≡ true → text_eq a b ≡ text_eq a c
text_eq_same a b c e = ap (text_eq a) (eq_of_text_eq b c e)

pub text_eq_left : (a b c : Text) → text_eq a b ≡ true → text_eq a c ≡ text_eq b c
text_eq_left a b c e = ap (λ (t : Text). text_eq t c) (eq_of_text_eq a b e)

abbrev pub value_in : List Entry → Text → Option Text
value_in es k = elim (find_entry es k) [ none ↦ none | some e ↦ some e.value ]

-- The value of a key after one is set: every other key keeps its own.
pub value-set_entry :
    (es : List Entry) (k v j : Text)
    → value_in (set_entry es k v) j ≡ (if text_eq k j then some v else value_in es j)
unfolding find_entry set_entry
value-set_entry [] k v j = elim (Bool-cases (text_eq k j)) [ inl e ↦ rw e | inr e ↦ rw e ]
value-set_entry (x ∷ es) k v j = elim (Bool-cases (text_eq x.key k)) [
  | inl hit ↦ rw hit (ground (arith, text_eq_left x.key k j hit))
  | inr miss ↦ rw miss (ground (arith, value-set_entry es k v j, text_eq_same x.key k j))
]

-- No text stands twice as a key.
value_none : (es : List Entry) (a : Text) → is_some (find_entry es a) ≡ false → value_in es a ≡ none
value_none es a h = ground arith

abbrev pub DistinctKeys : List Entry → Type 0
DistinctKeys [] = Unit
DistinctKeys (x ∷ es) = (is_some (find_entry es x.key) ≡ false) × DistinctKeys es

pub value-drop_entry :
    (es : List Entry) (k j : Text)
    → DistinctKeys es
    → value_in (drop_entry es k) j ≡ (if text_eq k j then none else value_in es j)
unfolding find_entry drop_entry
value-drop_entry [] k j d = ground arith
value-drop_entry (x ∷ es) k j (new, d) = elim (Bool-cases (text_eq x.key k)) [
  | inl hit ↦ rw hit (ground (arith, text_eq_left x.key k j hit, absent x.key j new))
  | inr miss ↦ rw miss (ground (arith, value-drop_entry es k j d, text_eq_same x.key k j))
]
  where
    absent :
        (a b : Text) → is_some (find_entry es a) ≡ false → text_eq a b ≡ true → value_in es b ≡ none
    absent a b h e = rw (eq_of_text_eq a b e) at (value_none es a h)

-- What the drop leaves has no key twice.
find_drop_is_some :
    (es : List Entry) (k j : Text)
    → is_some (find_entry es j) ≡ false
    → is_some (find_entry (drop_entry es k) j) ≡ false
unfolding find_entry drop_entry
find_drop_is_some [] k j h = refl
find_drop_is_some (x ∷ es) k j h = ground (arith, find_drop_is_some es k j)

pub DistinctKeys-drop :
    (es : List Entry) (k : Text) → DistinctKeys es → DistinctKeys (drop_entry es k)
unfolding drop_entry
DistinctKeys-drop [] k d = d
DistinctKeys-drop (x ∷ es) k (new, d) = elim (Bool-cases (text_eq x.key k)) [
  | inl hit ↦ rw hit d
  | inr miss ↦ rw miss (find_drop_is_some es k x.key new, DistinctKeys-drop es k d)
]

find_set_is_some :
    (es : List Entry) (k v j : Text)
    → text_eq k j ≡ false
    → is_some (find_entry es j) ≡ false
    → is_some (find_entry (set_entry es k v) j) ≡ false
unfolding find_entry set_entry
find_set_is_some [] k v j ne h = ground arith
find_set_is_some (x ∷ es) k v j ne h = ground (arith, find_set_is_some es k v j)

text_eq_sym : (a b : Text) → text_eq a b ≡ false → text_eq b a ≡ false
text_eq_sym a b h = elim (Bool-cases (text_eq b a)) [
  | inl e ↦ ground (arith, eq_of_text_eq b a e, text_eq_self a)
  | inr e ↦ e
]

pub DistinctKeys-set :
    (es : List Entry) (k v : Text) → DistinctKeys es → DistinctKeys (set_entry es k v)
unfolding set_entry find_entry
DistinctKeys-set [] k v d = (refl, tt)
DistinctKeys-set (x ∷ es) k v (new, d) = elim (Bool-cases (text_eq x.key k)) [
  | inl hit ↦ rw hit (new, d)
  | inr miss ↦
      rw miss
        (find_set_is_some es k v x.key (text_eq_sym x.key k miss) new, DistinctKeys-set es k v d)
]

-- The section of a name after one is modified.
pub find-modify_same :
    (f : List Entry → List Entry) (secs : List Section) (s t : Text) (sec : Section)
    → text_eq s t ≡ true
    → find_section secs t ≡ some sec
    → find_section (modify_section f secs s) t ≡ some (record sec { entries = f sec.entries })
unfolding find_section modify_section
find-modify_same f [] s t sec same h = cc
find-modify_same f (x ∷ secs) s t sec same h =
    let step = text_eq_same x.name s t same in
    elim (Bool-cases (text_eq x.name t)) [
      | inl hit ↦ ground arith
      | inr miss ↦ ground (arith, find-modify_same f secs s t sec same)
    ]

pub find-modify_other :
    (f : List Entry → List Entry) (secs : List Section) (s t : Text)
    → text_eq s t ≡ false
    → find_section (modify_section f secs s) t ≡ find_section secs t
unfolding find_section modify_section
find-modify_other f [] s t other = refl
find-modify_other f (x ∷ secs) s t other = elim (Bool-cases (text_eq x.name s)) [
  | inl hit ↦ rw hit (ground (arith, text_eq_left x.name s t hit))
  | inr miss ↦ rw miss (ground (arith, find-modify_other f secs s t other))
]

pub find-append :
    (secs : List Section) (sec : Section) (t : Text)
    → find_section (secs ++ (sec ∷ [])) t ≡ (elim (find_section secs t) [
      | some found ↦ some found
      | none ↦ if text_eq sec.name t then some sec else none
    ])
unfolding find_section
find-append [] sec t = refl
find-append (x ∷ secs) sec t = ground (arith, find-append secs sec t)

pub find_section_eq :
    (secs : List Section) (s t : Text)
    → text_eq s t ≡ true
    → find_section secs s ≡ find_section secs t
find_section_eq secs s t e = ap (find_section secs) (eq_of_text_eq s t e)
