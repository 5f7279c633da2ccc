-- ===== src/Config.antt =====
-- src/config.c: an INI configuration of sections and entries, in the order in which they were added.
-- A text is the list of its bytes before the NUL. The lists of src/list.c are lists; `osi_calloc` and
-- `osi_strdup` abort rather than fail. `list_remove` is handed the element that a search found, so it
-- unlinks the first match. `strtol` and `sprintf` are the record `Numbers`.
pub mod Entries
pub mod Access
pub mod Sections
pub mod Iterate
pub mod File
pub mod Parse
pub mod Scan
pub mod Lines
pub mod Rebuild
pub mod RoundTrip
mod Tests
use osi.Prelude.{
  ℕ, ◌≡◌, Bool, true, false, Option, none, some, List, [], ◌∷◌, ◌++◌, ◌==◌, ◌&&◌, if◌then◌else◌,
  is_some, bytes,
}

abbrev pub Text : Type 0
Text = List ℕ

-- `!strcmp(a, b)`
abbrev pub text_eq : Text → Text → Bool
text_eq [] [] = true
text_eq [] (_ ∷ _) = false
text_eq (_ ∷ _) [] = false
text_eq (x ∷ xs) (y ∷ ys) = x == y && text_eq xs ys

pub record Entry : Type 0 where
  pub key : Text
  pub value : Text

pub record Section : Type 0 where
  pub name : Text
  pub entries : List Entry

-- `config_t`
pub record Config : Type 0 where
  pub sections : List Section

abbrev pub new_empty : Config
new_empty = record { sections = [] }

-- `entry_new` and `section_new`
abbrev pub entry_new : Text → Text → Entry
entry_new key value = record { key = key; value = value }

abbrev pub section_new : Text → Section
section_new name = record { name = name; entries = [] }

pub find_section : List Section → Text → Option Section
find_section [] name = none
find_section (sec ∷ rest) name = if text_eq sec.name name then some sec else find_section rest name

pub section_find : Config → Text → Option Section
unfolding find_section
section_find c name = find_section c.sections name

-- The loop of `entry_find` over the entries of a section.
pub find_entry : List Entry → Text → Option Entry
find_entry [] key = none
find_entry (e ∷ rest) key = if text_eq e.key key then some e else find_entry rest key

pub entry_find : Config → Text → Text → Option Entry
unfolding section_find find_entry
entry_find c section key = elim (section_find c section) [
  | none ↦ none
  | some sec ↦ find_entry sec.entries key
]

pub has_section : Config → Text → Bool
unfolding section_find
has_section c section = is_some (section_find c section)

pub has_key : Config → Text → Text → Bool
unfolding entry_find
has_key c section key = is_some (entry_find c section key)

-- A NULL default, and a NULL result, is `none`.
pub get_string : Config → Text → Text → Option Text → Option Text
unfolding entry_find
get_string c section key def_value = elim (entry_find c section key) [
  | none ↦ def_value
  | some e ↦ some e.value
]

pub get_bool : Config → Text → Text → Bool → Bool
unfolding entry_find
get_bool c section key def_value = elim (entry_find c section key) [
  | none ↦ def_value
  | some e ↦
      if text_eq e.value (bytes "true")
      then true
      else if text_eq e.value (bytes "false")
      then false
      else def_value
]

-- The loop of `config_set_string` over the entries, and the entry appended behind it.
pub set_entry : List Entry → Text → Text → List Entry
set_entry [] key value = entry_new key value ∷ []
set_entry (e ∷ rest) key value =
    if text_eq e.key key then record e { value = value } ∷ rest else e ∷ set_entry rest key value

-- What is done to the section that `section_find` found.
pub modify_section : (List Entry → List Entry) → List Section → Text → List Section
modify_section f [] name = []
modify_section f (sec ∷ rest) name =
    if text_eq sec.name name
    then record sec { entries = f sec.entries } ∷ rest
    else sec ∷ modify_section f rest name

pub set_string : Config → Text → Text → Text → Config
unfolding section_find modify_section set_entry
set_string c section key value =
    let sections =
      if is_some (section_find c section)
      then c.sections
      else c.sections ++ (section_new section ∷ []) in
    record { sections = modify_section (λ es. set_entry es key value) sections section }

pub set_bool : Config → Text → Text → Bool → Config
unfolding set_string
set_bool c section key value =
    set_string c section key (if value then bytes "true" else bytes "false")

-- `list_remove` of the section found.
pub drop_section : List Section → Text → List Section
drop_section [] name = []
drop_section (sec ∷ rest) name =
    if text_eq sec.name name then rest else sec ∷ drop_section rest name

pub remove_section : Config → Text → Bool × Config
unfolding section_find drop_section
remove_section c section =
    if is_some (section_find c section)
    then (true, record { sections = drop_section c.sections section })
    else (false, c)

-- `list_remove` of the entry found.
pub drop_entry : List Entry → Text → List Entry
drop_entry [] key = []
drop_entry (e ∷ rest) key = if text_eq e.key key then rest else e ∷ drop_entry rest key

pub remove_key : Config → Text → Text → Bool × Config
unfolding section_find entry_find drop_entry modify_section
remove_key c section key =
    if is_some (section_find c section) && is_some (entry_find c section key)
    then (true, record { sections = modify_section (λ es. drop_entry es key) c.sections section })
    else (false, c)

-- `strtol` with base 0 gives a value and what it left unread; `sprintf` prints with "%d".
pub record Numbers : Type 1 where
  pub Int : Type 0
  pub strtol : Text → Int × Text
  pub sprintf : Int → Text

module _ (numbers : Numbers) where
  open numbers use {Int, strtol, sprintf}

  pub get_int : Config → Text → Text → Int → Int
  unfolding entry_find
  get_int c section key def_value = elim (entry_find c section key) [
    | none ↦ def_value
    | some e ↦ let (ret, rest) = strtol e.value in elim rest [ [] ↦ ret | _ ∷ _ ↦ def_value ]
  ]

  pub set_int : Config → Text → Text → Int → Config
  unfolding set_string
  set_int c section key value = set_string c section key (sprintf value)
