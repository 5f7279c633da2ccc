-- ===== src/Config/File.antt =====
-- The files of src/config.c: `config_save` writes a temporary file and renames it over the target.
-- What the system answers to each call is an argument.
use osi.Prelude.{
  ℕ, ◌+◌, ◌≡◌, refl, Bool, true, false, Option, none, some, List, [], ◌∷◌, ◌++◌, ◌&&◌, ◌||◌,
  if◌then◌else◌, bytes, append_assoc, append-nil, sym, ap, Bool-cases, inl, inr, arith,
}
use osi.Config.{Text, Entry, Section, Config}

-- The answers: `prints i` to the i-th `fprintf` or `fputc`, and `unlinks` to the `unlink` of the label
-- `error`, which ignores it. `left` is what a call that fails has let reach the temporary file.
pub record Io : Type 0 where
  pub opens : Bool
  pub prints : ℕ → Bool
  pub closes : Bool
  pub changes_mode : Bool
  pub renames : Bool
  pub unlinks : Bool
  pub left : Text

-- The contents of the file named and of its temporary file; `none` is no file.
pub record Files : Type 0 where
  pub target : Option Text
  pub temp : Option Text

-- What is printed for an entry and for the head of a section.
abbrev pub entry_text : Entry → Text
entry_text e = e.key ++ (bytes " = " ++ (e.value ++ bytes "\n"))

abbrev pub head_text : Section → Text
head_text sec = bytes "[" ++ (sec.name ++ bytes "]\n")

abbrev pub entry_pieces : List Entry → List Text
entry_pieces [] = []
entry_pieces (e ∷ rest) = entry_text e ∷ entry_pieces rest

-- The writes of the loop in their order; the separating newline is before a further section only.
unfoldable pub pieces : List Section → List Text
pieces [] = []
pieces (sec ∷ rest) =
    (head_text sec ∷ entry_pieces sec.entries)
    ++ elim rest [ [] ↦ [] | _ ∷ _ ↦ bytes "\n" ∷ pieces rest ]

-- The writes, from number `n` on, behind what is written; `none` at the first that fails.
unfoldable pub write_all : (ℕ → Bool) → ℕ → List Text → Text → Option Text
write_all prints n [] written = some written
write_all prints n (p ∷ ps) written =
    let rest = write_all prints (n + 1) ps (written ++ p) in if prints n then rest else none

-- The label `error`, with the temporary file as the calls before left it.
abbrev pub failed : Io → Files → Option Text → Bool × Files
failed io files temp = (false, record files { temp = if io.unlinks then none else temp })

-- `config_save` after the loop.
abbrev pub commit : Io → Text → Files → Bool × Files
commit io written files =
    if io.closes && (io.changes_mode && io.renames)
    then (true, record { target = some written; temp = none })
    else failed io files (some io.left)

unfoldable pub save : Io → Config → Files → Bool × Files
unfolding pieces write_all
save io c files =
    if io.opens
    then elim (write_all io.prints 0 (pieces c.sections) []) [
      | none ↦ failed io files (some io.left)
      | some written ↦ commit io written files
    ]
    else failed io files files.temp

-- The text of a configuration.
unfoldable pub print : List Text → Text
print [] = []
print (p ∷ ps) = p ++ print ps

abbrev pub all_print : (ℕ → Bool) → ℕ → List Text → Bool
all_print prints n [] = true
all_print prints n (_ ∷ ps) = prints n && all_print prints (n + 1) ps

write_all-print :
    (prints : ℕ → Bool) (n : ℕ) (ps : List Text) (written : Text)
    → write_all prints n ps written
      ≡ (if all_print prints n ps then some (written ++ print ps) else none)
unfolding write_all print
write_all-print prints n [] written = ap some (sym (append-nil written))
write_all-print prints n (p ∷ ps) written = elim (Bool-cases (prints n)) [
  | inl e ↦
      rw (e, write_all-print prints (n + 1) ps (written ++ p), append_assoc written p (print ps))
        refl
  | inr e ↦ rw e refl
]

-- `config_save` answers true exactly when every call of the system succeeds. It then leaves the
-- whole printed configuration in the target and no temporary file; otherwise the target is as it
-- was, and a temporary file is there only when `unlink` fails: the one that was opened, or, where
-- it could not be opened, what was there before.
pub save-atomic :
    (io : Io) (c : Config) (files : Files)
    → let (done, files') = save io c files in
      (done ≡ (
        io.opens
        && (all_print io.prints 0 (pieces c.sections)
            && (io.closes && (io.changes_mode && io.renames)))))
      × (files'.target ≡ (if done then some (print (pieces c.sections)) else files.target))
      × (files'.temp
          ≡ (if done || io.unlinks then none else if io.opens then some io.left else files.temp))
unfolding save
save-atomic io c files = ground (arith, write_all-print io.prints 0 (pieces c.sections) [])
