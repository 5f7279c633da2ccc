-- ===== src/Config/Tests.antt =====
-- A configuration of two sections, and what it is saved as and parsed from.
use osi.Prelude.{
  ◌≡◌, refl, true, false, none, some, [], ◌∷◌, ◌&&◌, ◌||◌, if◌then◌else◌, bytes, arith, ltb,
}
use osi.Config.{
  find_section, find_entry, section_find, modify_section, set_entry, Text, text_eq, Config,
  get_string, set_string, remove_key, has_key, has_section, new_empty,
}
use osi.Config.Access.{DistinctSections, get-set_string, get-remove_key}
use osi.Config.File.{Io, Files, save, pieces, print, all_print, save-atomic}
use osi.Config.Parse.{
  config_parse, fgets, parse_line, c_string, trim, trim_start, trim_end, parse_trimmed,
  section_name, split_at, Parser, parse_loop, config_new,
}
use osi.Config.RoundTrip.{IsClean, new-save}

abbrev config : Config
config = record {
  sections =
      record { name = bytes "A"; entries = record { key = bytes "k"; value = bytes "1" } ∷ [] }
      ∷ record { name = bytes "B"; entries = record { key = bytes "j"; value = bytes "2" } ∷ [] }
      ∷ [];
}

config-Distinct : DistinctSections config.sections
unfolding find_section find_entry
config-Distinct = (refl, (refl, tt), (refl, (refl, tt), tt))

abbrev saved : Text
saved = bytes "[A]\nk = 1\n\n[B]\nj = 2\n"

config_saved : print (pieces config.sections) ≡ saved
unfolding print pieces
config_saved = refl

-- Parsing what is saved gives the configuration back.
config_parsed : config_new (some saved) ≡ some config
unfolding config_new config_parse parse_loop fgets parse_line c_string trim parse_trimmed
    section_name split_at trim_start trim_end set_string section_find find_section modify_section
    set_entry
config_parsed = refl

get-set_string_example :
    get_string (set_string config (bytes "B") (bytes "x") (bytes "3")) (bytes "B") (bytes "j") none
    ≡ (if text_eq (bytes "B") (bytes "B") && text_eq (bytes "x") (bytes "j")
        then some (bytes "3")
        else get_string config (bytes "B") (bytes "j") none)
get-set_string_example =
    get-set_string config (bytes "B") (bytes "x") (bytes "3") (bytes "B") (bytes "j") none

get-remove_key_example :
    let (found, c') = remove_key config (bytes "A") (bytes "k") in
    (found ≡ has_key config (bytes "A") (bytes "k"))
    × (get_string c' (bytes "B") (bytes "j") none ≡ (
        if text_eq (bytes "A") (bytes "B") && text_eq (bytes "k") (bytes "j")
        then none
        else get_string config (bytes "B") (bytes "j") none))
    × (has_section c' (bytes "B") ≡ has_section config (bytes "B"))
get-remove_key_example =
    get-remove_key config (bytes "A") (bytes "k") (bytes "B") (bytes "j") none config-Distinct

-- The third write fails, and so does `unlink`.
abbrev full_disk : Io
full_disk = record {
  opens = true;
  prints = λ i. ltb i 2;
  closes = true;
  changes_mode = true;
  renames = true;
  unlinks = false;
  left = bytes "[A]\nk = 1\n";
}

abbrev old_file : Files
old_file = record { target = some (bytes "[A]\n"); temp = none }

save-atomic_example :
    let (done, files') = save full_disk config old_file in
    (done ≡ (all_print (λ i. ltb i 2) 0 (pieces config.sections) && true))
    × (files'.target
        ≡ (if done then some (print (pieces config.sections)) else some (bytes "[A]\n")))
    × (files'.temp ≡ (if done || false then none else some (bytes "[A]\nk = 1\n")))
save-atomic_example = save-atomic full_disk config old_file

abbrev start : Parser
start = record { section = bytes "Global"; config = new_empty }

abbrev all_well : Io
all_well = record {
  opens = true;
  prints = λ _. true;
  closes = true;
  changes_mode = true;
  renames = true;
  unlinks = true;
  left = [];
}

config-IsClean : IsClean config
unfolding trim_start trim_end
config-IsClean = (
  (
    record {
      name_line = ((refl, tt), (refl, tt));
      name_short = omega arith;
      some_entry = λ e. cc;
      entries_clean = (
        record {
          key_line = ((refl, tt), (refl, tt));
          value_line = ((refl, tt), (refl, tt));
          key_trimmed = (refl, refl);
          value_trimmed = (refl, refl);
          key_equals = (refl, tt);
          key_first = refl;
          short = omega arith;
        },
        tt,
      );
      keys_fresh = (tt, tt);
    },
    (
      record {
        name_line = ((refl, tt), (refl, tt));
        name_short = omega arith;
        some_entry = λ e. cc;
        entries_clean = (
          record {
            key_line = ((refl, tt), (refl, tt));
            value_line = ((refl, tt), (refl, tt));
            key_trimmed = (refl, refl);
            value_trimmed = (refl, refl);
            key_equals = (refl, tt);
            key_first = refl;
            short = omega arith;
          },
          tt,
        );
        keys_fresh = (tt, tt);
      },
      tt,
    ),
  ),
  (tt, ((refl, tt), tt)),
)

-- A section without entries is saved with its name, and is not there when the file is read.
empty_section_lost :
    config_new (some (print (pieces (record { name = bytes "A"; entries = [] } ∷ []))))
    ≡ some new_empty
unfolding pieces print config_new config_parse parse_loop fgets parse_line c_string trim
    parse_trimmed section_name split_at trim_start trim_end set_string section_find find_section
    modify_section set_entry
empty_section_lost = refl

saves_well : (save all_well config old_file).0 ≡ true
unfolding save
saves_well = refl

new-save_example : config_new (save all_well config old_file).1.target ≡ some config
new-save_example = new-save all_well config old_file config-IsClean (saves_well)
