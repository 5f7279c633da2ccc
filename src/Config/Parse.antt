-- ===== src/Config/Parse.antt =====
-- `config_new` and `config_parse` of src/config.c: the lines of a file into a configuration.
use osi.Prelude.{
  ℕ, zero, suc, ◌-◌, ◌≤◌, ◌≡◌, refl, Bool, Option, none, some, [], ◌∷◌, ◌&&◌, ◌||◌, leb, ◌==◌,
  if◌then◌else◌, bytes, length, arith,
}
use osi.Config.{Text, Config, new_empty, set_string}

-- `isspace` in the C locale: space, and the bytes from tab to carriage return.
abbrev pub isspace : ℕ → Bool
isspace c = c == 32 || (leb 9 c && leb c 13)

unfoldable pub trim_start : Text → Text
trim_start [] = []
trim_start (c ∷ cs) = if isspace c then trim_start cs else c ∷ cs

abbrev pub kept : ℕ → Text → Text
kept c [] = if isspace c then [] else c ∷ []
kept c (d ∷ ds) = c ∷ d ∷ ds

unfoldable pub trim_end : Text → Text
trim_end [] = []
trim_end (c ∷ cs) = kept c (trim_end cs)

-- `trim`: what it returns, up to the NUL that it writes.
unfoldable pub trim : Text → Text
unfolding trim_start trim_end
trim str = trim_end (trim_start str)

-- `fgets` with room for `room` bytes and the NUL: the bytes read, which end behind a newline, and
-- those left in the file.
unfoldable pub fgets : (room : ℕ) → Text → Text × Text
fgets zero file = ([], file)
fgets (suc room) [] = ([], [])
fgets (suc room) (c ∷ file) =
    let (line, rest) = fgets room file in if c == 10 then (c ∷ [], file) else (c ∷ line, rest)

-- A line as a C string: the bytes before the first NUL.
unfoldable pub c_string : Text → Text
c_string [] = []
c_string (c ∷ cs) = if c == 0 then [] else c ∷ c_string cs

-- A section name behind its `[`, or `none` when the line does not end in `]`.
unfoldable pub section_name : Text → Option Text
section_name [] = none
section_name (c ∷ cs) = elim cs [
  | [] ↦ if c == 93 then some [] else none
  | _ ∷ _ ↦ elim (section_name cs) [ none ↦ none | some name ↦ some (c ∷ name) ]
]

-- `strchr(line_ptr, '=')`: the bytes before and behind the first `=`.
unfoldable pub split_at : Text → Option (Text × Text)
split_at [] = none
split_at (c ∷ cs) =
    if c == 61
    then some ([], cs)
    else elim (split_at cs) [ none ↦ none | some (key, value) ↦ some (c ∷ key, value) ]

-- What the loop keeps: the current section and the configuration.
pub record Parser : Type 0 where
  pub section : Text
  pub config : Config

abbrev pub parse_section : Parser → Option Text → Parser
parse_section p none = p
parse_section p (some name) = record p { section = name }

abbrev pub parse_entry : Parser → Option (Text × Text) → Parser
parse_entry p none = p
parse_entry p (some (key, value)) = record p {
  config = set_string p.config p.section (trim key) (trim value);
}

-- The body of the loop on a trimmed line.
unfoldable pub parse_trimmed : Parser → Text → Parser
parse_trimmed p [] = p
parse_trimmed p (c ∷ cs) =
    if c == 35
    then p
    else if c == 91
    then parse_section p (section_name cs)
    else parse_entry p (split_at (c ∷ cs))

unfoldable pub parse_line : Parser → Text → Parser
parse_line p line = parse_trimmed p (trim (c_string line))

abbrev pub line_size : ℕ
line_size = 1024

-- The loop of `config_parse`. Each `fgets` reads at least a byte, so the length of the file is fuel
-- enough.
unfoldable pub parse_loop : ℕ → Parser → Text → Parser
parse_loop zero p file = p
parse_loop (suc fuel) p [] = p
parse_loop (suc fuel) p (c ∷ cs) =
    let (line, rest) = fgets (line_size - 1) (c ∷ cs) in parse_loop fuel (parse_line p line) rest

unfoldable pub config_parse : Text → Config → Config
config_parse file config =
    (parse_loop (length file) (record { section = bytes "Global"; config = config }) file).config

-- `config_new`: `none` when the file does not open.
unfoldable pub config_new : Option Text → Option Config
config_new none = none
config_new (some file) = some (config_parse file new_empty)

fgets-rest_le : (room : ℕ) (file : Text) → length ((fgets room file).1) ≤ length file
unfolding fgets
fgets-rest_le zero file = omega arith
fgets-rest_le (suc room) [] = omega arith
fgets-rest_le (suc room) (c ∷ file) = ground (arith, fgets-rest_le room file)

fgets-rest_lt :
    (room : ℕ) (c : ℕ) (file : Text) → length ((fgets (suc room) (c ∷ file)).1) ≤ length file
unfolding fgets
fgets-rest_lt room c file = ground (arith, fgets-rest_le room file)

-- The fuel of the loop is enough: any two amounts that are at least the length of the file give
-- the same configuration, so the loop has read the file to its end.
pub parse_loop-enough :
    (m n : ℕ) (p : Parser) (file : Text)
    → length file ≤ m
    → length file ≤ n
    → parse_loop m p file ≡ parse_loop n p file
unfolding parse_loop
parse_loop-enough zero zero p file h k = refl
parse_loop-enough zero (suc n) p [] h k = refl
parse_loop-enough zero (suc n) p (c ∷ cs) h k = absurd (omega arith)
parse_loop-enough (suc m) zero p [] h k = refl
parse_loop-enough (suc m) zero p (c ∷ cs) h k = absurd (omega arith)
parse_loop-enough (suc m) (suc n) p [] h k = refl
parse_loop-enough (suc m) (suc n) p (c ∷ cs) h k =
    parse_loop-enough m n (parse_line p (fgets (line_size - 1) (c ∷ cs)).0)
      ((fgets (line_size - 1) (c ∷ cs)).1) (omega (arith, fgets-rest_lt 1022 c cs))
      (omega (arith, fgets-rest_lt 1022 c cs))
