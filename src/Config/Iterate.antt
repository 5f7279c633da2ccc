-- ===== src/Config/Iterate.antt =====
-- The iteration over the sections in src/config.c; `config_section_x` is `x`.
use osi.Prelude.{ℕ, zero, suc, ◌≡◌, refl, ap, Option, none, some, List, [], ◌∷◌, length, map}
use osi.Config.{Text, Section, Config}

-- `config_section_node_t`: the sections from a node on, none of them for NULL. A failed assertion is
-- `none`.
abbrev pub SectionNode : Type 0
SectionNode = List Section

pub begin : Config → SectionNode
begin c = c.sections

pub end : Config → SectionNode
end c = []

pub next : SectionNode → Option SectionNode
next [] = none
next (_ ∷ rest) = some rest

pub name : SectionNode → Option Text
name [] = none
name (sec ∷ _) = some sec.name

abbrev with_name : Option Text → Option (List Text) → Option (List Text)
with_name (some n) (some ns) = some (n ∷ ns)
with_name _ _ = none

-- A caller that goes from a node to the end, which it is to reach in so many rounds.
visit : ℕ → SectionNode → Option (List Text)
visit zero [] = some []
visit zero (_ ∷ _) = none
visit (suc n) node = elim (next node) [
  | none ↦ none
  | some node' ↦ with_name (name node) (visit n node')
]

visit-names : (secs : List Section) → visit (length secs) secs ≡ some (map (λ sec. sec.name) secs)
unfolding visit next name
visit-names [] = refl
visit-names (sec ∷ secs) = ap (with_name (some sec.name)) (visit-names secs)

-- A caller that goes from `config_section_begin` on reaches `config_section_end` in as many rounds as
-- there are sections, and is given their names in order; no assertion fails.
iterates :
    (c : Config) → visit (length (begin c)) (begin c) ≡ some (map (λ sec. sec.name) c.sections)
unfolding begin
iterates c = visit-names c.sections
