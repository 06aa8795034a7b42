-- ===== src/Tickets/Sections.antt =====
-- src/activations/orcha/ticket_compiler.rs, "Section parsing": the headings that start a ticket and
-- the lines below each of them.
use mneme_substrate.Base.{String, ◌||◌, Option, none, some, List, [], ◌∷◌, ◌++◌, if◌then◌else◌}
use mneme_substrate.Base.Text.{
  trim, strip_prefix, starts_with, split_once, split, contains, is_empty_text, lines,
}

pub record RawSection : Type 0 where
  pub id : String
  pub type_tag : String
  pub body_lines : List String

-- `before_bracket.split(':').next()`
abbrev first_part : List String → String
first_part [] = ""
first_part (part ∷ _) = part

abbrev with_id : String → String → Option (String × String)
with_id type_tag id = if is_empty_text id || contains " " id then none else some (id, type_tag)

abbrev with_tag : String → Option (String × String) → Option (String × String)
with_tag before none = none
with_tag before (some (tag, _)) =
    let type_tag = trim tag in
    if is_empty_text type_tag
    then none
    else with_id type_tag (trim (first_part (split ":" (trim before))))

abbrev bracketed : Option (String × String) → Option (String × String)
bracketed none = none
bracketed (some (before, after_open)) = with_tag before (split_once "]" after_open)

abbrev heading_rest : Option String → Option (String × String)
heading_rest none = none
heading_rest (some rest) =
    if starts_with "#" rest then none else bracketed (split_once "[" (trim rest))

-- `# ID: Title [type]`
unfoldable pub try_parse_ticket_heading : String → Option (String × String)
unfolding trim
try_parse_ticket_heading line = heading_rest (strip_prefix "# " line)

-- The sections that are closed, and the one that is open.
pub record Splitting : Type 0 where
  pub sections : List RawSection
  pub current : Option RawSection

abbrev pub close_current : Splitting → List RawSection
close_current s = elim s.current [ none ↦ s.sections | some r ↦ s.sections ++ r ∷ [] ]

abbrev pub push_line : String → RawSection → RawSection
push_line line r = record r { body_lines = r.body_lines ++ line ∷ [] }

-- A line before the first heading is preamble, and is skipped.
abbrev pub split_line : String → Option (String × String) → Splitting → Splitting
split_line line (some (id, tag)) s = record {
  sections = close_current s;
  current = some (record { id = id; type_tag = tag; body_lines = [] });
}
split_line line none s = record s {
  current = elim s.current [ none ↦ none | some r ↦ some (push_line line r) ];
}

unfoldable pub split_lines : Splitting → List String → List RawSection
split_lines s [] = close_current s
split_lines s (line ∷ rest) = split_lines (split_line line (try_parse_ticket_heading line) s) rest

unfoldable pub parse_sections : String → List RawSection
parse_sections input = split_lines (record { sections = []; current = none }) (lines input)
