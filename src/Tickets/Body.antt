-- ===== src/Tickets/Body.antt =====
-- src/activations/orcha/ticket_compiler.rs, `parse_section_body`: the metadata lines of a ticket
-- and its text.
use mneme_substrate.Base.{
  String, not, ◌||◌, Option, none, some, List, [], ◌∷◌, ◌++◌, map, filter, if◌then◌else◌, Result,
  ok,
}
use mneme_substrate.Base.Text.{
  trim, trim_start_by, trim_end_by, strip_prefix, starts_with, split, is_empty_text, join,
  same_char, same_text,
}
use mneme_substrate.Tickets.Sections.{RawSection}

pub record ParsedTicket : Type 0 where
  pub id : String
  pub type_tag : String
  pub deps : List String
  pub task : Option String
  pub command : Option String
  pub validate : Option String

-- What a line says once it is trimmed, in the order of the tests.
pub data Line : Type 0 where
  comment unlocks prose : Line
  blocked_by validate : String → Line

abbrev or_else {ℓ} : {A : Type ℓ} → Option A → Option A → Option A
or_else none o = o
or_else (some a) _ = some a

abbrev line_rest : String → Option String → Option String → Line
line_rest t (some rest) _ = blocked_by rest
line_rest t none (some cmd) = validate cmd
line_rest t none none = if starts_with "unlocks:" t then unlocks else prose

abbrev read_trimmed : String → Line
read_trimmed t =
    if starts_with "<!--" t || starts_with "//" t
    then comment
    else line_rest t (or_else (strip_prefix "blocked_by:" t) (strip_prefix "blocked-by:" t))
        (strip_prefix "validate:" t)

unfoldable pub read_line : String → Line
unfolding trim
read_line line = read_trimmed (trim line)

-- `[dep1, dep2]` or `dep1, dep2`
unfoldable pub dep_list : String → List String
unfolding trim
dep_list rest =
    filter (λ s. not (is_empty_text s))
      (map trim
        (split "," (trim_end_by (same_char "]") (trim_start_by (same_char "[") (trim rest)))))

pub record Body : Type 0 where
  pub deps : List String
  pub validate : Option String
  pub prose_lines : List String

abbrev set_validate : String → Body → Body
set_validate cmd b = if is_empty_text cmd then b else record b { validate = some cmd }

abbrev pub take_line : String → Line → Body → Body
take_line line comment b = b
take_line line unlocks b = b
take_line line (blocked_by rest) b = record b { deps = dep_list rest }
take_line line (validate cmd) b = set_validate (trim cmd) b
take_line line prose b = record b { prose_lines = b.prose_lines ++ line ∷ [] }

unfoldable pub read_lines : Body → List String → Body
read_lines b [] = b
read_lines b (line ∷ rest) = read_lines (take_line line (read_line line) b) rest

-- `prose_lines[start..end]`: the blank lines at both ends are dropped.
abbrev drop_blank_start : List String → List String
drop_blank_start [] = []
drop_blank_start (l ∷ ls) =
    let rest = drop_blank_start ls in if is_empty_text (trim l) then rest else l ∷ ls

abbrev drop_blank_end : List String → List String
drop_blank_end [] = []
drop_blank_end (l ∷ ls) = elim (drop_blank_end ls) [
  | [] ↦ if is_empty_text (trim l) then [] else l ∷ []
  | m ∷ ms ↦ l ∷ m ∷ ms
]

unfoldable pub body_text : List String → String
unfolding trim join
body_text ls = join "\n" (drop_blank_end (drop_blank_start ls))

abbrev pub non_empty : String → Option String
non_empty s = if is_empty_text s then none else some s

abbrev pub no_lines : Body
no_lines = record { deps = []; validate = none; prose_lines = [] }

-- The text is the command of a `[prog]` ticket, and the task of any other.
abbrev pub as_ticket : String → String → Body → ParsedTicket
as_ticket id type_tag b =
    let body = non_empty (body_text b.prose_lines) in
    let is_prog = same_text type_tag "prog" in
    record {
      id = id;
      type_tag = type_tag;
      deps = b.deps;
      task = if is_prog then none else body;
      command = if is_prog then body else none;
      validate = b.validate;
    }

-- It never fails.
unfoldable pub parse_section_body : RawSection → Result String ParsedTicket
unfolding read_lines body_text
parse_section_body r = ok (as_ticket r.id r.type_tag (read_lines no_lines r.body_lines))
