-- ===== src/Tickets/Document.antt =====
-- `parse_sections` read backwards: the document that a list of sections is written as.
use mathlib.Core.List.{append_assoc, append-nil}
use mneme_substrate.Base.{
  String, none, some, List, [], ◌∷◌, ◌++◌, map, All, ◌≡◌, refl, sym, ap, ◌∙◌,
}
use mneme_substrate.Base.Members.{flat_map}
use mneme_substrate.Tickets.Sections.{
  RawSection, Splitting, try_parse_ticket_heading, split_line, split_lines, close_current,
}

-- A line that starts no ticket.
abbrev pub IsText : String → Type 0
IsText line = try_parse_ticket_heading line ≡ none

-- A heading that is read as the section's, above lines that start no ticket.
abbrev pub IsHeaded : String × RawSection → Type 0
IsHeaded (heading, r) =
    (try_parse_ticket_heading heading ≡ some (r.id, r.type_tag)) × All IsText r.body_lines

abbrev pub section_lines : String × RawSection → List String
section_lines (heading, r) = heading ∷ r.body_lines

abbrev pub no_sections : Splitting
no_sections = record { sections = []; current = none }

skip_preamble :
    (pre rest : List String)
    → All IsText pre
    → split_lines no_sections (pre ++ rest) ≡ split_lines no_sections rest
unfolding split_lines
skip_preamble [] rest _ = refl
skip_preamble (line ∷ pre) rest (text, texts) =
    ap (λ o. split_lines (split_line line o no_sections) (pre ++ rest)) text
    ∙ skip_preamble pre rest texts

abbrev open_with : List RawSection → String → String → List String → Splitting
open_with done id tag body = record {
  sections = done;
  current = some (record { id = id; type_tag = tag; body_lines = body });
}

read_body :
    (done : List RawSection) (id tag : String) (before body rest : List String)
    → All IsText body
    → split_lines (open_with done id tag before) (body ++ rest)
      ≡ split_lines (open_with done id tag (before ++ body)) rest
unfolding split_lines
read_body done id tag before [] rest _ =
    ap (λ b. split_lines (open_with done id tag b) rest) (sym (append-nil before))
read_body done id tag before (line ∷ body) rest (text, texts) =
    ap (λ o. split_lines (split_line line o (open_with done id tag before)) (body ++ rest)) text
    ∙ read_body done id tag (before ++ line ∷ []) body rest texts
    ∙ ap (λ b. split_lines (open_with done id tag b) rest) (append_assoc before (line ∷ []) body)

read_sections :
    (s : Splitting) (ws : List (String × RawSection))
    → All IsHeaded ws
    → split_lines s (flat_map section_lines ws) ≡ close_current s ++ map (λ w. w.1) ws
unfolding split_lines
read_sections s [] _ = sym (append-nil (close_current s))
read_sections s ((heading, r) ∷ ws) ((headed, texts), rest) =
    ap (λ o. split_lines (split_line heading o s) (r.body_lines ++ flat_map section_lines ws))
      headed
    ∙ read_body (close_current s) r.id r.type_tag [] r.body_lines (flat_map section_lines ws) texts
    ∙ read_sections (open_with (close_current s) r.id r.type_tag r.body_lines) ws rest
    ∙ append_assoc (close_current s) (r ∷ []) (map (λ w. w.1) ws)

-- The lines of a preamble without headings, and of any sections, each below a heading that is read
-- as its own and with no heading in its body, are split into these sections.
pub split_written :
    (pre : List String) (ws : List (String × RawSection))
    → All IsText pre
    → All IsHeaded ws
    → split_lines no_sections (pre ++ flat_map section_lines ws) ≡ map (λ w. w.1) ws
split_written pre ws texts headed =
    skip_preamble pre (flat_map section_lines ws) texts ∙ read_sections no_sections ws headed
