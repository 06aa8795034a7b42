-- ===== src/Tickets/Metadata.antt =====
-- `parse_section_body`: the metadata lines and the prose lines of a ticket.
use mathlib.Core.Bool.{true≢false, false≢true}
use mneme_substrate.Base.{
  String, Bool, true, false, not, List, [], ◌∷◌, ◌++◌, filter, ◌≡◌, refl, sym, ap, ◌∙◌, some,
  if◌then◌else◌, ok,
}
use mneme_substrate.Base.Text.{trim, is_empty_text}
use mneme_substrate.Tickets.Body.{
  Line, comment, unlocks, prose, blocked_by, validate, Body, read_line, take_line, read_lines,
  parse_section_body, as_ticket, no_lines,
}

abbrev pub is_prose : Line → Bool
is_prose prose = true
is_prose _ = false

abbrev pub prose_lines : List String → List String
prose_lines ls = filter (λ l. is_prose (read_line l)) ls

abbrev pub metadata : List String → List String
metadata ls = filter (λ l. not (is_prose (read_line l))) ls

read_lines-++ :
    (b : Body) (xs ys : List String) → read_lines b (xs ++ ys) ≡ read_lines (read_lines b xs) ys
unfolding read_lines
read_lines-++ b [] ys = refl
read_lines-++ b (x ∷ xs) ys = read_lines-++ (take_line x (read_line x) b) xs ys

-- A line of prose and one of metadata change different fields.
set_validate-swap :
    (p : String) (blank : Bool) (cmd : String) (b : Body)
    → (if blank then take_line p prose b else record (take_line p prose b) { validate = some cmd })
      ≡ take_line p prose (if blank then b else record b { validate = some cmd })
set_validate-swap p true cmd b = refl
set_validate-swap p false cmd b = refl

take_line-swap :
    (p m : String) (what : Line) (b : Body)
    → is_prose what ≡ false
    → take_line m what (take_line p prose b) ≡ take_line p prose (take_line m what b)
take_line-swap p m comment b _ = refl
take_line-swap p m unlocks b _ = refl
take_line-swap p m prose b eq = absurd (true≢false eq)
take_line-swap p m (blocked_by _) b _ = refl
take_line-swap p m (validate cmd) b _ = set_validate-swap p (is_empty_text (trim cmd)) (trim cmd) b

prose-metadata :
    (p : String) (b : Body) (ls : List String)
    → read_lines (take_line p prose b) (metadata ls)
      ≡ take_line p prose (read_lines b (metadata ls))
unfolding read_lines
prose-metadata p b [] = refl
prose-metadata p b (l ∷ ls) = go (is_prose (read_line l)) refl (λ b'. prose-metadata p b' ls)
  where
    go :
        (c : Bool)
        → is_prose (read_line l) ≡ c
        → ((b' : Body)
            → read_lines (take_line p prose b') (metadata ls)
              ≡ take_line p prose (read_lines b' (metadata ls)))
        → read_lines (take_line p prose b) (if not c then l ∷ metadata ls else metadata ls)
          ≡ take_line p prose (read_lines b (if not c then l ∷ metadata ls else metadata ls))
    go true eq rest = rest b
    go false eq rest =
        ap (λ b'. read_lines b' (metadata ls)) (take_line-swap p l (read_line l) b eq)
        ∙ rest (take_line l (read_line l) b)

-- The line `what` is read of, when it is prose.
as_prose :
    (l : String) (what : Line) (b : Body)
    → is_prose what ≡ true
    → take_line l what b ≡ take_line l prose b
as_prose l prose b _ = refl
as_prose l comment b eq = absurd (false≢true eq)
as_prose l unlocks b eq = absurd (false≢true eq)
as_prose l (blocked_by _) b eq = absurd (false≢true eq)
as_prose l (validate _) b eq = absurd (false≢true eq)

metadata_first :
    (b : Body) (ls : List String)
    → read_lines b ls ≡ read_lines (read_lines b (metadata ls)) (prose_lines ls)
unfolding read_lines
metadata_first b [] = refl
metadata_first b (l ∷ ls) =
    metadata_first (take_line l (read_line l) b) ls ∙ go (is_prose (read_line l)) refl
  where
    go :
        (c : Bool)
        → is_prose (read_line l) ≡ c
        → read_lines (read_lines (take_line l (read_line l) b) (metadata ls)) (prose_lines ls)
          ≡ read_lines
              (read_lines b (if not c then l ∷ metadata ls else metadata ls))
              (if c then l ∷ prose_lines ls else prose_lines ls)
    go true eq =
        ap (λ b'. read_lines b' (prose_lines ls))
          (ap (λ b'. read_lines b' (metadata ls)) (as_prose l (read_line l) b eq)
            ∙ prose-metadata l b ls
            ∙ sym (as_prose l (read_line l) (read_lines b (metadata ls)) eq))
    go false eq = refl

-- A section is parsed as the one with its metadata lines first, in their order, and its prose
-- lines, in theirs, behind them.
pub metadata_anywhere :
    (id tag : String) (ls : List String)
    → parse_section_body (record { id = id; type_tag = tag; body_lines = ls })
      ≡ parse_section_body
          (record { id = id; type_tag = tag; body_lines = metadata ls ++ prose_lines ls })
unfolding parse_section_body
metadata_anywhere id tag ls =
    ap (λ b. ok (as_ticket id tag b))
      (metadata_first no_lines ls ∙ sym (read_lines-++ no_lines (metadata ls) (prose_lines ls)))
