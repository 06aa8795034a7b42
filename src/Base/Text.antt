-- ===== src/Base/Text.antt =====
-- What the code uses of Rust's `str`: trimming, prefixes, lines, splitting and joining. A text is
-- walked by its characters.
use Prim.Native.Char.{Char, code}
use Prim.Native.String.{String, ◌++◌}
use text.Mathlib.Text.{◌==◌ as str_eq}
use mathlib.Core.Bool.{Bool, true, false, ◌&&◌, ◌||◌}
use mathlib.Core.Option.{Option, none, some}
use mathlib.Core.List.{List, [], ◌∷◌}
use mneme_substrate.Base.Tests.{leb, ◌==◌, if◌then◌else◌}

abbrev pub same_char : Char → Char → Bool
same_char c d = code c == code d

-- `char::is_whitespace`: Unicode's White_Space.
abbrev pub is_whitespace : Char → Bool
is_whitespace c =
    let n = code c in
    (leb 9 n && leb n 13)
    || (n == 32)
    || (n == 133)
    || (n == 160)
    || (n == 5760)
    || (leb 8192 n && leb n 8202)
    || (n == 8232)
    || (n == 8233)
    || (n == 8239)
    || (n == 8287)
    || (n == 12288)

abbrev pub is_empty_text : String → Bool
is_empty_text String.[] = true
is_empty_text (String.◌∷◌ _ _) = false

abbrev pub trim_start_by : (Char → Bool) → String → String
trim_start_by p String.[] = String.[]
trim_start_by p (String.◌∷◌ c s) =
    let rest = trim_start_by p s in if p c then rest else String.◌∷◌ c s

-- A character is dropped when nothing is left behind it.
abbrev pub trim_end_by : (Char → Bool) → String → String
trim_end_by p String.[] = String.[]
trim_end_by p (String.◌∷◌ c s) =
    let rest = trim_end_by p s in if p c && is_empty_text rest then String.[] else String.◌∷◌ c rest

unfoldable pub trim : String → String
trim s = trim_end_by is_whitespace (trim_start_by is_whitespace s)

abbrev pub strip_prefix : String → String → Option String
strip_prefix String.[] s = some s
strip_prefix (String.◌∷◌ _ _) String.[] = none
strip_prefix (String.◌∷◌ c p) (String.◌∷◌ d s) =
    let rest = strip_prefix p s in if same_char c d then rest else none

abbrev pub starts_with : String → String → Bool
starts_with p s = elim (strip_prefix p s) [ none ↦ false | some _ ↦ true ]

abbrev pub keep_char : Char → Option (String × String) → Option (String × String)
keep_char c none = none
keep_char c (some (before, after)) = some (String.◌∷◌ c before, after)

-- `s.find(c)`: the text before the first `c` and the text after it.
abbrev pub split_once : Char → String → Option (String × String)
split_once c String.[] = none
split_once c (String.◌∷◌ d s) =
    let rest = split_once c s in if same_char c d then some (String.[], s) else keep_char d rest

abbrev pub contains : Char → String → Bool
contains c String.[] = false
contains c (String.◌∷◌ d s) = same_char c d || contains c s

abbrev pub push_front : Char → List String → List String
push_front c [] = String.◌∷◌ c String.[] ∷ []
push_front c (part ∷ parts) = String.◌∷◌ c part ∷ parts

-- `s.split(c)`: at least one part.
abbrev pub split : Char → String → List String
split c String.[] = String.[] ∷ []
split c (String.◌∷◌ d s) =
    let rest = split c s in if same_char c d then String.[] ∷ rest else push_front d rest

-- A line that a line feed ends also loses the carriage return before it.
abbrev pub drop_return : String → String
drop_return String.[] = String.[]
drop_return (String.◌∷◌ c String.[]) =
    if same_char c "\r" then String.[] else String.◌∷◌ c String.[]
drop_return (String.◌∷◌ c (String.◌∷◌ d s)) = String.◌∷◌ c (drop_return (String.◌∷◌ d s))

-- The parts between line feeds; what follows the last one is a line if it is not empty.
abbrev pub as_lines : List String → List String
as_lines [] = []
as_lines (last ∷ []) = if is_empty_text last then [] else last ∷ []
as_lines (line ∷ next ∷ rest) = drop_return line ∷ as_lines (next ∷ rest)

unfoldable pub lines : String → List String
lines s = as_lines (split "\n" s)

unfoldable pub join : String → List String → String
join sep [] = String.[]
join sep (s ∷ []) = s
join sep (s ∷ t ∷ ts) = s ++ (sep ++ join sep (t ∷ ts))

-- The tests on whole texts.
abbrev pub same_text : String → String → Bool
same_text a b = str_eq a b

-- A map from texts, with the newest entry first.
abbrev pub get {ℓ} : {A : Type ℓ} → String → List (String × A) → Option A
get k [] = none
get k ((j, a) ∷ m) = let rest = get k m in if str_eq j k then some a else rest
