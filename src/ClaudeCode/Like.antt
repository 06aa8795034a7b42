-- ===== src/ClaudeCode/Like.antt =====
-- src/activations/claudecode/storage.rs: the pattern of `name LIKE ?`, as SQLite reads it.
use Prim.Native.Char.{Char, code}
use Prim.Native.String.{String}
use mneme_substrate.Base.{ℕ, Bool, true, false, if◌then◌else◌, leb, ◌==◌, ◌||◌, ◌&&◌, ◌+◌}
use mneme_substrate.Base.Text.{is_empty_text}

-- `LIKE` does not tell the case of ASCII letters apart.
abbrev pub fold : Char → ℕ
fold c = let n = code c in if leb 65 n && leb n 90 then n + 32 else n

abbrev pub some_rest : (String → Bool) → String → Bool
some_rest p String.[] = p String.[]
some_rest p (String.◌∷◌ c s) = p (String.◌∷◌ c s) || some_rest p s

abbrev pub one_char : (Char → Bool) → (String → Bool) → String → Bool
one_char q p String.[] = false
one_char q p (String.◌∷◌ c s) = q c && p s

-- In the pattern `%` stands for any text and `_` for any character.
unfoldable pub like : String → String → Bool
like String.[] = is_empty_text
like (String.◌∷◌ c pattern) =
    let rest = like pattern in
    if code c == 37
    then some_rest rest
    else if code c == 95
    then one_char (λ _. true) rest
    else one_char (λ d. fold c == fold d) rest
