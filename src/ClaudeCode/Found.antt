-- ===== src/ClaudeCode/Found.antt =====
-- src/activations/claudecode/storage.rs: whatever is done to the sessions, each is found by its id and by
-- its name.
use Prim.Native.String.{String, ◌++◌ as str_append}
use mathlib.Core.List.{Memᴰ}
use mathlib.Core.List.Memᴰ
use mneme_substrate.Base.{ℕ, none, some, List, [], ◌∷◌, filter, ◌≡◌, sym, ap, ◌∙◌, subst, ok, err}
use mneme_substrate.ClaudeCode.Types.{Model, session_not_found}
use mneme_substrate.ClaudeCode.Like.{like}
use mneme_substrate.ClaudeCode.SessionTable.{
  SessionRow, SessionStore, from_str, read_with, row_to_config, config_with,
}
use mneme_substrate.ClaudeCode.Sessions.{matched, session_get, session_get_by_name, Call, serve}
use mneme_substrate.ClaudeCode.Named.{IsNamed, find-Mem}
use mneme_substrate.ClaudeCode.Preserved.{HasNames, serve-HasNames}

-- A session that is found by its id, and by its name, as it stands in the table.
abbrev pub IsFound : SessionStore → SessionRow → Type 0
unfolding session_get session_get_by_name
IsFound s r =
    (m : Model) × (from_str r.model ≡ some m)
    × (session_get r.id s ≡ ok (config_with r m))
    × (session_get_by_name r.name s ≡ ok (config_with r m))

model-Mem :
    (r : SessionRow) (rows : List SessionRow)
    → IsNamed rows
    → Memᴰ r rows
    → (m : Model) × (from_str r.model ≡ some m)
model-Mem r [] h m = absurd (Memᴰ.not-nil m)
model-Mem r (y ∷ rows) h (Memᴰ.head eq) =
    subst (λ z. (m : Model) × (from_str z.model ≡ some m)) (sym eq) h.2
model-Mem r (y ∷ rows) h (Memᴰ.tail m) = model-Mem r rows h.3 m

HasNames-IsFound :
    (s : SessionStore) (r : SessionRow) → HasNames s → Memᴰ r s.claudecode_sessions → IsFound s r
unfolding session_get session_get_by_name row_to_config
HasNames-IsFound s r h m =
    let (model, typed) = model-Mem r s.claudecode_sessions h m in
    let (by_id, by_name) = find-Mem r s.claudecode_sessions h m in
    let read = ap (λ o. read_with r.model o (config_with r)) typed in
    (
      model,
      typed,
      ap (λ o. elim o [ none ↦ err (session_not_found r.id) | some r ↦ row_to_config r ]) by_id
          ∙ read,
      ap
            (λ o. elim o [
              | none ↦ matched r.name (
                  filter (λ (z : SessionRow). like (str_append r.name "%") z.name)
                    s.claudecode_sessions)
              | some r ↦ row_to_config r
            ])
            by_name
          ∙ read,
    )

-- After any calls, each at its time, from a state in which the ids of the sessions differ, their
-- names too, and each model is one that is read, every session in the table is the one that is
-- found by its id, and the one that is found by its name, with what the table holds of it.
pub serve-IsFound :
    (to_string : ℕ → String) (calls : List (ℕ × Call)) (s : SessionStore) (r : SessionRow)
    → HasNames s
    → Memᴰ r (serve to_string calls s).claudecode_sessions
    → IsFound (serve to_string calls s) r
serve-IsFound to_string calls s r h m =
    HasNames-IsFound (serve to_string calls s) r (serve-HasNames to_string calls s h) m
