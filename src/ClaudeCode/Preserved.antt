-- ===== src/ClaudeCode/Preserved.antt =====
-- src/activations/claudecode/storage.rs: no method on sessions makes two ids or two names the same.
use Prim.Native.String.{String, ◌++◌ as str_append}
use mathlib.Core.Bool.{false≢true}
use mneme_substrate.Base.{
  ℕ, Bool, true, false, not, some, unwrap_or, List, [], ◌∷◌, any, filter, if◌then◌else◌, ◌==◌, ◌||◌,
  ◌≡◌, refl, sym, ap, ◌∙◌, Result, ok, err,
}
use mneme_substrate.Base.Exec.Keeps.{Keeps, Keeps-bind}
use mneme_substrate.Base.Text.{same_text}
use mneme_substrate.Arbor.Types.{TreeId, NodeId}
use mneme_substrate.Arbor.Trees.{tree_create_with_id}
use mneme_substrate.ClaudeCode.Types.{
  ClaudeCodeId, Position, Model, ClaudeCodeConfig, ClaudeCodeError, failed_statement,
}
use mneme_substrate.ClaudeCode.SessionTable.{
  SessionRow, SessionStore, NewSession, from_str, has_id, has_name, new_row, insert_row, inserted,
  or_insert, insert_session,
}
use mneme_substrate.ClaudeCode.Sessions.{
  change, is_taken, in_arbor, tree_of, session_create, session_get, session_update_head,
  session_update_loopback_id, session_update_claude_id, session_update, session_delete, with_head,
  with_loopback, with_claude, with_changes, updated, Changes, Call, create, update_head,
  update_loopback_id, update_claude_id, update, delete, handle, serve,
}
use mneme_substrate.ClaudeCode.Named.{IsNamed, as_str-from_str, change_row-IsNamed}
use mneme_substrate.ClaudeCode.Renamed.{renamed-IsNamed}

abbrev pub HasNames : SessionStore → Type 0
HasNames s = IsNamed s.claudecode_sessions

absent_both : (a b : Bool) → (a || b) ≡ false → (a ≡ false) × (b ≡ false)
absent_both true b h = absurd (false≢true (sym h))
absent_both false b h = (refl, h)

insert_row-HasNames :
    (r : SessionRow) (s : SessionStore) (m : Model)
    → from_str r.model ≡ some m
    → HasNames s
    → HasNames (insert_row r s).1
unfolding insert_row
insert_row-HasNames r s m typed h =
    go (has_id r.id s.claudecode_sessions || has_name r.name s.claudecode_sessions) refl
  where
    go :
        (b : Bool)
        → (has_id r.id s.claudecode_sessions || has_name r.name s.claudecode_sessions) ≡ b
        → HasNames
            (if◌then◌else◌ {A = Result ClaudeCodeError (Unit {0}) × SessionStore} b
              (err failed_statement, s)
              (ok tt, record s { claudecode_sessions = r ∷ s.claudecode_sessions })).1
    go true at = h
    go false at = let (ids, names) = absent_both _ _ at in (ids, names, (m, typed), h)

or_insert-HasNames :
    (r r' : SessionRow) (m : Model) (p : Result ClaudeCodeError (Unit {0}) × SessionStore)
    → from_str r'.model ≡ some m
    → HasNames p.1
    → HasNames (or_insert r m p r').1
unfolding insert_row
or_insert-HasNames r r' m (ok _, s) typed h = h
or_insert-HasNames r r' m (err e, s) typed h =
    go (insert_row r' s) (insert_row-HasNames r' s m typed h)
  where
    go :
        (p : Result ClaudeCodeError (Unit {0}) × SessionStore)
        → HasNames p.1
        → HasNames (inserted r' m p).1
    go (ok _, s) h = h
    go (err e, s) h = h

module _ (to_string : ℕ → String) where
  insert_session-HasNames :
      (id : ClaudeCodeId) (name : String) (head : Position) (n : NewSession)
      → Keeps HasNames (insert_session to_string id name head n)
  unfolding insert_session
  insert_session-HasNames id name head n = record {
    at = λ s h.
        let r = new_row id name head n s.now in
        let r' = new_row id (str_append name (str_append "#" (to_string id))) head n s.now in
        let typed = as_str-from_str n.model in
        or_insert-HasNames r r' n.model (insert_row r s) typed
          (insert_row-HasNames r s n.model typed h);
  }

  session_create-HasNames :
      (id : ClaudeCodeId) (tree : TreeId) (root : NodeId) (name : String) (n : NewSession)
      → Keeps HasNames (session_create to_string id tree root name n)
  unfolding session_create
  session_create-HasNames id tree root name n =
      Keeps-bind (in_arbor (tree_create_with_id tree root n.metadata (to_string id))) _
        (record { at = λ s h. h })
        (λ tree_id.
          Keeps-bind (tree_of tree_id) _ (record { at = λ s h. h })
            (λ t. insert_session-HasNames id name _ n))

  session_update-HasNames :
      (id : ClaudeCodeId) (c : Changes) (s : SessionStore)
      → HasNames s
      → HasNames (session_update id c s).1
  unfolding session_update
  session_update-HasNames id c s h = go (session_get id s)
    where
      go : (r : Result ClaudeCodeError ClaudeCodeConfig) → HasNames (updated id c s r).1
      go (err e) = h
      go (ok current) = at (is_taken id (unwrap_or current.name c.name) s.claudecode_sessions) refl
        where
          at :
              (b : Bool)
              → is_taken id (unwrap_or current.name c.name) s.claudecode_sessions ≡ b
              → HasNames
                  (if◌then◌else◌ {A = Result ClaudeCodeError (Unit {0}) × SessionStore} b
                    (err failed_statement, s)
                    (ok tt, change id (with_changes c current s.now) s)).1
          at true free = h
          at false free =
              renamed-IsNamed id (unwrap_or current.name c.name) (with_changes c current s.now)
                (λ r. refl) (λ r. refl)
                (λ r. (_, as_str-from_str (unwrap_or current.model c.model))) s.claudecode_sessions
                free h

any-filter :
    (p q : SessionRow → Bool) (rows : List SessionRow)
    → any p rows ≡ false
    → any p (filter q rows) ≡ false
any-filter p q [] h = refl
any-filter p q (r ∷ rows) h =
    let (here, there) = absent_both (p r) (any p rows) h in
    go (q r) here (any-filter p q rows there)
  where
    go :
        (a : Bool)
        → p r ≡ false
        → any p (filter q rows) ≡ false
        → any p (if a then r ∷ filter q rows else filter q rows) ≡ false
    go true at ih = ap (λ b. b || any p (filter q rows)) at ∙ ih
    go false at ih = ih

delete-IsNamed :
    (id : ClaudeCodeId) (rows : List SessionRow)
    → IsNamed rows
    → IsNamed (filter (λ (r : SessionRow). not (r.id == id)) rows)
delete-IsNamed id [] h = tt
delete-IsNamed id (r ∷ rows) (ids, names, typed, rest) =
    go (r.id == id) (delete-IsNamed id rows rest)
  where
    left : List SessionRow
    left = filter (λ (r : SessionRow). not (r.id == id)) rows

    go : (b : Bool) → IsNamed left → IsNamed (if not b then r ∷ left else left)
    go true ih = ih
    go false ih = (
      any-filter (λ (z : SessionRow). z.id == r.id) _ rows ids,
      any-filter (λ (z : SessionRow). same_text z.name r.name) _ rows names,
      typed,
      ih,
    )

module _ (to_string : ℕ → String) where
  handle-HasNames : (c : Call) (s : SessionStore) → HasNames s → HasNames (handle to_string c s)
  unfolding handle session_update_head session_update_loopback_id session_update_claude_id
      session_delete
  handle-HasNames (create id tree root name n) s h =
      (session_create-HasNames to_string id tree root name n).at s h
  handle-HasNames (update_head id node claude) s h =
      change_row-IsNamed id (with_head node claude s.now) (λ r. (refl, refl, refl))
        s.claudecode_sessions h
  handle-HasNames (update_loopback_id id loopback) s h =
      change_row-IsNamed id (with_loopback loopback s.now) (λ r. (refl, refl, refl))
        s.claudecode_sessions h
  handle-HasNames (update_claude_id id claude) s h =
      change_row-IsNamed id (with_claude claude s.now) (λ r. (refl, refl, refl))
        s.claudecode_sessions h
  handle-HasNames (update id c) s h = session_update-HasNames to_string id c s h
  handle-HasNames (delete id) s h = delete-IsNamed id s.claudecode_sessions h

  pub serve-HasNames :
      (calls : List (ℕ × Call)) (s : SessionStore) → HasNames s → HasNames (serve to_string calls s)
  unfolding serve
  serve-HasNames [] s h = h
  serve-HasNames ((now, c) ∷ calls) s h =
      serve-HasNames calls (handle to_string c (record s { now = now }))
        (handle-HasNames c (record s { now = now }) h)
