-- ===== src/Orcha/Restart.antt =====
-- src/activations/orcha/storage.rs: the sessions in memory are those of the tables.
use Prim.Native.Nat.{◌%◌}
use native.Mathlib.Nat.{mod-eq_of_lt}
use mneme_substrate.Base.{
  ℕ, String, Bool, true, false, not, ◌+◌, ◌<◌, Option, none, some, List, [], ◌∷◌, any, filter,
  if◌then◌else◌, ◌==◌, ◌≡◌, refl, sym, ap, ◌∙◌, arith, Result, ok, err, unwrap_or, and_then, ◌&&◌,
  ◌++◌,
}
use mneme_substrate.Orcha.Types.{
  SessionId, SessionState, SessionInfo, AgentMode, AgentInfo, AgentState,
}
use mneme_substrate.Orcha.States.{
  u32, serialize_state, deserialize_state, IsU32, deserialize_state-serialize_state,
}
use mneme_substrate.Orcha.Storage.{
  SessionRow, OrchaStorage, OrchaError, change_info, change_row, row_to_info, load_rows,
  load_sessions, mode_text, mode_of, info_with, create_session, new_row, new_info, update_state,
  set_row_state, set_info_state, increment_retry, retry_row, retry_info, delete_session, load_info,
  Call, handle, serve, create, set_state, retry, delete, spawn, set_agent, is_session, has_agent,
  has_parent, new_agent, agent_with, AgentRow, failed_statement, create_agent, update_agent_state,
}

-- Each row stands for the entry in memory of the same place.
abbrev pub Mirrors : List SessionRow → List SessionInfo → Type 0
Mirrors [] [] = Unit
Mirrors (r ∷ rs) (i ∷ is) = (row_to_info r ≡ some i) × Mirrors rs is
Mirrors _ _ = ⊥

abbrev pub IsMirrored : OrchaStorage → Type 0
IsMirrored s = Mirrors s.orcha_sessions s.sessions

load_rows-Mirrors :
    (rs : List SessionRow) (is : List SessionInfo) → Mirrors rs is → load_rows rs ≡ ok is
unfolding load_rows
load_rows-Mirrors [] [] h = refl
load_rows-Mirrors [] (i ∷ is) h = absurd h
load_rows-Mirrors (r ∷ rs) [] h = absurd h
load_rows-Mirrors (r ∷ rs) (i ∷ is) (here, there) =
    ap (λ o. load_info r.state_type o (load_rows rs)) here
    ∙ ap (load_info r.state_type (some i)) (load_rows-Mirrors rs is there)

-- What a row that can be read stands for.
row_parts :
    (r : SessionRow) (i : SessionInfo)
    → row_to_info r ≡ some i
    → (st : SessionState) × (deserialize_state r.state_type r.state_data ≡ some st)
      × (info_with r st ≡ i)
unfolding row_to_info
row_parts r i eq = go (deserialize_state r.state_type r.state_data) refl eq
  where
    some_inj : {j k : SessionInfo} → ◌≡◌ {A = Option SessionInfo} (some j) (some k) → j ≡ k
    some_inj {j} e = ap (unwrap_or j) e

    go :
        (o : Option SessionState)
        → deserialize_state r.state_type r.state_data ≡ o
        → elim o as (λ _. Option SessionInfo) [ none ↦ none | some st ↦ some (info_with r st) ]
          ≡ some i
        → (st : SessionState) × (deserialize_state r.state_type r.state_data ≡ some st)
          × (info_with r st ≡ i)
    go none at e = absurd (cc e)
    go (some st) at e = (st, at, some_inj e)

row_reads :
    (r : SessionRow) (st : SessionState)
    → deserialize_state r.state_type r.state_data ≡ some st
    → row_to_info r ≡ some (info_with r st)
unfolding row_to_info
row_reads r st eq =
    ap (λ o. elim o as (λ _. Option SessionInfo) [ none ↦ none | some u ↦ some (info_with r u) ]) eq

same_key :
    (r : SessionRow) (i : SessionInfo) (id : SessionId)
    → row_to_info r ≡ some i
    → (i.session_id == id) ≡ (r.session_id == id)
same_key r i id eq =
    let (st, at, same) = row_parts r i eq in ap (λ (j : SessionInfo). j.session_id == id) (sym same)

-- A change of a row and of the entry that it stands for.
module _ (id : SessionId) (f : SessionRow → SessionRow) (g : SessionInfo → SessionInfo)
    (step : (r : SessionRow) (i : SessionInfo)
      → row_to_info r ≡ some i
      → row_to_info (f r) ≡ some (g i)) where
  change-Mirrors :
      (rs : List SessionRow) (is : List SessionInfo)
      → Mirrors rs is
      → Mirrors (change_row id f rs) (change_info id g is)
  unfolding change_row change_info
  change-Mirrors [] [] h = tt
  change-Mirrors [] (i ∷ is) h = absurd h
  change-Mirrors (r ∷ rs) [] h = absurd h
  change-Mirrors (r ∷ rs) (i ∷ is) (here, there) =
      (rw (same_key r i id here) (go (r.session_id == id)), change-Mirrors rs is there)
    where
      go : (b : Bool) → row_to_info (if b then f r else r) ≡ some (if b then g i else i)
      go true = step r i here
      go false = here

remove-Mirrors :
    (id : SessionId) (rs : List SessionRow) (is : List SessionInfo)
    → Mirrors rs is
    → Mirrors
        (filter (λ (r : SessionRow). not (r.session_id == id)) rs)
        (filter (λ (i : SessionInfo). not (i.session_id == id)) is)
remove-Mirrors id [] [] h = tt
remove-Mirrors id [] (i ∷ is) h = absurd h
remove-Mirrors id (r ∷ rs) [] h = absurd h
remove-Mirrors id (r ∷ rs) (i ∷ is) (here, there) =
    rw (same_key r i id here) (go (r.session_id == id) (remove-Mirrors id rs is there))
  where
    left : List SessionRow
    left = filter (λ (q : SessionRow). not (q.session_id == id)) rs

    kept : List SessionInfo
    kept = filter (λ (j : SessionInfo). not (j.session_id == id)) is

    go :
        (b : Bool)
        → Mirrors left kept
        → Mirrors (if not b then r ∷ left else left) (if not b then i ∷ kept else kept)
    go true m = m
    go false m = (here, m)

state-reads :
    (st : SessionState) (now : ℕ) (r : SessionRow) (i : SessionInfo)
    → IsU32 st
    → row_to_info r ≡ some i
    → row_to_info (set_row_state st now r) ≡ some (set_info_state st now i)
unfolding serialize_state
state-reads st now r i small eq =
    let (old, at, same) = row_parts r i eq in
    row_reads (set_row_state st now r) st (deserialize_state-serialize_state st small)
    ∙ ap (λ j. some (set_info_state st now j)) same

retry-reads :
    (r : SessionRow) (i : SessionInfo)
    → row_to_info r ≡ some i
    → row_to_info (retry_row r) ≡ some (retry_info i)
retry-reads r i eq =
    let (st, at, same) = row_parts r i eq in
    row_reads (retry_row r) st at
    ∙ ap (λ n. some (record (info_with r st) { retry_count = n })) (wraps r.retry_count)
    ∙ ap (λ j. some (retry_info j)) same
  where
    wraps : (n : ℕ) → (n + 1) % u32 ≡ (n % u32 + 1) % u32
    wraps n = omega arith

mode_of-mode_text : (mode : AgentMode) → mode_of (mode_text mode) ≡ mode
unfolding mode_of mode_text
mode_of-mode_text AgentMode.single = refl
mode_of-mode_text AgentMode.multi = refl

new-reads :
    (id : SessionId) (model dir : String) (rules : Option String) (retries : ℕ) (mode : AgentMode)
    (tree : Option ℕ) (now : ℕ)
    → retries < u32
    → row_to_info (new_row id model dir rules retries mode tree now)
      ≡ some (new_info id model retries mode tree now)
unfolding row_to_info deserialize_state
new-reads id model dir rules retries mode tree now small =
    rw (mod-eq_of_lt small, mode_of-mode_text mode) refl

-- The numbers of type u32 that a call brings are less than 2^32.
abbrev pub IsU32Call : Call → Type 0
IsU32Call (create id model dir rules retries mode tree) = retries < u32
IsU32Call (set_state id state) = IsU32 state
IsU32Call _ = Unit

abbrev pub AllU32 : List (ℕ × Call) → Type 0
AllU32 [] = Unit
AllU32 ((_, c) ∷ calls) = IsU32Call c × AllU32 calls

handle-IsMirrored :
    (c : Call) (s : OrchaStorage) → IsU32Call c → IsMirrored s → IsMirrored (handle c s)
unfolding handle create_session update_state increment_retry delete_session create_agent
    update_agent_state
handle-IsMirrored (create id model dir rules retries mode tree) s small h =
    go (any (is_session id) s.orcha_sessions)
  where
    row : SessionRow
    row = new_row id model dir rules retries mode tree s.now

    info : SessionInfo
    info = new_info id model retries mode tree s.now

    go :
        (b : Bool)
        → IsMirrored
            (if◌then◌else◌ {A = Result OrchaError SessionInfo × OrchaStorage} b
              (err failed_statement, s)
              (
                ok info,
                record s { orcha_sessions = row ∷ s.orcha_sessions; sessions = info ∷ s.sessions },
              )).1
    go true = h
    go false = (new-reads id model dir rules retries mode tree s.now small, h)
handle-IsMirrored (set_state id state) s small h =
    change-Mirrors id (set_row_state state s.now) (set_info_state state s.now)
      (λ r i eq. state-reads state s.now r i small eq) s.orcha_sessions s.sessions h
handle-IsMirrored (retry id) s small h =
    change-Mirrors id retry_row retry_info retry-reads s.orcha_sessions s.sessions h
handle-IsMirrored (delete id) s small h = remove-Mirrors id s.orcha_sessions s.sessions h
handle-IsMirrored (spawn id session cc subtask primary parent) s small h = go (
    not (has_agent id s.orcha_agents)
    && any (is_session session) s.orcha_sessions
    && has_parent parent s.orcha_agents)
  where
    agent : AgentRow
    agent = new_agent id session cc subtask primary parent s.now

    go :
        (b : Bool)
        → IsMirrored
            (if◌then◌else◌ {A = Result OrchaError AgentInfo × OrchaStorage} b
              (
                ok (agent_with agent AgentState.idle),
                record s { orcha_agents = s.orcha_agents ++ agent ∷ [] },
              )
              (err failed_statement, s)).1
    go true = h
    go false = h
handle-IsMirrored (set_agent id state) s small h = h

serve-IsMirrored :
    (calls : List (ℕ × Call)) (s : OrchaStorage)
    → AllU32 calls
    → IsMirrored s
    → IsMirrored (serve calls s)
unfolding serve
serve-IsMirrored [] s small h = h
serve-IsMirrored ((now, c) ∷ calls) s (here, there) h =
    let timed : OrchaStorage = record s { now = now } in
    serve-IsMirrored calls (handle c timed) there (handle-IsMirrored c timed here h)

-- After any calls whose u32 numbers are in their range, from a state in which the memory mirrors
-- the table, a restart, which loads the memory from the table, succeeds and gives back the
-- very state: no session and no part of one that is answered from memory is lost or stale.
pub load_sessions-serve :
    (calls : List (ℕ × Call)) (s : OrchaStorage)
    → AllU32 calls
    → IsMirrored s
    → load_sessions (serve calls s) ≡ ok (serve calls s)
unfolding load_sessions
load_sessions-serve calls s small h =
    let s' = serve calls s in
    ap (λ r. and_then r (λ is. ok (record s' { sessions = is })))
      (load_rows-Mirrors s'.orcha_sessions s'.sessions (serve-IsMirrored calls s small h))
