-- ===== src/Orcha/Typed.antt =====
-- src/activations/orcha/storage.rs: no call writes a state of an agent whose type is not
-- known.
use mneme_substrate.Base.{
  ℕ, Bool, true, false, not, ◌&&◌, List, [], ◌∷◌, ◌++◌, any, filter, map, All, if◌then◌else◌, ◌==◌,
  ◌≡◌, refl, arith, Result, ok, err,
}
use mneme_substrate.Orcha.Types.{SessionId, AgentState, AgentInfo, SessionInfo}
use mneme_substrate.Orcha.States.{serialize_agent_state}
use mneme_substrate.Orcha.Storage.{
  AgentRow, OrchaStorage, OrchaError, Call, create, set_state, retry, delete, spawn, set_agent,
  handle, serve, of_session, change_agent, set_agent_state, set_null, new_agent, agent_with,
  create_session, update_state, increment_retry, delete_session, create_agent, update_agent_state,
  has_agent, has_parent, is_session, failed_statement, new_row, new_info,
}

-- The type of the state is one that `serialize_agent_state` writes.
abbrev pub IsTyped : AgentRow → Type 0
IsTyped a = (st : AgentState) × (a.state_type ≡ (serialize_agent_state st).0)

abbrev pub AllTyped : OrchaStorage → Type 0
AllTyped s = All IsTyped s.orcha_agents

change-AllTyped :
    (id : ℕ) (f : AgentRow → AgentRow) (agents : List AgentRow)
    → ((a : AgentRow) → IsTyped a → IsTyped (f a))
    → All IsTyped agents
    → All IsTyped (change_agent id f agents)
unfolding change_agent
change-AllTyped id f [] step h = tt
change-AllTyped id f (a ∷ agents) step (typed, rest) =
    (go (a.agent_id == id), change-AllTyped id f agents step rest)
  where
    go : (b : Bool) → IsTyped (if b then f a else a)
    go true = step a typed
    go false = typed

set_agent_state-IsTyped :
    (st : AgentState) (now : ℕ) (a : AgentRow) → IsTyped (set_agent_state st now a)
unfolding serialize_agent_state
set_agent_state-IsTyped st now a = (st, ground arith)

pub filter-AllTyped :
    (p : AgentRow → Bool) (agents : List AgentRow)
    → All IsTyped agents
    → All IsTyped (filter p agents)
filter-AllTyped p [] h = tt
filter-AllTyped p (a ∷ agents) (typed, rest) = go (p a) (filter-AllTyped p agents rest)
  where
    go :
        (b : Bool)
        → All IsTyped (filter p agents)
        → All IsTyped (if b then a ∷ filter p agents else filter p agents)
    go true h = (typed, h)
    go false h = h

set_null-IsTyped :
    (id : SessionId) (all_agents : List AgentRow) (a : AgentRow)
    → IsTyped a
    → IsTyped (set_null id all_agents a)
set_null-IsTyped id all_agents a (st, eq) = (st, ground (arith, eq))

map-AllTyped :
    (f : AgentRow → AgentRow) (agents : List AgentRow)
    → ((a : AgentRow) → IsTyped a → IsTyped (f a))
    → All IsTyped agents
    → All IsTyped (map f agents)
map-AllTyped f [] step h = tt
map-AllTyped f (a ∷ agents) step (typed, rest) = (step a typed, map-AllTyped f agents step rest)

append-AllTyped :
    (agents : List AgentRow) (a : AgentRow)
    → All IsTyped agents
    → IsTyped a
    → All IsTyped (agents ++ a ∷ [])
append-AllTyped [] a h typed = (typed, tt)
append-AllTyped (b ∷ agents) a (here, rest) typed = (here, append-AllTyped agents a rest typed)

handle-AllTyped : (c : Call) (s : OrchaStorage) → AllTyped s → AllTyped (handle c s)
unfolding handle create_session update_state increment_retry delete_session create_agent
    update_agent_state serialize_agent_state
handle-AllTyped (create id model dir rules retries mode tree) s h =
    go (any (is_session id) s.orcha_sessions)
  where
    done : Result OrchaError SessionInfo × OrchaStorage
    done = (
      ok (new_info id model retries mode tree s.now),
      record s {
        orcha_sessions = new_row id model dir rules retries mode tree s.now ∷ s.orcha_sessions;
        sessions = new_info id model retries mode tree s.now ∷ s.sessions;
      },
    )

    go :
        (b : Bool)
        → AllTyped
            (if◌then◌else◌ {A = Result OrchaError SessionInfo × OrchaStorage} b
              (err failed_statement, s)
              done).1
    go true = h
    go false = h
handle-AllTyped (set_state id state) s h = h
handle-AllTyped (retry id) s h = h
handle-AllTyped (delete id) s h =
    map-AllTyped (set_null id s.orcha_agents) (filter (λ a. not (of_session id a)) s.orcha_agents)
      (set_null-IsTyped id s.orcha_agents)
      (filter-AllTyped (λ a. not (of_session id a)) s.orcha_agents h)
handle-AllTyped (spawn id session name subtask primary parent) s h = go (
    not (has_agent id s.orcha_agents)
    && any (is_session session) s.orcha_sessions
    && has_parent parent s.orcha_agents)
  where
    agent : AgentRow
    agent = new_agent id session name subtask primary parent s.now

    done : Result OrchaError AgentInfo × OrchaStorage
    done = (
      ok (agent_with agent AgentState.idle),
      record s { orcha_agents = s.orcha_agents ++ agent ∷ [] },
    )

    go :
        (b : Bool)
        → AllTyped
            (if◌then◌else◌ {A = Result OrchaError AgentInfo × OrchaStorage} b done
              (err failed_statement, s)).1
    go true = append-AllTyped s.orcha_agents agent h (AgentState.idle, refl)
    go false = h
handle-AllTyped (set_agent id state) s h =
    change-AllTyped id (set_agent_state state s.now) s.orcha_agents
      (λ a typed. set_agent_state-IsTyped state s.now a) h

pub serve-AllTyped :
    (calls : List (ℕ × Call)) (s : OrchaStorage) → AllTyped s → AllTyped (serve calls s)
unfolding serve
serve-AllTyped [] s h = h
serve-AllTyped ((now, c) ∷ calls) s h =
    serve-AllTyped calls (handle c (record s { now = now }))
      (handle-AllTyped c (record s { now = now }) h)
