-- ===== src/Orcha/Storage.antt =====
-- src/activations/orcha/storage.rs: the tables of sessions and agents, and the sessions in memory. A
-- map is its entries, the newest first, and an entry that is replaced stands for the key.
use Prim.Native.Nat.{◌%◌}
use mneme_substrate.Base.{
  ℕ, String, Bool, true, false, not, ◌&&◌, ◌||◌, ◌+◌, Option, none, some, List, [], ◌∷◌, ◌++◌, any,
  filter, count, map, sort_by, if◌then◌else◌, ◌==◌, Result, ok, err, and_then,
}
use mneme_substrate.Base.Exec.{Exec}
use mneme_substrate.Base.Json.{Value}
use mneme_substrate.Base.Text.{same_text}
use mneme_substrate.Orcha.Types.{
  SessionId, AgentId, SessionState, AgentState, AgentMode, SessionInfo, AgentInfo,
}
use mneme_substrate.Orcha.States.{
  u32, serialize_state, deserialize_state, serialize_agent_state, deserialize_agent_state,
}

pub record SessionRow : Type 0 where
  pub session_id : SessionId
  pub model : String
  pub working_directory : String
  pub rules : Option String
  pub max_retries : ℕ
  pub retry_count : ℕ
  pub created_at : ℕ
  pub last_activity : ℕ
  pub state_type : String
  pub state_data : Option Value
  pub agent_mode : String
  pub primary_agent_id : Option AgentId
  pub tree_id : Option ℕ

pub record AgentRow : Type 0 where
  pub agent_id : AgentId
  pub session_id : SessionId
  pub claudecode_session_id : String
  pub subtask : String
  pub state_type : String
  pub state_data : Option Value
  pub is_primary : Bool
  pub parent_agent_id : Option AgentId
  pub created_at : ℕ
  pub last_activity : ℕ
  pub completed_at : Option ℕ
  pub error_message : Option String

pub record OrchaStorage : Type 0 where
  pub orcha_sessions : List SessionRow
  pub orcha_agents : List AgentRow
  -- The sessions in memory.
  pub sessions : List SessionInfo
  -- The reading of the clock.
  pub now : ℕ

pub data OrchaError : Type 0 where
  session_not_found : SessionId → OrchaError
  agent_not_found : AgentId → OrchaError
  unknown_state_type : String → OrchaError
  failed_statement : OrchaError

abbrev pub Action : Type 0 → Type 0
Action A = Exec OrchaStorage OrchaError A

abbrev pub is_session : SessionId → SessionRow → Bool
is_session id r = r.session_id == id

-- `sessions.get(id)`
unfoldable pub find_info : SessionId → List SessionInfo → Option SessionInfo
find_info id [] = none
find_info id (i ∷ is) = if i.session_id == id then some i else find_info id is

-- `sessions.get_mut(id)`
unfoldable pub change_info :
    SessionId → (SessionInfo → SessionInfo) → List SessionInfo → List SessionInfo
change_info id f [] = []
change_info id f (i ∷ is) = (if i.session_id == id then f i else i) ∷ change_info id f is

unfoldable pub find_row : SessionId → List SessionRow → Option SessionRow
find_row id [] = none
find_row id (r ∷ rs) = if r.session_id == id then some r else find_row id rs

-- `UPDATE orcha_sessions SET … WHERE session_id = ?`
unfoldable pub change_row :
    SessionId → (SessionRow → SessionRow) → List SessionRow → List SessionRow
change_row id f [] = []
change_row id f (r ∷ rs) = (if r.session_id == id then f r else r) ∷ change_row id f rs

unfoldable pub mode_text : AgentMode → String
mode_text AgentMode.single = "single"
mode_text AgentMode.multi = "multi"

-- What serde reads the text of a column to, between quotes; any other text is the default. The
-- escapes of JSON, which the code does not write, are left out.
unfoldable pub mode_of : String → AgentMode
mode_of s =
    if same_text s "single"
    then AgentMode.single
    else if same_text s "multi"
    then AgentMode.multi
    else AgentMode.single

abbrev pub info_with : SessionRow → SessionState → SessionInfo
info_with r state = record {
  session_id = r.session_id;
  model = r.model;
  created_at = r.created_at;
  last_activity = r.last_activity;
  state = state;
  retry_count = r.retry_count % u32;
  max_retries = r.max_retries % u32;
  agent_mode = mode_of r.agent_mode;
  primary_agent_id = r.primary_agent_id;
  tree_id = r.tree_id;
}

-- A row of `load_sessions`.
unfoldable pub row_to_info : SessionRow → Option SessionInfo
unfolding deserialize_state
row_to_info r = elim (deserialize_state r.state_type r.state_data) [
  | none ↦ none
  | some state ↦ some (info_with r state)
]

abbrev pub load_info :
    String
    → Option SessionInfo
    → Result OrchaError (List SessionInfo)
    → Result OrchaError (List SessionInfo)
load_info kind none rest = err (unknown_state_type kind)
load_info kind (some i) rest = and_then rest λ is. ok (i ∷ is)

-- The first row that cannot be read is the error.
unfoldable pub load_rows : List SessionRow → Result OrchaError (List SessionInfo)
unfolding row_to_info
load_rows [] = ok []
load_rows (r ∷ rs) = load_info r.state_type (row_to_info r) (load_rows rs)

-- What `new` does on tables that are there: the memory is empty, and then loaded.
unfoldable pub load_sessions : OrchaStorage → Result OrchaError OrchaStorage
unfolding load_rows
load_sessions s = and_then (load_rows s.orcha_sessions) λ is. ok (record s { sessions = is })

abbrev pub new_row :
    SessionId → String → String → Option String → ℕ → AgentMode → Option ℕ → ℕ → SessionRow
new_row id model dir rules retries mode tree now = record {
  session_id = id;
  model = model;
  working_directory = dir;
  rules = rules;
  max_retries = retries;
  retry_count = 0;
  created_at = now;
  last_activity = now;
  state_type = "idle";
  state_data = none;
  agent_mode = mode_text mode;
  primary_agent_id = none;
  tree_id = tree;
}

abbrev pub new_info : SessionId → String → ℕ → AgentMode → Option ℕ → ℕ → SessionInfo
new_info id model retries mode tree now = record {
  session_id = id;
  model = model;
  created_at = now;
  last_activity = now;
  state = SessionState.idle;
  retry_count = 0;
  max_retries = retries;
  agent_mode = mode;
  primary_agent_id = none;
  tree_id = tree;
}

-- A session id that is taken meets the primary key.
unfoldable pub create_session :
    SessionId → String → String → Option String → ℕ → AgentMode → Option ℕ → Action SessionInfo
create_session id model dir rules retries mode tree s =
    let info = new_info id model retries mode tree s.now in
    if any (is_session id) s.orcha_sessions then (err failed_statement, s) else (
      ok info,
      record s {
        orcha_sessions = new_row id model dir rules retries mode tree s.now ∷ s.orcha_sessions;
        sessions = info ∷ s.sessions;
      },
    )

abbrev pub found_info : SessionId → Option SessionInfo → Result OrchaError SessionInfo
found_info id none = err (session_not_found id)
found_info id (some i) = ok i

unfoldable pub get_session : SessionId → OrchaStorage → Result OrchaError SessionInfo
unfolding find_info
get_session id s = found_info id (find_info id s.sessions)

abbrev pub set_row_state : SessionState → ℕ → SessionRow → SessionRow
unfolding serialize_state
set_row_state state now r = record r {
  state_type = (serialize_state state).0;
  state_data = (serialize_state state).1;
  last_activity = now;
}

abbrev pub set_info_state : SessionState → ℕ → SessionInfo → SessionInfo
set_info_state state now i = record i { state = state; last_activity = now }

-- An unknown session is no error.
unfoldable pub update_state : SessionId → SessionState → Action (Unit {0})
unfolding change_row change_info serialize_state
update_state id state s = (
  ok tt,
  record s {
    orcha_sessions = change_row id (set_row_state state s.now) s.orcha_sessions;
    sessions = change_info id (set_info_state state s.now) s.sessions;
  },
)

abbrev pub retry_row : SessionRow → SessionRow
retry_row r = record r { retry_count = r.retry_count + 1 }

-- A u32 wraps.
abbrev pub retry_info : SessionInfo → SessionInfo
retry_info i = record i { retry_count = (i.retry_count + 1) % u32 }

abbrev pub retried : SessionId → Option SessionInfo → Result OrchaError ℕ
retried id none = err (session_not_found id)
retried id (some i) = ok ((i.retry_count + 1) % u32)

unfoldable pub increment_retry : SessionId → Action ℕ
unfolding change_row change_info find_info
increment_retry id s = (
  retried id (find_info id s.sessions),
  record s {
    orcha_sessions = change_row id retry_row s.orcha_sessions;
    sessions = change_info id retry_info s.sessions;
  },
)

abbrev pub of_session : SessionId → AgentRow → Bool
of_session id a = a.session_id == id

abbrev pub parent_gone : SessionId → List AgentRow → AgentRow → Bool
parent_gone id agents a = elim a.parent_agent_id [
  | none ↦ false
  | some p ↦ any (λ (b : AgentRow). (b.agent_id == p) && of_session id b) agents
]

abbrev pub set_null : SessionId → List AgentRow → AgentRow → AgentRow
set_null id agents a = if parent_gone id agents a then record a { parent_agent_id = none } else a

-- The agents of the session are deleted with it, and an agent of another session whose parent is
-- one of them has no parent then.
unfoldable pub delete_session : SessionId → Action (Unit {0})
delete_session id s = (
  ok tt,
  record s {
    orcha_sessions = filter (λ r. not (is_session id r)) s.orcha_sessions;
    orcha_agents =
        map (set_null id s.orcha_agents) (filter (λ a. not (of_session id a)) s.orcha_agents);
    sessions = filter (λ (i : SessionInfo). not (i.session_id == id)) s.sessions;
  },
)

unfoldable pub list_sessions : OrchaStorage → List SessionInfo
list_sessions s = s.sessions

abbrev pub has_agent : AgentId → List AgentRow → Bool
has_agent id agents = any (λ (a : AgentRow). a.agent_id == id) agents

abbrev pub has_parent : Option AgentId → List AgentRow → Bool
has_parent none agents = true
has_parent (some p) agents = has_agent p agents

abbrev pub new_agent : AgentId → SessionId → String → String → Bool → Option AgentId → ℕ → AgentRow
new_agent id session cc subtask primary parent now = record {
  agent_id = id;
  session_id = session;
  claudecode_session_id = cc;
  subtask = subtask;
  state_type = "idle";
  state_data = none;
  is_primary = primary;
  parent_agent_id = parent;
  created_at = now;
  last_activity = now;
  completed_at = none;
  error_message = none;
}

abbrev pub agent_with : AgentRow → AgentState → AgentInfo
agent_with a state = record {
  agent_id = a.agent_id;
  session_id = a.session_id;
  claudecode_session_id = a.claudecode_session_id;
  subtask = a.subtask;
  state = state;
  is_primary = a.is_primary;
  parent_agent_id = a.parent_agent_id;
  created_at = a.created_at;
  last_activity = a.last_activity;
  completed_at = a.completed_at;
  error_message = a.error_message;
}

-- `id` is a new UUID; the session and the parent must be there.
unfoldable pub create_agent :
    AgentId → SessionId → String → String → Bool → Option AgentId → Action AgentInfo
create_agent id session cc subtask primary parent s =
    let a = new_agent id session cc subtask primary parent s.now in
    if not (has_agent id s.orcha_agents)
      && any (is_session session) s.orcha_sessions
      && has_parent parent s.orcha_agents
    then (ok (agent_with a AgentState.idle), record s { orcha_agents = s.orcha_agents ++ a ∷ [] })
    else (err failed_statement, s)

unfoldable pub row_to_agent : AgentRow → Result OrchaError AgentInfo
unfolding deserialize_agent_state
row_to_agent a = elim (deserialize_agent_state a.state_type a.state_data) [
  | none ↦ err (unknown_state_type a.state_type)
  | some state ↦ ok (agent_with a state)
]

unfoldable pub find_agent : AgentId → List AgentRow → Option AgentRow
find_agent id [] = none
find_agent id (a ∷ agents) = if a.agent_id == id then some a else find_agent id agents

abbrev pub found_agent : AgentId → Option AgentRow → Result OrchaError AgentInfo
unfolding row_to_agent
found_agent id none = err (agent_not_found id)
found_agent id (some a) = row_to_agent a

unfoldable pub get_agent : AgentId → OrchaStorage → Result OrchaError AgentInfo
unfolding find_agent row_to_agent
get_agent id s = found_agent id (find_agent id s.orcha_agents)

unfoldable pub read_agents : List AgentRow → Result OrchaError (List AgentInfo)
unfolding row_to_agent
read_agents [] = ok []
read_agents (a ∷ agents) =
    and_then (row_to_agent a) λ i. and_then (read_agents agents) λ is. ok (i ∷ is)

unfoldable pub list_agents : SessionId → OrchaStorage → Result OrchaError (List AgentInfo)
unfolding read_agents
list_agents session s =
    read_agents
      (sort_by (λ (a : AgentRow). a.created_at) (filter (of_session session) s.orcha_agents))

abbrev pub error_of : AgentState → Option String
error_of (AgentState.failed error) = some error
error_of _ = none

abbrev pub is_done : AgentState → Bool
is_done AgentState.complete = true
is_done (AgentState.failed _) = true
is_done _ = false

abbrev pub set_agent_state : AgentState → ℕ → AgentRow → AgentRow
unfolding serialize_agent_state
set_agent_state state now a =
    let moved : AgentRow = record a {
      state_type = (serialize_agent_state state).0;
      state_data = (serialize_agent_state state).1;
      last_activity = now;
    } in
    if is_done state
    then record moved { completed_at = some now; error_message = error_of state }
    else moved

unfoldable pub change_agent : AgentId → (AgentRow → AgentRow) → List AgentRow → List AgentRow
change_agent id f [] = []
change_agent id f (a ∷ agents) = (if a.agent_id == id then f a else a) ∷ change_agent id f agents

-- An unknown agent is no error.
unfoldable pub update_agent_state : AgentId → AgentState → Action (Unit {0})
unfolding change_agent serialize_agent_state
update_agent_state id state s = (
  ok tt,
  record s { orcha_agents = change_agent id (set_agent_state state s.now) s.orcha_agents },
)

abbrev pub is_type : String → AgentRow → Bool
is_type kind a = same_text a.state_type kind

abbrev pub is_active_agent : AgentRow → Bool
is_active_agent a =
    is_type "idle" a
    || is_type "running" a
    || is_type "waiting_approval" a
    || is_type "validating" a

-- The active, the completed and the failed agents of a session, each cast to a u32.
unfoldable pub get_agent_counts : SessionId → OrchaStorage → ℕ × ℕ × ℕ
get_agent_counts session s =
    let agents = filter (of_session session) s.orcha_agents in
    (
      count is_active_agent agents % u32,
      count (is_type "complete") agents % u32,
      count (is_type "failed") agents % u32,
    )

pub data Call : Type 0 where
  create : SessionId → String → String → Option String → ℕ → AgentMode → Option ℕ → Call
  set_state : SessionId → SessionState → Call
  retry delete : SessionId → Call
  spawn : AgentId → SessionId → String → String → Bool → Option AgentId → Call
  set_agent : AgentId → AgentState → Call

unfoldable pub handle : Call → OrchaStorage → OrchaStorage
unfolding create_session update_state increment_retry delete_session create_agent update_agent_state
handle (create id model dir rules retries mode tree) s =
    (create_session id model dir rules retries mode tree s).1
handle (set_state id state) s = (update_state id state s).1
handle (retry id) s = (increment_retry id s).1
handle (delete id) s = (delete_session id s).1
handle (spawn id session cc subtask primary parent) s =
    (create_agent id session cc subtask primary parent s).1
handle (set_agent id state) s = (update_agent_state id state s).1

-- Calls, each at its time.
unfoldable pub serve : List (ℕ × Call) → OrchaStorage → OrchaStorage
unfolding handle
serve [] s = s
serve ((now, call) ∷ calls) s = serve calls (handle call (record s { now = now }))
