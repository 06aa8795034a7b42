-- ===== src/Orcha/Types.antt =====
-- src/activations/orcha/types.rs: the states of sessions and agents. Numbers of type u32 and u64 are
-- naturals; the bounds that the code relies on are hypotheses.
use mneme_substrate.Base.{ℕ, String, Bool, Option}

abbrev pub SessionId : Type 0
SessionId = ℕ

abbrev pub AgentId : Type 0
AgentId = ℕ

pub data SessionState : Type 0 where
  idle : SessionState
  -- The stream, its sequence number, and the active, completed and failed agents.
  running : String → ℕ → ℕ → ℕ → ℕ → SessionState
  waiting_approval validating : String → SessionState
  complete : SessionState
  failed : String → SessionState

pub data AgentState : Type 0 where
  idle : AgentState
  running : ℕ → AgentState
  waiting_approval validating : String → AgentState
  complete : AgentState
  failed : String → AgentState

pub data AgentMode : Type 0 where
  single multi : AgentMode

pub record SessionInfo : Type 0 where
  pub session_id : SessionId
  pub model : String
  pub created_at : ℕ
  pub last_activity : ℕ
  pub state : SessionState
  pub retry_count : ℕ
  pub max_retries : ℕ
  pub agent_mode : AgentMode
  pub primary_agent_id : Option AgentId
  pub tree_id : Option ℕ

pub record AgentInfo : Type 0 where
  pub agent_id : AgentId
  pub session_id : SessionId
  pub claudecode_session_id : String
  pub subtask : String
  pub state : AgentState
  pub is_primary : Bool
  pub parent_agent_id : Option AgentId
  pub created_at : ℕ
  pub last_activity : ℕ
  pub completed_at : Option ℕ
  pub error_message : Option String
