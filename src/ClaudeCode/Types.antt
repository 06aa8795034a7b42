-- ===== src/ClaudeCode/Types.antt =====
-- src/activations/claudecode/types.rs: the streams and their events, the events that the nodes of a
-- conversation hold, and the messages. A UUID is a number.
use mneme_substrate.Base.{ℕ, String, Bool, Option, List}
use mneme_substrate.Base.Json.{Value}
use mneme_substrate.Arbor.Types.{TreeId, NodeId, ArborError}

abbrev pub ClaudeCodeId : Type 0
ClaudeCodeId = ℕ

abbrev pub StreamId : Type 0
StreamId = ℕ

pub record Position : Type 0 where
  pub tree_id : TreeId
  pub node_id : NodeId

-- The cost is the text of its number.
pub record ChatUsage : Type 0 where
  pub input_tokens : Option ℕ
  pub output_tokens : Option ℕ
  pub cost_usd : Option String
  pub num_turns : Option ℕ

pub data ChatEvent : Type 0 where
  start : ClaudeCodeId → Position → ChatEvent
  content thinking : String → ChatEvent
  tool_use : String → String → Value → ChatEvent
  tool_result : String → String → Bool → ChatEvent
  complete : Position → String → Option ChatUsage → ChatEvent
  passthrough : String → String → Value → ChatEvent
  failure : String → ChatEvent

pub data StreamStatus : Type 0 where
  running awaiting_permission complete failed : StreamStatus

pub record StreamInfo : Type 0 where
  pub stream_id : StreamId
  pub session_id : ClaudeCodeId
  pub status : StreamStatus
  pub user_position : Option Position
  pub event_count : ℕ
  pub read_position : ℕ
  pub started_at : ℕ
  pub ended_at : Option ℕ
  pub error : Option String

pub record BufferedEvent : Type 0 where
  pub seq : ℕ
  pub event : ChatEvent
  pub timestamp : ℕ

pub record ActiveStreamBuffer : Type 0 where
  pub info : StreamInfo
  pub events : List BufferedEvent

-- `stream_not_found` is a `SessionNotFound` whose identifier is `stream:` and the id. The texts of
-- the messages are left out.
pub data ClaudeCodeError : Type 0 where
  stream_not_found : StreamId → ClaudeCodeError
  serialization : ClaudeCodeError
  arbor : ArborError → ClaudeCodeError
  start_not_in_path : NodeId → ClaudeCodeError
  session_not_found : ClaudeCodeId → ClaudeCodeError
  name_not_found : String → ClaudeCodeError
  ambiguous_session : String → String → ClaudeCodeError
  bad_model : String → ClaudeCodeError
  failed_statement : ClaudeCodeError

pub data NodeEvent : Type 0 where
  user_message : String → NodeEvent
  assistant_start : NodeEvent
  content_text content_thinking : String → NodeEvent
  content_tool_use : String → String → Value → NodeEvent
  user_tool_result : String → String → Bool → NodeEvent
  assistant_complete : Option ChatUsage → NodeEvent
  launch_command claude_stderr : String → NodeEvent

pub data ContentBlock : Type 0 where
  text thinking : String → ContentBlock
  tool_use : String → String → Value → ContentBlock
  tool_result : String → String → Bool → ContentBlock

pub record ClaudeMessage : Type 0 where
  pub role : String
  pub content : List ContentBlock

pub data Model : Type 0 where
  opus sonnet haiku : Model

pub record ClaudeCodeConfig : Type 0 where
  pub id : ClaudeCodeId
  pub name : String
  pub claude_session_id : Option String
  pub loopback_session_id : Option String
  pub head : Position
  pub working_dir : String
  pub model : Model
  pub system_prompt : Option String
  pub mcp_config : Option Value
  pub loopback_enabled : Bool
  pub metadata : Option Value
  pub created_at : ℕ
  pub updated_at : ℕ

pub record ClaudeCodeInfo : Type 0 where
  pub id : ClaudeCodeId
  pub name : String
  pub model : Model
  pub head : Position
  pub claude_session_id : Option String
  pub working_dir : String
  pub loopback_enabled : Bool
  pub created_at : ℕ
