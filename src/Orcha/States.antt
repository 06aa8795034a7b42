-- ===== src/Orcha/States.antt =====
-- src/activations/orcha/storage.rs: how the states are written to the columns `state_type` and
-- `state_data`, and read back. The JSON text in `state_data` is the value that it is read to.
use Prim.Native.Nat.{◌%◌}
use native.Mathlib.Nat.{mod-eq_of_lt}
use mneme_substrate.Base.{ℕ, String, Option, none, some, if◌then◌else◌, unwrap_or, ◌≡◌, refl, ◌<◌}
use mneme_substrate.Base.Json.{Value, pos_int, number, string, object, field, end, as_str}
use mneme_substrate.Base.Json as Json
use mneme_substrate.Base.Text.{same_text}
use mneme_substrate.Orcha.Types.{SessionState, AgentState}

-- `data[key].as_u64().unwrap_or(0)` and `data[key].as_str().unwrap_or(d)`
abbrev pub u64_at : String → Value → ℕ
u64_at key v = elim (Json.get key v) [ some (number (pos_int n)) ↦ n | _ ↦ 0 ]

abbrev pub str_at : String → String → Value → String
str_at key d v = elim (Json.get key v) [ none ↦ d | some w ↦ unwrap_or d (as_str w) ]

abbrev pub u32 : ℕ
u32 = 4294967296

abbrev pub cell : String → Value → Option Value
cell key v = some (object (field key v end))

abbrev pub num : ℕ → Value
num n = number (pos_int n)

unfoldable pub serialize_state : SessionState → String × Option Value
serialize_state SessionState.idle = ("idle", none)
serialize_state (SessionState.running stream seq active completed failed) = (
  "running",
  some (
      object (
        field "stream_id" (string stream) (
          field "sequence" (num seq) (
            field "active_agents" (num active) (
              field "completed_agents" (num completed)
                (field "failed_agents" (num failed) end)))))),
)
serialize_state (SessionState.waiting_approval id) =
    ("waiting_approval", cell "approval_id" (string id))
serialize_state (SessionState.validating command) =
    ("validating", cell "test_command" (string command))
serialize_state SessionState.complete = ("complete", none)
serialize_state (SessionState.failed error) = ("failed", cell "error" (string error))

-- A column that is NULL is read as `{}`.
abbrev pub data_of : Option Value → Value
data_of none = object end
data_of (some v) = v

abbrev pub running_of : Value → SessionState
running_of v =
    SessionState.running (str_at "stream_id" "" v) (u64_at "sequence" v)
      (u64_at "active_agents" v % u32) (u64_at "completed_agents" v % u32)
      (u64_at "failed_agents" v % u32)

-- `none`: the type is unknown.
unfoldable pub deserialize_state : String → Option Value → Option SessionState
deserialize_state kind cell_value =
    let v = data_of cell_value in
    if same_text kind "idle"
    then some SessionState.idle
    else if same_text kind "running"
    then some (running_of v)
    else if same_text kind "waiting_approval"
    then some (SessionState.waiting_approval (str_at "approval_id" "" v))
    else if same_text kind "validating"
    then some (SessionState.validating (str_at "test_command" "" v))
    else if same_text kind "complete"
    then some SessionState.complete
    else if same_text kind "failed"
    then some (SessionState.failed (str_at "error" "Unknown error" v))
    else none

unfoldable pub serialize_agent_state : AgentState → String × Option Value
serialize_agent_state AgentState.idle = ("idle", none)
serialize_agent_state (AgentState.running seq) = ("running", cell "sequence" (num seq))
serialize_agent_state (AgentState.waiting_approval id) =
    ("waiting_approval", cell "approval_id" (string id))
serialize_agent_state (AgentState.validating command) =
    ("validating", cell "test_command" (string command))
serialize_agent_state AgentState.complete = ("complete", none)
serialize_agent_state (AgentState.failed error) = ("failed", cell "error" (string error))

unfoldable pub deserialize_agent_state : String → Option Value → Option AgentState
deserialize_agent_state kind cell_value =
    let v = data_of cell_value in
    if same_text kind "idle"
    then some AgentState.idle
    else if same_text kind "running"
    then some (AgentState.running (u64_at "sequence" v))
    else if same_text kind "waiting_approval"
    then some (AgentState.waiting_approval (str_at "approval_id" "" v))
    else if same_text kind "validating"
    then some (AgentState.validating (str_at "test_command" "" v))
    else if same_text kind "complete"
    then some AgentState.complete
    else if same_text kind "failed"
    then some (AgentState.failed (str_at "error" "Unknown error" v))
    else none

-- The counts of agents are of type u32.
abbrev pub IsU32 : SessionState → Type 0
IsU32 (SessionState.running stream seq active completed failed) =
    (active < u32) × (completed < u32) × (failed < u32)
IsU32 _ = Unit

pub deserialize_state-serialize_state :
    (st : SessionState)
    → IsU32 st
    → deserialize_state (serialize_state st).0 (serialize_state st).1 ≡ some st
unfolding deserialize_state serialize_state
deserialize_state-serialize_state SessionState.idle h = refl
deserialize_state-serialize_state (SessionState.running stream seq a c f) (ha, hc, hf) =
    rw (mod-eq_of_lt ha, mod-eq_of_lt hc, mod-eq_of_lt hf) refl
deserialize_state-serialize_state (SessionState.waiting_approval id) h = refl
deserialize_state-serialize_state (SessionState.validating command) h = refl
deserialize_state-serialize_state SessionState.complete h = refl
deserialize_state-serialize_state (SessionState.failed error) h = refl

pub deserialize_agent_state-serialize_agent_state :
    (st : AgentState)
    → deserialize_agent_state (serialize_agent_state st).0 (serialize_agent_state st).1 ≡ some st
unfolding deserialize_agent_state serialize_agent_state
deserialize_agent_state-serialize_agent_state AgentState.idle = refl
deserialize_agent_state-serialize_agent_state (AgentState.running seq) = refl
deserialize_agent_state-serialize_agent_state (AgentState.waiting_approval id) = refl
deserialize_agent_state-serialize_agent_state (AgentState.validating command) = refl
deserialize_agent_state-serialize_agent_state AgentState.complete = refl
deserialize_agent_state-serialize_agent_state (AgentState.failed error) = refl
