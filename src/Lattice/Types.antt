-- ===== src/Lattice/Types.antt =====
-- src/activations/lattice/types.rs: tokens, nodes, edges, graphs and events, and the text of the
-- two status types. Identifiers are strings that the code only compares, so each is a number here;
-- a handle of `plexus_core` is carried as the text under which it is stored.
use text.Mathlib.Text.{◌==◌ as str_eq}
use mneme_substrate.Base.{
  ℕ, String, Bool, true, false, Option, none, some, List, [], ◌∷◌, if◌then◌else◌, ◌≡◌, refl, Result,
  err,
}
use mneme_substrate.Base.Json.{Value, string, object, field, end}

abbrev pub GraphId : Type 0
GraphId = ℕ

abbrev pub NodeId : Type 0
NodeId = ℕ

abbrev pub EdgeId : Type 0
EdgeId = ℕ

abbrev pub Handle : Type 0
Handle = String

pub data TokenColor : Type 0 where
  ok error : TokenColor
  named : String → TokenColor

-- The derived `==`.
unfoldable pub color_eq : TokenColor → TokenColor → Bool
color_eq TokenColor.ok TokenColor.ok = true
color_eq TokenColor.error TokenColor.error = true
color_eq (TokenColor.named a) (TokenColor.named b) = str_eq a b
color_eq _ _ = false

pub data TokenPayload : Type 0 where
  inline : Value → TokenPayload
  handle : Handle → TokenPayload

pub record Token : Type 0 where
  pub color : TokenColor
  pub payload : Option TokenPayload

abbrev pub ok_token : Token
ok_token = record { color = TokenColor.ok; payload = none }

abbrev pub ok_data : Value → Token
ok_data v = record { color = TokenColor.ok; payload = some (inline v) }

abbrev pub ok_handle : Handle → Token
ok_handle h = record { color = TokenColor.ok; payload = some (handle h) }

-- `{"message": message}`
abbrev pub error_token : String → Token
error_token message = record {
  color = TokenColor.error;
  payload = some (inline (object (field "message" (string message) end)));
}

pub data NodeOutput : Type 0 where
  single : Token → NodeOutput
  many : List Token → NodeOutput

abbrev pub output_tokens : NodeOutput → List Token
output_tokens (single t) = t ∷ []
output_tokens (many ts) = ts

pub data JoinType : Type 0 where
  all_inputs any_input : JoinType

pub data GatherStrategy : Type 0 where
  everything : GatherStrategy
  first : ℕ → GatherStrategy

pub data NodeSpec : Type 0 where
  task scatter : Value → Option Handle → NodeSpec
  gather : GatherStrategy → NodeSpec
  sub_graph : GraphId → NodeSpec

abbrev pub EdgeCondition : Type 0
EdgeCondition = Option TokenColor

unfoldable pub condition_matches : EdgeCondition → TokenColor → Bool
unfolding color_eq
condition_matches none color = true
condition_matches (some c) color = color_eq c color

pub data NodeStatus : Type 0 where
  pending ready running complete failed : NodeStatus

pub data GraphStatus : Type 0 where
  pending running complete failed cancelled : GraphStatus

pub NodeStatus-discrete : Discrete NodeStatus
NodeStatus-discrete = hlevel

-- `Display` and `FromStr` of the two statuses.
unfoldable pub node_status_text : NodeStatus → String
node_status_text NodeStatus.pending = "pending"
node_status_text NodeStatus.ready = "ready"
node_status_text NodeStatus.running = "running"
node_status_text NodeStatus.complete = "complete"
node_status_text NodeStatus.failed = "failed"

unfoldable pub parse_node_status : String → Result String NodeStatus
parse_node_status s =
    if str_eq s "pending"
    then Result.ok NodeStatus.pending
    else if str_eq s "ready"
    then Result.ok NodeStatus.ready
    else if str_eq s "running"
    then Result.ok NodeStatus.running
    else if str_eq s "complete"
    then Result.ok NodeStatus.complete
    else if str_eq s "failed"
    then Result.ok NodeStatus.failed
    else err s

unfoldable pub graph_status_text : GraphStatus → String
graph_status_text GraphStatus.pending = "pending"
graph_status_text GraphStatus.running = "running"
graph_status_text GraphStatus.complete = "complete"
graph_status_text GraphStatus.failed = "failed"
graph_status_text GraphStatus.cancelled = "cancelled"

unfoldable pub parse_graph_status : String → Result String GraphStatus
parse_graph_status s =
    if str_eq s "pending"
    then Result.ok GraphStatus.pending
    else if str_eq s "running"
    then Result.ok GraphStatus.running
    else if str_eq s "complete"
    then Result.ok GraphStatus.complete
    else if str_eq s "failed"
    then Result.ok GraphStatus.failed
    else if str_eq s "cancelled"
    then Result.ok GraphStatus.cancelled
    else err s

abbrev pub is_pending : NodeStatus → Bool
is_pending NodeStatus.pending = true
is_pending _ = false

abbrev pub is_ready : NodeStatus → Bool
is_ready NodeStatus.ready = true
is_ready _ = false

abbrev pub is_running : NodeStatus → Bool
is_running NodeStatus.running = true
is_running _ = false

abbrev pub is_complete : NodeStatus → Bool
is_complete NodeStatus.complete = true
is_complete _ = false

abbrev pub is_failed : NodeStatus → Bool
is_failed NodeStatus.failed = true
is_failed _ = false

abbrev pub is_pending_graph : GraphStatus → Bool
is_pending_graph GraphStatus.pending = true
is_pending_graph _ = false

pub data LatticeEvent : Type 0 where
  node_ready : NodeId → NodeSpec → LatticeEvent
  node_started : NodeId → LatticeEvent
  node_done : NodeId → Option NodeOutput → LatticeEvent
  node_failed : NodeId → String → LatticeEvent
  graph_done : GraphId → LatticeEvent
  graph_failed : GraphId → NodeId → String → LatticeEvent

parse_node_status_text : (n : NodeStatus) → parse_node_status (node_status_text n) ≡ Result.ok n
unfolding parse_node_status node_status_text
parse_node_status_text NodeStatus.pending = refl
parse_node_status_text _ = refl

parse_graph_status_text : (g : GraphStatus) → parse_graph_status (graph_status_text g) ≡ Result.ok g
unfolding parse_graph_status graph_status_text
parse_graph_status_text GraphStatus.pending = refl
parse_graph_status_text _ = refl

-- Reading a stored node status or graph status back gives the status that was written.
pub status_text_roundtrip :
    (n : NodeStatus) (g : GraphStatus)
    → (parse_node_status (node_status_text n) ≡ Result.ok n)
      × (parse_graph_status (graph_status_text g) ≡ Result.ok g)
status_text_roundtrip n g = (parse_node_status_text n, parse_graph_status_text g)
