-- ===== src/ClaudeCode/Render.antt =====
-- src/activations/claudecode/storage.rs: a path of an arbor tree rendered into the messages of the
-- Claude API. What serde reads a node's text to is an argument.
use mneme_substrate.Base.{
  ℕ, String, Option, none, some, List, [], ◌∷◌, ◌++◌, is_empty, if◌then◌else◌, ◌==◌, Result, ok,
  err, and_then,
}
use mneme_substrate.Base.Text.{trim, is_empty_text}
use mneme_substrate.Arbor.Types.{TreeId, NodeId, Node, NodeType, ArborError, ArborStorage}
use mneme_substrate.Arbor.Nodes.{node_get, node_get_path}
use mneme_substrate.ClaudeCode.Types.{
  NodeEvent, ContentBlock, ClaudeMessage, ClaudeCodeError, arbor, serialization, start_not_in_path,
}

-- The messages so far, and the one that is being filled.
pub record Draft : Type 0 where
  pub messages : List ClaudeMessage
  pub current_role : Option String
  pub current_content : List ContentBlock

abbrev pub with_message : List ClaudeMessage → String → List ContentBlock → List ClaudeMessage
with_message messages role content =
    if is_empty content
    then messages
    else (messages ++ record { role = role; content = content } ∷ [])

-- Content without a role stays for the message that follows.
unfoldable pub flush : Draft → Draft
flush d = elim d.current_role [
  | none ↦ d
  | some role ↦ record {
    messages = with_message d.messages role d.current_content;
    current_role = none;
    current_content = [];
  }
]

abbrev pub add_block : ContentBlock → Draft → Draft
add_block block d = record d { current_content = d.current_content ++ block ∷ [] }

unfoldable pub add_event : NodeEvent → Draft → Draft
unfolding flush
add_event (NodeEvent.user_message content) d =
    add_block (ContentBlock.text content) (record (flush d) { current_role = some "user" })
add_event NodeEvent.assistant_start d = record (flush d) { current_role = some "assistant" }
add_event (NodeEvent.content_text text) d = add_block (ContentBlock.text text) d
add_event (NodeEvent.content_tool_use id name input) d =
    add_block (ContentBlock.tool_use id name input) d
add_event (NodeEvent.content_thinking thinking) d = add_block (ContentBlock.thinking thinking) d
add_event (NodeEvent.user_tool_result id content is_error) d =
    let d' = flush d in
    let result : ClaudeMessage = record {
      role = "user";
      content = ContentBlock.tool_result id content is_error ∷ [];
    } in
    record d' { messages = d'.messages ++ result ∷ [] }
add_event (NodeEvent.assistant_complete usage) d = flush d
add_event (NodeEvent.launch_command command) d = d
add_event (NodeEvent.claude_stderr text) d = d

-- `flush` at the end.
unfoldable pub finish : Draft → List ClaudeMessage
unfolding flush
finish d = (flush d).messages

abbrev pub parsed : Option NodeEvent → Result ClaudeCodeError (Option NodeEvent)
parsed none = err serialization
parsed (some event) = ok (some event)

-- `ids.iter().position(…)` and the slice from there.
unfoldable pub from_start : NodeId → List NodeId → Option (List NodeId)
from_start start [] = none
from_start start (id ∷ ids) = if id == start then some (id ∷ ids) else from_start start ids

abbrev pub map_arbor : {A : Type 0} → Result ArborError A → Result ClaudeCodeError A
map_arbor (ok a) = ok a
map_arbor (err e) = err (arbor e)

abbrev pub found_start : NodeId → Option (List NodeId) → Result ClaudeCodeError (List NodeId)
found_start start none = err (start_not_in_path start)
found_start start (some ids) = ok ids

abbrev pub add_some : Option NodeEvent → Draft → Draft
unfolding add_event
add_some none d = d
add_some (some event) d = add_event event d

module _ (from_str : String → Option NodeEvent) where
  -- An external node and a blank text are skipped.
  unfoldable pub content_event : NodeType → Result ClaudeCodeError (Option NodeEvent)
  unfolding trim
  content_event (NodeType.text content) =
      if is_empty_text (trim content) then ok none else parsed (from_str content)
  content_event (NodeType.external _) = ok none

  unfoldable pub event_at :
      TreeId → NodeId → ArborStorage → Result ClaudeCodeError (Option NodeEvent)
  unfolding node_get content_event
  event_at tree id s =
      and_then (map_arbor (node_get tree id s)) λ (n : Node). content_event n.content

  unfoldable pub add_nodes :
      TreeId → List NodeId → ArborStorage → Draft → Result ClaudeCodeError Draft
  unfolding event_at add_event
  add_nodes tree [] s d = ok d
  add_nodes tree (id ∷ ids) s d =
      and_then (event_at tree id s) λ event. add_nodes tree ids s (add_some event d)

  unfoldable pub render_path :
      TreeId
      → NodeId
      → Result ArborError (List NodeId)
      → ArborStorage
      → Result ClaudeCodeError (List ClaudeMessage)
  unfolding from_start add_nodes finish
  render_path tree start path s = and_then (map_arbor path) λ ids.
      and_then (found_start start (from_start start ids)) λ ids.
        and_then
          (add_nodes tree ids s
            (record { messages = []; current_role = none; current_content = [] }))
          λ d. ok (finish d)

  -- `none` while the walk of `node_get_path` is still going.
  unfoldable pub render_messages :
      ℕ
      → TreeId
      → NodeId
      → NodeId
      → ArborStorage
      → Option (Result ClaudeCodeError (List ClaudeMessage))
  unfolding node_get_path render_path
  render_messages fuel tree start end s = elim (node_get_path fuel tree end s) [
    | none ↦ none
    | some path ↦ some (render_path tree start path s)
  ]
