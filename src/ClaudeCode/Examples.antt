-- ===== src/ClaudeCode/Examples.antt =====
-- A chat that is polled while it runs, and a short conversation in an arbor tree.
use mneme_substrate.Base.{
  ℕ, String, false, Option, none, some, List, [], ◌∷◌, ◌++◌, ◌≡◌, ◌≢◌, refl, inl, inr, ok, err,
  arith, if◌then◌else◌,
}
use mneme_substrate.Base.Text.{same_text, trim}
use mneme_substrate.Base.Json.{null}
use mneme_substrate.Arbor.Types.{ArborStorage}
use mneme_substrate.Arbor.Trees.{tree_create_with_id}
use mneme_substrate.Arbor.Nodes.{
  node_create_text, node_get_path, node_get, create_node, find_node, path_loop,
}
use mneme_substrate.Arbor.Service.{serve, handle, create, add_text}
use mneme_substrate.ClaudeCode.Types.{ChatEvent, StreamStatus, NodeEvent, ContentBlock}
use mneme_substrate.ClaudeCode.Streams.{
  ClaudeCodeStorage, Call, create as make, push, set_status, poll, cleanup, delivered,
  stream_create,
}
use mneme_substrate.ClaudeCode.Delivered.{pushes, polls, delivered-pushes}
use mneme_substrate.ClaudeCode.Render.{render_messages, event_at, content_event, finish}
use mneme_substrate.ClaudeCode.Conversation.{
  Turn, Part, log, conversation, message, draft, add_events, turn_events, turn_messages,
}
use mathlib.Core.List.{Memᴰ}
use mneme_substrate.Base.Text.{join}
use mneme_substrate.Arbor.Nodes.{tree_get}
use mneme_substrate.ClaudeCode.Types.{Model, ambiguous_session}
use mneme_substrate.ClaudeCode.Like.{like}
use mneme_substrate.ClaudeCode.SessionTable.{
  SessionRow, SessionStore, NewSession, as_str, insert_row, insert_session, find_name,
}
use mneme_substrate.ClaudeCode.Sessions
use mneme_substrate.ClaudeCode.Sessions.{
  session_create, session_update_head, session_get_by_name, change_row,
}
use mneme_substrate.ClaudeCode.Found.{IsFound, serve-IsFound}
use mneme_substrate.ClaudeCode.Rendered.{render_messages-conversation}

abbrev no_streams : ClaudeCodeStorage
no_streams = record { streams = []; now = 0 }

abbrev chat : List (ℕ × Call)
chat =
    (1, push 7 (ChatEvent.content "a"))
    ∷ (2, push 8 (ChatEvent.content "lost"))
    ∷ (3, make 8 1)
    ∷ (4, push 7 (ChatEvent.content "b"))
    ∷ (5, poll 7 none (some 1))
    ∷ (6, poll 8 (some 3) none)
    ∷ (7, cleanup 8)
    ∷ (8, push 7 (ChatEvent.failure "c"))
    ∷ (9, set_status 7 StreamStatus.failed (some "c"))
    ∷ []

delivered-pushes_example :
    delivered 7 (chat ++ polls 1 7 none 10) (stream_create 7 1 no_streams).1
    ≡ ChatEvent.content "a" ∷ ChatEvent.content "b" ∷ ChatEvent.failure "c" ∷ []
unfolding pushes
delivered-pushes_example =
    delivered-pushes chat 1 7 1 none 10 no_streams
      (tt, (tt, (apart, (tt, (inr refl, (inl apart, (apart, (tt, (tt, tt))))))))) (omega arith)
      (omega arith)
  where
    apart : ◌≢◌ {A = ℕ} 8 7
    apart = omega arith

abbrev no_trees : ArborStorage
no_trees = record {
  trees = [];
  tree_refs = [];
  nodes = [];
  node_refs = [];
  node_children = [];
  now = 0;
}

abbrev talk : ArborStorage
unfolding serve
talk =
    serve
      ((1, create 1 10 none "A")
        ∷ (2, add_text 11 1 (some 10) "hello" none)
        ∷ (3, add_text 12 1 (some 11) "start" none)
        ∷ (4, add_text 13 1 (some 12) "world" none)
        ∷ [])
      no_trees

abbrev read : String → Option NodeEvent
read s =
    if same_text s "hello"
    then some (NodeEvent.user_message "hello")
    else if same_text s "start"
    then some NodeEvent.assistant_start
    else if same_text s "world"
    then some (NodeEvent.content_text "world")
    else none

render_messages-conversation_example :
    render_messages read 5 1 10 13 talk
    ≡ some (
        ok (
          message "user" (ContentBlock.text "hello" ∷ [])
          ∷ message "assistant" (ContentBlock.text "world" ∷ [])
          ∷ []))
unfolding serve handle tree_create_with_id node_create_text create_node node_get_path path_loop
    node_get find_node event_at content_event trim log turn_events conversation turn_messages
render_messages-conversation_example =
    render_messages-conversation read 5 1 10 13 [] (11 ∷ 12 ∷ 13 ∷ [])
      (Turn.user "hello" ∷ Turn.assistant (Part.said "world" ∷ []) none ∷ []) talk refl tt
      (inl (refl, inr (_, _, refl, refl, inr (_, _, refl, refl, inr (_, _, refl, refl, refl)))))

-- A tool's result within a turn: what the assistant says after it comes out as the user's.
misattributed :
    finish (
      add_events
        (NodeEvent.user_message "list"
          ∷ NodeEvent.assistant_start
          ∷ NodeEvent.content_tool_use "t" "ls" null
          ∷ NodeEvent.user_tool_result "t" "a.txt" false
          ∷ NodeEvent.content_text "one file"
          ∷ NodeEvent.assistant_complete none
          ∷ NodeEvent.user_message "thanks"
          ∷ [])
        (draft [] none []))
    ≡ message "user" (ContentBlock.text "list" ∷ [])
      ∷ message "assistant" (ContentBlock.tool_use "t" "ls" null ∷ [])
      ∷ message "user" (ContentBlock.tool_result "t" "a.txt" false ∷ [])
      ∷ message "user" (ContentBlock.text "one file" ∷ ContentBlock.text "thanks" ∷ [])
      ∷ []
unfolding finish add_events
misattributed = refl

abbrev plain_session : NewSession
plain_session = record {
  working_dir = "/work";
  model = Model.sonnet;
  system_prompt = none;
  mcp_config = none;
  loopback_enabled = false;
  claude_session_id = none;
  loopback_session_id = none;
  metadata = none;
}

abbrev no_sessions : SessionStore
no_sessions = record { claudecode_sessions = []; arbor = no_trees; now = 0 }

abbrev uuid : ℕ → String
uuid n = "u"

-- The name of the first session is taken when the second comes.
abbrev two_sessions : List (ℕ × Sessions.Call)
two_sessions =
    (1, Sessions.create 1 21 31 "work" plain_session)
    ∷ (2, Sessions.create 2 22 32 "work" plain_session)
    ∷ (3, Sessions.update_head 2 40 (some "c"))
    ∷ []

abbrev second : SessionRow
second = record {
  id = 2;
  name = "work#u";
  claude_session_id = some "c";
  loopback_session_id = none;
  tree_id = 22;
  canonical_head = 40;
  working_dir = "/work";
  model = "sonnet";
  system_prompt = none;
  mcp_config = none;
  loopback_enabled = false;
  metadata = none;
  created_at = 2;
  updated_at = 3;
}

serve-IsFound_example : IsFound (Sessions.serve uuid two_sessions no_sessions) second
unfolding Sessions.serve Sessions.handle session_create insert_session insert_row
    session_update_head change_row tree_create_with_id tree_get as_str
serve-IsFound_example = serve-IsFound uuid two_sessions no_sessions second tt (Memᴰ.head refl)

-- A beginning that two names share is ambiguous.
by_prefix :
    session_get_by_name "wo" (Sessions.serve uuid two_sessions no_sessions)
    ≡ err (ambiguous_session "wo" "work#u, work")
unfolding Sessions.serve Sessions.handle session_create insert_session insert_row
    session_update_head change_row tree_create_with_id tree_get as_str session_get_by_name find_name
    like join
by_prefix = refl
