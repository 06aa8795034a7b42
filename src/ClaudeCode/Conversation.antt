-- ===== src/ClaudeCode/Conversation.antt =====
-- src/activations/claudecode/storage.rs: the events of a conversation in turns, and its messages.
use mneme_substrate.Base.{
  String, Bool, Option, none, some, List, [], ◌∷◌, ◌++◌, map, ◌≡◌, refl, sym, ap, ◌∙◌, subst,
}
use mathlib.Core.List.{append_assoc, append-nil}
use mneme_substrate.Base.Json.{Value}
use mneme_substrate.ClaudeCode.Types.{ChatUsage, NodeEvent, ContentBlock, ClaudeMessage}
use mneme_substrate.ClaudeCode.Render.{Draft, flush, finish, add_event, add_block}

-- What an assistant's turn consists of.
pub data Part : Type 0 where
  said thought : String → Part
  used : String → String → Value → Part

-- A turn of the assistant may have been cut off before its end was noted.
pub data Turn : Type 0 where
  user : String → Turn
  assistant : List Part → Option (Option ChatUsage) → Turn
  result : String → String → Bool → Turn
  launched stderr : String → Turn

abbrev pub part_event : Part → NodeEvent
part_event (said text) = NodeEvent.content_text text
part_event (thought text) = NodeEvent.content_thinking text
part_event (used id name input) = NodeEvent.content_tool_use id name input

abbrev pub part_block : Part → ContentBlock
part_block (said text) = ContentBlock.text text
part_block (thought text) = ContentBlock.thinking text
part_block (used id name input) = ContentBlock.tool_use id name input

abbrev pub end_events : Option (Option ChatUsage) → List NodeEvent
end_events none = []
end_events (some usage) = NodeEvent.assistant_complete usage ∷ []

unfoldable pub turn_events : Turn → List NodeEvent
turn_events (user content) = NodeEvent.user_message content ∷ []
turn_events (assistant parts ended) =
    NodeEvent.assistant_start ∷ map part_event parts ++ end_events ended
turn_events (result id content is_error) = NodeEvent.user_tool_result id content is_error ∷ []
turn_events (launched command) = NodeEvent.launch_command command ∷ []
turn_events (stderr text) = NodeEvent.claude_stderr text ∷ []

unfoldable pub log : List Turn → List NodeEvent
unfolding turn_events
log [] = []
log (turn ∷ turns) = turn_events turn ++ log turns

abbrev pub message : String → List ContentBlock → ClaudeMessage
message role content = record { role = role; content = content }

unfoldable pub turn_messages : Turn → List ClaudeMessage
turn_messages (user content) = message "user" (ContentBlock.text content ∷ []) ∷ []
turn_messages (assistant [] ended) = []
turn_messages (assistant (part ∷ parts) ended) =
    message "assistant" (part_block part ∷ map part_block parts) ∷ []
turn_messages (result id content is_error) =
    message "user" (ContentBlock.tool_result id content is_error ∷ []) ∷ []
turn_messages (launched command) = []
turn_messages (stderr text) = []

-- What the turns say.
unfoldable pub conversation : List Turn → List ClaudeMessage
unfolding turn_messages
conversation [] = []
conversation (turn ∷ turns) = turn_messages turn ++ conversation turns

-- Content waits for no role.
abbrev pub IsSettled : Draft → Type 0
IsSettled d = elim d.current_role [ none ↦ d.current_content ≡ [] | some _ ↦ Unit ]

abbrev pub draft : List ClaudeMessage → Option String → List ContentBlock → Draft
draft messages role content = record {
  messages = messages;
  current_role = role;
  current_content = content;
}

unfoldable pub add_events : List NodeEvent → Draft → Draft
unfolding add_event
add_events [] d = d
add_events (event ∷ events) d = add_events events (add_event event d)

add_events-++ :
    (xs ys : List NodeEvent) (d : Draft) → add_events (xs ++ ys) d ≡ add_events ys (add_events xs d)
unfolding add_events
add_events-++ [] ys d = refl
add_events-++ (x ∷ xs) ys d = add_events-++ xs ys (add_event x d)

flush-IsSettled : (d : Draft) → IsSettled d → flush d ≡ draft (finish d) none []
unfolding flush finish
flush-IsSettled d h = go d.messages d.current_role d.current_content h
  where
    go :
        (messages : List ClaudeMessage) (role : Option String) (content : List ContentBlock)
        → IsSettled (draft messages role content)
        → flush (draft messages role content) ≡ draft (finish (draft messages role content)) none []
    go messages none content h = ap (draft messages none) h
    go messages (some role) content h = refl

parts-content :
    (parts : List Part) (messages : List ClaudeMessage) (content : List ContentBlock)
    → add_events (map part_event parts) (draft messages (some "assistant") content)
      ≡ draft messages (some "assistant") (content ++ map part_block parts)
unfolding add_events add_event
parts-content [] messages content =
    ap (draft messages (some "assistant")) (sym (append-nil content))
parts-content (part ∷ parts) messages content =
    go part
    ∙ parts-content parts messages (content ++ part_block part ∷ [])
    ∙ ap (draft messages (some "assistant"))
        (append_assoc content (part_block part ∷ []) (map part_block parts))
  where
    go :
        (part : Part)
        → add_events
            (map part_event parts)
            (add_event (part_event part) (draft messages (some "assistant") content))
          ≡ add_events
              (map part_event parts)
              (draft messages (some "assistant") (content ++ part_block part ∷ []))
    go (said text) = refl
    go (thought text) = refl
    go (used id name input) = refl

module _ (turn : Turn) (messages : List ClaudeMessage) where
  -- The draft is settled, and the messages of the turn follow the others.
  abbrev Says : Draft → Type 0
  unfolding turn_messages finish
  Says d = IsSettled d × (finish d ≡ messages ++ turn_messages turn)

ended-Says :
    (parts : List Part) (ended : Option (Option ChatUsage)) (messages : List ClaudeMessage)
    → Says
        (assistant parts ended)
        messages
        (add_events (end_events ended) (draft messages (some "assistant") (map part_block parts)))
unfolding turn_messages add_events add_event finish flush
ended-Says [] none messages = (tt, sym (append-nil messages))
ended-Says [] (some usage) messages = (refl, sym (append-nil messages))
ended-Says (part ∷ parts) none messages = (tt, refl)
ended-Says (part ∷ parts) (some usage) messages = (refl, refl)

assistant-events :
    (parts : List Part) (ended : Option (Option ChatUsage)) (d : Draft)
    → IsSettled d
    → add_events (turn_events (assistant parts ended)) d
      ≡ add_events (end_events ended) (draft (finish d) (some "assistant") (map part_block parts))
unfolding turn_events add_events add_event
assistant-events parts ended d h =
    add_events-++ (map part_event parts) (end_events ended) _
    ∙ ap
        (λ d'.
          add_events (end_events ended)
            (add_events (map part_event parts) (record d' { current_role = some "assistant" })))
        (flush-IsSettled d h)
    ∙ ap (add_events (end_events ended)) (parts-content parts (finish d) [])

turn-Says :
    (turn : Turn) (d : Draft) → IsSettled d → Says turn (finish d) (add_events (turn_events turn) d)
unfolding turn_events turn_messages add_events add_event finish flush
turn-Says (user content) d h =
    subst
      (λ d'.
        Says (user content) (finish d)
          (add_block (ContentBlock.text content) (record d' { current_role = some "user" })))
      (sym (flush-IsSettled d h)) (tt, refl)
turn-Says (assistant parts ended) d h =
    subst (Says (assistant parts ended) (finish d)) (sym (assistant-events parts ended d h))
      (ended-Says parts ended (finish d))
turn-Says (result id content is_error) d h =
    subst
      (λ d'. Says (result id content is_error) (finish d) (record d' {
        messages =
            d'.messages ++ message "user" (ContentBlock.tool_result id content is_error ∷ []) ∷ [];
      }))
      (sym (flush-IsSettled d h)) (refl, refl)
turn-Says (launched command) d h = (h, sym (append-nil (finish d)))
turn-Says (stderr text) d h = (h, sym (append-nil (finish d)))

-- The log of a conversation is read back as its messages.
pub log-conversation :
    (turns : List Turn) (d : Draft)
    → IsSettled d
    → finish (add_events (log turns) d) ≡ finish d ++ conversation turns
unfolding log conversation add_events Says
log-conversation [] d h = sym (append-nil (finish d))
log-conversation (turn ∷ turns) d h =
    let says = turn-Says turn d h in
    ap finish (add_events-++ (turn_events turn) (log turns) d)
    ∙ log-conversation turns (add_events (turn_events turn) d) says.0
    ∙ ap (λ messages. messages ++ conversation turns) says.1
    ∙ append_assoc (finish d) (turn_messages turn) (conversation turns)
