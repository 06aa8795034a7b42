-- ===== src/ClaudeCode/Rendered.antt =====
-- src/activations/claudecode/storage.rs: the messages that `render_messages` makes of a path are those
-- of the conversation that its nodes hold.
use mneme_substrate.Base.{
  ℕ, String, false, Option, none, some, List, [], ◌∷◌, ◌++◌, All, ◌==◌, ==_refl, ◌≡◌, ◌≢◌, ◌⊎◌, inl,
  inr, refl, sym, ap, ◌∙◌, ok, and_then, arith,
}
use mneme_substrate.Arbor.Types.{TreeId, NodeId, ArborStorage}
use mneme_substrate.Arbor.Nodes.{node_get_path}
use mneme_substrate.ClaudeCode.Types.{NodeEvent}
use mneme_substrate.ClaudeCode.Render.{
  Draft, event_at, add_nodes, add_event, add_some, render_messages, render_path, finish, from_start,
  found_start,
}
use mneme_substrate.ClaudeCode.Conversation.{
  Turn, log, conversation, add_events, draft, log-conversation,
}

module _ (from_str : String → Option NodeEvent) (tree : TreeId) (s : ArborStorage) where
  -- The nodes hold the events, in order, with nodes between them that are skipped.
  abbrev pub Holds : List NodeId → List NodeEvent → Type 0
  Holds [] events = events ≡ []
  Holds (id ∷ ids) events =
      ((event_at from_str tree id s ≡ ok none) × Holds ids events)
      ⊎ ((event : NodeEvent) × (rest : List NodeEvent) × (event_at from_str tree id s
            ≡ ok (some event))
          × (events ≡ event ∷ rest)
          × Holds ids rest)

  add_nodes-Holds :
      (ids : List NodeId) (events : List NodeEvent) (d : Draft)
      → Holds ids events
      → add_nodes from_str tree ids s d ≡ ok (add_events events d)
  unfolding add_nodes add_events
  add_nodes-Holds [] events d h = ap (λ es. ok (add_events es d)) (sym h)
  add_nodes-Holds (id ∷ ids) events d (inl (at, rest)) =
      ap (λ r. and_then r λ event. add_nodes from_str tree ids s (add_some event d)) at
      ∙ add_nodes-Holds ids events d rest
  add_nodes-Holds (id ∷ ids) events d (inr (event, es, at, eq, rest)) =
      ap (λ r. and_then r λ event. add_nodes from_str tree ids s (add_some event d)) at
      ∙ add_nodes-Holds ids es (add_event event d) rest
      ∙ ap (λ es. ok (add_events es d)) (sym eq)

from_start-++ :
    (before : List NodeId) (start : NodeId) (ids : List NodeId)
    → All (λ id. id ≢ start) before
    → from_start start (before ++ start ∷ ids) ≡ some (start ∷ ids)
unfolding from_start
from_start-++ [] start ids h = simp (==_refl start) refl
from_start-++ (id ∷ before) start ids (apart, rest) =
    let other : (id == start) ≡ false = ground (arith, apart) in
    simp (other) (from_start-++ before start ids rest)

-- Where the way from the root to a node is found and passes by the start, first at the end of
-- `before`, and where the nodes from there on hold the log of a conversation (turns of the user, of
-- the assistant and results of tools, each with its markers, and the notes of the process), with
-- any external or blank nodes between, the messages that they are rendered into are those
-- of the conversation.
pub render_messages-conversation :
    (from_str : String → Option NodeEvent) (fuel : ℕ) (tree : TreeId) (start end : NodeId)
    (before ids : List NodeId) (turns : List Turn) (s : ArborStorage)
    → node_get_path fuel tree end s ≡ some (ok (before ++ start ∷ ids))
    → All (λ id. id ≢ start) before
    → Holds from_str tree s (start ∷ ids) (log turns)
    → render_messages from_str fuel tree start end s ≡ some (ok (conversation turns))
unfolding render_messages render_path
render_messages-conversation from_str fuel tree start end before ids turns s path first holds =
    let blank = draft [] none [] in
    ap (λ o. elim o [ none ↦ none | some path ↦ some (render_path from_str tree start path s) ])
      path
    ∙ ap
        (λ o. some (
          and_then (found_start start o)
            λ ids. and_then (add_nodes from_str tree ids s blank) λ d. ok (finish d)))
        (from_start-++ before start ids first)
    ∙ ap (λ r. some (and_then r λ d. ok (finish d)))
        (add_nodes-Holds from_str tree s (start ∷ ids) (log turns) blank holds)
    ∙ ap (λ messages. some (ok messages)) (log-conversation turns blank refl)
