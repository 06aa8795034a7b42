-- ===== src/Lattice/Engine.antt =====
-- src/activations/lattice/storage.rs, "Transition Logic": how tokens move and nodes become
-- enabled (`check_and_ready`, `advance_graph`).
use mneme_substrate.Base.{
  ℕ, zero, suc, String, Bool, true, false, not, ◌&&◌, ◌||◌, Option, none, some, List, [], ◌∷◌,
  if◌then◌else◌, ◌==◌, ltb, leb, take, all, is_some, unwrap_or,
}
use mneme_substrate.Base.Exec.{pure, raise, gets, attempt, fold_exec, ◌>>=◌, ◌>>◌}
use mneme_substrate.Base.Json.{get, as_str}
use mneme_substrate.Lattice.Types.{
  GraphId, NodeId, TokenColor, Token, TokenPayload, inline, NodeOutput, many, output_tokens,
  ok_token, error_token, JoinType, all_inputs, any_input, GatherStrategy, everything, first,
  NodeSpec, gather, EdgeCondition, condition_matches, NodeStatus, GraphStatus, node_ready,
  node_done, node_failed, graph_done, graph_failed, is_pending, is_complete, is_failed,
}
use mneme_substrate.Lattice.Store.{
  Node, Edge, Action, out_of_fuel, get_node, get_nodes, outbound, set_node_status,
  update_graph_status, count_tokens_on_edge, deliver_token, count_edges_with_tokens,
  get_node_inputs, persist_event, notify_graph,
}

-- (edges with a token, edges)
unfoldable pub enabled : JoinType → ℕ × ℕ → Bool
enabled all_inputs (delivered, total) = (delivered == total) && ltb 0 total
enabled any_input (delivered, total) = leb 1 delivered

unfoldable pub gather_output : GatherStrategy → List Token → NodeOutput
gather_output everything tokens = many tokens
gather_output (first n) tokens = many (take n tokens)

unfoldable pub make_ready : GraphId → NodeId → NodeSpec → Action (Unit {0})
make_ready g n spec = do
  set_node_status n NodeStatus.ready none none
  persist_event g (node_ready n spec)
  pure tt

-- A Gather is run by the engine, and its output is returned; any other node is left to the caller.
unfoldable pub enable : GraphId → NodeId → NodeSpec → Action (Option NodeOutput)
unfolding gather_output make_ready
enable g n (gather strategy) = do
  tokens ← gets (get_node_inputs n)
  set_node_status n NodeStatus.running none none
  pure (some (gather_output strategy tokens))
enable g n spec = do make_ready g n spec; pure none

-- Complete → Ready allows self-loops.
abbrev pub can_be_enabled : NodeStatus → Bool
can_be_enabled status = is_pending status || is_complete status

unfoldable pub check_and_ready : GraphId → NodeId → Action (Option NodeOutput)
check_and_ready g n = do
  node ← get_node n
  counts ← gets (count_edges_with_tokens n)
  if can_be_enabled node.status && enabled node.join_type counts
      then enable g n node.spec
      else pure none

-- `is_none_or`: an edge with no condition passes every token.
unfoldable pub edge_passes : Option EdgeCondition → TokenColor → Bool
unfolding condition_matches
edge_passes none color = true
edge_passes (some c) color = condition_matches c color

-- What waits to be processed: a node with its output or its error.
pub record Entry : Type 0 where
  pub node : NodeId
  pub output : Option NodeOutput
  pub error : Option String

-- The loops over tokens and edges: whether a token was delivered, and the queue. `Vec::push` and
-- `Vec::pop` work on one end, which is the head of the list.
pub record Routing : Type 0 where
  pub any_delivered : Bool
  pub queue : List Entry

abbrev pub push_gather : NodeId → Option NodeOutput → List Entry → List Entry
push_gather n none queue = queue
push_gather n (some output) queue = record { node = n; output = some output; error = none } ∷ queue

unfoldable pub deliver_next : GraphId → Token → Edge → Action (Unit {0})
deliver_next g token e = do
  sent ← gets (count_tokens_on_edge e.id)
  deliver_token e.id g token (suc sent)

unfoldable pub route_edge : GraphId → Token → Routing → Edge → Action Routing
unfolding edge_passes deliver_next
route_edge g token r e =
    if edge_passes e.condition token.color
    then (do
      deliver_next g token e
      ready ← check_and_ready g e.to_node
      pure (record { any_delivered = true; queue = push_gather e.to_node ready r.queue }))
    else pure r

unfoldable pub route_token : GraphId → List Edge → Routing → Token → Action Routing
unfolding route_edge
route_token g edges r token = fold_exec (route_edge g token) r edges

unfoldable pub route_tokens : GraphId → List Edge → List Token → List Entry → Action Routing
unfolding route_token
route_tokens g edges tokens queue =
    fold_exec (route_token g edges) (record { any_delivered = false; queue = queue }) tokens

unfoldable pub output_or_ok : Option NodeOutput → List Token
output_or_ok none = ok_token ∷ []
output_or_ok (some o) = output_tokens o

-- The node's new status and event, and the tokens that it sends.
unfoldable pub produce : GraphId → NodeId → Option NodeOutput → Option String → Action (List Token)
unfolding output_or_ok
produce g n output none = do
  set_node_status n NodeStatus.complete output none
  persist_event g (node_done n output)
  pure (output_or_ok output)
produce g n output (some message) = do
  set_node_status n NodeStatus.failed none (some message)
  persist_event g (node_failed n message)
  pure (error_token message ∷ [])

abbrev payload_message : Option TokenPayload → Option String
payload_message (some (inline value)) = elim (get "message" value) [
  | none ↦ none
  | some v ↦ as_str v
]
payload_message _ = none

-- `tokens.first()…unwrap_or_default()`
unfoldable pub fallback_message : List Token → String
fallback_message [] = ""
fallback_message (t ∷ _) = unwrap_or "" (payload_message t.payload)

unfoldable pub fail_graph : GraphId → NodeId → List Token → Action (Unit {0})
unfolding fallback_message
fail_graph g n tokens = do
  update_graph_status g GraphStatus.failed
  persist_event g (graph_failed g n (fallback_message tokens))
  notify_graph g

-- What one round of the loop leaves: the queue to go on with, or an early `return Ok(())`.
pub data Flow : Type 0 where
  go_on : List Entry → Flow
  stopped : Flow

abbrev pub is_terminal : NodeStatus → Bool
is_terminal status = is_complete status || is_failed status

unfoldable pub settle : GraphId → Entry → List Token → Routing → Action Flow
unfolding fail_graph
settle g entry tokens routing =
    if is_some entry.error && not routing.any_delivered
    then (do fail_graph g entry.node tokens; pure stopped)
    else pure (go_on routing.queue)

unfoldable pub process : GraphId → Entry → List Entry → Action Flow
unfolding produce route_tokens settle
process g entry queue = do
  tokens ← produce g entry.node entry.output entry.error
  edges ← gets (λ s. outbound entry.node s.edges)
  routing ← route_tokens g edges tokens queue
  settle g entry tokens routing

-- A node that is missing or already terminal is skipped.
abbrev pub visit_found : GraphId → Entry → List Entry → Option Node → Action Flow
visit_found g entry queue none = pure (go_on queue)
visit_found g entry queue (some node) =
    if is_terminal node.status then pure (go_on queue) else process g entry queue

unfoldable pub visit : GraphId → Entry → List Entry → Action Flow
unfolding process
visit g entry queue = do found ← attempt (get_node entry.node); visit_found g entry queue found

abbrev pub next_round : (List Entry → Action Bool) → Flow → Action Bool
next_round again (go_on rest) = again rest
next_round again stopped = pure false

-- The `while let` loop; `true` when the queue was emptied. The fuel bounds the rounds.
unfoldable pub drain : ℕ → GraphId → List Entry → Action Bool
unfolding visit
drain zero g queue = raise out_of_fuel
drain (suc fuel) g [] = pure true
drain (suc fuel) g (entry ∷ queue) = do flow ← visit g entry queue; next_round (drain fuel g) flow

unfoldable pub all_complete : List Node → Bool
all_complete nodes = all (λ (n : Node). is_complete n.status) nodes

unfoldable pub finish_graph : GraphId → Action (Unit {0})
unfolding all_complete
finish_graph g = do
  nodes ← gets (get_nodes g)
  if all_complete nodes
      then (do
        update_graph_status g GraphStatus.complete
        persist_event g (graph_done g)
        notify_graph g)
      else notify_graph g

unfoldable pub advance_graph :
    ℕ → GraphId → NodeId → Option NodeOutput → Option String → Action (Unit {0})
unfolding drain finish_graph
advance_graph fuel g n output error = do
  emptied ← drain fuel g (record { node = n; output = output; error = error } ∷ [])
  if emptied then finish_graph g else pure tt
