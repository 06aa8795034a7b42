-- ===== src/Lattice/Lifecycle.antt =====
-- src/activations/lattice/storage.rs, "Graph Lifecycle", with the calls that
-- src/activations/lattice/activation.rs and src/activations/orcha/graph_runtime.rs make of the
-- storage: starting a graph, running and finishing its nodes, cancelling, crash recovery.
use mneme_substrate.Base.{ℕ, String, Bool, false, Option, none, some, List, if◌then◌else◌, is_empty}
use mneme_substrate.Base.Exec.{pure, gets, fold_exec, ◌>>=◌, ◌>>◌}
use mneme_substrate.Lattice.Types.{
  GraphId, NodeId, NodeOutput, NodeSpec, gather, NodeStatus, GraphStatus, node_ready, node_started,
  graph_done, is_ready, is_running, is_pending_graph,
}
use mneme_substrate.Lattice.Store.{
  Node, Action, get_node, get_nodes, get_nodes_with_no_predecessors, set_node_status,
  update_graph_status, get_graph_status, persist_event, notify_graph,
}
use mneme_substrate.Lattice.Engine.{make_ready, advance_graph}

abbrev pub is_startable : Option GraphStatus → Bool
is_startable none = false
is_startable (some status) = is_pending_graph status

-- A root Gather is skipped and stays Pending.
abbrev pub seed_spec : GraphId → NodeId → NodeSpec → Action (Unit {0})
seed_spec g n (gather _) = pure tt
seed_spec g n spec = make_ready g n spec

unfoldable pub seed : GraphId → Unit {0} → Node → Action (Unit {0})
seed g _ node = seed_spec g node.id node.spec

unfoldable pub seed_roots : GraphId → List Node → Action (Unit {0})
unfolding seed
seed_roots g roots =
    if is_empty roots
    then (do update_graph_status g GraphStatus.complete; persist_event g (graph_done g); pure tt)
    else fold_exec (seed g) tt roots

-- The compare-and-swap from Pending: a graph that is not pending is left alone.
unfoldable pub start_graph : GraphId → Action (Unit {0})
unfolding seed_roots
start_graph g = do
  status ← gets (get_graph_status g)
  if is_startable status
      then (do
        update_graph_status g GraphStatus.running
        roots ← gets (get_nodes_with_no_predecessors g)
        seed_roots g roots
        notify_graph g)
      else pure tt

unfoldable pub reset_running_to_ready : GraphId → NodeId → Action (Unit {0})
reset_running_to_ready g n = do
  node ← get_node n
  if is_running node.status then (do make_ready g n node.spec; notify_graph g) else pure tt

unfoldable pub reemit : GraphId → Unit {0} → Node → Action (Unit {0})
reemit g _ node =
    if is_ready node.status
    then (do persist_event g (node_ready node.id node.spec); pure tt)
    else pure tt

unfoldable pub reemit_ready_nodes : GraphId → Action (Unit {0})
unfolding reemit
reemit_ready_nodes g = do nodes ← gets (get_nodes g); fold_exec (reemit g) tt nodes; notify_graph g

-- `OrchaGraph::start_node`: no check of the node's status.
unfoldable pub start_node : GraphId → NodeId → Action (Unit {0})
start_node g n = do
  set_node_status n NodeStatus.running none none
  persist_event g (node_started n)
  notify_graph g

unfoldable pub complete_node : ℕ → GraphId → NodeId → Option NodeOutput → Action (Unit {0})
unfolding advance_graph
complete_node fuel g n output = advance_graph fuel g n output none

unfoldable pub fail_node : ℕ → GraphId → NodeId → String → Action (Unit {0})
unfolding advance_graph
fail_node fuel g n message = advance_graph fuel g n none (some message)

unfoldable pub cancel : GraphId → Action (Unit {0})
cancel g = update_graph_status g GraphStatus.cancelled
