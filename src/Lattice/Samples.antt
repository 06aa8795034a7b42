-- ===== src/Lattice/Samples.antt =====
-- Small graphs, and what the engine does on them.
use mneme_substrate.Base.{none, some, [], ok, ◌≡◌, refl, ℕ}
use mneme_substrate.Base.Exec.{◌>>◌, fold_exec}
use mneme_substrate.Base.Json.{null}
use mneme_substrate.Lattice.Types.{
  NodeSpec, task, gather, everything, GraphStatus, condition_matches, color_eq,
}
use mneme_substrate.Lattice.Store.{
  Store, Action, Edge, find_node, find_graph, get_node, get_nodes, count_nodes, count_edges,
  get_inbound_edges, get_outbound_edges, outbound, joining, is_root, get_nodes_with_no_predecessors,
  update_node, write_status, set_node_status, reset_node_to_pending, update_graph,
  update_graph_status, get_graph_status, count_on_edge, count_tokens_on_edge, taken, deliver_token,
  delivered_edges, count_edges_with_tokens, get_node_inputs, persist_event, events_after,
  get_events_after, permit, notify_graph, get_or_create_notifier,
}
use mneme_substrate.Lattice.Engine.{
  enabled, gather_output, make_ready, enable, check_and_ready, edge_passes, deliver_next,
  route_edge, route_token, route_tokens, output_or_ok, produce, fallback_message, fail_graph,
  settle, process, visit, drain, all_complete, finish_graph, advance_graph,
}
use mneme_substrate.Lattice.Edit.{
  create_graph, create_child_graph, get_graph, get_child_graphs, get_running_graph_ids, insert_node,
  add_node, insert_edge, require_in_graph, deliver_late, add_edge,
}
use mneme_substrate.Lattice.Lifecycle.{
  seed, seed_roots, start_graph, reset_running_to_ready, reemit, reemit_ready_nodes, start_node,
  complete_node, fail_node, cancel,
}

abbrev pub empty_store : Store
empty_store = record {
  graphs = [];
  nodes = [];
  edges = [];
  tokens = [];
  events = [];
  last_seq = 0;
  notifiers = [];
  now = 100;
}

abbrev pub edge : ℕ → ℕ → ℕ → Edge
edge id a b = record { id = id; graph_id = 1; from_node = a; to_node = b; condition = none }

abbrev pub plain : NodeSpec
plain = task null none

-- 10 → 11, 10 → 12, and a Gather 13 behind both.
pub build_diamond : Action (Unit {0})
unfolding create_graph add_node add_edge
build_diamond = do
  create_graph 1 null
  add_node 1 none 10 plain
  add_node 1 none 11 plain
  add_node 1 none 12 plain
  add_node 1 none 13 (gather everything)
  add_edge (edge 20 10 11)
  add_edge (edge 21 10 12)
  add_edge (edge 22 11 13)
  add_edge (edge 23 12 13)

pub run_diamond : Action (Unit {0})
unfolding start_graph complete_node
run_diamond = do
  start_graph 1
  complete_node 10 1 10 none
  complete_node 10 1 11 none
  complete_node 10 1 12 none

-- Unfolding this unfolds the whole engine.
unfoldable pub program : Unit {0}
unfolding find_node find_graph get_node get_nodes count_nodes count_edges get_inbound_edges
    get_outbound_edges outbound joining is_root get_nodes_with_no_predecessors update_node
    write_status set_node_status reset_node_to_pending update_graph update_graph_status
    get_graph_status count_on_edge count_tokens_on_edge taken deliver_token delivered_edges
    count_edges_with_tokens get_node_inputs persist_event events_after get_events_after permit
    notify_graph get_or_create_notifier enabled gather_output make_ready enable check_and_ready
    edge_passes deliver_next route_edge route_token route_tokens output_or_ok produce
    fallback_message fail_graph settle process visit drain all_complete finish_graph advance_graph
    create_graph create_child_graph get_graph get_child_graphs get_running_graph_ids insert_node
    add_node insert_edge require_in_graph deliver_late add_edge seed seed_roots start_graph
    reset_running_to_ready reemit reemit_ready_nodes start_node complete_node fail_node cancel
    condition_matches color_eq fold_exec build_diamond run_diamond
program = tt

diamond_runs :
    let (r, s) = (build_diamond >> run_diamond) empty_store in
    (r ≡ ok tt) × (get_graph_status 1 s ≡ some GraphStatus.complete)
unfolding program
diamond_runs = (refl, refl)
