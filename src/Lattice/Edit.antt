-- ===== src/Lattice/Edit.antt =====
-- src/activations/lattice/storage.rs, "Graph / Node / Edge CRUD": building a graph, also one that
-- runs. A generated UUID is an argument; one that is taken meets the primary key.
use mneme_substrate.Base.{
  ℕ, Bool, true, false, not, ◌&&◌, ◌||◌, Option, none, some, List, [], ◌∷◌, ◌++◌, if◌then◌else◌,
  ◌==◌, any, unwrap_or, filter, map, sort_by,
}
use mneme_substrate.Base.Exec.{pure, raise, gets, modify, attempt, fold_exec, ◌>>=◌, ◌>>◌}
use mneme_substrate.Base.Json.{Value}
use mneme_substrate.Lattice.Types.{
  GraphId, NodeId, Token, JoinType, NodeSpec, NodeStatus, GraphStatus, is_complete,
}
use mneme_substrate.Lattice.Store.{
  GraphRow, Node, Edge, Store, Action, constraint, not_in_graph, graph_not_found, has_graph,
  has_node, get_node, get_graph_status, notify_graph, count_nodes, count_edges, find_graph,
}
use mneme_substrate.Lattice.Engine.{check_and_ready, edge_passes, deliver_next, output_or_ok}

abbrev graph_row : GraphId → Value → Option GraphId → Store → GraphRow
graph_row id metadata parent s = record {
  id = id;
  metadata = metadata;
  status = GraphStatus.pending;
  created_at = s.now;
  parent_graph_id = parent;
}

abbrev pub put_graph : GraphId → Value → Option GraphId → Store → Store
put_graph id metadata parent s = record s {
  graphs = s.graphs ++ graph_row id metadata parent s ∷ [];
}

unfoldable pub create_graph : GraphId → Value → Action GraphId
create_graph id metadata s =
    (if has_graph id s then raise constraint else do modify (put_graph id metadata none); pure id) s

unfoldable pub create_child_graph : GraphId → GraphId → Value → Action GraphId
create_child_graph id parent metadata s =
    (if has_graph id s || not (has_graph parent s)
        then raise constraint
        else do modify (put_graph id metadata (some parent)); pure id)
      s

-- A graph as it is read: the row with the sizes of the graph (`row_to_graph`).
pub record LatticeGraph : Type 0 where
  pub row : GraphRow
  pub node_count : ℕ
  pub edge_count : ℕ

abbrev row_to_graph : Store → GraphRow → LatticeGraph
row_to_graph s r = record {
  row = r;
  node_count = count_nodes r.id s;
  edge_count = count_edges r.id s;
}

abbrev fetched_graph : GraphId → Option GraphRow → Action LatticeGraph
fetched_graph g none = raise (graph_not_found g)
fetched_graph g (some r) = gets (λ s. row_to_graph s r)

unfoldable pub get_graph : GraphId → Action LatticeGraph
get_graph g s = fetched_graph g (find_graph g s.graphs) s

abbrev is_child_of : GraphId → GraphRow → Bool
is_child_of parent r = elim r.parent_graph_id [ none ↦ false | some p ↦ p == parent ]

unfoldable pub get_child_graphs : GraphId → Store → List LatticeGraph
get_child_graphs parent s =
    map (row_to_graph s)
      (sort_by (λ (r : GraphRow). r.created_at) (filter (is_child_of parent) s.graphs))

abbrev is_running_graph : GraphStatus → Bool
is_running_graph GraphStatus.running = true
is_running_graph _ = false

unfoldable pub get_running_graph_ids : Store → List GraphId
get_running_graph_ids s =
    map (λ (r : GraphRow). r.id)
      (sort_by (λ (r : GraphRow). r.created_at)
        (filter (λ (r : GraphRow). is_running_graph r.status) s.graphs))

-- `if let Ok(status) = … { if status == Running { … } }`
abbrev pub is_live : Option GraphStatus → Bool
is_live none = false
is_live (some status) = is_running_graph status

abbrev pub new_node : NodeId → GraphId → NodeSpec → Store → Node
new_node id g spec s = record {
  id = id;
  graph_id = g;
  spec = spec;
  status = NodeStatus.pending;
  join_type = JoinType.all_inputs;
  output = none;
  error = none;
  created_at = s.now;
  completed_at = none;
}

abbrev pub put_node : NodeId → GraphId → NodeSpec → Store → Store
put_node id g spec s = record s { nodes = s.nodes ++ new_node id g spec s ∷ [] }

unfoldable pub insert_node : NodeId → GraphId → NodeSpec → Action (Unit {0})
insert_node id g spec s =
    (if has_node id s || not (has_graph g s) then raise constraint else modify (put_node id g spec))
      s

unfoldable pub add_node : GraphId → Option NodeId → NodeId → NodeSpec → Action NodeId
unfolding insert_node
add_node g hint uuid spec = do
  let id = unwrap_or uuid hint
  insert_node id g spec
  status ← gets (get_graph_status g)
  if is_live status then (do attempt (check_and_ready g id); pure id) else pure id

abbrev pub in_graph : GraphId → NodeId → Store → Bool
in_graph g n s = any (λ (r : Node). (r.id == n) && (r.graph_id == g)) s.nodes

abbrev pub put_edge : Edge → Store → Store
put_edge e s = record s { edges = s.edges ++ e ∷ [] }

unfoldable pub insert_edge : Edge → Action (Unit {0})
insert_edge e s =
    (if any (λ (f : Edge). f.id == e.id) s.edges || not (has_graph e.graph_id s)
        then raise constraint
        else modify (put_edge e))
      s

unfoldable pub require_in_graph : GraphId → NodeId → Action (Unit {0})
require_in_graph g n s = (if in_graph g n s then pure tt else raise (not_in_graph n g)) s

-- Both ends are looked up before the row is written.
unfoldable pub insert_checked : Edge → Action (Unit {0})
unfolding require_in_graph insert_edge
insert_checked e = do
  require_in_graph e.graph_id e.from_node
  require_in_graph e.graph_id e.to_node
  insert_edge e

unfoldable pub deliver_late : GraphId → Edge → Unit {0} → Token → Action (Unit {0})
deliver_late g e _ token =
    if edge_passes e.condition token.color then deliver_next g token e else pure tt

-- A source that is already complete sends its tokens on the new edge. The result of
-- `check_and_ready` is dropped.
abbrev pub catch_up : GraphId → Edge → Option Node → Action (Unit {0})
catch_up g e none = pure tt
catch_up g e (some source) =
    if is_complete source.status
    then (do
      fold_exec (deliver_late g e) tt (output_or_ok source.output)
      attempt (check_and_ready g e.to_node)
      notify_graph g)
    else pure tt

unfoldable pub add_edge : Edge → Action (Unit {0})
unfolding insert_checked deliver_late
add_edge e = do
  insert_checked e
  status ← gets (get_graph_status e.graph_id)
  if is_live status
      then (do source ← attempt (get_node e.from_node); catch_up e.graph_id e source)
      else pure tt
