-- ===== src/Lattice/Completion.antt =====
-- When a graph completes: the last check of `advance_graph`, and what a failed node means for it.
use mneme_substrate.Base.{
  Bool, not, ◌&&◌, ◌||◌, some, List, [], ◌∷◌, ◌≡◌, refl, ◌∙◌, ap, arith, ◌==◌, all, filter, map,
  insert_by, sort_by, if◌then◌else◌, Bool-cases, inl, inr,
}
use mneme_substrate.Base.Exec.{◌>>=◌}
use mneme_substrate.Lattice.Types.{GraphId, GraphStatus, is_complete}
use mneme_substrate.Lattice.Store.{
  Node, Store, GraphRow, find_graph, row_to_node, get_nodes, get_graph_status, update_graph,
  update_graph_status, persist_event, notify_graph,
}
use mneme_substrate.Lattice.Engine.{all_complete, finish_graph}

abbrev pub done : Node → Bool
done r = is_complete r.status

all-insert_by :
    (r : Node) (rs : List Node)
    → all done (insert_by (λ (r : Node). r.created_at) r rs) ≡ (done r && all done rs)
all-insert_by r [] = refl
all-insert_by r (x ∷ xs) = ground (arith, all-insert_by r xs)

all-sort_by : (rs : List Node) → all done (sort_by (λ (r : Node). r.created_at) rs) ≡ all done rs
all-sort_by [] = refl
all-sort_by (r ∷ rs) =
    all-insert_by r (sort_by (λ (r : Node). r.created_at) rs)
    ∙ ap (λ (b : Bool). done r && b) (all-sort_by rs)

all-row_to_node : (rs : List Node) → all done (map row_to_node rs) ≡ all done rs
all-row_to_node [] = refl
all-row_to_node (r ∷ rs) = ap (λ (b : Bool). done r && b) (all-row_to_node rs)

-- Every row of the graph is complete.
abbrev pub rows_complete : GraphId → Store → Bool
rows_complete g s = all (λ (r : Node). not (r.graph_id == g) || done r) s.nodes

all-filter :
    (g : GraphId) (rs : List Node)
    → all done (filter (λ (r : Node). r.graph_id == g) rs)
      ≡ all (λ (r : Node). not (r.graph_id == g) || done r) rs
all-filter g [] = refl
all-filter g (r ∷ rs) = ground (arith, all-filter g rs)

pub all_complete-rows : (g : GraphId) (s : Store) → all_complete (get_nodes g s) ≡ rows_complete g s
unfolding all_complete get_nodes
all_complete-rows g s =
    all-row_to_node
      (sort_by (λ (r : Node). r.created_at) (filter (λ (r : Node). r.graph_id == g) s.nodes))
    ∙ (all-sort_by (filter (λ (r : Node). r.graph_id == g) s.nodes) ∙ all-filter g s.nodes)

find_graph-update :
    (g : GraphId) (status : GraphStatus) (rs : List GraphRow) (row : GraphRow)
    → find_graph g rs ≡ some row
    → find_graph g (update_graph g status rs) ≡ some (record row { status = status })
unfolding find_graph update_graph
find_graph-update g status [] row h = cc
find_graph-update g status (r ∷ rs) row h = ground (arith, find_graph-update g status rs row)

-- The last check of `advance_graph` sets an existing graph to Complete exactly when
-- all nodes of the graph are Complete, and leaves the graph's status alone otherwise.
pub finish_graph_status :
    (g : GraphId) (s : Store) (row : GraphRow)
    → find_graph g s.graphs ≡ some row
    → get_graph_status g (finish_graph g s).1
      ≡ some (if rows_complete g s then GraphStatus.complete else row.status)
unfolding finish_graph get_graph_status update_graph_status persist_event notify_graph ◌>>=◌
finish_graph_status g s row h = rw (all_complete-rows g s) (elim (Bool-cases (rows_complete g s)) [
  | inl yes_all ↦ rw yes_all (rw (find_graph-update g GraphStatus.complete s.graphs row h))
  | inr some_left ↦ rw some_left (rw h)
])
