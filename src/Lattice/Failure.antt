-- ===== src/Lattice/Failure.antt =====
-- src/activations/lattice/storage.rs: failed nodes, and what they mean for the completion of their
-- graph.
use mneme_substrate.Base.{false, not, ◌||◌, some, List, [], ◌∷◌, ◌≡◌, arith, ◌==◌, all}
use mneme_substrate.Base.Exec.Keeps.{Keeps}
use mneme_substrate.Lattice.Types.{GraphId, NodeId, NodeStatus, is_complete}
use mneme_substrate.Lattice.Store.{Node, Store, find_node}
use mneme_substrate.Lattice.Completion.{rows_complete}

pub record IsFailed (n : NodeId) (g : GraphId) (s : Store) : Type 0 where
  pub row : Node
  pub found : find_node n s.nodes ≡ some row
  pub failed : row.status ≡ NodeStatus.failed
  pub home : row.graph_id ≡ g

find_node-rows_complete :
    (n : NodeId) (rs : List Node) (row : Node)
    → find_node n rs ≡ some row
    → row.status ≡ NodeStatus.failed
    → all (λ (r : Node). not (r.graph_id == row.graph_id) || is_complete r.status) rs ≡ false
unfolding find_node
find_node-rows_complete n [] row h f = cc
find_node-rows_complete n (r ∷ rs) row h f = ground (arith, find_node-rows_complete n rs row)

pub IsFailed-rows_complete :
    (n : NodeId) (g : GraphId) (s : Store) → IsFailed n g s → rows_complete g s ≡ false
IsFailed-rows_complete n g s h =
    rw (← h.home) (find_node-rows_complete n s.nodes h.row h.found h.failed)
