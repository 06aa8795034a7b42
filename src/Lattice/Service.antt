-- ===== src/Lattice/Service.antt =====
-- The calls that reach the storage from outside: the methods of
-- src/activations/lattice/activation.rs and of `OrchaGraph` in
-- src/activations/orcha/graph_runtime.rs, as requests that are served one after another.
use mneme_substrate.Base.{ℕ, String, false, Option, List, [], ◌∷◌}
use mneme_substrate.Base.Exec.{pure, ◌>>◌}
use mneme_substrate.Base.Json.{Value}
use mneme_substrate.Lattice.Types.{GraphId, NodeId, NodeOutput, NodeSpec}
use mneme_substrate.Lattice.Store.{Edge, Store, Action, reset_node_to_pending}
use mneme_substrate.Lattice.Edit.{create_graph, create_child_graph, add_node, add_edge}
use mneme_substrate.Lattice.Lifecycle.{
  reset_running_to_ready, reemit_ready_nodes, start_node, complete_node, fail_node, cancel,
}
use mneme_substrate.Lattice.Stream.{open_stream, time_out}

pub data Request : Type 0 where
  create : GraphId → Value → Request
  create_child : GraphId → GraphId → Value → Request
  node : GraphId → Option NodeId → NodeId → NodeSpec → Request
  edge : Edge → Request
  execute : GraphId → Option ℕ → Request
  timeout : GraphId → ℕ → NodeId → Request
  node_start : GraphId → NodeId → Request
  node_complete : ℕ → GraphId → NodeId → Option NodeOutput → Request
  node_failed : ℕ → GraphId → NodeId → String → Request
  cancelled : GraphId → Request
  recover_node : GraphId → NodeId → Request
  recover_pending : NodeId → Request
  recover_ready : GraphId → Request

unfoldable pub handle : Request → Action (Unit {0})
handle (create id metadata) = do create_graph id metadata; pure tt
handle (create_child id parent metadata) = do create_child_graph id parent metadata; pure tt
handle (node g hint uuid spec) = do add_node g hint uuid spec; pure tt
handle (edge e) = add_edge e
handle (execute g after_seq) = do open_stream g after_seq; pure tt
handle (timeout g cursor name) = do
  time_out name (record { graph_id = g; cursor = cursor; closed = false })
  pure tt
handle (node_start g n) = start_node g n
handle (node_complete fuel g n output) = complete_node fuel g n output
handle (node_failed fuel g n message) = fail_node fuel g n message
handle (cancelled g) = cancel g
handle (recover_node g n) = reset_running_to_ready g n
handle (recover_pending n) = reset_node_to_pending n
handle (recover_ready g) = reemit_ready_nodes g

-- Each request finds the store as the last one left it, at a later reading of the clock. An error
-- is answered to the caller.
abbrev pub at_time : ℕ → Store → Store
at_time now s = record s { now = now }

unfoldable pub serve : Store → List (ℕ × Request) → Store
unfolding handle
serve s [] = s
serve s ((now, r) ∷ rs) = serve (handle r (at_time now s)).1 rs
