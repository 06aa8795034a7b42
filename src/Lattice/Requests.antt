-- ===== src/Lattice/Requests.antt =====
-- What every request keeps: an invariant that the single writes and the insertions keep holds after
-- any sequence of requests.
use mneme_substrate.Base.{ℕ, Option, none, some, List, [], ◌∷◌, refl, Option-cases, inl, inr}
use mneme_substrate.Base.Exec.{raise, gets}
use mneme_substrate.Base.Exec.Keeps.{
  Keeps, Keeps-pure, Keeps-gets, Keeps-attempt, Keeps-if, Keeps-bind, Keeps-fold,
}
use mneme_substrate.Base.Json.{Value}
use mneme_substrate.Lattice.Types.{
  GraphId, NodeId, Token, NodeSpec, task, scatter, gather, sub_graph,
}
use mneme_substrate.Lattice.Store.{Node, Edge, Store, find_graph}
use mneme_substrate.Lattice.Edit.{
  get_graph, insert_node, insert_checked, create_graph, create_child_graph, add_node, add_edge,
  deliver_late, catch_up,
}
use mneme_substrate.Lattice.Lifecycle.{
  seed_spec, seed, seed_roots, start_graph, reset_running_to_ready, reemit, reemit_ready_nodes,
  start_node, complete_node, fail_node, cancel,
}
use mneme_substrate.Lattice.Stream.{open_stream, time_out}
use mneme_substrate.Lattice.Service.{
  Request, create, create_child, node, edge, execute, timeout, node_start, node_complete,
  node_failed, cancelled, recover_node, recover_pending, recover_ready, handle, at_time, serve,
}
use mneme_substrate.Lattice.Primitives.{
  Writes, get_node-Keeps, make_ready-Keeps, check_and_ready-Keeps, advance_graph-Keeps,
}

pub record Inserts (P : Store → Type 0) : Type 0 where
  pub graph : (id : GraphId) (metadata : Value) → Keeps P (create_graph id metadata)
  pub child :
      (id parent : GraphId) (metadata : Value) → Keeps P (create_child_graph id parent metadata)
  pub node : (id : NodeId) (g : GraphId) (spec : NodeSpec) → Keeps P (insert_node id g spec)
  pub edge : (e : Edge) → Keeps P (insert_checked e)
  pub clock : (now : ℕ) (s : Store) → P s → P (at_time now s)

pub get_graph-Keeps : {P : Store → Type 0} (g : GraphId) → Keeps P (get_graph g)
unfolding get_graph gets raise
get_graph-Keeps g = record {
  at = λ s h. elim (Option-cases (find_graph g s.graphs)) [
    | inl missing ↦ rw missing h
    | inr (row, found) ↦ rw found h
  ];
}

module _ {P : Store → Type 0} (w : Writes P) where
  seed_spec-Keeps : (g : GraphId) (n : NodeId) (spec : NodeSpec) → Keeps P (seed_spec g n spec)
  seed_spec-Keeps g n (gather _) = Keeps-pure tt
  seed_spec-Keeps g n (task v h) = make_ready-Keeps w g n _
  seed_spec-Keeps g n (scatter v h) = make_ready-Keeps w g n _
  seed_spec-Keeps g n (sub_graph id) = make_ready-Keeps w g n _

  seed_roots-Keeps : (g : GraphId) (roots : List Node) → Keeps P (seed_roots g roots)
  unfolding seed_roots
  seed_roots-Keeps g roots =
      Keeps-if _ _ _
        (Keeps-bind _ _ (w.graph g _ refl) λ _. Keeps-bind _ _ (w.event g _) λ _. Keeps-pure tt)
        (Keeps-fold _ tt roots λ _ row. unfold seed in seed_spec-Keeps g row.id row.spec)

  pub start_graph-Keeps : (g : GraphId) → Keeps P (start_graph g)
  unfolding start_graph
  start_graph-Keeps g = Keeps-bind _ _ (Keeps-gets _) λ _.
      Keeps-if _ _ _
        (Keeps-bind _ _ (w.graph g _ refl) λ _.
          Keeps-bind _ _ (Keeps-gets _)
            λ roots. Keeps-bind _ _ (seed_roots-Keeps g roots) λ _. w.notify g)
        (Keeps-pure tt)

  open_stream-Keeps : (g : GraphId) (after_seq : Option ℕ) → Keeps P (open_stream g after_seq)
  unfolding open_stream
  open_stream-Keeps g after_seq = Keeps-bind _ _ (get_graph-Keeps g) λ _.
      Keeps-bind _ _ (Keeps-if _ _ _ (start_graph-Keeps g) (Keeps-pure tt))
        λ _. Keeps-bind _ _ (w.notifier g) λ _. Keeps-pure _

  pub reset_running_to_ready-Keeps :
      (g : GraphId) (n : NodeId) → Keeps P (reset_running_to_ready g n)
  unfolding reset_running_to_ready
  reset_running_to_ready-Keeps g n = Keeps-bind _ _ (get_node-Keeps n) λ row.
      Keeps-if _ _ _ (Keeps-bind _ _ (make_ready-Keeps w g n row.spec) λ _. w.notify g)
        (Keeps-pure tt)

  reemit-Keeps : (g : GraphId) (u : Unit {0}) (row : Node) → Keeps P (reemit g u row)
  unfolding reemit
  reemit-Keeps g u row =
      Keeps-if _ _ _ (Keeps-bind _ _ (w.event g _) λ _. Keeps-pure tt) (Keeps-pure tt)

  reemit_ready_nodes-Keeps : (g : GraphId) → Keeps P (reemit_ready_nodes g)
  unfolding reemit_ready_nodes
  reemit_ready_nodes-Keeps g =
      Keeps-bind _ _ (Keeps-gets _)
        λ nodes. Keeps-bind _ _ (Keeps-fold _ tt nodes (reemit-Keeps g)) λ _. w.notify g

  deliver_late-Keeps :
      (g : GraphId) (e : Edge) (u : Unit {0}) (t : Token) → Keeps P (deliver_late g e u t)
  unfolding deliver_late
  deliver_late-Keeps g e u t = Keeps-if _ _ _ (w.deliver g t e) (Keeps-pure tt)

  catch_up-Keeps : (g : GraphId) (e : Edge) (source : Option Node) → Keeps P (catch_up g e source)
  catch_up-Keeps g e none = Keeps-pure tt
  catch_up-Keeps g e (some source) =
      Keeps-if _ _ _
        (Keeps-bind _ _ (Keeps-fold _ tt _ (deliver_late-Keeps g e)) λ _.
          Keeps-bind _ _ (Keeps-attempt _ (check_and_ready-Keeps w g e.to_node)) λ _. w.notify g)
        (Keeps-pure tt)

  module _ (i : Inserts P) where
    add_node-Keeps :
        (g : GraphId) (hint : Option NodeId) (uuid : NodeId) (spec : NodeSpec)
        → Keeps P (add_node g hint uuid spec)
    unfolding add_node
    add_node-Keeps g hint uuid spec = Keeps-bind _ _ (i.node _ g spec) λ _.
        Keeps-bind _ _ (Keeps-gets _) λ _.
          Keeps-if _ _ _
            (Keeps-bind _ _ (Keeps-attempt _ (check_and_ready-Keeps w g _)) λ _. Keeps-pure _)
            (Keeps-pure _)

    add_edge-Keeps : (e : Edge) → Keeps P (add_edge e)
    unfolding add_edge
    add_edge-Keeps e = Keeps-bind _ _ (i.edge e) λ _. Keeps-bind _ _ (Keeps-gets _) λ _.
        Keeps-if _ _ _
          (Keeps-bind _ _ (Keeps-attempt _ (get_node-Keeps e.from_node))
            λ source. catch_up-Keeps e.graph_id e source)
          (Keeps-pure tt)

    pub handle-Keeps : (r : Request) → Keeps P (handle r)
    unfolding handle complete_node fail_node start_node cancel time_out
    handle-Keeps (create id metadata) = Keeps-bind _ _ (i.graph id metadata) λ _. Keeps-pure tt
    handle-Keeps (create_child id parent metadata) =
        Keeps-bind _ _ (i.child id parent metadata) λ _. Keeps-pure tt
    handle-Keeps (node g hint uuid spec) =
        Keeps-bind _ _ (add_node-Keeps g hint uuid spec) λ _. Keeps-pure tt
    handle-Keeps (edge e) = add_edge-Keeps e
    handle-Keeps (execute g after_seq) =
        Keeps-bind _ _ (open_stream-Keeps g after_seq) λ _. Keeps-pure tt
    handle-Keeps (timeout g cursor name) =
        Keeps-bind _ _ (Keeps-bind _ _ (w.event g _) λ _. Keeps-pure _) λ _. Keeps-pure tt
    handle-Keeps (node_start g n) =
        Keeps-bind _ _ (w.status n _ _ _) λ _. Keeps-bind _ _ (w.event g _) λ _. w.notify g
    handle-Keeps (node_complete fuel g n output) = advance_graph-Keeps w g fuel n output none
    handle-Keeps (node_failed fuel g n message) = advance_graph-Keeps w g fuel n none (some message)
    handle-Keeps (cancelled g) = w.graph g _ refl
    handle-Keeps (recover_node g n) = reset_running_to_ready-Keeps g n
    handle-Keeps (recover_pending n) = w.pending n
    handle-Keeps (recover_ready g) = reemit_ready_nodes-Keeps g

    pub serve-Keeps : (s : Store) (rs : List (ℕ × Request)) → P s → P (serve s rs)
    unfolding serve
    serve-Keeps s [] h = h
    serve-Keeps s ((now, r) ∷ rs) h =
        serve-Keeps (handle r (at_time now s)).1 rs ((handle-Keeps r).at _ (i.clock now s h))
