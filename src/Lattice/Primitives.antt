-- ===== src/Lattice/Primitives.antt =====
-- From the single writes of the storage to what is built from them: the engine, the life cycle and
-- the late deliveries.
use mneme_substrate.Base.{
  ℕ, zero, suc, Bool, false, Option, none, some, List, [], ◌∷◌, String, ◌≡◌, refl, Option-cases,
  inl, inr,
}
use mneme_substrate.Base.Exec.{pure, raise}
use mneme_substrate.Base.Exec.Keeps.{
  Keeps, Keeps-pure, Keeps-raise, Keeps-gets, Keeps-attempt, Keeps-if, Keeps-bind, Keeps-fold,
}
use mneme_substrate.Lattice.Types.{
  GraphId, NodeId, Token, NodeOutput, NodeSpec, task, scatter, gather, sub_graph, NodeStatus,
  GraphStatus, LatticeEvent, is_pending_graph,
}
use mneme_substrate.Lattice.Store.{
  Node, Edge, Store, Action, get_node, find_node, set_node_status, update_graph_status,
  persist_event, notify_graph, get_or_create_notifier, reset_node_to_pending,
}
use mneme_substrate.Lattice.Engine.{
  make_ready, enable, check_and_ready, Entry, Routing, deliver_next, route_edge, route_token,
  route_tokens, produce, fail_graph, Flow, go_on, stopped, settle, process, visit, visit_found,
  next_round, drain, finish_graph, advance_graph,
}

pub record Writes (P : Store → Type 0) : Type 0 where
  pub status :
      (n : NodeId) (status : NodeStatus) (output : Option NodeOutput) (error : Option String)
      → Keeps P (set_node_status n status output error)
  pub pending : (n : NodeId) → Keeps P (reset_node_to_pending n)
  pub event : (g : GraphId) (event : LatticeEvent) → Keeps P (persist_event g event)
  -- No code puts a graph back to Pending.
  pub graph :
      (g : GraphId) (status : GraphStatus)
      → is_pending_graph status ≡ false
      → Keeps P (update_graph_status g status)
  pub deliver : (g : GraphId) (token : Token) (e : Edge) → Keeps P (deliver_next g token e)
  pub notify : (g : GraphId) → Keeps P (notify_graph g)
  pub notifier : (g : GraphId) → Keeps P (get_or_create_notifier g)

pub get_node-Keeps : {P : Store → Type 0} (n : NodeId) → Keeps P (get_node n)
unfolding get_node pure raise
get_node-Keeps n = record {
  at = λ s h. elim (Option-cases (find_node n s.nodes)) [
    | inl missing ↦ rw missing h
    | inr (row, found) ↦ rw found h
  ];
}

-- The writes of one step of the engine, with `check_and_ready` as a whole.
pub record Steps (P : Store → Type 0) : Type 0 where
  pub check : (g : GraphId) (n : NodeId) → Keeps P (check_and_ready g n)
  pub event : (g : GraphId) (event : LatticeEvent) → Keeps P (persist_event g event)
  -- No code puts a graph back to Pending.
  pub graph :
      (g : GraphId) (status : GraphStatus)
      → is_pending_graph status ≡ false
      → Keeps P (update_graph_status g status)
  pub deliver : (g : GraphId) (token : Token) (e : Edge) → Keeps P (deliver_next g token e)
  pub notify : (g : GraphId) → Keeps P (notify_graph g)

next_round-Keeps :
    {P : Store → Type 0} (again : List Entry → Action Bool) (flow : Flow)
    → ((queue : List Entry) → Keeps P (again queue))
    → Keeps P (next_round again flow)
next_round-Keeps again (go_on rest) k = k rest
next_round-Keeps again stopped k = Keeps-pure _

module _ {P : Store → Type 0} (w : Steps P) (g : GraphId) where
  route_edge-Keeps : (token : Token) (r : Routing) (e : Edge) → Keeps P (route_edge g token r e)
  unfolding route_edge
  route_edge-Keeps token r e =
      Keeps-if _ _ _
        (Keeps-bind _ _ (w.deliver g token e)
          λ _. Keeps-bind _ _ (w.check g e.to_node) λ _. Keeps-pure _)
        (Keeps-pure r)

  pub route_tokens-Keeps :
      (edges : List Edge) (tokens : List Token) (queue : List Entry)
      → Keeps P (route_tokens g edges tokens queue)
  unfolding route_tokens route_token
  route_tokens-Keeps edges tokens queue =
      Keeps-fold _ _ tokens λ r token. Keeps-fold _ r edges (route_edge-Keeps token)

  pub settle-Keeps : (x : Entry) (tokens : List Token) (r : Routing) → Keeps P (settle g x tokens r)
  unfolding settle fail_graph
  settle-Keeps x tokens r =
      Keeps-if _ _ _
        (Keeps-bind _ _
          (Keeps-bind _ _ (w.graph g _ refl) λ _. Keeps-bind _ _ (w.event g _) λ _. w.notify g)
          λ _. Keeps-pure stopped)
        (Keeps-pure _)

  finish_graph-Keeps : Keeps P (finish_graph g)
  unfolding finish_graph
  finish_graph-Keeps = Keeps-bind _ _ (Keeps-gets _) λ nodes.
      Keeps-if _ _ _
        (Keeps-bind _ _ (w.graph g _ refl) λ _. Keeps-bind _ _ (w.event g _) λ _. w.notify g)
        (w.notify g)

  module _ (visit-Keeps : (x : Entry) (queue : List Entry) → Keeps P (visit g x queue)) where
    drain-Keeps : (fuel : ℕ) (queue : List Entry) → Keeps P (drain fuel g queue)
    unfolding drain
    drain-Keeps zero queue = Keeps-raise _
    drain-Keeps (suc fuel) [] = Keeps-pure _
    drain-Keeps (suc fuel) (x ∷ queue) =
        Keeps-bind _ _ (visit-Keeps x queue)
          λ flow. next_round-Keeps (drain fuel g) flow (drain-Keeps fuel)

    pub advance_by_visits :
        (fuel : ℕ) (n : NodeId) (output : Option NodeOutput) (error : Option String)
        → Keeps P (advance_graph fuel g n output error)
    unfolding advance_graph
    advance_by_visits fuel n output error =
        Keeps-bind _ _ (drain-Keeps fuel _)
          λ emptied. Keeps-if emptied _ _ finish_graph-Keeps (Keeps-pure tt)

module _ {P : Store → Type 0} (w : Writes P) (g : GraphId) where
  pub make_ready-Keeps : (n : NodeId) (spec : NodeSpec) → Keeps P (make_ready g n spec)
  unfolding make_ready
  make_ready-Keeps n spec =
      Keeps-bind _ _ (w.status n _ _ _) λ _. Keeps-bind _ _ (w.event g _) λ _. Keeps-pure tt

  enable-Keeps : (n : NodeId) (spec : NodeSpec) → Keeps P (enable g n spec)
  unfolding enable
  enable-Keeps n (gather strategy) =
      Keeps-bind _ _ (Keeps-gets _) λ _. Keeps-bind _ _ (w.status n _ _ _) λ _. Keeps-pure _
  enable-Keeps n (task v h) = Keeps-bind _ _ (make_ready-Keeps n _) λ _. Keeps-pure _
  enable-Keeps n (scatter v h) = Keeps-bind _ _ (make_ready-Keeps n _) λ _. Keeps-pure _
  enable-Keeps n (sub_graph id) = Keeps-bind _ _ (make_ready-Keeps n _) λ _. Keeps-pure _

  pub check_and_ready-Keeps : (n : NodeId) → Keeps P (check_and_ready g n)
  unfolding check_and_ready
  check_and_ready-Keeps n = Keeps-bind _ _ (get_node-Keeps n) λ node.
      Keeps-bind _ _ (Keeps-gets _)
        λ counts. Keeps-if _ _ _ (enable-Keeps n node.spec) (Keeps-pure none)

module _ {P : Store → Type 0} (w : Writes P) where
  Writes→Steps : Steps P
  Writes→Steps = record {
    check = check_and_ready-Keeps w;
    event = w.event;
    graph = w.graph;
    deliver = w.deliver;
    notify = w.notify;
  }

module _ {P : Store → Type 0} (w : Writes P) (g : GraphId) where
  produce-Keeps :
      (n : NodeId) (output : Option NodeOutput) (error : Option String)
      → Keeps P (produce g n output error)
  unfolding produce
  produce-Keeps n output none =
      Keeps-bind _ _ (w.status n _ _ _) λ _. Keeps-bind _ _ (w.event g _) λ _. Keeps-pure _
  produce-Keeps n output (some message) =
      Keeps-bind _ _ (w.status n _ _ _) λ _. Keeps-bind _ _ (w.event g _) λ _. Keeps-pure _

  process-Keeps : (x : Entry) (queue : List Entry) → Keeps P (process g x queue)
  unfolding process
  process-Keeps x queue = Keeps-bind _ _ (produce-Keeps x.node x.output x.error) λ tokens.
      Keeps-bind _ _ (Keeps-gets _) λ edges.
        Keeps-bind _ _ (route_tokens-Keeps (Writes→Steps w) g edges tokens queue)
          λ r. settle-Keeps (Writes→Steps w) g x tokens r

  visit_found-Keeps :
      (x : Entry) (queue : List Entry) (found : Option Node) → Keeps P (visit_found g x queue found)
  visit_found-Keeps x queue none = Keeps-pure _
  visit_found-Keeps x queue (some row) = Keeps-if _ _ _ (Keeps-pure _) (process-Keeps x queue)

  visit-Keeps : (x : Entry) (queue : List Entry) → Keeps P (visit g x queue)
  unfolding visit
  visit-Keeps x queue =
      Keeps-bind _ _ (Keeps-attempt _ (get_node-Keeps x.node)) (visit_found-Keeps x queue)

  pub advance_graph-Keeps :
      (fuel : ℕ) (n : NodeId) (output : Option NodeOutput) (error : Option String)
      → Keeps P (advance_graph fuel g n output error)
  advance_graph-Keeps = advance_by_visits (Writes→Steps w) g visit-Keeps
