-- ===== src/Lattice/Safety.antt =====
-- One round of `advance_graph` in a sound store, and what it puts on the queue.
use mneme_substrate.Base.{
  true, Option, none, some, List, [], ◌∷◌, ◌++◌, String, ◌≡◌, refl, ap, ◌==◌, All, is_some,
  Bool-cases, inl, inr, Option-cases,
}
use mneme_substrate.Base.Exec.{pure, raise, attempt}
use mneme_substrate.Base.Exec.Safe.{Safe, Any, Safe-pure, Safe-if, Safe-bind, Safe-gets, Safe-fold}
use mneme_substrate.Lattice.Types.{GraphId, NodeId, Token, NodeOutput, GraphStatus, NodeStatus}
use mneme_substrate.Lattice.Store.{Node, Edge, outbound, get_node, find_node}
use mneme_substrate.Lattice.Engine.{
  Entry, Routing, push_gather, edge_passes, route_edge, route_token, route_tokens, produce,
  fail_graph, Flow, go_on, stopped, settle, process, visit, visit_found, is_terminal, finish_graph,
}
use mneme_substrate.Lattice.Sound.{
  Shape, IsSound, set_node_status-Safe, persist_event-Safe, update_graph_status-Safe,
  notify_graph-Safe, deliver_next-Safe, check_and_ready-Safe,
}

-- The queue with entries in front of it whose nodes satisfy `C`.
pub record IsPushed (C : NodeId → Type 0) (queue new : List Entry) : Type 0 where
  pub front : List Entry
  pub split : new ≡ front ++ queue
  pub each : All (λ (x : Entry). C x.node) front

abbrev pub Pushes : (NodeId → Type 0) → List Entry → Routing → Type 0
Pushes C queue r = IsPushed C queue r.queue

abbrev pub OnFlow : (NodeId → Type 0) → List Entry → Flow → Type 0
OnFlow C queue (go_on new) = IsPushed C queue new
OnFlow C queue stopped = Unit

-- An edge that a token may take: it leads to a node, and to one of `C` if that is a Gather.
pub record Leads (shape : Shape) (C : NodeId → Type 0) (e : Edge) : Type 0 where
  pub target : shape.present e.to_node ≡ true
  pub gather : shape.gathers e.to_node ≡ true → C e.to_node

push_gather-IsPushed :
    {C : NodeId → Type 0} (queue new : List Entry) (n : NodeId) (out : Option NodeOutput)
    → (is_some out ≡ true → C n)
    → IsPushed C queue new
    → IsPushed C queue (push_gather n out new)
push_gather-IsPushed queue new n none c h = h
push_gather-IsPushed queue new n (some o) c h = record {
  front = record { node = n; output = some o; error = none } ∷ h.front;
  split = ap (λ (q : List Entry). record { node = n; output = some o; error = none } ∷ q) h.split;
  each = (c refl, h.each);
}

pub All-Any : {A : Type 0} (xs : List A) → All (Any {A = A}) xs
All-Any [] = tt
All-Any (x ∷ xs) = (tt, All-Any xs)

-- What is asked of the edges that leave `n`.
abbrev pub Behind : Shape → (NodeId → Type 0) → NodeId → Edge → Type 0
Behind shape C n e = (e.from_node == n) ≡ true → Leads shape C e

outbound-Leads :
    (shape : Shape) (C : NodeId → Type 0) (n : NodeId) (edges : List Edge)
    → All (Behind shape C n) edges
    → All (Leads shape C) (outbound n edges)
unfolding outbound
outbound-Leads shape C n [] h = tt
outbound-Leads shape C n (e ∷ es) h = elim (Bool-cases (e.from_node == n)) [
  | inl here ↦ rw here (h.0 here, outbound-Leads shape C n es h.1)
  | inr other ↦ rw other (outbound-Leads shape C n es h.1)
]

module _ {shape : Shape} (g : GraphId) where
  fail_graph-Safe :
      (n : NodeId) (tokens : List Token) → Safe (IsSound shape) Any (fail_graph g n tokens)
  unfolding fail_graph
  fail_graph-Safe n tokens =
      Safe-bind _ _ (update_graph_status-Safe g GraphStatus.failed)
        λ _ _. Safe-bind _ _ (persist_event-Safe g _) λ _ _. notify_graph-Safe g

  produce-Safe :
      (n : NodeId) (output : Option NodeOutput) (error : Option String)
      → Safe (IsSound shape) Any (produce g n output error)
  unfolding produce
  produce-Safe n output none =
      Safe-bind _ _ (set_node_status-Safe n NodeStatus.complete output none)
        λ _ _. Safe-bind _ _ (persist_event-Safe g _) λ _ _. Safe-pure _ tt
  produce-Safe n output (some message) =
      Safe-bind _ _ (set_node_status-Safe n NodeStatus.failed none (some message))
        λ _ _. Safe-bind _ _ (persist_event-Safe g _) λ _ _. Safe-pure _ tt

look_up-Safe : {shape : Shape} (n : NodeId) → Safe (IsSound shape) Any (attempt (get_node n))
unfolding attempt get_node raise pure
look_up-Safe n = record {
  at = λ s h. elim (Option-cases (find_node n s.nodes)) [
    | inl missing ↦ rw missing (record { value = none; returns = refl; good = tt; holds = h })
    | inr (row, found) ↦ rw found (record { value = _; returns = refl; good = tt; holds = h })
  ];
}

module _ {shape : Shape} {C : NodeId → Type 0} (queue : List Entry) (g : GraphId) where
  route_edge-Safe :
      (token : Token) (r : Routing) (e : Edge)
      → Pushes C queue r
      → Leads shape C e
      → Safe (IsSound shape) (Pushes C queue) (route_edge g token r e)
  unfolding route_edge
  route_edge-Safe token r e h leads =
      Safe-if (edge_passes e.condition token.color) _ _
        (Safe-bind _ _ (deliver_next-Safe g token e) λ _ _.
          Safe-bind _ _ (check_and_ready-Safe g e.to_node leads.target) λ out only.
            Safe-pure _
              (push_gather-IsPushed queue r.queue e.to_node out (λ is. leads.gather (only is)) h))
        (Safe-pure r h)

  route_tokens-Safe :
      (edges : List Edge) (tokens : List Token)
      → All (Leads shape C) edges
      → Safe (IsSound shape) (Pushes C queue) (route_tokens g edges tokens queue)
  unfolding route_tokens route_token
  route_tokens-Safe edges tokens leads =
      Safe-fold {R = Any} _ _ tokens (record { front = []; split = refl; each = tt })
        (All-Any tokens)
        λ r token h _. Safe-fold _ r edges h leads λ r' e. route_edge-Safe token r' e

  settle-Safe :
      (entry : Entry) (tokens : List Token) (r : Routing)
      → Pushes C queue r
      → Safe (IsSound shape) (OnFlow C queue) (settle g entry tokens r)
  unfolding settle
  settle-Safe entry tokens r h =
      Safe-if _ _ _
        (Safe-bind _ _ (fail_graph-Safe g entry.node tokens) λ _ _. Safe-pure stopped tt)
        (Safe-pure (go_on r.queue) h)

  process-Safe :
      (entry : Entry)
      → All (Behind shape C entry.node) shape.edges
      → Safe (IsSound shape) (OnFlow C queue) (process g entry queue)
  unfolding process
  process-Safe entry behind =
      Safe-bind _ _ (produce-Safe g entry.node entry.output entry.error) λ tokens _.
        Safe-gets _ _ λ s h.
          (Safe-bind _ _
              (route_tokens-Safe (outbound entry.node s.edges) tokens
                (outbound-Leads shape C entry.node s.edges (rw h.edges_fixed behind)))
              λ r pushed. settle-Safe entry tokens r pushed).at
            s h

  visit_found-Safe :
      (entry : Entry) (found : Option Node)
      → All (Behind shape C entry.node) shape.edges
      → Safe (IsSound shape) (OnFlow C queue) (visit_found g entry queue found)
  visit_found-Safe entry none behind =
      Safe-pure (go_on queue) (record { front = []; split = refl; each = tt })
  visit_found-Safe entry (some node) behind =
      Safe-if (is_terminal node.status) _ _
        (Safe-pure (go_on queue) (record { front = []; split = refl; each = tt }))
        (process-Safe entry behind)

  pub visit-Safe :
      (entry : Entry)
      → All (Behind shape C entry.node) shape.edges
      → Safe (IsSound shape) (OnFlow C queue) (visit g entry queue)
  unfolding visit
  visit-Safe entry behind =
      Safe-bind _ _ (look_up-Safe entry.node) λ found _. visit_found-Safe entry found behind

pub finish_graph-Safe : {shape : Shape} (g : GraphId) → Safe (IsSound shape) Any (finish_graph g)
unfolding finish_graph
finish_graph-Safe g = Safe-gets _ _ λ s h.
    (Safe-if _ _ _
        (Safe-bind _ _ (update_graph_status-Safe g GraphStatus.complete)
          λ _ _. Safe-bind _ _ (persist_event-Safe g _) λ _ _. notify_graph-Safe g)
        (notify_graph-Safe g)).at
      s h
