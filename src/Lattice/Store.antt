-- ===== src/Lattice/Store.antt =====
-- src/activations/lattice/storage.rs: the tables, the notifiers, and one function for each
-- statement that the storage runs. A statement can fail only by a constraint: a primary key, or a
-- foreign key (`sqlx` turns those on for SQLite).
use mneme_substrate.Base.{
  ℕ, suc, String, Bool, true, false, not, ◌&&◌, Option, none, some, List, [], ◌∷◌, ◌++◌, map,
  if◌then◌else◌, ◌==◌, ltb, length, filter, any, count, sort_by,
}
use mneme_substrate.Base.Exec.{Exec, pure, raise, modify}
use mneme_substrate.Base.Json.{Value}
use mneme_substrate.Lattice.Types.{
  GraphId, NodeId, EdgeId, Token, NodeOutput, JoinType, NodeSpec, EdgeCondition, NodeStatus,
  GraphStatus, LatticeEvent,
}

pub record GraphRow : Type 0 where
  pub id : GraphId
  pub metadata : Value
  pub status : GraphStatus
  pub created_at : ℕ
  pub parent_graph_id : Option GraphId

-- A row of `lattice_nodes`, and the `LatticeNode` that is read from it.
pub record Node : Type 0 where
  pub id : NodeId
  pub graph_id : GraphId
  pub spec : NodeSpec
  pub status : NodeStatus
  pub join_type : JoinType
  pub output : Option NodeOutput
  pub error : Option String
  pub created_at : ℕ
  pub completed_at : Option ℕ

pub record Edge : Type 0 where
  pub id : EdgeId
  pub graph_id : GraphId
  pub from_node : NodeId
  pub to_node : NodeId
  pub condition : Option EdgeCondition

pub record EdgeToken : Type 0 where
  pub edge_id : EdgeId
  pub graph_id : GraphId
  pub token : Token
  pub seq : ℕ

pub record EventRow : Type 0 where
  pub seq : ℕ
  pub graph_id : GraphId
  pub event : LatticeEvent
  pub created_at : ℕ

-- The `Notify` of a graph, with the permit that `notify_one` leaves.
pub record Notifier : Type 0 where
  pub graph_id : GraphId
  pub permit : Bool

pub record Store : Type 0 where
  pub graphs : List GraphRow
  pub nodes : List Node
  pub edges : List Edge
  pub tokens : List EdgeToken
  pub events : List EventRow
  -- SQLite's AUTOINCREMENT counter of `lattice_events`.
  pub last_seq : ℕ
  pub notifiers : List Notifier
  -- The reading of `current_timestamp()`.
  pub now : ℕ

pub data Error : Type 0 where
  node_not_found : NodeId → Error
  graph_not_found : GraphId → Error
  not_in_graph : NodeId → GraphId → Error
  constraint : Error
  -- The model's own: the fuel of a loop ran out.
  out_of_fuel : Error

abbrev pub Action : Type 0 → Type 0
Action A = Exec Store Error A

-- The rows by their keys.
abbrev pub has_graph : GraphId → Store → Bool
has_graph g s = any (λ (r : GraphRow). r.id == g) s.graphs

abbrev pub has_node : NodeId → Store → Bool
has_node n s = any (λ (r : Node). r.id == n) s.nodes

unfoldable pub find_node : NodeId → List Node → Option Node
find_node n [] = none
find_node n (r ∷ rs) = if r.id == n then some r else find_node n rs

unfoldable pub find_graph : GraphId → List GraphRow → Option GraphRow
find_graph g [] = none
find_graph g (r ∷ rs) = if r.id == g then some r else find_graph g rs

-- `row_to_node`: no query selects the column `join_type`, so `try_get` fails and the default stands.
abbrev pub row_to_node : Node → Node
row_to_node r = record r { join_type = JoinType.all_inputs }

abbrev fetched_node : NodeId → Option Node → Action Node
fetched_node n none = raise (node_not_found n)
fetched_node n (some r) = pure (row_to_node r)

unfoldable pub get_node : NodeId → Action Node
get_node n s = fetched_node n (find_node n s.nodes) s

unfoldable pub get_nodes : GraphId → Store → List Node
get_nodes g s =
    map row_to_node
      (sort_by (λ (r : Node). r.created_at) (filter (λ (r : Node). r.graph_id == g) s.nodes))

unfoldable pub count_nodes : GraphId → Store → ℕ
count_nodes g s = count (λ (r : Node). r.graph_id == g) s.nodes

unfoldable pub count_edges : GraphId → Store → ℕ
count_edges g s = count (λ (e : Edge). e.graph_id == g) s.edges

unfoldable pub get_inbound_edges : NodeId → Store → List NodeId
get_inbound_edges n s =
    map (λ (e : Edge). e.from_node) (filter (λ (e : Edge). e.to_node == n) s.edges)

unfoldable pub get_outbound_edges : NodeId → Store → List NodeId
get_outbound_edges n s =
    map (λ (e : Edge). e.to_node) (filter (λ (e : Edge). e.from_node == n) s.edges)

unfoldable pub outbound : NodeId → List Edge → List Edge
outbound n edges = filter (λ (e : Edge). e.from_node == n) edges

-- The edges into `n` from another node: the ones that the join condition reads.
unfoldable pub joining : NodeId → List Edge → List Edge
joining n edges = filter (λ (e : Edge). (e.to_node == n) && not (e.from_node == e.to_node)) edges

-- Exclude self-loop edges when determining root nodes.
unfoldable pub is_root : GraphId → List Edge → Node → Bool
is_root g edges r =
    (r.graph_id == g)
    && not (
        any
          (λ (e : Edge). (e.graph_id == g) && not (e.from_node == e.to_node) && (e.to_node == r.id))
          edges)

unfoldable pub get_nodes_with_no_predecessors : GraphId → Store → List Node
unfolding is_root
get_nodes_with_no_predecessors g s =
    map row_to_node (sort_by (λ (r : Node). r.created_at) (filter (is_root g s.edges) s.nodes))

abbrev pub completion_time : NodeStatus → ℕ → Option ℕ
completion_time NodeStatus.complete now = some now
completion_time NodeStatus.failed now = some now
completion_time _ now = none

unfoldable pub update_node : NodeId → (Node → Node) → List Node → List Node
update_node n f [] = []
update_node n f (r ∷ rs) = (if r.id == n then f r else r) ∷ update_node n f rs

unfoldable pub write_status : NodeStatus → Option NodeOutput → Option String → ℕ → Node → Node
write_status status output error now r = record r {
  status = status;
  output = output;
  error = error;
  completed_at = completion_time status now;
}

unfoldable pub set_node_status :
    NodeId → NodeStatus → Option NodeOutput → Option String → Action (Unit {0})
set_node_status n status output error =
    modify
      (λ s. record s { nodes = update_node n (write_status status output error s.now) s.nodes })

unfoldable pub reset_node_to_pending : NodeId → Action (Unit {0})
reset_node_to_pending n = modify (λ s. record s {
  nodes = update_node n (write_status NodeStatus.pending none none s.now) s.nodes;
})

unfoldable pub update_graph : GraphId → GraphStatus → List GraphRow → List GraphRow
update_graph g status [] = []
update_graph g status (r ∷ rs) =
    (if r.id == g then record r { status = status } else r) ∷ update_graph g status rs

unfoldable pub update_graph_status : GraphId → GraphStatus → Action (Unit {0})
update_graph_status g status = modify (λ s. record s { graphs = update_graph g status s.graphs })

abbrev pub found_status : Option GraphRow → Option GraphStatus
found_status none = none
found_status (some r) = some r.status

-- `none`: the row is missing.
unfoldable pub get_graph_status : GraphId → Store → Option GraphStatus
get_graph_status g s = found_status (find_graph g s.graphs)

-- Tokens on edges.
unfoldable pub count_on_edge : EdgeId → List EdgeToken → ℕ
count_on_edge e ts = count (λ (t : EdgeToken). t.edge_id == e) ts

unfoldable pub count_tokens_on_edge : EdgeId → Store → ℕ
unfolding count_on_edge
count_tokens_on_edge e s = count_on_edge e s.tokens

unfoldable pub taken : EdgeId → ℕ → List EdgeToken → Bool
taken e seq ts = any (λ (t : EdgeToken). (t.edge_id == e) && (t.seq == seq)) ts

abbrev pub put_token : EdgeToken → Store → Store
put_token t s = record s { tokens = s.tokens ++ t ∷ [] }

unfoldable pub deliver_token : EdgeId → GraphId → Token → ℕ → Action (Unit {0})
unfolding taken
deliver_token e g token seq s =
    (if taken e seq s.tokens
        then raise constraint
        else modify (put_token (record { edge_id = e; graph_id = g; token = token; seq = seq })))
      s

-- The edges that have a token.
unfoldable pub delivered_edges : List EdgeToken → List Edge → List Edge
delivered_edges ts es = filter (λ (e : Edge). any (λ (t : EdgeToken). t.edge_id == e.id) ts) es

unfoldable pub count_edges_with_tokens : NodeId → Store → ℕ × ℕ
count_edges_with_tokens n s =
    (length (delivered_edges s.tokens (joining n s.edges)), length (joining n s.edges))

-- The join of `lattice_edge_tokens` with `lattice_edges`, ordered by the tokens' numbers.
unfoldable pub get_node_inputs : NodeId → Store → List Token
get_node_inputs n s =
    map (λ (t : EdgeToken). t.token)
      (sort_by (λ (t : EdgeToken). t.seq)
        (filter
          (λ (t : EdgeToken). any (λ (e : Edge). (e.id == t.edge_id) && (e.to_node == n)) s.edges)
          s.tokens))

-- The event log.
unfoldable pub persist_event : GraphId → LatticeEvent → Action ℕ
persist_event g event s =
    let row : EventRow = record {
      seq = suc s.last_seq;
      graph_id = g;
      event = event;
      created_at = s.now;
    } in
    (pure (suc s.last_seq) (record s { events = s.events ++ row ∷ []; last_seq = suc s.last_seq }))

unfoldable pub events_after : GraphId → ℕ → List EventRow → List (ℕ × LatticeEvent)
events_after g cursor [] = []
events_after g cursor (r ∷ rs) =
    let rest = events_after g cursor rs in
    if (r.graph_id == g) && ltb cursor r.seq then (r.seq, r.event) ∷ rest else rest

unfoldable pub get_events_after : GraphId → ℕ → Store → List (ℕ × LatticeEvent)
unfolding events_after
get_events_after g cursor s = events_after g cursor (sort_by (λ (r : EventRow). r.seq) s.events)

-- Wake the `execute()` stream of a graph that has one.
unfoldable pub permit : GraphId → List Notifier → List Notifier
permit g [] = []
permit g (n ∷ ns) = (if n.graph_id == g then record n { permit = true } else n) ∷ permit g ns

unfoldable pub notify_graph : GraphId → Action (Unit {0})
notify_graph g = modify (λ s. record s { notifiers = permit g s.notifiers })

unfoldable pub get_or_create_notifier : GraphId → Action (Unit {0})
get_or_create_notifier g = modify (λ s.
    if any (λ (n : Notifier). n.graph_id == g) s.notifiers
    then s
    else record s { notifiers = s.notifiers ++ record { graph_id = g; permit = false } ∷ [] })
