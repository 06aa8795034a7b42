-- ===== src/Lattice/Sound.antt =====
-- What the engine relies on in a store: every edge leads to a node, and the tokens of an edge are
-- numbered from one.
use mneme_substrate.Base.{
  suc, Bool, true, Option, none, some, List, String, ◌≡◌, refl, sym, ◌∙◌, is_some,
}
use native.Mathlib.Nat.{le_refl}
use mneme_substrate.Base.Exec.{pure, modify, ◌>>◌}
use mneme_substrate.Base.Exec.Safe.{
  Safe, Any, Safe-pure, Safe-if, Safe-modify, Safe-bind, Safe-gets,
}
use mneme_substrate.Lattice.Types.{
  GraphId, NodeId, Token, NodeOutput, NodeSpec, task, scatter, gather, sub_graph, NodeStatus,
  GraphStatus, LatticeEvent,
}
use mneme_substrate.Lattice.Store.{
  Node, Edge, EdgeToken, Store, has_node, row_to_node, get_node, set_node_status,
  update_graph_status, count_tokens_on_edge, count_on_edge, put_token, deliver_token, persist_event,
  notify_graph,
}
use mneme_substrate.Lattice.Engine.{make_ready, enable, check_and_ready, deliver_next}
use mneme_substrate.Lattice.Rows.{
  is_gather, gather_at, has_node-written, gather_at-written, gather_at-found, find_node-of_any,
  IsNumbered, IsNumbered-append, taken-fresh,
}

-- What the engine never changes: the edges, which nodes there are, and which are Gathers.
pub record Shape : Type 0 where
  pub edges : List Edge
  pub present : NodeId → Bool
  pub gathers : NodeId → Bool

abbrev pub shape_of : Store → Shape
shape_of s = record {
  edges = s.edges;
  present = λ n. has_node n s;
  gathers = λ n. gather_at n s.nodes;
}

pub record IsSound (shape : Shape) (s : Store) : Type 0 where
  pub edges_fixed : s.edges ≡ shape.edges
  pub nodes_fixed : (n : NodeId) → has_node n s ≡ shape.present n
  pub kinds_fixed : (n : NodeId) → gather_at n s.nodes ≡ shape.gathers n
  pub numbered : IsNumbered s.tokens s.tokens

-- Only a Gather hands an output back.
abbrev pub OnlyGather : Shape → NodeId → Option NodeOutput → Type 0
OnlyGather shape n output = is_some output ≡ true → shape.gathers n ≡ true

module _ {shape : Shape} where
  pub set_node_status-Safe :
      (n : NodeId) (status : NodeStatus) (output : Option NodeOutput) (error : Option String)
      → Safe (IsSound shape) Any (set_node_status n status output error)
  unfolding set_node_status
  set_node_status-Safe n status output error = Safe-modify _ λ s h. record {
    edges_fixed = h.edges_fixed;
    nodes_fixed = λ m. has_node-written status output error s.now n m s.nodes ∙ h.nodes_fixed m;
    kinds_fixed = λ m. gather_at-written status output error s.now n m s.nodes ∙ h.kinds_fixed m;
    numbered = h.numbered;
  }

  pub persist_event-Safe :
      (g : GraphId) (event : LatticeEvent) → Safe (IsSound shape) Any (persist_event g event)
  unfolding persist_event pure
  persist_event-Safe g event = record {
    at = λ s h. record {
      value = suc s.last_seq;
      returns = refl;
      good = tt;
      holds = record {
        edges_fixed = h.edges_fixed;
        nodes_fixed = h.nodes_fixed;
        kinds_fixed = h.kinds_fixed;
        numbered = h.numbered;
      };
    };
  }

  pub update_graph_status-Safe :
      (g : GraphId) (status : GraphStatus) → Safe (IsSound shape) Any (update_graph_status g status)
  unfolding update_graph_status
  update_graph_status-Safe g status = Safe-modify _ λ s h. record {
    edges_fixed = h.edges_fixed;
    nodes_fixed = h.nodes_fixed;
    kinds_fixed = h.kinds_fixed;
    numbered = h.numbered;
  }

  pub notify_graph-Safe : (g : GraphId) → Safe (IsSound shape) Any (notify_graph g)
  unfolding notify_graph
  notify_graph-Safe g = Safe-modify _ λ s h. record {
    edges_fixed = h.edges_fixed;
    nodes_fixed = h.nodes_fixed;
    kinds_fixed = h.kinds_fixed;
    numbered = h.numbered;
  }

  put_token-IsSound :
      (t : EdgeToken) (s : Store)
      → t.seq ≡ suc (count_on_edge t.edge_id s.tokens)
      → IsSound shape s
      → IsSound shape (put_token t s)
  put_token-IsSound t s e h = record {
    edges_fixed = h.edges_fixed;
    nodes_fixed = h.nodes_fixed;
    kinds_fixed = h.kinds_fixed;
    numbered = IsNumbered-append s.tokens t h.numbered e;
  }

  -- The delivery that follows a count is never refused by the primary key.
  pub deliver_next-Safe :
      (g : GraphId) (token : Token) (e : Edge) → Safe (IsSound shape) Any (deliver_next g token e)
  unfolding deliver_next deliver_token count_tokens_on_edge modify
  deliver_next-Safe g token e = Safe-gets _ _ λ s h.
      let free =
        taken-fresh e.id (count_on_edge e.id s.tokens) s.tokens s.tokens h.numbered (le_refl _) in
      rw free
        (record { value = tt; returns = refl; good = tt; holds = put_token-IsSound _ s refl h })

  pub get_node-Safe :
      (n : NodeId)
      → shape.present n ≡ true
      → Safe (IsSound shape) (λ (node : Node). is_gather node.spec ≡ shape.gathers n) (get_node n)
  unfolding get_node pure
  get_node-Safe n here = record {
    at = λ s h.
        let (row, found) = find_node-of_any n s.nodes (h.nodes_fixed n ∙ here) in
        rw found (record {
          value = row_to_node row;
          returns = refl;
          good = sym (gather_at-found n s.nodes found) ∙ h.kinds_fixed n;
          holds = h;
        });
  }

  pub make_ready-Safe :
      (g : GraphId) (n : NodeId) (spec : NodeSpec) → Safe (IsSound shape) Any (make_ready g n spec)
  unfolding make_ready
  make_ready-Safe g n spec =
      Safe-bind _ _ (set_node_status-Safe n NodeStatus.ready none none)
        λ _ _. Safe-bind _ _ (persist_event-Safe g _) λ _ _. Safe-pure tt tt

  leave_to_caller :
      (g : GraphId) (n : NodeId) (spec : NodeSpec)
      → Safe (IsSound shape) (OnlyGather shape n) (do make_ready g n spec; pure none)
  leave_to_caller g n spec =
      Safe-bind _ _ (make_ready-Safe g n spec) λ _ _. Safe-pure none (λ e. absurd (cc e))

  enable-Safe :
      (g : GraphId) (n : NodeId) (spec : NodeSpec)
      → is_gather spec ≡ shape.gathers n
      → Safe (IsSound shape) (OnlyGather shape n) (enable g n spec)
  unfolding enable
  enable-Safe g n (gather strategy) kind = Safe-gets _ _ λ s h.
      (Safe-bind _ _ (set_node_status-Safe n NodeStatus.running none none)
          λ _ _. Safe-pure (some _) (λ _. sym kind)).at
        s h
  enable-Safe g n (task v h) kind = leave_to_caller g n (task v h)
  enable-Safe g n (scatter v h) kind = leave_to_caller g n (scatter v h)
  enable-Safe g n (sub_graph id) kind = leave_to_caller g n (sub_graph id)

  pub check_and_ready-Safe :
      (g : GraphId) (n : NodeId)
      → shape.present n ≡ true
      → Safe (IsSound shape) (OnlyGather shape n) (check_and_ready g n)
  unfolding check_and_ready
  check_and_ready-Safe g n here = Safe-bind _ _ (get_node-Safe n here) λ node kind.
      Safe-gets _ _ λ s h.
        (Safe-if _ _ _ (enable-Safe g n node.spec kind) (Safe-pure none (λ e. absurd (cc e)))).at s
          h
