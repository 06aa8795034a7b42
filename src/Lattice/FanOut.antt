-- ===== src/Lattice/FanOut.antt =====
-- Tokens that arrive at nodes which are already under way.
use mneme_substrate.Base.{false, Option, none, some, List, ◌≡◌, refl, All}
use native.Mathlib.Nat.{le_refl}
use mneme_substrate.Base.Exec.{modify}
use mneme_substrate.Base.Exec.Safe.{
  Lands, Safe, Any, Safe-pure, Safe-if, Safe-bind, Safe-gets, Safe-fold,
}
use mneme_substrate.Lattice.Types.{GraphId, NodeId, Token, NodeOutput}
use mneme_substrate.Lattice.Store.{
  Node, Edge, Store, find_node, count_on_edge, count_tokens_on_edge, deliver_token,
}
use mneme_substrate.Lattice.Engine.{
  Entry, Routing, can_be_enabled, check_and_ready, edge_passes, deliver_next, route_edge,
  route_token, route_tokens,
}
use mneme_substrate.Lattice.Rows.{IsNumbered, IsNumbered-append, taken-fresh}
use mneme_substrate.Lattice.Join.{check_and_ready_joined}
use mneme_substrate.Lattice.Safety.{All-Any}

-- The node is Ready, Running or Failed.
pub record IsBusy (nodes : List Node) (n : NodeId) : Type 0 where
  pub row : Node
  pub found : find_node n nodes ≡ some row
  pub busy : can_be_enabled row.status ≡ false

-- The rows of the nodes and the log are those of `s`.
pub record IsQuiet (s t : Store) : Type 0 where
  pub nodes_same : t.nodes ≡ s.nodes
  pub events_same : t.events ≡ s.events
  pub numbered : IsNumbered t.tokens t.tokens

module _ (s : Store) (g : GraphId) where
  deliver-IsQuiet : (token : Token) (e : Edge) → Safe (IsQuiet s) Any (deliver_next g token e)
  unfolding deliver_next deliver_token count_tokens_on_edge modify
  deliver-IsQuiet token e = Safe-gets _ _ λ t h.
      let free =
        taken-fresh e.id (count_on_edge e.id t.tokens) t.tokens t.tokens h.numbered (le_refl _) in
      rw free (record {
        value = tt;
        returns = refl;
        good = tt;
        holds = record {
          nodes_same = h.nodes_same;
          events_same = h.events_same;
          numbered = IsNumbered-append t.tokens _ h.numbered refl;
        };
      })

  check-IsQuiet :
      (n : NodeId)
      → IsBusy s.nodes n
      → Safe (IsQuiet s) (λ (out : Option NodeOutput). out ≡ none) (check_and_ready g n)
  check-IsQuiet n b = record {
    at = λ t h.
        rw (check_and_ready_joined g n t b.row (rw h.nodes_same b.found))
          (rw b.busy (record { value = none; returns = refl; good = refl; holds = h }));
  }

  module _ (queue : List Entry) where
    abbrev KeepsQueue : Routing → Type 0
    KeepsQueue r = r.queue ≡ queue

    route_edge-IsQuiet :
        (token : Token) (r : Routing) (e : Edge)
        → KeepsQueue r
        → IsBusy s.nodes e.to_node
        → Safe (IsQuiet s) KeepsQueue (route_edge g token r e)
    unfolding route_edge
    route_edge-IsQuiet token r e same b =
        Safe-if (edge_passes e.condition token.color) _ _
          (Safe-bind _ _ (deliver-IsQuiet token e) λ _ _.
            Safe-bind _ _ (check-IsQuiet e.to_node b) λ out is_none. Safe-pure _ (rw is_none same))
          (Safe-pure r same)

    route_tokens-IsQuiet :
        (edges : List Edge) (tokens : List Token)
        → All (λ (e : Edge). IsBusy s.nodes e.to_node) edges
        → Safe (IsQuiet s) KeepsQueue (route_tokens g edges tokens queue)
    unfolding route_tokens route_token
    route_tokens-IsQuiet edges tokens busy =
        Safe-fold {R = Any} _ _ tokens refl (All-Any tokens)
          λ r token same _. Safe-fold _ r edges same busy (route_edge-IsQuiet token)

-- However many tokens a node sends, those that arrive at nodes which are Ready, Running or Failed
-- start nothing: routing succeeds, no node changes, no event is logged (so there is no second
-- `NodeReady`), and the queue stays as it was.
pub fan_out_once :
    (g : GraphId) (edges : List Edge) (tokens : List Token) (queue : List Entry) (s : Store)
    → IsNumbered s.tokens s.tokens
    → All (λ (e : Edge). IsBusy s.nodes e.to_node) edges
    → Lands (IsQuiet s) (λ (r : Routing). r.queue ≡ queue) (route_tokens g edges tokens queue s)
fan_out_once g edges tokens queue s numbered busy =
    (route_tokens-IsQuiet s g queue edges tokens busy).at s
      (record { nodes_same = refl; events_same = refl; numbered = numbered })
