-- ===== src/Lattice/Join.antt =====
-- When a node becomes enabled: the counts of `count_edges_with_tokens` against the edges that have
-- and have not delivered, and `check_and_ready` on every branch.
use mneme_substrate.Base.{
  ◌≤◌, Bool, true, false, not, ◌&&◌, Option, none, some, List, [], ◌∷◌, ◌≡◌, refl, arith, ◌==◌, ltb,
  any, all, length, is_empty, if◌then◌else◌, ok,
}
use mneme_substrate.Base.Exec.{pure, ◌>>=◌}
use mneme_substrate.Lattice.Types.{GraphId, NodeId, NodeOutput, all_inputs}
use mneme_substrate.Lattice.Store.{
  Node, Edge, EdgeToken, Store, Action, find_node, get_node, joining, delivered_edges,
  count_edges_with_tokens,
}
use mneme_substrate.Lattice.Engine.{enabled, enable, can_be_enabled, check_and_ready}

abbrev pub has_token : List EdgeToken → Edge → Bool
has_token ts e = any (λ (t : EdgeToken). t.edge_id == e.id) ts

length-delivered-le :
    (ts : List EdgeToken) (es : List Edge) → length (delivered_edges ts es) ≤ length es
unfolding delivered_edges
length-delivered-le ts [] = omega arith
length-delivered-le ts (e ∷ es) = ground (arith, length-delivered-le ts es)

-- The two counts agree exactly when every edge has a token.
delivered_all :
    (ts : List EdgeToken) (es : List Edge)
    → (length (delivered_edges ts es) == length es) ≡ all (has_token ts) es
unfolding delivered_edges
delivered_all ts [] = refl
delivered_all ts (e ∷ es) = ground (arith, delivered_all ts es, length-delivered-le ts es)

-- Every edge from another node has a token, and there is such an edge.
abbrev pub is_joined : NodeId → Store → Bool
is_joined n s = all (has_token s.tokens) (joining n s.edges) && not (is_empty (joining n s.edges))

positive_length : (es : List Edge) → ltb 0 (length es) ≡ not (is_empty es)
positive_length [] = refl
positive_length (e ∷ es) = ground arith

enabled-is_joined :
    (n : NodeId) (s : Store) → enabled all_inputs (count_edges_with_tokens n s) ≡ is_joined n s
unfolding enabled count_edges_with_tokens
enabled-is_joined n s =
    rw (delivered_all s.tokens (joining n s.edges)) (rw (positive_length (joining n s.edges)))

if_at :
    (b : Bool) (m : Action (Option NodeOutput)) (s : Store)
    → (if b then m else pure none) s ≡ (if b then m s else (ok none, s))
unfolding pure
if_at true m s = refl
if_at false m s = refl

-- On a node that the store has, `check_and_ready` enables it exactly when it is Pending or Complete
-- and every inbound edge from another node (there is at least one) holds a token; otherwise it
-- changes nothing and returns no output. The column `join_type` plays no part: no query reads it.
pub check_and_ready_joined :
    (g : GraphId) (n : NodeId) (s : Store) (row : Node)
    → find_node n s.nodes ≡ some row
    → check_and_ready g n s
      ≡ (if can_be_enabled row.status && is_joined n s then enable g n row.spec s else (ok none, s))
unfolding check_and_ready get_node ◌>>=◌
check_and_ready_joined g n s row found = rw found (
    rw (enabled-is_joined n s)
      (if_at (can_be_enabled row.status && is_joined n s) (enable g n row.spec) s))
