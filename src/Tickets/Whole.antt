-- ===== src/Tickets/Whole.antt =====
-- The ticket compiler and the lattice together.
use mathlib.Core.List.{Memᴰ}
use mathlib.Core.List.Memᴰ
use mathlib.Core.Path.{subst}
use text.Mathlib.TextEquality.{eq_iff}
use mneme_substrate.Base.{
  ℕ, String, Bool, true, false, some, List, [], ◌∷◌, map, All, ◌≡◌, refl, sym, ap, ok, is_some,
  if◌then◌else◌,
}
use mneme_substrate.Base.Json.{Value}
use mneme_substrate.Base.Text.{get, same_text}
use mneme_substrate.Lattice.Types.{GraphId, NodeId, EdgeId}
use mneme_substrate.Lattice.Store.{Store, has_graph, has_node}
use mneme_substrate.Tickets.Body.{ParsedTicket}
use mneme_substrate.Tickets.Graph.{OrchaNodeDef, OrchaEdgeDef, CompiledGraph, graph_of}
use mneme_substrate.Tickets.Shape.{node_ids}
use mneme_substrate.Tickets.Known.{IsTicket}
use mneme_substrate.Tickets.Validated.{edges_known}
use mneme_substrate.Tickets.Child.{IdMap, build_child_graph}
use mneme_substrate.Tickets.Rows.{id_map, has_edge, AreNew, uuids, IsWired}
use mneme_substrate.Tickets.Built.{built_store, build_child_graph-adds}

-- Definitions with the keys that are generated for them.
abbrev pub defs {ℓ} : {A : Type ℓ} → List (ℕ × A) → List A
defs ps = map (λ p. p.1) ps

get-cons :
    (k j : String) (n : NodeId) (ids : IdMap)
    → is_some (get k ids) ≡ true
    → is_some (get k ((j, n) ∷ ids)) ≡ true
get-cons k j n ids known = go (same_text j k)
  where
    go : (b : Bool) → is_some (if b then some n else get k ids) ≡ true
    go true = refl
    go false = known

id_map-keeps :
    (k : String) (nodes : List (NodeId × OrchaNodeDef)) (ids : IdMap)
    → is_some (get k ids) ≡ true
    → is_some (get k (id_map ids nodes)) ≡ true
id_map-keeps k [] ids known = known
id_map-keeps k ((n, def) ∷ nodes) ids known =
    id_map-keeps k nodes ((def.id, n) ∷ ids) (get-cons k def.id n ids known)

id_map-Mem :
    (k : String) (nodes : List (NodeId × OrchaNodeDef)) (ids : IdMap)
    → Memᴰ k (node_ids (defs nodes))
    → is_some (get k (id_map ids nodes)) ≡ true
id_map-Mem k [] ids m = absurd (Memᴰ.not-nil m)
id_map-Mem k ((n, def) ∷ nodes) ids (Memᴰ.head eq) =
    id_map-keeps k nodes ((def.id, n) ∷ ids)
      (ap (λ b. is_some (if b then some n else get k ids)) ((eq_iff def.id k).1 (sym eq)))
id_map-Mem k ((n, def) ∷ nodes) ids (Memᴰ.tail m) = id_map-Mem k nodes ((def.id, n) ∷ ids) m

All-IsWired :
    (ids : IdMap) (edges : List (EdgeId × OrchaEdgeDef))
    → ((e : OrchaEdgeDef)
        → Memᴰ e (defs edges)
        → (is_some (get e.from ids) ≡ true) × (is_some (get e.to ids) ≡ true))
    → All (IsWired ids) edges
All-IsWired ids [] known = tt
All-IsWired ids ((n, def) ∷ edges) known =
    (known def (Memᴰ.head refl), All-IsWired ids edges (λ e m. known e (Memᴰ.tail m)))

-- A plan that compiles and whose dependencies are ids of its own tickets is built as a child graph
-- of any graph of the store, one row for each node and each edge of it, if the keys that are
-- generated are new.
pub plan_builds :
    (ts : List ParsedTicket) {g : CompiledGraph} (id parent : GraphId) (metadata : Value)
    (nodes : List (NodeId × OrchaNodeDef)) (edges : List (EdgeId × OrchaEdgeDef)) (s : Store)
    → graph_of ts ≡ ok g
    → All (λ (t : ParsedTicket). All (λ dep. IsTicket dep ts) t.deps) ts
    → defs nodes ≡ g.nodes
    → defs edges ≡ g.edges
    → has_graph id s ≡ false
    → has_graph parent s ≡ true
    → AreNew (λ k. has_node k s) (uuids nodes)
    → AreNew (λ k. has_edge k s) (uuids edges)
    → build_child_graph id parent metadata nodes edges s
      ≡ (ok (id, id_map [] nodes), built_store id parent metadata nodes edges s)
plan_builds ts {g = g} id parent metadata nodes edges s built known nodes_of edges_of fresh there
      new_nodes new_edges =
    let here = λ (k : String) (m : Memᴰ k (node_ids g.nodes)).
      id_map-Mem k nodes [] (subst (λ ns. Memᴰ k (node_ids ns)) (sym nodes_of) m) in
    build_child_graph-adds id parent metadata nodes edges s fresh there new_nodes new_edges (
      All-IsWired (id_map [] nodes) edges λ e m.
        let (from, to) = edges_known ts built known e (subst (λ es. Memᴰ e es) edges_of m) in
        (here e.from from, here e.to to))
