-- ===== src/Tickets/Rows.antt =====
-- The rows of a definition, and the loop of `build_child_graph` over its nodes.
use mathlib.Core.Bool.{or-false, or-true, ◌&&◌}
use mathlib.Core.Path.{subst}
use mathlib.Core.List.{append_assoc, append-nil}
use mneme_substrate.Base.{
  ℕ, String, Bool, true, false, ◌||◌, none, List, [], ◌∷◌, ◌++◌, any, map, All, ◌==◌, ◌≡◌, refl,
  sym, ap, ◌∙◌, ok, is_some, unwrap_or, ==_refl,
}
use mneme_substrate.Base.Exec.{pure, fold_exec}
use mneme_substrate.Base.Text.{get}
use mneme_substrate.Lattice.Types.{GraphId, NodeId, EdgeId, NodeSpec}
use mneme_substrate.Lattice.Store.{Store, Node, Edge, has_node}
use mneme_substrate.Lattice.Edit.{in_graph, new_node, put_node}
use mneme_substrate.Tickets.Graph.{OrchaNodeDef, OrchaEdgeDef}
use mneme_substrate.Tickets.Child.{failed_node, IdMap, lattice_spec, add_def}
use mneme_substrate.Base.Members.{any-++}
use mneme_substrate.Tickets.Wired.{IsIdle, IsIdle-same, fold-ok, bind-ok, map_err-ok, add_node-new}

-- The last node that was added under each id.
abbrev pub id_map : IdMap → List (NodeId × OrchaNodeDef) → IdMap
id_map ids [] = ids
id_map ids ((uuid, def) ∷ defs) = id_map ((def.id, uuid) ∷ ids) defs

abbrev pub node_row : GraphId → Store → NodeId × OrchaNodeDef → Node
node_row g s (uuid, def) = new_node uuid g (lattice_spec def.spec) s

abbrev pub edge_row : GraphId → IdMap → EdgeId × OrchaEdgeDef → Edge
edge_row g ids (uuid, def) = record {
  id = uuid;
  graph_id = g;
  from_node = unwrap_or 0 (get def.from ids);
  to_node = unwrap_or 0 (get def.to ids);
  condition = none;
}

abbrev pub has_edge : EdgeId → Store → Bool
has_edge id s = any (λ (e : Edge). e.id == id) s.edges

-- Keys that are neither taken nor repeated.
abbrev pub AreNew : (ℕ → Bool) → List ℕ → Type 0
AreNew taken [] = Unit
AreNew taken (k ∷ ks) = (taken k ≡ false) × AreNew (λ j. taken j || (k == j)) ks

abbrev pub uuids {ℓ} : {A : Type ℓ} → List (ℕ × A) → List ℕ
uuids ps = map (λ p. p.0) ps

-- Both ends of the edge are ids of nodes.
abbrev pub IsWired : IdMap → EdgeId × OrchaEdgeDef → Type 0
IsWired ids (_, def) = (is_some (get def.from ids) ≡ true) × (is_some (get def.to ids) ≡ true)

-- All the nodes that have an id are in the graph.
abbrev pub IsMapped : GraphId → IdMap → Store → Type 0
IsMapped g ids s = All (λ (p : String × NodeId). in_graph g p.1 s ≡ true) ids

abbrev pub add_nodes : GraphId → Store → List (NodeId × OrchaNodeDef) → Store
add_nodes g s defs = record s { nodes = s.nodes ++ map (node_row g s) defs }

abbrev pub add_edges : GraphId → IdMap → Store → List (EdgeId × OrchaEdgeDef) → Store
add_edges g ids s defs = record s { edges = s.edges ++ map (edge_row g ids) defs }

pub AreNew-ext : (ks : List ℕ) {p q : ℕ → Bool} → ((k : ℕ) → p k ≡ q k) → AreNew p ks → AreNew q ks
AreNew-ext [] same _ = tt
AreNew-ext (k ∷ ks) same (fresh, rest) =
    (sym (same k) ∙ fresh, AreNew-ext ks (λ j. ap (λ b. b || (k == j)) (same j)) rest)

has_node-put :
    (uuid : NodeId) (g : GraphId) (spec : NodeSpec) (s : Store) (k : NodeId)
    → has_node k (put_node uuid g spec s) ≡ (has_node k s || (uuid == k))
has_node-put uuid g spec s k =
    any-++ (λ (r : Node). r.id == k) s.nodes (new_node uuid g spec s ∷ [])
    ∙ ap (λ b. has_node k s || b) (or-false (uuid == k))

module _ (g : GraphId) where
  add_def-new :
      (ids : IdMap) (uuid : NodeId) (def : OrchaNodeDef) (s : Store)
      → IsIdle g s
      → has_node uuid s ≡ false
      → add_def g ids (uuid, def) s
        ≡ (ok ((def.id, uuid) ∷ ids), put_node uuid g (lattice_spec def.spec) s)
  unfolding add_def pure
  add_def-new ids uuid def s idle fresh =
      bind-ok _ _ (
        map_err-ok (failed_node def.id) _
          (add_node-new g uuid (lattice_spec def.spec) s idle fresh))

  -- The loop over the nodes.
  pub nodes-added :
      (ids : IdMap) (defs : List (NodeId × OrchaNodeDef)) (s : Store)
      → IsIdle g s
      → AreNew (λ k. has_node k s) (uuids defs)
      → fold_exec (add_def g) ids defs s ≡ (ok (id_map ids defs), add_nodes g s defs)
  unfolding fold_exec pure
  nodes-added ids [] s idle _ =
      ap (λ rows. (ok ids, record s { nodes = rows })) (sym (append-nil s.nodes))
  nodes-added ids ((uuid, def) ∷ defs) s idle (fresh, rest) =
      let s₁ = put_node uuid g (lattice_spec def.spec) s in
      fold-ok (add_def g) ids (uuid, def) defs (add_def-new ids uuid def s idle fresh)
      ∙ nodes-added ((def.id, uuid) ∷ ids) defs s₁ (IsIdle-same g s s₁ refl idle) (
          AreNew-ext (uuids defs) (λ k. sym (has_node-put uuid g (lattice_spec def.spec) s k)) rest)
      ∙ ap (λ rows. (ok (id_map ((def.id, uuid) ∷ ids) defs), record s { nodes = rows }))
          (append_assoc s.nodes (node_row g s (uuid, def) ∷ []) (map (node_row g s) defs))

  in_graph-put :
      (n : NodeId) (uuid : NodeId) (spec : NodeSpec) (s : Store)
      → in_graph g n s ≡ true
      → in_graph g n (put_node uuid g spec s) ≡ true
  in_graph-put n uuid spec s there =
      any-++ (λ (r : Node). (r.id == n) && (r.graph_id == g)) s.nodes (new_node uuid g spec s ∷ [])
      ∙ simp (there)

  in_graph-new :
      (uuid : NodeId) (spec : NodeSpec) (s : Store)
      → in_graph g uuid (put_node uuid g spec s) ≡ true
  in_graph-new uuid spec s =
      any-++ (λ (r : Node). (r.id == uuid) && (r.graph_id == g)) s.nodes
        (new_node uuid g spec s ∷ [])
      ∙ simp (==_refl uuid, ==_refl g, or-true)

  IsMapped-put :
      (ids : IdMap) (uuid : NodeId) (spec : NodeSpec) (s : Store)
      → IsMapped g ids s
      → IsMapped g ids (put_node uuid g spec s)
  IsMapped-put [] uuid spec s _ = tt
  IsMapped-put ((k, n) ∷ ids) uuid spec s (there, rest) =
      (in_graph-put n uuid spec s there, IsMapped-put ids uuid spec s rest)

  -- The loop has put each node that it names in the graph.
  pub nodes-IsMapped :
      (ids : IdMap) (defs : List (NodeId × OrchaNodeDef)) (s : Store)
      → IsMapped g ids s
      → IsMapped g (id_map ids defs) (add_nodes g s defs)
  nodes-IsMapped ids [] s mapped =
      subst (λ rows. IsMapped g ids (record s { nodes = rows })) (sym (append-nil s.nodes)) mapped
  nodes-IsMapped ids ((uuid, def) ∷ defs) s mapped =
      let spec = lattice_spec def.spec in
      let ids₁ = (def.id, uuid) ∷ ids in
      subst (λ rows. IsMapped g (id_map ids₁ defs) (record s { nodes = rows }))
        (append_assoc s.nodes (node_row g s (uuid, def) ∷ []) (map (node_row g s) defs))
        (nodes-IsMapped ids₁ defs (put_node uuid g spec s)
          (in_graph-new uuid spec s, IsMapped-put ids uuid spec s mapped))
