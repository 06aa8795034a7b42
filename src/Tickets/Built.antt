-- ===== src/Tickets/Built.antt =====
-- `build_child_graph` of a definition whose edges join its nodes: the rows it has written.
use mathlib.Core.Bool.{or-false, false≢true}
use mathlib.Core.List.{append_assoc, append-nil}
use mneme_substrate.Base.{
  String, Bool, true, false, ◌||◌, Option, none, some, List, [], ◌∷◌, map, All, ◌==◌, ◌≡◌, refl,
  sym, ap, ◌∙◌, ok, is_some, unwrap_or, if◌then◌else◌,
}
use mneme_substrate.Base.Exec.{pure, raise, fold_exec}
use mneme_substrate.Base.Json.{Value}
use mneme_substrate.Base.Text.{get, same_text}
use mneme_substrate.Lattice.Types.{GraphId, NodeId, EdgeId}
use mneme_substrate.Lattice.Store.{Store, Edge, has_graph, has_node}
use mneme_substrate.Lattice.Edit.{in_graph, put_graph, put_edge}
use mneme_substrate.Tickets.Graph.{OrchaNodeDef, OrchaEdgeDef}
use mneme_substrate.Tickets.Child.{
  BuildError, failed_edge, unknown_from, unknown_to, storage, IdMap, wire, ok_or, depends_on,
  build_child_graph,
}
use mneme_substrate.Tickets.Rows.{
  id_map, edge_row, has_edge, AreNew, uuids, IsWired, IsMapped, add_nodes, add_edges, AreNew-ext,
  nodes-added, nodes-IsMapped,
}
use mneme_substrate.Base.Members.{any-++}
use mneme_substrate.Tickets.Wired.{
  IsIdle, IsIdle-same, fold-ok, bind-ok, map_err-ok, create_child_graph-new, put_graph-IsIdle,
  add_edge-new,
}

has_edge-put :
    (e : Edge) (s : Store) (k : EdgeId) → has_edge k (put_edge e s) ≡ (has_edge k s || (e.id == k))
has_edge-put e s k =
    any-++ (λ (f : Edge). f.id == k) s.edges (e ∷ [])
    ∙ ap (λ b. has_edge k s || b) (or-false (e.id == k))

module _ (g : GraphId) where
  get-IsMapped :
      (k : String) (ids : IdMap) (s : Store)
      → is_some (get k ids) ≡ true
      → IsMapped g ids s
      → in_graph g (unwrap_or 0 (get k ids)) s ≡ true
  get-IsMapped k [] s known _ = absurd (false≢true known)
  get-IsMapped k ((j, n) ∷ ids) s known (there, rest) =
      go (same_text j k) known (λ h. get-IsMapped k ids s h rest)
    where
      go :
          (b : Bool)
          → is_some (if b then some n else get k ids) ≡ true
          → (is_some (get k ids) ≡ true → in_graph g (unwrap_or 0 (get k ids)) s ≡ true)
          → in_graph g (unwrap_or 0 (if b then some n else get k ids)) s ≡ true
      go true _ _ = there
      go false h below = below h

  ok_or-some :
      (unknown : BuildError) (found : Option NodeId) (s : Store)
      → is_some found ≡ true
      → ok_or unknown found s ≡ (ok (unwrap_or 0 found), s)
  unfolding pure raise
  ok_or-some unknown none s known = absurd (false≢true known)
  ok_or-some unknown (some n) s known = refl

  wire-new :
      (ids : IdMap) (uuid : EdgeId) (def : OrchaEdgeDef) (s : Store)
      → IsIdle g s
      → IsMapped g ids s
      → IsWired ids (uuid, def)
      → has_edge uuid s ≡ false
      → wire g ids tt (uuid, def) s ≡ (ok tt, put_edge (edge_row g ids (uuid, def)) s)
  unfolding wire depends_on
  wire-new ids uuid def s idle mapped (from, to) fresh =
      bind-ok _ _ (ok_or-some (unknown_from def.from) (get def.from ids) s from)
      ∙ bind-ok _ _ (ok_or-some (unknown_to def.to) (get def.to ids) s to)
      ∙ map_err-ok (failed_edge def.from def.to) _ (
          add_edge-new (edge_row g ids (uuid, def)) s idle fresh
            (get-IsMapped def.from ids s from mapped) (get-IsMapped def.to ids s to mapped))

  -- The loop over the edges.
  edges-added :
      (ids : IdMap) (defs : List (EdgeId × OrchaEdgeDef)) (s : Store)
      → IsIdle g s
      → IsMapped g ids s
      → All (IsWired ids) defs
      → AreNew (λ k. has_edge k s) (uuids defs)
      → fold_exec (wire g ids) tt defs s ≡ (ok tt, add_edges g ids s defs)
  unfolding fold_exec pure
  edges-added ids [] s idle mapped _ _ =
      ap (λ rows. (ok tt, record s { edges = rows })) (sym (append-nil s.edges))
  edges-added ids ((uuid, def) ∷ defs) s idle mapped (wired, all_wired) (fresh, rest) =
      let row = edge_row g ids (uuid, def) in
      let s₁ = put_edge row s in
      fold-ok (wire g ids) tt (uuid, def) defs (wire-new ids uuid def s idle mapped wired fresh)
      ∙ edges-added ids defs s₁ (IsIdle-same g s s₁ refl idle) mapped all_wired
          (AreNew-ext (uuids defs) (λ k. sym (has_edge-put row s k)) rest)
      ∙ ap (λ rows. (ok tt, record s { edges = rows }))
          (append_assoc s.edges (row ∷ []) (map (edge_row g ids) defs))

-- The store behind `build_child_graph`: the row of the graph, one row for each node of the
-- definition and one for each edge.
abbrev pub built_store :
    GraphId
    → GraphId
    → Value
    → List (NodeId × OrchaNodeDef)
    → List (EdgeId × OrchaEdgeDef)
    → Store
    → Store
built_store id parent metadata nodes edges s =
    add_edges id (id_map [] nodes) (add_nodes id (put_graph id metadata (some parent) s) nodes)
      edges

-- A definition whose edges join ids of its nodes becomes a child graph of any graph of the store,
-- if the keys that are generated are new: build_child_graph returns the graph and the map of the
-- ids, and adds one row for the graph, one for each node and one for each edge, and nothing else.
pub build_child_graph-adds :
    (id parent : GraphId) (metadata : Value) (nodes : List (NodeId × OrchaNodeDef))
    (edges : List (EdgeId × OrchaEdgeDef)) (s : Store)
    → has_graph id s ≡ false
    → has_graph parent s ≡ true
    → AreNew (λ k. has_node k s) (uuids nodes)
    → AreNew (λ k. has_edge k s) (uuids edges)
    → All (IsWired (id_map [] nodes)) edges
    → build_child_graph id parent metadata nodes edges s
      ≡ (ok (id, id_map [] nodes), built_store id parent metadata nodes edges s)
unfolding build_child_graph pure
build_child_graph-adds id parent metadata nodes edges s fresh there new_nodes new_edges wired =
    let s₁ = put_graph id metadata (some parent) s in
    let s₂ = add_nodes id s₁ nodes in
    let idle = put_graph-IsIdle id parent metadata s fresh in
    bind-ok _ _ (map_err-ok storage _ (create_child_graph-new id parent metadata s fresh there))
    ∙ bind-ok _ _ (nodes-added id [] nodes s₁ idle new_nodes)
    ∙ bind-ok _ _ (
        edges-added id (id_map [] nodes) edges s₂ (IsIdle-same id s₁ s₂ refl idle)
          (nodes-IsMapped id [] nodes s₁ tt) wired new_edges)
