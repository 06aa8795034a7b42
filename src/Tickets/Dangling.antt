-- ===== src/Tickets/Dangling.antt =====
-- `build_child_graph` of a definition with an edge that starts at no node of it.
use mathlib.Core.Bool.{true≢false}
use mneme_substrate.Base.{
  true, false, none, some, List, [], ◌∷◌, ◌++◌, ◌≡◌, refl, ap, ◌∙◌, Result, ok, err, is_ok,
}
use mneme_substrate.Base.Exec.{Exec, raise, continue, fold_exec, ◌>>=◌}
use mneme_substrate.Base.Json.{Value}
use mneme_substrate.Base.Text.{get}
use mneme_substrate.Lattice.Types.{GraphId, NodeId, EdgeId}
use mneme_substrate.Lattice.Store.{Store, has_graph, has_node}
use mneme_substrate.Lattice.Edit.{put_graph}
use mneme_substrate.Tickets.Graph.{OrchaNodeDef, OrchaEdgeDef}
use mneme_substrate.Tickets.Child.{storage, unknown_from, IdMap, wire, ok_or, build_child_graph}
use mneme_substrate.Tickets.Wired.{bind-ok, map_err-ok, create_child_graph-new, put_graph-IsIdle}
use mneme_substrate.Tickets.Rows.{id_map, AreNew, uuids, nodes-added}

-- The action fails in every state.
abbrev Fails : {S E A : Type 0} → Exec S E A → Type 0
Fails {S = S} m = (s : S) → is_ok (m s).0 ≡ false

module _ {S E A B : Type 0} where
  continue-Fails :
      (r : Result E A) (s : S) (f : A → Exec S E B)
      → ((a : A) → Fails (f a))
      → is_ok (continue r f s).0 ≡ false
  continue-Fails (ok a) s f fails = fails a s
  continue-Fails (err e) s f fails = refl

  Fails-first : (m : Exec S E A) (f : A → Exec S E B) → Fails m → Fails (m >>= f)
  unfolding ◌>>=◌
  Fails-first m f fails s = go (m s).0 (m s).1 (fails s)
    where
      go : (r : Result E A) (s' : S) → is_ok r ≡ false → is_ok (continue r f s').0 ≡ false
      go (ok a) s' eq = absurd (true≢false eq)
      go (err e) s' eq = refl

  Fails-then : (m : Exec S E A) (f : A → Exec S E B) → ((a : A) → Fails (f a)) → Fails (m >>= f)
  unfolding ◌>>=◌
  Fails-then m f fails s = continue-Fails (m s).0 (m s).1 f fails

module _ {S E A B : Type 0} where
  -- A loop fails if one of its rounds does.
  Fails-fold :
      (body : A → B → Exec S E A) (before : List B) (x : B) (after : List B)
      → ((a : A) → Fails (body a x))
      → (a : A) → Fails (fold_exec body a (before ++ x ∷ after))
  unfolding fold_exec
  Fails-fold body [] x after fails a = Fails-first (body a x) _ (fails a)
  Fails-fold body (y ∷ before) x after fails a =
      Fails-then (body a y) _ (λ a'. Fails-fold body before x after fails a')

wire-Fails :
    (g : GraphId) (ids : IdMap) (uuid : EdgeId) (def : OrchaEdgeDef)
    → get def.from ids ≡ none
    → (u : Unit {0}) → Fails (wire g ids u (uuid, def))
unfolding wire raise
wire-Fails g ids uuid def unknown u =
    Fails-first (ok_or (unknown_from def.from) (get def.from ids)) _
      (λ s. ap (λ o. is_ok (ok_or (unknown_from def.from) o s).0) unknown)

-- An edge that starts at no node of the definition makes build_child_graph fail, whatever nodes
-- the lattice has, where the generated keys of the graph and of the nodes are new.
pub build_child_graph-dangling :
    (id parent : GraphId) (metadata : Value) (nodes : List (NodeId × OrchaNodeDef))
    (before : List (EdgeId × OrchaEdgeDef)) (uuid : EdgeId) (def : OrchaEdgeDef)
    (after : List (EdgeId × OrchaEdgeDef)) (s : Store)
    → has_graph id s ≡ false
    → has_graph parent s ≡ true
    → AreNew (λ k. has_node k s) (uuids nodes)
    → get def.from (id_map [] nodes) ≡ none
    → is_ok (build_child_graph id parent metadata nodes (before ++ (uuid, def) ∷ after) s).0 ≡ false
unfolding build_child_graph
build_child_graph-dangling id parent metadata nodes before uuid def after s fresh there new_nodes
      unknown =
    let s₁ = put_graph id metadata (some parent) s in
    let idle = put_graph-IsIdle id parent metadata s fresh in
    ap (λ r. is_ok r.0)
      (bind-ok _ _ (map_err-ok storage _ (create_child_graph-new id parent metadata s fresh there))
        ∙ bind-ok _ _ (nodes-added id [] nodes s₁ idle new_nodes))
    ∙ Fails-first (fold_exec (wire id (id_map [] nodes)) tt (before ++ (uuid, def) ∷ after)) _
        (Fails-fold (wire id (id_map [] nodes)) before (uuid, def) after
          (wire-Fails id (id_map [] nodes) uuid def unknown) tt)
        _
