-- ===== src/Arbor/Forest.antt =====
-- src/activations/arbor: which calls add a node, and that the ids of the nodes stay new.
use mneme_substrate.Base.{
  ℕ, suc, length, String, Bool, true, false, not, ◌&&◌, ◌||◌, Option, none, some, List, [], ◌∷◌,
  if◌then◌else◌, ◌≡◌, ◌≢◌, refl, sym, ◌∙◌, subst, ◌⊎◌, inl, inr, Bool-cases, any, Result, ok, err,
}
use mneme_substrate.Base.Int.{ℤ, ltb_ℤ}
use mneme_substrate.Base.Json.{Value}
use mneme_substrate.Arbor.Types.{
  TreeId, NodeId, ArborError, TreeRow, NodeRow, ArborStorage, text, external, has_tree, has_node,
  is_ref, is_archived, storage_error,
}
use mneme_substrate.Arbor.Trees.{
  find_tree, find_ref, tree_create_with_id, tree_claim, claim_found, claimed, claim_rows,
  tree_release, release_held, released, release_rows, fetch_count, commit, tree_update_metadata,
  cleanup_scheduled_trees, insert_tree,
}
use mneme_substrate.Arbor.Nodes.{
  create_node, created, add_to, add_child_to_parent, has_child, node_create_text,
  node_create_external, node_create_external_ephemeral, active_row, ephemeral_row, node_get_path,
}
use mneme_substrate.Arbor.Service.{
  Call, handle, serve, create, update_metadata, claim, release, add_text, add_external,
  add_ephemeral, cleanup,
}
use mneme_substrate.Arbor.Path.{IsNew, IsForest, Ends, Descends, node_get_path-Descends}

abbrev pub IsFreshNode : NodeId → Option NodeId → ArborStorage → Type 0
IsFreshNode id parent s = (parent ≢ some id) × IsNew id s.nodes

-- The UUID that a call makes for a node is new.
abbrev pub IsFresh : Call → ArborStorage → Type 0
IsFresh (create id root metadata owner) s = IsNew root s.nodes
IsFresh (add_text id tree parent content metadata) s = IsFreshNode id parent s
IsFresh (add_external id tree parent h metadata) s = IsFreshNode id parent s
IsFresh (add_ephemeral id tree parent h metadata) s = IsFreshNode id parent s
IsFresh _ s = Unit

abbrev pub at_time : ℕ → ArborStorage → ArborStorage
at_time now s = record s { now = now }

abbrev pub AllFresh : List (ℕ × Call) → ArborStorage → Type 0
AllFresh [] s = Unit
AllFresh ((now, c) ∷ calls) s = IsFresh c s × AllFresh calls (handle c (at_time now s))

commit-nodes :
    {A : Type 0} (r : Result ArborError A) (new old : ArborStorage)
    → new.nodes ≡ old.nodes
    → (commit r new old).1.nodes ≡ old.nodes
commit-nodes (ok a) new old eq = eq
commit-nodes (err e) new old eq = refl

claim-nodes :
    (id : TreeId) (owner : String) (n : ℤ) (o : Option TreeRow) (s : ArborStorage)
    → (claim_found id owner n o s).1.nodes ≡ s.nodes
claim-nodes id owner n none s = refl
claim-nodes id owner n (some t) s = elim (Bool-cases (is_archived t.state)) [
  | inl e ↦ simp (e) refl
  | inr e ↦
      simp (e) (commit-nodes (fetch_count id (claim_rows id n s)) (claimed id owner n s) s refl)
]

release-nodes :
    (id : TreeId) (owner : String) (n : ℤ) (o : Option ℤ) (s : ArborStorage)
    → (release_held id owner n o s).1.nodes ≡ s.nodes
release-nodes id owner n none s = refl
release-nodes id owner n (some c) s = elim (Bool-cases (ltb_ℤ c n)) [
  | inl e ↦ simp (e) refl
  | inr e ↦
      simp (e)
        (commit-nodes (fetch_count id (release_rows id n s)) (released id owner n c s) s refl)
]

created-nodes :
    (id : NodeId) (r : Result ArborError (Unit {0}) × ArborStorage)
    → (created id r).1.nodes ≡ r.1.nodes
created-nodes id (ok _, s) = refl
created-nodes id (err e, s) = refl

add_to-nodes :
    (id : NodeId) (parent : Option NodeId) (s : ArborStorage)
    → (add_to id parent s).1.nodes ≡ s.nodes
unfolding add_child_to_parent
add_to-nodes id none s = refl
add_to-nodes id (some p) s =
    elim (Bool-cases (not (has_child p id s) && has_node p s && has_node id s)) [
      | inl e ↦ simp (e) refl
      | inr e ↦ simp (e) refl
    ]

-- The row is written, or nothing is.
pub create_node-nodes :
    (row : NodeRow) (s : ArborStorage)
    → ((create_node row s).1.nodes ≡ s.nodes) ⊎ ((create_node row s).1.nodes ≡ row ∷ s.nodes)
unfolding create_node
create_node-nodes row s = elim (Bool-cases (has_node row.id s || not (has_tree row.tree_id s))) [
  | inl e ↦ inl (simp (e) refl)
  | inr e ↦
      let s' : ArborStorage = record s { nodes = row ∷ s.nodes } in
      inr (
        simp (e) (
          created-nodes row.id (add_to row.id row.parent_id s')
          ∙ add_to-nodes row.id row.parent_id s'))
]

create_node-IsForest :
    (row : NodeRow) (s : ArborStorage)
    → IsFreshNode row.id row.parent_id s
    → IsForest s.nodes
    → IsForest (create_node row s).1.nodes
create_node-IsForest row s (self, new) h = elim (create_node-nodes row s) [
  | inl same ↦ subst IsForest (sym same) h
  | inr more ↦ subst IsForest (sym more) (self, new, h)
]

create-IsForest :
    (id : TreeId) (root : NodeId) (metadata : Option Value) (owner : String) (s : ArborStorage)
    → IsNew root s.nodes
    → IsForest s.nodes
    → IsForest (tree_create_with_id id root metadata owner s).1.nodes
unfolding tree_create_with_id
create-IsForest id root metadata owner s new h =
    go (has_tree id s || any (is_ref id owner) s.tree_refs || has_node root s)
  where
    go :
        (b : Bool)
        → IsForest
            (if◌then◌else◌ {A = Result ArborError TreeId × ArborStorage} b
              (err (storage_error "unknown"), s)
              (ok id, insert_tree id root metadata owner s)).1.nodes
    go true = h
    go false = ((λ e. cc e), new, h)

handle-IsForest :
    (c : Call) (s : ArborStorage) → IsFresh c s → IsForest s.nodes → IsForest (handle c s).nodes
unfolding handle tree_update_metadata node_create_text node_create_external
    node_create_external_ephemeral cleanup_scheduled_trees tree_claim tree_release
handle-IsForest (create id root metadata owner) s new h =
    create-IsForest id root metadata owner s new h
handle-IsForest (update_metadata id metadata) s new h = h
handle-IsForest (claim id owner n) s new h =
    subst IsForest (sym (claim-nodes id owner n (find_tree id s.trees) s)) h
handle-IsForest (release id owner n) s new h =
    subst IsForest (sym (release-nodes id owner n (find_ref id owner s.tree_refs) s)) h
handle-IsForest (add_text id tree parent content metadata) s new h =
    create_node-IsForest (active_row id tree parent (text content) metadata s.now) s new h
handle-IsForest (add_external id tree parent hd metadata) s new h =
    create_node-IsForest (active_row id tree parent (external hd) metadata s.now) s new h
handle-IsForest (add_ephemeral id tree parent hd metadata) s new h =
    create_node-IsForest (ephemeral_row id tree parent hd metadata s.now) s new h
handle-IsForest cleanup s new h = h

-- Calls whose node ids are new keep it true that the id of each row was new when it was written.
pub serve-IsForest :
    (calls : List (ℕ × Call)) (s : ArborStorage)
    → AllFresh calls s
    → IsForest s.nodes
    → IsForest (serve calls s).nodes
unfolding serve
serve-IsForest [] s fresh h = h
serve-IsForest ((now, c) ∷ calls) s (here, there) h =
    serve-IsForest calls (handle c (at_time now s)) there
      (handle-IsForest c (at_time now s) (fresh_at c now s here) h)
  where
    fresh_at : (d : Call) (t : ℕ) (u : ArborStorage) → IsFresh d u → IsFresh d (at_time t u)
    fresh_at (create id root metadata owner) t u f = f
    fresh_at (update_metadata id metadata) t u f = f
    fresh_at (claim id owner n) t u f = f
    fresh_at (release id owner n) t u f = f
    fresh_at (add_text id tree parent content metadata) t u f = f
    fresh_at (add_external id tree parent hd metadata) t u f = f
    fresh_at (add_ephemeral id tree parent hd metadata) t u f = f
    fresh_at cleanup t u f = f

-- After calls whose node ids are new, from a state in which the id of each row was new when it was
-- written, the walk up from any id ends within one round for each node and one more, and
-- a path that it answers starts at a node without a parent, goes from parent to child, and
-- ends at the id.
pub served-node_get_path :
    (calls : List (ℕ × Call)) (s : ArborStorage) (tree : TreeId) (id : NodeId)
    → AllFresh calls s
    → IsForest s.nodes
    → (let s' = serve calls s in
        Ends (node_get_path (suc (length s'.nodes)) tree id s')
        × ((path : List NodeId)
            → node_get_path (suc (length s'.nodes)) tree id s' ≡ some (ok path)
            → Descends tree s'.nodes none path id))
served-node_get_path calls s tree id fresh h =
    node_get_path-Descends tree id (serve calls s) (serve-IsForest calls s fresh h)
