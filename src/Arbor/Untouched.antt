-- ===== src/Arbor/Untouched.antt =====
-- src/activations/arbor/storage.rs: what the operations on nodes leave alone.
use mneme_substrate.Base.{
  not, ◌&&◌, ◌||◌, Option, none, some, ◌≡◌, refl, ◌∙◌, Bool-cases, inl, inr, ◌∷◌,
}
use mneme_substrate.Base.{Result, ok, err}
use mneme_substrate.Arbor.Types.{
  NodeId, ArborError, TreeRow, RefRow, NodeRow, ArborStorage, has_tree, has_node,
}
use mneme_substrate.Arbor.Nodes.{create_node, add_child_to_parent, add_to, created, has_child}
use mneme_substrate.Base.{List}

abbrev pub rows_of : ArborStorage → List TreeRow × List RefRow
rows_of s = (s.trees, s.tree_refs)

created-rows :
    (id : NodeId) (r : Result ArborError (Unit {0}) × ArborStorage)
    → rows_of (created id r).1 ≡ rows_of r.1
created-rows id (ok _, s) = refl
created-rows id (err e, s) = refl

add_to-rows :
    (id : NodeId) (parent : Option NodeId) (s : ArborStorage)
    → rows_of (add_to id parent s).1 ≡ rows_of s
unfolding add_child_to_parent
add_to-rows id none s = refl
add_to-rows id (some p) s =
    elim (Bool-cases (not (has_child p id s) && has_node p s && has_node id s)) [
      | inl e ↦ simp (e) refl
      | inr e ↦ simp (e) refl
    ]

-- The trees and the references.
pub create_node-rows :
    (row : NodeRow) (s : ArborStorage) → rows_of (create_node row s).1 ≡ rows_of s
unfolding create_node
create_node-rows row s = elim (Bool-cases (has_node row.id s || not (has_tree row.tree_id s))) [
  | inl e ↦ simp (e) refl
  | inr e ↦
      let s' : ArborStorage = record s { nodes = row ∷ s.nodes } in
      simp (e)
        (created-rows row.id (add_to row.id row.parent_id s') ∙ add_to-rows row.id row.parent_id s')
]
