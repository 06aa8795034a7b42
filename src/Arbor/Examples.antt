-- ===== src/Arbor/Examples.antt =====
-- A tree of two owners and a short conversation.
use mathlib.Core.List.{Memᴰ}
use mneme_substrate.Base.{
  ℕ, String, false, none, some, Option, List, [], ◌∷◌, ◌++◌, ◌≡◌, ◌≢◌, ◌==◌, unwrap_or, ap, refl,
  ok, err, arith, if◌then◌else◌,
}
use mneme_substrate.Base.Int.{pos}
use mneme_substrate.Base.Json.{null}
use mneme_substrate.Arbor.Types.{
  TreeId, NodeId, TreeRow, ArborStorage, storage_error, archived, active, is_archived,
}
use mneme_substrate.Arbor.Trees.{
  tree_create_with_id, tree_claim, tree_release, find_tree, find_ref, get_refs, add_refs,
}
use mneme_substrate.Arbor.Nodes.{
  node_create_text, node_get_path, node_get_parent, get_node_children_internal, create_node,
}
use mneme_substrate.Arbor.Service.{
  Call, handle, serve, create, claim, release, add_text, cleanup, update_metadata, answer,
  list_archived, trees_archived,
}
use mneme_substrate.Arbor.Consistent.{IsConsistent, serve-IsConsistent}
use mneme_substrate.Arbor.Sound.{IsSound, AllClaimMore, serve-IsSound}
use mneme_substrate.Arbor.Roundtrip.{tree_release-tree_claim}
use mneme_substrate.Arbor.Created.{node_create_text-children, node_create_text-orphan}
use mneme_substrate.Arbor.Forest.{AllFresh, served-node_get_path}
use mneme_substrate.Arbor.Listing.{tree_list_archived-wrong}
use mneme_substrate.Arbor.Path.{Ends, Descends}

abbrev empty : ArborStorage
empty = record {
  trees = [];
  tree_refs = [];
  nodes = [];
  node_refs = [];
  node_children = [];
  now = 0;
}

abbrev conversation : List (ℕ × Call)
conversation =
    (1, create 1 10 none "A")
    ∷ (2, add_text 11 1 (some 10) "hello" none)
    ∷ (3, add_text 12 1 (some 11) "world" none)
    ∷ []

-- One week after the second owner has come and both have gone, and a call too late.
abbrev abandoned : List (ℕ × Call)
abandoned =
    (4, claim 1 "B" (pos 2))
    ∷ (5, release 1 "A" (pos 1))
    ∷ (6, release 1 "B" (pos 2))
    ∷ (604807, cleanup)
    ∷ []

abbrev late : List (ℕ × Call)
late = (700000, claim 1 "B" (pos 1)) ∷ (700001, update_metadata 1 null) ∷ (800000, cleanup) ∷ []

empty-IsConsistent : IsConsistent empty
unfolding find_tree get_refs add_refs
empty-IsConsistent id = refl

serve-IsConsistent_example : IsConsistent (serve abandoned (serve conversation empty))
serve-IsConsistent_example =
    serve-IsConsistent abandoned (serve conversation empty)
      (serve-IsConsistent conversation empty empty-IsConsistent)

ids_apart : (a b : ℕ) → (a == b) ≡ false → a ≢ b
ids_apart a b h = ground (arith, h)

parents_apart : (a b : ℕ) → (a == b) ≡ false → ◌≢◌ {A = Option NodeId} (some a) (some b)
parents_apart a b h e = ids_apart a b h (ap (unwrap_or 0) e)

no_parent : (b : ℕ) → ◌≢◌ {A = Option NodeId} none (some b)
no_parent b e = cc e

conversation-AllFresh : AllFresh conversation empty
unfolding serve handle tree_create_with_id node_create_text create_node
conversation-AllFresh = (
  tt,
  (
    (parents_apart 10 11 refl, ((ids_apart 10 11 refl, no_parent 11), tt)),
    (
      (
        parents_apart 11 12 refl,
        (
          (ids_apart 11 12 refl, parents_apart 10 12 refl),
          ((ids_apart 10 12 refl, no_parent 12), tt),
        ),
      ),
      tt,
    ),
  ),
)

served-node_get_path_example :
    Ends (node_get_path 4 1 12 (serve conversation empty))
    × ((path : List NodeId)
        → node_get_path 4 1 12 (serve conversation empty) ≡ some (ok path)
        → Descends 1 (serve conversation empty).nodes none path 12)
unfolding serve handle tree_create_with_id node_create_text create_node
served-node_get_path_example = served-node_get_path conversation empty 1 12 conversation-AllFresh tt

path_run : node_get_path 4 1 12 (serve conversation empty) ≡ some (ok (10 ∷ 11 ∷ 12 ∷ []))
unfolding serve handle tree_create_with_id node_create_text create_node node_get_path
path_run = refl

empty-IsSound : IsSound empty
unfolding find_tree
empty-IsSound = (empty-IsConsistent, tt, λ id t e. absurd (nothing t e))
  where
    nothing : (t : TreeRow) → ◌≢◌ {A = Option TreeRow} none (some t)
    nothing t e = cc e

abbrev lived : List (ℕ × Call)
lived = conversation ++ abandoned

lived-AllClaimMore : AllClaimMore lived
lived-AllClaimMore = (tt, (tt, (tt, (omega arith, (tt, (tt, (tt, tt)))))))

serve-IsSound_example : IsSound (serve lived empty)
serve-IsSound_example = serve-IsSound lived empty lived-AllClaimMore empty-IsSound

abbrev old_tree : TreeRow
old_tree = record {
  id = 1;
  root_node_id = 10;
  ref_count = pos 0;
  state = archived;
  scheduled_deletion_at = some 6;
  archived_at = some 604807;
  created_at = 1;
  updated_at = 604807;
  metadata = none;
}

-- The second owner is the last to go; seven days later it is not too late.
abbrev leaving : ArborStorage
leaving =
    serve ((4, claim 1 "B" (pos 2)) ∷ (5, release 1 "A" (pos 1)) ∷ []) (serve conversation empty)

tree_release-tree_claim_example :
    (let s' = (tree_claim 1 "B" (pos 2) (serve conversation empty)).1 in
      ((tree_release 1 "B" (pos 2) s').0 ≡ ok (pos 1))
      × ((j : TreeId) (o : String)
          → find_ref j o (tree_release 1 "B" (pos 2) s').1.tree_refs
            ≡ find_ref j o (serve conversation empty).tree_refs))
unfolding serve handle
tree_release-tree_claim_example =
    tree_release-tree_claim 1 "B" (pos 2) (serve conversation empty)
      (record old_tree {
        ref_count = pos 1;
        state = active;
        scheduled_deletion_at = none;
        archived_at = none;
        updated_at = 1;
      })
      refl refl (omega arith, tt) (omega arith)

node_create_text-children_example :
    ((node_create_text 13 1 (some 11) "and" none (serve conversation empty)).0 ≡ ok 13)
    × ((q : NodeId)
        → get_node_children_internal q
            (node_create_text 13 1 (some 11) "and" none (serve conversation empty)).1
          ≡ (if 11 == q
              then get_node_children_internal q (serve conversation empty) ++ 13 ∷ []
              else get_node_children_internal q (serve conversation empty)))
unfolding serve handle
node_create_text-children_example =
    node_create_text-children 13 1 11 "and" none (serve conversation empty) refl refl refl refl

node_create_text-orphan_example :
    ((node_create_text 13 1 (some 77) "lost" none (serve conversation empty)).0
      ≡ err (storage_error "unknown"))
    × (node_get_parent 1 13
          (node_create_text 13 1 (some 77) "lost" none (serve conversation empty)).1
        ≡ ok (some 77))
    × ((q : NodeId)
        → get_node_children_internal q
            (node_create_text 13 1 (some 77) "lost" none (serve conversation empty)).1
          ≡ get_node_children_internal q (serve conversation empty))
unfolding serve handle
node_create_text-orphan_example =
    node_create_text-orphan 13 1 77 "lost" none (serve conversation empty) refl refl refl
      (ids_apart 77 13 refl)

tree_list_archived-wrong_example :
    (ids : List TreeId) × (answer 0 list_archived (serve conversation empty)
      ≡ some (trees_archived ids))
    × ((id : TreeId)
        → Memᴰ id ids
        → (t : TreeRow) × Memᴰ t (serve conversation empty).trees
          × (t.id ≡ id)
          × (is_archived t.state ≡ false))
tree_list_archived-wrong_example = tree_list_archived-wrong 0 (serve conversation empty)
