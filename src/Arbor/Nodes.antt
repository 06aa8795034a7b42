-- ===== src/Arbor/Nodes.antt =====
-- src/activations/arbor/storage.rs: nodes, their children and their paths, and whole trees. A query
-- that names no order may return its rows in any; here the newest comes first.
use mneme_substrate.Base.{
  ℕ, zero, suc, String, Bool, true, false, not, ◌&&◌, ◌||◌, Option, none, some, List, [], ◌∷◌, ◌++◌,
  any, filter, map, sort_by, if◌then◌else◌, leb, ◌==◌, Result, ok, err, and_then,
}
use mneme_substrate.Base.Json.{Value}
use mneme_substrate.Arbor.Types.{
  TreeId, NodeId, Handle, NodeType, Node, Tree, ArborError, TreeRow, NodeRow, ChildRow,
  ArborStorage, Action, text, external, active, scheduled_delete, tree_not_found, node_not_found,
  storage_error, invalid_state, is_active, is_archived, has_tree, has_node,
}
use mneme_substrate.Arbor.Trees.{find_tree, get_refs}

abbrev pub of_parent : NodeId → ChildRow → Bool
of_parent parent c = c.parent_id == parent

-- `SELECT child_id FROM node_children WHERE parent_id = ? ORDER BY position`
unfoldable pub get_node_children_internal : NodeId → ArborStorage → List NodeId
get_node_children_internal parent s =
    map (λ (c : ChildRow). c.child_id)
      (sort_by (λ (c : ChildRow). c.position) (filter (of_parent parent) s.node_children))

-- `COALESCE(MAX(position), -1) + 1`
unfoldable pub next_position : NodeId → List ChildRow → ℕ
next_position parent [] = 0
next_position parent (c ∷ cs) =
    let rest = next_position parent cs in
    if of_parent parent c && leb rest c.position then suc c.position else rest

abbrev pub has_child : NodeId → NodeId → ArborStorage → Bool
has_child parent child s =
    any (λ (c : ChildRow). of_parent parent c && (c.child_id == child)) s.node_children

-- Both nodes must be there (foreign keys), and the pair must be new (primary key).
unfoldable pub add_child_to_parent : NodeId → NodeId → Action (Unit {0})
unfolding next_position
add_child_to_parent parent child s =
    if not (has_child parent child s) && has_node parent s && has_node child s
    then (
      ok tt,
      record s {
        node_children =
            s.node_children
            ++ record {
              parent_id = parent;
              child_id = child;
              position = next_position parent s.node_children;
            }
              ∷ [];
      },
    )
    else (err (storage_error "unknown"), s)

abbrev pub add_to : NodeId → Option NodeId → Action (Unit {0})
add_to id none s = (ok tt, s)
add_to id (some parent) s = add_child_to_parent parent id s

abbrev pub created :
    NodeId → Result ArborError (Unit {0}) × ArborStorage → Result ArborError NodeId × ArborStorage
created id (ok _, s) = (ok id, s)
created id (err e, s) = (err e, s)

-- The row is written before its parent's, and in no transaction: it stays when the second fails.
unfoldable pub create_node : NodeRow → Action NodeId
unfolding add_child_to_parent
create_node row s =
    if has_node row.id s || not (has_tree row.tree_id s)
    then (err (storage_error "unknown"), s)
    else created row.id (add_to row.id row.parent_id (record s { nodes = row ∷ s.nodes }))

abbrev pub active_row : NodeId → TreeId → Option NodeId → NodeType → Option Value → ℕ → NodeRow
active_row id tree parent content metadata now = record {
  id = id;
  tree_id = tree;
  parent_id = parent;
  ref_count = 1;
  state = active;
  scheduled_deletion_at = none;
  archived_at = none;
  content = content;
  created_at = now;
  metadata = metadata;
}

abbrev pub ephemeral_row : NodeId → TreeId → Option NodeId → Handle → Option Value → ℕ → NodeRow
ephemeral_row id tree parent handle metadata now = record {
  id = id;
  tree_id = tree;
  parent_id = parent;
  ref_count = 0;
  state = scheduled_delete;
  scheduled_deletion_at = some now;
  archived_at = none;
  content = external handle;
  created_at = now;
  metadata = metadata;
}

-- `id` is a new UUID.
unfoldable pub node_create_text :
    NodeId → TreeId → Option NodeId → String → Option Value → Action NodeId
unfolding create_node
node_create_text id tree parent content metadata s =
    create_node (active_row id tree parent (text content) metadata s.now) s

unfoldable pub node_create_external :
    NodeId → TreeId → Option NodeId → Handle → Option Value → Action NodeId
unfolding create_node
node_create_external id tree parent handle metadata s =
    create_node (active_row id tree parent (external handle) metadata s.now) s

unfoldable pub node_create_external_ephemeral :
    NodeId → TreeId → Option NodeId → Handle → Option Value → Action NodeId
unfolding create_node
node_create_external_ephemeral id tree parent handle metadata s =
    create_node (ephemeral_row id tree parent handle metadata s.now) s

abbrev pub in_tree : TreeId → NodeRow → Bool
in_tree tree n = n.tree_id == tree

unfoldable pub to_node : ArborStorage → NodeRow → Node
unfolding get_node_children_internal get_refs
to_node s n = record {
  id = n.id;
  parent = n.parent_id;
  children = get_node_children_internal n.id s;
  content = n.content;
  state = n.state;
  refs = get_refs n.id s.node_refs;
  scheduled_deletion_at = n.scheduled_deletion_at;
  archived_at = n.archived_at;
  created_at = n.created_at;
  metadata = n.metadata;
}

unfoldable pub get_nodes_for_tree : TreeId → ArborStorage → List Node
unfolding to_node
get_nodes_for_tree tree s = map (to_node s) (filter (in_tree tree) s.nodes)

-- `nodes.get(id)`
unfoldable pub find_node : NodeId → List Node → Option Node
find_node id [] = none
find_node id (n ∷ ns) = if n.id == id then some n else find_node id ns

unfoldable pub to_tree : TreeRow → ArborStorage → Tree
unfolding get_nodes_for_tree get_refs
to_tree t s = record {
  id = t.id;
  root = t.root_node_id;
  nodes = get_nodes_for_tree t.id s;
  state = t.state;
  refs = get_refs t.id s.tree_refs;
  scheduled_deletion_at = t.scheduled_deletion_at;
  archived_at = t.archived_at;
  created_at = t.created_at;
  updated_at = t.updated_at;
  metadata = t.metadata;
}

abbrev pub tree_found : TreeId → Bool → Option TreeRow → ArborStorage → Result ArborError Tree
tree_found id allow_archived none s = err (tree_not_found id)
tree_found id allow_archived (some t) s =
    if not allow_archived && is_archived t.state then err (invalid_state id) else ok (to_tree t s)

unfoldable pub tree_get_internal : TreeId → Bool → ArborStorage → Result ArborError Tree
unfolding find_tree to_tree
tree_get_internal id allow_archived s = tree_found id allow_archived (find_tree id s.trees) s

unfoldable pub tree_get : TreeId → ArborStorage → Result ArborError Tree
unfolding tree_get_internal
tree_get id s = tree_get_internal id false s

unfoldable pub tree_get_archived : TreeId → ArborStorage → Result ArborError Tree
unfolding tree_get_internal
tree_get_archived id s = tree_get_internal id true s

abbrev pub node_or_error : NodeId → TreeId → Option Node → Result ArborError Node
node_or_error id tree none = err (node_not_found id tree)
node_or_error id tree (some n) = ok n

unfoldable pub node_get : TreeId → NodeId → ArborStorage → Result ArborError Node
unfolding find_node get_nodes_for_tree
node_get tree id s = node_or_error id tree (find_node id (get_nodes_for_tree tree s))

abbrev pub names_parent : NodeId → NodeRow → Bool
names_parent id n = elim n.parent_id [ none ↦ false | some p ↦ p == id ]

unfoldable pub node_get_children : TreeId → NodeId → ArborStorage → List NodeId
node_get_children tree id s =
    map (λ (n : NodeRow). n.id)
      (filter (λ n. in_tree tree n && names_parent id n && is_active n.state) s.nodes)

unfoldable pub find_parent : TreeId → NodeId → List NodeRow → Result ArborError (Option NodeId)
find_parent tree id [] = err (node_not_found id tree)
find_parent tree id (n ∷ ns) =
    if in_tree tree n && (n.id == id) then ok n.parent_id else find_parent tree id ns

unfoldable pub node_get_parent : TreeId → NodeId → ArborStorage → Result ArborError (Option NodeId)
unfolding find_parent
node_get_parent tree id s = find_parent tree id s.nodes

abbrev pub then_parent :
    {A : Type 0}
    → Result ArborError (Option NodeId)
    → (Option NodeId → Option (Result ArborError A))
    → Option (Result ArborError A)
then_parent (err e) f = some (err e)
then_parent (ok parent) f = f parent

-- The walk up of `node_get_path`, which may not end in a bounded number of rounds: `none` when it
-- is still going. What was pushed and is reversed at the end stands in its final order.
unfoldable pub path_loop :
    ℕ
    → TreeId
    → Option NodeId
    → List NodeId
    → List NodeRow
    → Option (Result ArborError (List NodeId))
unfolding find_parent
path_loop fuel tree none path rows = some (ok path)
path_loop zero tree (some id) path rows = none
path_loop (suc fuel) tree (some id) path rows =
    then_parent (find_parent tree id rows) λ parent. path_loop fuel tree parent (id ∷ path) rows

unfoldable pub node_get_path :
    ℕ → TreeId → NodeId → ArborStorage → Option (Result ArborError (List NodeId))
unfolding path_loop
node_get_path fuel tree id s = path_loop fuel tree (some id) [] s.nodes

unfoldable pub context_list_leaves : TreeId → ArborStorage → List NodeId
context_list_leaves tree s =
    map (λ (n : NodeRow). n.id)
      (filter
        (λ n.
          in_tree tree n
          && is_active n.state
          && not (any (λ m. in_tree tree m && names_parent n.id m) s.nodes))
        s.nodes)

-- The first id that the tree does not have is the error.
unfoldable pub path_nodes : TreeId → List Node → List NodeId → Result ArborError (List Node)
unfolding find_node
path_nodes tree nodes [] = ok []
path_nodes tree nodes (id ∷ ids) =
    and_then (node_or_error id tree (find_node id nodes))
      λ n. and_then (path_nodes tree nodes ids) λ ns. ok (n ∷ ns)

abbrev pub then_path :
    {A : Type 0}
    → Option (Result ArborError (List NodeId))
    → (List NodeId → Result ArborError A)
    → Option (Result ArborError A)
then_path none f = none
then_path (some r) f = some (and_then r f)

unfoldable pub context_get_path :
    ℕ → TreeId → NodeId → ArborStorage → Option (Result ArborError (List Node))
unfolding node_get_path path_nodes get_nodes_for_tree
context_get_path fuel tree id s =
    then_path (node_get_path fuel tree id s) (path_nodes tree (get_nodes_for_tree tree s))

unfoldable pub handles_of : List Node → List Handle
handles_of [] = []
handles_of (n ∷ ns) = elim n.content [
  | text _ ↦ handles_of ns
  | external handle ↦ handle ∷ handles_of ns
]

abbrev pub then_nodes :
    Option (Result ArborError (List Node)) → Option (Result ArborError (List Handle))
then_nodes none = none
then_nodes (some r) = some (and_then r λ ns. ok (handles_of ns))

unfoldable pub context_get_handles :
    ℕ → TreeId → NodeId → ArborStorage → Option (Result ArborError (List Handle))
unfolding context_get_path handles_of
context_get_handles fuel tree id s = then_nodes (context_get_path fuel tree id s)
