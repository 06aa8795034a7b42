-- ===== src/Arbor/Service.antt =====
-- src/activations/arbor/activation.rs: the methods, and calls that are served one after another,
-- each at its time. The new ids are the call's; `tree_render` is left out.
use mneme_substrate.Base.{
  ℕ, String, true, false, Option, none, some, List, [], ◌∷◌, map, Result, ok, err,
}
use mneme_substrate.Base.Int.{ℤ}
use mneme_substrate.Base.Json.{Value}
use mneme_substrate.Arbor.Types.{
  TreeId, NodeId, Handle, Node, Tree, NodeSkeleton, TreeSkeleton, ArborError, ArborStorage, text,
  external,
}
use mneme_substrate.Arbor.Trees.{
  tree_create_with_id, tree_list, tree_update_metadata, tree_claim, tree_release,
  cleanup_scheduled_trees,
}
use mneme_substrate.Arbor.Nodes.{
  tree_get, node_create_text, node_create_external, node_create_external_ephemeral, node_get,
  node_get_children, node_get_parent, node_get_path, context_list_leaves, context_get_path,
  context_get_handles,
}

pub data ArborEvent : Type 0 where
  tree_created tree_updated : TreeId → ArborEvent
  tree_claimed tree_released : TreeId → String → ℤ → ArborEvent
  tree_data : Tree → ArborEvent
  tree_skeleton : TreeSkeleton → ArborEvent
  tree_list_event trees_scheduled trees_archived : List TreeId → ArborEvent
  node_created : TreeId → NodeId → Option NodeId → ArborEvent
  node_data : TreeId → Node → ArborEvent
  node_children : TreeId → NodeId → List NodeId → ArborEvent
  node_parent : TreeId → NodeId → Option NodeId → ArborEvent
  context_leaves context_path : TreeId → List NodeId → ArborEvent
  context_path_data : TreeId → List Node → ArborEvent
  context_handles : TreeId → List Handle → ArborEvent

abbrev pub to_node_skeleton : Node → NodeSkeleton
to_node_skeleton n = record {
  id = n.id;
  parent = n.parent;
  children = n.children;
  node_type = elim n.content [ text _ ↦ "text" | external _ ↦ "external" ];
}

unfoldable pub to_skeleton : Tree → TreeSkeleton
to_skeleton t = record {
  id = t.id;
  root = t.root;
  nodes = map to_node_skeleton t.nodes;
  state = t.state;
}

-- `match … { Ok(a) => yield event(a), Err(e) => yield TreeList { tree_ids: vec![] } }`
abbrev pub event_of : {A : Type 0} → (A → ArborEvent) → Result ArborError A → ArborEvent
event_of event (ok a) = event a
event_of event (err e) = tree_list_event []

abbrev pub event_of_path :
    {A : Type 0} → (A → ArborEvent) → Option (Result ArborError A) → Option ArborEvent
event_of_path event none = none
event_of_path event (some r) = some (event_of event r)

-- The methods that only read. `none`: a path is still being walked after `fuel` rounds.
pub data Query : Type 0 where
  get get_skeleton leaves : TreeId → Query
  list list_scheduled list_archived : Query
  node children parent_of path path_data handles : TreeId → NodeId → Query

unfoldable pub answer : ℕ → Query → ArborStorage → Option ArborEvent
unfolding tree_get to_skeleton tree_list node_get node_get_children node_get_parent node_get_path
    context_list_leaves context_get_path context_get_handles
answer fuel (get id) s = some (event_of tree_data (tree_get id s))
answer fuel (get_skeleton id) s =
    some (event_of (λ t. tree_skeleton (to_skeleton t)) (tree_get id s))
answer fuel (leaves id) s = some (context_leaves id (context_list_leaves id s))
answer fuel list s = some (tree_list_event (tree_list false s))
answer fuel list_scheduled s = some (trees_scheduled (tree_list true s))
answer fuel list_archived s = some (trees_archived (tree_list true s))
answer fuel (node tree id) s = some (event_of (node_data tree) (node_get tree id s))
answer fuel (children tree id) s = some (node_children tree id (node_get_children tree id s))
answer fuel (parent_of tree id) s =
    some (event_of (node_parent tree id) (node_get_parent tree id s))
answer fuel (path tree id) s = event_of_path (context_path tree) (node_get_path fuel tree id s)
answer fuel (path_data tree id) s =
    event_of_path (context_path_data tree) (context_get_path fuel tree id s)
answer fuel (handles tree id) s =
    event_of_path (context_handles tree) (context_get_handles fuel tree id s)

-- The calls that write, with those that the other activations make of the storage.
pub data Call : Type 0 where
  create : TreeId → NodeId → Option Value → String → Call
  update_metadata : TreeId → Value → Call
  claim release : TreeId → String → ℤ → Call
  add_text : NodeId → TreeId → Option NodeId → String → Option Value → Call
  add_external add_ephemeral : NodeId → TreeId → Option NodeId → Handle → Option Value → Call
  cleanup : Call

unfoldable pub handle : Call → ArborStorage → ArborStorage
unfolding tree_create_with_id tree_update_metadata tree_claim tree_release node_create_text
    node_create_external node_create_external_ephemeral cleanup_scheduled_trees
handle (create id root metadata owner) s = (tree_create_with_id id root metadata owner s).1
handle (update_metadata id metadata) s = (tree_update_metadata id metadata s).1
handle (claim id owner n) s = (tree_claim id owner n s).1
handle (release id owner n) s = (tree_release id owner n s).1
handle (add_text id tree parent content metadata) s =
    (node_create_text id tree parent content metadata s).1
handle (add_external id tree parent h metadata) s =
    (node_create_external id tree parent h metadata s).1
handle (add_ephemeral id tree parent h metadata) s =
    (node_create_external_ephemeral id tree parent h metadata s).1
handle cleanup s = (cleanup_scheduled_trees s).1

unfoldable pub serve : List (ℕ × Call) → ArborStorage → ArborStorage
unfolding handle
serve [] s = s
serve ((now, call) ∷ calls) s = serve calls (handle call (record s { now = now }))
