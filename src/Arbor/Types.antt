-- ===== src/Arbor/Types.antt =====
-- src/activations/arbor/types.rs, and the tables of src/activations/arbor/storage.rs. A UUID is a
-- number, and a state or a JSON value is kept in its column as the value that its text is read to.
use mneme_substrate.Base.{ℕ, String, Bool, true, false, ◌&&◌, Option, List, any, ◌==◌}
use mneme_substrate.Base.Exec.{Exec}
use mneme_substrate.Base.Int.{ℤ}
use mneme_substrate.Base.Json.{Value}
use mneme_substrate.Base.Text.{same_text}

abbrev pub TreeId : Type 0
TreeId = ℕ

abbrev pub NodeId : Type 0
NodeId = ℕ

pub record Handle : Type 0 where
  pub plugin_id : ℕ
  pub version : String
  pub method : String
  pub meta : List String

pub data NodeType : Type 0 where
  text : String → NodeType
  external : Handle → NodeType

pub data ResourceState : Type 0 where
  active scheduled_delete archived : ResourceState

unfoldable pub as_str : ResourceState → String
as_str active = "active"
as_str scheduled_delete = "scheduled_delete"
as_str archived = "archived"

pub record ResourceRefs : Type 0 where
  pub ref_count : ℤ
  -- The owners with their counts, as pairs.
  pub owners : List (String × ℤ)

pub record Node : Type 0 where
  pub id : NodeId
  pub parent : Option NodeId
  pub children : List NodeId
  pub content : NodeType
  pub state : ResourceState
  pub refs : ResourceRefs
  pub scheduled_deletion_at : Option ℕ
  pub archived_at : Option ℕ
  pub created_at : ℕ
  pub metadata : Option Value

pub record Tree : Type 0 where
  pub id : TreeId
  pub root : NodeId
  pub nodes : List Node
  pub state : ResourceState
  pub refs : ResourceRefs
  pub scheduled_deletion_at : Option ℕ
  pub archived_at : Option ℕ
  pub created_at : ℕ
  pub updated_at : ℕ
  pub metadata : Option Value

pub record NodeSkeleton : Type 0 where
  pub id : NodeId
  pub parent : Option NodeId
  pub children : List NodeId
  pub node_type : String

pub record TreeSkeleton : Type 0 where
  pub id : TreeId
  pub root : NodeId
  pub nodes : List NodeSkeleton
  pub state : ResourceState

-- The texts of the messages are left out.
pub data ArborError : Type 0 where
  tree_not_found : TreeId → ArborError
  node_not_found : NodeId → TreeId → ArborError
  storage_error : String → ArborError
  invalid_state : TreeId → ArborError

-- The rows of `trees`, of `tree_refs` and `node_refs`, of `nodes` and of `node_children`.
pub record TreeRow : Type 0 where
  pub id : TreeId
  pub root_node_id : NodeId
  pub ref_count : ℤ
  pub state : ResourceState
  pub scheduled_deletion_at : Option ℕ
  pub archived_at : Option ℕ
  pub created_at : ℕ
  pub updated_at : ℕ
  pub metadata : Option Value

pub record RefRow : Type 0 where
  pub resource_id : ℕ
  pub owner_id : String
  pub held : ℤ
  pub claimed_at : ℕ

pub record NodeRow : Type 0 where
  pub id : NodeId
  pub tree_id : TreeId
  pub parent_id : Option NodeId
  pub ref_count : ℕ
  pub state : ResourceState
  pub scheduled_deletion_at : Option ℕ
  pub archived_at : Option ℕ
  pub content : NodeType
  pub created_at : ℕ
  pub metadata : Option Value

pub record ChildRow : Type 0 where
  pub parent_id : NodeId
  pub child_id : NodeId
  pub position : ℕ

-- The newest node stands first.
pub record ArborStorage : Type 0 where
  pub trees : List TreeRow
  pub tree_refs : List RefRow
  pub nodes : List NodeRow
  pub node_refs : List RefRow
  pub node_children : List ChildRow
  -- The reading of `current_timestamp()`.
  pub now : ℕ

abbrev pub Action : Type 0 → Type 0
Action A = Exec ArborStorage ArborError A

abbrev pub is_active : ResourceState → Bool
is_active active = true
is_active _ = false

abbrev pub is_scheduled : ResourceState → Bool
is_scheduled scheduled_delete = true
is_scheduled _ = false

abbrev pub is_archived : ResourceState → Bool
is_archived archived = true
is_archived _ = false

-- What the primary keys of the tables look for.
abbrev pub has_tree : TreeId → ArborStorage → Bool
has_tree id s = any (λ (t : TreeRow). t.id == id) s.trees

abbrev pub has_node : NodeId → ArborStorage → Bool
has_node id s = any (λ (n : NodeRow). n.id == id) s.nodes

abbrev pub is_ref : ℕ → String → RefRow → Bool
is_ref id owner r = (r.resource_id == id) && same_text r.owner_id owner
