-- ===== src/Arbor/Trees.antt =====
-- src/activations/arbor/storage.rs: trees and the references that keep them alive. `tree_id` and
-- `owner_id` are the key of `tree_refs`, so a statement about an owner's row is about the first.
-- What a transaction wrote is not there when it fails.
use mneme_substrate.Base.{
  ℕ, String, Bool, false, ◌&&◌, ◌||◌, ◌+◌, Option, none, some, List, [], ◌∷◌, any, filter, map,
  length, if◌then◌else◌, ltb, ◌==◌, Result, ok, err,
}
use mneme_substrate.Base.Int.{ℤ, pos, ◌+ℤ◌, ◌-ℤ◌, ltb_ℤ, is_zero}
use mneme_substrate.Base.Json.{Value}
use mneme_substrate.Arbor.Types.{
  TreeId, NodeId, ResourceRefs, ArborError, TreeRow, RefRow, NodeRow, ArborStorage, Action, text,
  active, scheduled_delete, archived, tree_not_found, storage_error, invalid_state, is_active,
  is_scheduled, is_archived, has_tree, has_node, is_ref,
}

unfoldable pub find_tree : TreeId → List TreeRow → Option TreeRow
find_tree id [] = none
find_tree id (t ∷ ts) = if t.id == id then some t else find_tree id ts

-- `UPDATE trees SET … WHERE id = ?`
unfoldable pub update_tree : TreeId → (TreeRow → TreeRow) → List TreeRow → List TreeRow
update_tree id f [] = []
update_tree id f (t ∷ ts) = (if t.id == id then f t else t) ∷ update_tree id f ts

abbrev pub new_tree : TreeId → NodeId → Option Value → ℕ → TreeRow
new_tree id root metadata now = record {
  id = id;
  root_node_id = root;
  ref_count = pos 1;
  state = active;
  scheduled_deletion_at = none;
  archived_at = none;
  created_at = now;
  updated_at = now;
  metadata = metadata;
}

abbrev pub new_ref : TreeId → String → ℤ → ℕ → RefRow
new_ref id owner n now = record { resource_id = id; owner_id = owner; held = n; claimed_at = now }

abbrev pub root_node : NodeId → TreeId → ℕ → NodeRow
root_node root id now = record {
  id = root;
  tree_id = id;
  parent_id = none;
  ref_count = 1;
  state = active;
  scheduled_deletion_at = none;
  archived_at = none;
  content = text "";
  created_at = now;
  metadata = none;
}

abbrev pub insert_tree : TreeId → NodeId → Option Value → String → ArborStorage → ArborStorage
insert_tree id root metadata owner s = record s {
  trees = new_tree id root metadata s.now ∷ s.trees;
  tree_refs = new_ref id owner (pos 1) s.now ∷ s.tree_refs;
  nodes = root_node root id s.now ∷ s.nodes;
}

-- `id` is the caller's or a new UUID, `root` is a new UUID.
unfoldable pub tree_create_with_id : TreeId → NodeId → Option Value → String → Action TreeId
tree_create_with_id id root metadata owner s =
    if has_tree id s || any (is_ref id owner) s.tree_refs || has_node root s
    then (err (storage_error "unknown"), s)
    else (ok id, insert_tree id root metadata owner s)

-- The loop over the rows of a resource.
unfoldable pub add_refs : ℕ → List RefRow → ResourceRefs → ResourceRefs
add_refs id [] acc = acc
add_refs id (r ∷ rs) acc = add_refs id rs (
    if r.resource_id == id
    then record { ref_count = acc.ref_count +ℤ r.held; owners = (r.owner_id, r.held) ∷ acc.owners }
    else acc)

-- `get_tree_refs` and `get_node_refs`
unfoldable pub get_refs : ℕ → List RefRow → ResourceRefs
unfolding add_refs
get_refs id rows = add_refs id rows (record { ref_count = pos 0; owners = [] })

abbrev pub tree_ids : (TreeRow → Bool) → ArborStorage → List TreeId
tree_ids p s = map (λ (t : TreeRow). t.id) (filter p s.trees)

unfoldable pub tree_list : Bool → ArborStorage → List TreeId
tree_list include_scheduled s =
    if include_scheduled
    then tree_ids (λ t. is_active t.state || is_scheduled t.state) s
    else tree_ids (λ t. is_active t.state) s

unfoldable pub tree_list_scheduled : ArborStorage → List TreeId
tree_list_scheduled s = tree_ids (λ t. is_scheduled t.state) s

unfoldable pub tree_list_archived : ArborStorage → List TreeId
tree_list_archived s = tree_ids (λ t. is_archived t.state) s

abbrev pub set_metadata : Value → ℕ → TreeRow → TreeRow
set_metadata metadata now t =
    if is_active t.state then record t { metadata = some metadata; updated_at = now } else t

-- That no tree is changed is no error.
unfoldable pub tree_update_metadata : TreeId → Value → Action (Unit {0})
unfolding update_tree
tree_update_metadata id metadata s =
    (ok tt, record s { trees = update_tree id (set_metadata metadata s.now) s.trees })

-- `INSERT INTO tree_refs … ON CONFLICT DO UPDATE`
unfoldable pub claim_ref : TreeId → String → ℤ → ℕ → List RefRow → List RefRow
claim_ref id owner n now [] = new_ref id owner n now ∷ []
claim_ref id owner n now (r ∷ rs) =
    let rest = claim_ref id owner n now rs in
    if is_ref id owner r then record r { held = r.held +ℤ n; claimed_at = now } ∷ rs else r ∷ rest

-- A tree that is scheduled for deletion is active again.
abbrev pub reactivate : ℕ → TreeRow → TreeRow
reactivate now t =
    if is_scheduled t.state
    then record t { state = active; scheduled_deletion_at = none; updated_at = now }
    else t

abbrev pub count_more : ℤ → ℕ → TreeRow → TreeRow
count_more n now t = record t { ref_count = t.ref_count +ℤ n; updated_at = now }

abbrev pub count_or_error : Option TreeRow → Result ArborError ℤ
count_or_error none = err (storage_error "unknown")
count_or_error (some t) = ok t.ref_count

abbrev pub fetch_count : TreeId → List TreeRow → Result ArborError ℤ
fetch_count id rows = count_or_error (find_tree id rows)

-- The commit of a transaction, or its rollback.
abbrev pub commit :
    {A : Type 0}
    → Result ArborError A
    → ArborStorage
    → ArborStorage
    → Result ArborError A × ArborStorage
commit (ok a) new old = (ok a, new)
commit (err e) new old = (err e, old)

abbrev pub claim_rows : TreeId → ℤ → ArborStorage → List TreeRow
claim_rows id n s = update_tree id (count_more n s.now) (update_tree id (reactivate s.now) s.trees)

abbrev pub claimed : TreeId → String → ℤ → ArborStorage → ArborStorage
claimed id owner n s = record s {
  trees = claim_rows id n s;
  tree_refs = claim_ref id owner n s.now s.tree_refs;
}

abbrev pub claim_live : TreeId → String → ℤ → Action ℤ
claim_live id owner n s = commit (fetch_count id (claim_rows id n s)) (claimed id owner n s) s

abbrev pub claim_found : TreeId → String → ℤ → Option TreeRow → Action ℤ
claim_found id owner n none s = (err (tree_not_found id), s)
claim_found id owner n (some t) s =
    if is_archived t.state then (err (invalid_state id), s) else claim_live id owner n s

unfoldable pub tree_claim : TreeId → String → ℤ → Action ℤ
unfolding find_tree update_tree claim_ref
tree_claim id owner n s = claim_found id owner n (find_tree id s.trees) s

unfoldable pub find_ref : TreeId → String → List RefRow → Option ℤ
find_ref id owner [] = none
find_ref id owner (r ∷ rs) = if is_ref id owner r then some r.held else find_ref id owner rs

-- The owner's row is deleted when nothing is left of it, and written otherwise.
unfoldable pub release_ref : TreeId → String → ℤ → ℕ → List RefRow → List RefRow
release_ref id owner left now [] = []
release_ref id owner left now (r ∷ rs) =
    let rest = release_ref id owner left now rs in
    if is_ref id owner r
    then (if is_zero left then rs else record r { held = left; claimed_at = now } ∷ rs)
    else r ∷ rest

abbrev pub count_less : ℤ → ℕ → TreeRow → TreeRow
count_less n now t = record t { ref_count = t.ref_count -ℤ n; updated_at = now }

abbrev pub schedule : ℕ → TreeRow → TreeRow
schedule now t = record t {
  state = scheduled_delete;
  scheduled_deletion_at = some now;
  updated_at = now;
}

-- The tree is scheduled when its count has reached 0.
abbrev pub schedule_unused : TreeId → ℕ → Result ArborError ℤ → List TreeRow → List TreeRow
schedule_unused id now (ok n) rows = if is_zero n then update_tree id (schedule now) rows else rows
schedule_unused id now (err e) rows = rows

abbrev pub release_rows : TreeId → ℤ → ArborStorage → List TreeRow
release_rows id n s = update_tree id (count_less n s.now) s.trees

abbrev pub released : TreeId → String → ℤ → ℤ → ArborStorage → ArborStorage
released id owner n current s =
    let rows = release_rows id n s in
    record s {
      trees = schedule_unused id s.now (fetch_count id rows) rows;
      tree_refs = release_ref id owner (current -ℤ n) s.now s.tree_refs;
    }

abbrev pub release_enough : TreeId → String → ℤ → ℤ → Action ℤ
release_enough id owner n current s =
    commit (fetch_count id (release_rows id n s)) (released id owner n current s) s

abbrev pub release_held : TreeId → String → ℤ → Option ℤ → Action ℤ
release_held id owner n none s = (err (storage_error "unknown"), s)
release_held id owner n (some current) s =
    if ltb_ℤ current n
    then (err (storage_error "unknown"), s)
    else release_enough id owner n current s

unfoldable pub tree_release : TreeId → String → ℤ → Action ℤ
unfolding find_ref update_tree find_tree release_ref
tree_release id owner n s = release_held id owner n (find_ref id owner s.tree_refs) s

-- `scheduled_deletion_at < now - 604800`; a NULL compares as false.
abbrev pub is_expired : ℕ → TreeRow → Bool
is_expired now t =
    is_scheduled t.state
    && elim t.scheduled_deletion_at [ none ↦ false | some at ↦ ltb (at + 604800) now ]

abbrev pub archive : ℕ → TreeRow → TreeRow
archive now t =
    if is_expired now t
    then record t { state = archived; archived_at = some now; updated_at = now }
    else t

unfoldable pub cleanup_scheduled_trees : Action ℕ
cleanup_scheduled_trees s = (
  ok (length (filter (is_expired s.now) s.trees)),
  record s { trees = map (archive s.now) s.trees },
)
