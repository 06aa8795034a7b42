-- ===== src/ClaudeCode/Sessions.antt =====
-- src/activations/claudecode/storage.rs: the methods on sessions. The text of a UUID is an argument,
-- where it becomes part of a name or owns a tree.
use Prim.Native.String.{String, ◌++◌ as str_append}
use mneme_substrate.Base.{
  ℕ, Bool, not, Option, none, some, is_some, unwrap_or, List, [], ◌∷◌, any, filter, map,
  if◌then◌else◌, leb, ◌==◌, ◌&&◌, Result, ok, err, and_then,
}
use mneme_substrate.Base.Exec.{Exec, ◌>>=◌}
use mneme_substrate.Base.Json.{Value}
use mneme_substrate.Base.Text.{same_text, join}
use mneme_substrate.Arbor.Types.{TreeId, NodeId, Tree, ArborStorage, ArborError}
use mneme_substrate.Arbor.Trees.{tree_create_with_id}
use mneme_substrate.Arbor.Nodes.{tree_get}
use mneme_substrate.ClaudeCode.Types.{
  ClaudeCodeId, Model, ClaudeCodeConfig, ClaudeCodeInfo, ClaudeCodeError, name_not_found,
  session_not_found, ambiguous_session, failed_statement,
}
use mneme_substrate.ClaudeCode.Render.{map_arbor}
use mneme_substrate.ClaudeCode.Like.{like}
use mneme_substrate.ClaudeCode.SessionTable.{
  SessionRow, SessionStore, Action, NewSession, as_str, from_str, read_with, row_to_config, find_id,
  find_name, has_id, insert_session,
}

abbrev pub in_arbor : {A : Type 0} → Exec ArborStorage ArborError A → Action A
in_arbor f s =
    let (r, a) = f (record s.arbor { now = s.now }) in (map_arbor r, record s { arbor = a })

abbrev pub tree_of : TreeId → Action Tree
unfolding tree_get
tree_of id s = (map_arbor (tree_get id s.arbor), s)

-- The ids of the session, of its tree and of the root are new UUIDs.
unfoldable pub session_create :
    (ℕ → String) → ClaudeCodeId → TreeId → NodeId → String → NewSession → Action ClaudeCodeConfig
unfolding ◌>>=◌ tree_create_with_id tree_get insert_session
session_create to_string id tree root name n = do
  tree_id ← in_arbor (tree_create_with_id tree root n.metadata (to_string id))
  t ← tree_of tree_id
  insert_session to_string id name (record { tree_id = tree_id; node_id = t.root }) n

unfoldable pub session_get : ClaudeCodeId → SessionStore → Result ClaudeCodeError ClaudeCodeConfig
unfolding find_id row_to_config
session_get id s = elim (find_id id s.claudecode_sessions) [
  | none ↦ err (session_not_found id)
  | some r ↦ row_to_config r
]

abbrev pub matched : String → List SessionRow → Result ClaudeCodeError ClaudeCodeConfig
unfolding row_to_config join
matched name [] = err (name_not_found name)
matched name (r ∷ []) = row_to_config r
matched name (r ∷ r' ∷ rows) =
    err (ambiguous_session name (join ", " (map (λ (r : SessionRow). r.name) (r ∷ r' ∷ rows))))

-- The exact name comes first, then the names that it begins.
unfoldable pub session_get_by_name : String → SessionStore → Result ClaudeCodeError ClaudeCodeConfig
unfolding find_name row_to_config like
session_get_by_name name s = elim (find_name name s.claudecode_sessions) [
  | none ↦
      matched name
        (filter (λ (r : SessionRow). like (str_append name "%") r.name) s.claudecode_sessions)
  | some r ↦ row_to_config r
]

abbrev pub insert_newest : SessionRow → List SessionRow → List SessionRow
insert_newest r [] = r ∷ []
insert_newest r (r' ∷ rows) =
    let rest = insert_newest r rows in
    if leb r'.created_at r.created_at then r ∷ r' ∷ rows else r' ∷ rest

-- `ORDER BY created_at DESC`
unfoldable pub newest_first : List SessionRow → List SessionRow
newest_first [] = []
newest_first (r ∷ rows) = insert_newest r (newest_first rows)

abbrev pub info_with : SessionRow → Model → ClaudeCodeInfo
info_with r model = record {
  id = r.id;
  name = r.name;
  model = model;
  head = record { tree_id = r.tree_id; node_id = r.canonical_head };
  claude_session_id = r.claude_session_id;
  working_dir = r.working_dir;
  loopback_enabled = r.loopback_enabled;
  created_at = r.created_at;
}

abbrev pub read_infos : List SessionRow → Result ClaudeCodeError (List ClaudeCodeInfo)
unfolding from_str
read_infos [] = ok []
read_infos (r ∷ rows) =
    and_then (read_with r.model (from_str r.model) (info_with r))
      λ info. and_then (read_infos rows) λ infos. ok (info ∷ infos)

unfoldable pub session_list : SessionStore → Result ClaudeCodeError (List ClaudeCodeInfo)
unfolding newest_first from_str
session_list s = read_infos (newest_first s.claudecode_sessions)

unfoldable pub list_session_ids : SessionStore → List ClaudeCodeId
unfolding newest_first
list_session_ids s = map (λ (r : SessionRow). r.id) (newest_first s.claudecode_sessions)

unfoldable pub session_exists : ClaudeCodeId → SessionStore → Bool
unfolding find_id
session_exists id s = is_some (find_id id s.claudecode_sessions)

-- `UPDATE claudecode_sessions SET … WHERE id = ?`
unfoldable pub change_row :
    ClaudeCodeId → (SessionRow → SessionRow) → List SessionRow → List SessionRow
change_row id f [] = []
change_row id f (r ∷ rows) = (if r.id == id then f r else r) ∷ change_row id f rows

abbrev pub change : ClaudeCodeId → (SessionRow → SessionRow) → SessionStore → SessionStore
unfolding change_row
change id f s = record s { claudecode_sessions = change_row id f s.claudecode_sessions }

-- No row was affected.
abbrev pub affected : ClaudeCodeId → SessionStore → Result ClaudeCodeError (Unit {0})
affected id s = if has_id id s.claudecode_sessions then ok tt else err (session_not_found id)

abbrev pub with_head : NodeId → Option String → ℕ → SessionRow → SessionRow
with_head node claude now r = record r {
  canonical_head = node;
  claude_session_id = elim claude [ none ↦ r.claude_session_id | some c ↦ some c ];
  updated_at = now;
}

unfoldable pub session_update_head : ClaudeCodeId → NodeId → Option String → Action (Unit {0})
unfolding change_row
session_update_head id node claude s = (affected id s, change id (with_head node claude s.now) s)

abbrev pub with_loopback : String → ℕ → SessionRow → SessionRow
with_loopback loopback now r = record r { loopback_session_id = some loopback; updated_at = now }

unfoldable pub session_update_loopback_id : ClaudeCodeId → String → Action (Unit {0})
unfolding change_row
session_update_loopback_id id loopback s = (ok tt, change id (with_loopback loopback s.now) s)

abbrev pub with_claude : String → ℕ → SessionRow → SessionRow
with_claude claude now r = record r { claude_session_id = some claude; updated_at = now }

unfoldable pub session_update_claude_id : ClaudeCodeId → String → Action (Unit {0})
unfolding change_row
session_update_claude_id id claude s = (ok tt, change id (with_claude claude s.now) s)

pub record Changes : Type 0 where
  pub name : Option String
  pub model : Option Model
  pub system_prompt : Option (Option String)
  pub mcp_config : Option Value
  pub metadata : Option Value

abbrev pub or_else {ℓ} : {A : Type ℓ} → Option A → Option A → Option A
or_else none b = b
or_else (some a) b = some a

abbrev pub with_changes : Changes → ClaudeCodeConfig → ℕ → SessionRow → SessionRow
unfolding as_str
with_changes c current now r = record r {
  name = unwrap_or current.name c.name;
  model = as_str (unwrap_or current.model c.model);
  system_prompt = unwrap_or current.system_prompt c.system_prompt;
  mcp_config = or_else c.mcp_config current.mcp_config;
  metadata = or_else c.metadata current.metadata;
  updated_at = now;
}

-- Another session has the name.
abbrev pub is_taken : ClaudeCodeId → String → List SessionRow → Bool
is_taken id name rows = any (λ (r : SessionRow). not (r.id == id) && same_text r.name name) rows

abbrev pub updated :
    ClaudeCodeId
    → Changes
    → SessionStore
    → Result ClaudeCodeError ClaudeCodeConfig
    → Result ClaudeCodeError (Unit {0}) × SessionStore
unfolding as_str change_row
updated id c s (err e) = (err e, s)
updated id c s (ok current) =
    if is_taken id (unwrap_or current.name c.name) s.claudecode_sessions
    then (err failed_statement, s)
    else (ok tt, change id (with_changes c current s.now) s)

unfoldable pub session_update : ClaudeCodeId → Changes → Action (Unit {0})
unfolding session_get as_str change_row
session_update id c s = updated id c s (session_get id s)

-- The rows of the messages and of the unknown events of the session, which go with it, are in tables
-- that are not modelled.
unfoldable pub session_delete : ClaudeCodeId → Action (Unit {0})
session_delete id s = (
  affected id s,
  record s {
    claudecode_sessions = filter (λ (r : SessionRow). not (r.id == id)) s.claudecode_sessions;
  },
)

pub data Call : Type 0 where
  create : ClaudeCodeId → TreeId → NodeId → String → NewSession → Call
  update_head : ClaudeCodeId → NodeId → Option String → Call
  update_loopback_id update_claude_id : ClaudeCodeId → String → Call
  update : ClaudeCodeId → Changes → Call
  delete : ClaudeCodeId → Call

module _ (to_string : ℕ → String) where
  unfoldable pub handle : Call → SessionStore → SessionStore
  unfolding session_create session_update_head session_update_loopback_id session_update_claude_id
      session_update session_delete
  handle (create id tree root name n) s = (session_create to_string id tree root name n s).1
  handle (update_head id node claude) s = (session_update_head id node claude s).1
  handle (update_loopback_id id loopback) s = (session_update_loopback_id id loopback s).1
  handle (update_claude_id id claude) s = (session_update_claude_id id claude s).1
  handle (update id c) s = (session_update id c s).1
  handle (delete id) s = (session_delete id s).1

  -- Calls, each at its time.
  unfoldable pub serve : List (ℕ × Call) → SessionStore → SessionStore
  unfolding handle
  serve [] s = s
  serve ((now, c) ∷ calls) s = serve calls (handle c (record s { now = now }))
