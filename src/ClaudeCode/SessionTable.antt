-- ===== src/ClaudeCode/SessionTable.antt =====
-- src/activations/claudecode/storage.rs: the table of sessions. The text of a UUID is an argument where
-- it becomes part of a name, or owns a tree.
use Prim.Native.Char.{Char, code}
use Prim.Native.String.{String, ◌++◌ as str_append}
use mneme_substrate.Base.{
  ℕ, Bool, false, Option, none, some, List, [], ◌∷◌, any, if◌then◌else◌, leb, ◌==◌, ◌||◌, ◌&&◌, ◌+◌,
  Result, ok, err,
}
use mneme_substrate.Base.Exec.{Exec}
use mneme_substrate.Base.Json.{Value}
use mneme_substrate.Base.Text.{same_text, is_empty_text}
use mneme_substrate.Arbor.Types.{TreeId, NodeId, ArborStorage}
use mneme_substrate.ClaudeCode.Types.{ClaudeCodeId, Position, Model, ClaudeCodeConfig}
use mneme_substrate.ClaudeCode.Types.{ClaudeCodeError, failed_statement, bad_model}

pub record SessionRow : Type 0 where
  pub id : ClaudeCodeId
  pub name : String
  pub claude_session_id : Option String
  pub loopback_session_id : Option String
  pub tree_id : TreeId
  pub canonical_head : NodeId
  pub working_dir : String
  pub model : String
  pub system_prompt : Option String
  pub mcp_config : Option Value
  pub loopback_enabled : Bool
  pub metadata : Option Value
  pub created_at : ℕ
  pub updated_at : ℕ

-- The table, the storage of the trees, and the reading of the clock.
pub record SessionStore : Type 0 where
  pub claudecode_sessions : List SessionRow
  pub arbor : ArborStorage
  pub now : ℕ

abbrev pub Action : Type 0 → Type 0
Action A = Exec SessionStore ClaudeCodeError A

unfoldable pub as_str : Model → String
as_str Model.opus = "opus"
as_str Model.sonnet = "sonnet"
as_str Model.haiku = "haiku"

-- Letters without their case. The Kelvin sign is the one other character that is lowered to one of
-- these letters.
abbrev pub lower : Char → ℕ
lower c = let n = code c in if leb 65 n && leb n 90 then n + 32 else if n == 8490 then 107 else n

-- `s.to_lowercase() == word` for a word in small letters.
abbrev pub reads_as : String → String → Bool
reads_as String.[] s = is_empty_text s
reads_as (String.◌∷◌ c word) String.[] = false
reads_as (String.◌∷◌ c word) (String.◌∷◌ d s) = (code c == lower d) && reads_as word s

unfoldable pub from_str : String → Option Model
from_str s =
    if reads_as "opus" s
    then some Model.opus
    else if reads_as "sonnet" s
    then some Model.sonnet
    else if reads_as "haiku" s
    then some Model.haiku
    else none

abbrev pub config_with : SessionRow → Model → ClaudeCodeConfig
config_with r model = record {
  id = r.id;
  name = r.name;
  claude_session_id = r.claude_session_id;
  loopback_session_id = r.loopback_session_id;
  head = record { tree_id = r.tree_id; node_id = r.canonical_head };
  working_dir = r.working_dir;
  model = model;
  system_prompt = r.system_prompt;
  mcp_config = r.mcp_config;
  loopback_enabled = r.loopback_enabled;
  metadata = r.metadata;
  created_at = r.created_at;
  updated_at = r.updated_at;
}

abbrev pub read_with : {A : Type 0} → String → Option Model → (Model → A) → Result ClaudeCodeError A
read_with text none f = err (bad_model text)
read_with text (some model) f = ok (f model)

unfoldable pub row_to_config : SessionRow → Result ClaudeCodeError ClaudeCodeConfig
unfolding from_str
row_to_config r = read_with r.model (from_str r.model) (config_with r)

unfoldable pub find_id : ClaudeCodeId → List SessionRow → Option SessionRow
find_id id [] = none
find_id id (r ∷ rows) = if r.id == id then some r else find_id id rows

unfoldable pub find_name : String → List SessionRow → Option SessionRow
find_name name [] = none
find_name name (r ∷ rows) = if same_text r.name name then some r else find_name name rows

-- A row that an `INSERT` or an `UPDATE` of its name would meet.
abbrev pub has_id : ClaudeCodeId → List SessionRow → Bool
has_id id rows = any (λ (r : SessionRow). r.id == id) rows

abbrev pub has_name : String → List SessionRow → Bool
has_name name rows = any (λ (r : SessionRow). same_text r.name name) rows

-- The columns that are bound beside the name.
pub record NewSession : Type 0 where
  pub working_dir : String
  pub model : Model
  pub system_prompt : Option String
  pub mcp_config : Option Value
  pub loopback_enabled : Bool
  pub claude_session_id : Option String
  pub loopback_session_id : Option String
  pub metadata : Option Value

abbrev pub new_row : ClaudeCodeId → String → Position → NewSession → ℕ → SessionRow
unfolding as_str
new_row id name head n now = record {
  id = id;
  name = name;
  claude_session_id = n.claude_session_id;
  loopback_session_id = n.loopback_session_id;
  tree_id = head.tree_id;
  canonical_head = head.node_id;
  working_dir = n.working_dir;
  model = as_str n.model;
  system_prompt = n.system_prompt;
  mcp_config = n.mcp_config;
  loopback_enabled = n.loopback_enabled;
  metadata = n.metadata;
  created_at = now;
  updated_at = now;
}

-- The primary key, and the names, are unique.
unfoldable pub insert_row : SessionRow → Action (Unit {0})
insert_row r s =
    if has_id r.id s.claudecode_sessions || has_name r.name s.claudecode_sessions
    then (err failed_statement, s)
    else (ok tt, record s { claudecode_sessions = r ∷ s.claudecode_sessions })

abbrev pub inserted :
    SessionRow
    → Model
    → Result ClaudeCodeError (Unit {0}) × SessionStore
    → Result ClaudeCodeError ClaudeCodeConfig × SessionStore
inserted r model (ok _, s) = (ok (config_with r model), s)
inserted r model (err e, s) = (err e, s)

abbrev pub or_insert :
    SessionRow
    → Model
    → Result ClaudeCodeError (Unit {0}) × SessionStore
    → SessionRow
    → Result ClaudeCodeError ClaudeCodeConfig × SessionStore
unfolding insert_row
or_insert r model (ok _, s) r' = (ok (config_with r model), s)
or_insert r model (err e, s) r' = inserted r' model (insert_row r' s)

-- When the name is taken, the name with `#` and the id is tried.
unfoldable pub insert_session :
    (ℕ → String) → ClaudeCodeId → String → Position → NewSession → Action ClaudeCodeConfig
unfolding insert_row as_str
insert_session to_string id name head n s =
    let r = new_row id name head n s.now in
    let r' = new_row id (str_append name (str_append "#" (to_string id))) head n s.now in
    or_insert r n.model (insert_row r s) r'
