-- ===== src/Loopback/Storage.antt =====
-- src/activations/claudecode_loopback/storage.rs and types.rs: the table of approval requests, and
-- the maps in memory: which session a tool belongs to, who waits, and which session is whose child.
-- The locks of the maps are never poisoned here, and the text of a status is the status.
use Prim.Native.Nat.{ℕ}
use mneme_substrate.Base.{
  String, Bool, true, false, not, ◌&&◌, Option, none, some, List, [], ◌∷◌, ◌++◌, filter, any,
  if◌then◌else◌, ◌==◌, sort_by, unwrap_or, Result, ok, err,
}
use mneme_substrate.Base.Exec.{Exec}
use mneme_substrate.Base.Json.{Value}
use mneme_substrate.Base.Text.{same_text, get}

abbrev pub ApprovalId : Type 0
ApprovalId = ℕ

pub data ApprovalStatus : Type 0 where
  pending approved denied timed_out : ApprovalStatus

pub record ApprovalRequest : Type 0 where
  pub id : ApprovalId
  pub session_id : String
  pub tool_name : String
  pub tool_use_id : String
  pub input : Value
  pub status : ApprovalStatus
  pub response_message : Option String
  pub created_at : ℕ
  pub resolved_at : Option ℕ

pub record LoopbackStorage : Type 0 where
  pub approvals : List ApprovalRequest
  pub tool_sessions : List (String × String)
  -- Each waiter's `Notify`, and whether it holds a permit.
  pub notifiers : List (String × Bool)
  pub parents : List (String × String)
  pub children : List (String × List String)
  -- The reading of `current_timestamp()`.
  pub now : ℕ

pub data LoopbackError : Type 0 where
  storage : LoopbackError
  approval_not_found : ApprovalId → LoopbackError

abbrev pub Action : Type 0 → Type 0
Action A = Exec LoopbackStorage LoopbackError A

-- `map.insert`: what the key held is replaced.
abbrev pub without {ℓ} : {A : Type ℓ} → String → List (String × A) → List (String × A)
without k m = filter (λ e. not (same_text e.0 k)) m

unfoldable pub register_tool_session : String → String → LoopbackStorage → LoopbackStorage
register_tool_session tool session s = record s {
  tool_sessions = (tool, session) ∷ without tool s.tool_sessions;
}

unfoldable pub lookup_session_by_tool : String → LoopbackStorage → Option String
lookup_session_by_tool tool s = get tool s.tool_sessions

unfoldable pub remove_tool_mapping : String → LoopbackStorage → LoopbackStorage
remove_tool_mapping tool s = record s { tool_sessions = without tool s.tool_sessions }

-- `notify_one` on the notifier of a session that has one.
unfoldable pub wake : String → List (String × Bool) → List (String × Bool)
wake session [] = []
wake session ((k, permit) ∷ rest) =
    (if same_text k session then (k, true) else (k, permit)) ∷ wake session rest

abbrev pub wake_parent : Option String → List (String × Bool) → List (String × Bool)
wake_parent none ns = ns
wake_parent (some parent) ns = wake parent ns

unfoldable pub notify_session : String → LoopbackStorage → LoopbackStorage
unfolding wake
notify_session session s = record s {
  notifiers = wake_parent (get session s.parents) (wake session s.notifiers);
}

abbrev pub has_approval : ApprovalId → LoopbackStorage → Bool
has_approval id s = any (λ (a : ApprovalRequest). a.id == id) s.approvals

abbrev pub new_approval : ApprovalId → String → String → String → Value → ℕ → ApprovalRequest
new_approval id session tool tool_use input now = record {
  id = id;
  session_id = session;
  tool_name = tool;
  tool_use_id = tool_use;
  input = input;
  status = ApprovalStatus.pending;
  response_message = none;
  created_at = now;
  resolved_at = none;
}

abbrev pub put_approval : ApprovalRequest → LoopbackStorage → LoopbackStorage
put_approval a s = record s { approvals = s.approvals ++ a ∷ [] }

-- A UUID that is taken meets the primary key.
unfoldable pub create_approval :
    ApprovalId → String → String → String → Value → Action ApprovalRequest
unfolding notify_session
create_approval id session tool tool_use input s =
    let a = new_approval id session tool tool_use input s.now in
    if has_approval id s
    then (err storage, s)
    else (ok a, notify_session session (put_approval a s))

unfoldable pub find_approval : ApprovalId → List ApprovalRequest → Option ApprovalRequest
find_approval id [] = none
find_approval id (a ∷ rest) = if a.id == id then some a else find_approval id rest

abbrev pub found_approval :
    ApprovalId → Option ApprovalRequest → Result LoopbackError ApprovalRequest
found_approval id none = err (approval_not_found id)
found_approval id (some a) = ok a

unfoldable pub get_approval : ApprovalId → LoopbackStorage → Result LoopbackError ApprovalRequest
unfolding find_approval
get_approval id s = found_approval id (find_approval id s.approvals)

-- `UPDATE … WHERE id = ?`: the status that the row had is not looked at.
unfoldable pub resolve_rows :
    ApprovalId → Bool → Option String → ℕ → List ApprovalRequest → List ApprovalRequest
resolve_rows id approve message now [] = []
resolve_rows id approve message now (a ∷ rest) =
    (if a.id == id
      then record a {
        status = if approve then ApprovalStatus.approved else ApprovalStatus.denied;
        response_message = message;
        resolved_at = some now;
      }
      else a)
    ∷ resolve_rows id approve message now rest

unfoldable pub resolve_approval : ApprovalId → Bool → Option String → Action (Unit {0})
unfolding resolve_rows
resolve_approval id approve message s =
    if has_approval id s
    then (ok tt, record s { approvals = resolve_rows id approve message s.now s.approvals })
    else (err (approval_not_found id), s)

abbrev pub is_pending : ApprovalStatus → Bool
is_pending ApprovalStatus.pending = true
is_pending _ = false

unfoldable pub get_pending_approvals : String → LoopbackStorage → List ApprovalRequest
get_pending_approvals session s =
    filter (λ (a : ApprovalRequest). same_text a.session_id session && is_pending a.status)
      s.approvals

-- A session and the children that are registered for it.
abbrev pub session_ids : String → LoopbackStorage → List String
session_ids session s = session ∷ unwrap_or [] (get session s.children)

abbrev pub is_asked : Option String → LoopbackStorage → ApprovalRequest → Bool
is_asked none s a = is_pending a.status
is_asked (some session) s a =
    any (λ id. same_text id a.session_id) (session_ids session s) && is_pending a.status

unfoldable pub list_pending : Option String → LoopbackStorage → List ApprovalRequest
list_pending session s =
    sort_by (λ (a : ApprovalRequest). a.created_at) (filter (is_asked session s) s.approvals)

abbrev pub has_notifier : String → LoopbackStorage → Bool
has_notifier session s = any (λ n. same_text n.0 session) s.notifiers

unfoldable pub get_or_create_notifier : String → LoopbackStorage → LoopbackStorage
get_or_create_notifier session s =
    if has_notifier session s then s else record s { notifiers = (session, false) ∷ s.notifiers }

-- The child is pushed behind the children that the parent has.
unfoldable pub register_session_parent : String → String → LoopbackStorage → LoopbackStorage
register_session_parent child parent s = record s {
  parents = (child, parent) ∷ without child s.parents;
  children =
      (parent, unwrap_or [] (get parent s.children) ++ child ∷ []) ∷ without parent s.children;
}

unfoldable pub remove_notifier : String → LoopbackStorage → LoopbackStorage
remove_notifier session s = record s { notifiers = without session s.notifiers }
