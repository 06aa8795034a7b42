-- ===== src/Loopback/Methods.antt =====
-- src/activations/claudecode_loopback/activation.rs: the methods, and calls that are served one
-- after another. A message stands as what it is formatted from.
use mneme_substrate.Base.{
  ℕ, String, Bool, false, Option, none, some, List, [], ◌∷◌, if◌then◌else◌, ltb, leb, is_empty,
  Result, ok, err, unwrap_or,
}
use mneme_substrate.Base.Json.{Value, as_str}
use mneme_substrate.Base.Json as Json
use mneme_substrate.Loopback.Storage.{
  ApprovalId, ApprovalStatus, ApprovalRequest, LoopbackStorage, LoopbackError,
  register_tool_session, lookup_session_by_tool, remove_tool_mapping, create_approval, get_approval,
  resolve_approval, list_pending, get_or_create_notifier, register_session_parent, remove_notifier,
}

abbrev or_else {ℓ} : {A : Type ℓ} → Option A → Option A → Option A
or_else none o = o
or_else (some a) _ = some a

abbrev connection_session : Option Value → Option String
connection_session none = none
connection_session (some v) = elim (Json.get "query.session_id" v) [
  | none ↦ none
  | some w ↦ as_str w
]

-- The session of a tool: of the connection, of the environment, or by the map of the tools.
unfoldable pub permit_session : Option Value → Option String → String → LoopbackStorage → String
unfolding lookup_session_by_tool
permit_session connection env tool_use s =
    unwrap_or "unknown"
      (or_else (or_else (connection_session connection) env) (lookup_session_by_tool tool_use s))

pub data Denial : Type 0 where
  failed_to_create failed_to_check : LoopbackError → Denial
  request_timed_out approval_timed_out : Denial
  denied_with : String → Denial

pub data Reply : Type 0 where
  allow : Value → Reply
  deny : Denial → Reply

-- What `permit` answers to the state of its request; `none`: it polls on.
abbrev pub answer : Value → Result LoopbackError ApprovalRequest → Option Reply
answer input (err e) = some (deny (failed_to_check e))
answer input (ok a) = elim a.status [
  | ApprovalStatus.approved ↦ some (allow input)
  | ApprovalStatus.denied ↦
      some (deny (denied_with (unwrap_or "Denied by parent" a.response_message)))
  | ApprovalStatus.timed_out ↦ some (deny approval_timed_out)
  | ApprovalStatus.pending ↦ none
]

-- One round of the loop of `permit`, `elapsed` seconds after its start.
unfoldable pub permit_round :
    ℕ → ApprovalId → Value → LoopbackStorage → Option Reply × LoopbackStorage
unfolding resolve_approval get_approval
permit_round elapsed id input s =
    if ltb 300 elapsed
    then (some (deny request_timed_out), (resolve_approval id false (some "Timed out") s).1)
    else (answer input (get_approval id s), s)

pub data WaitResult : Type 0 where
  approvals : List ApprovalRequest → WaitResult
  timeout : ℕ → WaitResult

-- The checks of a round of `wait_for_approval`; `none`: it waits for its notifier.
unfoldable pub wait_check : String → ℕ → ℕ → LoopbackStorage → Option WaitResult
unfolding list_pending
wait_check session limit elapsed s =
    let found = list_pending (some session) s in
    if is_empty found
    then (if leb limit elapsed then some (timeout limit) else none)
    else some (approvals found)

pub data Call : Type 0 where
  permit : ApprovalId → Option Value → Option String → String → String → Value → Call
  round : ℕ → ApprovalId → Value → Call
  respond : ApprovalId → Bool → Option String → Call
  wait forget : String → Call
  tool_session : String → String → Call
  tool_done : String → Call
  parent : String → String → Call

unfoldable pub handle : Call → LoopbackStorage → LoopbackStorage
unfolding permit_session create_approval permit_round resolve_approval get_or_create_notifier
    remove_notifier register_tool_session remove_tool_mapping register_session_parent
handle (permit id connection env tool tool_use input) s =
    (create_approval id (permit_session connection env tool_use s) tool tool_use input s).1
handle (round elapsed id input) s = (permit_round elapsed id input s).1
handle (respond id approve message) s = (resolve_approval id approve message s).1
handle (wait session) s = get_or_create_notifier session s
handle (forget session) s = remove_notifier session s
handle (tool_session tool session) s = register_tool_session tool session s
handle (tool_done tool) s = remove_tool_mapping tool s
handle (parent child of) s = register_session_parent child of s

-- Calls, each at its time.
unfoldable pub serve : List (ℕ × Call) → LoopbackStorage → LoopbackStorage
unfolding handle
serve [] s = s
serve ((now, call) ∷ calls) s = serve calls (handle call (record s { now = now }))
