-- ===== src/Orcha/Agents.antt =====
-- src/activations/orcha/orchestrator.rs: what becomes of a session when its agents are done.
use mneme_substrate.Base.{
  ℕ, suc, String, Bool, true, false, ◌&&◌, if◌then◌else◌, ltb, ◌==◌, Result, ok, err,
}
use mneme_substrate.Aggregate.Rules.{decimal}
use Prim.Native.String.{◌++◌ as append}
use mneme_substrate.Orcha.Types.{SessionId, SessionState, SessionInfo, AgentMode}
use mneme_substrate.Orcha.Storage.{
  OrchaStorage, OrchaError, get_session, get_agent_counts, update_state,
}

abbrev pub is_multi : AgentMode → Bool
is_multi AgentMode.multi = true
is_multi AgentMode.single = false

abbrev pub move_to : SessionId → SessionState → OrchaStorage → OrchaStorage
unfolding update_state
move_to id state s = (update_state id state s).1

unfoldable pub failed_text : ℕ → String
unfolding decimal
failed_text n = append (decimal (suc n) n) " agents failed"

-- No agent is active.
abbrev pub all_done : SessionId → ℕ → ℕ → SessionInfo → OrchaStorage → OrchaStorage
unfolding update_state failed_text
all_done id completed failed session s =
    if is_multi session.agent_mode
    then (if ltb 0 completed && (failed == 0)
        then move_to id SessionState.complete s
        else if ltb 0 failed && (completed == 0)
        then move_to id (SessionState.failed (failed_text failed)) s
        else move_to id SessionState.complete s)
    else s

-- Some agents are active: a running session is told how many.
abbrev pub some_active : SessionId → ℕ → ℕ → ℕ → SessionInfo → OrchaStorage → OrchaStorage
unfolding update_state
some_active id active completed failed session s = elim session.state [
  | SessionState.running stream seq a c f ↦
      move_to id (SessionState.running stream 0 active completed failed) s
  | _ ↦ s
]

abbrev pub with_session :
    (SessionInfo → OrchaStorage → OrchaStorage)
    → Result OrchaError SessionInfo
    → OrchaStorage
    → OrchaStorage
with_session f (ok session) s = f session s
with_session f (err e) s = s

unfoldable pub check_session_completion : SessionId → OrchaStorage → OrchaStorage
unfolding get_session get_agent_counts update_state failed_text
check_session_completion id s =
    let (active, completed, failed) = get_agent_counts id s in
    with_session
      (if active == 0 then all_done id completed failed else some_active id active completed failed)
      (get_session id s) s
