-- ===== src/Orcha/Task.antt =====
-- src/activations/orcha/orchestrator.rs: run_orchestration_task, which runs an agent until its work
-- validates. What the agent says, what the regex, serde and the shell answer, and the tree that
-- records the session are arguments. The approval of a tool runs beside the task and is left out, as are
-- the nodes that are written to the tree.
use mneme_substrate.Base.{
  ℕ, zero, suc, String, Bool, true, false, Option, none, some, List, [], ◌∷◌, ◌++◌, if◌then◌else◌,
  leb, is_ok, Result, ok, err,
}
use mneme_substrate.Base.Int.{ℤ}
use mneme_substrate.Base.Json.{Value}
use mneme_substrate.Aggregate.Rules.{decimal}
use mneme_substrate.Loopback.Storage.{
  LoopbackStorage, register_session_parent, register_tool_session,
}
use mneme_substrate.Orcha.Types.{SessionId, SessionState, AgentMode}
use mneme_substrate.Orcha.Storage.{OrchaStorage, create_session, update_state, increment_retry}
use Prim.Native.String.{◌++◌ as append}

pub record RunTaskRequest : Type 0 where
  pub model : String
  pub task : String
  pub working_directory : String
  pub rules : Option String
  pub max_retries : ℕ
  pub verbose : Bool

pub record ValidationArtifact : Type 0 where
  pub test_command : String
  pub cwd : String

pub record ValidationResult : Type 0 where
  pub success : Bool
  pub output : String
  pub exit_code : Option ℤ

pub data ChatEvent : Type 0 where
  start complete : ChatEvent
  content : String → ChatEvent
  tool_use : String → String → Value → ChatEvent
  tool_result : String → String → Bool → ChatEvent
  failure : String → ChatEvent
  -- Thinking and passthrough.
  other : ChatEvent

pub data CreateResult : Type 0 where
  made : String → CreateResult
  refused : String → CreateResult

pub data OrchaEvent : Type 0 where
  state_change : SessionId → SessionState → OrchaEvent
  progress : String → ℕ → OrchaEvent
  output : String → OrchaEvent
  tool_used : String → String → Value → OrchaEvent
  tool_answered : String → String → Bool → OrchaEvent
  found_artifact : ValidationArtifact → OrchaEvent
  validation_started : String → OrchaEvent
  validation_result : ValidationResult → OrchaEvent
  retry_attempt : ℕ → ℕ → String → OrchaEvent
  completed : SessionId → OrchaEvent
  failed : SessionId → String → OrchaEvent

-- What `Command::output` gives: success, the exit code, and the texts of stdout and stderr.
pub record CommandOutput : Type 0 where
  pub success : Bool
  pub code : Option ℤ
  pub stdout : String
  pub stderr : String

-- What is asked of other activations, of the libraries and of the system. A chat and a command are
-- those of an attempt; `captures` is the group of the pattern `orcha_validate` in a text, and
-- `read_artifact` what serde reads it to; a session's id is a text.
pub record World : Type 0 where
  pub context : Result String ℕ
  pub create : List CreateResult
  pub chat : ℕ → String → List ChatEvent
  pub captures : String → Option String
  pub read_artifact : String → Option ValidationArtifact
  pub command : ℕ → String → String → Result String CommandOutput
  pub id_text : SessionId → String

-- No match, and a text that serde refuses, are no artifact.
unfoldable pub extract_validation_artifact : World → String → Option ValidationArtifact
extract_validation_artifact w text = elim (w.captures text) [
  | none ↦ none
  | some json ↦ w.read_artifact json
]

-- `sh -c` in the directory; a command that cannot be run has failed.
unfoldable pub run_validation_test : World → ℕ → ValidationArtifact → ValidationResult
run_validation_test w n a = elim (w.command n a.test_command a.cwd) [
  | ok out ↦ record {
    success = out.success;
    output = append out.stdout out.stderr;
    exit_code = out.code;
  }
  | err e ↦ record {
    success = false;
    output = append "Failed to execute command: " e;
    exit_code = none;
  }
]

-- The storages, and what has been yielded.
pub record Run : Type 0 where
  pub storage : OrchaStorage
  pub loopback : LoopbackStorage
  pub events : List OrchaEvent

abbrev pub emit : OrchaEvent → Run → Run
emit e r = record r { events = r.events ++ e ∷ [] }

abbrev pub say : Bool → OrchaEvent → Run → Run
say verbose e r = if verbose then emit e r else r

-- An error of the storage is logged and passed over.
abbrev pub set_state : SessionId → SessionState → Run → Run
unfolding update_state
set_state id state r = record r { storage = (update_state id state r.storage).1 }

-- The text so far, and the artifact that was found in it.
pub record Turn : Type 0 where
  pub text : String
  pub artifact : Option ValidationArtifact

abbrev pub keep_first :
    Option ValidationArtifact → Option ValidationArtifact → Option ValidationArtifact
keep_first none found = found
keep_first (some a) found = some a

abbrev pub say_found : Bool → Option ValidationArtifact → Option ValidationArtifact → Run → Run
say_found verbose none (some a) r = say verbose (found_artifact a) r
say_found verbose _ _ r = r

module _ (w : World) (sid : SessionId) (cc : String) (req : RunTaskRequest) where
  abbrev pub heard : String → Turn → Turn
  heard t turn = record {
    text = append turn.text t;
    artifact = keep_first turn.artifact (extract_validation_artifact w (append turn.text t));
  }

  -- The loop over the events of a chat, up to its end or an error.
  unfoldable pub process : List ChatEvent → Turn → Run → Result String Turn × Run
  unfolding register_tool_session
  process [] turn r = (ok turn, r)
  process (start ∷ es) turn r =
      process es turn (say req.verbose (progress "Agent started processing task" 40) r)
  process (content t ∷ es) turn r = process es (heard t turn) (
      say_found req.verbose turn.artifact (extract_validation_artifact w (append turn.text t))
        (say req.verbose (output t) r))
  process (tool_use name id input ∷ es) turn r = process es turn (
      say req.verbose (tool_used id name input)
        (record r { loopback = register_tool_session id cc r.loopback }))
  process (tool_result id out bad ∷ es) turn r =
      process es turn (say req.verbose (tool_answered id out bad) r)
  process (complete ∷ es) turn r = (ok turn, say req.verbose (progress "Agent completed task" 70) r)
  process (failure message ∷ es) turn r =
      (err message, emit (failed sid (append "Chat error: " message)) r)
  process (other ∷ es) turn r = process es turn r

  abbrev pub show : ℕ → String
  show n = decimal (suc n) n

  -- The prompt of a retry says so.
  unfoldable pub task_prompt : ℕ → String
  unfolding decimal
  task_prompt zero = req.task
  task_prompt (suc n) = append req.task (
      append "\n\n[RETRY " (
        append (show (suc n)) (
          append "/" (
            append (show req.max_retries)
              "] The previous attempt failed validation. Please fix the issues and try again."))))

  abbrev pub running_state : SessionState
  running_state = SessionState.running (append (w.id_text sid) "-cc") 0 0 0 0

  abbrev pub finish : Run → Run
  unfolding update_state
  finish r = emit (completed sid) (
      say req.verbose (state_change sid SessionState.complete)
        (set_state sid SessionState.complete r))

  unfoldable pub gave_up_text : ℕ → String
  unfolding decimal
  gave_up_text n = append "Validation failed after " (append (show n) " retries")

  abbrev pub give_up : ℕ → Run → Run
  unfolding update_state gave_up_text
  give_up n r =
      emit (failed sid (gave_up_text n)) (set_state sid (SessionState.failed (gave_up_text n)) r)

  abbrev pub validating_run : ValidationArtifact → ValidationResult → Run → Run
  unfolding update_state
  validating_run a result r = say req.verbose (validation_result result) (
      set_state sid (SessionState.validating a.test_command)
        (say req.verbose (validation_started a.test_command) r))

  abbrev pub retry_run : ℕ → Run → Run
  unfolding increment_retry
  retry_run n r =
      say req.verbose (retry_attempt n req.max_retries "Validation test failed")
        (record r { storage = (increment_retry sid r.storage).1 })

  abbrev pub begin_run : Run → Run
  unfolding update_state
  begin_run r =
      say req.verbose (state_change sid running_state)
        (set_state sid running_state (say req.verbose (progress "Starting task execution" 30) r))

  -- What follows a failed attempt, a test, and a chat; `next` is the loop's next round.
  abbrev pub judged : ℕ → (ℕ → Run → Option Run) → Bool → Run → Option Run
  unfolding update_state gave_up_text increment_retry
  judged n next true r = some (finish r)
  judged n next false r =
      if leb req.max_retries (suc n)
      then some (give_up (suc n) r)
      else next (suc n) (retry_run (suc n) r)

  abbrev pub validated : ℕ → (ℕ → Run → Option Run) → Option ValidationArtifact → Run → Option Run
  unfolding update_state gave_up_text increment_retry
  validated n next none r = some (finish r)
  validated n next (some a) r =
      judged n next (run_validation_test w n a).success
        (validating_run a (run_validation_test w n a) r)

  abbrev pub after_chat : ℕ → (ℕ → Run → Option Run) → Result String Turn × Run → Option Run
  unfolding update_state gave_up_text increment_retry
  after_chat n next (ok turn, r) = validated n next turn.artifact r
  after_chat n next (err message, r) = some r

  -- The retry loop; `none` when it is still going after `fuel` rounds.
  unfoldable pub task_loop : ℕ → ℕ → Run → Option Run
  unfolding process task_prompt update_state gave_up_text increment_retry
  task_loop zero n r = none
  task_loop (suc fuel) n r =
      after_chat n (task_loop fuel)
        (process (w.chat n (task_prompt n)) (record { text = ""; artifact = none }) (begin_run r))

abbrev pub linked : World → SessionId → Bool → String → Run → Run
unfolding register_session_parent
linked w sid verbose id r =
    say verbose (progress (append "Created Claude Code session: " id) 20)
      (record r { loopback = register_session_parent id (w.id_text sid) r.loopback })

-- The loop over the results of `claudecode.create`.
unfoldable pub create_loop :
    World
    → SessionId
    → Bool
    → List CreateResult
    → Option String
    → Run
    → Result String (Option String) × Run
unfolding register_session_parent
create_loop w sid verbose [] cc r = (ok cc, r)
create_loop w sid verbose (made id ∷ results) cc r =
    create_loop w sid verbose results (some id) (linked w sid verbose id r)
create_loop w sid verbose (refused message ∷ results) cc r =
    (err message, emit (failed sid (append "Failed to create Claude Code session: " message)) r)

abbrev pub run_created :
    World → SessionId → RunTaskRequest → ℕ → Result String (Option String) × Run → Option Run
unfolding task_loop
run_created w sid req fuel (err message, r) = some r
run_created w sid req fuel (ok none, r) =
    some (emit (failed sid "Failed to create Claude Code session: no response") r)
run_created w sid req fuel (ok (some cc), r) = task_loop w sid cc req fuel 0 r

abbrev pub creating : World → SessionId → RunTaskRequest → Run → Run
creating w sid req r =
    say req.verbose
      (progress (append "Creating Claude Code session: " (append (w.id_text sid) "-cc")) 10)
      (say req.verbose (state_change sid SessionState.idle) r)

abbrev pub run_session : World → SessionId → RunTaskRequest → ℕ → Bool × Run → Option Run
unfolding task_loop create_loop
run_session w sid req fuel (false, r) = some (emit (failed sid "Failed to create orcha session") r)
run_session w sid req fuel (true, r) =
    run_created w sid req fuel (create_loop w sid req.verbose w.create none (creating w sid req r))

abbrev pub store_session : SessionId → RunTaskRequest → ℕ → Run → Bool × Run
unfolding create_session
store_session sid req tree r =
    let (result, storage) =
      create_session sid req.model req.working_directory req.rules req.max_retries AgentMode.single
        (some tree) r.storage in
    (is_ok result, record r { storage = storage })

abbrev pub with_context :
    World → SessionId → RunTaskRequest → ℕ → Run → Result String ℕ → Option Run
unfolding task_loop create_loop create_session
with_context w sid req fuel r (err e) = some (emit (failed sid e) r)
with_context w sid req fuel r (ok tree) = run_session w sid req fuel (store_session sid req tree r)

-- The text of the storage's error is left out.
unfoldable pub run_orchestration_task : World → SessionId → RunTaskRequest → ℕ → Run → Option Run
unfolding task_loop create_loop create_session
run_orchestration_task w sid req fuel r = with_context w sid req fuel r w.context
