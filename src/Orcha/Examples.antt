-- ===== src/Orcha/Examples.antt =====
-- A session that is stored and read back, and a task whose second attempt validates.
use mneme_substrate.Base.{
  ℕ, true, none, some, List, [], ◌∷◌, ◌≡◌, refl, leb, ok, arith, count, length, ◌+◌,
}
use mneme_substrate.Base.Json.{null}
use mneme_substrate.Loopback.Storage.{LoopbackStorage}
use mneme_substrate.Orcha.Types.{SessionState, AgentState, AgentMode, AgentInfo}
use mneme_substrate.Orcha.Storage.{
  OrchaStorage, Call, create, set_state, retry, delete, spawn, set_agent, serve, load_sessions,
  get_agent_counts, list_agents,
}
use mneme_substrate.Orcha.Counted.{works, has_completed, has_failed, get_agent_counts-serve}
use mneme_substrate.Orcha.Restart.{AllU32, load_sessions-serve}
use mneme_substrate.Orcha.Task.{
  World, Run, RunTaskRequest, ValidationArtifact, made, content, complete, tool_use,
  run_orchestration_task,
}
use mneme_substrate.Orcha.Outcome.{Finds, run_orchestration_task-Finds}

abbrev empty : OrchaStorage
empty = record { orcha_sessions = []; orcha_agents = []; sessions = []; now = 0 }

abbrev day : List (ℕ × Call)
day =
    (1, create 7 "opus" "/workspace" none 3 AgentMode.multi (some 4))
    ∷ (2, create 8 "haiku" "/workspace" none 3 AgentMode.single none)
    ∷ (3, spawn 70 7 "cc-1" "parse" true none)
    ∷ (4, set_state 7 (SessionState.running "cc-1" 5 1 0 0))
    ∷ (5, retry 7)
    ∷ (6, set_agent 70 (AgentState.failed "no such file"))
    ∷ (7, delete 8)
    ∷ []

day-AllU32 : AllU32 day
day-AllU32 = (
  omega arith,
  (omega arith, (tt, ((omega arith, omega arith, omega arith), (tt, (tt, (tt, tt)))))),
)

load_sessions-serve_example : load_sessions (serve day empty) ≡ ok (serve day empty)
load_sessions-serve_example = load_sessions-serve day empty day-AllU32 tt

abbrev quiet : LoopbackStorage
quiet = record {
  approvals = [];
  tool_sessions = [];
  notifiers = [];
  parents = [];
  children = [];
  now = 0;
}

abbrev test : ValidationArtifact
test = record { test_command = "cargo test"; cwd = "/workspace" }

-- The test fails after the first attempt only.
abbrev world : World
world = record {
  context = ok 5;
  create = made "cc-1" ∷ [];
  chat = λ n prompt. content "done" ∷ tool_use "Bash" "t1" null ∷ complete ∷ [];
  captures = λ text. some text;
  read_artifact = λ json. some test;
  command = λ n line dir. ok (record { success = leb 1 n; code = none; stdout = ""; stderr = "" });
  id_text = λ id. "s";
}

abbrev request : RunTaskRequest
request = record {
  model = "opus";
  task = "fix the parser";
  working_directory = "/workspace";
  rules = none;
  max_retries = 3;
  verbose = true;
}

abbrev initial : Run
initial = record { storage = empty; loopback = quiet; events = [] }

run_orchestration_task-Finds_example :
    Finds world 9 "cc-1" request 0 (run_orchestration_task world 9 request 4 initial)
run_orchestration_task-Finds_example =
    run_orchestration_task-Finds world 9 "cc-1" request 5 initial refl refl refl

get_agent_counts-serve_example :
    (is : List AgentInfo) × (list_agents 7 (serve day empty) ≡ ok is)
    × (get_agent_counts 7 (serve day empty)
        ≡ (count works is, count has_completed is, count has_failed is))
    × (count works is + count has_completed is + count has_failed is ≡ length is)
unfolding serve
get_agent_counts-serve_example = get_agent_counts-serve day empty 7 tt (omega arith)
