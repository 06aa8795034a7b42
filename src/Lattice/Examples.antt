-- ===== src/Lattice/Examples.antt =====
-- The theorems about the lattice at a small running graph: a task 10 feeds a Gather 11.
use mneme_substrate.Base.{
  ℕ, false, ◌&&◌, none, some, List, [], ◌∷◌, ◌++◌, ◌≡◌, refl, arith, ok, if◌then◌else◌,
}
use mneme_substrate.Base.Exec.Safe.{Lands}
use mneme_substrate.Base.Json.{null}
use mneme_substrate.Lattice.Types.{
  ok_token, NodeSpec, gather, everything, NodeStatus, GraphStatus, any_input,
}
use mneme_substrate.Lattice.Store.{
  GraphRow, Node, Store, find_node, find_graph, get_events_after, get_graph_status,
}
use mneme_substrate.Lattice.Engine.{
  advance_graph, check_and_ready, enable, can_be_enabled, finish_graph, route_tokens, Routing,
}
use mneme_substrate.Lattice.Lifecycle.{start_graph}
use mneme_substrate.Lattice.Stream.{Reader, poll}
use mneme_substrate.Lattice.Service.{Request, node_complete, cancelled, serve}
use mneme_substrate.Lattice.Rows.{gather_at}
use mneme_substrate.Lattice.Sound.{shape_of, IsSound}
use mneme_substrate.Lattice.Halting.{advance_graph_total}
use mneme_substrate.Lattice.Log.{IsLogged, cursor_after}
use mneme_substrate.Lattice.WellFormed.{IsWellFormed, IsWellFormed-IsSound, serve-IsWellFormed}
use mneme_substrate.Lattice.Growth.{IsGrowth, serve-IsGrowth, reconnect_no_gaps}
use mneme_substrate.Lattice.Reading.{rounds_agree}
use mneme_substrate.Lattice.Started.{IsStarted, IsStarted-once}
use mneme_substrate.Lattice.Completion.{rows_complete, finish_graph_status}
use mneme_substrate.Lattice.Join.{is_joined, check_and_ready_joined}
use mneme_substrate.Lattice.FanOut.{IsQuiet, fan_out_once}
use mneme_substrate.Lattice.Samples.{empty_store, edge, plain}

abbrev sample_node : ℕ → NodeSpec → NodeStatus → Node
sample_node id spec status = record {
  id = id;
  graph_id = 1;
  spec = spec;
  status = status;
  join_type = any_input;
  output = none;
  error = none;
  created_at = 100;
  completed_at = none;
}

abbrev sample_graph : GraphRow
sample_graph = record {
  id = 1;
  metadata = null;
  status = GraphStatus.running;
  created_at = 100;
  parent_graph_id = none;
}

abbrev sample_gather : Node
sample_gather = sample_node 11 (gather everything) NodeStatus.pending

abbrev pair : NodeStatus → Store
pair status = record empty_store {
  graphs = sample_graph ∷ [];
  nodes = sample_node 10 plain status ∷ sample_gather ∷ [];
  edges = edge 20 10 11 ∷ [];
}

abbrev working : Store
working = pair NodeStatus.running

abbrev broken : Store
broken = pair NodeStatus.failed

abbrev finishing : List (ℕ × Request)
finishing = (101, node_complete 5 1 10 none) ∷ (102, cancelled 1) ∷ []

working-IsWellFormed : IsWellFormed working
working-IsWellFormed = record { targets = (refl, tt); numbered = tt }

working-IsLogged : IsLogged working
working-IsLogged = omega arith

advance_graph_total_example :
    (fuel : ℕ) × ((advance_graph fuel 1 10 none none working).0 ≡ ok tt)
    × IsSound (shape_of working) (advance_graph fuel 1 10 none none working).1
unfolding gather_at
advance_graph_total_example =
    advance_graph_total (λ _. 0) working (IsWellFormed-IsSound working working-IsWellFormed)
      (refl, tt) ((λ task_is_gather. absurd (cc task_is_gather)), tt) 1 10 none none

serve-IsWellFormed_example : IsWellFormed (serve working finishing)
serve-IsWellFormed_example = serve-IsWellFormed working finishing working-IsWellFormed

serve-IsGrowth_example : IsGrowth working (serve working finishing)
serve-IsGrowth_example = serve-IsGrowth working finishing working-IsLogged

reconnect_no_gaps_example :
    get_events_after 1 0 working
      ++ get_events_after 1
          (cursor_after 0 (get_events_after 1 0 working))
          (serve working finishing)
    ≡ get_events_after 1 0 (serve working finishing)
reconnect_no_gaps_example = reconnect_no_gaps 1 0 working finishing working-IsLogged

abbrev reader : Reader
reader = record { graph_id = 1; cursor = 0; closed = false }

rounds_agree_example :
    (poll reader working).0 ++ (poll (poll reader working).1 (serve working finishing)).0
    ≡ (poll reader (serve working finishing)).0
unfolding poll get_events_after
rounds_agree_example = rounds_agree reader working finishing working-IsLogged refl refl

IsStarted-once_example :
    IsStarted 1 (serve working finishing)
    × (start_graph 1 (serve working finishing) ≡ (ok tt, serve working finishing))
unfolding find_graph
IsStarted-once_example =
    IsStarted-once 1 working finishing
      (record { row = sample_graph; found = refl; left_pending = refl })

check_and_ready_joined_example : check_and_ready 1 11 working ≡ (
    if can_be_enabled sample_gather.status && is_joined 11 working
    then enable 1 11 sample_gather.spec working
    else (ok none, working))
unfolding find_node
check_and_ready_joined_example = check_and_ready_joined 1 11 working sample_gather refl

finish_graph_status_example :
    get_graph_status 1 (finish_graph 1 working).1
    ≡ some (if rows_complete 1 working then GraphStatus.complete else GraphStatus.running)
unfolding find_graph
finish_graph_status_example = finish_graph_status 1 working sample_graph refl

fan_out_once_example :
    Lands
      (IsQuiet working)
      (λ (r : Routing). r.queue ≡ [])
      (route_tokens 1 (edge 21 11 10 ∷ []) (ok_token ∷ ok_token ∷ []) [] working)
unfolding find_node
fan_out_once_example =
    fan_out_once 1 (edge 21 11 10 ∷ []) (ok_token ∷ ok_token ∷ []) [] working tt
      (record { row = sample_node 10 plain NodeStatus.running; found = refl; busy = refl }, tt)
