-- ===== src/Tickets/Child.antt =====
-- src/activations/orcha/graph_runtime.rs: the node builders of OrchaGraph, `depends_on` and
-- `build_child_graph`, which makes a graph definition a child graph of the lattice. A UUID that the
-- storage generates stands beside what it is generated for.
use mneme_substrate.Base.{ℕ, String, Option, none, some, List, [], ◌∷◌}
use mneme_substrate.Base.Exec.{Exec, pure, raise, map_err, fold_exec, ◌>>=◌, ◌>>◌}
use mneme_substrate.Base.Json.{Value, null, string, number, pos_int, object, field, end}
use mneme_substrate.Base.Text.{get}
use mneme_substrate.Lattice.Types.{GraphId, NodeId, EdgeId, NodeSpec}
use mneme_substrate.Lattice.Store.{Store, Error, Action}
use mneme_substrate.Lattice.Edit as Edit
use mneme_substrate.Tickets.Graph.{
  OrchaNodeSpec, task, synthesize, validate, gather, review, plan, OrchaNodeDef, OrchaEdgeDef,
}

-- The payload of a node of Orcha, and its JSON (`serde_json::to_value`).
pub data OrchaNodeKind : Type 0 where
  kind_task kind_synthesize : String → Option ℕ → OrchaNodeKind
  kind_validate : String → Option String → Option ℕ → OrchaNodeKind
  kind_review kind_plan : String → OrchaNodeKind

abbrev retries_value : Option ℕ → Value
retries_value none = null
retries_value (some n) = number (pos_int n)

abbrev cwd_value : Option String → Value
cwd_value none = null
cwd_value (some cwd) = string cwd

unfoldable pub kind_value : OrchaNodeKind → Value
kind_value (kind_task text retries) = object (
    field "orcha_type" (string "task")
      (field "task" (string text) (field "max_retries" (retries_value retries) end)))
kind_value (kind_synthesize text retries) = object (
    field "orcha_type" (string "synthesize")
      (field "task" (string text) (field "max_retries" (retries_value retries) end)))
kind_value (kind_validate command cwd retries) = object (
    field "orcha_type" (string "validate") (
      field "command" (string command)
        (field "cwd" (cwd_value cwd) (field "max_retries" (retries_value retries) end))))
kind_value (kind_review prompt) =
    object (field "orcha_type" (string "review") (field "prompt" (string prompt) end))
kind_value (kind_plan text) =
    object (field "orcha_type" (string "plan") (field "task" (string text) end))

abbrev of_kind : OrchaNodeKind → NodeSpec
of_kind kind = NodeSpec.task (kind_value kind) none

-- The spec that `add_task`, `add_synthesize`, `add_validate`, `add_gather`, `add_review` and
-- `add_plan` give the storage.
unfoldable pub lattice_spec : OrchaNodeSpec → NodeSpec
unfolding kind_value
lattice_spec (task text retries) = of_kind (kind_task text retries)
lattice_spec (synthesize text retries) = of_kind (kind_synthesize text retries)
lattice_spec (validate command cwd retries) = of_kind (kind_validate command cwd retries)
lattice_spec (gather strategy) = NodeSpec.gather strategy
lattice_spec (review prompt) = of_kind (kind_review prompt)
lattice_spec (plan text) = of_kind (kind_plan text)

pub data BuildError : Type 0 where
  storage : Error → BuildError
  failed_node : String → Error → BuildError
  unknown_from unknown_to : String → BuildError
  failed_edge : String → String → Error → BuildError

abbrev pub IdMap : Type 0
IdMap = List (String × NodeId)

-- `depends_on(dependent, dependency)`: an edge without a condition.
unfoldable pub depends_on : GraphId → EdgeId → NodeId → NodeId → Action (Unit {0})
depends_on g id dependent dependency = Edit.add_edge (record {
  id = id;
  graph_id = g;
  from_node = dependency;
  to_node = dependent;
  condition = none;
})

unfoldable pub add_def : GraphId → IdMap → NodeId × OrchaNodeDef → Exec Store BuildError IdMap
add_def g ids (uuid, def) = do
  lattice_id ← map_err (failed_node def.id) (Edit.add_node g none uuid (lattice_spec def.spec))
  pure ((def.id, lattice_id) ∷ ids)

-- `ok_or_else(…)?`
abbrev pub ok_or : BuildError → Option NodeId → Exec Store BuildError NodeId
ok_or unknown none = raise unknown
ok_or unknown (some n) = pure n

unfoldable pub wire :
    GraphId → IdMap → Unit {0} → EdgeId × OrchaEdgeDef → Exec Store BuildError (Unit {0})
unfolding depends_on
wire g ids _ (uuid, def) = do
  dep_id ← ok_or (unknown_from def.from) (get def.from ids)
  node_id ← ok_or (unknown_to def.to) (get def.to ids)
  map_err (failed_edge def.from def.to) (depends_on g uuid node_id dep_id)

unfoldable pub build_child_graph :
    GraphId
    → GraphId
    → Value
    → List (NodeId × OrchaNodeDef)
    → List (EdgeId × OrchaEdgeDef)
    → Exec Store BuildError (GraphId × IdMap)
unfolding add_def wire
build_child_graph id parent metadata nodes edges = do
  g ← map_err storage (Edit.create_child_graph id parent metadata)
  ids ← fold_exec (add_def g) [] nodes
  fold_exec (wire g ids) tt edges
  pure (g, ids)
