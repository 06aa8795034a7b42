-- ===== src/Tickets/ChildExamples.antt =====
-- The theorems on building a child graph: the compiled plan of two tickets in a store with one
-- graph, and a definition with an edge from elsewhere.
use mathlib.Core.List.{Memᴰ}
use mneme_substrate.Base.{false, none, List, [], ◌∷◌, ◌≡◌, refl, ok, is_ok}
use mneme_substrate.Base.Json.{null}
use mneme_substrate.Lattice.Types.{NodeId, EdgeId, GraphStatus}
use mneme_substrate.Lattice.Store.{Store}
use mneme_substrate.Lattice.Samples.{empty_store}
use mneme_substrate.Tickets.Graph.{OrchaNodeDef, OrchaEdgeDef, task, validate}
use mneme_substrate.Tickets.Examples.{build, tickets, tested, shipped, built}
use mneme_substrate.Tickets.Child.{build_child_graph}
use mneme_substrate.Tickets.Rows.{id_map}
use mneme_substrate.Tickets.Built.{built_store, build_child_graph-adds}
use mneme_substrate.Tickets.Whole.{plan_builds}
use mneme_substrate.Tickets.Dangling.{build_child_graph-dangling}

-- The parent, graph 1.
abbrev parent_store : Store
parent_store = record empty_store {
  graphs =
      record {
        id = 1;
        metadata = null;
        status = GraphStatus.running;
        created_at = 100;
        parent_graph_id = none;
      }
      ∷ [];
}

abbrev nodes : List (NodeId × OrchaNodeDef)
nodes =
    (10, record { id = "A"; spec = task "Build" none })
    ∷ (11, record { id = "A-validate"; spec = validate "test" none none })
    ∷ (12, record { id = "B"; spec = validate "ship" none none })
    ∷ []

abbrev edges : List (EdgeId × OrchaEdgeDef)
edges = (20, tested) ∷ (21, shipped) ∷ []

abbrev elsewhere : OrchaEdgeDef
elsewhere = record { from = "UX-9"; to = "B" }

build_child_graph-adds_example :
    build_child_graph 2 1 null nodes edges parent_store
    ≡ (ok (2, id_map [] nodes), built_store 2 1 null nodes edges parent_store)
build_child_graph-adds_example =
    build_child_graph-adds 2 1 null nodes edges parent_store refl refl (refl, (refl, (refl, tt)))
      (refl, (refl, tt)) ((refl, refl), ((refl, refl), tt))

plan_builds_example :
    build_child_graph 2 1 null nodes edges parent_store
    ≡ (ok (2, id_map [] nodes), built_store 2 1 null nodes edges parent_store)
plan_builds_example =
    plan_builds tickets 2 1 null nodes edges parent_store built
      (tt, (((build, Memᴰ.head refl, refl), tt), tt)) refl refl refl refl (refl, (refl, (refl, tt)))
      (refl, (refl, tt))

build_child_graph-dangling_example :
    is_ok (build_child_graph 2 1 null nodes ((20, tested) ∷ (22, elsewhere) ∷ []) parent_store).0
    ≡ false
build_child_graph-dangling_example =
    build_child_graph-dangling 2 1 null nodes ((20, tested) ∷ []) 22 elsewhere [] parent_store refl
      refl (refl, (refl, (refl, tt))) refl
