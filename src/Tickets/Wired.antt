-- ===== src/Tickets/Wired.antt =====
-- The single writes of `build_child_graph` when nothing is in their way: what each returns, and the
-- store behind it.
use mneme_substrate.Base.{
  true, false, none, some, List, [], ◌∷◌, ◌++◌, any, ◌==◌, ◌≡◌, refl, ap, ◌∙◌, ok, ==_refl, arith,
}
use mneme_substrate.Base.Members.{any-++}
use mneme_substrate.Base.Exec.{Exec, map_err, continue, fold_exec, with_error, ◌>>=◌}
use mneme_substrate.Base.Json.{Value}
use mneme_substrate.Lattice.Types.{GraphId, NodeId, NodeSpec}
use mneme_substrate.Lattice.Store.{
  Store, Edge, GraphRow, has_graph, has_node, found_status, get_graph_status, find_graph,
}
use mneme_substrate.Lattice.Edit.{
  add_node, add_edge, create_child_graph, is_live, in_graph, put_graph, put_node, put_edge,
}

module _ {S E A B : Type 0} where
  pub bind-ok :
      (m : Exec S E A) (f : A → Exec S E B) {s s' : S} {a : A}
      → m s ≡ (ok a, s')
      → (m >>= f) s ≡ f a s'
  unfolding ◌>>=◌
  bind-ok m f eq = ap (λ r. continue r.0 f r.1) eq

module _ {S E A B : Type 0} where
  pub fold-ok :
      (body : A → B → Exec S E A) (a : A) (x : B) (xs : List B) {s s' : S} {a' : A}
      → body a x s ≡ (ok a', s')
      → fold_exec body a (x ∷ xs) s ≡ fold_exec body a' xs s'
  unfolding fold_exec
  fold-ok body a x xs eq = bind-ok (body a x) (λ b. fold_exec body b xs) eq

module _ {S E F A : Type 0} where
  pub map_err-ok :
      (f : E → F) (m : Exec S E A) {s s' : S} {a : A}
      → m s ≡ (ok a, s')
      → map_err f m s ≡ (ok a, s')
  unfolding map_err
  map_err-ok f m eq = ap (λ r. (with_error f r.0, r.1)) eq

-- The graph is there, and does not run.
pub record IsIdle (g : GraphId) (s : Store) : Type 0 where
  pub there : has_graph g s ≡ true
  pub at_rest : is_live (get_graph_status g s) ≡ false

pub IsIdle-same : (g : GraphId) (s s' : Store) → s'.graphs ≡ s.graphs → IsIdle g s → IsIdle g s'
unfolding get_graph_status
IsIdle-same g s s' same idle = record {
  there = ap (λ rows. any (λ (r : GraphRow). r.id == g) rows) same ∙ idle.there;
  at_rest = ap (λ rows. is_live (found_status (find_graph g rows))) same ∙ idle.at_rest;
}

find-new :
    (g : GraphId) (row : GraphRow) (rows : List GraphRow)
    → row.id ≡ g
    → any (λ (r : GraphRow). r.id == g) rows ≡ false
    → find_graph g (rows ++ row ∷ []) ≡ some row
unfolding find_graph
find-new g row [] same _ = ground (arith)
find-new g row (r ∷ rows) same fresh = ground (arith, find-new g row rows same)

pub create_child_graph-new :
    (id parent : GraphId) (metadata : Value) (s : Store)
    → has_graph id s ≡ false
    → has_graph parent s ≡ true
    → create_child_graph id parent metadata s ≡ (ok id, put_graph id metadata (some parent) s)
unfolding create_child_graph ◌>>=◌
create_child_graph-new id parent metadata s fresh there = simp (fresh, there)

pub put_graph-IsIdle :
    (id parent : GraphId) (metadata : Value) (s : Store)
    → has_graph id s ≡ false
    → IsIdle id (put_graph id metadata (some parent) s)
unfolding get_graph_status
put_graph-IsIdle id parent metadata s fresh = record {
  there = any-++ (λ (r : GraphRow). r.id == id) s.graphs _ ∙ simp (==_refl id, fresh);
  at_rest = ap (λ o. is_live (found_status o)) (find-new id _ s.graphs refl fresh);
}

pub add_node-new :
    (g : GraphId) (uuid : NodeId) (spec : NodeSpec) (s : Store)
    → IsIdle g s
    → has_node uuid s ≡ false
    → add_node g none uuid spec s ≡ (ok uuid, put_node uuid g spec s)
unfolding add_node get_graph_status ◌>>=◌
add_node-new g uuid spec s idle fresh = simp (fresh, idle.there, idle.at_rest)

pub add_edge-new :
    (e : Edge) (s : Store)
    → IsIdle e.graph_id s
    → any (λ (f : Edge). f.id == e.id) s.edges ≡ false
    → in_graph e.graph_id e.from_node s ≡ true
    → in_graph e.graph_id e.to_node s ≡ true
    → add_edge e s ≡ (ok tt, put_edge e s)
unfolding add_edge get_graph_status ◌>>=◌
add_edge-new e s idle fresh from to = simp (from, to, fresh, idle.there, idle.at_rest)
