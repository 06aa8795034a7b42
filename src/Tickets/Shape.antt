-- ===== src/Tickets/Shape.antt =====
-- What the loop of `build_graph` has added when it returns: the nodes and edges of each ticket, in
-- the order of the document.
use mathlib.Core.List.{append_assoc, append-nil}
use mathlib.Core.Path.{subst}
use mneme_substrate.Base.{
  String, none, some, Option, List, [], ◌∷◌, ◌++◌, map, ◌≡◌, refl, sym, ap, ◌∙◌, ok, ok_inj,
  and_then-ok,
}
use mneme_substrate.Base.Members.{flat_map}
use mneme_substrate.Tickets.Body.{ParsedTicket}
use mneme_substrate.Tickets.Graph.{
  OrchaNodeDef, OrchaEdgeDef, OrchaNodeSpec, CompiledGraph, validate_id, completion_ids,
  ticket_spec, effective_dep, validate, add_node, add_sibling, add_deps, add_ticket, add_tickets,
  empty_graph, graph_of,
}

abbrev pub node_ids : List OrchaNodeDef → List String
node_ids ns = map (λ (n : OrchaNodeDef). n.id) ns

-- The ids of the nodes of a ticket.
abbrev pub chain_ids : ParsedTicket → List String
chain_ids t = t.id ∷ elim t.validate [ none ↦ [] | some _ ↦ validate_id t.id ∷ [] ]

abbrev pub sibling_edges : ParsedTicket → List OrchaEdgeDef
sibling_edges t = elim t.validate [
  | none ↦ []
  | some _ ↦ record { from = t.id; to = validate_id t.id } ∷ []
]

abbrev pub dep_edge : List (String × String) → String → String → OrchaEdgeDef
dep_edge ids id dep = record { from = effective_dep ids dep; to = id }

abbrev pub chain_edges : List (String × String) → ParsedTicket → List OrchaEdgeDef
chain_edges ids t = sibling_edges t ++ map (dep_edge ids t.id) t.deps

-- What a graph has, with more nodes and edges behind.
pub record HasAdded (g g' : CompiledGraph) (ids : List String) (edges : List OrchaEdgeDef)
    : Type 0 where
  pub new_nodes : node_ids g'.nodes ≡ node_ids g.nodes ++ ids
  pub new_edges : g'.edges ≡ g.edges ++ edges

map-++ {ℓ} : {A B : Type ℓ} (f : A → B) (xs ys : List A) → map f (xs ++ ys) ≡ map f xs ++ map f ys
map-++ f [] ys = refl
map-++ f (x ∷ xs) ys = ap (λ zs. f x ∷ zs) (map-++ f xs ys)

HasAdded-trans :
    {g g' g'' : CompiledGraph} {is js : List String} {es fs : List OrchaEdgeDef}
    → HasAdded g g' is es
    → HasAdded g' g'' js fs
    → HasAdded g g'' (is ++ js) (es ++ fs)
HasAdded-trans {g = g} {is = is} {js = js} {es = es} {fs = fs} h k = record {
  new_nodes = k.new_nodes ∙ ap (λ xs. xs ++ js) h.new_nodes ∙ append_assoc (node_ids g.nodes) is js;
  new_edges = k.new_edges ∙ ap (λ xs. xs ++ fs) h.new_edges ∙ append_assoc g.edges es fs;
}

HasAdded-edges :
    {g g' g'' : CompiledGraph} {is : List String} {es fs : List OrchaEdgeDef}
    → HasAdded g g' is es
    → HasAdded g' g'' [] fs
    → HasAdded g g'' is (es ++ fs)
HasAdded-edges {g = g} {g'' = g''} {is = is} {es = es} {fs = fs} h k =
    subst (λ xs. HasAdded g g'' xs (es ++ fs)) (append-nil is) (HasAdded-trans h k)

HasAdded-none : (g : CompiledGraph) → HasAdded g g [] []
HasAdded-none g = record {
  new_nodes = sym (append-nil (node_ids g.nodes));
  new_edges = sym (append-nil g.edges);
}

add_node-HasAdded :
    (id : String) (spec : OrchaNodeSpec) (g : CompiledGraph)
    → HasAdded g (add_node id spec g) (id ∷ []) []
add_node-HasAdded id spec g = record {
  new_nodes = map-++ (λ (n : OrchaNodeDef). n.id) g.nodes (record { id = id; spec = spec } ∷ []);
  new_edges = sym (append-nil g.edges);
}

add_deps-HasAdded :
    (ids : List (String × String)) (id : String) (deps : List String) (g : CompiledGraph)
    → HasAdded g (add_deps ids id deps g) [] (map (dep_edge ids id) deps)
unfolding add_deps
add_deps-HasAdded ids id [] g = HasAdded-none g
add_deps-HasAdded ids id (dep ∷ deps) g =
    HasAdded-trans (record { new_nodes = sym (append-nil (node_ids g.nodes)); new_edges = refl })
      (add_deps-HasAdded ids id deps _)

add_sibling-HasAdded :
    (id : String) (v : Option String) (g : CompiledGraph)
    → HasAdded g
        (add_sibling id v g)
        (elim v [ none ↦ [] | some _ ↦ validate_id id ∷ [] ])
        (elim v [ none ↦ [] | some _ ↦ record { from = id; to = validate_id id } ∷ [] ])
add_sibling-HasAdded id none g = HasAdded-none g
add_sibling-HasAdded id (some cmd) g = record {
  new_nodes = (add_node-HasAdded (validate_id id) (validate cmd none none) g).new_nodes;
  new_edges = refl;
}

module _ (ids : List (String × String)) where
  -- A ticket adds its chain.
  pub add_ticket-HasAdded :
      (t : ParsedTicket) (g : CompiledGraph) {g' : CompiledGraph}
      → add_ticket ids t g ≡ ok g'
      → HasAdded g g' (chain_ids t) (chain_edges ids t)
  unfolding add_ticket
  add_ticket-HasAdded t g {g' = g'} eq =
      let (spec, found, added) = and_then-ok (ticket_spec t) eq in
      subst (λ h. HasAdded g h (chain_ids t) (chain_edges ids t)) (ok_inj added)
        (HasAdded-edges
          (HasAdded-trans (add_node-HasAdded t.id spec g) (add_sibling-HasAdded t.id t.validate _))
          (add_deps-HasAdded ids t.id t.deps _))

  pub add_tickets-HasAdded :
      (ts : List ParsedTicket) (g : CompiledGraph) {g' : CompiledGraph}
      → add_tickets ids ts g ≡ ok g'
      → HasAdded g g' (flat_map chain_ids ts) (flat_map (chain_edges ids) ts)
  unfolding add_tickets
  add_tickets-HasAdded [] g eq = subst (λ h. HasAdded g h [] []) (ok_inj eq) (HasAdded-none g)
  add_tickets-HasAdded (t ∷ ts) g {g' = g'} eq =
      let (g₁, first, rest) = and_then-ok (add_ticket ids t g) eq in
      HasAdded-trans (add_ticket-HasAdded t g first) (add_tickets-HasAdded ts g₁ rest)

pub graph_of-HasAdded :
    (ts : List ParsedTicket) {g : CompiledGraph}
    → graph_of ts ≡ ok g
    → HasAdded empty_graph g
        (flat_map chain_ids ts)
        (flat_map (chain_edges (completion_ids [] ts)) ts)
unfolding graph_of
graph_of-HasAdded ts eq = add_tickets-HasAdded (completion_ids [] ts) ts empty_graph eq
