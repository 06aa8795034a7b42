-- ===== src/Tickets/Graph.antt =====
-- src/activations/orcha/ticket_compiler.rs, "Graph building", with the definition types of
-- src/activations/orcha/types.rs: nodes and edges, with a sibling node for each `validate:` line.
use Prim.Native.String.{◌++◌ as append}
use mneme_substrate.Base.{
  ℕ, String, Option, none, some, List, [], ◌∷◌, ◌++◌, if◌then◌else◌, unwrap_or, Result, ok, err,
  and_then,
}
use mneme_substrate.Base.Text.{same_text, get}
use mneme_substrate.Lattice.Types.{GatherStrategy}
use mneme_substrate.Tickets.Sections.{RawSection, parse_sections}
use mneme_substrate.Tickets.Body.{ParsedTicket, parse_section_body}

pub data OrchaNodeSpec : Type 0 where
  task synthesize : String → Option ℕ → OrchaNodeSpec
  validate : String → Option String → Option ℕ → OrchaNodeSpec
  gather : GatherStrategy → OrchaNodeSpec
  review plan : String → OrchaNodeSpec

pub record OrchaNodeDef : Type 0 where
  pub id : String
  pub spec : OrchaNodeSpec

pub record OrchaEdgeDef : Type 0 where
  pub from : String
  pub to : String

pub record CompiledGraph : Type 0 where
  pub nodes : List OrchaNodeDef
  pub edges : List OrchaEdgeDef

unfoldable pub validate_id : String → String
validate_id id = append id "-validate"

-- The last node in the chain of a ticket.
abbrev pub effective : ParsedTicket → String
effective t = elim t.validate [ none ↦ t.id | some _ ↦ validate_id t.id ]

-- `completion_id`: a later ticket with the same id replaces an earlier one.
unfoldable pub completion_ids : List (String × String) → List ParsedTicket → List (String × String)
completion_ids ids [] = ids
completion_ids ids (t ∷ ts) = completion_ids ((t.id, effective t) ∷ ids) ts

abbrev no_body : String → String → Result String OrchaNodeSpec
no_body id tag =
    err (append "Ticket '" (append id (append "' [" (append tag "] has no body text"))))

abbrev unknown_type : String → String → Result String OrchaNodeSpec
unknown_type id tag =
    err (append "Unknown ticket type [" (append tag (append "] in ticket '" (append id "'"))))

abbrev pub with_body :
    String → String → (String → OrchaNodeSpec) → Option String → Result String OrchaNodeSpec
with_body id tag spec none = no_body id tag
with_body id tag spec (some body) = ok (spec body)

unfoldable pub ticket_spec : ParsedTicket → Result String OrchaNodeSpec
ticket_spec t =
    if same_text t.type_tag "agent"
    then with_body t.id "agent" (λ s. task s none) t.task
    else if same_text t.type_tag "agent/synthesize"
    then with_body t.id "agent/synthesize" (λ s. synthesize s none) t.task
    else if same_text t.type_tag "prog"
    then with_body t.id "prog" (λ s. validate s none none) t.command
    else if same_text t.type_tag "review"
    then with_body t.id "review" review t.task
    else if same_text t.type_tag "planner"
    then with_body t.id "planner" plan t.task
    else unknown_type t.id t.type_tag

abbrev pub add_node : String → OrchaNodeSpec → CompiledGraph → CompiledGraph
add_node id spec g = record g { nodes = g.nodes ++ record { id = id; spec = spec } ∷ [] }

abbrev pub add_edge : String → String → CompiledGraph → CompiledGraph
add_edge from to g = record g { edges = g.edges ++ record { from = from; to = to } ∷ [] }

-- The sibling node that validates the ticket, and the edge to it.
abbrev pub add_sibling : String → Option String → CompiledGraph → CompiledGraph
add_sibling id none g = g
add_sibling id (some cmd) g =
    add_edge id (validate_id id) (add_node (validate_id id) (validate cmd none none) g)

-- A dependency that is no ticket of the document is passed through.
abbrev pub effective_dep : List (String × String) → String → String
effective_dep ids dep = unwrap_or dep (get dep ids)

unfoldable pub add_deps :
    List (String × String) → String → List String → CompiledGraph → CompiledGraph
add_deps ids id [] g = g
add_deps ids id (dep ∷ deps) g = add_deps ids id deps (add_edge (effective_dep ids dep) id g)

unfoldable pub add_ticket :
    List (String × String) → ParsedTicket → CompiledGraph → Result String CompiledGraph
unfolding add_deps
add_ticket ids t g =
    and_then (ticket_spec t)
      (λ spec. ok (add_deps ids t.id t.deps (add_sibling t.id t.validate (add_node t.id spec g))))

unfoldable pub add_tickets :
    List (String × String) → List ParsedTicket → CompiledGraph → Result String CompiledGraph
unfolding add_ticket
add_tickets ids [] g = ok g
add_tickets ids (t ∷ ts) g = and_then (add_ticket ids t g) (add_tickets ids ts)

abbrev pub collect : List RawSection → Result String (List ParsedTicket)
collect [] = ok []
collect (r ∷ rs) =
    let rest = collect rs in
    and_then (parse_section_body r) (λ t. and_then rest (λ ts. ok (t ∷ ts)))

abbrev pub empty_graph : CompiledGraph
empty_graph = record { nodes = []; edges = [] }

unfoldable pub graph_of : List ParsedTicket → Result String CompiledGraph
unfolding completion_ids add_tickets
graph_of ts = add_tickets (completion_ids [] ts) ts empty_graph

unfoldable pub build_graph : List RawSection → Result String CompiledGraph
unfolding parse_section_body graph_of
build_graph sections = and_then (collect sections) graph_of

unfoldable pub compile_tickets : String → Result String CompiledGraph
unfolding parse_sections build_graph
compile_tickets input = build_graph (parse_sections input)
