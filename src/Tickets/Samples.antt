-- ===== src/Tickets/Samples.antt =====
-- A plan document, and the graph that the tests expect of it.
use mneme_substrate.Base.{String, none, [], ◌∷◌, ◌≡◌, refl, ok, err}
use mneme_substrate.Base.Text.{lines}
use mneme_substrate.Tickets.Sections.{try_parse_ticket_heading, split_lines}
use mneme_substrate.Tickets.Body.{read_line, dep_list}
use mneme_substrate.Tickets.Graph.{
  CompiledGraph, task, validate, compile_tickets, ticket_spec, completion_ids, validate_id,
  add_deps,
}

abbrev pub plan_text : String
plan_text =
    "Some preamble\n# UX-4: Move it [agent]\n\nblocked_by: [UX-2]\nvalidate: cargo test\n\n## Problem\nText\n\n# UX-2 [prog]\n// note\nmake all\n# UX-5: Last [agent]\nblocked-by: UX-4, UX-9\nDo it"

abbrev pub plan_graph : CompiledGraph
plan_graph = record {
  nodes =
      record { id = "UX-4"; spec = task "## Problem\nText" none }
      ∷ record { id = "UX-4-validate"; spec = validate "cargo test" none none }
      ∷ record { id = "UX-2"; spec = validate "make all" none none }
      ∷ record { id = "UX-5"; spec = task "Do it" none }
      ∷ [];
  edges =
      record { from = "UX-4"; to = "UX-4-validate" }
      ∷ record { from = "UX-2"; to = "UX-4" }
      ∷ record { from = "UX-4-validate"; to = "UX-5" }
      ∷ record { from = "UX-9"; to = "UX-5" }
      ∷ [];
}

compile_plan : compile_tickets plan_text ≡ ok plan_graph
unfolding compile_tickets split_lines lines try_parse_ticket_heading ticket_spec read_line dep_list
    completion_ids validate_id add_deps
compile_plan = refl

compile_unknown :
    compile_tickets "# A: x [nope]\nbody" ≡ err "Unknown ticket type [nope] in ticket 'A'"
unfolding compile_tickets split_lines lines try_parse_ticket_heading ticket_spec read_line dep_list
    completion_ids validate_id add_deps
compile_unknown = refl

compile_no_body : compile_tickets "# A: x [agent]\n" ≡ err "Ticket 'A' [agent] has no body text"
unfolding compile_tickets split_lines lines try_parse_ticket_heading ticket_spec read_line dep_list
    completion_ids validate_id add_deps
compile_no_body = refl
