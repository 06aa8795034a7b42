-- ===== src/Tickets/Examples.antt =====
-- The theorems on the ticket compiler at a plan of two tickets, one of which is validated.
use mathlib.Core.List.{Memᴰ}
use text.Mathlib.TextEquality.{eq_iff}
use mneme_substrate.Base.{
  String, false, none, some, List, [], ◌∷◌, all, ◌≡◌, ◌≢◌, refl, ok, is_ok, arith,
}
use mneme_substrate.Base.Text.{same_text}
use mneme_substrate.Tickets.Sections.{RawSection, try_parse_ticket_heading, split_lines}
use mneme_substrate.Tickets.Body.{ParsedTicket, parse_section_body, read_line}
use mneme_substrate.Tickets.Graph.{
  OrchaEdgeDef, CompiledGraph, task, validate, graph_of, build_graph, ticket_spec, validate_id,
}
use mneme_substrate.Tickets.Shape.{node_ids}
use mneme_substrate.Tickets.Validated.{edges_known, waits_for_validation, validated_first}
use mneme_substrate.Tickets.Document.{no_sections, split_written}
use mneme_substrate.Tickets.Metadata.{metadata_anywhere}
use mneme_substrate.Tickets.Compilable.{is_compilable, build_graph-is_ok}

abbrev pub build : ParsedTicket
build = record {
  id = "A";
  type_tag = "agent";
  deps = [];
  task = some "Build";
  command = none;
  validate = some "test";
}

abbrev pub release : ParsedTicket
release = record {
  id = "B";
  type_tag = "prog";
  deps = "A" ∷ [];
  task = none;
  command = some "ship";
  validate = none;
}

abbrev pub tickets : List ParsedTicket
tickets = build ∷ release ∷ []

abbrev pub tested : OrchaEdgeDef
tested = record { from = "A"; to = "A-validate" }

abbrev pub shipped : OrchaEdgeDef
shipped = record { from = "A-validate"; to = "B" }

abbrev pub compiled : CompiledGraph
compiled = record {
  nodes =
      record { id = "A"; spec = task "Build" none }
      ∷ record { id = "A-validate"; spec = validate "test" none none }
      ∷ record { id = "B"; spec = validate "ship" none none }
      ∷ [];
  edges = tested ∷ shipped ∷ [];
}

pub built : graph_of tickets ≡ ok compiled
unfolding graph_of ticket_spec validate_id
built = refl

distinct : (a b : String) → same_text a b ≡ false → a ≢ b
distinct a b eq = ground (arith, eq_iff a b)

edges_known_example :
    Memᴰ "A-validate" (node_ids compiled.nodes) × Memᴰ "B" (node_ids compiled.nodes)
edges_known_example =
    edges_known tickets built (tt, (((build, Memᴰ.head refl, refl), tt), tt)) shipped
      (Memᴰ.tail (Memᴰ.head refl))

waits_for_validation_example : Memᴰ (record { from = validate_id "A"; to = "B" }) compiled.edges
waits_for_validation_example =
    waits_for_validation tickets built "A" (build, Memᴰ.head refl, refl)
      ((λ _. refl), ((λ same. absurd (distinct "B" "A" refl same)), tt)) release
      (Memᴰ.tail (Memᴰ.head refl)) (Memᴰ.head refl)

apart : (id : String) → same_text (validate_id id) "A" ≡ false → validate_id id ≢ "A"
apart id eq = distinct (validate_id id) "A" eq

validated_first_example : "A-validate" ≡ validate_id "A"
unfolding validate_id
validated_first_example =
    validated_first tickets built "A" (build, Memᴰ.head refl, refl)
      ((λ _. refl), ((λ same. absurd (distinct "B" "A" refl same)), tt))
      (apart "A" refl, (apart "B" refl, tt)) tested (Memᴰ.head refl) refl

abbrev section : RawSection
section = record { id = "A"; type_tag = "agent"; body_lines = "Build" ∷ "validate: test" ∷ [] }

split_written_example :
    split_lines no_sections ("preamble" ∷ "# A: x [agent]" ∷ "Build" ∷ "validate: test" ∷ [])
    ≡ section ∷ []
unfolding try_parse_ticket_heading
split_written_example =
    split_written ("preamble" ∷ []) (("# A: x [agent]", section) ∷ []) (refl, tt)
      ((refl, (refl, (refl, tt))), tt)

metadata_anywhere_example :
    parse_section_body section
    ≡ parse_section_body
        (record { id = "A"; type_tag = "agent"; body_lines = "validate: test" ∷ "Build" ∷ [] })
unfolding read_line
metadata_anywhere_example = metadata_anywhere "A" "agent" ("Build" ∷ "validate: test" ∷ [])

build_graph-is_ok_example : is_ok (build_graph (section ∷ [])) ≡ all is_compilable (section ∷ [])
build_graph-is_ok_example = build_graph-is_ok (section ∷ [])
