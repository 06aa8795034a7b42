-- ===== src/Tickets/Compilable.antt =====
-- src/activations/orcha/ticket_compiler.rs: which sections a plan may have.
use text.Mathlib.TextEquality.{eq_iff}
use mathlib.Core.Path.{ap₂}
use mneme_substrate.Base.{
  String, Bool, true, false, not, ◌&&◌, ◌||◌, List, [], ◌∷◌, map, all, ◌≡◌, refl, ap, ◌∙◌, inl, inr,
  Bool-cases, Result, ok, err, and_then, is_ok,
}
use mneme_substrate.Base.Text.{same_text, is_empty_text}
use mneme_substrate.Tickets.Sections.{RawSection}
use mneme_substrate.Tickets.Body.{
  ParsedTicket, Body, read_lines, body_text, parse_section_body, as_ticket, no_lines, non_empty,
}
use mneme_substrate.Tickets.Graph.{
  CompiledGraph, OrchaNodeSpec, ticket_spec, add_ticket, add_tickets, graph_of, build_graph,
  with_body, collect, completion_ids, empty_graph,
}

-- The five types of a ticket.
abbrev pub is_known_type : String → Bool
is_known_type tag =
    same_text tag "agent"
    || same_text tag "agent/synthesize"
    || same_text tag "prog"
    || same_text tag "review"
    || same_text tag "planner"

abbrev pub is_compilable : RawSection → Bool
is_compilable r =
    is_known_type r.type_tag
    && not (is_empty_text (body_text (read_lines no_lines r.body_lines).prose_lines))

with_body-is_ok :
    (id tag : String) (spec : String → OrchaNodeSpec) (body : String)
    → is_ok (with_body id tag spec (non_empty body)) ≡ not (is_empty_text body)
with_body-is_ok id tag spec body = elim (Bool-cases (is_empty_text body)) [
  | inl eq ↦ simp (eq)
  | inr eq ↦ simp (eq)
]

exclusive :
    (tag a b : String) → same_text a b ≡ false → same_text tag a ≡ true → same_text tag b ≡ false
exclusive tag a b apart same = ap (λ t. same_text t b) ((eq_iff tag a).0 same) ∙ apart

spec-is_ok :
    (id tag : String) (b : Body)
    → is_ok (ticket_spec (as_ticket id tag b))
      ≡ (is_known_type tag && not (is_empty_text (body_text b.prose_lines)))
unfolding ticket_spec
spec-is_ok id tag b =
    let body = body_text b.prose_lines in
    elim (Bool-cases (same_text tag "agent")) [
      | inl y ↦ simp (y, exclusive tag "agent" "prog" refl y, with_body-is_ok id "agent")
      | inr n₁ ↦ elim (Bool-cases (same_text tag "agent/synthesize")) [
        | inl y ↦ simp (
          n₁,
          y,
          exclusive tag "agent/synthesize" "prog" refl y,
          with_body-is_ok id "agent/synthesize",
        )
        | inr n₂ ↦ elim (Bool-cases (same_text tag "prog")) [
          | inl y ↦ simp (n₁, n₂, y, with_body-is_ok id "prog")
          | inr n₃ ↦ elim (Bool-cases (same_text tag "review")) [
            | inl y ↦ simp (n₁, n₂, n₃, y, with_body-is_ok id "review")
            | inr n₄ ↦ elim (Bool-cases (same_text tag "planner")) [
              | inl y ↦ simp (n₁, n₂, n₃, n₄, y, with_body-is_ok id "planner")
              | inr n₅ ↦ simp (n₁, n₂, n₃, n₄, n₅)
            ]
          ]
        ]
      ]
    ]

chain-is_ok :
    {A B C : Type 0} (r : Result String A) (f : A → B) (k : B → Result String C) (others : Bool)
    → ((b : B) → is_ok (k b) ≡ others)
    → is_ok (and_then (and_then r (λ a. ok (f a))) k) ≡ (is_ok r && others)
chain-is_ok (ok a) f k others rest = rest (f a)
chain-is_ok (err e) f k others rest = refl

add_tickets-is_ok :
    (ids : List (String × String)) (ts : List ParsedTicket) (g : CompiledGraph)
    → is_ok (add_tickets ids ts g) ≡ all (λ t. is_ok (ticket_spec t)) ts
unfolding add_tickets add_ticket
add_tickets-is_ok ids [] g = refl
add_tickets-is_ok ids (t ∷ ts) g =
    chain-is_ok (ticket_spec t) _ (add_tickets ids ts) _ (add_tickets-is_ok ids ts)

-- A section is parsed as this ticket.
abbrev ticket_of : RawSection → ParsedTicket
ticket_of r = as_ticket r.id r.type_tag (read_lines no_lines r.body_lines)

collect-ok : (rs : List RawSection) → collect rs ≡ ok (map ticket_of rs)
unfolding parse_section_body
collect-ok [] = refl
collect-ok (r ∷ rs) = ap (λ o. and_then o (λ ts. ok (ticket_of r ∷ ts))) (collect-ok rs)

all-is_ok :
    (rs : List RawSection)
    → all (λ t. is_ok (ticket_spec t)) (map ticket_of rs) ≡ all is_compilable rs
all-is_ok [] = refl
all-is_ok (r ∷ rs) =
    ap₂ (λ a b. a && b) (spec-is_ok r.id r.type_tag (read_lines no_lines r.body_lines))
      (all-is_ok rs)

-- A plan compiles exactly if each of its sections has one of the five types and some text besides
-- its metadata, whatever it depends on.
pub build_graph-is_ok : (rs : List RawSection) → is_ok (build_graph rs) ≡ all is_compilable rs
unfolding build_graph graph_of
build_graph-is_ok rs =
    ap (λ o. is_ok (and_then o graph_of)) (collect-ok rs)
    ∙ add_tickets-is_ok (completion_ids [] (map ticket_of rs)) (map ticket_of rs) empty_graph
    ∙ all-is_ok rs
