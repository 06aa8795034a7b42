-- ===== src/Tickets/Validated.antt =====
-- src/activations/orcha/ticket_compiler.rs: the edges of a compiled plan, and the tickets that are
-- validated.
use mathlib.Core.List.{Memᴰ}
use mathlib.Core.List.Memᴰ
use mathlib.Core.Bool.{true≢false}
use mathlib.Core.Path.{subst}
use mneme_substrate.Base.{
  String, true, List, [], map, All, ◌≡◌, ◌≢◌, refl, sym, ap, ◌∙◌, inl, inr, is_some, ok, Bool-cases,
}
use mneme_substrate.Base.Members.{All-Mem}
use mneme_substrate.Tickets.Body.{ParsedTicket}
use mneme_substrate.Tickets.Graph.{
  OrchaEdgeDef, CompiledGraph, completion_ids, effective_dep, validate_id, graph_of,
}
use mneme_substrate.Tickets.Shape.{node_ids, chain_ids, sibling_edges, dep_edge}
use mneme_substrate.Tickets.Known.{
  IsTicket, effective_dep-cases, node-Mem, edge-Mem, edge-of_ticket, chain_edges-cases,
  effective-Mem, effective-sibling, effective_alone,
}

module _ (ts : List ParsedTicket) {g : CompiledGraph} (built : graph_of ts ≡ ok g) where
  -- A dependency on a ticket of the document starts at a node of the plan.
  source-Mem :
      (dep : String)
      → IsTicket dep ts
      → Memᴰ (effective_dep (completion_ids [] ts) dep) (node_ids g.nodes)
  source-Mem dep (t, m, h) = elim (effective_dep-cases dep ts) [
    | inl (u, at, _, eq) ↦
        subst (λ x. Memᴰ x (node_ids g.nodes)) (sym eq) (node-Mem ts built at (effective-Mem u))
    | inr (others, _) ↦ absurd (All-Mem (λ (u : ParsedTicket). u.id ≢ dep) ts others m h)
  ]

  sibling-Mem :
      {t : ParsedTicket}
      → Memᴰ t ts
      → is_some t.validate ≡ true
      → Memᴰ (validate_id t.id) (node_ids g.nodes)
  sibling-Mem {t = t} m v =
      node-Mem ts built m
        (subst (λ x. Memᴰ x (chain_ids t)) (effective-sibling t v) (effective-Mem t))

  -- Each edge of a compiled plan starts and ends at a node of the plan, if each dependency of a
  -- ticket is the id of a ticket of the document.
  pub edges_known :
      All (λ (t : ParsedTicket). All (λ dep. IsTicket dep ts) t.deps) ts
      → (e : OrchaEdgeDef) → Memᴰ e g.edges
      → Memᴰ e.from (node_ids g.nodes) × Memᴰ e.to (node_ids g.nodes)
  edges_known known e m =
      let (t, at, of_t) = edge-of_ticket ts built m in
      let Ends =
        λ (f : OrchaEdgeDef). Memᴰ f.from (node_ids g.nodes) × Memᴰ f.to (node_ids g.nodes) in
      let deps_known =
        All-Mem (λ (u : ParsedTicket). All (λ dep. IsTicket dep ts) u.deps) ts known at in
      elim (chain_edges-cases (completion_ids [] ts) t of_t) [
        | inl (v, eq) ↦
            subst Ends (sym eq) (node-Mem ts built at (Memᴰ.head refl), sibling-Mem at v)
        | inr (dep, in_deps, eq) ↦ subst Ends (sym eq) (
          source-Mem dep (All-Mem (λ d. IsTicket d ts) t.deps deps_known in_deps),
          node-Mem ts built at (Memᴰ.head refl),
        )
      ]

  module _ (id : String) (ticket : IsTicket id ts)
      (validated : All (λ (t : ParsedTicket). t.id ≡ id → is_some t.validate ≡ true) ts) where
    -- A dependency on `id` is one on its sibling.
    dep_rewritten : effective_dep (completion_ids [] ts) id ≡ validate_id id
    dep_rewritten = elim (effective_dep-cases id ts) [
      | inl (u, at, h, eq) ↦
          eq
          ∙ effective-sibling u (
              All-Mem (λ (t : ParsedTicket). t.id ≡ id → is_some t.validate ≡ true) ts validated at
                h)
          ∙ ap validate_id h
      | inr (others, _) ↦
          absurd (All-Mem (λ (u : ParsedTicket). u.id ≢ id) ts others ticket.1 ticket.2)
    ]

    -- If each ticket with the id of a ticket has a `validate:` line, a ticket that is blocked by it has
    -- an edge from the validation of it.
    pub waits_for_validation :
        (t : ParsedTicket)
        → Memᴰ t ts
        → Memᴰ id t.deps
        → Memᴰ (record { from = validate_id id; to = t.id }) g.edges
    waits_for_validation t at blocked = edge-Mem ts built at (
        Memᴰ.append_right (sibling_edges t) (
          subst
            (λ x.
              Memᴰ (record { from = x; to = t.id })
                (map (dep_edge (completion_ids [] ts) t.id) t.deps))
            dep_rewritten (Memᴰ.map (dep_edge (completion_ids [] ts) t.id) blocked)))

    module _ (apart : All (λ (t : ParsedTicket). validate_id t.id ≢ id) ts) where
      -- No dependency starts at a ticket that is validated.
      not_from_validated : (dep : String) → effective_dep (completion_ids [] ts) dep ≢ id
      not_from_validated dep from_id = elim (effective_dep-cases dep ts) [
        | inl (u, at, h, eq) ↦ elim (Bool-cases (is_some u.validate)) [
          | inl v ↦
              All-Mem (λ (t : ParsedTicket). validate_id t.id ≢ id) ts apart at
                (sym (effective-sibling u v) ∙ sym eq ∙ from_id)
          | inr none_v ↦ true≢false (
              sym (
                All-Mem (λ (t : ParsedTicket). t.id ≡ id → is_some t.validate ≡ true) ts validated
                  at (sym (effective_alone u none_v) ∙ sym eq ∙ from_id))
              ∙ none_v)
        ]
        | inr (others, eq) ↦
            All-Mem (λ (u : ParsedTicket). u.id ≢ dep) ts others ticket.1
              (ticket.2 ∙ sym from_id ∙ eq)
      ]

      -- If each ticket with the id of a ticket has a `validate:` line, and that id is not the one of
      -- a validation, then each edge of the plan that starts at the ticket ends at its validation.
      pub validated_first :
          (e : OrchaEdgeDef) → Memᴰ e g.edges → e.from ≡ id → e.to ≡ validate_id id
      validated_first e at from_id =
          let (t, _, of_t) = edge-of_ticket ts built at in
          elim (chain_edges-cases (completion_ids [] ts) t of_t) [
            | inl (_, eq) ↦
                ap (λ (f : OrchaEdgeDef). f.to) eq
                ∙ ap validate_id (sym (ap (λ (f : OrchaEdgeDef). f.from) eq) ∙ from_id)
            | inr (dep, _, eq) ↦
                absurd
                  (not_from_validated dep (sym (ap (λ (f : OrchaEdgeDef). f.from) eq) ∙ from_id))
          ]
