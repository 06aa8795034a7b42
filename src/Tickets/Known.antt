-- ===== src/Tickets/Known.antt =====
-- Where a dependency leads (`completion_id`), and which edges and nodes come from which ticket.
use mathlib.Core.List.{Memᴰ}
use mathlib.Core.List.Memᴰ
use mathlib.Core.Bool.{true≢false, false≢true}
use mathlib.Core.Path.{subst}
use text.Mathlib.TextEquality.{eq_iff}
use mneme_substrate.Base.{
  String, true, false, none, some, Option, List, [], ◌∷◌, All, ◌≡◌, ◌≢◌, refl, sym, ap, ◌∙◌, ◌⊎◌,
  inl, inr, Bool-cases, is_some, unwrap_or, ok,
}
use mneme_substrate.Base.Text.{same_text, get}
use mneme_substrate.Base.Members.{flat_map-Mem, Mem-flat_map}
use mneme_substrate.Tickets.Body.{ParsedTicket}
use mneme_substrate.Tickets.Graph.{
  OrchaEdgeDef, CompiledGraph, effective, completion_ids, effective_dep, validate_id, graph_of,
}
use mneme_substrate.Tickets.Shape.{
  node_ids, chain_ids, chain_edges, sibling_edges, dep_edge, graph_of-HasAdded,
}

-- A ticket of the document has this id.
abbrev pub IsTicket : String → List ParsedTicket → Type 0
IsTicket id ts = (t : ParsedTicket) × Memᴰ t ts × (t.id ≡ id)

-- The entry for `id` is that of the last ticket of that id, or of the map the loop began with.
abbrev Origin : String → List (String × String) → List ParsedTicket → Type 0
Origin id ids ts =
    ((t : ParsedTicket) × Memᴰ t ts
      × (t.id ≡ id)
      × (get id (completion_ids ids ts) ≡ some (effective t)))
    ⊎ (All (λ (t : ParsedTicket). t.id ≢ id) ts × (get id (completion_ids ids ts) ≡ get id ids))

different : {a b : String} → same_text a b ≡ false → a ≢ b
different {a = a} {b = b} eq same = true≢false (sym ((eq_iff a b).1 same) ∙ eq)

completion-Origin :
    (id : String) (ids : List (String × String)) (ts : List ParsedTicket) → Origin id ids ts
unfolding completion_ids
completion-Origin id ids [] = inr (tt, refl)
completion-Origin id ids (t ∷ ts) = elim (completion-Origin id ((t.id, effective t) ∷ ids) ts) [
  | inl (u, m, h, eq) ↦ inl (u, Memᴰ.tail m, h, eq)
  | inr (others, eq) ↦ elim (Bool-cases (same_text t.id id)) [
    | inl same ↦ inl (t, Memᴰ.head refl, (eq_iff t.id id).0 same, eq ∙ simp (same))
    | inr differ ↦ inr ((different differ, others), eq ∙ simp (differ))
  ]
]

-- What the loop reads for a dependency.
pub effective_dep-cases :
    (id : String) (ts : List ParsedTicket)
    → ((t : ParsedTicket) × Memᴰ t ts
        × (t.id ≡ id)
        × (effective_dep (completion_ids [] ts) id ≡ effective t))
      ⊎ (All (λ (t : ParsedTicket). t.id ≢ id) ts × (effective_dep (completion_ids [] ts) id ≡ id))
effective_dep-cases id ts = elim (completion-Origin id [] ts) [
  | inl (t, m, h, eq) ↦ inl (t, m, h, ap (unwrap_or id) eq)
  | inr (others, eq) ↦ inr (others, ap (unwrap_or id) eq)
]

module _ (ts : List ParsedTicket) {g : CompiledGraph} (built : graph_of ts ≡ ok g) where
  pub node-Mem :
      {t : ParsedTicket} {id : String}
      → Memᴰ t ts
      → Memᴰ id (chain_ids t)
      → Memᴰ id (node_ids g.nodes)
  node-Mem {id = id} m h =
      subst (λ ids. Memᴰ id ids) (sym (graph_of-HasAdded ts built).new_nodes)
        (Mem-flat_map chain_ids m h)

  pub edge-Mem :
      {t : ParsedTicket} {e : OrchaEdgeDef}
      → Memᴰ t ts
      → Memᴰ e (chain_edges (completion_ids [] ts) t)
      → Memᴰ e g.edges
  edge-Mem {e = e} m h =
      subst (λ es. Memᴰ e es) (sym (graph_of-HasAdded ts built).new_edges)
        (Mem-flat_map (chain_edges (completion_ids [] ts)) m h)

  pub edge-of_ticket :
      {e : OrchaEdgeDef}
      → Memᴰ e g.edges
      → (t : ParsedTicket) × Memᴰ t ts × Memᴰ e (chain_edges (completion_ids [] ts) t)
  edge-of_ticket {e = e} m =
      flat_map-Mem (chain_edges (completion_ids [] ts)) ts
        (subst (λ es. Memᴰ e es) (graph_of-HasAdded ts built).new_edges m)

sibling-of :
    (id : String) (v : Option String) {e : OrchaEdgeDef}
    → Memᴰ e (elim v [ none ↦ [] | some _ ↦ record { from = id; to = validate_id id } ∷ [] ])
    → (is_some v ≡ true) × (e ≡ record { from = id; to = validate_id id })
sibling-of id none m = absurd (Memᴰ.not-nil m)
sibling-of id (some _) m = (refl, Memᴰ.eq_of_singleton m)

-- An edge of a ticket is the one to its sibling, or that of a dependency.
pub chain_edges-cases :
    (ids : List (String × String)) (t : ParsedTicket) {e : OrchaEdgeDef}
    → Memᴰ e (chain_edges ids t)
    → ((is_some t.validate ≡ true) × (e ≡ record { from = t.id; to = validate_id t.id }))
      ⊎ ((dep : String) × Memᴰ dep t.deps × (e ≡ dep_edge ids t.id dep))
chain_edges-cases ids t m = elim (Memᴰ.append_cases (sibling_edges t) m) [
  | inl sibling ↦ inl (sibling-of t.id t.validate sibling)
  | inr edge ↦
      let (dep, at, eq) = Memᴰ.of_map (dep_edge ids t.id) t.deps edge in inr (dep, at, sym eq)
]

last_of :
    (id : String) (v : Option String)
    → Memᴰ
        (elim v [ none ↦ id | some _ ↦ validate_id id ])
        (id ∷ elim v [ none ↦ [] | some _ ↦ validate_id id ∷ [] ])
last_of id none = Memᴰ.head refl
last_of id (some _) = Memᴰ.tail (Memᴰ.head refl)

sibling-last :
    (id : String) (v : Option String)
    → is_some v ≡ true
    → elim v [ none ↦ id | some _ ↦ validate_id id ] ≡ validate_id id
sibling-last id none eq = absurd (false≢true eq)
sibling-last id (some _) eq = refl

-- The last node of a chain is in it; it is the sibling, if there is one.
pub effective-Mem : (t : ParsedTicket) → Memᴰ (effective t) (chain_ids t)
effective-Mem t = last_of t.id t.validate

pub effective-sibling :
    (t : ParsedTicket) → is_some t.validate ≡ true → effective t ≡ validate_id t.id
effective-sibling t some_v = sibling-last t.id t.validate some_v

alone :
    (id : String) (v : Option String)
    → is_some v ≡ false
    → elim v [ none ↦ id | some _ ↦ validate_id id ] ≡ id
alone id none eq = refl
alone id (some _) eq = absurd (true≢false eq)

pub effective_alone : (t : ParsedTicket) → is_some t.validate ≡ false → effective t ≡ t.id
effective_alone t none_v = alone t.id t.validate none_v
