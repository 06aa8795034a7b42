-- ===== src/Lattice/WellFormed.antt =====
-- The invariant of a store, which every request keeps: edges lead to nodes, and the tokens of an
-- edge are numbered so that the next number is free.
use mneme_substrate.Base.{
  ℕ, Bool, true, false, ◌||◌, ◌&&◌, not, none, List, [], ◌∷◌, ◌++◌, ◌≡◌, refl, sym, ◌∙◌, arith,
  ◌==◌, any, All, if◌then◌else◌, Bool-cases, inl, inr,
}
use mathlib.Core.Path.{subst}
use mneme_substrate.Base.Exec.{◌>>=◌}
use mneme_substrate.Base.Exec.Keeps.{Keeps, keeps_if}
use mneme_substrate.Base.Exec.Safe.{Safe, Any, Safe-modify}
use mneme_substrate.Lattice.Types.{GraphId, NodeId, NodeStatus}
use mneme_substrate.Lattice.Store.{
  Node, Edge, Store, Action, Notifier, has_node, has_graph, get_or_create_notifier,
  reset_node_to_pending, set_node_status,
}
use mneme_substrate.Lattice.Edit.{
  in_graph, insert_checked, create_graph, create_child_graph, insert_node,
}
use mneme_substrate.Lattice.Service.{Request, serve}
use mneme_substrate.Lattice.Primitives.{Writes}
use mneme_substrate.Lattice.Requests.{Inserts, serve-Keeps}
use mneme_substrate.Lattice.Rows.{IsNumbered}
use mneme_substrate.Lattice.Sound.{
  Shape, shape_of, IsSound, set_node_status-Safe, persist_event-Safe, update_graph_status-Safe,
  notify_graph-Safe, deliver_next-Safe,
}
use mneme_substrate.Lattice.Halting.{HasTargets}

pub record IsWellFormed (s : Store) : Type 0 where
  pub targets : HasTargets (shape_of s)
  pub numbered : IsNumbered s.tokens s.tokens

pub IsWellFormed-IsSound : (s : Store) → IsWellFormed s → IsSound (shape_of s) s
IsWellFormed-IsSound s h = record {
  edges_fixed = refl;
  nodes_fixed = λ n. refl;
  kinds_fixed = λ n. refl;
  numbered = h.numbered;
}

targets_kept :
    (edges : List Edge) (p q : NodeId → Bool)
    → ((n : NodeId) → q n ≡ p n)
    → All (λ (e : Edge). p e.to_node ≡ true) edges
    → All (λ (e : Edge). q e.to_node ≡ true) edges
targets_kept [] p q same h = tt
targets_kept (e ∷ es) p q same h = (same e.to_node ∙ h.0, targets_kept es p q same h.1)

IsSound-IsWellFormed :
    (shape : Shape) (s : Store) → HasTargets shape → IsSound shape s → IsWellFormed s
IsSound-IsWellFormed shape s targets h = record {
  targets =
      subst (λ (es : List Edge). All (λ (e : Edge). has_node e.to_node s ≡ true) es)
        (sym h.edges_fixed)
        (targets_kept shape.edges shape.present (λ n. has_node n s) h.nodes_fixed targets);
  numbered = h.numbered;
}

-- An action that keeps every shape keeps the invariant.
pub Keeps-IsWellFormed :
    {A : Type 0} (m : Action A)
    → ((shape : Shape) → HasTargets shape → Keeps (IsSound shape) m)
    → Keeps IsWellFormed m
Keeps-IsWellFormed m k = record {
  at = λ s h.
      IsSound-IsWellFormed (shape_of s) (m s).1 h.targets
        ((k (shape_of s) h.targets).at s (IsWellFormed-IsSound s h));
}

pub Safe-Keeps :
    {A : Type 0} {P : Store → Type 0} {Q : A → Type 0} (m : Action A) → Safe P Q m → Keeps P m
Safe-Keeps m k = record { at = λ s h. (k.at s h).holds }

if_kept : (P : Store → Type 0) (b : Bool) (s t : Store) → P s → P t → P (if b then s else t)
if_kept P true s t h k = h
if_kept P false s t h k = k

notifier-Safe : {shape : Shape} (g : GraphId) → Safe (IsSound shape) Any (get_or_create_notifier g)
unfolding get_or_create_notifier
notifier-Safe g = Safe-modify _ λ s h.
    if_kept (IsSound _) (any (λ (n : Notifier). n.graph_id == g) s.notifiers) s _ h (record {
      edges_fixed = h.edges_fixed;
      nodes_fixed = h.nodes_fixed;
      kinds_fixed = h.kinds_fixed;
      numbered = h.numbered;
    })

pub IsWellFormed-Writes : Writes IsWellFormed
unfolding reset_node_to_pending set_node_status
IsWellFormed-Writes = record {
  status = λ n status output error.
      Keeps-IsWellFormed _ (λ _ _. Safe-Keeps _ (set_node_status-Safe n status output error));
  pending = λ n.
      Keeps-IsWellFormed _
        (λ _ _. Safe-Keeps _ (set_node_status-Safe n NodeStatus.pending none none));
  event = λ g event. Keeps-IsWellFormed _ (λ _ _. Safe-Keeps _ (persist_event-Safe g event));
  graph =
      λ g status _. Keeps-IsWellFormed _ (λ _ _. Safe-Keeps _ (update_graph_status-Safe g status));
  deliver = λ g t e. Keeps-IsWellFormed _ (λ _ _. Safe-Keeps _ (deliver_next-Safe g t e));
  notify = λ g. Keeps-IsWellFormed _ (λ _ _. Safe-Keeps _ (notify_graph-Safe g));
  notifier = λ g. Keeps-IsWellFormed _ (λ _ _. Safe-Keeps _ (notifier-Safe g));
}

-- Insertions.
any-append_left :
    (n : NodeId) (xs ys : List Node)
    → any (λ (r : Node). r.id == n) xs ≡ true
    → any (λ (r : Node). r.id == n) (xs ++ ys) ≡ true
any-append_left n [] ys h = absurd (cc h)
any-append_left n (x ∷ xs) ys h = ground (arith, any-append_left n xs ys)

targets-put_node :
    (edges : List Edge) (xs ys : List Node)
    → All (λ (e : Edge). any (λ (r : Node). r.id == e.to_node) xs ≡ true) edges
    → All (λ (e : Edge). any (λ (r : Node). r.id == e.to_node) (xs ++ ys) ≡ true) edges
targets-put_node [] xs ys h = tt
targets-put_node (e ∷ es) xs ys h =
    (any-append_left e.to_node xs ys h.0, targets-put_node es xs ys h.1)

targets-put_edge :
    (edges : List Edge) (e : Edge) (s : Store)
    → All (λ (e : Edge). has_node e.to_node s ≡ true) edges
    → has_node e.to_node s ≡ true
    → All (λ (e : Edge). has_node e.to_node s ≡ true) (edges ++ e ∷ [])
targets-put_edge [] e s h k = (k, tt)
targets-put_edge (x ∷ xs) e s h k = (h.0, targets-put_edge xs e s h.1 k)

in_graph-has_node :
    (g : GraphId) (n : NodeId) (rs : List Node)
    → any (λ (r : Node). (r.id == n) && (r.graph_id == g)) rs ≡ true
    → any (λ (r : Node). r.id == n) rs ≡ true
in_graph-has_node g n [] h = absurd (cc h)
in_graph-has_node g n (r ∷ rs) h = ground (arith, in_graph-has_node g n rs)

-- The edge that is written leads to a node, since both ends were looked up before.
insert_checked-IsWellFormed : (e : Edge) → Keeps IsWellFormed (insert_checked e)
unfolding insert_checked ◌>>=◌
insert_checked-IsWellFormed e = record {
  at = λ s h. elim (Bool-cases (in_graph e.graph_id e.from_node s)) [
    | inr absent ↦ rw absent h
    | inl known ↦ rw known (elim (Bool-cases (in_graph e.graph_id e.to_node s)) [
      | inr absent ↦ rw absent h
      | inl here ↦ rw here (
          keeps_if IsWellFormed
            (any (λ (f : Edge). f.id == e.id) s.edges || not (has_graph e.graph_id s)) _ _ s h
            (record {
              targets =
                  targets-put_edge s.edges e s h.targets
                    (in_graph-has_node e.graph_id e.to_node s.nodes here);
              numbered = h.numbered;
            }))
    ])
  ];
}

pub IsWellFormed-Inserts : Inserts IsWellFormed
unfolding create_graph create_child_graph insert_node ◌>>=◌
IsWellFormed-Inserts = record {
  graph = λ id metadata. record {
    at = λ s h.
        keeps_if IsWellFormed (has_graph id s) _ _ s h
          (record { targets = h.targets; numbered = h.numbered });
  };
  child = λ id parent metadata. record {
    at = λ s h.
        keeps_if IsWellFormed (has_graph id s || not (has_graph parent s)) _ _ s h
          (record { targets = h.targets; numbered = h.numbered });
  };
  node = λ id g spec. record {
    at = λ s h.
        keeps_if IsWellFormed (has_node id s || not (has_graph g s)) _ _ s h (record {
          targets = targets-put_node s.edges s.nodes _ h.targets;
          numbered = h.numbered;
        });
  };
  edge = insert_checked-IsWellFormed;
  clock = λ now s h. record { targets = h.targets; numbered = h.numbered };
}

-- After any sequence of requests to an empty storage, errors included, every edge leads to a node
-- and the tokens of each edge are numbered at most by their count, so that the number that the next
-- delivery takes is free.
pub serve-IsWellFormed :
    (s : Store) (rs : List (ℕ × Request)) → IsWellFormed s → IsWellFormed (serve s rs)
serve-IsWellFormed s rs h = serve-Keeps IsWellFormed-Writes IsWellFormed-Inserts s rs h
