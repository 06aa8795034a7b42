-- ===== src/Lattice/Started.antt =====
-- Starting a graph: the compare-and-swap of `start_graph`.
use mneme_substrate.Base.{
  ℕ, suc, Bool, true, false, not, ◌||◌, some, List, [], ◌∷◌, ◌++◌, ◌≡◌, refl, arith, ◌==◌, any,
  if◌then◌else◌, Bool-cases, inl, inr, ok,
}
use mneme_substrate.Base.Exec.{modify, ◌>>=◌}
use mneme_substrate.Base.Exec.Keeps.{Keeps, keeps_if}
use mneme_substrate.Lattice.Types.{GraphId, GraphStatus, is_pending_graph}
use mneme_substrate.Lattice.Store.{
  Edge, GraphRow, Notifier, Store, find_graph, update_graph, has_graph, has_node, set_node_status,
  reset_node_to_pending, persist_event, update_graph_status, notify_graph, get_or_create_notifier,
  deliver_token, get_graph_status, count_tokens_on_edge, taken,
}
use mneme_substrate.Lattice.Engine.{deliver_next}
use mneme_substrate.Lattice.Edit.{
  create_graph, create_child_graph, insert_node, insert_checked, in_graph,
}
use mneme_substrate.Lattice.Lifecycle.{start_graph}
use mneme_substrate.Lattice.Service.{Request, serve}
use mneme_substrate.Lattice.Primitives.{Writes}
use mneme_substrate.Lattice.Requests.{Inserts, serve-Keeps}

pub record IsStarted (g : GraphId) (s : Store) : Type 0 where
  pub row : GraphRow
  pub found : find_graph g s.graphs ≡ some row
  pub left_pending : is_pending_graph row.status ≡ false

-- The row of a graph after the update of some graph.
updated : GraphId → GraphStatus → GraphRow → GraphRow
updated g status r = if r.id == g then record r { status = status } else r

find_graph-update_any :
    (g h : GraphId) (status : GraphStatus) (rs : List GraphRow) (row : GraphRow)
    → find_graph g rs ≡ some row
    → find_graph g (update_graph h status rs) ≡ some (updated h status row)
unfolding find_graph update_graph updated
find_graph-update_any g h status [] row e = cc
find_graph-update_any g h status (r ∷ rs) row e =
    ground (arith, find_graph-update_any g h status rs row)

find_graph-append :
    (g : GraphId) (rs more : List GraphRow) (row : GraphRow)
    → find_graph g rs ≡ some row
    → find_graph g (rs ++ more) ≡ some row
unfolding find_graph
find_graph-append g [] more row e = absurd (cc e)
find_graph-append g (r ∷ rs) more row e = ground (arith, find_graph-append g rs more row)

module _ (g : GraphId) where
  same_graphs : (s t : Store) → t.graphs ≡ s.graphs → IsStarted g s → IsStarted g t
  same_graphs s t e h = record { row = h.row; found = rw e h.found; left_pending = h.left_pending }

  update-IsStarted :
      (h : GraphId) (status : GraphStatus)
      → is_pending_graph status ≡ false
      → Keeps (IsStarted g) (update_graph_status h status)
  unfolding update_graph_status modify updated
  update-IsStarted h status ne = record {
    at = λ s k. record {
      row = updated h status k.row;
      found = find_graph-update_any g h status s.graphs k.row k.found;
      left_pending = ground (arith, k.left_pending);
    };
  }

  more_graphs :
      (s : Store) (row : GraphRow)
      → IsStarted g s
      → IsStarted g (record s { graphs = s.graphs ++ row ∷ [] })
  more_graphs s row h = record {
    row = h.row;
    found = find_graph-append g s.graphs (row ∷ []) h.row h.found;
    left_pending = h.left_pending;
  }

  IsStarted-Writes : Writes (IsStarted g)
  unfolding set_node_status reset_node_to_pending persist_event deliver_next deliver_token
      count_tokens_on_edge notify_graph get_or_create_notifier ◌>>=◌
  IsStarted-Writes = record {
    status = λ n status output error. record { at = λ s h. same_graphs s _ refl h };
    pending = λ n. record { at = λ s h. same_graphs s _ refl h };
    event = λ g' event. record { at = λ s h. same_graphs s _ refl h };
    graph = update-IsStarted;
    deliver = λ g' token e. record {
      at = λ s h.
          keeps_if (IsStarted g) (taken e.id (suc (count_tokens_on_edge e.id s)) s.tokens) _ _ s h
            (same_graphs s _ refl h);
    };
    notify = λ g'. record { at = λ s h. same_graphs s _ refl h };
    notifier = λ g'. record {
      at = λ s h.
          kept (any (λ (n : Notifier). n.graph_id == g') s.notifiers) s _ h
            (same_graphs s _ refl h);
    };
  }
    where
      kept :
          (b : Bool) (t u : Store)
          → IsStarted g t
          → IsStarted g u
          → IsStarted g (if b then t else u)
      kept true t u h k = h
      kept false t u h k = k

  IsStarted-Inserts : Inserts (IsStarted g)
  unfolding create_graph create_child_graph insert_node insert_checked ◌>>=◌
  IsStarted-Inserts = record {
    graph = λ id metadata. record {
      at = λ s h. keeps_if (IsStarted g) (has_graph id s) _ _ s h (more_graphs s _ h);
    };
    child = λ id parent metadata. record {
      at = λ s h.
          keeps_if (IsStarted g) (has_graph id s || not (has_graph parent s)) _ _ s h
            (more_graphs s _ h);
    };
    node = λ id g' spec. record {
      at = λ s h.
          keeps_if (IsStarted g) (has_node id s || not (has_graph g' s)) _ _ s h
            (same_graphs s _ refl h);
    };
    edge = λ e. record {
      at = λ s h. elim (Bool-cases (in_graph e.graph_id e.from_node s)) [
        | inr absent ↦ rw absent h
        | inl known ↦ rw known (elim (Bool-cases (in_graph e.graph_id e.to_node s)) [
          | inr absent ↦ rw absent h
          | inl here ↦ rw here (
              keeps_if (IsStarted g)
                (any (λ (f : Edge). f.id == e.id) s.edges || not (has_graph e.graph_id s)) _ _ s h
                (same_graphs s _ refl h))
        ])
      ];
    };
    clock = λ now s h. same_graphs s _ refl h;
  }

start_graph-no_op : (g : GraphId) (s : Store) → IsStarted g s → start_graph g s ≡ (ok tt, s)
unfolding start_graph get_graph_status ◌>>=◌
start_graph-no_op g s h = rw h.found (rw h.left_pending)

-- Once a graph has left Pending it never returns there, whatever is requested, and a further
-- `start_graph` is a no-op that returns `Ok`: the root nodes of a graph are seeded at most once.
pub IsStarted-once :
    (g : GraphId) (s : Store) (rs : List (ℕ × Request))
    → IsStarted g s
    → IsStarted g (serve s rs) × (start_graph g (serve s rs) ≡ (ok tt, serve s rs))
IsStarted-once g s rs h =
    let later = serve-Keeps (IsStarted-Writes g) (IsStarted-Inserts g) s rs h in
    (later, start_graph-no_op g (serve s rs) later)
