-- ===== src/Lattice/Growth.antt =====
-- src/activations/lattice/storage.rs: the event log across requests.
use mneme_substrate.Base.{
  ℕ, suc, Bool, true, false, not, ◌||◌, List, [], ◌∷◌, ◌++◌, ◌≡◌, refl, sym, ◌∙◌, ap, arith, ◌==◌,
  any, if◌then◌else◌, Bool-cases, inl, inr,
}
use mathlib.Core.Path.{subst}
use mathlib.Core.List.{append_assoc, append-nil}
use mneme_substrate.Base.Exec.{◌>>=◌}
use mneme_substrate.Base.Exec.Keeps.{Keeps, keeps_if}
use mneme_substrate.Lattice.Types.{GraphId}
use mneme_substrate.Lattice.Store.{
  Edge, EventRow, Notifier, Store, has_graph, has_node, set_node_status, reset_node_to_pending,
  persist_event, update_graph_status, notify_graph, get_or_create_notifier, deliver_token,
  count_tokens_on_edge, taken, get_events_after,
}
use mneme_substrate.Lattice.Engine.{deliver_next}
use mneme_substrate.Lattice.Edit.{
  create_graph, create_child_graph, insert_node, insert_checked, in_graph,
}
use mneme_substrate.Lattice.Service.{Request, serve}
use mneme_substrate.Lattice.Log.{Rises, Rises-snoc, IsLogged, cursor_after, replay_no_gaps}
use mneme_substrate.Lattice.Primitives.{Writes}
use mneme_substrate.Lattice.Requests.{Inserts, serve-Keeps}

-- `t` holds the events of `s` and further ones behind them.
pub record IsGrowth (s t : Store) : Type 0 where
  pub more : List EventRow
  pub split : t.events ≡ s.events ++ more
  pub logged : IsLogged t

pub IsGrowth-refl : (s : Store) → IsLogged s → IsGrowth s s
IsGrowth-refl s h = record { more = []; split = sym (append-nil s.events); logged = h }

IsGrowth-persist :
    (s t : Store) (r : EventRow)
    → r.seq ≡ suc t.last_seq
    → IsGrowth s t
    → IsGrowth s (record t { events = t.events ++ r ∷ []; last_seq = r.seq })
IsGrowth-persist s t r e h = record {
  more = h.more ++ r ∷ [];
  split = ap (λ (rs : List EventRow). rs ++ r ∷ []) h.split ∙ append_assoc s.events h.more (r ∷ []);
  logged = Rises-snoc 0 t.events t.last_seq r h.logged (omega arith);
}

-- A write that leaves the log alone.
same_log :
    (s t u : Store) → u.events ≡ t.events → u.last_seq ≡ t.last_seq → IsGrowth s t → IsGrowth s u
same_log s t u e f h = record {
  more = h.more;
  split = e ∙ h.split;
  logged = subst (λ (rs : List EventRow). Rises 0 rs u.last_seq) (sym e) (rw f h.logged);
}

module _ (s : Store) where
  pub IsGrowth-Writes : Writes (IsGrowth s)
  unfolding set_node_status reset_node_to_pending persist_event update_graph_status deliver_next
      deliver_token count_tokens_on_edge notify_graph get_or_create_notifier ◌>>=◌
  IsGrowth-Writes = record {
    status = λ n status output error. record { at = λ t h. same_log s t _ refl refl h };
    pending = λ n. record { at = λ t h. same_log s t _ refl refl h };
    event = λ g event. record { at = λ t h. IsGrowth-persist s t _ refl h };
    graph = λ g status _. record { at = λ t h. same_log s t _ refl refl h };
    deliver = λ g token e. record {
      at = λ t h.
          keeps_if (IsGrowth s) (taken e.id (suc (count_tokens_on_edge e.id t)) t.tokens) _ _ t h
            (same_log s t _ refl refl h);
    };
    notify = λ g. record { at = λ t h. same_log s t _ refl refl h };
    notifier = λ g. record {
      at = λ t h.
          kept (any (λ (n : Notifier). n.graph_id == g) t.notifiers) t _ h
            (same_log s t _ refl refl h);
    };
  }
    where
      kept :
          (b : Bool) (t u : Store) → IsGrowth s t → IsGrowth s u → IsGrowth s (if b then t else u)
      kept true t u h k = h
      kept false t u h k = k

  insert_checked-IsGrowth : (e : Edge) → Keeps (IsGrowth s) (insert_checked e)
  unfolding insert_checked ◌>>=◌
  insert_checked-IsGrowth e = record {
    at = λ t h. elim (Bool-cases (in_graph e.graph_id e.from_node t)) [
      | inr absent ↦ rw absent h
      | inl known ↦ rw known (elim (Bool-cases (in_graph e.graph_id e.to_node t)) [
        | inr absent ↦ rw absent h
        | inl here ↦ rw here (
            keeps_if (IsGrowth s)
              (any (λ (f : Edge). f.id == e.id) t.edges || not (has_graph e.graph_id t)) _ _ t h
              (same_log s t _ refl refl h))
      ])
    ];
  }

  pub IsGrowth-Inserts : Inserts (IsGrowth s)
  unfolding create_graph create_child_graph insert_node ◌>>=◌
  IsGrowth-Inserts = record {
    graph = λ id metadata. record {
      at = λ t h. keeps_if (IsGrowth s) (has_graph id t) _ _ t h (same_log s t _ refl refl h);
    };
    child = λ id parent metadata. record {
      at = λ t h.
          keeps_if (IsGrowth s) (has_graph id t || not (has_graph parent t)) _ _ t h
            (same_log s t _ refl refl h);
    };
    node = λ id g spec. record {
      at = λ t h.
          keeps_if (IsGrowth s) (has_node id t || not (has_graph g t)) _ _ t h
            (same_log s t _ refl refl h);
    };
    edge = insert_checked-IsGrowth;
    clock = λ now t h. same_log s t _ refl refl h;
  }

-- Requests of any kind and in any order, also those that fail, only append to the event log, and
-- number the new events in rising order.
pub serve-IsGrowth : (s : Store) (rs : List (ℕ × Request)) → IsLogged s → IsGrowth s (serve s rs)
serve-IsGrowth s rs h =
    serve-Keeps (IsGrowth-Writes s) (IsGrowth-Inserts s) s rs (IsGrowth-refl s h)

-- A client that reads the events of a graph, disconnects while requests of any kind are served, and
-- reconnects with the number of the last event that it read, has then seen exactly the events that
-- one read from its first cursor shows, in their order.
pub reconnect_no_gaps :
    (g : GraphId) (cursor : ℕ) (s : Store) (rs : List (ℕ × Request))
    → IsLogged s
    → get_events_after g cursor s
        ++ get_events_after g (cursor_after cursor (get_events_after g cursor s)) (serve s rs)
      ≡ get_events_after g cursor (serve s rs)
reconnect_no_gaps g cursor s rs h =
    let grown = serve-IsGrowth s rs h in
    replay_no_gaps g cursor s (serve s rs) grown.more h grown.logged grown.split
