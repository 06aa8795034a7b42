-- ===== src/Lattice/Stream.antt =====
-- src/activations/lattice/storage.rs, `execute_stream`: the sequenced events of a graph, as a
-- state machine. `open_stream` is the part before the loop, `poll` one round of the loop up to
-- `select!`, and `time_out` the hour without a wake-up.
use mneme_substrate.Base.{
  ℕ, Bool, true, false, Option, List, [], ◌∷◌, if◌then◌else◌, unwrap_or, not, ◌&&◌, is_some,
}
use mneme_substrate.Base.Exec.{pure, ◌>>=◌, ◌>>◌}
use mneme_substrate.Lattice.Types.{
  GraphId, NodeId, LatticeEvent, is_pending_graph, graph_done, graph_failed,
}
use mneme_substrate.Lattice.Store.{
  Store, Action, get_events_after, get_or_create_notifier, persist_event,
}
use mneme_substrate.Lattice.Edit.{get_graph}
use mneme_substrate.Lattice.Lifecycle.{start_graph}

abbrev pub Envelope : Type 0
Envelope = ℕ × LatticeEvent

pub record Reader : Type 0 where
  pub graph_id : GraphId
  pub cursor : ℕ
  pub closed : Bool

unfoldable pub is_terminal_event : LatticeEvent → Bool
is_terminal_event (graph_done _) = true
is_terminal_event (graph_failed _ _ _) = true
is_terminal_event _ = false

-- An error here is the envelope with number 0 that carries it, after which the stream ends.
unfoldable pub open_stream : GraphId → Option ℕ → Action Reader
open_stream g after_seq = do
  graph ← get_graph g
  if not (is_some after_seq) && is_pending_graph graph.row.status then start_graph g else pure tt
  get_or_create_notifier g
  pure (record { graph_id = g; cursor = unwrap_or 0 after_seq; closed = false })

-- `for (seq, event) in events`: what is yielded, and the reader after it.
unfoldable pub emit : Reader → List Envelope → List Envelope × Reader
unfolding is_terminal_event
emit r [] = ([], r)
emit r ((seq, event) ∷ events) =
    let (rest, r') = emit (record r { cursor = seq }) events in
    if is_terminal_event event
    then ((seq, event) ∷ [], record r { cursor = seq; closed = true })
    else ((seq, event) ∷ rest, r')

unfoldable pub poll : Reader → Store → List Envelope × Reader
unfolding emit
poll r s = if r.closed then ([], r) else emit r (get_events_after r.graph_id r.cursor s)

-- The node id "timeout" is not one of a node.
unfoldable pub time_out : NodeId → Reader → Action (Envelope × Reader)
time_out timeout r = do
  let event = graph_failed r.graph_id timeout "Execution timed out"
  seq ← persist_event r.graph_id event
  pure ((seq, event), record r { closed = true })
