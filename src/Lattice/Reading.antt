-- ===== src/Lattice/Reading.antt =====
-- What a reader of `execute_stream` is given over several rounds of its loop.
use mneme_substrate.Base.{
  ℕ, Bool, true, false, List, [], ◌∷◌, ◌++◌, ◌≡◌, refl, ◌∙◌, sym, ap, if◌then◌else◌, Bool-cases,
  inl, inr,
}
use mneme_substrate.Lattice.Store.{Store, get_events_after}
use mneme_substrate.Lattice.Stream.{Envelope, Reader, is_terminal_event, emit, poll}
use mneme_substrate.Lattice.Service.{Request, serve}
use mneme_substrate.Lattice.Log.{IsLogged, cursor_after}
use mneme_substrate.Lattice.Growth.{reconnect_no_gaps}

-- The reader behind a batch that did not end the stream.
abbrev behind : Reader → List Envelope → Reader
behind r events = record r { cursor = cursor_after r.cursor events }

-- A batch that leaves the stream open is yielded whole.
emit_open :
    (r : Reader) (xs : List Envelope) → (emit r xs).1.closed ≡ false → emit r xs ≡ (xs, behind r xs)
unfolding emit
emit_open r [] h = refl
emit_open r ((seq, event) ∷ xs) h = elim (Bool-cases (is_terminal_event event)) [
  | inl ends ↦ absurd (cc (rw ends at h))
  | inr goes ↦ rw goes (rw (emit_open (record r { cursor = seq }) xs (rw goes at h)))
]

emit-append :
    (r : Reader) (xs ys : List Envelope)
    → (emit r xs).1.closed ≡ false
    → (emit r (xs ++ ys)).0 ≡ xs ++ (emit (behind r xs) ys).0
unfolding emit
emit-append r [] ys h = refl
emit-append r ((seq, event) ∷ xs) ys h = elim (Bool-cases (is_terminal_event event)) [
  | inl ends ↦ absurd (cc (rw ends at h))
  | inr goes ↦ rw goes (
      ap (λ (l : List Envelope). (seq, event) ∷ l)
        (emit-append (record r { cursor = seq }) xs ys (rw goes at h)))
]

if_false {ℓ} : {A : Type ℓ} (b : Bool) (x y : A) → b ≡ false → (if b then x else y) ≡ y
if_false true x y h = absurd (cc h)
if_false false x y h = refl

poll_open :
    (r : Reader) (s : Store)
    → r.closed ≡ false
    → poll r s ≡ emit r (get_events_after r.graph_id r.cursor s)
unfolding poll
poll_open r s h = if_false r.closed _ _ h

-- A reader whose first round did not meet the end of the graph, and that is woken again after any
-- requests were served, has then yielded the events that a reader yields which is woken only then,
-- in the same order and up to the same end.
pub rounds_agree :
    (r : Reader) (s : Store) (rs : List (ℕ × Request))
    → IsLogged s
    → r.closed ≡ false
    → (poll r s).1.closed ≡ false
    → (poll r s).0 ++ (poll (poll r s).1 (serve s rs)).0 ≡ (poll r (serve s rs)).0
rounds_agree r s rs logged opened still =
    let batch : List Envelope = get_events_after r.graph_id r.cursor s in
    let first : poll r s ≡ emit r batch = poll_open r s opened in
    let still' : (emit r batch).1.closed ≡ false =
      sym (ap (λ (x : List Envelope × Reader). x.1.closed) first) ∙ still in
    let read : poll r s ≡ (batch, behind r batch) = first ∙ emit_open r batch still' in
    rw read (
      rw (poll_open (behind r batch) (serve s rs) opened) (
        rw (poll_open r (serve s rs) opened) (
          sym (emit-append r batch _ still')
          ∙ ap (λ (l : List Envelope). (emit r l).0)
              (reconnect_no_gaps r.graph_id r.cursor s rs logged))))
