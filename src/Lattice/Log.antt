-- ===== src/Lattice/Log.antt =====
-- The event log of src/activations/lattice/storage.rs: numbers that rise, and what a reader with a
-- cursor sees of a log that grows.
use mneme_substrate.Base.{
  ℕ, ◌≤◌, ◌<◌, true, false, ◌&&◌, List, [], ◌∷◌, ◌++◌, ◌≡◌, refl, sym, ◌∙◌, ap, arith, ◌==◌, ltb,
  insert_by, sort_by, Bool-cases, inl, inr,
}
use native.Mathlib.Nat.{le_refl}
use mathlib.Core.Path.{subst}
use mneme_substrate.Lattice.Types.{GraphId, LatticeEvent}
use mneme_substrate.Lattice.Store.{EventRow, Store, events_after, get_events_after}

abbrev pub seq_of : EventRow → ℕ
seq_of r = r.seq

-- The numbers rise strictly from above `lo`, and none is above `hi`.
abbrev pub Rises : ℕ → List EventRow → ℕ → Type 0
Rises lo [] hi = lo ≤ hi
Rises lo (r ∷ rs) hi = (lo < r.seq) × Rises r.seq rs hi

abbrev pub IsLogged : Store → Type 0
IsLogged s = Rises 0 s.events s.last_seq

pub Rises-snoc :
    (lo : ℕ) (rs : List EventRow) (hi : ℕ) (r : EventRow)
    → Rises lo rs hi
    → hi < r.seq
    → Rises lo (rs ++ r ∷ []) r.seq
Rises-snoc lo [] hi r h k = (omega arith, omega arith)
Rises-snoc lo (x ∷ xs) hi r h k = (h.0, Rises-snoc x.seq xs hi r h.1 k)

insert_by-Rises :
    (lo : ℕ) (r : EventRow) (rs : List EventRow) (hi : ℕ)
    → Rises r.seq rs hi
    → insert_by seq_of r rs ≡ r ∷ rs
insert_by-Rises lo r [] hi h = refl
insert_by-Rises lo r (x ∷ xs) hi h = ground arith

-- `ORDER BY seq` finds the rows in order.
sort_by-Rises : (lo : ℕ) (rs : List EventRow) (hi : ℕ) → Rises lo rs hi → sort_by seq_of rs ≡ rs
sort_by-Rises lo [] hi h = refl
sort_by-Rises lo (r ∷ rs) hi h = rw (sort_by-Rises r.seq rs hi h.1) (insert_by-Rises lo r rs hi h.1)

pub get_events_after-IsLogged :
    (g : GraphId) (cursor : ℕ) (s : Store)
    → IsLogged s
    → get_events_after g cursor s ≡ events_after g cursor s.events
unfolding get_events_after
get_events_after-IsLogged g cursor s h =
    ap (events_after g cursor) (sort_by-Rises 0 s.events s.last_seq h)

-- The cursor of a reader that has read a batch.
abbrev pub cursor_after : ℕ → List (ℕ × LatticeEvent) → ℕ
cursor_after cursor [] = cursor
cursor_after cursor ((seq, event) ∷ events) = cursor_after seq events

events_after-append :
    (g : GraphId) (cursor : ℕ) (xs ys : List EventRow)
    → events_after g cursor (xs ++ ys) ≡ events_after g cursor xs ++ events_after g cursor ys
unfolding events_after
events_after-append g cursor [] ys = refl
events_after-append g cursor (x ∷ xs) ys = ground (arith, events_after-append g cursor xs ys)

-- Below a lower cursor that no row reaches, nothing changes.
events_after-low :
    (g : GraphId) (a b lo : ℕ) (rs : List EventRow) (hi : ℕ)
    → Rises lo rs hi
    → a ≤ lo
    → b ≤ lo
    → events_after g a rs ≡ events_after g b rs
unfolding events_after
events_after-low g a b lo [] hi h p q = refl
events_after-low g a b lo (r ∷ rs) hi h p q = ground (arith, events_after-low g a b r.seq rs hi h.1)

events_after-low_tail :
    (g : GraphId) (a b lo : ℕ) (xs ys : List EventRow) (hi : ℕ)
    → Rises lo (xs ++ ys) hi
    → a ≤ lo
    → b ≤ lo
    → events_after g a ys ≡ events_after g b ys
events_after-low_tail g a b lo [] ys hi h p q = events_after-low g a b lo ys hi h p q
events_after-low_tail g a b lo (x ∷ xs) ys hi h p q =
    events_after-low_tail g a b x.seq xs ys hi h.1 (omega arith) (omega arith)

Rises-append_left :
    (lo : ℕ) (xs ys : List EventRow) (hi : ℕ) → Rises lo (xs ++ ys) hi → (k : ℕ) × Rises lo xs k
Rises-append_left lo [] ys hi h = (lo, omega arith)
Rises-append_left lo (x ∷ xs) ys hi h =
    let (k, below) = Rises-append_left x.seq xs ys hi h.1 in (k, (h.0, below))

-- A batch never moves the cursor back.
cursor_after-le :
    (g : GraphId) (low a cursor : ℕ) (xs : List EventRow)
    → low ≤ a
    → low ≤ cursor
    → low ≤ cursor_after cursor (events_after g a xs)
unfolding events_after
cursor_after-le g low a cursor [] p q = q
cursor_after-le g low a cursor (x ∷ xs) p q =
    ground (arith, cursor_after-le g low a cursor xs p q, cursor_after-le g low a x.seq xs p)

events_after-nil : (g : GraphId) (cursor : ℕ) → events_after g cursor [] ≡ []
unfolding events_after
events_after-nil g cursor = refl

-- A row that no cursor from the batch on lets through.
skipped :
    (g : GraphId) (cursor : ℕ) (r : EventRow) (rs : List EventRow)
    → ((r.graph_id == g) && ltb cursor r.seq) ≡ false
    → events_after g cursor (r ∷ rs) ≡ events_after g cursor rs
unfolding events_after
skipped g cursor r rs h = rw h

passed :
    (g : GraphId) (cursor : ℕ) (r : EventRow) (rs : List EventRow)
    → ((r.graph_id == g) && ltb cursor r.seq) ≡ true
    → events_after g cursor (r ∷ rs) ≡ (r.seq, r.event) ∷ events_after g cursor rs
unfolding events_after
passed g cursor r rs h = rw h

not_above :
    (g : GraphId) (cursor : ℕ) (r : EventRow)
    → r.seq ≤ cursor
    → ((r.graph_id == g) && ltb cursor r.seq) ≡ false
not_above g cursor r h = ground arith

not_above_later :
    (g : GraphId) (a b : ℕ) (r : EventRow)
    → ((r.graph_id == g) && ltb a r.seq) ≡ false
    → a ≤ b
    → ((r.graph_id == g) && ltb b r.seq) ≡ false
not_above_later g a b r h k = ground arith

above :
    (g : GraphId) (cursor : ℕ) (r : EventRow)
    → ((r.graph_id == g) && ltb cursor r.seq) ≡ true
    → cursor ≤ r.seq
above g cursor r h = ground arith

-- Reading on from the cursor of a batch gives what the batch left.
events_after-rest :
    (g : GraphId) (cursor lo : ℕ) (xs ys : List EventRow) (hi : ℕ)
    → Rises lo (xs ++ ys) hi
    → events_after g (cursor_after cursor (events_after g cursor xs)) (xs ++ ys)
      ≡ events_after g cursor ys
events_after-rest g cursor lo [] ys hi h = rw (events_after-nil g cursor)
events_after-rest g cursor lo (x ∷ xs) ys hi h =
    elim (Bool-cases ((x.graph_id == g) && ltb cursor x.seq)) [
      | inl taken ↦
          let (k, rises) = Rises-append_left x.seq xs ys hi h.1 in
          let low = above g cursor x taken in
          rw (passed g cursor x xs taken) (
            rw (events_after-low g cursor x.seq x.seq xs k rises low (le_refl _)) (
              skipped g _ x (xs ++ ys)
                (not_above g _ x (cursor_after-le g x.seq x.seq x.seq xs (le_refl _) (le_refl _)))
              ∙ events_after-rest g x.seq x.seq xs ys hi h.1
              ∙ events_after-low_tail g x.seq cursor x.seq xs ys hi h.1 (le_refl _) low))
      | inr left ↦ rw (skipped g cursor x xs left) (
          skipped g _ x (xs ++ ys) (
            not_above_later g cursor _ x left
              (cursor_after-le g cursor cursor cursor xs (le_refl _) (le_refl _)))
          ∙ events_after-rest g cursor x.seq xs ys hi h.1)
    ]

-- A reader that stops after any batch and goes on from its cursor, in a log that has grown by any
-- rows in between, sees what one read of the grown log shows: no event is lost or seen twice.
pub replay_no_gaps :
    (g : GraphId) (cursor : ℕ) (s t : Store) (more : List EventRow)
    → IsLogged s
    → IsLogged t
    → t.events ≡ s.events ++ more
    → get_events_after g cursor s
        ++ get_events_after g (cursor_after cursor (get_events_after g cursor s)) t
      ≡ get_events_after g cursor t
replay_no_gaps g cursor s t more hs ht grown = rw (get_events_after-IsLogged g cursor s hs) (
    rw (get_events_after-IsLogged g _ t ht) (
      rw (get_events_after-IsLogged g cursor t ht) (
        rw grown (
          rw
            (events_after-rest g cursor 0 s.events more t.last_seq
              (subst (λ (rs : List EventRow). Rises 0 rs t.last_seq) grown ht))
            (sym (events_after-append g cursor s.events more))))))
