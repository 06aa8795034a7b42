-- ===== src/ClaudeCode/Buffer.antt =====
-- src/activations/claudecode/storage.rs: what a call does to the buffer of one stream.
use mathlib.Core.Bool.{false≢true}
use mneme_substrate.Base.{
  ℕ, Bool, true, false, Option, none, some, List, [], ◌∷◌, length, if◌then◌else◌, ◌==◌, ==_iff, ◌≡◌,
  ◌≢◌, ◌⊎◌, inl, inr, refl, sym, ap, ◌∙◌, subst, ◌≤◌, arith, Bool-cases,
}
use mneme_substrate.ClaudeCode.Types.{StreamId, ActiveStreamBuffer, ChatEvent}
use mneme_substrate.ClaudeCode.Streams.{
  ClaudeCodeStorage, Call, create, set_user_position, push, set_status, poll, cleanup, handle,
  find_stream, set_stream, remove_stream, with_stream, at_position, pushed, with_status, read_on,
  polled, next_position, skip, delivery, brought, stream_create, stream_set_user_position,
  stream_push_event, stream_set_status, stream_poll, stream_cleanup,
}
use mneme_substrate.ClaudeCode.Numbered.{IsNumbered, events_of}

-- The call neither makes nor removes the stream, and its reader reads on from where it was.
abbrev pub KeepsPlace : StreamId → Call → Type 0
KeepsPlace id (create key _) = key ≢ id
KeepsPlace id (cleanup key) = key ≢ id
KeepsPlace id (poll key from limit) = (key ≢ id) ⊎ (from ≡ none)
KeepsPlace id _ = Unit

-- The events that a call pushes to the stream.
abbrev pub push_of : StreamId → Call → List ChatEvent
push_of id (push key event) = if key == id then event ∷ [] else []
push_of id _ = []

abbrev pub IsReadable : ActiveStreamBuffer → Type 0
IsReadable b =
    IsNumbered 0 b.events
    × (b.info.event_count ≡ length b.events)
    × (b.info.read_position ≤ length b.events)

abbrev pub unread : ActiveStreamBuffer → List ChatEvent
unread b = events_of (skip b.info.read_position b.events)

apart : (a b : ℕ) → a ≢ b → (a == b) ≡ false
apart a b h = ground arith

find_stream-set_stream :
    (id : StreamId) (b b' : ActiveStreamBuffer) (streams : List (StreamId × ActiveStreamBuffer))
    → find_stream id streams ≡ some b
    → find_stream id (set_stream id b' streams) ≡ some b'
unfolding find_stream set_stream
find_stream-set_stream id b b' [] h = absurd (cc h)
find_stream-set_stream id b b' ((key, old) ∷ streams) h =
    go (key == id) h (λ h. find_stream-set_stream id b b' streams h)
  where
    go :
        (found : Bool)
        → (if found then some old else find_stream id streams) ≡ some b
        → (find_stream id streams ≡ some b → find_stream id (set_stream id b' streams) ≡ some b')
        → (if found
            then some (if found then b' else old)
            else find_stream id (set_stream id b' streams))
          ≡ some b'
    go true h ih = refl
    go false h ih = ih h

find_stream-set_other :
    (id key : StreamId) (b : ActiveStreamBuffer) (streams : List (StreamId × ActiveStreamBuffer))
    → key ≢ id
    → find_stream id (set_stream key b streams) ≡ find_stream id streams
unfolding find_stream set_stream
find_stream-set_other id key b [] h = refl
find_stream-set_other id key b ((k, old) ∷ streams) h = elim (Bool-cases (k == id)) [
  | inl same ↦ let other : (k == key) ≡ false = ground (arith, same, h) in simp (same, other) refl
  | inr other ↦ simp (other) (find_stream-set_other id key b streams h)
]

find_stream-remove_other :
    (id key : StreamId) (streams : List (StreamId × ActiveStreamBuffer))
    → key ≢ id
    → find_stream id (remove_stream key streams) ≡ find_stream id streams
unfolding find_stream remove_stream
find_stream-remove_other id key [] h = refl
find_stream-remove_other id key ((k, b) ∷ streams) h = elim (Bool-cases (k == key)) [
  | inl same ↦
      let other : (k == id) ≡ false = ground (arith, same, h) in
      simp (same, other) (find_stream-remove_other id key streams h)
  | inr other ↦
      simp (other)
        (ap (λ rest. if k == id then some b else rest) (find_stream-remove_other id key streams h))
]

-- A write through another stream's entry leaves the buffer, and one through its own is the new
-- buffer.
written :
    {A : Type 0} (id key : StreamId) (b : ActiveStreamBuffer) (s : ClaudeCodeStorage)
    (f : ActiveStreamBuffer → A × ActiveStreamBuffer)
    → find_stream id s.streams ≡ some b
    → find_stream id (with_stream key (find_stream key s.streams) f s).1.streams
      ≡ some (if key == id then (f b).1 else b)
unfolding find_stream set_stream
written id key b s f h = elim (Bool-cases (key == id)) [
  | inl same ↦
      let at : key ≡ id = (==_iff key id).0 same in
      subst
        (λ k.
          find_stream id (with_stream k (find_stream k s.streams) f s).1.streams
          ≡ some (if key == id then (f b).1 else b))
        (sym at) (simp (h, same) (find_stream-set_stream id b (f b).1 s.streams h))
  | inr other ↦
      simp (other)
        (go (λ e. false≢true (sym other ∙ (==_iff key id).1 e)) (find_stream key s.streams))
]
  where
    go :
        key ≢ id
        → (o : Option ActiveStreamBuffer)
        → find_stream id (with_stream key o f s).1.streams ≡ some b
    go other none = h
    go other (some b') = find_stream-set_other id key (f b').1 s.streams other ∙ h

-- What a call makes of the buffer.
abbrev pub after : StreamId → Call → ℕ → ActiveStreamBuffer → ActiveStreamBuffer
unfolding polled next_position
after id (set_user_position key p) now b = if key == id then (at_position p b).1 else b
after id (push key event) now b = if key == id then (pushed event now b).1 else b
after id (set_status key status error) now b =
    if key == id then (with_status status error now b).1 else b
after id (poll key from limit) now b = if key == id then (read_on from limit b).1 else b
after id _ now b = b

pub handle-after :
    (id : StreamId) (c : Call) (b : ActiveStreamBuffer) (s : ClaudeCodeStorage)
    → find_stream id s.streams ≡ some b
    → KeepsPlace id c
    → find_stream id (handle c s).streams ≡ some (after id c s.now b)
unfolding handle stream_create stream_set_user_position stream_push_event stream_set_status
    stream_poll stream_cleanup find_stream polled next_position
handle-after id (create key session) b s h keeps =
    simp (apart key id keeps) (find_stream-remove_other id key s.streams keeps ∙ h)
handle-after id (set_user_position key p) b s h keeps = written id key b s (at_position p) h
handle-after id (push key event) b s h keeps = written id key b s (pushed event s.now) h
handle-after id (set_status key status error) b s h keeps =
    written id key b s (with_status status error s.now) h
handle-after id (poll key from limit) b s h keeps = written id key b s (read_on from limit) h
handle-after id (cleanup key) b s h keeps = find_stream-remove_other id key s.streams keeps ∙ h

-- What a call delivers.
abbrev pub given : StreamId → Call → ActiveStreamBuffer → List ChatEvent
unfolding polled
given id (poll key from limit) b = if key == id then events_of (polled from limit b) else []
given id _ b = []

pub delivery-given :
    (id : StreamId) (c : Call) (b : ActiveStreamBuffer) (s : ClaudeCodeStorage)
    → find_stream id s.streams ≡ some b
    → delivery id c s ≡ given id c b
unfolding stream_poll find_stream polled
delivery-given id (poll key from limit) b s h = elim (Bool-cases (key == id)) [
  | inl same ↦
      let at : key ≡ id = (==_iff key id).0 same in
      simp (same) (
        ap (λ o. brought (with_stream key o (read_on from limit) s).0)
          (ap (λ k. find_stream k s.streams) at ∙ h))
  | inr other ↦ simp (other) refl
]
delivery-given id (create key session) b s h = refl
delivery-given id (set_user_position key p) b s h = refl
delivery-given id (push key event) b s h = refl
delivery-given id (set_status key status error) b s h = refl
delivery-given id (cleanup key) b s h = refl
