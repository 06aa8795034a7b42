-- ===== src/ClaudeCode/Progress.antt =====
-- src/activations/claudecode/storage.rs: what a call makes unread, and what it reads.
use mathlib.Core.List.{append-nil}
use mneme_substrate.Base.{
  ℕ, Bool, true, false, Option, none, List, [], ◌∷◌, ◌++◌, length, if◌then◌else◌, ◌==◌, ◌≡◌, inl,
  inr, refl, sym, ap, ◌∙◌, subst, ◌+◌, ◌≤◌, ◌<◌, arith, unwrap_or, take,
}
use mneme_substrate.ClaudeCode.Types.{StreamId, ActiveStreamBuffer, BufferedEvent, ChatEvent}
use mneme_substrate.ClaudeCode.Streams.{
  Call, create, set_user_position, push, set_status, poll, cleanup, pushed, read_on, polled,
  next_position, skip, u64,
}
use mneme_substrate.ClaudeCode.Numbered.{
  IsNumbered, events_of, append-IsNumbered, skip-IsNumbered, take-IsNumbered, next_position-length,
  skip-taken, take-skip, skip-append, taken-length,
}
use mneme_substrate.ClaudeCode.Buffer.{KeepsPlace, push_of, IsReadable, unread, after, given}

abbrev pub Reads :
    List ChatEvent → List ChatEvent → ActiveStreamBuffer → ActiveStreamBuffer → Type 0
Reads read pushes b b' =
    IsReadable b'
    × (read ++ unread b' ≡ unread b ++ pushes)
    × (length b'.events ≡ length b.events + length pushes)

idle-Reads : (b : ActiveStreamBuffer) → IsReadable b → Reads [] [] b b
idle-Reads b h = (h, sym (append-nil (unread b)), omega arith)

either-Reads :
    (same : Bool) (b b' : ActiveStreamBuffer)
    → IsReadable b
    → Reads [] [] b b'
    → Reads [] [] b (if same then b' else b)
either-Reads true b b' h reads = reads
either-Reads false b b' h reads = idle-Reads b h

pub append-length {ℓ} : {A : Type ℓ} (xs ys : List A) → length (xs ++ ys) ≡ length xs + length ys
append-length [] ys = omega arith
append-length (x ∷ xs) ys = ground (arith, append-length xs ys)

append-events :
    (es : List BufferedEvent) (e : BufferedEvent)
    → events_of (es ++ e ∷ []) ≡ events_of es ++ e.event ∷ []
append-events [] e = refl
append-events (x ∷ es) e = ap (λ rest. x.event ∷ rest) (append-events es e)

pushed-Reads :
    (event : ChatEvent) (now : ℕ) (b : ActiveStreamBuffer)
    → IsReadable b
    → length b.events + 1 < u64
    → Reads [] (event ∷ []) b (pushed event now b).1
pushed-Reads event now b (numbered, counted, behind) small =
    let e : BufferedEvent = record { seq = b.info.event_count; event = event; timestamp = now } in
    let longer : length (b.events ++ e ∷ []) ≡ length b.events + 1 =
      append-length b.events (e ∷ []) in
    (
      (
        append-IsNumbered 0 b.events e numbered (counted ∙ omega arith),
        omega (arith, counted, small, longer),
        omega (arith, behind, longer),
      ),
      ap events_of (skip-append b.info.read_position b.events e behind)
          ∙ append-events (skip b.info.read_position b.events) e,
      longer,
    )

pub read_on-position :
    (limit : Option ℕ) (b : ActiveStreamBuffer)
    → IsReadable b
    → length b.events < u64
    → (read_on none limit b).1.info.read_position
      ≡ b.info.read_position + length (polled none limit b)
unfolding polled next_position
read_on-position limit b (numbered, counted, behind) small =
    let position = b.info.read_position in
    let k = unwrap_or 100 limit in
    next_position-length position (take k (skip position b.events))
      (take-IsNumbered k position (skip position b.events) (
        subst (λ n. IsNumbered n (skip position b.events)) (omega arith)
          (skip-IsNumbered position 0 b.events numbered)))
      (omega (arith, taken-length position k b.events behind, small))

pub read_on-Reads :
    (limit : Option ℕ) (b : ActiveStreamBuffer)
    → IsReadable b
    → length b.events < u64
    → Reads (events_of (polled none limit b)) [] b (read_on none limit b).1
unfolding polled next_position
read_on-Reads limit b h small =
    let position = b.info.read_position in
    let k = unwrap_or 100 limit in
    let moved = read_on-position limit b h small in
    (
      (
        h.0,
        h.1,
        subst (λ n. n ≤ length b.events) (sym moved) (taken-length position k b.events h.2),
      ),
      ap (λ n. events_of (polled none limit b) ++ events_of (skip n b.events)) moved
          ∙ ap (λ es. events_of (polled none limit b) ++ events_of es)
              (skip-taken position k b.events)
          ∙ take-skip k (skip position b.events)
          ∙ sym (append-nil (unread b)),
      omega arith,
    )

pub call-Reads :
    (id : StreamId) (c : Call) (now : ℕ) (b : ActiveStreamBuffer)
    → IsReadable b
    → KeepsPlace id c
    → length b.events + length (push_of id c) < u64
    → Reads (given id c b) (push_of id c) b (after id c now b)
unfolding polled next_position
call-Reads id (create key session) now b h keeps small = idle-Reads b h
call-Reads id (cleanup key) now b h keeps small = idle-Reads b h
call-Reads id (set_user_position key p) now b h keeps small =
    either-Reads (key == id) b _ h (idle-Reads b h)
call-Reads id (set_status key status error) now b h keeps small =
    either-Reads (key == id) b _ h (idle-Reads b h)
call-Reads id (push key event) now b h keeps small = go (key == id) small
  where
    go :
        (same : Bool)
        → length b.events + length (if◌then◌else◌ {A = List ChatEvent} same (event ∷ []) []) < u64
        → Reads [] (if same then event ∷ [] else []) b (if same then (pushed event now b).1 else b)
    go true small = pushed-Reads event now b h small
    go false small = idle-Reads b h
call-Reads id (poll key from limit) now b h (inl apart) small =
    let other : (key == id) ≡ false = ground (arith, apart) in simp (other) (idle-Reads b h)
call-Reads id (poll key from limit) now b h (inr on) small =
    subst
      (λ from. Reads (given id (poll key from limit) b) [] b (after id (poll key from limit) now b))
      (sym on) (go (key == id))
  where
    go :
        (same : Bool)
        → Reads
            (if same then events_of (polled none limit b) else [])
            []
            b
            (if same then (read_on none limit b).1 else b)
    go true = read_on-Reads limit b h (omega (arith, small))
    go false = idle-Reads b h
