-- ===== src/ClaudeCode/Delivered.antt =====
-- src/activations/claudecode/storage.rs: a reader who polls a stream gets each of its events once, in order.
use native.Mathlib.Nat.{suc-mul}
use mathlib.Core.Path.{ap₂}
use mathlib.Core.List.{append_assoc, append-nil}
use mneme_substrate.Base.{
  ℕ, zero, suc, Option, none, some, List, [], ◌∷◌, ◌++◌, length, ◌≡◌, inr, refl, sym, ap, ◌∙◌,
  subst, ◌+◌, ◌*◌, ◌≤◌, ◌<◌, arith, All, ==_refl, unwrap_or,
}
use mneme_substrate.ClaudeCode.Types.{StreamId, ClaudeCodeId, ActiveStreamBuffer, ChatEvent}
use mneme_substrate.ClaudeCode.Streams.{
  ClaudeCodeStorage, Call, poll, handle, read_on, polled, next_position, skip, delivered,
  find_stream, stream_create, new_buffer, u64,
}
use mneme_substrate.ClaudeCode.Numbered.{events_of, skip-all, taken-enough}
use mneme_substrate.ClaudeCode.Buffer.{
  KeepsPlace, push_of, IsReadable, unread, after, given, handle-after, delivery-given,
}
use mneme_substrate.ClaudeCode.Progress.{call-Reads, read_on-Reads, read_on-position, append-length}

-- All that calls push to a stream.
unfoldable pub pushes : StreamId → List (ℕ × Call) → List ChatEvent
pushes id [] = []
pushes id ((now, c) ∷ calls) = push_of id c ++ pushes id calls

-- Polls from where the reader is, at one time.
abbrev pub polls : ℕ → StreamId → Option ℕ → ℕ → List (ℕ × Call)
polls zero id limit now = []
polls (suc n) id limit now = (now, poll id none limit) ∷ polls n id limit now

enough_left :
    (n : ℕ) (limit : Option ℕ) (b : ActiveStreamBuffer)
    → IsReadable b
    → length b.events < u64
    → length b.events ≤ b.info.read_position + suc n * unwrap_or 100 limit
    → length b.events ≤ (read_on none limit b).1.info.read_position + n * unwrap_or 100 limit
unfolding polled next_position
enough_left n limit b h small enough =
    let l = unwrap_or 100 limit in
    subst (λ p. length b.events ≤ p + n * l) (sym (read_on-position limit b h small))
      (taken-enough b.info.read_position l (n * l) b.events (
        subst (λ m. length b.events ≤ b.info.read_position + m) (suc-mul n l ∙ omega arith) enough))

-- As many polls as it takes bring all that is left.
polls-delivered :
    (n : ℕ) (id : StreamId) (limit : Option ℕ) (now : ℕ) (b : ActiveStreamBuffer)
    (s : ClaudeCodeStorage)
    → find_stream id s.streams ≡ some b
    → IsReadable b
    → length b.events < u64
    → length b.events ≤ b.info.read_position + n * unwrap_or 100 limit
    → delivered id (polls n id limit now) s ≡ unread b
unfolding delivered
polls-delivered zero id limit now b s found h small enough =
    ap events_of (sym (skip-all b.info.read_position b.events (omega (arith, enough))))
polls-delivered (suc n) id limit now b s found h small enough =
    let c = poll id none limit in
    let s' : ClaudeCodeStorage = record s { now = now } in
    let b' = (read_on none limit b).1 in
    let here : after id c now b ≡ b' = simp (==_refl id) refl in
    let reads = read_on-Reads limit b h small in
    let rest =
      polls-delivered n id limit now b' (handle c s')
        (handle-after id c b s' found (inr refl) ∙ ap some here) reads.0 small
        (enough_left n limit b h small enough) in
    ap₂ (λ xs ys. xs ++ ys) (delivery-given id c b s' found ∙ simp (==_refl id) refl) rest
    ∙ reads.1
    ∙ append-nil (unread b)

delivered-unread :
    (calls : List (ℕ × Call)) (n : ℕ) (id : StreamId) (limit : Option ℕ) (now : ℕ)
    (b : ActiveStreamBuffer) (s : ClaudeCodeStorage)
    → find_stream id s.streams ≡ some b
    → IsReadable b
    → All (λ (c : ℕ × Call). KeepsPlace id c.1) calls
    → length b.events + length (pushes id calls) < u64
    → length b.events + length (pushes id calls) ≤ n * unwrap_or 100 limit
    → delivered id (calls ++ polls n id limit now) s ≡ unread b ++ pushes id calls
unfolding delivered pushes
delivered-unread [] n id limit now b s found h keeps small enough =
    polls-delivered n id limit now b s found h (omega (arith, small)) (omega (arith, enough))
    ∙ sym (append-nil (unread b))
delivered-unread ((t, c) ∷ calls) n id limit now b s found h (here, keeps) small enough =
    let s' : ClaudeCodeStorage = record s { now = t } in
    let split = append-length (push_of id c) (pushes id calls) in
    let reads = call-Reads id c t b h here (omega (arith, small, split)) in
    let rest =
      delivered-unread calls n id limit now (after id c t b) (handle c s')
        (handle-after id c b s' found here) reads.0 keeps (omega (arith, small, split, reads.2))
        (omega (arith, enough, split, reads.2)) in
    ap₂ (λ xs ys. xs ++ ys) (delivery-given id c b s' found) rest
    ∙ sym (append_assoc (given id c b) (unread (after id c t b)) (pushes id calls))
    ∙ ap (λ xs. xs ++ pushes id calls) reads.1
    ∙ append_assoc (unread b) (push_of id c) (pushes id calls)

-- A stream is made, calls follow, each at its time and to any streams, of which none makes the
-- stream again or removes it and no poll of it names a position, and then its reader polls n more
-- times. Where fewer than 2 ^ 64 events are pushed to it, and no more than n polls with their limit
-- can bring, the polls have together returned each event that was pushed to it once, in order.
pub delivered-pushes :
    (calls : List (ℕ × Call)) (n : ℕ) (id : StreamId) (session : ClaudeCodeId) (limit : Option ℕ)
    (now : ℕ) (s : ClaudeCodeStorage)
    → All (λ (c : ℕ × Call). KeepsPlace id c.1) calls
    → length (pushes id calls) < u64
    → length (pushes id calls) ≤ n * unwrap_or 100 limit
    → delivered id (calls ++ polls n id limit now) (stream_create id session s).1 ≡ pushes id calls
unfolding stream_create find_stream skip
delivered-pushes calls n id session limit now s keeps small enough =
    delivered-unread calls n id limit now (new_buffer id session s.now)
      (stream_create id session s).1 (simp (==_refl id) refl) (tt, refl, omega arith) keeps
      (omega (arith, small)) (omega (arith, enough))
