-- ===== src/ClaudeCode/Streams.antt =====
-- src/activations/claudecode/storage.rs: the buffers in memory of the chats that run.
use Prim.Native.Nat.{◌%◌}
use mneme_substrate.Base.{
  ℕ, zero, suc, Bool, true, false, Option, none, some, is_some, unwrap_or, List, [], ◌∷◌, ◌++◌,
  filter, map, take, if◌then◌else◌, ◌==◌, ◌+◌, Result, ok, err, String,
}
use mneme_substrate.Base.Exec.{Exec}
use mneme_substrate.ClaudeCode.Types.{
  ClaudeCodeId, StreamId, Position, ChatEvent, StreamStatus, StreamInfo, BufferedEvent,
  ActiveStreamBuffer, ClaudeCodeError, stream_not_found,
}

-- The entries of the map, and the reading of the clock.
pub record ClaudeCodeStorage : Type 0 where
  pub streams : List (StreamId × ActiveStreamBuffer)
  pub now : ℕ

abbrev pub Action : Type 0 → Type 0
Action A = Exec ClaudeCodeStorage ClaudeCodeError A

abbrev pub u64 : ℕ
u64 = 18446744073709551616

-- `streams.get(id)`
unfoldable pub find_stream :
    StreamId → List (StreamId × ActiveStreamBuffer) → Option ActiveStreamBuffer
find_stream id [] = none
find_stream id ((key, b) ∷ streams) = if key == id then some b else find_stream id streams

-- What is written through `streams.get_mut(id)`.
unfoldable pub set_stream :
    StreamId
    → ActiveStreamBuffer
    → List (StreamId × ActiveStreamBuffer)
    → List (StreamId × ActiveStreamBuffer)
set_stream id b [] = []
set_stream id b ((key, old) ∷ streams) =
    (key, (if key == id then b else old)) ∷ set_stream id b streams

-- `streams.remove(id)`
unfoldable pub remove_stream :
    StreamId → List (StreamId × ActiveStreamBuffer) → List (StreamId × ActiveStreamBuffer)
remove_stream id [] = []
remove_stream id ((key, b) ∷ streams) =
    let rest = remove_stream id streams in if key == id then rest else (key, b) ∷ rest

-- A method that looks a stream up, and writes it back.
abbrev pub with_stream :
    {A : Type 0}
    → StreamId
    → Option ActiveStreamBuffer
    → (ActiveStreamBuffer → A × ActiveStreamBuffer)
    → Action A
with_stream id none f s = (err (stream_not_found id), s)
with_stream id (some b) f s =
    let (a, b') = f b in (ok a, record s { streams = set_stream id b' s.streams })

abbrev pub new_buffer : StreamId → ClaudeCodeId → ℕ → ActiveStreamBuffer
new_buffer id session now = record {
  info = record {
    stream_id = id;
    session_id = session;
    status = StreamStatus.running;
    user_position = none;
    event_count = 0;
    read_position = 0;
    started_at = now;
    ended_at = none;
    error = none;
  };
  events = [];
}

-- `id` is a new UUID.
unfoldable pub stream_create : StreamId → ClaudeCodeId → Action StreamId
unfolding remove_stream
stream_create id session s =
    (ok id, record s { streams = (id, new_buffer id session s.now) ∷ remove_stream id s.streams })

abbrev pub at_position : Position → ActiveStreamBuffer → Unit {0} × ActiveStreamBuffer
at_position p b = (tt, record b { info = record b.info { user_position = some p } })

unfoldable pub stream_set_user_position : StreamId → Position → Action (Unit {0})
unfolding find_stream set_stream
stream_set_user_position id p s = with_stream id (find_stream id s.streams) (at_position p) s

-- The count is a u64.
abbrev pub pushed : ChatEvent → ℕ → ActiveStreamBuffer → ℕ × ActiveStreamBuffer
pushed event now b =
    let seq = b.info.event_count in
    (
      seq,
      record b {
        info = record b.info { event_count = (seq + 1) % u64 };
        events = b.events ++ record { seq = seq; event = event; timestamp = now } ∷ [];
      },
    )

unfoldable pub stream_push_event : StreamId → ChatEvent → Action ℕ
unfolding find_stream set_stream
stream_push_event id event s = with_stream id (find_stream id s.streams) (pushed event s.now) s

abbrev pub is_over : StreamStatus → Bool
is_over StreamStatus.complete = true
is_over StreamStatus.failed = true
is_over _ = false

abbrev pub new_error : Option String → Option String → Option String
new_error none old = old
new_error (some e) old = some e

abbrev pub with_status :
    StreamStatus → Option String → ℕ → ActiveStreamBuffer → Unit {0} × ActiveStreamBuffer
with_status status error now b = (
  tt,
  record b {
    info = record b.info {
      status = status;
      ended_at = if is_over status then some now else b.info.ended_at;
      error = new_error error b.info.error;
    };
  },
)

unfoldable pub stream_set_status : StreamId → StreamStatus → Option String → Action (Unit {0})
unfolding find_stream set_stream
stream_set_status id status error s =
    with_stream id (find_stream id s.streams) (with_status status error s.now) s

unfoldable pub stream_get_info : StreamId → ClaudeCodeStorage → Result ClaudeCodeError StreamInfo
unfolding find_stream
stream_get_info id s = elim (find_stream id s.streams) [
  | none ↦ err (stream_not_found id)
  | some b ↦ ok b.info
]

-- `iter().skip(n)`
unfoldable pub skip : ℕ → List BufferedEvent → List BufferedEvent
skip zero es = es
skip (suc n) [] = []
skip (suc n) (e ∷ es) = skip n es

-- One past the last event that is returned.
unfoldable pub next_position : ℕ → List BufferedEvent → ℕ
next_position position [] = position
next_position position (e ∷ []) = (e.seq + 1) % u64
next_position position (_ ∷ e ∷ es) = next_position position (e ∷ es)

-- The events to return: a hundred unless a limit is given.
unfoldable pub polled : Option ℕ → Option ℕ → ActiveStreamBuffer → List BufferedEvent
unfolding skip
polled from limit b =
    take (unwrap_or 100 limit) (skip (unwrap_or b.info.read_position from) b.events)

abbrev pub read_on :
    Option ℕ
    → Option ℕ
    → ActiveStreamBuffer
    → (StreamInfo × List BufferedEvent) × ActiveStreamBuffer
unfolding polled next_position
read_on from limit b =
    let events = polled from limit b in
    let info : StreamInfo = record b.info {
      read_position = next_position b.info.read_position events;
    } in
    ((info, events), record b { info = info })

unfoldable pub stream_poll :
    StreamId → Option ℕ → Option ℕ → Action (StreamInfo × List BufferedEvent)
unfolding find_stream set_stream polled next_position
stream_poll id from limit s = with_stream id (find_stream id s.streams) (read_on from limit) s

unfoldable pub stream_list : ClaudeCodeStorage → List StreamInfo
stream_list s = map (λ (e : StreamId × ActiveStreamBuffer). e.1.info) s.streams

unfoldable pub stream_list_for_session : ClaudeCodeId → ClaudeCodeStorage → List StreamInfo
stream_list_for_session session s =
    map (λ (e : StreamId × ActiveStreamBuffer). e.1.info)
      (filter (λ e. e.1.info.session_id == session) s.streams)

abbrev pub info_of : Option ActiveStreamBuffer → Option StreamInfo
info_of none = none
info_of (some b) = some b.info

unfoldable pub stream_cleanup : StreamId → ClaudeCodeStorage → Option StreamInfo × ClaudeCodeStorage
unfolding find_stream remove_stream
stream_cleanup id s =
    (info_of (find_stream id s.streams), record s { streams = remove_stream id s.streams })

unfoldable pub stream_exists : StreamId → ClaudeCodeStorage → Bool
unfolding find_stream
stream_exists id s = is_some (find_stream id s.streams)

pub data Call : Type 0 where
  create : StreamId → ClaudeCodeId → Call
  set_user_position : StreamId → Position → Call
  push : StreamId → ChatEvent → Call
  set_status : StreamId → StreamStatus → Option String → Call
  poll : StreamId → Option ℕ → Option ℕ → Call
  cleanup : StreamId → Call

unfoldable pub handle : Call → ClaudeCodeStorage → ClaudeCodeStorage
unfolding stream_create stream_set_user_position stream_push_event stream_set_status stream_poll
    stream_cleanup
handle (create id session) s = (stream_create id session s).1
handle (set_user_position id p) s = (stream_set_user_position id p s).1
handle (push id event) s = (stream_push_event id event s).1
handle (set_status id status error) s = (stream_set_status id status error s).1
handle (poll id from limit) s = (stream_poll id from limit s).1
handle (cleanup id) s = (stream_cleanup id s).1

-- The events that an answer brings.
abbrev pub brought : Result ClaudeCodeError (StreamInfo × List BufferedEvent) → List ChatEvent
brought (ok (info, events)) = map (λ (e : BufferedEvent). e.event) events
brought (err e) = []

abbrev pub delivery : StreamId → Call → ClaudeCodeStorage → List ChatEvent
unfolding stream_poll
delivery id (poll key from limit) s =
    let events = brought (stream_poll key from limit s).0 in if key == id then events else []
delivery id _ s = []

-- All that the polls of a stream return in the course of calls, each at its time.
unfoldable pub delivered : StreamId → List (ℕ × Call) → ClaudeCodeStorage → List ChatEvent
unfolding handle stream_poll
delivered id [] s = []
delivered id ((now, c) ∷ calls) s =
    let s' : ClaudeCodeStorage = record s { now = now } in
    delivery id c s' ++ delivered id calls (handle c s')
