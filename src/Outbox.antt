-- ===== src/Outbox.antt =====
-- The outbound event spool: `SQLiteEventOutbox` in src/build_engine/queue/store.py. `now` is the
-- value of `_utcnow()` in milliseconds.
pub mod Limits
pub mod Sequence
pub mod Append
pub mod Numbers
pub mod Resend
pub mod Replay
pub mod Retention
use build_engine.Prelude.{
  ℕ, zero, suc, ◌+◌, ◌*◌, String, Bool, true, false, not, ◌&&◌, ◌||◌, Option, none, some, List, [],
  ◌∷◌, ◌++◌, any, ltb, leb, ◌==◌, len, length, str_eq, str_le, is_some, if◌then◌else◌,
}
use build_engine.Result.{Result, ok, err, ◌>>=◌}
use build_engine.Errors.{AgentError, protocol, queue, integrity, lift_protocol}
use build_engine.Json.{Json, Fields, null, int, str, obj, get, put}
use build_engine.Table.{find, update, delete, count, select, first_by, order_by}
use build_engine.Protocol.Codec.{Codec}
use build_engine.Protocol.Envelope.{
  Envelope, to_json, not_json, outbound_message_types, zero_engine_id, seq_without_attempt,
}
use build_engine.Protocol.Frames.{text, decode_frame}
use build_engine.Queue.Rows.{
  JobRow, EventRow, Store, conflicting_event, unknown_attempt, has_id, is_terminal,
}
use build_engine.Queue.Store.{day_ms}
use build_engine.Queue.Life.{bump_row}

pub record SpoolLimits : Type 0 where
  pub max_bytes : ℕ
  pub retention_days : ℕ

abbrev pub is_event : String → ℕ → EventRow → Bool
is_event attempt_id seq e = str_eq e.attempt_id attempt_id && e.seq == seq

-- ORDER BY created_at, attempt_id, seq
unfoldable pub event_before : EventRow → EventRow → Bool
event_before a b =
    ltb a.created_at b.created_at
    || (a.created_at == b.created_at
        && (if str_eq a.attempt_id b.attempt_id
            then leb a.seq b.seq
            else str_le a.attempt_id b.attempt_id))

-- The age limit, for the events of finished attempts.
abbrev pub is_aged : SpoolLimits → ℕ → List JobRow → EventRow → Bool
is_aged limits now jobs e =
    ltb (e.created_at + limits.retention_days * day_ms) now
    && any (λ r. has_id e.attempt_id r && is_terminal r.state) jobs

-- `_event_bytes`
unfoldable pub event_bytes : List EventRow → ℕ
event_bytes [] = 0
event_bytes (e ∷ es) = len e.envelope_json + event_bytes es

abbrev pub is_log : EventRow → Bool
is_log e = str_eq e.type "attempt.log"

abbrev or_else : Option EventRow → Option EventRow → Option EventRow
or_else (some e) other = some e
or_else none other = other

-- The event that goes first when the spool is too large: the oldest log, else the oldest event.
unfoldable pub victim : List EventRow → Option EventRow
victim events =
    or_else (first_by event_before (select is_log events)) (first_by event_before events)

abbrev pub event_has_id : String → EventRow → Bool
event_has_id id e = str_eq e.id id

-- The size limit: the number of deleted events, and what is left.
unfoldable pub prune_loop : ℕ → ℕ → List EventRow → ℕ × List EventRow
prune_loop zero max_bytes events = (0, events)
prune_loop (suc fuel) max_bytes events = elim (ltb max_bytes (event_bytes events)) [
  | false ↦ (0, events)
  | true ↦ elim (victim events) [
    | none ↦ (0, events)
    | some oldest ↦
        let (removed, rest) = prune_loop fuel max_bytes (delete (event_has_id oldest.id) events) in
        (removed + 1, rest)
  ]
]

-- `_prune_sync`: the number of deleted events, and the store.
unfoldable pub prune : SpoolLimits → ℕ → Store → ℕ × Store
prune limits now s =
    let young = delete (is_aged limits now s.jobs) s.events in
    let (removed, events) = prune_loop (suc (length young)) limits.max_bytes young in
    (count (is_aged limits now s.jobs) s.events + removed, record s { events = events })

abbrev pub event_row : ℕ → Envelope → String → ℕ → String → EventRow
event_row now e attempt_id seq json = record {
  id = e.id;
  attempt_id = attempt_id;
  seq = seq;
  type = e.type;
  envelope_json = json;
  created_at = now;
}

-- INSERT INTO events, with its constraints: the event's id is new and its attempt is known.
unfoldable pub insert_event : EventRow → Store → Result AgentError (Unit {0}) × Store
insert_event row s =
    if any (has_id row.attempt_id) s.jobs && not (any (event_has_id row.id) s.events)
    then (ok tt, record s { events = s.events ++ row ∷ [] })
    else (err integrity, s)

-- UPDATE jobs, for the cursor.
unfoldable pub move_cursor : ℕ → String → ℕ → Store → Store
move_cursor now attempt_id seq s = record s {
  jobs = update (has_id attempt_id) (bump_row now seq) s.jobs;
}

-- The statements after the INSERT.
finish_append :
    SpoolLimits
    → ℕ
    → EventRow
    → Result AgentError (Unit {0}) × Store
    → Result AgentError (Unit {0}) × Store
finish_append limits now row (err x, s) = (err x, s)
finish_append limits now row (ok _, s) =
    (ok tt, (prune limits now (move_cursor now row.attempt_id row.seq s)).1)

-- An event of that sequence is there already: the same one is taken for delivered.
repeat_event : EventRow → String → Store → Result AgentError (Unit {0}) × Store
repeat_event existing json s =
    if str_eq existing.envelope_json json then (ok tt, s) else (err (queue conflicting_event), s)

-- `_append_sync`, where every statement is carried out.
unfoldable pub append_event :
    SpoolLimits → ℕ → Envelope → String → ℕ → String → Store → Result AgentError (Unit {0}) × Store
unfolding repeat_event insert_event move_cursor finish_append
append_event limits now e attempt_id seq json s = elim (find (is_event attempt_id seq) s.events) [
  | some existing ↦ repeat_event existing json s
  | none ↦
      finish_append limits now (event_row now e attempt_id seq json)
        (insert_event (event_row now e attempt_id seq json) s)
]

pub append_encoded :
    SpoolLimits
    → ℕ
    → Envelope
    → String
    → ℕ
    → Result AgentError String
    → Store
    → Result AgentError (Unit {0}) × Store
append_encoded limits now e attempt_id seq (err x) s = (err x, s)
append_encoded limits now e attempt_id seq (ok json) s =
    append_event limits now e attempt_id seq json s

pub append_keyed :
    Codec
    → SpoolLimits
    → ℕ
    → Envelope
    → Option String
    → Option ℕ
    → Store
    → Result AgentError (Unit {0}) × Store
append_keyed codec limits now e (some attempt_id) (some seq) s =
    append_encoded limits now e attempt_id seq (lift_protocol (to_json codec e)) s
append_keyed codec limits now e _ _ s = (err (protocol seq_without_attempt), s)

-- `append`
unfoldable pub append :
    Codec → SpoolLimits → ℕ → Envelope → Store → Result AgentError (Unit {0}) × Store
unfolding append_encoded append_keyed
append codec limits now e s = append_keyed codec limits now e e.attempt_id e.seq s

-- `_append_sync` commits each statement by itself: a call that is interrupted after its INSERT, by an
-- error of SQLite or by the end of the process.
stop_event : ℕ → Envelope → String → ℕ → String → Store → Store
stop_event now e attempt_id seq json s = elim (find (is_event attempt_id seq) s.events) [
  | some existing ↦ s
  | none ↦ (insert_event (event_row now e attempt_id seq json) s).1
]

stop_encoded : ℕ → Envelope → String → ℕ → Result AgentError String → Store → Store
stop_encoded now e attempt_id seq (err x) s = s
stop_encoded now e attempt_id seq (ok json) s = stop_event now e attempt_id seq json s

stop_keyed : Codec → ℕ → Envelope → Option String → Option ℕ → Store → Store
stop_keyed codec now e (some attempt_id) (some seq) s =
    stop_encoded now e attempt_id seq (lift_protocol (to_json codec e)) s
stop_keyed codec now e _ _ s = s

unfoldable pub append_interrupted : Codec → ℕ → Envelope → Store → Store
unfolding stop_event stop_encoded stop_keyed insert_event
append_interrupted codec now e s = stop_keyed codec now e e.attempt_id e.seq s

-- `ack_through`
unfoldable pub ack_through : String → ℕ → Store → Store
ack_through attempt_id last_seq s = record s {
  events = delete (λ e. str_eq e.attempt_id attempt_id && leb e.seq last_seq) s.events;
}

-- `next_seq`
unfoldable pub next_seq : String → Store → Result AgentError ℕ
next_seq attempt_id s = elim (find (has_id attempt_id) s.jobs) [
  | none ↦ err (queue unknown_attempt)
  | some r ↦ ok (r.sequence_cursor + 1)
]
