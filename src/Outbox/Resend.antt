-- ===== src/Outbox/Resend.antt =====
-- `replay_after` of `SQLiteEventOutbox` in src/build_engine/queue/store.py. `clock` is the value of
-- `datetime.now(UTC)` in microseconds.
use build_engine.Prelude.{
  ℕ, String, Option, none, some, List, [], ◌∷◌, ltb, str_eq, is_some, if◌then◌else◌,
}
use build_engine.Result.{Result, ok, err, ◌>>=◌}
use build_engine.Errors.{AgentError, protocol}
use build_engine.Json.{Fields, int, str, obj, get, put}
use build_engine.Table.{order_by}
use build_engine.Protocol.Codec.{Codec}
use build_engine.Protocol.Envelope.{Envelope, not_json, outbound_message_types, zero_engine_id}
use build_engine.Protocol.Frames.{text, decode_frame}
use build_engine.Queue.Rows.{EventRow, Store}
use build_engine.Outbox.{event_before}

-- `cursors.get(attempt_id, 0)`
unfoldable pub cursor_of : String → List (String × ℕ) → ℕ
cursor_of a [] = 0
cursor_of a ((b, n) ∷ cs) = if str_eq b a then n else cursor_of a cs

-- The two values that `_replay_rows_sync` reads from a stored envelope.
abbrev pub stored_seq : Fields → Result AgentError ℕ
stored_seq fs = elim (get "seq" fs) [
  | none ↦ ok 0
  | some (int n) ↦ ok n
  | some _ ↦ err (protocol not_json)
]

abbrev pub stored_attempt : Fields → String
stored_attempt fs = elim (get "attempt_id" fs) [ some (str a) ↦ a | _ ↦ "" ]

unfoldable pub stored_object : Codec → String → Result AgentError Fields
stored_object codec json = elim (codec.loads json) [
  | some (obj fs) ↦ ok fs
  | _ ↦ err (protocol not_json)
]

-- `raw.setdefault("engine_id", ZERO_ENGINE_ID)`
abbrev pub with_engine : Fields → Fields
with_engine fs =
    if is_some (get "engine_id" fs) then fs else put "engine_id" (str zero_engine_id) fs

-- Rows that do not decode are passed over, and so are those without keys or not above the cursor.
unfoldable pub newer_event :
    List (String × ℕ) → Envelope → Option String → Option ℕ → Option Envelope
newer_event cursors e (some a) (some n) = if ltb (cursor_of a cursors) n then some e else none
newer_event cursors e _ _ = none

unfoldable pub decode_stored : Codec → ℕ → List (String × ℕ) → Fields → Option Envelope
unfolding newer_event
decode_stored codec clock cursors fs =
    elim (decode_frame codec clock outbound_message_types (text (codec.dumps (with_engine fs)))) [
      | err _ ↦ none
      | ok e ↦ newer_event cursors e e.attempt_id e.seq
    ]

-- One row of the replay: the event to send, or none.
unfoldable pub replay_row :
    Codec → ℕ → List (String × ℕ) → EventRow → Result AgentError (Option Envelope)
replay_row codec clock cursors row = do
  fs ← stored_object codec row.envelope_json
  seq ← stored_seq fs
  if ltb (cursor_of (stored_attempt fs) cursors) seq
      then ok (decode_stored codec clock cursors fs)
      else ok none

abbrev pub keep_some {ℓ} : {A : Type ℓ} → Option A → List A → List A
keep_some none xs = xs
keep_some (some x) xs = x ∷ xs

unfoldable pub replay_rows :
    Codec → ℕ → List (String × ℕ) → List EventRow → Result AgentError (List Envelope)
replay_rows codec clock cursors [] = ok []
replay_rows codec clock cursors (row ∷ rows) = do
  e ← replay_row codec clock cursors row
  rest ← replay_rows codec clock cursors rows
  ok (keep_some e rest)

-- `replay_after`
unfoldable pub replay_after :
    Codec → ℕ → List (String × ℕ) → Store → Result AgentError (List Envelope)
replay_after codec clock cursors s =
    replay_rows codec clock cursors (order_by event_before s.events)
