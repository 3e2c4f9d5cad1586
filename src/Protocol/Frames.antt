-- ===== src/Protocol/Frames.antt =====
-- `new_envelope`, `decode_frame`, `envelope_from_mapping`, `attempt_fields` and `last_sequences` of
-- src/build_engine/agent/protocol.py.
pub mod Sound
pub mod RoundTrip
pub mod Clock
use build_engine.Prelude.{
  ℕ, String, Option, none, some, List, [], ◌∷◌, ltb, len, length, if◌then◌else◌,
}
use build_engine.Result.{Result, ok, err, ◌>>=◌}
use build_engine.Json.{Json, Fields, end, field, null, int, str, obj, get}
use build_engine.Ident.{is_uuid}
use build_engine.Protocol.Codec.{Codec}
use build_engine.Protocol.Envelope.{
  ProtocolError, frame_too_large, not_utf8, not_json, missing_attempt, bad_cursors, bad_cursor,
  not_uuid, protocol_version, max_frame_bytes, Envelope, to_dict,
}
use build_engine.Protocol.Validate.{Checked, validate_envelope}

abbrev pub envelope_of : Checked → Envelope
envelope_of c = record {
  v = c.v;
  id = c.header.id;
  type = c.header.type;
  ts = c.header.ts;
  payload = c.scope.payload;
  engine_id = c.scope.engine_id;
  build_job_id = c.scope.build_job_id;
  attempt_id = c.scope.attempt_id;
  seq = c.scope.seq;
}

unfoldable pub envelope_from_mapping :
    Codec → ℕ → List String → Json → Result ProtocolError Envelope
envelope_from_mapping codec now allowed raw = do
  checked ← validate_envelope codec now allowed raw
  ok (envelope_of checked)

-- The keyword arguments of `new_envelope`; `message_id` stands for `message_id or str(uuid4())`,
-- and the timestamp is the present time.
pub record Draft : Type 0 where
  pub message_id : String
  pub message_type : String
  pub payload : Fields
  pub engine_id : String
  pub build_job_id : Option String
  pub attempt_id : Option String
  pub seq : Option ℕ

abbrev pub drafted : Codec → ℕ → Draft → Envelope
drafted codec now d = record {
  v = int protocol_version;
  id = d.message_id;
  type = d.message_type;
  ts = codec.format_iso now;
  payload = d.payload;
  engine_id = d.engine_id;
  build_job_id = d.build_job_id;
  attempt_id = d.attempt_id;
  seq = d.seq;
}

unfoldable pub new_envelope : Codec → ℕ → Draft → Result ProtocolError Envelope
new_envelope codec now d = do
  checked ← validate_envelope codec now [] (obj (to_dict (drafted codec now d)))
  ok (drafted codec now d)

pub data Frame : Type 0 where
  text : String → Frame
  bytes : List ℕ → Frame

unfoldable pub frame_text : Codec → Frame → Result ProtocolError String
frame_text codec (text s) = if ltb max_frame_bytes (len s) then err frame_too_large else ok s
frame_text codec (bytes b) =
    if ltb max_frame_bytes (length b)
    then err frame_too_large
    else elim (codec.utf8 b) [ none ↦ err not_utf8 | some s ↦ ok s ]

unfoldable pub parse_json : Codec → String → Result ProtocolError Json
parse_json codec s = elim (codec.loads s) [ none ↦ err not_json | some j ↦ ok j ]

unfoldable pub decode_frame : Codec → ℕ → List String → Frame → Result ProtocolError Envelope
decode_frame codec now allowed frame = do
  s ← frame_text codec frame
  raw ← parse_json codec s
  envelope_from_mapping codec now allowed raw

-- `_string_payload`
unfoldable pub string_payload : Fields → String → Result ProtocolError (Option String)
string_payload payload key = elim (get key payload) [
  | none ↦ ok none
  | some null ↦ ok none
  | some (str s) ↦ if is_uuid s then ok (some s) else err (not_uuid key)
  | some _ ↦ err (not_uuid key)
]

-- `envelope.x or _string_payload(envelope.payload, "x")`
unfoldable pub field_or_payload :
    Option String → Fields → String → Result ProtocolError (Option String)
field_or_payload (some v) payload key = ok (some v)
field_or_payload none payload key = string_payload payload key

unfoldable pub both_ids : Option String → Option String → Result ProtocolError (String × String)
both_ids (some b) (some a) = ok (b, a)
both_ids _ _ = err missing_attempt

unfoldable pub attempt_fields : Envelope → Result ProtocolError (String × String)
attempt_fields e = do
  build_job_id ← field_or_payload e.build_job_id e.payload "build_job_id"
  attempt_id ← field_or_payload e.attempt_id e.payload "attempt_id"
  both_ids build_job_id attempt_id

-- The cursors of a welcome, by attempt.
unfoldable pub cursors_of : Fields → Result ProtocolError (List (String × ℕ))
cursors_of end = ok []
cursors_of (field k (int n) fs) =
    if is_uuid k then (do rest ← cursors_of fs; ok ((k, n) ∷ rest)) else err bad_cursor
cursors_of (field k _ fs) = err bad_cursor

unfoldable pub sequences_of : Json → Result ProtocolError (List (String × ℕ))
sequences_of null = ok []
sequences_of (obj fs) = cursors_of fs
sequences_of _ = err bad_cursors

-- `payload.get("last_seq", payload.get("last_sequences", {}))`
unfoldable pub last_sequences : Fields → Result ProtocolError (List (String × ℕ))
last_sequences payload = elim (get "last_seq" payload) [
  | some raw ↦ sequences_of raw
  | none ↦ elim (get "last_sequences" payload) [ some raw ↦ sequences_of raw | none ↦ ok [] ]
]
