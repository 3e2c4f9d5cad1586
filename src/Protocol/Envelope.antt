-- ===== src/Protocol/Envelope.antt =====
-- `Envelope`, `to_dict`, `to_json` and the message types of src/build_engine/agent/protocol.py.
use build_engine.Prelude.{
  ℕ, String, Option, none, some, List, [], ◌∷◌, ◌++◌, ltb, len, if◌then◌else◌,
}
use build_engine.Result.{Result, ok, err}
use build_engine.Json.{Json, Fields, end, field, int, str, obj}
use build_engine.Protocol.Codec.{Codec}

pub data ProtocolError : Type 0 where
  frame_too_large not_utf8 not_json not_an_object unknown_fields missing_fields : ProtocolError
  unsupported_version type_not_text unknown_type ts_not_text ts_not_iso ts_naive : ProtocolError
  clock_skew payload_not_object bad_seq seq_without_attempt log_too_large : ProtocolError
  not_uuid missing_text not_text : String → ProtocolError
  missing_attempt bad_cursors bad_cursor bad_ack bad_action : ProtocolError
  wrong_engine not_welcome misplaced_welcome wrong_version unhandled_type : ProtocolError

abbrev pub protocol_version : ℕ
protocol_version = 2

abbrev pub max_frame_bytes : ℕ
max_frame_bytes = 1_048_576

abbrev pub max_log_data_bytes : ℕ
max_log_data_bytes = 65_536

-- Five minutes, in microseconds.
abbrev pub max_timestamp_skew : ℕ
max_timestamp_skew = 300_000_000

abbrev pub zero_engine_id : String
zero_engine_id = "00000000-0000-0000-0000-000000000000"

abbrev pub inbound_message_types : List String
inbound_message_types =
    "welcome" ∷ "job.assign" ∷ "job.cancel" ∷ "cache.reset" ∷ "drain" ∷ "ping" ∷ "event.ack" ∷ []

abbrev pub outbound_message_types : List String
outbound_message_types =
    "hello" ∷ "attempt.status" ∷ "attempt.log" ∷ "artifact.ready" ∷ "error" ∷ "heartbeat" ∷ "pong"
    ∷ []

abbrev pub all_message_types : List String
all_message_types = inbound_message_types ++ outbound_message_types

-- `v` is kept as it was decoded: Python takes the float 2.0 for the version 2 as well.
pub record Envelope : Type 0 where
  pub v : Json
  pub id : String
  pub type : String
  pub ts : String
  pub payload : Fields
  pub engine_id : String
  pub build_job_id : Option String
  pub attempt_id : Option String
  pub seq : Option ℕ

abbrev add_seq : Option ℕ → Fields
add_seq none = end
add_seq (some n) = field "seq" (int n) end

abbrev add_text : String → Option String → Fields → Fields
add_text k none rest = rest
add_text k (some v) rest = field k (str v) rest

unfoldable pub to_dict : Envelope → Fields
to_dict e = field "v" e.v (
    field "id" (str e.id) (
      field "type" (str e.type) (
        field "ts" (str e.ts) (
          field "engine_id" (str e.engine_id) (
            field "payload" (obj e.payload) (
              add_text "build_job_id" e.build_job_id
                (add_text "attempt_id" e.attempt_id (add_seq e.seq))))))))

unfoldable pub to_json : Codec → Envelope → Result ProtocolError String
to_json codec e =
    let encoded = codec.dumps (to_dict e) in
    if ltb max_frame_bytes (len encoded) then err frame_too_large else ok encoded
