-- ===== src/Protocol/Frames/RoundTrip.antt =====
-- Envelopes that `to_json` writes and `decode_frame` reads, in src/build_engine/agent/protocol.py.
use build_engine.Prelude.{ℕ, String, ◌≡◌, refl, some, List, arith, eq_iff, Option-cases, inl, inr}
use build_engine.Result.{ok}
use build_engine.Json.{obj, get, keys}
use build_engine.Protocol.Codec.{Codec}
use build_engine.Protocol.Envelope.{Envelope, to_dict, to_json}
use build_engine.Protocol.Validate.{
  Header, Scope, check_keys, check_time, check_header, check_scope, as_text, require_uuid,
  optional_uuid, parse_timestamp, payload_of, seq_of, all_known, none_missing, validate_fields,
  validate_envelope, as_object, version_of,
}
use build_engine.Protocol.Frames.{text, frame_text, parse_json, envelope_from_mapping, decode_frame}
use build_engine.Protocol.Frames.Sound.{IsWellFormed}

abbrev header_of : Envelope → Header
header_of e = record { id = e.id; type = e.type; ts = e.ts }

abbrev scope_of : Envelope → Scope
scope_of e = record {
  engine_id = e.engine_id;
  payload = e.payload;
  build_job_id = e.build_job_id;
  attempt_id = e.attempt_id;
  seq = e.seq;
}

module _ (codec : Codec) (now : ℕ) (allowed : List String) (e : Envelope)
    (w : IsWellFormed codec now allowed e) where
  check_keys-to_dict : check_keys (to_dict e) ≡ ok tt
  unfolding check_keys to_dict all_known none_missing get keys
  check_keys-to_dict = ground (arith, w.version)

  check_time-to_dict : check_time codec now e.ts ≡ ok tt
  unfolding check_time parse_timestamp
  check_time-to_dict = ground (arith, w.time_of, w.not_old, w.not_early)

  check_header-to_dict : check_header codec now allowed (to_dict e) ≡ ok (header_of e)
  unfolding check_header to_dict get require_uuid as_text
  check_header-to_dict = ground (arith, check_time-to_dict, w.id, w.type_allowed)

  engine-to_dict : require_uuid "engine_id" (get "engine_id" (to_dict e)) ≡ ok e.engine_id
  unfolding to_dict get require_uuid as_text
  engine-to_dict = ground (arith, w.engine)

  payload-to_dict : payload_of (get "payload" (to_dict e)) ≡ ok e.payload
  unfolding to_dict get payload_of
  payload-to_dict = refl

  build-to_dict : optional_uuid "build_job_id" (to_dict e) ≡ ok e.build_job_id
  unfolding to_dict get optional_uuid require_uuid as_text
  build-to_dict = elim (Option-cases e.build_job_id) [
    | inl eq ↦ ground (arith, eq)
    | inr (b, eq) ↦ ground (arith, eq, w.build b eq)
  ]

  attempt-to_dict : optional_uuid "attempt_id" (to_dict e) ≡ ok e.attempt_id
  unfolding to_dict get optional_uuid require_uuid as_text
  attempt-to_dict = elim (Option-cases e.attempt_id) [
    | inl eq ↦ ground (arith, eq)
    | inr (b, eq) ↦ ground (arith, eq, w.attempt b eq)
  ]

  seq-to_dict : seq_of (get "seq" (to_dict e)) ≡ ok e.seq
  unfolding to_dict get seq_of
  seq-to_dict = ground arith

  check_scope-to_dict : check_scope (to_dict e) ≡ ok (scope_of e)
  unfolding check_scope
  check_scope-to_dict = ground (
    arith, engine-to_dict, payload-to_dict, build-to_dict, attempt-to_dict, seq-to_dict,
    w.attempt_of_seq,
  )

  version-to_dict : version_of (to_dict e) ≡ e.v
  unfolding to_dict get
  version-to_dict = refl

  -- A well-formed envelope passes the validation of its own dictionary, unchanged.
  pub mapping-to_dict : envelope_from_mapping codec now allowed (obj (to_dict e)) ≡ ok e
  unfolding envelope_from_mapping validate_envelope as_object validate_fields
  mapping-to_dict = ground (
    arith,
    check_keys-to_dict,
    check_header-to_dict,
    check_scope-to_dict,
    version-to_dict,
    w.log_size,
    eq_iff e.type "attempt.log",
  )

-- A well-formed envelope that fits a frame comes back from the frame as it was, where the JSON
-- library reads back the object that it wrote.
pub decode_frame-to_json :
    (codec : Codec) (now : ℕ) (allowed : List String) (e : Envelope) (json : String)
    → IsWellFormed codec now allowed e
    → to_json codec e ≡ ok json
    → codec.loads (codec.dumps (to_dict e)) ≡ some (obj (to_dict e))
    → decode_frame codec now allowed (text json) ≡ ok e
unfolding decode_frame frame_text parse_json to_json
decode_frame-to_json codec now allowed e json w sent law =
    ground (arith, mapping-to_dict codec now allowed e w)
