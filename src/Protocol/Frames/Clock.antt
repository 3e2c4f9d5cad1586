-- ===== src/Protocol/Frames/Clock.antt =====
-- The clock-skew window of `_validate_envelope_fields` in src/build_engine/agent/protocol.py.
use build_engine.Prelude.{ℕ, ◌+◌, ◌<◌, String, ◌≡◌, inl, inr, some, List, arith}
use build_engine.Result.{ok, err, Result-cases}
use build_engine.Json.{Fields, str, obj, get}
use build_engine.Protocol.Codec.{Codec, aware}
use build_engine.Protocol.Envelope.{ProtocolError, Envelope, max_timestamp_skew}
use build_engine.Protocol.Validate.{
  Checked, Header, as_text, check_header, check_time, parse_timestamp, validate_fields,
  validate_envelope, as_object,
}
use build_engine.Protocol.Frames.{text, frame_text, parse_json, envelope_from_mapping, decode_frame}

header_time :
    (codec : Codec) (now : ℕ) (allowed : List String) (data_ : Fields) (h : Header) (ts : String)
    → check_header codec now allowed data_ ≡ ok h
    → get "ts" data_ ≡ some (str ts)
    → check_time codec now ts ≡ ok tt
unfolding check_header as_text
header_time codec now allowed data_ h ts e at = ground arith

fields_time :
    (codec : Codec) (now : ℕ) (allowed : List String) (data_ : Fields) (c : Checked) (ts : String)
    → validate_fields codec now allowed data_ ≡ ok c
    → get "ts" data_ ≡ some (str ts)
    → check_time codec now ts ≡ ok tt
unfolding validate_fields
fields_time codec now allowed data_ c ts e at =
    header_time codec now allowed data_ c.header ts (ground arith) at

decoded_time :
    (codec : Codec) (now : ℕ) (allowed : List String) (s : String) (data_ : Fields) (ts : String)
    (e : Envelope)
    → codec.loads s ≡ some (obj data_)
    → get "ts" data_ ≡ some (str ts)
    → decode_frame codec now allowed (text s) ≡ ok e
    → check_time codec now ts ≡ ok tt
unfolding decode_frame frame_text parse_json envelope_from_mapping validate_envelope as_object
decoded_time codec now allowed s data_ ts e loaded at h =
    elim (Result-cases (validate_fields codec now allowed data_)) [
      | inl (x, bad) ↦ absurd (ground arith)
      | inr (c, good) ↦ fields_time codec now allowed data_ c ts good at
    ]

late :
    (codec : Codec) (now : ℕ) (ts : String) (t : ℕ)
    → codec.parse_iso ts ≡ aware t
    → t + max_timestamp_skew < now
    → check_time codec now ts ≡ ok tt
    → ⊥
unfolding check_time parse_timestamp
late codec now ts t time_of old h = ground arith

-- A frame whose time lies more than `MAX_TIMESTAMP_SKEW` before the present is refused, whatever
-- else it holds.
pub decode_frame-stale :
    (codec : Codec) (now : ℕ) (allowed : List String) (s : String) (data_ : Fields) (ts : String)
    (t : ℕ)
    → codec.loads s ≡ some (obj data_)
    → get "ts" data_ ≡ some (str ts)
    → codec.parse_iso ts ≡ aware t
    → t + max_timestamp_skew < now
    → (x : ProtocolError) × (decode_frame codec now allowed (text s) ≡ err x)
decode_frame-stale codec now allowed s data_ ts t loaded at time_of old =
    elim (Result-cases (decode_frame codec now allowed (text s))) [
      | inl (x, refused) ↦ (x, refused)
      | inr (e, accepted) ↦ absurd (
          late codec now ts t time_of old
            (decoded_time codec now allowed s data_ ts e loaded at accepted))
    ]
