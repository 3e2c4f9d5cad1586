-- ===== src/Protocol/Validate.antt =====
-- `validate_envelope` and what it calls in src/build_engine/agent/protocol.py. `now` is the value of
-- `datetime.now(UTC)`, in microseconds.
use build_engine.Prelude.{
  ℕ, ◌+◌, ◌*◌, ◌^◌, String, Bool, true, false, not, ◌&&◌, ◌||◌, Option, none, some, List, [], ◌∷◌,
  any, ltb, ◌==◌, len, str_eq, str_mem, is_some, if◌then◌else◌,
}
use build_engine.Result.{Result, ok, err, ◌>>=◌, ◌>>◌, require}
use build_engine.Json.{Json, Fields, null, int, float, str, obj, get, keys}
use build_engine.Ident.{is_uuid}
use build_engine.Protocol.Codec.{Codec, not_iso, naive, aware}
use build_engine.Protocol.Envelope.{
  ProtocolError, not_an_object, unknown_fields, missing_fields, unsupported_version, type_not_text,
  unknown_type, ts_not_text, ts_not_iso, ts_naive, clock_skew, payload_not_object, not_uuid,
  bad_seq, seq_without_attempt, log_too_large, protocol_version, max_log_data_bytes,
  max_timestamp_skew, all_message_types,
}

abbrev pub envelope_keys : List String
envelope_keys =
    "v" ∷ "id" ∷ "type" ∷ "ts" ∷ "engine_id" ∷ "build_job_id" ∷ "attempt_id" ∷ "seq" ∷ "payload"
    ∷ []

abbrev pub required_keys : List String
required_keys = "v" ∷ "id" ∷ "type" ∷ "ts" ∷ "engine_id" ∷ "payload" ∷ []

-- `not (set(data) - keys)` and `not [key for key in required if key not in data]`.
unfoldable pub all_known : List String → Bool
all_known ks = not (any (λ k. not (str_mem k envelope_keys)) ks)

unfoldable pub none_missing : Fields → Bool
none_missing data_ = not (any (λ k. not (is_some (get k data_))) required_keys)

-- `data["v"] == PROTOCOL_VERSION`
unfoldable pub is_version : Option Json → Bool
is_version (some (int n)) = n == protocol_version
is_version (some (float n e)) = n == protocol_version * 2 ^ e
is_version _ = false

unfoldable pub as_object : Json → Result ProtocolError Fields
as_object (obj fs) = ok fs
as_object _ = err not_an_object

unfoldable pub as_text : ProtocolError → Option Json → Result ProtocolError String
as_text e (some (str s)) = ok s
as_text e _ = err e

-- `_require_uuid`
unfoldable pub require_uuid : String → Option Json → Result ProtocolError String
require_uuid label value = do
  s ← as_text (not_uuid label) value
  if is_uuid s then ok s else err (not_uuid label)

-- `if key in data: _require_uuid(data[key], …)`
unfoldable pub optional_uuid : String → Fields → Result ProtocolError (Option String)
optional_uuid key data_ = elim (get key data_) [
  | none ↦ ok none
  | some value ↦ do s ← require_uuid key (some value); ok (some s)
]

-- `_parse_timestamp`
unfoldable pub parse_timestamp : Codec → String → Result ProtocolError ℕ
parse_timestamp codec value = elim (codec.parse_iso value) [
  | not_iso ↦ err ts_not_iso
  | naive ↦ err ts_naive
  | aware t ↦ ok t
]

-- `now - MAX_TIMESTAMP_SKEW <= timestamp <= now + MAX_TIMESTAMP_SKEW`
abbrev pub in_window : ℕ → ℕ → Bool
in_window now t = not (ltb (t + max_timestamp_skew) now || ltb (now + max_timestamp_skew) t)

unfoldable pub payload_of : Option Json → Result ProtocolError Fields
payload_of (some (obj fs)) = ok fs
payload_of _ = err payload_not_object

-- `isinstance(seq, int) and not isinstance(seq, bool) and seq >= 0`, if the key is there.
unfoldable pub seq_of : Option Json → Result ProtocolError (Option ℕ)
seq_of none = ok none
seq_of (some (int n)) = ok (some n)
seq_of (some _) = err bad_seq

unfoldable pub log_fits : Fields → Bool
log_fits payload = elim (get "data" payload) [
  | some (str s) ↦ not (ltb max_log_data_bytes (len s))
  | _ ↦ true
]

abbrev pub allowed_or_all : List String → List String
allowed_or_all [] = all_message_types
allowed_or_all (t ∷ ts) = t ∷ ts

unfoldable pub is_allowed : List String → String → Bool
is_allowed allowed type = str_mem type (allowed_or_all allowed)

-- What a valid envelope holds, read while it is checked: who sent what when, and for which attempt.
pub record Header : Type 0 where
  pub id : String
  pub type : String
  pub ts : String

pub record Scope : Type 0 where
  pub engine_id : String
  pub payload : Fields
  pub build_job_id : Option String
  pub attempt_id : Option String
  pub seq : Option ℕ

pub record Checked : Type 0 where
  pub v : Json
  pub header : Header
  pub scope : Scope

abbrev pub json_or_null : Option Json → Json
json_or_null none = null
json_or_null (some v) = v

abbrev pub version_of : Fields → Json
version_of data_ = json_or_null (get "v" data_)

-- The checks of `validate_envelope` in their order: the keys and the version, …
unfoldable pub check_keys : Fields → Result ProtocolError (Unit {0})
check_keys data_ = do
  require (all_known (keys data_)) unknown_fields
  require (none_missing data_) missing_fields
  require (is_version (get "v" data_)) unsupported_version

unfoldable pub check_time : Codec → ℕ → String → Result ProtocolError (Unit {0})
check_time codec now ts = do
  timestamp ← parse_timestamp codec ts
  require (in_window now timestamp) clock_skew

-- … the id, the type and the time, …
unfoldable pub check_header : Codec → ℕ → List String → Fields → Result ProtocolError Header
check_header codec now allowed data_ = do
  id ← require_uuid "id" (get "id" data_)
  type ← as_text type_not_text (get "type" data_)
  require (is_allowed allowed type) unknown_type
  ts ← as_text ts_not_text (get "ts" data_)
  check_time codec now ts
  ok (record { id = id; type = type; ts = ts })

-- … the engine, the payload and the attempt, …
unfoldable pub check_scope : Fields → Result ProtocolError Scope
check_scope data_ = do
  engine_id ← require_uuid "engine_id" (get "engine_id" data_)
  payload ← payload_of (get "payload" data_)
  build_job_id ← optional_uuid "build_job_id" data_
  attempt_id ← optional_uuid "attempt_id" data_
  seq ← seq_of (get "seq" data_)
  require (not (is_some seq && not (is_some attempt_id))) seq_without_attempt
  ok (record {
    engine_id = engine_id;
    payload = payload;
    build_job_id = build_job_id;
    attempt_id = attempt_id;
    seq = seq;
  })

-- … and the size of a log.
unfoldable pub validate_fields : Codec → ℕ → List String → Fields → Result ProtocolError Checked
validate_fields codec now allowed data_ = do
  check_keys data_
  header ← check_header codec now allowed data_
  scope ← check_scope data_
  require (not (str_eq header.type "attempt.log") || log_fits scope.payload) log_too_large
  ok (record { v = version_of data_; header = header; scope = scope })

-- An empty set of allowed types counts as none given.
unfoldable pub validate_envelope : Codec → ℕ → List String → Json → Result ProtocolError Checked
validate_envelope codec now allowed raw = do
  data_ ← as_object raw
  validate_fields codec now allowed data_
