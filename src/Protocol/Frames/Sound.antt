-- ===== src/Protocol/Frames/Sound.antt =====
-- What the validation in src/build_engine/agent/protocol.py admits.
use build_engine.Prelude.{
  ℕ, ◌+◌, ◌≤◌, String, ◌≡◌, true, Option, none, some, List, arith, is_some, eq_iff, subst,
  Option-cases, inl, inr,
}
use build_engine.Result.{ok, ◌>>=◌, >>=-eq-ok, Result-cases}
use build_engine.Json.{Json, Fields, get}
use build_engine.Ident.{is_uuid}
use build_engine.Protocol.Codec.{Codec, aware}
use build_engine.Protocol.Envelope.{Envelope, max_timestamp_skew}
use build_engine.Protocol.Frames.{
  Frame, envelope_of, frame_text, parse_json, envelope_from_mapping, decode_frame,
}
use build_engine.Protocol.Validate.{
  Checked, Header, Scope, check_keys, check_time, check_header, check_scope, as_text, require_uuid,
  optional_uuid, parse_timestamp, is_version, in_window, log_fits, is_allowed, json_or_null,
  validate_fields, validate_envelope, as_object, version_of,
}

-- An envelope that the protocol admits, described by its fields.
pub record IsWellFormed (codec : Codec) (now : ℕ) (allowed : List String) (e : Envelope)
    : Type 0 where
  pub version : is_version (some e.v) ≡ true
  pub id : is_uuid e.id ≡ true
  pub type_allowed : is_allowed allowed e.type ≡ true
  pub time : ℕ
  pub time_of : codec.parse_iso e.ts ≡ aware time
  pub not_old : now ≤ time + max_timestamp_skew
  pub not_early : time ≤ now + max_timestamp_skew
  pub engine : is_uuid e.engine_id ≡ true
  pub build : (b : String) → e.build_job_id ≡ some b → is_uuid b ≡ true
  pub attempt : (a : String) → e.attempt_id ≡ some a → is_uuid a ≡ true
  pub attempt_of_seq : is_some e.seq ≡ true → is_some e.attempt_id ≡ true
  pub log_size : e.type ≡ "attempt.log" → log_fits e.payload ≡ true

require_uuid_sound :
    (label : String) (o : Option Json) (s : String) → require_uuid label o ≡ ok s → is_uuid s ≡ true
unfolding require_uuid as_text
require_uuid_sound label o s h = ground arith

optional_uuid_sound :
    (key : String) (data_ : Fields) (o : Option String) (s : String)
    → optional_uuid key data_ ≡ ok o
    → o ≡ some s
    → is_uuid s ≡ true
unfolding optional_uuid
optional_uuid_sound key data_ o s h e = elim (Option-cases (get key data_)) [
  | inl f ↦ absurd (ground arith)
  | inr (v, f) ↦ require_uuid_sound key (some v) s (ground arith)
]

parse_timestamp_sound :
    (codec : Codec) (ts : String) (t : ℕ)
    → parse_timestamp codec ts ≡ ok t
    → codec.parse_iso ts ≡ aware t
unfolding parse_timestamp
parse_timestamp_sound codec ts t h = ground arith

check_keys_sound : (data_ : Fields) → check_keys data_ ≡ ok tt → is_version (get "v" data_) ≡ true
unfolding check_keys
check_keys_sound data_ h = ground arith

version_sound : (o : Option Json) → is_version o ≡ true → is_version (some (json_or_null o)) ≡ true
unfolding is_version
version_sound none h = cc
version_sound (some v) h = h

record HeaderOk (codec : Codec) (now : ℕ) (allowed : List String) (h : Header) : Type 0 where
  id : is_uuid h.id ≡ true
  type_allowed : is_allowed allowed h.type ≡ true
  time : ℕ
  time_of : codec.parse_iso h.ts ≡ aware time
  fresh : in_window now time ≡ true

record ScopeOk (s : Scope) : Type 0 where
  engine : is_uuid s.engine_id ≡ true
  build : (b : String) → s.build_job_id ≡ some b → is_uuid b ≡ true
  attempt : (a : String) → s.attempt_id ≡ some a → is_uuid a ≡ true
  attempt_of_seq : is_some s.seq ≡ true → is_some s.attempt_id ≡ true

check_time_sound :
    (codec : Codec) (now : ℕ) (ts : String)
    → check_time codec now ts ≡ ok tt
    → (t : ℕ) × (codec.parse_iso ts ≡ aware t) × (in_window now t ≡ true)
unfolding check_time
check_time_sound codec now ts h = elim (Result-cases (parse_timestamp codec ts)) [
  | inl (x, bad) ↦ absurd (ground arith)
  | inr (t, good) ↦ (t, parse_timestamp_sound codec ts t good, ground arith)
]

check_header_sound :
    (codec : Codec) (now : ℕ) (allowed : List String) (data_ : Fields) (h : Header)
    → check_header codec now allowed data_ ≡ ok h
    → HeaderOk codec now allowed h
unfolding check_header
check_header_sound codec now allowed data_ h e =
    let (t, at, fresh) = check_time_sound codec now h.ts (ground arith) in
    record {
      id = require_uuid_sound "id" (get "id" data_) h.id (ground arith);
      type_allowed = ground arith;
      time = t;
      time_of = at;
      fresh = fresh;
    }

check_scope_sound : (data_ : Fields) (s : Scope) → check_scope data_ ≡ ok s → ScopeOk s
unfolding check_scope
check_scope_sound data_ s e = record {
  engine = require_uuid_sound "engine_id" (get "engine_id" data_) s.engine_id (ground arith);
  build = λ b h. optional_uuid_sound "build_job_id" data_ s.build_job_id b (ground arith) h;
  attempt = λ a h. optional_uuid_sound "attempt_id" data_ s.attempt_id a (ground arith) h;
  attempt_of_seq = λ h. ground arith;
}

-- Whatever was decoded, an accepted envelope is well formed.
pub validate_fields-IsWellFormed :
    (codec : Codec) (now : ℕ) (allowed : List String) (data_ : Fields) (c : Checked)
    → validate_fields codec now allowed data_ ≡ ok c
    → IsWellFormed codec now allowed (envelope_of c)
unfolding validate_fields
validate_fields-IsWellFormed codec now allowed data_ c h =
    let header = check_header_sound codec now allowed data_ c.header (ground arith) in
    let scope = check_scope_sound data_ c.scope (ground arith) in
    let same_v : version_of data_ ≡ c.v = ground arith in
    record {
      version =
          subst (λ v. is_version (some v) ≡ true) same_v
            (version_sound (get "v" data_) (check_keys_sound data_ (ground arith)));
      id = header.id;
      type_allowed = header.type_allowed;
      time = header.time;
      time_of = header.time_of;
      not_old = ground (arith, header.fresh);
      not_early = ground (arith, header.fresh);
      engine = scope.engine;
      build = scope.build;
      attempt = scope.attempt;
      attempt_of_seq = scope.attempt_of_seq;
      log_size = λ e. ground (arith, eq_iff c.header.type "attempt.log");
    }

-- Whatever frame arrives, an envelope that `decode_frame` returns is well formed.
pub decode_frame-IsWellFormed :
    (codec : Codec) (now : ℕ) (allowed : List String) (frame : Frame) (e : Envelope)
    → decode_frame codec now allowed frame ≡ ok e
    → IsWellFormed codec now allowed e
unfolding decode_frame envelope_from_mapping validate_envelope as_object
decode_frame-IsWellFormed codec now allowed frame e h =
    let map = envelope_from_mapping codec now allowed in
    let (s, _, h₁) =
      >>=-eq-ok (frame_text codec frame) (λ s. parse_json codec s >>= λ raw. map raw) h in
    let (raw, _, h₂) = >>=-eq-ok (parse_json codec s) (λ raw. map raw) h₁ in
    let (c, h₃, h₄) =
      >>=-eq-ok (validate_envelope codec now allowed raw) (λ c. ok (envelope_of c)) h₂ in
    let (data_, _, h₅) = >>=-eq-ok (as_object raw) (λ d. validate_fields codec now allowed d) h₃ in
    let same : envelope_of c ≡ e = cc h₄ in
    subst (IsWellFormed codec now allowed) same
      (validate_fields-IsWellFormed codec now allowed data_ c h₅)
