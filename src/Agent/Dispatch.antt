-- ===== src/Agent/Dispatch.antt =====
-- `_handle_frame` of src/build_engine/agent/uplink.py and the handlers that it calls.
pub mod Steps
pub mod Frames
pub mod Drained
use build_engine.Prelude.{
  ℕ, String, Bool, true, false, not, ◌&&◌, ◌||◌, Option, none, some, List, [], ◌∷◌, ◌++◌, str_eq,
  str_mem, if◌then◌else◌,
}
use build_engine.Result.{Result, ok, err, ◌>>=◌}
use build_engine.Errors.{AgentError, protocol, connection, lift_protocol}
use build_engine.Json.{Json, Fields, end, field, null, int, str, get, put}
use build_engine.Ident.{is_uuid}
use build_engine.Protocol.Envelope.{
  Envelope, inbound_message_types, missing_text, wrong_engine, bad_action, bad_ack,
  misplaced_welcome, unhandled_type,
}
use build_engine.Protocol.Frames.{Frame, new_envelope, decode_frame, attempt_fields}
use build_engine.Outbox.{ack_through}
use build_engine.Agent.Commands.{
  CommandResult, Handlers, Handled, assign, cancel, drain, resume, cache_reset,
}
use build_engine.Agent.Uplink.{Session, Uplink, store_of, with_store, publish_attempt_event}

abbrev pub Step : Type 0
Step = Result AgentError (Unit {0}) × Uplink

abbrev pub with_handlers : Handlers → Uplink → Uplink
with_handlers h u = record u { handlers = h }

-- A call whose value is not used.
abbrev pub ignored : Result AgentError Envelope × Uplink → Step
ignored (ok _, u) = (ok tt, u)
ignored (err x, u) = (err x, u)

-- `result.state or ("ASSIGNED" if result.accepted else "FAILED")`
unfoldable pub reported_state : CommandResult → String
reported_state r = elim r.state [
  | some state ↦ if str_eq state "" then (if r.accepted then "ASSIGNED" else "FAILED") else state
  | none ↦ if r.accepted then "ASSIGNED" else "FAILED"
]

abbrev pub status_payload : String → String → String → String → Fields
status_payload build_job_id attempt_id key value =
    field "build_job_id" (str build_job_id)
      (field "attempt_id" (str attempt_id) (field key (str value) end))

unfoldable pub report_assigned : Session → String → String → Handled → Uplink → Step
report_assigned c b a (err x, h) u = (err x, with_handlers h u)
report_assigned c b a (ok result, h) u = ignored (
    publish_attempt_event c "attempt.status" (status_payload b a "state" (reported_state result)) b
      a (with_handlers h u))

unfoldable pub assign_ids : Session → Fields → Result AgentError (String × String) → Uplink → Step
assign_ids c payload (err x) u = (err x, u)
assign_ids c payload (ok (b, a)) u =
    report_assigned c b a
      (assign c.now (put "attempt_id" (str a) (put "build_job_id" (str b) payload)) u.handlers) u

-- `_handle_assign`
unfoldable pub handle_assign : Session → Envelope → Uplink → Step
handle_assign c e u = assign_ids c e.payload (lift_protocol (attempt_fields e)) u

-- `_optional_payload_str` and `_required_payload_str`
unfoldable pub optional_payload_str : Fields → String → Result AgentError (Option String)
optional_payload_str payload key = elim (get key payload) [
  | none ↦ ok none
  | some null ↦ ok none
  | some (str s) ↦ if str_eq s "" then err (protocol (missing_text key)) else ok (some s)
  | some _ ↦ err (protocol (missing_text key))
]

abbrev present : String → Option String → Result AgentError String
present key none = err (protocol (missing_text key))
present key (some s) = ok s

unfoldable pub required_payload_str : Fields → String → Result AgentError String
required_payload_str payload key = optional_payload_str payload key >>= present key

-- `envelope.attempt_id or _optional_payload_str(…)`; an envelope's attempt is a UUID.
unfoldable pub explicit_attempt : Envelope → Result AgentError (Option String)
explicit_attempt e = elim e.attempt_id [
  | some a ↦ ok (some a)
  | none ↦ optional_payload_str e.payload "attempt_id"
]

unfoldable pub cancelled_attempts : List String → Option String → List String
cancelled_attempts [] (some a) = a ∷ []
cancelled_attempts affected _ = affected

-- The status of each cancelled attempt; the first one that cannot be published ends the loop.
unfoldable pub next_cancel : Result AgentError Envelope × Uplink → (Uplink → Step) → Step
next_cancel (err x, u) rest = (err x, u)
next_cancel (ok _, u) rest = rest u

unfoldable pub publish_cancels : Session → String → String → List String → Uplink → Step
publish_cancels c b phase [] u = (ok tt, u)
publish_cancels c b phase (a ∷ more) u =
    next_cancel (publish_attempt_event c "attempt.status" (status_payload b a "phase" phase) b a u)
      (publish_cancels c b phase more)

-- `result.state or "CANCELLING"`
unfoldable pub cancel_phase : CommandResult → String
cancel_phase r = elim r.state [
  | some state ↦ if str_eq state "" then "CANCELLING" else state
  | none ↦ "CANCELLING"
]

-- `not result.affected_attempt_ids and result.state not in {"CANCELLED", "CANCELLING"}`
unfoldable pub nothing_cancelled : CommandResult → Bool
nothing_cancelled r = elim r.affected_attempt_ids [
  | _ ∷ _ ↦ false
  | [] ↦ elim r.state [
    | none ↦ true
    | some state ↦ not (str_eq state "CANCELLED" || str_eq state "CANCELLING")
  ]
]

unfoldable pub publish_ids :
    Session
    → CommandResult
    → Result AgentError String
    → Result AgentError (Option String)
    → Uplink
    → Step
publish_ids c r (err x) explicit u = (err x, u)
publish_ids c r (ok b) (err x) u = (err x, u)
publish_ids c r (ok b) (ok explicit) u =
    publish_cancels c b (cancel_phase r) (cancelled_attempts r.affected_attempt_ids explicit) u

unfoldable pub report_cancelled : Session → Envelope → Handled → Uplink → Step
report_cancelled c e (err x, h) u = (err x, with_handlers h u)
report_cancelled c e (ok r, h) u =
    if nothing_cancelled r
    then (ok tt, with_handlers h u)
    else publish_ids c r (required_payload_str e.payload "build_job_id") (explicit_attempt e)
        (with_handlers h u)

-- `_handle_cancel`
unfoldable pub handle_cancel : Session → Envelope → Uplink → Step
handle_cancel c e u = report_cancelled c e (cancel c.now e.payload u.handlers) u

-- `envelope.attempt_id or envelope.payload.get("attempt_id")`
unfoldable pub acked_attempt : Envelope → Option Json
acked_attempt e = elim e.attempt_id [ some a ↦ some (str a) | none ↦ get "attempt_id" e.payload ]

unfoldable pub ack_values : Option Json → Option Json → Uplink → Step
ack_values (some (str a)) (some (int n)) u =
    if is_uuid a
    then (ok tt, with_store (ack_through a n (store_of u)) u)
    else (err (protocol bad_ack), u)
ack_values _ _ u = (err (protocol bad_ack), u)

-- `_ack_event`
unfoldable pub ack_event : Envelope → Uplink → Step
ack_event e u = ack_values (acked_attempt e) (get "last_seq" e.payload) u

abbrev pub handled : Handled → Uplink → Step
handled (err x, h) u = (err x, with_handlers h u)
handled (ok _, h) u = (ok tt, with_handlers h u)

unfoldable pub drain_action : Option Json → Uplink → Step
drain_action none u = handled (drain u.handlers) u
drain_action (some (str s)) u =
    if str_eq s "resume"
    then handled (resume u.handlers) u
    else if str_eq s "drain"
    then handled (drain u.handlers) u
    else (err (protocol bad_action), u)
drain_action (some _) u = (err (protocol bad_action), u)

abbrev pub ponged : Session → Result AgentError Envelope → Uplink → Step
ponged c (err x) u = (err x, u)
ponged c (ok e) u =
    if c.sends then (ok tt, record u { sent = u.sent ++ e ∷ [] }) else (err connection, u)

unfoldable pub pong : Session → Uplink → Step
pong c u =
    ponged c
      (lift_protocol (
        new_envelope c.codec c.clock (record {
          message_id = c.message_id "";
          message_type = "pong";
          payload = end;
          engine_id = c.engine_id;
          build_job_id = none;
          attempt_id = none;
          seq = none;
        })))
      u

-- The `match` on the type of the envelope.
unfoldable pub dispatch : Session → Envelope → Uplink → Step
dispatch c e u =
    if str_eq e.type "ping"
    then pong c u
    else if str_eq e.type "job.assign"
    then handle_assign c e u
    else if str_eq e.type "job.cancel"
    then handle_cancel c e u
    else if str_eq e.type "event.ack"
    then ack_event e u
    else if str_eq e.type "drain"
    then drain_action (get "action" e.payload) u
    else if str_eq e.type "cache.reset"
    then handled (cache_reset c.reset e.payload u.handlers) u
    else if str_eq e.type "welcome"
    then (err (protocol misplaced_welcome), u)
    else (err (protocol unhandled_type), u)

unfoldable pub addressed : Session → Result AgentError Envelope → Uplink → Step
addressed c (err x) u = (err x, u)
addressed c (ok e) u =
    if str_eq e.engine_id c.engine_id then dispatch c e u else (err (protocol wrong_engine), u)

-- `_handle_frame`
unfoldable pub handle_frame : Session → Frame → Uplink → Step
handle_frame c frame u =
    addressed c (lift_protocol (decode_frame c.codec c.clock inbound_message_types frame)) u
