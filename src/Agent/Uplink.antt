-- ===== src/Agent/Uplink.antt =====
-- The calls of `BuildEngineUplink` in src/build_engine/agent/uplink.py that read the welcome, and
-- that publish and replay events.
use build_engine.Prelude.{
  ℕ, String, Bool, true, false, Option, none, some, List, [], ◌∷◌, ◌++◌, ltb, str_eq, if◌then◌else◌,
}
use build_engine.Result.{Result, ok, err, ◌>>=◌, ◌>>◌, require}
use build_engine.Errors.{AgentError, protocol, connection, lift_protocol}
use build_engine.Json.{Json, Fields, bool, int, str, get}
use build_engine.Protocol.Codec.{Codec}
use build_engine.Protocol.Envelope.{
  ProtocolError, Envelope, inbound_message_types, not_welcome, wrong_engine, wrong_version,
}
use build_engine.Protocol.Validate.{is_version}
use build_engine.Protocol.Frames.{Frame, Draft, new_envelope, decode_frame, last_sequences}
use build_engine.Queue.Rows.{Store}
use build_engine.Outbox.{SpoolLimits, append, next_seq}
use build_engine.Outbox.Resend.{replay_after}
use build_engine.Agent.Commands.{Handlers}

-- What a call is given: the configuration, the clocks, the ids that `uuid4` returns, by attempt,
-- and whether the websocket takes a message.
pub record Session : Type 0 where
  pub codec : Codec
  pub limits : SpoolLimits
  pub engine_id : String
  pub now : ℕ
  pub clock : ℕ
  pub message_id : String → String
  pub sends : Bool
  pub reset : Option String → Result AgentError (Unit {0})

-- The state of the uplink: the handlers with the store, whether there is a websocket, what was sent
-- on it, and the heartbeat interval.
pub record Uplink : Type 0 where
  pub handlers : Handlers
  pub connected : Bool
  pub sent : List Envelope
  pub heartbeat_interval_seconds : ℕ

abbrev pub store_of : Uplink → Store
store_of u = u.handlers.store

abbrev pub with_store : Store → Uplink → Uplink
with_store s u = record u { handlers = record u.handlers { store = s } }

-- A failed send drops the websocket and is not an error: the event is in the spool.
unfoldable pub send_published : Session → Envelope → Uplink → Uplink
send_published c e u =
    if u.connected
    then if c.sends then record u { sent = u.sent ++ e ∷ [] } else record u { connected = false }
    else u

unfoldable pub after_append :
    Session
    → Envelope
    → Result AgentError (Unit {0}) × Store
    → Uplink
    → Result AgentError Envelope × Uplink
after_append c e (err x, s) u = (err x, with_store s u)
after_append c e (ok _, s) u = (ok e, send_published c e (with_store s u))

unfoldable pub spool_envelope :
    Session → Result AgentError Envelope → Uplink → Result AgentError Envelope × Uplink
spool_envelope c (err x) u = (err x, u)
spool_envelope c (ok e) u = after_append c e (append c.codec c.limits c.now e (store_of u)) u

abbrev pub event_draft : Session → String → Fields → String → String → ℕ → Draft
event_draft c message_type payload build_job_id attempt_id seq = record {
  message_id = c.message_id attempt_id;
  message_type = message_type;
  payload = payload;
  engine_id = c.engine_id;
  build_job_id = some build_job_id;
  attempt_id = some attempt_id;
  seq = some seq;
}

-- `publish_attempt_event`
unfoldable pub publish_attempt_event :
    Session → String → Fields → String → String → Uplink → Result AgentError Envelope × Uplink
publish_attempt_event c message_type payload build_job_id attempt_id u =
    spool_envelope c
      (next_seq attempt_id (store_of u) >>= λ seq. lift_protocol (
        new_envelope c.codec c.clock
          (event_draft c message_type payload build_job_id attempt_id seq)))
      u

unfoldable pub text_is : Option Json → String → Bool
text_is (some (str s)) t = str_eq s t
text_is _ t = false

-- The heartbeat interval of the welcome: a positive number, where Python counts True as 1.
unfoldable pub interval_of : Option Json → ℕ → ℕ
interval_of (some (int n)) old = if ltb 0 n then n else old
interval_of (some (bool true)) old = 1
interval_of _ old = old

unfoldable pub checked_welcome : Session → Envelope → Result ProtocolError Envelope
checked_welcome c welcome = do
  require (str_eq welcome.type "welcome") not_welcome
  require (str_eq welcome.engine_id c.engine_id) wrong_engine
  require (text_is (get "engine_id" welcome.payload) c.engine_id) wrong_engine
  require (is_version (get "proto_negotiated" welcome.payload)) wrong_version
  ok welcome

abbrev welcomed : Result ProtocolError Envelope → Uplink → Result AgentError Envelope × Uplink
welcomed (err x) u = (err (protocol x), u)
welcomed (ok e) u = (
  ok e,
  record u {
    heartbeat_interval_seconds =
        interval_of (get "heartbeat_interval_seconds" e.payload) u.heartbeat_interval_seconds;
  },
)

-- `_receive_welcome`: the first frame, or the end of the connection.
unfoldable pub receive_welcome :
    Session → Option Frame → Uplink → Result AgentError Envelope × Uplink
receive_welcome c none u = (err (protocol not_welcome), u)
receive_welcome c (some frame) u =
    welcomed (decode_frame c.codec c.clock inbound_message_types frame >>= λ e. checked_welcome c e)
      u

abbrev send_all : Session → List Envelope → Uplink → Result AgentError Uplink
send_all c [] u = ok u
send_all c (e ∷ es) u =
    if c.sends then ok (record u { sent = u.sent ++ e ∷ es }) else err connection

-- `_replay_spool`: the events that are sent after a welcome.
unfoldable pub replay_spool : Session → Envelope → Uplink → Result AgentError Uplink
replay_spool c welcome u = do
  cursors ← lift_protocol (last_sequences welcome.payload)
  events ← replay_after c.codec c.clock cursors (store_of u)
  send_all c events u
