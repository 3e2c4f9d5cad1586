-- ===== src/Errors.antt =====
-- What the agent's components raise, as one type.
use build_engine.Protocol.Envelope.{ProtocolError}
use build_engine.Queue.Rows.{QueueError}
use build_engine.Result.{Result, ok, err}

pub data AgentError : Type 0 where
  protocol : ProtocolError → AgentError
  queue : QueueError → AgentError
  -- `sqlite3.IntegrityError`, from a constraint of a table.
  integrity : AgentError
  -- The websocket refused a message.
  connection : AgentError

abbrev pub lift_protocol {ℓ} : {A : Type ℓ} → Result ProtocolError A → Result AgentError A
lift_protocol (ok a) = ok a
lift_protocol (err e) = err (protocol e)

abbrev pub lift_queue {ℓ} : {A : Type ℓ} → Result QueueError A → Result AgentError A
lift_queue (ok a) = ok a
lift_queue (err e) = err (queue e)
