-- ===== src/Agent/Commands.antt =====
-- `SQLiteCommandHandlers` of src/build_engine/queue/handlers.py. `marked` says whether the file
-- `drain.json` stands beside the database. The outcome of `reset_cache` is an argument.
use build_engine.Prelude.{
  ℕ, String, Bool, true, false, Option, none, some, List, [], ◌∷◌, ◌++◌, str_eq, if◌then◌else◌,
}
use build_engine.Result.{Result, ok, err}
use build_engine.Errors.{AgentError, protocol, queue}
use build_engine.Json.{Fields, null, str, get}
use build_engine.Protocol.Envelope.{missing_text, not_text}
use build_engine.Queue.Rows.{Store, QueueError, state_name}
use build_engine.Queue.Store.{EnqueueResult, enqueue, request_cancel}

-- `CommandResult` of src/build_engine/agent/uplink.py.
pub record CommandResult : Type 0 where
  pub accepted : Bool
  pub state : Option String
  pub detail : Option String
  pub affected_attempt_ids : List String

pub record Handlers : Type 0 where
  pub store : Store
  pub draining : Bool
  pub marked : Bool
  pub cache_reset_scopes : List (Option String)

abbrev pub Handled : Type 0
Handled = Result AgentError CommandResult × Handlers

abbrev pub says : String → CommandResult
says state = record {
  accepted = true;
  state = some state;
  detail = none;
  affected_attempt_ids = [];
}

-- `__post_init__`
unfoldable pub start_handlers : Handlers → Handlers
start_handlers h = record h { draining = if h.draining then true else h.marked }

abbrev pub assigned : Result QueueError EnqueueResult → Result AgentError CommandResult
assigned (err e) = err (queue e)
assigned (ok result) = ok (says (state_name result.job.state))

abbrev pub refused : CommandResult
refused = record {
  accepted = false;
  state = some "FAILED";
  detail = some "Engine is draining";
  affected_attempt_ids = [];
}

unfoldable pub assign : ℕ → Fields → Handlers → Handled
assign now payload h = if h.marked then (ok refused, record h { draining = true }) else (
  assigned (enqueue now payload h.store).0,
  record h { draining = false; store = (enqueue now payload h.store).1 },
)

-- `_required_payload_str`
unfoldable pub payload_text : Fields → String → Result AgentError String
payload_text payload key = elim (get key payload) [
  | some (str value) ↦ if str_eq value "" then err (protocol (missing_text key)) else ok value
  | _ ↦ err (protocol (missing_text key))
]

-- `attempt_id is not None and not isinstance(attempt_id, str)`
unfoldable pub optional_text : Fields → String → Result AgentError (Option String)
optional_text payload key = elim (get key payload) [
  | none ↦ ok none
  | some null ↦ ok none
  | some (str value) ↦ ok (some value)
  | some _ ↦ err (protocol (not_text key))
]

unfoldable pub cancel_ids :
    ℕ → Result AgentError String → Result AgentError (Option String) → Handlers → Handled
cancel_ids now (err e) attempt_id h = (err e, h)
cancel_ids now (ok build_job_id) (err e) h = (err e, h)
cancel_ids now (ok build_job_id) (ok attempt_id) h =
    let (affected, s) = request_cancel now build_job_id attempt_id h.store in
    (ok (record (says "CANCELLING") { affected_attempt_ids = affected }), record h { store = s })

unfoldable pub cancel : ℕ → Fields → Handlers → Handled
cancel now payload h =
    cancel_ids now (payload_text payload "build_job_id") (optional_text payload "attempt_id") h

unfoldable pub drain : Handlers → Handled
drain h = (ok (says "DRAINING"), record h { draining = true; marked = true })

unfoldable pub resume : Handlers → Handled
resume h = (ok (says "READY"), record h { draining = false; marked = false })

unfoldable pub reset_scope :
    (Option String → Result AgentError (Unit {0}))
    → Result AgentError (Option String)
    → Handlers
    → Handled
reset_scope reset (err e) h = (err e, h)
reset_scope reset (ok site_id) h = elim (reset site_id) [
  | err e ↦ (err e, h)
  | ok _ ↦
      (ok (says "WIPED"), record h { cache_reset_scopes = h.cache_reset_scopes ++ site_id ∷ [] })
]

unfoldable pub cache_reset :
    (Option String → Result AgentError (Unit {0})) → Fields → Handlers → Handled
cache_reset reset payload h = reset_scope reset (optional_text payload "site_id") h
