-- ===== src/Worker/Round.antt =====
-- `_worker` and `_refresh_lease` of src/build_engine/agent/job_loop.py.
use build_engine.Prelude.{
  ℕ, zero, suc, String, Bool, true, false, Option, none, some, leb, str_eq, if◌then◌else◌,
}
use build_engine.Result.{Result, ok, err}
use build_engine.Metrics.{Collector, job_started, job_finished}
use build_engine.Queue.Rows.{JobRow, is_terminal, failed, same_state, state_name}
use build_engine.Queue.Store.{get_job}
use build_engine.Queue.Lease.{pos, LeaseRequest}
use build_engine.Queue.Transition.{Move, transition, Crash, record_executor_crash}
use build_engine.Agent.Leases.{QueueLease, acquire_queue_lease, refresh_queue_lease}
use build_engine.Agent.Uplink.{store_of}
use build_engine.Worker.{
  Fault, build, upload, project, cache, docker, agent, other, BuildExecutionError, Engine, Task,
  returns, ◌>>◌,
}
use build_engine.Worker.Tools.{World, pause, on_store}
use build_engine.Worker.Events.{publish_safely, ack_safely}
use build_engine.Worker.Execute.{execute_job}

-- `str(exc)`
unfoldable pub fault_text : World → Fault → String
fault_text w (build x) = x.message
fault_text w (upload t) = t
fault_text w (project name t) = t
fault_text w (cache name t) = t
fault_text w (docker name t) = t
fault_text w (agent x) = w.error_text x
fault_text w (other t) = t

abbrev pub failure_state : BuildExecutionError → String
failure_state x =
    if str_eq x.error_class "EXEC_TIMEOUT"
    then "TIMED_OUT"
    else if str_eq x.error_class "CANCELLED"
    then "CANCELLED"
    else "FAILED"

abbrev pub failure : QueueLease → BuildExecutionError → JobRow → Move
failure l x current = record {
  attempt_id = l.job.attempt_id;
  state = failure_state x;
  error = some x.message;
  expected_state = some (state_name current.state);
  lease_owner = some l.owner;
  lease_token = some l.token;
}

abbrev pub stored_job : QueueLease → Engine → Option JobRow
stored_job l e = get_job l.job.build_job_id l.job.attempt_id (store_of e.uplink)

-- The local end of an attempt whose build failed; the error of the store is suppressed.
unfoldable pub record_failure :
    World → QueueLease → BuildExecutionError → Option JobRow → Engine → Engine
record_failure w l x none e = e
record_failure w l x (some current) e =
    if is_terminal current.state
    then e
    else (on_store w (λ now. transition now (failure l x current)) e).1

-- What the backend is told of it.
unfoldable pub report_failure : World → QueueLease → BuildExecutionError → Engine → Engine
report_failure w l x e = ((publish_safely w l.job x >> ack_safely w l.job (failure_state x) x) e).1

abbrev pub crash_error : String → BuildExecutionError
crash_error text = record {
  error_class = "EXEC_INFRA";
  error_code = "EXECUTOR_CRASH";
  message = text;
}

abbrev pub crash_of : QueueLease → String → Crash
crash_of l text = record {
  attempt_id = l.job.attempt_id;
  error = text;
  lease_owner = some l.owner;
  lease_token = some l.token;
}

abbrev is_recovered : Result Fault JobRow → Bool
is_recovered (ok job) = same_state job.state failed
is_recovered (err x) = false

unfoldable pub report_recovered :
    World → QueueLease → String → Result Fault JobRow × Engine → Bool × Engine
report_recovered w l text (r, e) =
    let told = (publish_safely w l.job (crash_error text) e).1 in
    if is_recovered r
    then (true, (ack_safely w l.job "FAILED" (crash_error text) told).1)
    else (false, told)

unfoldable pub recover : World → QueueLease → String → Engine → Bool × Engine
recover w l text e =
    report_recovered w l text (on_store w (λ now. record_executor_crash now (crash_of l text)) e)

abbrev pub has_ended : Option JobRow → Bool
has_ended none = false
has_ended (some current) = is_terminal current.state

-- The `except` clauses: whether the attempt counts as completed.
unfoldable pub settle : World → QueueLease → Result Fault (Unit {0}) × Engine → Bool × Engine
settle w l (ok _, e) = (true, e)
settle w l (err (build x), e) =
    (true, report_failure w l x (record_failure w l x (stored_job l e) e))
settle w l (err x, e) =
    if has_ended (stored_job l e) then (true, e) else recover w l (fault_text w x) e

abbrev count_started : Option Collector → Option Collector
count_started none = none
count_started (some m) = some (job_started m)

abbrev count_finished : Bool → Option Collector → Option Collector
count_finished completed none = none
count_finished completed (some m) = some (job_finished completed m)

-- The `finally` block waits until the refreshing task has ended.
unfoldable pub finish : World → Bool × Engine → Engine
finish w (completed, e) =
    let e' = pause w e in record e' { metrics = count_finished completed e'.metrics }

unfoldable pub begin : Engine → Engine
begin e = record e { metrics = count_started e.metrics }

unfoldable pub work_lease : World → QueueLease → Engine → Engine
work_lease w l e = finish w (settle w l (execute_job w l (begin e)))

abbrev pub starting : QueueLease → Move
starting l = record {
  attempt_id = l.job.attempt_id;
  state = "RUNNING";
  error = none;
  expected_state = some "LEASED";
  lease_owner = some l.owner;
  lease_token = some l.token;
}

unfoldable pub begin_lease : World → QueueLease → Result Fault JobRow × Engine → Engine
begin_lease w l (err x, e) = e
begin_lease w l (ok job, e) = work_lease w l e

unfoldable pub take_work :
    World → Result Fault (Option QueueLease) × Engine → Result Fault (Unit {0}) × Engine
take_work w (err x, e) = (err x, e)
take_work w (ok none, e) = (ok tt, pause w e)
take_work w (ok (some l), e) =
    (ok tt, begin_lease w l (on_store w (λ now. transition now (starting l)) e))

abbrev pub request : World → String → ℕ → ℕ → LeaseRequest
request w owner moment now = record {
  owner = owner;
  visibility_timeout_seconds = pos w.lease_seconds;
  token = w.token moment;
  now = now;
}

-- One round of the worker's loop. An error of `acquire_queue_lease` ends the worker.
unfoldable pub worker_round : World → String → Task (Unit {0})
worker_round w owner =
    λ e. take_work w (on_store w (λ now. acquire_queue_lease (request w owner e.moment now)) e)

-- The first rounds of a worker, or all of them if it is stopped or raises before.
unfoldable pub worker : ℕ → World → String → Task (Unit {0})
worker zero w owner = returns (ok tt)
worker (suc rounds) w owner = λ e.
    if w.stopped e.moment then (ok tt, e) else (worker_round w owner >> worker rounds w owner) e

-- `_refresh_lease`: the interval in thirds of a second, and one turn, which says whether there is a
-- next one.
unfoldable pub refresh_interval : ℕ → ℕ
refresh_interval timeout =
    let bounded = if leb timeout 90 then timeout else 90 in if leb 3 bounded then bounded else 3

abbrev is_refreshed : Result Fault JobRow × Engine → Bool × Engine
is_refreshed (ok job, e) = (true, e)
is_refreshed (err x, e) = (false, e)

unfoldable pub refresh_turn : World → QueueLease → Engine → Bool × Engine
refresh_turn w l e = is_refreshed (on_store w (λ now. refresh_queue_lease now l) (pause w e))
