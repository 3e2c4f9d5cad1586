-- ===== src/Worker/Execute.antt =====
-- `execute_job` of src/build_engine/agent/job_loop.py.
use build_engine.Prelude.{
  String, Bool, true, false, not, ◌&&◌, ◌||◌, Option, none, some, str_eq, if◌then◌else◌,
}
use build_engine.Result.{Result, ok, err}
use build_engine.Json.{end, field, str, int}
use build_engine.Metrics.{Collector, docker_error}
use build_engine.Queue.Rows.{JobRow, Store, running, cancelled, same_state}
use build_engine.Queue.Store.{get_job, is_current_attempt}
use build_engine.Queue.Transition.{Move, transition}
use build_engine.Agent.Leases.{QueueLease}
use build_engine.Agent.Uplink.{store_of}
use build_engine.Errors.{queue}
use build_engine.Worker.{
  Fault, upload, project, cache, docker, agent, Engine, Task, returns, call, ◌>>=◌, ◌>>◌,
}
use build_engine.Worker.Tools.{World, wait, publish, on_store}
use build_engine.Worker.Events.{status, seconds_metric, metric, ack, no_fields}
use build_engine.Worker.Build.{build_error, backend, prepare, build_project}

-- `_ensure_current_attempt`: what the store says of the attempt that the worker executes.
abbrev pub stale : String → Fault
stale message = build_error "STALE_ATTEMPT" "STALE_ATTEMPT" message

abbrev pub holds : Option String → String → Bool
holds none wanted = false
holds (some t) wanted = str_eq t wanted

unfoldable pub checked_row : QueueLease → Option JobRow → Result Fault (Unit {0})
checked_row l none = err (stale "Build attempt is no longer running")
checked_row l (some current) =
    if not (same_state current.state running)
    then err (stale "Build attempt is no longer running")
    else if not (holds current.lease_owner l.owner)
    then err (stale "Build lease ownership was lost")
    else if not (holds current.lease_token l.token)
    then err (stale "Build lease token was replaced")
    else if current.cancel_requested
    then err (build_error "CANCELLED" "CANCELLED" "Build cancellation was requested")
    else ok tt

unfoldable pub ensure_current_attempt : QueueLease → Store → Result Fault (Unit {0})
ensure_current_attempt l s = elim (is_current_attempt l.job.build_job_id l.job.attempt_id s) [
  | err x ↦ err (agent (queue x))
  | ok false ↦ err (stale "Build attempt was superseded by a newer assignment")
  | ok true ↦ checked_row l (get_job l.job.build_job_id l.job.attempt_id s)
]

-- What `_monitor_cancel` looks for.
unfoldable pub cancel_seen : JobRow → Store → Bool
cancel_seen job s = elim (get_job job.build_job_id job.attempt_id s) [
  | none ↦ false
  | some current ↦ current.cancel_requested || same_state current.state cancelled
]

unfoldable pub ensured : QueueLease → Task (Unit {0})
ensured l = λ e. (ensure_current_attempt l (store_of e.uplink), e)

unfoldable pub deliver : World → JobRow → Task (Unit {0})
deliver w job = do
  status w job "PACKAGING" no_fields
  artifact ← wait w (w.tools.package_output job.attempt_id)
  seconds_metric w job "package.seconds"
  metric w job "artifact.bytes" (int artifact.size_bytes)
  publish w job "artifact.ready"
      (field "sha256" (str artifact.sha256) (field "size_bytes" (int artifact.size_bytes) end))
  status w job "UPLOADING" no_fields
  url ← returns (backend w.backend_url)
  ticket ← wait w (w.tools.request_upload_url url job artifact)
  wait w (w.tools.upload ticket artifact)
  seconds_metric w job "upload.seconds"

abbrev pub success : QueueLease → Move
success l = record {
  attempt_id = l.job.attempt_id;
  state = "SUCCEEDED";
  error = none;
  expected_state = some "RUNNING";
  lease_owner = some l.owner;
  lease_token = some l.token;
}

-- The end of the `try` block, where the attempt is done.
unfoldable pub succeed : World → QueueLease → Task (Unit {0})
succeed w l = do
  job ← on_store w (λ now. transition now (success l))
  seconds_metric w l.job "jobs.duration_seconds"
  ack w l.job "SUCCEEDED" none

-- The `try` block.
unfoldable pub run_attempt : World → QueueLease → Task (Unit {0})
run_attempt w l = do
  prepared ← prepare w l.job
  build_project w l.job prepared
  ensured l
  deliver w l.job
  succeed w l

-- The `except` clauses: what is raised instead, and whether the workspace of the failure may be kept.
unfoldable pub translate : Fault → Fault × Bool
translate (upload t) = (build_error "EXEC_INFRA" "STORAGE_FAILURE" t, true)
translate (project name t) = (build_error "USER_CONFIG_INVALID" name t, true)
translate (cache name t) = (build_error "EXEC_INFRA" name t, true)
translate (docker name t) = (build_error "EXEC_INFRA" name t, true)
translate x = (x, false)

abbrev count_docker_error : Option Collector → Option Collector
count_docker_error none = none
count_docker_error (some m) = some (docker_error m)

unfoldable pub count_fault : Fault → Engine → Engine
count_fault (docker name t) e = record e { metrics = count_docker_error e.metrics }
count_fault _ e = e

unfoldable pub clean_up : World → JobRow → Bool → Task (Unit {0})
clean_up w job keep =
    call (w.tools.cleanup_workspace job.attempt_id (keep && w.retain_failed_workspaces))

-- The `except` clauses and the `finally` block, where an exception of the clean-up replaces another.
unfoldable pub finish_attempt :
    World → JobRow → Result Fault (Unit {0}) × Engine → Result Fault (Unit {0}) × Engine
finish_attempt w job (ok _, e) = clean_up w job false e
finish_attempt w job (err x, e) =
    let (raised, keep) = translate x in
    (clean_up w job keep >>= λ _. returns (err raised)) (count_fault x e)

unfoldable pub execute_job : World → QueueLease → Task (Unit {0})
execute_job w l = do
  call (w.tools.create_workspace l.job.attempt_id)
  λ e. finish_attempt w l.job (run_attempt w l e)
