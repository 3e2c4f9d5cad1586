-- ===== src/Worker/Build.antt =====
-- The first two parts of the `try` block of `execute_job` in src/build_engine/agent/job_loop.py: up to
-- the build plan, and the build itself.
use Prim.Native.String.{◌++◌ as join}
use build_engine.Prelude.{
  ℕ, String, Bool, false, not, ◌&&◌, Option, none, some, List, ◌==◌, str_eq, if◌then◌else◌,
}
use build_engine.Result.{Result, ok, err}
use build_engine.Json.{Fields, end, field, str, obj}
use build_engine.Metrics.{Collector, cache_event}
use build_engine.Queue.Rows.{JobRow}
use build_engine.Worker.{Fault, build, Task, returns, call, ◌>>=◌, ◌>>◌}
use build_engine.Worker.Payload.{
  optional_str, required_str, optional_int, cache_enabled, resource_limits, combined_command,
}
use build_engine.Executor.Cache.{CachePrepareResult}
use build_engine.Worker.Tools.{
  World, BuildPlan, DockerRunSpec, ExitCode, exited, ContainerResult, to_job_payload_fields, pause,
  wait,
}
use build_engine.Worker.Events.{status, log_all, seconds_metric, no_fields}

abbrev pub build_error : String → String → String → Fault
build_error error_class error_code message =
    build (record { error_class = error_class; error_code = error_code; message = message })

unfoldable pub check : Bool → Fault → Task (Unit {0})
check b x = returns (if b then ok tt else err x)

-- `value or default`
abbrev pub text_or : String → Option String → String
text_or t none = t
text_or t (some x) = if str_eq x "" then t else x

-- `_build_manifest`
abbrev pub build_manifest : World → BuildPlan → String → String → Fields
build_manifest w plan attempt_id root = field "framework" (str plan.framework_id) (
    field "package_manager" (str plan.package_manager) (
      field "root" (str (text_or "." (w.tools.relative_to_source attempt_id root))) (
        field "install_command" (str plan.install_command) (
          field "build_command" (str plan.build_command)
            (field "output_dir" (str (text_or "" plan.output_dir)) (field "env" (obj end) end))))))

-- `_fetch_secret_env`
abbrev pub secrets_of : Option Fields → Result Fault Fields
secrets_of none = err (build_error "EXEC_INFRA" "SECRET_FETCH_FAILED" "Build secret fetch failed")
secrets_of (some env) = ok env

abbrev pub backend : Option String → Result Fault String
backend none = err (build_error "PLATFORM_ERROR" "BACKEND_URL_MISSING" "backend_url is missing")
backend (some url) = ok url

unfoldable pub fetch_secret_env : World → JobRow → Task Fields
fetch_secret_env w job = do
  url ← returns (backend w.backend_url)
  wait w (λ n. secrets_of (w.tools.fetch_attempt_secrets url job n))

-- From the start of the `try` block to the build plan, with the project's root.
unfoldable pub prepare : World → JobRow → Task (String × BuildPlan)
prepare w job = do
  status w job "PREPARING" no_fields
  source_url ← returns (required_str job.payload "source_download_url")
  source_sha256 ← returns (required_str job.payload "source_sha256")
  source_size ← returns (optional_int job.payload "source_size_bytes")
  call (w.tools.download_source job.attempt_id source_url source_sha256 source_size)
  call (w.tools.extract_source job.attempt_id)
  root_directory ← returns (optional_str job.payload "root_directory")
  project_root ← call (w.tools.resolve_project_root job.attempt_id root_directory)
  framework_id ← returns (optional_str job.payload "framework_id")
  plan ← call (w.tools.plan_build project_root framework_id)
  check plan.compatible
      (build_error "USER_CONFIG_INVALID" "BUILD_INCOMPATIBLE" (w.tools.guidance_json plan.guidance))
  returns (ok (project_root, plan))

unfoldable pub pull : World → JobRow → BuildPlan → Task String
pull w job plan = do
  image ← call (w.tools.resolve_builder_image plan.image)
  status w job "PULLING_IMAGE" (field "image" (str image) end)
  wait w (w.tools.pull_image image)
  seconds_metric w job "docker.image_pull_seconds"
  returns (ok image)

abbrev count_cache : Option String → Option Collector → Option Collector
count_cache event none = none
count_cache event (some m) = some (cache_event event m)

unfoldable pub record_cache : Option String → Task (Unit {0})
record_cache event = λ e. (ok tt, record e { metrics = count_cache event e.metrics })

unfoldable pub cache_status : World → JobRow → Option String → Task (Unit {0})
cache_status w job none = returns (ok tt)
cache_status w job (some event) = status w job "CACHE" (field "event" (str event) end)

unfoldable pub set_up_cache : World → JobRow → String → BuildPlan → Task CachePrepareResult
set_up_cache w job project_root plan = do
  site_id ← returns (required_str job.payload "site_id")
  enabled ← returns (cache_enabled job.payload)
  prepared ← call (
      w.tools.prepare_site_cache site_id plan.package_manager project_root
        (enabled && not (str_eq plan.package_manager "none")))
  wait w (w.tools.prune_cache site_id)
  record_cache prepared.event
  cache_status w job prepared.event
  returns (ok prepared)

-- `run_container`, and the log lines that it publishes.
unfoldable pub after_logs :
    World → JobRow → Result Fault ContainerResult × List (String × String) → Task ContainerResult
after_logs w job (r, lines) = log_all w job lines >> returns r

unfoldable pub run_build : World → JobRow → DockerRunSpec → Task ContainerResult
run_build w job spec =
    λ e. let e' = pause w e in after_logs w job (w.tools.run_container spec e') e'

abbrev is_code : ℕ → ExitCode → Bool
is_code n (exited c) = c == n
is_code n _ = false

unfoldable pub check_result : World → ContainerResult → Result Fault (Unit {0})
check_result w r =
    if r.cancelled
    then err (build_error "CANCELLED" "CANCELLED" "Build was cancelled")
    else if r.timed_out
    then err (build_error "EXEC_TIMEOUT" "TIMEOUT" "Build exceeded timeout")
    else if is_code 137 r.exit_code
    then err (
        build_error "EXEC_OOM" "EXEC_OOM"
          "Build container was killed after exceeding its memory limit")
    else if not (is_code 0 r.exit_code)
    then err (
        build_error "USER_BUILD_FAILED" "CONTAINER_EXIT"
          (join "Build container exited with code " (w.tools.exit_text r.exit_code)))
    else ok tt

unfoldable pub build_project : World → JobRow → String × BuildPlan → Task (Unit {0})
build_project w job (project_root, plan) = do
  image ← pull w job plan
  limits ← returns (resource_limits w.limits job.payload)
  prepared ← set_up_cache w job project_root plan
  status w job "BUILDING" (to_job_payload_fields plan)
  secret_env ← fetch_secret_env w job
  result ← run_build w job (record {
    image = image;
    project_root = project_root;
    command = combined_command plan.install_command plan.build_command;
    build_manifest = build_manifest w plan job.attempt_id project_root;
    cache_mounts = prepared.mounts;
    timeout_seconds = limits.timeout_seconds;
    memory_limit = limits.memory;
    cpu_limit = limits.cpus;
    pids_limit = limits.pids_limit;
    secret_env = secret_env;
  })
  seconds_metric w job "build.seconds"
  returns (check_result w result)
