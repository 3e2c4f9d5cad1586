-- ===== src/Worker/Tools.antt =====
-- The interface of src/build_engine/agent/job_loop.py to the executor, the build plans, the clocks
-- and the other tasks. Paths are texts, and the workspace of an attempt is named by its id.
use build_engine.Prelude.{ℕ, String, Bool, Option, none, some, List}
use build_engine.Result.{Result, ok, err}
use build_engine.Errors.{AgentError}
use build_engine.Json.{Json, Fields, end, field, str, null}
use build_engine.Agent.Uplink.{Session, publish_attempt_event, store_of, with_store}
use build_engine.Protocol.Envelope.{Envelope}
use build_engine.Queue.Rows.{JobRow, Store, QueueError}
use build_engine.Queue.Store.{Outcome}
use build_engine.Agent.Uplink.{Uplink}
use build_engine.Worker.{Fault, agent, Engine, Task, later}
use build_engine.Worker.Payload.{LocalLimits}
use build_engine.Errors.{queue}
use build_engine.Executor.Cache.{CachePrepareResult}

-- What the loop reads of a `BuildPlan`.
pub record BuildPlan : Type 0 where
  pub framework_id : String
  pub package_manager : String
  pub install_command : String
  pub build_command : String
  pub output_dir : Option String
  pub detected_output_dir : Option String
  pub image : String
  pub compatible : Bool
  pub guidance : List Fields

abbrev text_or_null : Option String → Json
text_or_null none = null
text_or_null (some t) = str t

-- `to_job_payload_fields`
abbrev pub to_job_payload_fields : BuildPlan → Fields
to_job_payload_fields p = field "framework_id" (str p.framework_id) (
    field "package_manager" (str p.package_manager)
      (field "detected_output_dir" (text_or_null p.detected_output_dir) end))

-- What the loop sets of it.
pub record DockerRunSpec : Type 0 where
  pub image : String
  pub project_root : String
  pub command : String
  pub build_manifest : Fields
  pub cache_mounts : List (String × String)
  pub timeout_seconds : ℕ
  pub memory_limit : Option String
  pub cpu_limit : Option (ℕ × ℕ)
  pub pids_limit : ℕ
  pub secret_env : Fields

-- A negative exit code is that of a process that a signal ended.
pub data ExitCode : Type 0 where
  exited signalled : ℕ → ExitCode

pub record ContainerResult : Type 0 where
  pub exit_code : ExitCode
  pub timed_out : Bool
  pub cancelled : Bool

-- What the loop reads of it.
pub record ArtifactPackage : Type 0 where
  pub sha256 : String
  pub size_bytes : ℕ

-- The executor's calls. Each is given the moment at which it is made; `fetch_attempt_secrets` is none
-- where it raises, and `run_container` comes with what the container logged, as stream and text.
pub record Tools : Type 0 where
  pub create_workspace : String → ℕ → Result Fault (Unit {0})
  pub download_source : String → String → String → Option ℕ → ℕ → Result Fault (Unit {0})
  pub extract_source : String → ℕ → Result Fault (Unit {0})
  pub resolve_project_root : String → Option String → ℕ → Result Fault String
  pub plan_build : String → Option String → ℕ → Result Fault BuildPlan
  pub guidance_json : List Fields → String
  pub resolve_builder_image : String → ℕ → Result Fault String
  pub pull_image : String → ℕ → Result Fault (Unit {0})
  pub prepare_site_cache : String → String → String → Bool → ℕ → Result Fault CachePrepareResult
  pub prune_cache : String → ℕ → Result Fault (Unit {0})
  pub relative_to_source : String → String → Option String
  pub fetch_attempt_secrets : String → JobRow → ℕ → Option Fields
  pub run_container : DockerRunSpec → Engine → Result Fault ContainerResult × List (String × String)
  pub exit_text : ExitCode → String
  pub package_output : String → ℕ → Result Fault ArtifactPackage
  pub request_upload_url : String → JobRow → ArtifactPackage → ℕ → Result Fault String
  pub upload : String → ArtifactPackage → ℕ → Result Fault (Unit {0})
  pub cleanup_workspace : String → Bool → ℕ → Result Fault (Unit {0})

-- What a worker is given. `others` is what the other tasks do while this one waits, `error_text` the
-- text of an exception, and `seconds` the time measured at a moment.
pub record World : Type 0 where
  pub session : ℕ → Session
  pub others : Engine → Engine
  pub token : ℕ → String
  pub seconds : ℕ → Json
  pub error_text : AgentError → String
  pub stopped : ℕ → Bool
  pub limits : LocalLimits
  pub backend_url : Option String
  pub lease_seconds : ℕ
  pub retain_failed_workspaces : Bool
  pub tools : Tools

-- `await`: the other tasks go on.
abbrev pub pause : World → Engine → Engine
pause w e = w.others (later e)

unfoldable pub wait : {A : Type 0} → World → (ℕ → Result Fault A) → Task A
wait w f = λ e. let e' = pause w e in (f e'.moment, e')

unfoldable pub published :
    Engine → Result AgentError Envelope × Uplink → Result Fault (Unit {0}) × Engine
published e (err x, u) = (err (agent x), record e { uplink = u })
published e (ok _, u) = (ok tt, record e { uplink = u })

-- `publisher.publish_attempt_event`
unfoldable pub publish : World → JobRow → String → Fields → Task (Unit {0})
publish w job message_type payload = λ e.
    let e' = pause w e in
    published e' (
      publish_attempt_event (w.session e'.moment) message_type payload job.build_job_id
        job.attempt_id e'.uplink)

abbrev store_fault : {A : Type 0} → Result QueueError A → Result Fault A
store_fault (ok a) = ok a
store_fault (err x) = err (agent (queue x))

unfoldable pub stored : {A : Type 0} → Engine → Outcome A → Result Fault A × Engine
stored e (r, s) = (store_fault r, record (later e) { uplink = with_store s e.uplink })

-- A call of the store; no task runs between it and the next.
unfoldable pub on_store : {A : Type 0} → World → (ℕ → Store → Outcome A) → Task A
on_store w f = λ e. stored e (f (w.session e.moment).now (store_of e.uplink))
