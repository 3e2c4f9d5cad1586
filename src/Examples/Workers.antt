-- ===== src/Examples/Workers.antt =====
-- Runs of the workers.
use build_engine.Prelude.{◌≡◌, ◌≢◌, refl, true, false, none, some, List, [], ◌∷◌, eq_iff, arith}
use build_engine.Result.{ok, err}
use build_engine.Json.{Fields, end, field, int, str, null, get}
use build_engine.Queue.Rows.{JobRow, running, succeeded}
use build_engine.Queue.Keys.{row_of}
use build_engine.Queue.Store.{new_row}
use build_engine.Queue.Life.Table.{IsValid}
use build_engine.Agent.Leases.{QueueLease}
use build_engine.Agent.Uplink.{Session, Uplink}
use build_engine.Worker.{Engine, BuildExecutionError, build, later}
use build_engine.Worker.Payload.{
  LocalLimits, ResourceLimits, resource_limits, timeout_of, memory_of, cpus_of, pids_of,
}
use build_engine.Worker.Limits.{IsBounded, resource_limits-IsBounded}
use build_engine.Worker.Tools.{World, Tools, exited}
use build_engine.Table.{find, count}
use build_engine.Queue.Life.{IsFinal}
use build_engine.Worker.Quiet.{AreOthersQuiet, attempts_of}
use build_engine.Worker.Round.{settle, worker, worker_round}
use build_engine.Worker.Rounds.{worker_round-IsQuiet, worker-IsFinal}
use build_engine.Queue.Lease.{pos}
use build_engine.Worker.Settles.{IsOver, IsHeld, settle-IsOver}
use build_engine.Worker.Execute.{execute_job}
use build_engine.Worker.Finishes.{HasSucceeded, execute_job-HasSucceeded}
use build_engine.Queue.Life.{start}
use build_engine.Examples.Samples.{
  build_1, attempt_2, waiting, done, two_rows-IsValid, two_rows-IsKeyed, waiting-IsSettled,
  one_text,
}

abbrev tools : Tools
tools = record {
  create_workspace = λ a n. ok tt;
  download_source = λ a url sha size n. ok tt;
  extract_source = λ a n. ok tt;
  resolve_project_root = λ a dir n. ok "src";
  plan_build = λ root framework n. ok (record {
    framework_id = "static";
    package_manager = "none";
    install_command = "";
    build_command = "true";
    output_dir = none;
    detected_output_dir = none;
    image = "node";
    compatible = true;
    guidance = [];
  });
  guidance_json = λ g. "[]";
  resolve_builder_image = λ image n. ok image;
  pull_image = λ image n. ok tt;
  prepare_site_cache =
      λ site manager root enabled n. ok (record { mounts = []; event = none; lockfile = none });
  prune_cache = λ site n. ok tt;
  relative_to_source = λ a root. some ".";
  fetch_attempt_secrets = λ url job n. some end;
  run_container =
      λ spec e. (ok (record { exit_code = exited 0; timed_out = false; cancelled = false }), []);
  exit_text = λ code. "0";
  package_output = λ a n. ok (record { sha256 = "00"; size_bytes = 3 });
  request_upload_url = λ url job artifact n. ok "ticket";
  upload = λ ticket artifact n. ok tt;
  cleanup_workspace = λ a keep n. ok tt;
}

-- The spool holds no event for long, so that each event may have the id of its attempt.
abbrev session : Session
session = record {
  codec = one_text;
  limits = record { max_bytes = 0; retention_days = 7 };
  engine_id = build_1;
  now = 100;
  clock = 1_000;
  message_id = λ a. a;
  sends = true;
  reset = λ site_id. ok tt;
}

abbrev local_limits : LocalLimits
local_limits = record {
  build_timeout_seconds = 600;
  container_cpus = (1, 0);
  to_float = λ n. some (n, 0);
}

abbrev world : World
world = record {
  session = λ n. session;
  others = λ e. e;
  token = λ n. "token-1";
  seconds = λ n. int n;
  error_text = λ x. "";
  stopped = λ n. false;
  limits = local_limits;
  backend_url = some "https://example.com";
  lease_seconds = 120;
  retain_failed_workspaces = false;
  tools = tools;
}

others : AreOthersQuiet world
others = record { go_on = λ e v. start }

abbrev payload : Fields
payload =
    field "source_download_url" (str "https://example.com/source")
      (field "source_sha256" (str "00") (field "site_id" (str "site") end))

abbrev held : JobRow
held = record (new_row 20 build_1 attempt_2 payload) {
  state = running;
  lease_owner = some "worker-1";
  lease_token = some "token-1";
  lease_expires_at = some 5_000;
  attempts = 1;
}

abbrev lease : QueueLease
lease = record {
  owner = "worker-1";
  job = held;
  visibility_timeout_seconds = pos 120;
  token = "token-1";
}

abbrev engine : List JobRow → Engine
engine jobs = record {
  uplink = record {
    handlers = record {
      store = record { jobs = jobs; events = []; dlq = []; transient = [] };
      draining = false;
      marked = false;
      cache_reset_scopes = [];
    };
    connected = true;
    sent = [];
    heartbeat_interval_seconds = 30;
  };
  metrics = none;
  moment = 0;
}

returns_ok : (execute_job world lease (engine (held ∷ []))).0 ≡ ok tt
unfolding execute_job build_engine.Worker.◌>>=◌ build_engine.Worker.after_task
    build_engine.Worker.call build_engine.Worker.Execute.finish_attempt
    build_engine.Worker.Execute.run_attempt build_engine.Worker.Build.prepare
    build_engine.Worker.Tools.publish build_engine.Worker.Tools.published
    build_engine.Agent.Uplink.publish_attempt_event build_engine.Agent.Uplink.spool_envelope
    build_engine.Outbox.next_seq build_engine.Table.find build_engine.Protocol.Frames.new_envelope
    build_engine.Protocol.Validate.validate_envelope build_engine.Protocol.Validate.as_object
    build_engine.Protocol.Validate.validate_fields build_engine.Protocol.Validate.check_keys
    build_engine.Protocol.Validate.all_known build_engine.Json.keys
    build_engine.Protocol.Envelope.to_dict build_engine.Protocol.Validate.none_missing get
    build_engine.Protocol.Validate.is_version build_engine.Protocol.Validate.check_header
    build_engine.Protocol.Validate.require_uuid build_engine.Protocol.Validate.as_text
    build_engine.Ident.is_uuid build_engine.Protocol.Validate.is_allowed
    build_engine.Protocol.Validate.check_time build_engine.Protocol.Validate.parse_timestamp
    build_engine.Protocol.Validate.check_scope build_engine.Protocol.Validate.payload_of
    build_engine.Protocol.Validate.optional_uuid build_engine.Agent.Uplink.after_append
    build_engine.Agent.Uplink.send_published build_engine.Json.put build_engine.Metrics.cache_event
    build_engine.Outbox.append build_engine.Protocol.Validate.log_fits
    build_engine.Protocol.Validate.seq_of build_engine.Queue.Rows.state_of
    build_engine.Queue.Store.get_job build_engine.Queue.Store.is_current_attempt
    build_engine.Queue.Store.rows_behind build_engine.Queue.Store.transient_get
    build_engine.Queue.Store.with_transient_payload build_engine.Queue.Transition.commit_move
    build_engine.Queue.Transition.move_current build_engine.Queue.Transition.transition
    build_engine.Table.count build_engine.Table.update build_engine.Worker.Build.after_logs
    build_engine.Worker.Build.build_project build_engine.Worker.Build.cache_status
    build_engine.Worker.Build.check build_engine.Worker.Build.check_result
    build_engine.Worker.Build.fetch_secret_env build_engine.Worker.Build.pull
    build_engine.Worker.Build.record_cache build_engine.Worker.Build.run_build
    build_engine.Worker.Build.set_up_cache build_engine.Worker.Events.log_all
    build_engine.Worker.Events.merge build_engine.Worker.Events.seconds_metric
    build_engine.Worker.Execute.checked_row build_engine.Worker.Execute.clean_up
    build_engine.Worker.Execute.count_fault build_engine.Worker.Execute.deliver
    build_engine.Worker.Execute.ensure_current_attempt build_engine.Worker.Execute.ensured
    build_engine.Worker.Execute.succeed build_engine.Worker.Execute.translate
    build_engine.Worker.Payload.cache_enabled build_engine.Worker.Payload.combined_command
    build_engine.Worker.Payload.cpus_of build_engine.Worker.Payload.digits_then_unit
    build_engine.Worker.Payload.is_memory build_engine.Worker.Payload.memory_of
    build_engine.Worker.Payload.optional_int build_engine.Worker.Payload.optional_str
    build_engine.Worker.Payload.pids_of build_engine.Worker.Payload.required_str resource_limits
    build_engine.Worker.Payload.timeout_of build_engine.Worker.Tools.on_store
    build_engine.Worker.Tools.stored build_engine.Worker.Tools.wait build_engine.Worker.quietly
    build_engine.Worker.returns build_engine.Worker.suppress build_engine.Protocol.Envelope.to_json
    build_engine.Outbox.append_event build_engine.Outbox.prune build_engine.Outbox.prune_loop
    build_engine.Outbox.event_bytes build_engine.Table.delete build_engine.Outbox.victim
    build_engine.Table.first_by build_engine.Table.select
returns_ok = refl

held-IsValid : IsValid (waiting ∷ held ∷ [])
held-IsValid = record {
  keyed = two_rows-IsKeyed held refl;
  settled = (waiting-IsSettled, (ground arith, tt));
}

one_row-IsValid : IsValid (held ∷ [])
unfolding count
one_row-IsValid = record { keyed = λ a. ground arith; settled = (ground arith, tt) }

execute_job-HasSucceeded_example :
    HasSucceeded attempt_2 (execute_job world lease (engine (held ∷ []))).1
execute_job-HasSucceeded_example =
    execute_job-HasSucceeded world others lease (engine (held ∷ [])) one_row-IsValid returns_ok

second : row_of attempt_2 (attempts_of (engine (waiting ∷ held ∷ []))) ≡ some held
unfolding find
second = refl

finished : row_of attempt_2 (attempts_of (engine (waiting ∷ done ∷ []))) ≡ some done
unfolding find
finished = refl

-- While the worker waits, another one does its rounds.
abbrev shared : World
shared = record world { others = λ e. (worker_round world "worker-2" e).1 }

others_work : AreOthersQuiet shared
others_work = record { go_on = (worker_round-IsQuiet world others "worker-2").at }

worker-IsFinal_example :
    IsValid (attempts_of (worker 2 shared "worker-1" (engine (waiting ∷ done ∷ []))).1)
    × ((r' : JobRow) × (row_of attempt_2
            (attempts_of (worker 2 shared "worker-1" (engine (waiting ∷ done ∷ []))).1)
          ≡ some r')
        × IsFinal done r')
worker-IsFinal_example =
    worker-IsFinal shared others_work 2 "worker-1" attempt_2 done (engine (waiting ∷ done ∷ []))
      two_rows-IsValid finished refl

abbrev out_of_memory : BuildExecutionError
out_of_memory = record {
  error_class = "EXEC_OOM";
  error_code = "EXEC_OOM";
  message = "out of memory";
}

held-IsHeld : IsHeld lease (engine (waiting ∷ held ∷ [])) held
held-IsHeld = record {
  valid = held-IsValid;
  was = second;
  build_id = refl;
  is_running = refl;
  owner = refl;
  token = refl;
}

settle-IsOver_example :
    (r' : JobRow) × (row_of attempt_2 (
        attempts_of
          (settle world lease (err (build out_of_memory), engine (waiting ∷ held ∷ []))).1)
      ≡ some r')
    × IsOver out_of_memory r'
settle-IsOver_example =
    settle-IsOver world lease out_of_memory (engine (waiting ∷ held ∷ [])) held held-IsHeld others

abbrev lost : QueueLease
lost = record lease { token = "token-0" }

not_the_token : held.lease_token ≢ some lost.token
not_the_token same = ground (arith, eq_iff "token-1" "token-0", same)

limited :
    resource_limits local_limits (field "timeout_seconds" (int 60) end)
    ≡ ok (record { timeout_seconds = 60; memory = none; cpus = none; pids_limit = 1_024 })
unfolding resource_limits timeout_of memory_of cpus_of pids_of get
limited = refl

resource_limits-IsBounded_example :
    IsBounded local_limits
      (record { timeout_seconds = 60; memory = none; cpus = none; pids_limit = 1_024 })
resource_limits-IsBounded_example =
    resource_limits-IsBounded local_limits (field "timeout_seconds" (int 60) end) _ limited
