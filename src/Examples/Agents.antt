-- ===== src/Examples/Agents.antt =====
-- Runs of the uplink, the metrics and the project detection.
use build_engine.Prelude.{String, ◌≡◌, refl, Bool, true, false, none, some, List, [], ◌∷◌, arith}
use build_engine.Result.{ok, err}
use build_engine.Errors.{queue}
use build_engine.Json.{end, field, int, str, obj, get}
use build_engine.Ident.{is_uuid}
use build_engine.Table.{find}
use build_engine.Protocol.Codec.{Codec}
use build_engine.Protocol.Envelope.{Envelope, to_dict, to_json, inbound_message_types}
use build_engine.Protocol.Validate.{is_version, is_allowed, log_fits}
use build_engine.Protocol.Frames.{text, attempt_fields, field_or_payload, both_ids}
use build_engine.Protocol.Frames.Sound.{IsWellFormed}
use build_engine.Protocol.Frames.RoundTrip.{decode_frame-to_json}
use build_engine.Queue.Rows.{JobRow, unknown_attempt}
use build_engine.Queue.Keys.{row_of}
use build_engine.Queue.Life.{IsFinal}
use build_engine.Queue.Life.Table.{IsValid}
use build_engine.Agent.Uplink.{Session, Uplink, text_is, receive_welcome, checked_welcome}
use build_engine.Agent.Welcome.{IsWelcome, receive_welcome-IsWelcome}
use build_engine.Agent.Dispatch.{handle_frame, handle_assign, with_handlers}
use build_engine.Agent.Dispatch.Frames.{handle_frame-IsValid, handle_frame-IsFinal}
use build_engine.Agent.Dispatch.Drained.{handle_assign-draining}
use build_engine.Metrics.{
  new_collector, MetricsCall, starts, finishes, caches, record_calls, snapshot, running_jobs,
  snapshot-running_jobs,
}
use build_engine.Detect.PackageJson.{PackageJson}
use build_engine.Detect.Lockfiles.{
  PackageManagerDetection, npm, fallback, first_lockfile, declared_manager, install_command,
  detect_lockfile, detect_package_manager, install_command-lockfile,
}
use build_engine.Examples.Samples.{
  build_1, attempt_1, attempt_2, waiting, done, two_rows-IsValid, limits, event, one_text,
}

abbrev session : Codec → Session
session codec = record {
  codec = codec;
  limits = limits;
  engine_id = build_1;
  now = 100;
  clock = 1_000;
  message_id = λ a. a;
  sends = true;
  reset = λ site_id. ok tt;
}

abbrev agent : Bool → List JobRow → Uplink
agent marked jobs = record {
  handlers = record {
    store = record { jobs = jobs; events = []; dlq = []; transient = [] };
    draining = false;
    marked = marked;
    cache_reset_scopes = [];
  };
  connected = true;
  sent = [];
  heartbeat_interval_seconds = 30;
}

abbrev two_jobs : Uplink
two_jobs = agent false (waiting ∷ done ∷ [])

handle_frame-IsValid_example :
    IsValid (handle_frame (session one_text) (text "e") two_jobs).1.handlers.store.jobs
handle_frame-IsValid_example =
    handle_frame-IsValid (session one_text) (text "e") two_jobs two_rows-IsValid

second : row_of attempt_2 two_jobs.handlers.store.jobs ≡ some done
unfolding find
second = refl

handle_frame-IsFinal_example :
    (r' : JobRow) × (row_of attempt_2
        (handle_frame (session one_text) (text "e") two_jobs).1.handlers.store.jobs
      ≡ some r')
    × IsFinal done r'
handle_frame-IsFinal_example =
    handle_frame-IsFinal (session one_text) (text "e") two_jobs attempt_2 done second refl

abbrev assigns : Envelope
assigns = record event { type = "job.assign"; build_job_id = some build_1; seq = none }

assigned_ids : attempt_fields assigns ≡ ok (build_1, attempt_1)
unfolding attempt_fields field_or_payload both_ids
assigned_ids = refl

handle_assign-draining_example : handle_assign (session one_text) assigns (agent true []) ≡ (
  err (queue unknown_attempt),
  with_handlers (record (agent true []).handlers { draining = true }) (agent true []),
)
handle_assign-draining_example =
    handle_assign-draining (session one_text) assigns build_1 attempt_1 (agent true []) refl
      assigned_ids (unfold find in refl)

abbrev metrics_calls : List MetricsCall
metrics_calls = starts ∷ starts ∷ caches (some "HIT") ∷ finishes true ∷ []

snapshot-running_jobs_example :
    ((snapshot 5 0 0 (record_calls metrics_calls (new_collector 2))).workers_busy
      ≡ running_jobs 0 metrics_calls)
    × ((snapshot 5 0 0 (record_calls metrics_calls (new_collector 2))).jobs_running
        ≡ running_jobs 0 metrics_calls)
snapshot-running_jobs_example = snapshot-running_jobs 5 0 0 metrics_calls (new_collector 2)

abbrev project : PackageJson
project = record {
  raw = end;
  scripts = [];
  dependencies = ("astro", "4") ∷ [];
  dev_dependencies = [];
  optional_dependencies = [];
  peer_dependencies = [];
  package_manager = none;
  engines_node = none;
}

abbrev bare : String → Bool
bare name = false

abbrev detected : PackageManagerDetection
detected = record { manager = npm; source = fallback; version = none; lockfile_name = none }

undeclared : declared_manager (some project) ≡ none
unfolding declared_manager
undeclared = refl

bare-detected : detect_package_manager bare (some project) ≡ ok detected
unfolding detect_package_manager detect_lockfile first_lockfile declared_manager
bare-detected = refl

install_command-lockfile_example : install_command npm bare ≡ "npm install"
install_command-lockfile_example =
    install_command-lockfile bare (some project) detected undeclared bare-detected refl

abbrev welcome : Envelope
welcome = record event {
  type = "welcome";
  payload = field "engine_id" (str build_1) (field "proto_negotiated" (int 2) end);
  attempt_id = none;
  seq = none;
}

abbrev welcoming : Codec
welcoming = record one_text { loads = λ s. some (obj (to_dict welcome)) }

welcome-IsWellFormed : IsWellFormed welcoming 1_000 inbound_message_types welcome
unfolding is_version is_uuid is_allowed log_fits get
welcome-IsWellFormed = record {
  version = refl;
  id = refl;
  type_allowed = refl;
  time = 1_000;
  time_of = refl;
  not_old = omega arith;
  not_early = omega arith;
  engine = refl;
  build = λ b h. cc;
  attempt = λ a h. cc;
  attempt_of_seq = λ h. cc;
  log_size = λ h. refl;
}

welcome_sent : to_json welcoming welcome ≡ ok "e"
unfolding to_json
welcome_sent = refl

welcome_accepted : (receive_welcome (session welcoming) (some (text "e")) two_jobs).0 ≡ ok welcome
unfolding receive_welcome checked_welcome text_is is_version get
welcome_accepted =
    rw
      (decode_frame-to_json welcoming 1_000 inbound_message_types welcome "e" welcome-IsWellFormed
        welcome_sent refl)
      refl

receive_welcome-IsWelcome_example : IsWelcome (session welcoming) welcome
receive_welcome-IsWelcome_example =
    receive_welcome-IsWelcome (session welcoming) (text "e") two_jobs welcome welcome_accepted
