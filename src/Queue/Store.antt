-- ===== src/Queue/Store.antt =====
-- Enqueueing and reading: `SQLiteQueueStore.enqueue`, `get_job`, `jobs_for_build`,
-- `is_current_attempt`, `request_cancel`, `is_cancel_requested`, `queue_depth`, `prune_terminal`
-- in src/build_engine/queue/store.py. `now` is the value of `_utcnow()`.
use build_engine.Prelude.{
  ℕ, ◌*◌, ◌+◌, String, Bool, true, false, not, ◌&&◌, Option, none, some, List, [], ◌∷◌, ◌++◌, map,
  ltb, any, str_eq, str_mem, if◌then◌else◌,
}
use build_engine.Result.{Result, ok, err, ◌>>=◌}
use build_engine.Json.{Fields, str, get, without}
use build_engine.Ident.{is_uuid}
use build_engine.Table.{find, select, update, delete, count, order_by}
use build_engine.Queue.Rows.{
  queued, JobRow, Store, QueueError, payload_required, payload_not_uuid, not_reloaded,
  unknown_attempt, is_terminal, same_state, has_id, has_ids, before,
}

-- An operation returns its result, or raises, and leaves a store.
abbrev pub Outcome : Type 0 → Type 0
Outcome A = Result QueueError A × Store

pub record EnqueueResult : Type 0 where
  pub job : JobRow
  pub inserted : Bool

required_payload_str : Fields → String → Result QueueError String
required_payload_str payload key = elim (get key payload) [
  | some (str value) ↦ if str_eq value "" then err (payload_required key) else ok value
  | _ ↦ err (payload_required key)
]

unfoldable pub required_payload_uuid : Fields → String → Result QueueError String
unfolding required_payload_str
required_payload_uuid payload key = do
  value ← required_payload_str payload key
  if is_uuid value then ok value else err (payload_not_uuid key)

abbrev pub is_transient_key : String → Bool
is_transient_key key = str_mem key ("secrets" ∷ "source_download_url" ∷ "secret_env" ∷ [])

unfoldable pub durable_payload : Fields → Fields
durable_payload payload = without is_transient_key payload

-- `dict.get` and `dict.setdefault` on `_transient_payloads`.
unfoldable pub transient_get : String → List (String × Fields) → Option Fields
transient_get k [] = none
transient_get k ((j, p) ∷ m) = if str_eq j k then some p else transient_get k m

unfoldable pub set_default : String → Fields → List (String × Fields) → List (String × Fields)
set_default k p [] = (k, p) ∷ []
set_default k p ((j, q) ∷ m) = if str_eq j k then (j, q) ∷ m else (j, q) ∷ set_default k p m

unfoldable pub with_transient_payload : Store → JobRow → JobRow
with_transient_payload s job = elim (transient_get job.attempt_id s.transient) [
  | none ↦ job
  | some payload ↦ record job { payload = payload }
]

abbrev pub new_row : ℕ → String → String → Fields → JobRow
new_row now build_job_id attempt_id payload = record {
  build_job_id = build_job_id;
  attempt_id = attempt_id;
  payload = payload;
  state = queued;
  lease_owner = none;
  lease_token = none;
  lease_expires_at = none;
  attempts = 0;
  sequence_cursor = 0;
  created_at = now;
  updated_at = now;
  error = none;
  cancel_requested = false;
}

-- INSERT OR IGNORE: the primary key is the attempt.
unfoldable pub insert_job : JobRow → List JobRow → List JobRow × Bool
insert_job row jobs =
    if any (has_id row.attempt_id) jobs then (jobs, false) else (jobs ++ row ∷ [], true)

reloaded : Store → Option JobRow → Bool → Outcome EnqueueResult
reloaded s none inserted = (err not_reloaded, s)
reloaded s (some row) inserted =
    (ok (record { job = with_transient_payload s row; inserted = inserted }), s)

unfoldable pub enqueue_ids : ℕ → Fields → String → String → Store → Outcome EnqueueResult
unfolding reloaded insert_job
enqueue_ids now payload build_job_id attempt_id s =
    let row = new_row now build_job_id attempt_id (durable_payload payload) in
    let (jobs, inserted) = insert_job row s.jobs in
    let s' : Store = record s {
      jobs = jobs;
      transient = set_default attempt_id payload s.transient;
    } in
    reloaded s' (find (has_ids build_job_id attempt_id) jobs) inserted

unfoldable pub assignment_ids : Fields → Result QueueError (String × String)
assignment_ids payload = do
  build_job_id ← required_payload_uuid payload "build_job_id"
  attempt_id ← required_payload_uuid payload "attempt_id"
  ok (build_job_id, attempt_id)

unfoldable pub enqueue_checked :
    ℕ → Fields → Store → Result QueueError (String × String) → Outcome EnqueueResult
enqueue_checked now payload s (err e) = (err e, s)
enqueue_checked now payload s (ok (build_job_id, attempt_id)) =
    enqueue_ids now payload build_job_id attempt_id s

unfoldable pub enqueue : ℕ → Fields → Store → Outcome EnqueueResult
enqueue now payload s = enqueue_checked now payload s (assignment_ids payload)

unfoldable pub get_job : String → String → Store → Option JobRow
get_job build_job_id attempt_id s = elim (find (has_ids build_job_id attempt_id) s.jobs) [
  | none ↦ none
  | some row ↦ some (with_transient_payload s row)
]

unfoldable pub jobs_for_build : String → Store → List JobRow
jobs_for_build build_job_id s =
    map (with_transient_payload s)
      (order_by before (select (λ r. str_eq r.build_job_id build_job_id) s.jobs))

-- The rows behind the first one with these keys: those of a greater `rowid`.
unfoldable pub rows_behind : String → String → List JobRow → Option (List JobRow)
rows_behind build_job_id attempt_id [] = none
rows_behind build_job_id attempt_id (r ∷ rs) =
    if has_ids build_job_id attempt_id r then some rs else rows_behind build_job_id attempt_id rs

unfoldable pub is_current_attempt : String → String → Store → Result QueueError Bool
is_current_attempt build_job_id attempt_id s = elim (rows_behind build_job_id attempt_id s.jobs) [
  | none ↦ err unknown_attempt
  | some newer ↦ ok (not (any (λ r. str_eq r.build_job_id build_job_id) newer))
]

-- The two UPDATE statements of `request_cancel`, with and without `attempt_id`.
abbrev pub cancel_applies : String → Option String → JobRow → Bool
cancel_applies build_job_id none r = str_eq r.build_job_id build_job_id && not (is_terminal r.state)
cancel_applies build_job_id (some attempt_id) r =
    has_ids build_job_id attempt_id r && not (is_terminal r.state)

abbrev pub request_row : ℕ → JobRow → JobRow
request_row now r = record r { cancel_requested = true; updated_at = now }

unfoldable pub request_cancel : ℕ → String → Option String → Store → List String × Store
request_cancel now build_job_id attempt_id s =
    let s' : Store = record s {
      jobs = update (cancel_applies build_job_id attempt_id) (request_row now) s.jobs;
    } in
    elim attempt_id [
      | none ↦ (map (λ r. r.attempt_id) (select (cancel_applies build_job_id none) s.jobs), s')
      | some a ↦ (a ∷ [], s')
    ]

unfoldable pub is_cancel_requested : String → Store → Bool
is_cancel_requested attempt_id s = elim (find (has_id attempt_id) s.jobs) [
  | none ↦ false
  | some r ↦ r.cancel_requested
]

unfoldable pub queue_depth : Store → ℕ
queue_depth s = count (λ r. same_state r.state queued) s.jobs

abbrev pub day_ms : ℕ
day_ms = 86_400_000

-- `updated_at < now - retention_days`, written so that it holds before the epoch too.
abbrev pub is_retired : ℕ → ℕ → JobRow → Bool
is_retired now retention_days r =
    is_terminal r.state && ltb (r.updated_at + retention_days * day_ms) now

-- The deletion cascades to the events of the deleted attempts.
unfoldable pub prune_terminal : ℕ → ℕ → Store → ℕ × Store
prune_terminal now retention_days s = (
  count (is_retired now retention_days) s.jobs,
  record s {
    jobs = delete (is_retired now retention_days) s.jobs;
    events =
        delete (λ e. any (λ r. is_retired now retention_days r && has_id e.attempt_id r) s.jobs)
          s.events;
  },
)
