-- ===== src/Queue/Transition.antt =====
-- State changes of an attempt: `transition` and `record_executor_crash` of
-- src/build_engine/queue/store.py, and `_LEGAL_PREVIOUS_STATES` there.
use build_engine.Prelude.{
  ℕ, String, Bool, true, false, not, ◌&&◌, ◌||◌, Option, none, some, List, [], ◌∷◌, ◌++◌, leb, any,
  ◌==◌, str_eq, is_some, if◌then◌else◌,
}
use build_engine.Result.{ok, err}
use build_engine.Table.{find, update, count}
use build_engine.Queue.Rows.{
  JobState, queued, leased, running, succeeded, failed, cancelled, timed_out, JobRow, DeadLetter,
  Store, not_reloaded, unknown_attempt, invalid_state, unexpected_state, other_worker, stale_token,
  illegal_transition, state_changed, state_of, state_name, same_state, is_terminal, is_live,
  given_is, has_id,
}
use build_engine.Queue.Store.{Outcome, with_transient_payload}

-- `legal_previous target current`: `current in _LEGAL_PREVIOUS_STATES[target]`.
abbrev pub legal_previous : JobState → JobState → Bool
legal_previous queued leased = true
legal_previous queued running = true
legal_previous leased queued = true
legal_previous running leased = true
legal_previous succeeded running = true
legal_previous failed queued = true
legal_previous failed leased = true
legal_previous failed running = true
legal_previous cancelled queued = true
legal_previous cancelled leased = true
legal_previous cancelled running = true
legal_previous timed_out queued = true
legal_previous timed_out leased = true
legal_previous timed_out running = true
legal_previous _ _ = false

-- The keyword arguments of `transition`.
pub record Move : Type 0 where
  pub attempt_id : String
  pub state : String
  pub error : Option String
  pub expected_state : Option String
  pub lease_owner : Option String
  pub lease_token : Option String

-- `terminal` clears the lease and the cancellation flag.
abbrev pub move_row : ℕ → Move → JobState → JobRow → JobRow
move_row now m target r = record r {
  state = target;
  error = m.error;
  lease_owner = if is_terminal target then none else r.lease_owner;
  lease_expires_at = if is_terminal target then none else r.lease_expires_at;
  lease_token = if is_terminal target then none else r.lease_token;
  cancel_requested = if is_terminal target then false else r.cancel_requested;
  updated_at = now;
}

abbrev pub move_applies : Move → JobState → JobRow → Bool
move_applies m current r =
    has_id m.attempt_id r
    && same_state r.state current
    && given_is m.lease_owner r.lease_owner
    && given_is m.lease_token r.lease_token

-- An exception rolls the transaction back: the store stays as it was.
reload_moved : Store → Store → Option JobRow → Outcome JobRow
reload_moved s s' none = (err not_reloaded, s)
reload_moved s s' (some row) = (ok (with_transient_payload s' row), s')

unfoldable pub commit_move : ℕ → Move → JobState → JobRow → Store → Outcome JobRow
unfolding reload_moved
commit_move now m target current s =
    let applies = move_applies m current.state in
    let s' : Store = record s { jobs = update applies (move_row now m target) s.jobs } in
    if count applies s.jobs == 1
    then reload_moved s s' (find (has_id m.attempt_id) s'.jobs)
    else (err state_changed, s)

unfoldable pub move_current : ℕ → Move → JobState → JobRow → Store → Outcome JobRow
move_current now m target current s =
    if not (given_is m.expected_state (some (state_name current.state)))
    then (err unexpected_state, s)
    else if not (given_is m.lease_owner current.lease_owner)
    then (err other_worker, s)
    else if not (given_is m.lease_token current.lease_token)
    then (err stale_token, s)
    else if same_state current.state target
    then if is_some m.expected_state || is_some m.lease_owner || is_some m.lease_token
      then (err illegal_transition, s)
      else (ok (with_transient_payload s current), s)
    else if not (legal_previous target current.state)
    then (err illegal_transition, s)
    else commit_move now m target current s

unfoldable pub transition : ℕ → Move → Store → Outcome JobRow
transition now m s = elim (state_of m.state) [
  | none ↦ (err invalid_state, s)
  | some target ↦ elim (find (has_id m.attempt_id) s.jobs) [
    | none ↦ (err unknown_attempt, s)
    | some current ↦ move_current now m target current s
  ]
]

abbrev pub max_local_crashes : ℕ
max_local_crashes = 3

pub record Crash : Type 0 where
  pub attempt_id : String
  pub error : String
  pub lease_owner : Option String
  pub lease_token : Option String

abbrev pub crash_applies : Crash → JobRow → Bool
crash_applies c r =
    has_id c.attempt_id r
    && is_live r.state
    && given_is c.lease_owner r.lease_owner
    && given_is c.lease_token r.lease_token

abbrev pub crash_row : ℕ → Crash → JobState → JobRow → JobRow
crash_row now c target r = record r {
  state = target;
  error = some c.error;
  lease_owner = none;
  lease_token = none;
  lease_expires_at = none;
  cancel_requested = false;
  updated_at = now;
}

abbrev pub dead_letter : ℕ → Crash → JobRow → DeadLetter
dead_letter now c r = record {
  build_job_id = r.build_job_id;
  attempt_id = r.attempt_id;
  payload = r.payload;
  error = c.error;
  attempts = r.attempts;
  created_at = now;
}

-- INSERT OR IGNORE INTO dlq.
unfoldable pub insert_dead_letter : DeadLetter → List DeadLetter → List DeadLetter
insert_dead_letter d dlq =
    if any (λ e. str_eq e.attempt_id d.attempt_id) dlq then dlq else dlq ++ d ∷ []

reload_crashed : Store → Option JobRow → Outcome JobRow
reload_crashed s none = (err not_reloaded, s)
reload_crashed s (some row) = (ok (with_transient_payload s row), s)

-- The store after the crash of `row`.
unfoldable pub crashed : ℕ → Crash → JobRow → Store → Store
crashed now c row s =
    if leb max_local_crashes row.attempts
    then record s {
      jobs = update (crash_applies c) (crash_row now c failed) s.jobs;
      dlq = insert_dead_letter (dead_letter now c row) s.dlq;
    }
    else record s { jobs = update (crash_applies c) (crash_row now c queued) s.jobs }

unfoldable pub record_executor_crash : ℕ → Crash → Store → Outcome JobRow
unfolding reload_crashed
record_executor_crash now c s = elim (find (crash_applies c) s.jobs) [
  | none ↦ (err unknown_attempt, s)
  | some row ↦
      let s' = crashed now c row s in reload_crashed s' (find (has_id c.attempt_id) s'.jobs)
]
