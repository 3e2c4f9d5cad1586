-- ===== src/Queue/Rows.antt =====
-- The rows of the queue database: the tables `jobs`, `events` and `dlq` of `_create_v1_schema`
-- and `JobRecord`, `DeadLetterRecord` in src/build_engine/queue/store.py.
-- A timestamp column holds milliseconds; the source writes the UTC text of fixed width with
-- milliseconds, whose order as text is the order of the times.
use build_engine.Prelude.{
  ℕ, String, Bool, true, false, ◌&&◌, ◌||◌, Option, none, some, List, ltb, ◌==◌, str_eq, str_le,
  if◌then◌else◌,
}
use build_engine.Json.{Fields}

pub data JobState : Type 0 where
  queued leased running succeeded failed cancelled timed_out : JobState

pub record JobRow : Type 0 where
  pub build_job_id : String
  pub attempt_id : String
  pub payload : Fields
  pub state : JobState
  pub lease_owner : Option String
  pub lease_token : Option String
  pub lease_expires_at : Option ℕ
  pub attempts : ℕ
  pub sequence_cursor : ℕ
  pub created_at : ℕ
  pub updated_at : ℕ
  pub error : Option String
  pub cancel_requested : Bool

pub record EventRow : Type 0 where
  pub id : String
  pub attempt_id : String
  pub seq : ℕ
  pub type : String
  pub envelope_json : String
  pub created_at : ℕ

pub record DeadLetter : Type 0 where
  pub build_job_id : String
  pub attempt_id : String
  pub payload : Fields
  pub error : String
  pub attempts : ℕ
  pub created_at : ℕ

pub record Store : Type 0 where
  pub jobs : List JobRow
  pub events : List EventRow
  pub dlq : List DeadLetter
  -- `_transient_payloads`: held in memory only.
  pub transient : List (String × Fields)

pub data QueueError : Type 0 where
  payload_required payload_not_uuid : String → QueueError
  not_reloaded unknown_attempt lease_not_owned invalid_state unexpected_state : QueueError
  other_worker stale_token illegal_transition state_changed : QueueError
  conflicting_event newer_schema out_of_fuel : QueueError

abbrev state_index : JobState → ℕ
state_index queued = 0
state_index leased = 1
state_index running = 2
state_index succeeded = 3
state_index failed = 4
state_index cancelled = 5
state_index timed_out = 6

abbrev pub same_state : JobState → JobState → Bool
same_state a b = state_index a == state_index b

abbrev pub state_name : JobState → String
state_name queued = "QUEUED"
state_name leased = "LEASED"
state_name running = "RUNNING"
state_name succeeded = "SUCCEEDED"
state_name failed = "FAILED"
state_name cancelled = "CANCELLED"
state_name timed_out = "TIMED_OUT"

-- The state of that name, for the membership test on `state`.
unfoldable pub state_of : String → Option JobState
state_of s =
    if str_eq s "QUEUED"
    then some queued
    else if str_eq s "LEASED"
    then some leased
    else if str_eq s "RUNNING"
    then some running
    else if str_eq s "SUCCEEDED"
    then some succeeded
    else if str_eq s "FAILED"
    then some failed
    else if str_eq s "CANCELLED"
    then some cancelled
    else if str_eq s "TIMED_OUT"
    then some timed_out
    else none

-- state IN ('SUCCEEDED', 'FAILED', 'CANCELLED', 'TIMED_OUT')
abbrev pub is_terminal : JobState → Bool
is_terminal succeeded = true
is_terminal failed = true
is_terminal cancelled = true
is_terminal timed_out = true
is_terminal _ = false

-- state IN ('LEASED', 'RUNNING')
abbrev pub is_live : JobState → Bool
is_live leased = true
is_live running = true
is_live _ = false

-- `column = ?`: never true of a NULL column.
abbrev pub column_is : Option String → String → Bool
column_is none x = false
column_is (some c) x = str_eq c x

-- `? IS NULL OR column = ?`.
abbrev pub given_is : Option String → Option String → Bool
given_is none column = true
given_is (some x) column = column_is column x

abbrev pub has_id : String → JobRow → Bool
has_id attempt_id r = str_eq r.attempt_id attempt_id

-- `_job_row`: WHERE build_job_id = ? AND attempt_id = ?
abbrev pub has_ids : String → String → JobRow → Bool
has_ids build_job_id attempt_id r = str_eq r.build_job_id build_job_id && has_id attempt_id r

-- ORDER BY created_at, attempt_id
unfoldable pub before : JobRow → JobRow → Bool
before a b =
    ltb a.created_at b.created_at
    || (a.created_at == b.created_at && str_le a.attempt_id b.attempt_id)
