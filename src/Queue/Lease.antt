-- ===== src/Queue/Lease.antt =====
-- Leases: `acquire_lease` and `refresh_lease` of src/build_engine/queue/store.py. `token` is the
-- value of `secrets.token_urlsafe(24)`.
pub mod Loop
pub mod Grant
pub mod Acquired
use build_engine.Prelude.{
  ℕ, zero, suc, ◌+◌, ◌-◌, ◌*◌, String, Bool, true, false, ◌&&◌, ◌||◌, Option, none, some, List, leb,
  ◌==◌, length, if◌then◌else◌,
}
use build_engine.Result.{ok, err}
use build_engine.Table.{find, select, update, count, first_by}
use build_engine.Queue.Rows.{
  queued, leased, cancelled, JobRow, Store, not_reloaded, lease_not_owned, out_of_fuel, is_live,
  same_state, column_is, given_is, has_id, has_ids, before,
}
use build_engine.Queue.Store.{Outcome, with_transient_payload}

-- A number of seconds that may be negative: `pos n` is n, `negsuc n` is -(n + 1).
pub data ℤ : Type 0 where
  pos negsuc : ℕ → ℤ

-- `now + timedelta(seconds=timeout)`. A time before the epoch is taken for the epoch: a lease that
-- ends there has expired whenever `now` is.
abbrev pub later_by : ℕ → ℤ → ℕ
later_by now (pos n) = now + n * 1000
later_by now (negsuc n) = now - (n + 1) * 1000

-- lease_expires_at <= now
abbrev pub has_expired : ℕ → Option ℕ → Bool
has_expired now none = false
has_expired now (some t) = leb t now

abbrev pub is_eligible : ℕ → JobRow → Bool
is_eligible now r =
    same_state r.state queued || (is_live r.state && has_expired now r.lease_expires_at)

abbrev pub next_eligible : ℕ → List JobRow → Option JobRow
next_eligible now jobs = first_by before (select (is_eligible now) jobs)

abbrev pub cancel_row : ℕ → JobRow → JobRow
cancel_row now r = record r {
  state = cancelled;
  lease_owner = none;
  lease_token = none;
  lease_expires_at = none;
  cancel_requested = false;
  updated_at = now;
}

-- The `while True` loop: the row that it breaks with, and the table that it leaves.
unfoldable pub acquire_loop : ℕ → ℕ → List JobRow → Option (Option JobRow × List JobRow)
acquire_loop zero now jobs = none
acquire_loop (suc fuel) now jobs = elim (next_eligible now jobs) [
  | none ↦ some (none, jobs)
  | some row ↦ elim row.cancel_requested [
    | true ↦ acquire_loop fuel now (update (has_id row.attempt_id) (cancel_row now) jobs)
    | false ↦ some (some row, jobs)
  ]
]

pub record LeaseRequest : Type 0 where
  pub owner : String
  pub visibility_timeout_seconds : ℤ
  pub token : String
  pub now : ℕ

abbrev pub expires_at : LeaseRequest → ℕ
expires_at q = later_by q.now q.visibility_timeout_seconds

abbrev pub lease_row : LeaseRequest → JobRow → JobRow
lease_row q r = record r {
  state = leased;
  lease_owner = some q.owner;
  lease_token = some q.token;
  lease_expires_at = some (expires_at q);
  attempts = r.attempts + 1;
  updated_at = q.now;
}

reload_lease : Store → Option JobRow → Outcome (Option JobRow)
reload_lease s none = (err not_reloaded, s)
reload_lease s (some row) = (ok (some (with_transient_payload s row)), s)

unfoldable pub take_lease :
    LeaseRequest → Store → Option (Option JobRow × List JobRow) → Outcome (Option JobRow)
unfolding reload_lease
take_lease q s none = (err out_of_fuel, s)
take_lease q s (some (none, jobs)) = (ok none, record s { jobs = jobs })
take_lease q s (some (some row, jobs)) =
    let s' : Store = record s { jobs = update (has_id row.attempt_id) (lease_row q) jobs } in
    reload_lease s' (find (has_ids row.build_job_id row.attempt_id) s'.jobs)

unfoldable pub acquire_lease : LeaseRequest → Store → Outcome (Option JobRow)
acquire_lease q s = take_lease q s (acquire_loop (suc (length s.jobs)) q.now s.jobs)

abbrev pub refresh_applies : String → String → Option String → JobRow → Bool
refresh_applies attempt_id owner token r =
    has_id attempt_id r
    && column_is r.lease_owner owner
    && given_is token r.lease_token
    && is_live r.state

abbrev pub refresh_row : ℕ → ℤ → JobRow → JobRow
refresh_row now timeout r = record r {
  lease_expires_at = some (later_by now timeout);
  updated_at = now;
}

reload_refreshed : Store → Option JobRow → Outcome JobRow
reload_refreshed s none = (err not_reloaded, s)
reload_refreshed s (some row) = (ok (with_transient_payload s row), s)

-- The statement commits by itself, so the store changes also where the row count is refused.
unfoldable pub refresh_lease : ℕ → ℤ → String → String → Option String → Store → Outcome JobRow
unfolding reload_refreshed
refresh_lease now timeout attempt_id owner token s =
    let applies = refresh_applies attempt_id owner token in
    let s' : Store = record s { jobs = update applies (refresh_row now timeout) s.jobs } in
    if count applies s.jobs == 1
    then reload_refreshed s' (find (has_id attempt_id) s'.jobs)
    else (err lease_not_owned, s')
