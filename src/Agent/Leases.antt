-- ===== src/Agent/Leases.antt =====
-- src/build_engine/queue/leases.py.
use build_engine.Prelude.{ℕ, String, Option, none, some}
use build_engine.Result.{Result, ok, err}
use build_engine.Queue.Rows.{JobRow, Store, QueueError}
use build_engine.Queue.Store.{Outcome}
use build_engine.Queue.Lease.{ℤ, LeaseRequest, acquire_lease, refresh_lease}

pub record QueueLease : Type 0 where
  pub owner : String
  pub job : JobRow
  pub visibility_timeout_seconds : ℤ
  pub token : String

-- `QueueLease.refresh`
unfoldable pub refresh_queue_lease : ℕ → QueueLease → Store → Outcome JobRow
refresh_queue_lease now l s =
    refresh_lease now l.visibility_timeout_seconds l.job.attempt_id l.owner (some l.token) s

-- `job.lease_token or ""`
abbrev token_or_empty : Option String → String
token_or_empty none = ""
token_or_empty (some t) = t

abbrev pub queue_lease : LeaseRequest → JobRow → QueueLease
queue_lease q job = record {
  owner = q.owner;
  job = job;
  visibility_timeout_seconds = q.visibility_timeout_seconds;
  token = token_or_empty job.lease_token;
}

abbrev lease_of :
    LeaseRequest → Result QueueError (Option JobRow) → Result QueueError (Option QueueLease)
lease_of q (err e) = err e
lease_of q (ok none) = ok none
lease_of q (ok (some job)) = ok (some (queue_lease q job))

unfoldable pub acquire_queue_lease : LeaseRequest → Store → Outcome (Option QueueLease)
acquire_queue_lease q s = let (job, s') = acquire_lease q s in (lease_of q job, s')
