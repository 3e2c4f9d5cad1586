-- ===== src/Worker/Settles.antt =====
-- The end of a round of `_worker` in src/build_engine/agent/job_loop.py: the `except` clauses.
use build_engine.Prelude.{
  ℕ, ◌≡◌, refl, ap, ◌∙◌, true, false, none, some, inl, inr, Bool-cases, arith, eq_refl, str_eq,
  if◌then◌else◌,
}
use build_engine.Result.{Result, err}
use build_engine.Queue.Rows.{
  JobState, running, failed, timed_out, cancelled, JobRow, Store, QueueError, is_terminal, state_of,
  state_name, has_id,
}
use build_engine.Queue.Keys.{row_of, row_of_id, find-has_ids}
use build_engine.Table.Laws.{In-find}
use build_engine.Queue.Store.{get_job, with_transient_payload}
use build_engine.Queue.Transition.{move_row, transition}
use build_engine.Queue.Moves.{IsAllowed, transition-row}
use build_engine.Queue.Crashes.{with_transient_payload-state}
use build_engine.Queue.Life.Table.{IsValid, Evolves-IsValid, Evolves-row, RowSteps-IsFinal}
use build_engine.Agent.Leases.{QueueLease}
use build_engine.Agent.Uplink.{store_of}
use build_engine.Worker.{build, BuildExecutionError, Engine}
use build_engine.Worker.Tools.{World, stored, on_store}
use build_engine.Worker.Quiet.{attempts_of, AreOthersQuiet}
use build_engine.Worker.Round.{record_failure, settle, stored_job, failure, failure_state}
use build_engine.Worker.Rounds.{record_failure-Steps, report_failure-Steps}

pub on_store-attempts :
    {A : Type 0} (w : World) (f : ℕ → Store → Result QueueError A × Store) (e : Engine)
    → attempts_of (on_store w f e).1 ≡ (f (w.session e.moment).now (store_of e.uplink)).1.jobs
unfolding on_store stored
on_store-attempts w f e = refl

-- A worker that executes an attempt: the store says that it is running, under this lease.
pub record IsHeld (l : QueueLease) (e : Engine) (r : JobRow) : Type 0 where
  pub valid : IsValid (attempts_of e)
  pub was : row_of l.job.attempt_id (attempts_of e) ≡ some r
  pub build_id : r.build_job_id ≡ l.job.build_job_id
  pub is_running : r.state ≡ running
  pub owner : r.lease_owner ≡ some l.owner
  pub token : r.lease_token ≡ some l.token

-- The state in which a failure leaves the attempt.
abbrev pub end_of : BuildExecutionError → JobState
end_of x =
    if str_eq x.error_class "EXEC_TIMEOUT"
    then timed_out
    else if str_eq x.error_class "CANCELLED"
    then cancelled
    else failed

-- An attempt that ended with that failure.
pub record IsOver (x : BuildExecutionError) (r : JobRow) : Type 0 where
  pub ended : r.state ≡ end_of x
  pub explained : r.error ≡ some x.message
  pub no_owner : r.lease_owner ≡ none
  pub no_token : r.lease_token ≡ none

failure_state-end_of : (x : BuildExecutionError) → state_of (failure_state x) ≡ some (end_of x)
unfolding state_of
failure_state-end_of x = elim (Bool-cases (str_eq x.error_class "EXEC_TIMEOUT")) [
  | inl t ↦ rw t refl
  | inr n ↦ rw n (elim (Bool-cases (str_eq x.error_class "CANCELLED")) [
    | inl c ↦ rw c refl
    | inr f ↦ rw f refl
  ])
]

end_of-terminal : (x : BuildExecutionError) → is_terminal (end_of x) ≡ true
end_of-terminal x = ground arith

module _ (w : World) (l : QueueLease) (x : BuildExecutionError) (e : Engine) (r : JobRow)
    (k : IsHeld l e r) where
  stored_row : stored_job l e ≡ some (with_transient_payload (store_of e.uplink) r)
  unfolding get_job
  stored_row =
      let own = row_of_id l.job.attempt_id (attempts_of e) r k.was in
      let found =
        find-has_ids (attempts_of e) r k.valid.keyed
          (In-find (has_id l.job.attempt_id) (attempts_of e) r k.was) in
      ground (arith, found, own, k.build_id)

  is_open : is_terminal (with_transient_payload (store_of e.uplink) r).state ≡ false
  is_open = ap is_terminal (with_transient_payload-state (store_of e.uplink) r ∙ k.is_running)

  abbrev current : JobRow
  current = with_transient_payload (store_of e.uplink) r

  now : ℕ
  now = (w.session e.moment).now

  allowed : IsAllowed (failure l x current) (end_of x) (store_of e.uplink) r
  allowed = record {
    keyed = k.valid.keyed;
    named = failure_state-end_of x;
    was = k.was;
    expected =
        rw (with_transient_payload-state (store_of e.uplink) r) (eq_refl (state_name r.state));
    owner = rw k.owner (eq_refl l.owner);
    token = rw k.token (eq_refl l.token);
    legal = ground (arith, k.is_running);
  }

  recorded_row :
      row_of l.job.attempt_id (attempts_of (record_failure w l x (stored_job l e) e))
      ≡ some (move_row now (failure l x current) (end_of x) r)
  unfolding record_failure now
  recorded_row =
      let moved =
        transition-row now (failure l x current) (end_of x) (store_of e.uplink) r allowed in
      rw stored_row (
        rw is_open (
          ap (row_of l.job.attempt_id)
            (on_store-attempts w (λ n. transition n (failure l x current)) e)
          ∙ moved))

  -- Settling a failed build ends the attempt for good, if the worker still holds it: whatever the
  -- reports to the backend come to, and whatever steps of the life cycle the other tasks take
  -- meanwhile, the attempt is stored as timed out, cancelled or failed, as the class of the error
  -- says, with the message of the error and without a lease.
  pub settle-IsOver :
      AreOthersQuiet w
      → (r' : JobRow) × (row_of l.job.attempt_id (attempts_of (settle w l (err (build x), e)).1)
          ≡ some r')
        × IsOver x r'
  unfolding settle
  settle-IsOver others =
      let recorded = record_failure w l x (stored_job l e) e in
      let steps = record_failure-Steps w others l x (stored_job l e) e k.valid in
      let (r', after, path) =
        Evolves-row l.job.attempt_id (move_row now (failure l x current) (end_of x) r)
          (report_failure-Steps w others l x recorded (Evolves-IsValid k.valid steps))
          recorded_row in
      let final = RowSteps-IsFinal (end_of-terminal x) path in
      (
        r',
        after,
        record {
          ended = final.same_end;
          explained = final.same_error;
          no_owner = final.same_owner ∙ rw (end_of-terminal x) refl;
          no_token = final.same_token ∙ rw (end_of-terminal x) refl;
        },
      )
