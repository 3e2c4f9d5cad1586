-- ===== src/Worker/Rounds.antt =====
-- What the rounds of `_worker` in src/build_engine/agent/job_loop.py may do to the attempts.
use build_engine.Prelude.{
  ℕ, zero, suc, String, ◌≡◌, Bool, true, false, Option, none, some, inl, inr, Bool-cases,
  if◌then◌else◌,
}
use build_engine.Result.{Result, ok, err}
use build_engine.Queue.Rows.{JobRow, Store, is_terminal, failed, same_state}
use build_engine.Queue.Keys.{row_of}
use build_engine.Queue.Lease.{LeaseRequest}
use build_engine.Queue.Transition.{transition, record_executor_crash}
use build_engine.Queue.Life.{Evolves, start, IsFinal}
use build_engine.Queue.Life.Acquire.{acquire_lease-Evolves}
use build_engine.Queue.Life.Operations.{transition-Evolves, record_executor_crash-Evolves}
use build_engine.Queue.Life.Table.{IsValid, Evolves-IsValid, Evolves-row, RowSteps-IsFinal}
use build_engine.Agent.Leases.{QueueLease, acquire_queue_lease}
use build_engine.Worker.{
  Fault, build, upload, project, cache, docker, agent, other, BuildExecutionError, Engine,
}
use build_engine.Worker.Tools.{World, on_store}
use build_engine.Worker.Events.{publish_safely, ack_safely}
use build_engine.Worker.Execute.{execute_job}
use build_engine.Worker.Keeps.{execute_job-IsQuiet}
use build_engine.Worker.Quiet.{
  Steps, Steps-trans, attempts_of, IsQuiet, on_store-IsQuiet, AreOthersQuiet, pause-Steps,
  >>=-IsQuiet, returns-IsQuiet, suppress-IsQuiet, publish-IsQuiet,
}
use build_engine.Worker.Round.{
  record_failure, report_failure, crash_of, crash_error, report_recovered, recover, settle, begin,
  finish, work_lease, begin_lease, take_work, worker_round, worker, stored_job, failure, starting,
  request, failure_state,
}

acquire_queue_lease-Evolves :
    (q : LeaseRequest) (s : Store)
    → IsValid s.jobs
    → Evolves s.jobs (acquire_queue_lease q s).1.jobs
unfolding acquire_queue_lease
acquire_queue_lease-Evolves q s v = acquire_lease-Evolves q s v

module _ (w : World) (others : AreOthersQuiet w) where
  publish_safely-IsQuiet :
      (job : JobRow) (x : BuildExecutionError) → IsQuiet (publish_safely w job x)
  publish_safely-IsQuiet job x = suppress-IsQuiet _ (publish-IsQuiet w others job _ _)

  ack_safely-IsQuiet :
      (job : JobRow) (state : String) (x : BuildExecutionError) → IsQuiet (ack_safely w job state x)
  ack_safely-IsQuiet job state x = suppress-IsQuiet _ (publish-IsQuiet w others job _ _)

  pub record_failure-Steps :
      (l : QueueLease) (x : BuildExecutionError) (current : Option JobRow) (e : Engine)
      → Steps e (record_failure w l x current e)
  unfolding record_failure
  record_failure-Steps l x none e = λ v. start
  record_failure-Steps l x (some current) e = λ v. elim (Bool-cases (is_terminal current.state)) [
    | inl ended ↦ rw ended start
    | inr open_ ↦ rw open_ (
        (on_store-IsQuiet w (λ now. transition now (failure l x current))
            (λ now s _. transition-Evolves now (failure l x current) s)).at
          e v)
  ]

  pub report_failure-Steps :
      (l : QueueLease) (x : BuildExecutionError) (e : Engine) → Steps e (report_failure w l x e)
  unfolding report_failure
  report_failure-Steps l x e =
      (>>=-IsQuiet _ (λ _. ack_safely w l.job (failure_state x) x) (publish_safely-IsQuiet l.job x)
          (λ _. ack_safely-IsQuiet l.job (failure_state x) x)).at
        e

  report_recovered-Steps :
      (l : QueueLease) (text : String) (r : Result Fault JobRow) (e : Engine)
      → Steps e (report_recovered w l text (r, e)).1
  unfolding report_recovered
  report_recovered-Steps l text (ok job) e =
      let x = crash_error text in
      let told = (publish_safely w l.job x e).1 in
      elim (Bool-cases (same_state job.state failed)) [
        | inl y ↦ rw y (
            Steps-trans e told (ack_safely w l.job "FAILED" x told).1
              ((publish_safely-IsQuiet l.job x).at e)
              ((ack_safely-IsQuiet l.job "FAILED" x).at told))
        | inr n ↦ rw n ((publish_safely-IsQuiet l.job x).at e)
      ]
  report_recovered-Steps l text (err x) e = (publish_safely-IsQuiet l.job (crash_error text)).at e

  recover-Steps : (l : QueueLease) (text : String) (e : Engine) → Steps e (recover w l text e).1
  unfolding recover
  recover-Steps l text e =
      let crash = λ (now : ℕ). record_executor_crash now (crash_of l text) in
      let (r, e') = on_store w crash e in
      Steps-trans e e' (report_recovered w l text (r, e')).1
        ((on_store-IsQuiet w crash
            (λ now s _. record_executor_crash-Evolves now (crash_of l text) s)).at
          e)
        (report_recovered-Steps l text r e')

  recover_open-Steps :
      (l : QueueLease) (text : String) (ended : Bool) (e : Engine)
      → Steps e (if ended then (true, e) else recover w l text e).1
  recover_open-Steps l text true e v = start
  recover_open-Steps l text false e v = recover-Steps l text e v

  settle-Steps :
      (l : QueueLease) (r : Result Fault (Unit {0})) (e : Engine) → Steps e (settle w l (r, e)).1
  unfolding settle
  settle-Steps l (ok _) e = λ v. start
  settle-Steps l (err (build x)) e =
      let recorded = record_failure w l x (stored_job l e) e in
      Steps-trans e recorded (report_failure w l x recorded)
        (record_failure-Steps l x (stored_job l e) e) (report_failure-Steps l x recorded)
  settle-Steps l (err (upload x)) e = recover_open-Steps l _ _ e
  settle-Steps l (err (project name x)) e = recover_open-Steps l _ _ e
  settle-Steps l (err (cache name x)) e = recover_open-Steps l _ _ e
  settle-Steps l (err (docker name x)) e = recover_open-Steps l _ _ e
  settle-Steps l (err (agent x)) e = recover_open-Steps l _ _ e
  settle-Steps l (err (other x)) e = recover_open-Steps l _ _ e

  finish-Steps : (completed : Bool) (e : Engine) → Steps e (finish w (completed, e))
  unfolding finish
  finish-Steps completed e = pause-Steps w others e

  begin-Steps : (e : Engine) → Steps e (begin e)
  unfolding begin
  begin-Steps e v = start

  work_lease-Steps : (l : QueueLease) (e : Engine) → Steps e (work_lease w l e)
  unfolding work_lease
  work_lease-Steps l e =
      let (r, executed) = execute_job w l (begin e) in
      let (completed, settled) = settle w l (r, executed) in
      Steps-trans e executed (finish w (completed, settled))
        (Steps-trans e (begin e) executed (begin-Steps e)
          ((execute_job-IsQuiet w others l).at (begin e)))
        (Steps-trans executed settled (finish w (completed, settled)) (settle-Steps l r executed)
          (finish-Steps completed settled))

  begin_lease-Steps :
      (l : QueueLease) (r : Result Fault JobRow) (e : Engine) → Steps e (begin_lease w l (r, e))
  unfolding begin_lease
  begin_lease-Steps l (err x) e = λ v. start
  begin_lease-Steps l (ok job) e = work_lease-Steps l e

  take_work-Steps :
      (r : Result Fault (Option QueueLease)) (e : Engine) → Steps e (take_work w (r, e)).1
  unfolding take_work
  take_work-Steps (err x) e = λ v. start
  take_work-Steps (ok none) e = pause-Steps w others e
  take_work-Steps (ok (some l)) e =
      let move = λ (now : ℕ). transition now (starting l) in
      let (r, e') = on_store w move e in
      Steps-trans e e' (begin_lease w l (r, e'))
        ((on_store-IsQuiet w move (λ now s _. transition-Evolves now (starting l) s)).at e)
        (begin_lease-Steps l r e')

  pub worker_round-IsQuiet : (owner : String) → IsQuiet (worker_round w owner)
  unfolding worker_round
  worker_round-IsQuiet owner = record {
    at = λ e.
        let acquire = λ (now : ℕ). acquire_queue_lease (request w owner e.moment now) in
        let (r, e') = on_store w acquire e in
        Steps-trans e e' (take_work w (r, e')).1
          ((on_store-IsQuiet w acquire
              (λ now s v. acquire_queue_lease-Evolves (request w owner e.moment now) s v)).at
            e)
          (take_work-Steps r e');
  }

  worker-IsQuiet : (rounds : ℕ) (owner : String) → IsQuiet (worker rounds w owner)
  unfolding worker
  worker-IsQuiet zero owner = returns-IsQuiet _
  worker-IsQuiet (suc rounds) owner = record {
    at = λ e. elim (Bool-cases (w.stopped e.moment)) [
      | inl y ↦ rw y (λ v. start)
      | inr n ↦
          rw n
            ((>>=-IsQuiet _ _ (worker_round-IsQuiet owner) (λ _. worker-IsQuiet rounds owner)).at e)
    ];
  }

  -- The rounds of a worker keep a valid store valid, and no round changes the end of a finished
  -- attempt, whatever the executor returns or raises, as long as the other tasks change the attempts
  -- by steps of the life cycle only.
  pub worker-IsFinal :
      (rounds : ℕ) (owner a : String) (r : JobRow) (e : Engine)
      → IsValid (attempts_of e)
      → row_of a (attempts_of e) ≡ some r
      → is_terminal r.state ≡ true
      → IsValid (attempts_of (worker rounds w owner e).1)
        × ((r' : JobRow) × (row_of a (attempts_of (worker rounds w owner e).1) ≡ some r')
            × IsFinal r r')
  worker-IsFinal rounds owner a r e v at done =
      let steps = (worker-IsQuiet rounds owner).at e v in
      let (r', after, path) = Evolves-row a r steps at in
      (Evolves-IsValid v steps, (r', after, RowSteps-IsFinal done path))
