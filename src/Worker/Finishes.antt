-- ===== src/Worker/Finishes.antt =====
-- What a build that `execute_job` of src/build_engine/agent/job_loop.py ends without an error leaves.
use build_engine.Prelude.{ℕ, String, ◌≡◌, refl, ap, ◌∙◌, some, arith}
use build_engine.Result.{Result, ok, err}
use build_engine.Queue.Rows.{JobState, succeeded, JobRow, Store, state_of}
use build_engine.Queue.Keys.{row_of}
use build_engine.Queue.Transition.{move_row, transition}
use build_engine.Queue.Moves.{transition-IsAllowed, transition-row}
use build_engine.Queue.Life.{Evolves}
use build_engine.Queue.Life.Table.{IsValid, Evolves-IsValid, Evolves-row, RowSteps-IsFinal}
use build_engine.Agent.Leases.{QueueLease}
use build_engine.Agent.Uplink.{store_of}
use build_engine.Worker.{Fault, Engine, Task, after_task, ◌>>=◌, returns, call}
use build_engine.Worker.Tools.{World, on_store, stored}
use build_engine.Worker.Execute.{
  success, succeed, run_attempt, execute_job, finish_attempt, clean_up,
}
use build_engine.Worker.Quiet.{attempts_of, IsQuiet, AreOthersQuiet, call-IsQuiet, quiet_calls}
use build_engine.Worker.Keeps.{
  prepare-IsQuiet, build_project-IsQuiet, ensured-IsQuiet, deliver-IsQuiet, transition-IsQuiet,
  finish_attempt-attempts,
}
use build_engine.Worker.Settles.{on_store-attempts}
use build_engine.Queue.Store.{Outcome}

-- What holds of the state, and of what was done, whenever a task returns.
pub record Achieves {A : Type 0} (Q : Engine → Type 0) (m : Task A) : Type 0 where
  pub at : (e : Engine) (v : A) → IsValid (attempts_of e) → (m e).0 ≡ ok v → Q (m e).1

module _ {A B : Type 0} (Q : Engine → Type 0) where
  after_task-Achieves :
      (o : Result Fault A × Engine) (next : A → Task B) (v : B)
      → IsValid (attempts_of o.1)
      → ((a : A) → o.0 ≡ ok a → Achieves Q (next a))
      → (after_task o next).0 ≡ ok v
      → Q (after_task o next).1
  unfolding after_task
  after_task-Achieves (err x, e) next v valid rest returned = absurd (cc)
  after_task-Achieves (ok a, e) next v valid rest returned = (rest a refl).at e v valid returned

  pub >>=-Achieves :
      (m : Task A) (next : A → Task B)
      → IsQuiet m
      → ((a : A) → Achieves Q (next a))
      → Achieves Q (m >>= next)
  unfolding ◌>>=◌
  >>=-Achieves m next quiet rest = record {
    at = λ e v valid returned.
        after_task-Achieves (m e) next v (Evolves-IsValid valid (quiet.at e valid)) (λ a _. rest a)
          returned;
  }

  after_task-achieved :
      (o : Result Fault A × Engine) (next : A → Task B) (v : B)
      → IsValid (attempts_of o.1)
      → ((a : A) → o.0 ≡ ok a → Q o.1)
      → ((a : A) → IsQuiet (next a))
      → ((e e' : Engine) → Q e → Evolves (attempts_of e) (attempts_of e') → Q e')
      → (after_task o next).0 ≡ ok v
      → Q (after_task o next).1
  unfolding after_task
  after_task-achieved (err x, e) next v valid first rest stable returned = absurd (cc)
  after_task-achieved (ok a, e) next v valid first rest stable returned =
      stable e (next a e).1 (first a refl) ((rest a).at e valid)

  -- What the first task achieves stays, where the steps of the life cycle cannot undo it.
  pub >>=-achieved :
      (m : Task A) (next : A → Task B)
      → IsQuiet m
      → Achieves Q m
      → ((a : A) → IsQuiet (next a))
      → ((e e' : Engine) → Q e → Evolves (attempts_of e) (attempts_of e') → Q e')
      → Achieves Q (m >>= next)
  unfolding ◌>>=◌
  >>=-achieved m next quiet first rest stable = record {
    at = λ e v valid returned.
        after_task-achieved (m e) next v (Evolves-IsValid valid (quiet.at e valid))
          (λ a done. first.at e a valid done) rest stable returned;
  }

store_fault-ok :
    {A : Type 0} (w : World) (f : ℕ → Store → Outcome A) (e : Engine) (v : A)
    → (on_store w f e).0 ≡ ok v
    → (f (w.session e.moment).now (store_of e.uplink)).0 ≡ ok v
unfolding on_store stored
store_fault-ok w f e v returned = grind arith

-- The attempt has succeeded.
abbrev pub HasSucceeded : String → Engine → Type 0
HasSucceeded a e = (r : JobRow) × (row_of a (attempts_of e) ≡ some r) × (r.state ≡ succeeded)

HasSucceeded-stays :
    (a : String) (e e' : Engine)
    → HasSucceeded a e
    → Evolves (attempts_of e) (attempts_of e')
    → HasSucceeded a e'
HasSucceeded-stays a e e' (r, at, done) steps =
    let (r', after, path) = Evolves-row a r steps at in
    (r', after, (RowSteps-IsFinal (rw done refl) path).same_end ∙ done)

named_success : (target : JobState) → state_of "SUCCEEDED" ≡ some target → target ≡ succeeded
unfolding state_of
named_success target named = cc

finish_attempt-ok :
    (w : World) (job : JobRow) (o : Result Fault (Unit {0}) × Engine) (v : Unit {0})
    → (finish_attempt w job o).0 ≡ ok v
    → o.0 ≡ ok tt
unfolding finish_attempt clean_up ◌>>=◌ after_task returns call
finish_attempt-ok w job (ok u, e) v returned = refl
finish_attempt-ok w job (err x, e) v returned = ground arith

module _ (w : World) (others : AreOthersQuiet w) (l : QueueLease) where
  success-Achieves :
      Achieves (HasSucceeded l.job.attempt_id) (on_store w (λ now. transition now (success l)))
  success-Achieves = record {
    at = λ e job valid returned.
        let now = (w.session e.moment).now in
        let m = success l in
        let moved_ok = store_fault-ok w (λ n. transition n m) e job returned in
        let (target, r, k) =
          transition-IsAllowed now m (store_of e.uplink) job valid.keyed refl moved_ok in
        let moved = transition-row now m target (store_of e.uplink) r k in
        (
          move_row now m target r,
          ap (row_of l.job.attempt_id) (on_store-attempts w (λ n. transition n m) e) ∙ moved,
          named_success target k.named,
        );
  }

  succeed-Achieves : Achieves (HasSucceeded l.job.attempt_id) (succeed w l)
  unfolding succeed
  succeed-Achieves =
      >>=-achieved _ _ _ (transition-IsQuiet w others (success l)) success-Achieves
        (λ job. search quiet_calls) (HasSucceeded-stays l.job.attempt_id)

  run_attempt-Achieves : Achieves (HasSucceeded l.job.attempt_id) (run_attempt w l)
  unfolding run_attempt
  run_attempt-Achieves = >>=-Achieves _ _ _ (prepare-IsQuiet w others l.job) λ prepared.
      >>=-Achieves _ _ _ (build_project-IsQuiet w others l.job prepared) λ _.
        >>=-Achieves _ _ _ (ensured-IsQuiet w others l)
          λ _. >>=-Achieves _ _ _ (deliver-IsQuiet w others l.job) λ _. succeed-Achieves

  with_attempt-Achieves :
      Achieves (HasSucceeded l.job.attempt_id) (λ e. finish_attempt w l.job (run_attempt w l e))
  with_attempt-Achieves = record {
    at = λ e v valid returned.
        let o = run_attempt w l e in
        let (r, at, done) =
          run_attempt-Achieves.at e tt valid (finish_attempt-ok w l.job o v returned) in
        (r, ap (row_of l.job.attempt_id) (finish_attempt-attempts w others l.job o) ∙ at, done);
  }

  -- From a valid store, where `execute_job` returns, the attempt is stored as succeeded, whatever the
  -- executor did and whatever steps of the life cycle the other tasks took meanwhile.
  pub execute_job-HasSucceeded :
      (e : Engine)
      → IsValid (attempts_of e)
      → (execute_job w l e).0 ≡ ok tt
      → HasSucceeded l.job.attempt_id (execute_job w l e).1
  unfolding execute_job
  execute_job-HasSucceeded e valid returned =
      (>>=-Achieves _ _ _ (call-IsQuiet _) (λ _. with_attempt-Achieves)).at e tt valid returned
