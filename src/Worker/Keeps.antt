-- ===== src/Worker/Keeps.antt =====
-- What `execute_job` of src/build_engine/agent/job_loop.py may do to the table of the attempts.
use build_engine.Prelude.{String, ◌≡◌, refl, Bool, Option, none, some, List, subst, sym, arith}
use build_engine.Result.{Result, ok, err}
use build_engine.Queue.Rows.{JobRow}
use build_engine.Queue.Life.{Evolves, start}
use build_engine.Queue.Life.Operations.{transition-Evolves}
use build_engine.Queue.Transition.{Move, transition}
use build_engine.Agent.Leases.{QueueLease}
use build_engine.Worker.{
  Fault, build, upload, project, cache, docker, agent, other, Engine, ◌>>=◌, returns, call,
  after_task,
}
use build_engine.Worker.Tools.{World, BuildPlan, DockerRunSpec, ContainerResult, on_store, pause}
use build_engine.Worker.Build.{
  prepare, check, pull, set_up_cache, record_cache, cache_status, fetch_secret_env, after_logs,
  run_build, build_project,
}
use build_engine.Worker.Execute.{
  ensured, deliver, succeed, run_attempt, count_fault, finish_attempt, execute_job, clean_up,
}
use build_engine.Worker.Quiet.{
  Steps-trans, attempts_of, IsQuiet, returns-IsQuiet, quiet_calls, on_store-IsQuiet, AreOthersQuiet,
  pause-Steps,
}

check-IsQuiet : (b : Bool) (x : Fault) → IsQuiet (check b x)
unfolding check
check-IsQuiet b x = returns-IsQuiet _

record_cache-IsQuiet : (event : Option String) → IsQuiet (record_cache event)
unfolding record_cache
record_cache-IsQuiet event = record { at = λ e v. start }

ruleset calls = (quiet_calls, check-IsQuiet, record_cache-IsQuiet)

module _ (w : World) (others : AreOthersQuiet w) where
  pub prepare-IsQuiet : (job : JobRow) → IsQuiet (prepare w job)
  unfolding prepare
  prepare-IsQuiet job = search calls depth 15 fits 4000

  pull-IsQuiet : (job : JobRow) (plan : BuildPlan) → IsQuiet (pull w job plan)
  unfolding pull
  pull-IsQuiet job plan = search calls

  cache_status-IsQuiet : (job : JobRow) (event : Option String) → IsQuiet (cache_status w job event)
  unfolding cache_status
  cache_status-IsQuiet job none = search calls
  cache_status-IsQuiet job (some event) = search calls

  set_up_cache-IsQuiet :
      (job : JobRow) (root : String) (plan : BuildPlan) → IsQuiet (set_up_cache w job root plan)
  unfolding set_up_cache
  set_up_cache-IsQuiet job root plan = search (calls, cache_status-IsQuiet) depth 9

  fetch_secret_env-IsQuiet : (job : JobRow) → IsQuiet (fetch_secret_env w job)
  unfolding fetch_secret_env
  fetch_secret_env-IsQuiet job = search calls

  after_logs-IsQuiet :
      (job : JobRow) (o : Result Fault ContainerResult × List (String × String))
      → IsQuiet (after_logs w job o)
  unfolding after_logs
  after_logs-IsQuiet job (r, lines) = search calls

  run_build-IsQuiet : (job : JobRow) (spec : DockerRunSpec) → IsQuiet (run_build w job spec)
  unfolding run_build
  run_build-IsQuiet job spec = record {
    at = λ e.
        Steps-trans e (pause w e) (run_build w job spec e).1 (pause-Steps w others e)
          ((after_logs-IsQuiet job (w.tools.run_container spec (pause w e))).at (pause w e));
  }

  pub build_project-IsQuiet :
      (job : JobRow) (prepared : String × BuildPlan) → IsQuiet (build_project w job prepared)
  unfolding build_project
  build_project-IsQuiet job (root, plan) =
      search
        (calls, pull-IsQuiet, set_up_cache-IsQuiet, fetch_secret_env-IsQuiet, run_build-IsQuiet)
        depth 12 fits 4000

  pub ensured-IsQuiet : (l : QueueLease) → IsQuiet (ensured l)
  unfolding ensured
  ensured-IsQuiet l = record { at = λ e v. start }

  pub deliver-IsQuiet : (job : JobRow) → IsQuiet (deliver w job)
  unfolding deliver
  deliver-IsQuiet job = search calls depth 14 fits 4000

  pub transition-IsQuiet : (m : Move) → IsQuiet (on_store w (λ now. transition now m))
  transition-IsQuiet m = on_store-IsQuiet w _ (λ now s v. transition-Evolves now m s)

  succeed-IsQuiet : (l : QueueLease) → IsQuiet (succeed w l)
  unfolding succeed
  succeed-IsQuiet l = search (calls, transition-IsQuiet)

  pub run_attempt-IsQuiet : (l : QueueLease) → IsQuiet (run_attempt w l)
  unfolding run_attempt
  run_attempt-IsQuiet l =
      search
        (
          calls, prepare-IsQuiet, build_project-IsQuiet, ensured-IsQuiet, deliver-IsQuiet,
          succeed-IsQuiet,
        )
        depth 9

  count_fault-attempts : (x : Fault) (e : Engine) → attempts_of (count_fault x e) ≡ attempts_of e
  unfolding count_fault
  count_fault-attempts (docker name text) e = refl
  count_fault-attempts (build x) e = refl
  count_fault-attempts (upload x) e = refl
  count_fault-attempts (project name x) e = refl
  count_fault-attempts (cache name x) e = refl
  count_fault-attempts (agent x) e = refl
  count_fault-attempts (other x) e = refl

  pub finish_attempt-attempts :
      (job : JobRow) (o : Result Fault (Unit {0}) × Engine)
      → attempts_of (finish_attempt w job o).1 ≡ attempts_of o.1
  unfolding finish_attempt clean_up call ◌>>=◌ after_task returns
  finish_attempt-attempts job (ok v, e) = refl
  finish_attempt-attempts job (err x, e) = ground (arith, count_fault-attempts x e)

  with_attempt-IsQuiet :
      (l : QueueLease) → IsQuiet (λ e. finish_attempt w l.job (run_attempt w l e))
  with_attempt-IsQuiet l = record {
    at = λ e v.
        subst (Evolves (attempts_of e)) (sym (finish_attempt-attempts l.job (run_attempt w l e)))
          ((run_attempt-IsQuiet l).at e v);
  }

  pub execute_job-IsQuiet : (l : QueueLease) → IsQuiet (execute_job w l)
  unfolding execute_job
  execute_job-IsQuiet l = search (calls, with_attempt-IsQuiet)
