-- ===== src/Worker/Quiet.antt =====
-- Tasks that change the table of the attempts by steps of the life cycle only: the calls that the
-- tasks of src/build_engine/agent/job_loop.py are made of.
use build_engine.Prelude.{ℕ, String, List, [], ◌∷◌}
use build_engine.Result.{Result, ok, err}
use build_engine.Errors.{AgentError}
use build_engine.Json.{Fields}
use build_engine.Protocol.Envelope.{Envelope}
use build_engine.Queue.Rows.{JobRow, Store}
use build_engine.Queue.Store.{Outcome}
use build_engine.Queue.Life.{Evolves, start, Evolves-trans}
use build_engine.Queue.Life.Table.{IsValid, Evolves-IsValid}
use build_engine.Agent.Uplink.{Uplink}
use build_engine.Agent.Dispatch.Steps.{jobs_of, publish-Evolves}
use build_engine.Worker.{
  Fault, Engine, Task, after_task, ◌>>=◌, returns, call, quietly, suppress, later,
}
use build_engine.Worker.Tools.{World, pause, wait, published, publish, stored, on_store}
use build_engine.Worker.Events.{seconds_metric, log_all}

abbrev pub attempts_of : Engine → List JobRow
attempts_of e = jobs_of e.uplink

abbrev pub Steps : Engine → Engine → Type 0
Steps e e' = IsValid (attempts_of e) → Evolves (attempts_of e) (attempts_of e')

pub Steps-trans : (e x y : Engine) → Steps e x → Steps x y → Steps e y
Steps-trans e x y first second v = Evolves-trans (first v) (second (Evolves-IsValid v (first v)))

pub record IsQuiet {A : Type 0} (m : Task A) : Type 0 where
  pub at : (e : Engine) → Steps e (m e).1

pub returns-IsQuiet : {A : Type 0} (r : Result Fault A) → IsQuiet (returns r)
unfolding returns
returns-IsQuiet r = record { at = λ e v. start }

pub call-IsQuiet : {A : Type 0} (f : ℕ → Result Fault A) → IsQuiet (call f)
unfolding call
call-IsQuiet f = record { at = λ e v. start }

after_task-Steps :
    {A B : Type 0} (e : Engine) (o : Result Fault A × Engine) (next : A → Task B)
    → Steps e o.1
    → ((a : A) → IsQuiet (next a))
    → Steps e (after_task o next).1
unfolding after_task
after_task-Steps e (err x, e') next first rest = first
after_task-Steps e (ok a, e') next first rest =
    Steps-trans e e' (next a e').1 first ((rest a).at e')

pub >>=-IsQuiet :
    {A B : Type 0} (m : Task A) (next : A → Task B)
    → IsQuiet m
    → ((a : A) → IsQuiet (next a))
    → IsQuiet (m >>= next)
unfolding ◌>>=◌
>>=-IsQuiet m next first rest = record { at = λ e. after_task-Steps e (m e) next (first.at e) rest }

quietly-Steps :
    (e : Engine) (o : Result Fault (Unit {0}) × Engine) → Steps e o.1 → Steps e (quietly o).1
unfolding quietly
quietly-Steps e (r, e') steps = steps

pub suppress-IsQuiet : (m : Task (Unit {0})) → IsQuiet m → IsQuiet (suppress m)
unfolding suppress
suppress-IsQuiet m quiet = record { at = λ e. quietly-Steps e (m e) (quiet.at e) }

published-Steps :
    (e e' : Engine) (o : Result AgentError Envelope × Uplink)
    → (IsValid (attempts_of e) → Evolves (attempts_of e) (jobs_of o.1))
    → Steps e (published e' o).1
unfolding published
published-Steps e e' (err x, u) steps = steps
published-Steps e e' (ok _, u) steps = steps

stored-Steps :
    {A : Type 0} (e : Engine) (o : Outcome A)
    → (IsValid (attempts_of e) → Evolves (attempts_of e) o.1.jobs)
    → Steps e (stored e o).1
unfolding stored
stored-Steps e (r, s) steps = steps

pub on_store-IsQuiet :
    {A : Type 0} (w : World) (f : ℕ → Store → Outcome A)
    → ((now : ℕ) (s : Store) → IsValid s.jobs → Evolves s.jobs (f now s).1.jobs)
    → IsQuiet (on_store w f)
unfolding on_store
on_store-IsQuiet w f steps = record {
  at = λ e.
      stored-Steps e (f (w.session e.moment).now e.uplink.handlers.store)
        (steps (w.session e.moment).now e.uplink.handlers.store);
}

-- The other tasks take steps of the life cycle too.
pub record AreOthersQuiet (w : World) : Type 0 where
  pub go_on : (e : Engine) → Steps e (w.others e)

module _ (w : World) (others : AreOthersQuiet w) where
  pub pause-Steps : (e : Engine) → Steps e (pause w e)
  pause-Steps e = others.go_on (later e)

  pub wait-IsQuiet : {A : Type 0} (f : ℕ → Result Fault A) → IsQuiet (wait w f)
  unfolding wait
  wait-IsQuiet f = record { at = pause-Steps }

  pub publish-IsQuiet :
      (job : JobRow) (message_type : String) (payload : Fields)
      → IsQuiet (publish w job message_type payload)
  unfolding publish
  publish-IsQuiet job message_type payload = record {
    at = λ e. published-Steps e (pause w e) _ (λ v. Evolves-trans (pause-Steps e v) (
        publish-Evolves (w.session (pause w e).moment) message_type payload job.build_job_id
          job.attempt_id (pause w e).uplink));
  }

  pub seconds_metric-IsQuiet : (job : JobRow) (name : String) → IsQuiet (seconds_metric w job name)
  unfolding seconds_metric
  seconds_metric-IsQuiet job name = record { at = λ e. (publish-IsQuiet job _ _).at e }

  pub log_all-IsQuiet :
      (job : JobRow) (lines : List (String × String)) → IsQuiet (log_all w job lines)
  unfolding log_all
  log_all-IsQuiet job [] = returns-IsQuiet _
  log_all-IsQuiet job ((stream, text) ∷ more) =
      >>=-IsQuiet _ _ (suppress-IsQuiet _ (publish-IsQuiet job _ _)) (λ _. log_all-IsQuiet job more)

pub ruleset quiet_calls = (
  >>=-IsQuiet, returns-IsQuiet, call-IsQuiet, suppress-IsQuiet, wait-IsQuiet, publish-IsQuiet,
  seconds_metric-IsQuiet, log_all-IsQuiet,
)
