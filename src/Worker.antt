-- ===== src/Worker.antt =====
-- The workers of src/build_engine/agent/job_loop.py: what they share, and the tasks that they run.
-- A task is a coroutine of the event loop: it may raise, and leaves the state that all tasks share.
pub mod Payload
pub mod Limits
pub mod Tools
pub mod Events
pub mod Build
pub mod Execute
pub mod Round
pub mod Quiet
pub mod Keeps
pub mod Rounds
pub mod Finishes
pub mod Settles
use build_engine.Prelude.{ℕ, ◌+◌, String, Option}
use build_engine.Result.{Result, ok, err}
use build_engine.Errors.{AgentError}
use build_engine.Metrics.{Collector}
use build_engine.Agent.Uplink.{Uplink}

-- `BuildExecutionError`
pub record BuildExecutionError : Type 0 where
  pub error_class : String
  pub error_code : String
  pub message : String

-- What a task raises, as far as the workers tell it apart. `project`, `cache` and `docker` hold the
-- name of the exception's class and its text; `project` is an ArtifactError, a DetectionError or a
-- WorkspaceError.
pub data Fault : Type 0 where
  build : BuildExecutionError → Fault
  upload : String → Fault
  project cache docker : String → String → Fault
  agent : AgentError → Fault
  other : String → Fault

-- The uplink with the queue, the metrics if there are any, and the number of calls made so far, at
-- which clocks, ids and the outside world are read.
pub record Engine : Type 0 where
  pub uplink : Uplink
  pub metrics : Option Collector
  pub moment : ℕ

abbrev pub Task : Type 0 → Type 0
Task A = Engine → Result Fault A × Engine

abbrev pub later : Engine → Engine
later e = record e { moment = e.moment + 1 }

unfoldable pub after_task :
    {A B : Type 0} → Result Fault A × Engine → (A → Task B) → Result Fault B × Engine
after_task (err x, e) next = (err x, e)
after_task (ok a, e) next = next a e

infixl 5 ◌>>=◌ ◌>>◌
unfoldable pub ◌>>=◌ : {A B : Type 0} → Task A → (A → Task B) → Task B
m >>= next = λ e. after_task (m e) next

abbrev pub ◌>>◌ : {B : Type 0} → Task (Unit {0}) → Task B → Task B
first >> second = first >>= λ _. second

-- A call that depends on nothing but its arguments.
unfoldable pub returns : {A : Type 0} → Result Fault A → Task A
returns r = λ e. (r, e)

-- A call of code outside the loop, which reads the world as it is then.
unfoldable pub call : {A : Type 0} → (ℕ → Result Fault A) → Task A
call f = λ e. (f e.moment, later e)

unfoldable pub quietly : Result Fault (Unit {0}) × Engine → Result Fault (Unit {0}) × Engine
quietly (r, e) = (ok tt, e)

-- `with contextlib.suppress(Exception)`
unfoldable pub suppress : Task (Unit {0}) → Task (Unit {0})
suppress m = λ e. quietly (m e)
