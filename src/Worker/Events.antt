-- ===== src/Worker/Events.antt =====
-- What the workers of src/build_engine/agent/job_loop.py publish about an attempt.
use build_engine.Prelude.{String, Option, none, some, List, [], ◌∷◌}
use build_engine.Json.{Json, Fields, end, field, str, put}
use build_engine.Queue.Rows.{JobRow}
use build_engine.Worker.{BuildExecutionError, Task, suppress, returns, ◌>>◌}
use build_engine.Worker.Tools.{World, publish}
use build_engine.Result.{ok}

-- `payload.update(extra)`
unfoldable pub merge : Fields → Fields → Fields
merge payload end = payload
merge payload (field k v more) = merge (put k v payload) more

abbrev pub no_fields : Fields
no_fields = end

abbrev pub status : World → JobRow → String → Fields → Task (Unit {0})
status w job phase extra =
    publish w job "attempt.status" (merge (field "phase" (str phase) end) extra)

abbrev pub log : World → JobRow → String → String → Task (Unit {0})
log w job stream data_ =
    suppress
      (publish w job "attempt.log" (field "stream" (str stream) (field "data" (str data_) end)))

unfoldable pub log_all : World → JobRow → List (String × String) → Task (Unit {0})
log_all w job [] = returns (ok tt)
log_all w job ((stream, data_) ∷ more) = log w job stream data_ >> log_all w job more

abbrev pub metric : World → JobRow → String → Json → Task (Unit {0})
metric w job name value =
    publish w job "attempt.status"
      (field "phase" (str "METRIC") (field "name" (str name) (field "value" value end)))

-- The value is computed before the call waits.
unfoldable pub seconds_metric : World → JobRow → String → Task (Unit {0})
seconds_metric w job name = λ e. metric w job name (w.seconds e.moment) e

abbrev with_error : Option BuildExecutionError → Fields
with_error none = end
with_error (some x) =
    field "error_class" (str x.error_class)
      (field "error_code" (str x.error_code) (field "error_message" (str x.message) end))

abbrev pub ack_fields : JobRow → String → Option BuildExecutionError → Fields
ack_fields job state error =
    field "build_job_id" (str job.build_job_id)
      (field "attempt_id" (str job.attempt_id) (field "state" (str state) (with_error error)))

abbrev pub ack : World → JobRow → String → Option BuildExecutionError → Task (Unit {0})
ack w job state error = publish w job "attempt.status" (ack_fields job state error)

abbrev pub publish_error : World → JobRow → BuildExecutionError → Task (Unit {0})
publish_error w job x = publish w job "error" (
    field "error_class" (str x.error_class)
      (field "error_code" (str x.error_code) (field "message" (str x.message) end)))

abbrev pub publish_safely : World → JobRow → BuildExecutionError → Task (Unit {0})
publish_safely w job x = suppress (publish_error w job x)

abbrev pub ack_safely : World → JobRow → String → BuildExecutionError → Task (Unit {0})
ack_safely w job state x = suppress (ack w job state (some x))
