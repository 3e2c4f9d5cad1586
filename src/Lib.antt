-- ===== src/Lib.antt =====
-- A verification library for the build engine: the agent that takes build assignments from a backend
-- over a websocket, keeps them in a durable queue and reports what happens to them.
--
-- The parts, and where they are modelled:
--
-- - src/build_engine/queue/store.py, `SQLiteQueueStore`. Queue/Rows has the rows of the tables and the
--   errors, Queue/Store the operations that enqueue, read, cancel and retire, Queue/Lease `acquire_lease`
--   and `refresh_lease`, Queue/Transition `transition` and `record_executor_crash`, and Queue/Crashes
--   src/build_engine/queue/dlq.py. Queue/Life states the life cycle of an attempt as steps of a row and
--   of the table; Queue/Life/Operations and Queue/Life/Acquire take the operations apart into those steps. Queue/Fencing,
--   Queue/Moves and Queue/Secrets are about leases, `transition` and `enqueue`.
-- - src/build_engine/queue/store.py, `SQLiteEventOutbox`. Outbox has the event
--   spool and Outbox/Resend its replay; Outbox/Limits, Outbox/Sequence, Outbox/Append, Outbox/Numbers,
--   Outbox/Replay and Outbox/Retention are about them.
-- - src/build_engine/agent/protocol.py. Protocol/Envelope, Protocol/Validate and Protocol/Frames.
-- - History: sequences of calls of the queue and the outbox, which share the table `jobs`.
--   History/Deleted follows one attempt until it is deleted, History/Laws is about the whole
--   store, and History/Sequenced about its events and their cursors.
-- - src/build_engine/queue/handlers.py, src/build_engine/queue/leases.py and
--   src/build_engine/agent/uplink.py. Agent/Commands has the command handlers, Agent/Leases the leases
--   that a worker holds, Agent/Uplink the welcome, publishing and replay, Agent/Dispatch `_handle_frame`
--   and the handlers of the messages, Agent/Backoff the reconnect delays. The uplink's calls change the
--   queue only through the handlers and the event spool.
-- - src/build_engine/metrics/collector.py. Metrics.
-- - src/build_engine/detect/package_json.py, src/build_engine/detect/lockfiles.py and
--   src/build_engine/detect/framework.py. Detect/PackageJson and Detect/Lockfiles have the first two,
--   Detect/Framework the registry and the detection, Detect/Plan `plan_build`; Detect/Certified and
--   Detect/Plan/Runnable are about them.
-- - src/build_engine/agent/job_loop.py. Worker has the tasks and the state that they share, Worker/Payload
--   the checks of the payload, Worker/Tools the interface to the executor and to the other tasks,
--   Worker/Events what is published, Worker/Build and Worker/Execute `execute_job`, and Worker/Round
--   `_worker` and `_refresh_lease`. Worker/Limits, Worker/Quiet, Worker/Keeps, Worker/Rounds,
--   Worker/Finishes and Worker/Settles are about them. A worker changes the queue through the store and
--   through the events that it publishes with the uplink.
-- - src/build_engine/executor/stream.py: Executor/Stream, and Executor/Stream/Frames about it.
--   src/build_engine/executor/cache.py: Executor/Cache, Executor/Cache/Prepare and Executor/Cache/Prune, and
--   Executor/Cache/Prepared, Executor/Cache/Pruned and Executor/Cache/Refined about them.
--   src/build_engine/executor/docker_runner.py and src/build_engine/executor/network.py: Executor/Docker has the images and
--   the arguments of a container, Executor/Docker/EnvFile the file of its secrets and Executor/Docker/Process
--   the waiting; Executor/Docker/Pinned and Executor/Docker/Secrets are about them.
--   `download_source` of src/build_engine/executor/workspace.py: Executor/Source, and Executor/Source/Verified.
-- - Table, Json, Ident, Result and Errors are what these parts share: SQL statements on a list of rows,
--   JSON values, UUID texts, calls that raise.
-- - Examples holds concrete runs.
--
-- State and operations. The database is the record `Store`: each table is the list of its rows in
-- `rowid` order, and a statement is a function of that list. An operation returns its result or its
-- error and the store that it leaves. The calls of `SQLiteQueueStore` that write run in a transaction or
-- write in a single statement. `append` does not: its connection commits each statement by itself, so `append`
-- is the call that carries all of them out, and `append_interrupted` and `move_cursor` are its INSERT and
-- its UPDATE alone. A history is a sequence of calls and of these statements, `prune_terminal` included;
-- the deletions of one `prune` are taken together. The uplink and the workers publish with
-- whole calls of `append`. A violated constraint is the error `integrity`, which
-- is no `QueueError`. `now`, lease tokens and message ids are arguments. A time column is a number of
-- milliseconds, where the source writes UTC text of fixed width, whose order is the same; the protocol's
-- clock has microseconds. A JSON object is the list of its items, whose order carries no meaning.
-- `json.dumps`, `json.loads`, UTF-8 decoding and `datetime.fromisoformat` are the fields of the
-- parameter `Codec`; a theorem that needs a law of one of them has the law as a hypothesis.
--
-- Fuel. `acquire_loop` gets one round more than the table has rows, since each round cancels an
-- eligible row, which is not eligible again, and `prune_loop` one more than the spool has events, since
-- each round deletes one; so neither runs out, and the error `out_of_fuel` has no counterpart.
--
-- The uplink. A `Session` holds what a call is given: the configuration, the clocks, the id that `uuid4`
-- returns for each attempt, whether the websocket takes a message, and the outcome of `reset_cache`,
-- which Executor/Cache/Prepare models on its own. The drain marker file is a flag, and a project directory the test which
-- of its files are there; `shlex.split`, `str.split`, `str.strip`,
-- `_node_major_satisfies` and the regular expression of `_build_targets_docs` are parameters. Delays are whole seconds.
--
-- The workers. A task is a function of the state `Engine`, which holds the uplink with the queue and the
-- metrics; it returns or raises, and leaves a state. At each `await` the parameter `others` says what
-- the other tasks do: the other workers, the lease refresh, the uplink. The calls of the executor are
-- the fields of `Tools`, each given the moment at which it is made; the clocks, tokens and sessions are
-- read at moments too. The cancellation of a task by asyncio, which is no `Exception`, is left out, and
-- so is `run_worker_pool`, which only starts the workers. `worker` takes the number of rounds to run.
--
-- The executor. A log text is the list of its code points, and the fuel of the loop that cuts it into
-- frames is its length, since each frame takes a code point. A cache directory is the list of the
-- directories of its sites, each with its files, their sizes and times. White space and alphanumeric
-- characters, as Python's `re` and `str` class them, are parameters; the waiting loop is given what each of its
-- turns sees, and a download what the server answers.
--
-- Not modelled: the SQLite connection, file permissions and schema migration; the websocket, HTTP and
-- Docker calls; the rest of the executor, which extracts, packages and uploads archives; the
-- ranges of Node versions, the configuration and the command line.
pub mod Prelude
pub mod Result
pub mod Json
pub mod Ident
pub mod Table
pub mod Worker
pub mod Executor
pub mod Protocol
pub mod Queue
pub mod Errors
pub mod Outbox
pub mod History
pub mod Examples
pub mod Agent
pub mod Metrics
pub mod Detect
