-- ===== src/Lib.antt =====
-- go-base, the Go library of pkg/: a verification of its task queue on Postgres, of the workers that
-- serve the queue, of its encryption and tokens, and of some helpers for names and pages.
--
-- How the parts interact. A queuer (pkg/queue/postgres/queuer.go, `Enqueue`) adds rows to the table
-- `tasks`. A dequeuer (dequeuer.go) takes one with `Dequeue`, which repeats `attemptDequeue`, and
-- follows it with `Heartbeat`, `Finish` and `Fail`, which all go through `updateProgress`. The task
-- worker (pkg/queue/workers/task_worker.go) calls a dequeuer and runs a handler that sends heartbeats
-- over a channel. A scheduler (scheduler.go) keeps the table `schedules`, from which the schedule
-- worker (workers/schedule_worker.go) enqueues tasks. The handlers of pkg/queue/handlers run the tasks:
-- a SQL statement, or an HTTP request through the client of pkg/http/clients. The tables are set up by
-- setup.go, which `initialize` of pkg/db/migrations calls.
--
-- Base: library names, Boolean tests, lists over the native numbers (Base/Tests, Base/Lists), and the
--   `(value, error)` results of Go with `do` (Base/Fallible).
-- Queue: the values of pkg/queue/task.go and the errors of queue.go.
--   Queue/Database: the two tables as lists of rows, what a statement asks of Postgres (`Sql`), and a
--     transaction with its deferred commit or rollback (`with_tx`, `end_tx`).
--   Queue/Queuer: `enqueue`.
--   Queue/Dequeuer: `attempt_dequeue` and its steps; Dequeuer/Wait: `Dequeue` itself, over the events
--     of its `select`; Dequeuer/Race: two attempts that interleave; Taken, Effect, Exclusive and
--     Liveness hold proofs.
--   Queue/Progress: `update_progress`, `heartbeat`, `finish`, `fail`; Progress/Outcome and
--     Progress/Revived hold proofs.
--   Queue/Lifecycle: the calls of the queuer and the dequeuer as a step relation; Lifecycle/Sound and
--     Lifecycle/Reachable hold the invariant.
--   Queue/Scheduler: `schedule`, `ensure_schedule`, `assert_schedule`; Scheduler/Laws.
--   Queue/TaskWorker: `process_heartbeats`, `handle_task`, `iteration` over any dequeuer;
--     TaskWorker/Postgres puts the one of Queue/Progress there, TaskWorker/Calls one that logs.
--   Queue/ScheduleWorker: `schedule_task`, `iteration`; ScheduleWorker/Due, Task and Iteration.
--   Queue/Setup: `sync_table` of pkg/queue/postgres/setup.go on a catalog of tables, columns and what
--     stands on them;
--     Setup/Indexes: the index statements; Setup/Tables: `setup_tables`; Columns, Sync,
--     Cascade, Alter, UpToDate and Again hold proofs.
--   Queue/Retention: pkg/queue/postgres/retention.go; Retention/Deletion: which tasks the deletion
--     takes; Retention/Quotes: the texts that need no escaping; Retention/Once: the only schedule.
--   Queue/Handlers: pkg/queue/handlers, a handler as the heartbeats that it sends and the close, and
--     `dispatch`; Handlers/Api: the two API handlers, `json_process` and `request_process`;
--     Handlers/Sql: `sql_process`; Traverse, Stages, Success and Failure hold proofs.
-- Migrations: pkg/db/migrations, `migrate`; Migrations/Views: `configure_views`; Migrations/Prepare:
--   `initialize` and `prepare`; Migrate, Prepare/Laws, Prepare/Recorded and Prepare/Twice hold proofs.
-- Backoff: what Migrations relies on of the retry library.
-- Http: pkg/errors, the errors and the messengers; Http/Parser: `default_error_parser` of
--   pkg/http/handlers/base.go; Http/Client: `do_once` and `do_request_with_response` of
--   pkg/http/clients; Http/Response: `response_errors` and `validation_errors`; Status, Success,
--   Public, Scrubbed, Fields, Validation and Retries hold proofs.
-- Crypto: pkg/crypto/encrypt.go, with Crypto/Laws; Crypto/Token: the tokens of generate.go.
-- Tokens/PublicKeys: pkg/tokens/public_keys.go, `sync`, `init` and `KeyFunction`; PublicKeys/Files,
--   Scan, Sync and Found hold proofs.
-- Tokens/Claims and Tokens/Creator: pkg/tokens/creator.go and the claims and timestamps of
--   pkg/http/middlewares/authorization; Claims/Valid holds proofs.
-- Managers: pkg/data/managers/id_resolver.go, `resolve` and `sqlizer`; Managers/Selected and
--   Managers/Resolved hold proofs.
-- Casing: pkg/strings/casing.go; Casing/Clean and Casing/Pascal hold proofs.
-- Pagination: pkg/http/parameters/pagination.go; Pagination/Bounds.
-- The modules called Examples: concrete values, and runs of the definitions.
--
-- What stands outside. Each call takes an environment with the clock, the random numbers and the
-- failure of every statement. Postgres, the cron parser, AES, HMAC, gob and the text encodings are
-- parameters with the laws that their manuals state. Times are natural numbers far above a TTL, so
-- the truncated difference is the code's.
--
-- Bounds. Loops run over the events, rounds or files that they are given; nothing runs on fuel. A
-- call that is given no more events answers `blocked`, which is no return: an iteration of the
-- schedule worker needs one round more than there are schedules due at its last reading of the clock.
--
-- Not modelled: logs, traces and metrics; the ticker loops of the workers and of `MaintainCache`;
-- the lock of the key map; the JSON editing of `setError`, which is a parameter; tables of one name
-- in several schemas; the foreign keys that the set-up itself adds, as constraints; what a
-- retention statement with a quote in it does; a tick that comes as a handler closes its channel;
-- the rounding of an age to millionths of a minute; the other packages, which are HTTP middleware,
-- configuration, nullable values and telemetry.
pub mod Backoff
pub mod Base
pub mod Casing
pub mod Crypto
pub mod Http
pub mod Managers
pub mod Migrations
pub mod Pagination
pub mod Queue
pub mod Tokens
