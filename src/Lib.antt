-- ===== src/Lib.antt =====
-- The Python API of a todo application that plans a task as a workflow (apps/api/app). A user
-- starts a workflow with a title, answers questions, may submit or be suggested a breakdown, and
-- confirms; confirming creates the todos. A provider's suggestions run in a worker that a queue
-- calls, or inline in the request.
--
-- The parts, and the file that models each:
--   Title          apps/api/app/title_validation.py, `canonicalize_title`; texts are lists of code points
--   Workflow/Domain     workflow_domain.py: states, commands, `transition`
--   Workflow/Record     workflow_repository.py: `snapshot_to_record`, `snapshot_from_record`
--   Workflow/Store, Database/Rows   workflow_repository.py: the tables, their CHECK constraints, lookups
--   Workflow/Service, Workflow/Fingerprint, Workflow/StepId, Workflow/RowSnapshot
--                  workflow_service.py: `start_workflow`, `advance_workflow`, `get_workflow`, the listing
--   Todos          todo_repository.py
--   Analytics/Events    analytics_events.py: `record_event`
--   Suggestion     suggestion_service.py: reserving (Reserve), finishing inline (Finish), claiming and
--                  finishing in the worker (Claim, FinishClaimed), the sweep (Expire), and what they share (Types,
--                  Snapshot, Checks, Store, Trace, the last with tracing.py `extract_stored_context`)
--   Suggestion/History  what a suggestion's row can become, as a step relation, and that every operation keeps to it
--   Accounts       auth_repository.py: users and sessions
--   Api            main.py: its errors (Errors, SuggestionErrors), payloads (Payloads), the login and the
--                  sessions (Auth), the responses (Views, of workflow_presentation.py), and the handlers
--                  of todos (Todos), workflows (Workflows) and suggestions (Suggestions)
--   Worker         worker.py: the request's body (Body), the trace context (Trace), one delivery
--                  (Delivery), the sweep (Maintenance), the export and the probe (Export), and what
--                  they log (Events)
--   Tasks          suggestion_tasks.py: the configuration, and the task that a suggestion is queued as
--   Todos/Backfill, Analytics/Export   backfill_completed_at.py and analytics_export.py
--   Http           answers and refusals; Database/Call: one transaction, and what interrupts it
--   Prelude, Result, Json, Platform     what the parts share
--   Tests          a small platform and database, and runs on them
--
-- How they interact: a service's operation is a `Transaction` (Database/Transaction), a function of
-- the whole database that returns its result with the database that it commits, or raises an error
-- and commits nothing. `advance_workflow` calls the domain's `transition`, the todos' `create_todo`,
-- and `record_event`; a suggestion reads the workflow's row that its service has locked. Two calls
-- interleave as a sequence of transactions: the row locks of the code serialise those on one
-- workflow. Where the code reads in a transaction of its own before it locks, what was read is an
-- argument (`Discovered`). A handler's transactions are numbered: what the seam `others` does to the
-- database comes before each, and a connection that breaks leaves the transaction applied or not (Database/Call).
-- The clock, the UUIDs that are drawn, the provider, the trace ids, the password hasher and the queue's client are
-- arguments of the handlers (`Seams`, `Secrets`).
--
-- Correspondence: a table is the list of its rows in the order of their ids with the next id. `now` is
-- `func.now()` in microseconds, `draw i` the i-th `uuid4()` of a call. A UUID is its number. Numbers
-- are natural; `INTEGER` columns keep their bounds as CHECK constraints. A `raise` is an `Error`.
-- The UUID text, the JSON encoder, `str` of a JSON value, SHA-256 and the trace propagator are the
-- fields of `Platform`; `IsPlatform` states what is used of them: a UUID's text reads back, `str` of a
-- text is the text, and a digest is 64 hexadecimal digits. No collision freedom is assumed.
-- Only the loop of the backfill has fuel: the number of rows to write and one more is enough. All other
-- recursion is structural.
--
-- Not modelled: the agent route, the clients of the provider, of the key store and, below `create_task`,
-- of the queue (I/O, or third-party code), logging and spans but for the events above, the columns
-- created_at and updated_at, migrations, the release scripts and the IVR prototype.
pub mod Accounts
pub mod Analytics
pub mod Api
pub mod Database
pub mod Http
pub mod Json
pub mod Platform
pub mod Prelude
pub mod Result
pub mod Suggestion
pub mod Tasks
pub mod Tests
pub mod Title
pub mod Todos
pub mod Worker
pub mod Workflow
