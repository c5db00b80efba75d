-- ===== src/Lib.antt =====
-- Agent Fault Lab: a model of the task and permission stores, of the agent loop, of durable runs and
-- their supervisor, and of the independent evaluation of runs (the package src/agent_fault_lab).
--
-- The program runs a tool-using agent against a small SQLite task store, in some experiments through
-- a permission store that admits a write only under a grant, and then grades the run from the
-- database itself, without asking the code that wrote it. The parts and the files that model them:
--
-- Permissions (src/agent_fault_lab/permissions.py, `PermissionStore`): Records has the tables and
--   the opening of a database, Grants has `propose`, `proposal`, `decide`, `change_revision` and
--   `get_task`, Writes has `write`, Requests has `configure_request`, `request_state` and
--   `scenario_grant`. Session is any sequence of these calls on one database.
-- Inspection (src/agent_fault_lab/boundary_evaluation.py, `inspect`): the reading that grades an
--   authorization database. It shares no code with Permissions but the tables. Inspection/Owner is about
--   the opening of a database by the store of a run.
-- Tasks (src/agent_fault_lab/tasks.py): `TaskStore`, with keyed and unkeyed creation.
-- Evaluation (src/agent_fault_lab/evaluation.py): `inspect_state` and `evaluate_run`.
-- Claims (src/agent_fault_lab/claims.py): `parse_claim` and `terminal_report`.
-- Json (src/agent_fault_lab/journal.py, `strict_json`): the hooks given to `json.loads`, which claims.py
--   and contracts.py give too, and Python's `==` on JSON values.
-- Journal (src/agent_fault_lab/journal.py): `RunState` with its validators, and in Journal/Store
--   `Journal` and `JournalRecorder`. An event and a checkpoint are stored in one transaction.
-- Execution (src/agent_fault_lab/execution_types.py): the limits and records of an execution.
-- Durable (src/agent_fault_lab/durable_run.py): the loop of `_drive`, which checkpoints every step in
--   the journal, and the `finally` that stops the worker; Durable/Start has the first state of `run_process`, Durable/Restarts the processes
--   that resume a run.
-- Supervision (src/agent_fault_lab/supervision.py, `Supervisor`): Attempt has the body of the loop
--   of `execute`, Execute the loop and `execute`, Worker has `dispatch` and `stop_worker`. The durable
--   loop takes a supervisor as a field of its platform; Supervision/Runs puts this one there.
-- Agent (src/agent_fault_lab/agent.py, `run_agent`) and Model (src/agent_fault_lab/model.py).
-- Tools (src/agent_fault_lab/tools.py and faults.py): `execute_tool` and the injector that drops a
--   write.
-- Contracts (src/agent_fault_lab/contracts.py): `validate_response`.
-- Reliability (src/agent_fault_lab/reliability.py): `ResponseExecutor`, which puts faults in responses
--   and validates what it delivers.
-- Retries (src/agent_fault_lab/retries.py): `RetryExecutor` over one operation identity.
-- Workflow (src/agent_fault_lab/workflow.py): `run_workflow`, which creates, reads and compares.
-- Comparison (src/agent_fault_lab/experiments.py and comparison.py): `schedule` and `cell_counts`.
-- Exceptions, Sql, Rows, Float, Pydantic and Prelude: raised exceptions as values, rows by a text
--   column and transactions, sorted and counted rows, Python's floats, pydantic's records, and
--   what all share.
--
-- State. A file is `Option` of its database, `none` where there is no file; a database is a record
-- of its tables, a table a list of rows. A transaction that raises gives back the database it
-- started from. PRIMARY KEY and UNIQUE are tests of the columns before an INSERT. A row that is
-- inserted stands first; the code reads rows by a key or in an order that it asks for. `uuid4()`
-- and the clock are arguments, so nothing is assumed of them: a repeated identifier is refused by
-- the tables. Times are an abstract type with the operations that the code calls.
--
-- Bounds and fuel. The agent's loop recurses on the model calls that are left, which is the test
-- of its `while`, and a retried operation on the attempts that are left, at most one after the
-- first. The attempts of the supervisor are those that its policy leaves. The durable loop has fuel:
-- twenty iterations, since the validators allow at most six model calls and six tool calls, each
-- model call is at most two iterations beside those of its tool calls, and a last one ends the run.
-- No other loop has fuel, or needs more than the source's own bound. Python's integers are
-- unbounded, as are the natural numbers here.
--
-- Parameters. What `json.loads` makes of a text before its hooks (a tree, no JSON, or a nesting too
-- deep for the interpreter, which is a RecursionError), pydantic's reading of an object by
-- the names of its fields, the provider, the tool executor and the recorder of the agent and
-- of the workflow, and the JSON texts of responses and claims that are delivered. Of a durable run:
-- whether the process is killed before a commit, the client, the clock, and the operating system's
-- processes. A response is assumed to equal itself under `==`.
--
-- Not modelled: texts of errors and reasons (constructors stand for them), the version fields and
-- client labels of records, symbolic links, the worker's own process, HTTP, reports and command
-- lines. The journal stores the records themselves: their JSON text and its parsing are not modelled,
-- and a number of a text is kept as text, so that one that stands for an infinite float is a float like
-- another. Of the journal the lock and the JSONL projection, of a durable run `finalize`, the checks on
-- the manifest and the import of a worker's evidence at a restart are not modelled, nor are boundary
-- runs, context experiments and studies.
pub mod Agent
pub mod Claims
pub mod Comparison
pub mod Contracts
pub mod Durable
pub mod Evaluation
pub mod Exceptions
pub mod Execution
pub mod Float
pub mod Inspection
pub mod Journal
pub mod Json
pub mod Model
pub mod Permissions
pub mod Prelude
pub mod Pydantic
pub mod Reliability
pub mod Retries
pub mod Rows
pub mod Sql
pub mod Supervision
pub mod Tasks
pub mod Tools
pub mod Workflow
