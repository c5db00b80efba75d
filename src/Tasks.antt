-- ===== src/Tasks.antt =====
-- src/agent_fault_lab/tasks.py: the task store over one SQLite file.
-- `uuid4()` is an argument: the text that the call returns. A title is a text by its type, so the
-- `TypeError` of `_require_nonblank_string` has no case.
pub mod Replay
pub mod Stored
mod Examples
use agent_fault_lab.Prelude.{
  String, Bool, true, false, ◌||◌, Option, none, some, List, [], ◌==◌, is_blank, if◌then◌else◌,
}
use agent_fault_lab.Exceptions.{
  check_first, value_error, operation_conflict, sqlite_error, Result, ok, raised, ◌>>=◌, ◌>>◌,
  raise_if, Action,
}
use agent_fault_lab.Sql.{find, has, insert, transaction}

pub record Task : Type 0 where
  pub id : String
  pub title : String

pub record CreateReceipt : Type 0 where
  pub task : Task
  pub replayed : Bool

-- a row of `task_operations`
pub record Operation : Type 0 where
  pub operation_id : String
  pub title : String
  pub task_id : String

-- What `sqlite_master` may hold under the name `tasks`.
pub data Relation : Type 0 where
  missing : Relation
  view : List Task → Relation
  table : List Task → Relation

-- `task_operations` is made by the first keyed creation.
pub record Database : Type 0 where
  pub tasks : Relation
  pub task_operations : Option (List Operation)

-- `none` where there is no file
abbrev pub File : Type 0
File = Option Database

unfoldable pub require_nonblank_string : String → String → Result (Unit {0})
require_nonblank_string value name =
    raise_if (is_blank value) (value_error "must not be empty or whitespace-only")

abbrev create_table : Relation → Relation
create_table missing = table []
create_table (view rows) = view rows
create_table (table rows) = table rows

-- `TaskStore(database)`: the one call that may create the file
unfoldable pub open_store : File → File
open_store none = some (record { tasks = table []; task_operations = none })
open_store (some d) = some (record d { tasks = create_table d.tasks })

-- `_connection`: only an existing file is opened, and a raise rolls back.
unfoldable pub connection {ℓ} : {A : Type ℓ} → (Database → Result (A × Database)) → Action File A
unfolding transaction
connection body none = (raised (sqlite_error "unable to open database file"), none)
connection body (some d) = let (r, d') = transaction body d in (r, some d')

unfoldable pub insert_task : Task → Relation → Result Relation
unfolding insert has
insert_task t missing = raised (sqlite_error "no such table: tasks")
insert_task t (view rows) = raised (sqlite_error "cannot modify tasks because it is a view")
insert_task t (table rows) = do
  rows' ← insert (has (λ (r : Task). r.id) t.id rows) t rows
  ok (table rows')

unfoldable pub select_tasks : Relation → Result (List Task)
select_tasks missing = raised (sqlite_error "no such table: tasks")
select_tasks (view rows) = ok rows
select_tasks (table rows) = ok rows

unfoldable pub create_task : String → String → Action File Task
unfolding require_nonblank_string connection insert_task
create_task uuid title = check_first (require_nonblank_string title "title") (
    connection (λ d. do
      let task : Task = record { id = uuid; title = title }
      tasks' ← insert_task task d.tasks
      ok (task, record d { tasks = tasks' })))

-- CREATE TABLE IF NOT EXISTS task_operations
abbrev pub ledger : Option (List Operation) → List Operation
ledger none = []
ledger (some rows) = rows

unfoldable pub keyed_create :
    String → String → String → Database → Result (CreateReceipt × Database)
unfolding find has insert insert_task
keyed_create uuid title operation_id d =
    let rows = ledger d.task_operations in
    elim (find (λ (o : Operation). o.operation_id) operation_id rows) [
      | some row ↦
          if row.title == title
          then ok (
            record { task = record { id = row.task_id; title = row.title }; replayed = true },
            record d { task_operations = some rows },
          )
          else raised operation_conflict
      | none ↦ do
        let task : Task = record { id = uuid; title = title }
        tasks' ← insert_task task d.tasks
        rows' ←
            insert
              (has (λ (o : Operation). o.operation_id) operation_id rows
                || has (λ (o : Operation). o.task_id) uuid rows)
              (record { operation_id = operation_id; title = title; task_id = uuid }) rows
        ok (
          record { task = task; replayed = false },
          record { tasks = tasks'; task_operations = some rows' },
        )
    ]

unfoldable pub create_task_idempotent : String → String → String → Action File CreateReceipt
unfolding require_nonblank_string connection keyed_create
create_task_idempotent uuid title operation_id file =
    check_first
      (require_nonblank_string title "title" >> require_nonblank_string operation_id "operation_id")
      (connection (keyed_create uuid title operation_id)) file

unfoldable pub get_task : String → Action File (Option Task)
unfolding require_nonblank_string connection select_tasks find
get_task task_id = check_first (require_nonblank_string task_id "task_id") (
    connection
      (λ d. do rows ← select_tasks d.tasks; ok (find (λ (r : Task). r.id) task_id rows, d)))

-- `recover_task_database` opens the file and reads no row.
unfoldable pub recover_task_database : Action File (Unit {0})
unfolding connection select_tasks
recover_task_database = connection (λ d. do rows ← select_tasks d.tasks; ok (tt, d))
