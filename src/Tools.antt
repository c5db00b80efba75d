-- ===== src/Tools.antt =====
-- src/agent_fault_lab/tools.py: the validation of tool arguments and `execute_tool`; and faults.py:
-- the injector that drops a write. `uuid4()` is an argument.
pub mod Storage
pub mod ReadBack
mod Examples
use agent_fault_lab.Prelude.{
  String, Bool, true, false, Option, none, some, List, [], ◌∷◌, ◌++◌, ◌==◌, is_blank, if◌then◌else◌,
}
use agent_fault_lab.Exceptions.{
  Exception, validation_error, sqlite_error, Result, ok, raised, ◌>>=◌, Action, and_then,
}
use agent_fault_lab.Json.{Json}
use agent_fault_lab.Model.{ToolCall}
use agent_fault_lab.Pydantic.{Pydantic, strict_str}
use agent_fault_lab.Tasks.{Task, File, create_task, get_task}

pub data FaultMode : Type 0 where
  no_fault dropped_write : FaultMode

-- `fault_injected`, with the identifier that was made up
pub record FaultEvent : Type 0 where
  pub call_id : String
  pub fabricated : Task

-- the store's file, and what the injector recorded
pub record ToolState : Type 0 where
  pub file : File
  pub faults : List FaultEvent

pub data ToolFailure : Type 0 where
  unknown_tool : String → ToolFailure
  invalid_arguments : ToolFailure
  storage_failure : String → ToolFailure

-- `ok` is `succeeded`; `executed` says that a validated operation was entered.
pub record ToolResult : Type 0 where
  pub succeeded : Bool
  pub value : Option Task
  pub error : Option ToolFailure
  pub executed : Bool

-- `nonblank_title`, `nonblank_id`
abbrev pub nonblank : String → Result String
nonblank value = if is_blank value then raised validation_error else ok value

abbrev pub strict_nonblank : Option String → Result String
strict_nonblank none = raised validation_error
strict_nonblank (some s) = nonblank s

abbrev pub only_field : Option (List Json) → Result String
only_field (some (v ∷ [])) = strict_nonblank (strict_str v)
only_field _ = raised validation_error

-- an operation on the file of the store
abbrev pub on_file : {A : Type 0} → Action File A → Action ToolState A
on_file m s = let (r, file') = m s.file in (r, record s { file = file' })

abbrev pub found : {A : Type 0} → (A → Option Task) → Result A → Result (Option Task)
found f (ok a) = ok (f a)
found f (raised e) = raised e

module _ (pydantic : Pydantic) where
  unfoldable pub create_arguments : Json → Result String
  create_arguments arguments = only_field (pydantic.required ("title" ∷ []) arguments)

  unfoldable pub get_arguments : Json → Result String
  get_arguments arguments = only_field (pydantic.required ("task_id" ∷ []) arguments)

-- `FaultInjector.create_task`
unfoldable pub inject : FaultMode → String → String → String → Action ToolState Task
unfolding create_task
inject no_fault uuid title call_id s = on_file (create_task uuid title) s
inject dropped_write uuid title call_id s =
    let task : Task = record { id = uuid; title = title } in
    let event : FaultEvent = record { call_id = call_id; fabricated = task } in
    (ok task, record s { faults = s.faults ++ event ∷ [] })

unfoldable pub create_with : Option FaultMode → String → String → String → Action ToolState Task
unfolding create_task inject
create_with none uuid title call_id s = on_file (create_task uuid title) s
create_with (some mode) uuid title call_id s = inject mode uuid title call_id s

-- what the `try` of `execute_tool` returns, and what its handlers return
abbrev pub reply : Result (Option Task) → Result ToolResult
reply (ok task) = ok (record { succeeded = true; value = task; error = none; executed = true })
reply (raised validation_error) =
    ok
      (record { succeeded = false; value = none; error = some invalid_arguments; executed = false })
reply (raised (sqlite_error m)) =
    ok (record {
      succeeded = false;
      value = none;
      error = some (storage_failure m);
      executed = true;
    })
reply (raised e) = raised e

abbrev pub after_create : Result Task × ToolState → Result ToolResult × ToolState
after_create (r, s) = (reply (found some r), s)

abbrev pub after_get : Result (Option Task) × ToolState → Result ToolResult × ToolState
after_get (r, s) = (reply r, s)

abbrev pub created_with :
    Option FaultMode → String → String → Result String → ToolState → Result ToolResult × ToolState
created_with mode uuid call_id (raised e) s = (reply (raised e), s)
created_with mode uuid call_id (ok title) s = after_create (create_with mode uuid title call_id s)

abbrev pub looked_up : Result String → ToolState → Result ToolResult × ToolState
looked_up (raised e) s = (reply (raised e), s)
looked_up (ok id) s = after_get (on_file (get_task id) s)

unfoldable pub execute_tool :
    Pydantic → Option FaultMode → String → ToolCall → String → Action ToolState ToolResult
unfolding create_arguments get_arguments
execute_tool pydantic mode uuid call call_id s =
    if call.name == "create_task"
    then created_with mode uuid call_id (create_arguments pydantic call.arguments) s
    else if call.name == "get_task"
    then looked_up (get_arguments pydantic call.arguments) s
    else (
      ok (record {
        succeeded = false;
        value = none;
        error = some (unknown_tool call.name);
        executed = false;
      }),
      s,
    )
