-- ===== src/Tools/Examples.antt =====
-- A creation whose write is dropped, and a creation with a blank title.
use agent_fault_lab.Prelude.{String, ◌≡◌, refl, false, none, some, [], is_space}
use agent_fault_lab.Exceptions.{ok}
use agent_fault_lab.Json.{obj, field, end, str}
use agent_fault_lab.Model.{ToolCall}
use agent_fault_lab.Pydantic.Exact.{exact}
use agent_fault_lab.Tasks.{open_store, create_task}
use agent_fault_lab.Tools.{
  ToolState, ToolResult, no_fault, dropped_write, invalid_arguments, execute_tool, create_arguments,
  get_arguments, create_with, inject,
}
use agent_fault_lab.Tools.ReadBack.{success, execute_tool-read_back}
use agent_fault_lab.Tools.Storage.{execute_tool-unexecuted, execute_tool-drops}

abbrev creation : String → ToolCall
creation title = record { name = "create_task"; arguments = obj (field "title" (str title) end) }

abbrev empty : ToolState
empty = record { file = open_store none; faults = [] }

abbrev refused : ToolResult
refused = record {
  succeeded = false;
  value = none;
  error = some invalid_arguments;
  executed = false;
}

execute_tool-unexecuted_example :
    (execute_tool exact (some no_fault) "t1" (creation " ") "m1-t1" empty).1 ≡ empty
unfolding execute_tool create_arguments is_space
execute_tool-unexecuted_example =
    execute_tool-unexecuted exact "t1" (creation " ") "m1-t1" empty (some no_fault) (ok refused) _
      refl refl

execute_tool-drops_example :
    (execute_tool exact (some dropped_write) "t1" (creation "Pay rent") "m1-t1" empty).1.file
    ≡ open_store none
execute_tool-drops_example = execute_tool-drops exact "t1" (creation "Pay rent") "m1-t1" empty

abbrev lookup : ToolCall
lookup = record { name = "get_task"; arguments = obj (field "task_id" (str "t1") end) }

abbrev stored : ToolState
stored = (execute_tool exact (some no_fault) "t1" (creation "Pay rent") "m1-t1" empty).1

execute_tool-read_back_example :
    execute_tool exact (some dropped_write) "t2" lookup "m2-t1" stored
    ≡ (ok (success (record { id = "t1"; title = "Pay rent" })), stored)
unfolding execute_tool create_arguments get_arguments create_with inject create_task open_store
    is_space
execute_tool-read_back_example =
    execute_tool-read_back exact "t1" "t2" (creation "Pay rent") lookup "m1-t1" "m2-t1"
      (some no_fault) (some dropped_write) empty stored "Pay rent"
      (record { id = "t1"; title = "Pay rent" }) (λ e. cc e) refl refl refl refl refl refl
