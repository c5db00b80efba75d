-- ===== src/Retries/Examples.antt =====
-- A creation whose first reply is lost: the second attempt is answered from the ledger.
use agent_fault_lab.Prelude.{String, refl, true, false, none, some, [], ◌∷◌, is_space}
use agent_fault_lab.Json.{
  Decoded, parsed, obj, field, end, str, raw_obj, raw_bool, raw_int, raw_null, raw_str, no_pair,
  pair, strict,
}
use agent_fault_lab.Model.{ToolCall}
use agent_fault_lab.Pydantic.Exact.{exact}
use agent_fault_lab.Tasks.{table, File, open_store, create_task_idempotent}
use agent_fault_lab.Tools.{create_arguments}
use agent_fault_lab.Contracts.{validate_response}
use agent_fault_lab.Retries.{RetryState, lost_reply_once, execute, create, store, attempts}
use agent_fault_lab.Retries.Grown.{GrownFile}
use agent_fault_lab.Retries.Once.{execute-GrownFile}

abbrev creation : ToolCall
creation = record { name = "create_task"; arguments = obj (field "title" (str "Pay rent") end) }

abbrev decode : String → Decoded
decode raw = parsed (
    raw_obj (
      pair "schema_version" (raw_int 1) (
        pair "ok" (raw_bool true) (
          pair "value"
            (raw_obj (pair "id" (raw_str "t1") (pair "title" (raw_str "Pay rent") no_pair)))
            (pair "error" raw_null no_pair)))))

abbrev start : RetryState
start = record { consumed = false; file = open_store none; events = [] }

abbrev final : File
final = some (record {
  tasks = table (record { id = "t1"; title = "Pay rent" } ∷ []);
  task_operations = some (record { operation_id = "op1"; title = "Pay rent"; task_id = "t1" } ∷ []);
})

execute-GrownFile_example : GrownFile "Pay rent" (open_store none) final
unfolding execute attempts create store create_task_idempotent open_store validate_response
    create_arguments strict is_space
execute-GrownFile_example =
    execute-GrownFile exact decode (λ t. "the response") (λ code message. message) lost_reply_once
      (λ n. "t1") "op1" "Pay rent" creation start refl refl
