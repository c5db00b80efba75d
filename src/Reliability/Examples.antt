-- ===== src/Reliability/Examples.antt =====
-- A creation whose response comes back with another title.
use agent_fault_lab.Prelude.{◌≡◌, refl, true, none, [], is_space}
use agent_fault_lab.Json.{
  parsed, obj, field, end, str, raw_obj, raw_bool, raw_int, raw_null, raw_str, no_pair, pair,
  strict,
}
use agent_fault_lab.Model.{ToolCall}
use agent_fault_lab.Pydantic.Exact.{exact}
use agent_fault_lab.Tasks.{open_store}
use agent_fault_lab.Tools.{execute_tool, create_arguments, create_with}
use agent_fault_lab.Contracts.{validate_response}
use agent_fault_lab.Agent.{ToolDelivery}
use agent_fault_lab.Reliability.{
  ReliabilityConfig, ResponseState, Texts, wrong_create_title, pass_through, execute, mode_of,
}
use agent_fault_lab.Reliability.Delivery.{IsAnswered, execute-IsAnswered, execute-tools}

abbrev creation : ToolCall
creation = record { name = "create_task"; arguments = obj (field "title" (str "Pay rent") end) }

abbrev texts : Texts
texts = record {
  dump = λ value. "the response";
  decode = λ raw. parsed (
      raw_obj (
        pair "schema_version" (raw_int 1) (
          pair "ok" (raw_bool true) (
            pair "value"
              (raw_obj
                (pair "id" (raw_str "t1") (pair "title" (raw_str "Pay rent (changed)") no_pair)))
              (pair "error" raw_null no_pair)))));
  error_text = λ code message. message;
  failure_text = λ failure. "Tool operation failed";
  stage_text = λ stage. "Tool response failed validation";
  with_nan = λ raw. raw;
}

abbrev empty : ResponseState
empty = record { tools = record { file = open_store none; faults = [] }; events = [] }

abbrev refusal : ToolDelivery
refusal = record { content = "Tool response failed validation"; executed = true }

execute-IsAnswered_example : IsAnswered texts exact creation refusal.content
unfolding execute execute_tool create_arguments create_with open_store validate_response strict
    is_space
execute-IsAnswered_example =
    execute-IsAnswered texts exact creation wrong_create_title "t1" "m1-t1" empty _ refusal refl

abbrev unchecked : ReliabilityConfig
unchecked = record { case = wrong_create_title; policy = pass_through }

execute-tools_example :
    (execute texts exact unchecked "t1" creation "m1-t1" empty).1.tools
    ≡ (execute_tool exact (mode_of wrong_create_title) "t1" creation "m1-t1" empty.tools).1
execute-tools_example = execute-tools texts exact creation unchecked "t1" "m1-t1" empty
