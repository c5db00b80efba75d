-- ===== src/Contracts/Examples.antt =====
-- The answer to a creation, and a text that is no strict JSON.
use agent_fault_lab.Prelude.{String, refl, true, none, some, is_space}
use agent_fault_lab.Json.{
  Decoded, parsed, obj, field, end, str, raw_obj, raw_bool, raw_int, raw_null, raw_str, no_pair,
  pair, strict,
}
use agent_fault_lab.Model.{ToolCall}
use agent_fault_lab.Pydantic.Exact.{exact}
use agent_fault_lab.Contracts.{ResponseEnvelope, validate_response}
use agent_fault_lab.Contracts.Accepted.{IsShaped, AnswersIf, validate_response-Answers}

abbrev creation : ToolCall
creation = record { name = "create_task"; arguments = obj (field "title" (str "Pay rent") end) }

abbrev decode : String → Decoded
decode raw = parsed (
    raw_obj (
      pair "schema_version" (raw_int 1) (
        pair "ok" (raw_bool true) (
          pair "value"
            (raw_obj (pair "id" (raw_str "t1") (pair "title" (raw_str "Pay rent") no_pair)))
            (pair "error" raw_null no_pair)))))

abbrev answer : ResponseEnvelope
answer = record {
  succeeded = true;
  value = some (record { id = "t1"; title = "Pay rent" });
  error = none;
}

validate_response-Answers_example :
    IsShaped true answer.value none × AnswersIf true exact creation answer.value
unfolding validate_response strict is_space
validate_response-Answers_example =
    validate_response-Answers exact decode "the response" creation answer refl
