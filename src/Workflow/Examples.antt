-- ===== src/Workflow/Examples.antt =====
-- An executor that creates and reads one task.
use agent_fault_lab.Prelude.{String, refl, true, false, none, some, List, [], ◌∷◌, is_space}
use agent_fault_lab.Exceptions.{Result, ok}
use agent_fault_lab.Json.{
  Decoded, parsed, Json, null, raw_obj, raw_bool, raw_int, raw_null, raw_str, no_pair, pair, strict,
}
use agent_fault_lab.Pydantic.Exact.{exact}
use agent_fault_lab.Claims.{completed, TerminalClaim}
use agent_fault_lab.Contracts.{validate_response}
use agent_fault_lab.Workflow.{
  Bench, WorkflowEvent, WorkflowState, ToolReply, call_tool, claim, parse,
}
use agent_fault_lab.Workflow.Checked.{IsChecked, claim-IsChecked}

abbrev bench : Bench (List WorkflowEvent)
bench = record {
  emit = λ e w. e ∷ w;
  execute = λ tool number w. (ok (record { content = "a response"; executed = true }), w);
}

abbrev decode : String → Decoded
decode raw = parsed (
    raw_obj (
      pair "schema_version" (raw_int 1) (
        pair "ok" (raw_bool true) (
          pair "value"
            (raw_obj (pair "id" (raw_str "t1") (pair "title" (raw_str "Pay rent") no_pair)))
            (pair "error" raw_null no_pair)))))

abbrev read_result : Json → Result ToolReply
read_result value = ok (record { succeeded = false; value = null; error = none; executed = false })

abbrev start : WorkflowState (List WorkflowEvent)
start = record { calls = 0; executions = 0; world = [] }

abbrev done : TerminalClaim
done = record { status = completed; task_id = some "t1" }

claim-IsChecked_example :
    IsChecked bench exact decode read_result
      (λ c. "a claim")
      "Pay rent"
      start
      (claim bench exact decode read_result (λ c. "a claim") "Pay rent" start).1
      done
unfolding claim call_tool parse validate_response strict is_space
claim-IsChecked_example =
    claim-IsChecked bench exact decode read_result (λ c. "a claim") "Pay rent" start _ done refl
      refl
