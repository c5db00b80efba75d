-- ===== src/Evaluation/Examples.antt =====
-- A run that claims a task which is not the stored one.
use agent_fault_lab.Prelude.{
  String, ◌≡◌, ◌↔◌, refl, true, none, some, List, [], ◌∷◌, ◌==◌, if◌then◌else◌, is_space,
}
use agent_fault_lab.Exceptions.{ok}
use agent_fault_lab.Tasks.{Task, table, File}
use agent_fault_lab.Json.{Decoded, parsed, not_json, raw_obj, raw_str, no_pair, pair, strict}
use agent_fault_lab.Pydantic.Exact.{exact}
use agent_fault_lab.Model.{RunResult, finished}
use agent_fault_lab.Claims.{completed, ParsedClaim, valid, terminal_report}
use agent_fault_lab.Evaluation.{
  Evaluation, StateInspection, inspected, exact_task, contradicted, differs, task_completed,
  supported, inspect_state, grade_task, grade_claim, evaluate_run,
}
use agent_fault_lab.Evaluation.Grades.{
  completed_iff_IsStored, supported_iff_backed, false_success_iff_overclaimed, IsStored, Judged,
  Backs, Overclaims,
}

abbrev pub decode : String → Decoded
decode text =
    if text == "claim"
    then parsed
        (raw_obj (pair "status" (raw_str "completed") (pair "task_id" (raw_str "t2") no_pair)))
    else not_json

abbrev pub stored : File
stored = some (record {
  tasks = table (record { id = "t1"; title = "Pay rent" } ∷ []);
  task_operations = none;
})

abbrev pub execution : RunResult
execution = record {
  status = finished;
  final_content = some "claim";
  model_calls = 2;
  tool_calls = 1;
  tool_executions = 1;
  error = none;
}

abbrev report : ParsedClaim
report = record {
  status = valid;
  claim = some (record { status = completed; task_id = some "t2" });
}

abbrev state : StateInspection
state = record { status = inspected; rows = some (record { id = "t1"; title = "Pay rent" } ∷ []) }

abbrev pub grades : Evaluation
grades = record {
  expected_title = "Pay rent";
  execution = execution;
  report = report;
  state = state;
  task_outcome = task_completed;
  task_reason = exact_task;
  claim_support = contradicted;
  claim_reason = differs;
  false_success = some true;
}

pub graded : evaluate_run exact decode stored "Pay rent" execution ≡ ok grades
unfolding evaluate_run is_space terminal_report inspect_state grade_task grade_claim strict
graded = refl

false_success_iff_overclaimed_example :
    (grades.false_success ≡ some true)
    ↔ Judged (Overclaims "Pay rent") report.status report.claim state.rows
unfolding inspect_state terminal_report strict is_space
false_success_iff_overclaimed_example =
    false_success_iff_overclaimed exact decode stored "Pay rent" execution grades graded

supported_iff_backed_example :
    (grades.claim_support ≡ supported)
    ↔ Judged (Backs "Pay rent") report.status report.claim state.rows
unfolding inspect_state terminal_report strict is_space
supported_iff_backed_example =
    supported_iff_backed exact decode stored "Pay rent" execution grades graded

completed_iff_IsStored_example :
    (grades.task_outcome ≡ task_completed)
    ↔ ((rows : List Task) × (state.rows ≡ some rows) × IsStored "Pay rent" rows)
unfolding inspect_state
completed_iff_IsStored_example =
    completed_iff_IsStored exact decode stored "Pay rent" execution grades graded
