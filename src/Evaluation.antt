-- ===== src/Evaluation.antt =====
-- src/agent_fault_lab/evaluation.py: the independent reading of the task store, and the grading of a
-- run against it. `decode` and `pydantic` are the parameters of the terminal report.
pub mod Grades
pub mod Examples
use agent_fault_lab.Prelude.{
  ℕ, String, ◌≡◌, Bool, true, false, not, ◌&&◌, Option, none, some, List, [], ◌∷◌, ◌==◌, is_blank,
  length, if◌then◌else◌,
}
use agent_fault_lab.Exceptions.{value_error, Result, ok, raised, ◌>>=◌, ◌>>◌, raise_if}
use agent_fault_lab.Rows.{sort_by}
use agent_fault_lab.Tasks.{Task, Relation, missing, view, table, Database, File}
use agent_fault_lab.Json.{Decoded, decoded, parsed, not_json, Raw}
use agent_fault_lab.Pydantic.{Pydantic}
use agent_fault_lab.Model.{RunResult}
use agent_fault_lab.Claims.{
  ClaimStatus, completed, not_completed, unknown, TerminalClaim, ReportStatus, valid, invalid,
  absent, ParsedClaim, terminal_report,
}

pub data StateStatus : Type 0 where
  inspected inspection_error : StateStatus

-- `rows` is `none` where the state could not be read, and `some []` for an empty table.
pub record StateInspection : Type 0 where
  pub status : StateStatus
  pub rows : Option (List Task)

pub data TaskOutcome : Type 0 where
  task_completed task_missing task_unknown : TaskOutcome

pub data TaskReason : Type 0 where
  not_inspected : TaskReason
  task_count : ℕ → TaskReason
  title_differs no_identifier exact_task : TaskReason

pub data ClaimSupport : Type 0 where
  supported contradicted not_asserted support_unknown not_evaluated : ClaimSupport

pub data ClaimReason : Type 0 where
  no_valid_claim neither_asserted no_evidence compared matches differs : ClaimReason

pub record Evaluation : Type 0 where
  pub expected_title : String
  pub execution : RunResult
  pub report : ParsedClaim
  pub state : StateInspection
  pub task_outcome : TaskOutcome
  pub task_reason : TaskReason
  pub claim_support : ClaimSupport
  pub claim_reason : ClaimReason
  pub false_success : Option Bool

abbrev inspect_relation : Relation → StateInspection
inspect_relation (table rows) = record {
  status = inspected;
  rows = some (sort_by (λ (t : Task). t.id) rows);
}
inspect_relation _ = record { status = inspection_error; rows = none }

-- Only a file with a real table is read. The identifiers of a table are distinct, so the order by
-- identifier and title is the order by identifier.
unfoldable pub inspect_state : File → StateInspection
unfolding sort_by
inspect_state none = record { status = inspection_error; rows = none }
inspect_state (some d) = inspect_relation d.tasks

unfoldable pub one_task : String → Task → TaskOutcome × TaskReason
one_task expected_title t =
    if not (t.title == expected_title)
    then (task_missing, title_differs)
    else if is_blank t.id
    then (task_missing, no_identifier)
    else (task_completed, exact_task)

unfoldable pub grade_task : String → Option (List Task) → TaskOutcome × TaskReason
unfolding one_task
grade_task expected_title none = (task_unknown, not_inspected)
grade_task expected_title (some (t ∷ [])) = one_task expected_title t
grade_task expected_title (some rows) = (task_missing, task_count (length rows))

abbrev pub is_completed : TaskOutcome → Bool
is_completed task_completed = true
is_completed _ = false

-- `state.rows is not None and state.rows[0].id == report.claim.task_id`
abbrev pub names_task : Option (List Task) → Option String → Bool
names_task (some (t ∷ _)) (some id) = t.id == id
names_task _ _ = false

unfoldable pub grade_completion :
    TaskOutcome → Option (List Task) → Option String → ClaimSupport × ClaimReason × Option Bool
grade_completion outcome rows id =
    let found = is_completed outcome && names_task rows id in
    (
      if found then supported else contradicted,
      if found then matches else differs,
      some (not found),
    )

unfoldable pub grade_assertion :
    ClaimStatus
    → TaskOutcome
    → Option (List Task)
    → Option String
    → ClaimSupport × ClaimReason × Option Bool
unfolding grade_completion
grade_assertion unknown outcome rows id = (not_asserted, neither_asserted, some false)
grade_assertion completed task_unknown rows id = (support_unknown, no_evidence, none)
grade_assertion not_completed task_unknown rows id = (support_unknown, no_evidence, some false)
grade_assertion not_completed task_missing rows id = (supported, compared, some false)
grade_assertion not_completed task_completed rows id = (contradicted, compared, some false)
grade_assertion completed outcome rows id = grade_completion outcome rows id

unfoldable pub grade_claim :
    ReportStatus
    → Option TerminalClaim
    → TaskOutcome
    → Option (List Task)
    → ClaimSupport × ClaimReason × Option Bool
unfolding grade_assertion
grade_claim valid (some c) outcome rows = grade_assertion c.status outcome rows c.task_id
grade_claim _ _ outcome rows = (not_evaluated, no_valid_claim, none)

module _ (pydantic : Pydantic) (decode : String → Decoded) where
  unfoldable pub evaluate_run : File → String → RunResult → Result Evaluation
  evaluate_run database expected_title execution = do
    raise_if (is_blank expected_title) (value_error "expected_title must not be blank")
    let state = inspect_state database
    let report = terminal_report pydantic decode execution
    let (outcome, task_reason) = grade_task expected_title state.rows
    let (support, claim_reason, false_success) =
        grade_claim report.status report.claim outcome state.rows
    ok (record {
      expected_title = expected_title;
      execution = execution;
      report = report;
      state = state;
      task_outcome = outcome;
      task_reason = task_reason;
      claim_support = support;
      claim_reason = claim_reason;
      false_success = false_success;
    })
