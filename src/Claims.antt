-- ===== src/Claims.antt =====
-- src/agent_fault_lab/claims.py: the validation of one terminal claim.
-- `decode` is what `json.loads` makes of a text before its hooks.
use agent_fault_lab.Prelude.{
  String, Option, none, some, List, [], ◌∷◌, ◌==◌, is_blank, if◌then◌else◌,
}
use agent_fault_lab.Exceptions.{validation_error, Result, ok, raised, ◌>>=◌}
use agent_fault_lab.Json.{Decoded, decoded, Json}
use agent_fault_lab.Pydantic.{Pydantic, strict_str, optional_str}
use agent_fault_lab.Model.{RunResult, ExecutionStatus, finished, protocol_error}

pub data ClaimStatus : Type 0 where
  completed not_completed unknown : ClaimStatus

pub record TerminalClaim : Type 0 where
  pub status : ClaimStatus
  pub task_id : Option String

pub data ReportStatus : Type 0 where
  valid invalid absent : ReportStatus

pub record ParsedClaim : Type 0 where
  pub status : ReportStatus
  pub claim : Option TerminalClaim

-- the literals of `status`
abbrev claim_status : String → Option ClaimStatus
claim_status s =
    if s == "completed"
    then some completed
    else if s == "not_completed"
    then some not_completed
    else if s == "unknown"
    then some unknown
    else none

-- `check_identifier`
unfoldable pub check_identifier : ClaimStatus → Option String → Result TerminalClaim
check_identifier completed none = raised validation_error
check_identifier completed (some id) =
    if is_blank id
    then raised validation_error
    else ok (record { status = completed; task_id = some id })
check_identifier s none = ok (record { status = s; task_id = none })
check_identifier s (some id) = raised validation_error

abbrev checked_claim : Option ClaimStatus → Option (Option String) → Result TerminalClaim
checked_claim (some s) (some id) = check_identifier s id
checked_claim _ _ = raised validation_error

abbrev bind_status : Option String → Option ClaimStatus
bind_status none = none
bind_status (some s) = claim_status s

abbrev claim_fields : Option (List Json) → Result TerminalClaim
claim_fields (some (s ∷ id ∷ [])) = checked_claim (bind_status (strict_str s)) (optional_str id)
claim_fields _ = raised validation_error

module _ (pydantic : Pydantic) where
  -- `TerminalClaim.model_validate`
  unfoldable pub validate_claim : Json → Result TerminalClaim
  unfolding check_identifier
  validate_claim value = claim_fields (pydantic.required ("status" ∷ "task_id" ∷ []) value)

  abbrev report_of : Result TerminalClaim → ParsedClaim
  report_of (ok c) = record { status = valid; claim = some c }
  report_of (raised e) = record { status = invalid; claim = none }

  module _ (decode : String → Decoded) where
    -- Every exception that the body raises is caught: a syntax error, a hook's, a validation error.
    unfoldable pub parse_claim : Option String → ParsedClaim
    unfolding validate_claim
    parse_claim none = record { status = absent; claim = none }
    parse_claim (some content) =
        report_of (do value ← decoded (decode content); validate_claim value)

    abbrev stopped_report : ExecutionStatus → Option String → ParsedClaim
    stopped_report finished content = parse_claim content
    stopped_report protocol_error (some content) = record { status = invalid; claim = none }
    stopped_report _ _ = record { status = absent; claim = none }

    unfoldable pub terminal_report : RunResult → ParsedClaim
    unfolding parse_claim
    terminal_report execution = stopped_report execution.status execution.final_content
