-- ===== src/Contracts.antt =====
-- src/agent_fault_lab/contracts.py: the validation of a tool's response, shape first and then its
-- agreement with the request. `decode` is what `json.loads` makes of the response before its hooks.
pub mod Accepted
mod Examples
use agent_fault_lab.Prelude.{
  ℕ, String, Bool, true, false, not, ◌&&◌, ◌||◌, Option, none, some, List, [], ◌∷◌, ◌==◌, eqb,
  is_blank, if◌then◌else◌,
}
use agent_fault_lab.Exceptions.{
  Exception, ContractStage, syntax, schema, request, contract_error, recursion_error, value_error,
  validation_error, Result, ok, raised, ◌>>=◌, ◌>>◌, raise_if,
}
use agent_fault_lab.Json.{Decoded, decoded, parsed, not_json, Json, null, int, Raw, strict}
use agent_fault_lab.Model.{ToolCall}
use agent_fault_lab.Pydantic.{Pydantic, strict_str, strict_bool}
use agent_fault_lab.Tasks.{Task}
use agent_fault_lab.Tools.{create_arguments, get_arguments, strict_nonblank}

pub data ErrorCode : Type 0 where
  wrong_arguments unknown_name storage_error invalid_result delivery_error : ErrorCode
  conflicting_operation transient_error deadline_exceeded execution_limit : ErrorCode

pub record ToolError : Type 0 where
  pub code : ErrorCode
  pub message : String

-- `TaskValue` is a task whose fields are not blank; `ok` is `succeeded`.
pub record ResponseEnvelope : Type 0 where
  pub succeeded : Bool
  pub value : Option Task
  pub error : Option ToolError

-- the literals of `ErrorCode`
abbrev pub error_code : String → Result ErrorCode
error_code s =
    if s == "invalid_arguments"
    then ok wrong_arguments
    else if s == "unknown_tool"
    then ok unknown_name
    else if s == "storage_error"
    then ok storage_error
    else if s == "invalid_result"
    then ok invalid_result
    else if s == "delivery_error"
    then ok delivery_error
    else if s == "operation_conflict"
    then ok conflicting_operation
    else if s == "transient_error"
    then ok transient_error
    else if s == "deadline_exceeded"
    then ok deadline_exceeded
    else if s == "execution_limit"
    then ok execution_limit
    else raised validation_error

abbrev pub coded : Option String → Result ErrorCode
coded none = raised validation_error
coded (some s) = error_code s

abbrev pub task_fields : Option (List Json) → Result Task
task_fields (some (i ∷ t ∷ [])) = do
  id ← strict_nonblank (strict_str i)
  title ← strict_nonblank (strict_str t)
  ok (record { id = id; title = title })
task_fields _ = raised validation_error

abbrev pub error_fields : Option (List Json) → Result ToolError
error_fields (some (c ∷ m ∷ [])) = do
  code ← coded (strict_str c)
  message ← strict_nonblank (strict_str m)
  ok (record { code = code; message = message })
error_fields _ = raised validation_error

-- `exact_version`
abbrev pub exact_version : Json → Result (Unit {0})
exact_version (int n) = raise_if (not (eqb n 1)) validation_error
exact_version _ = raised validation_error

abbrev pub strict_flag : Option Bool → Result Bool
strict_flag none = raised validation_error
strict_flag (some b) = ok b

abbrev pub is_null : Json → Bool
is_null null = true
is_null _ = false

-- `A | None`
abbrev pub optional : {A : Type 0} → (Json → Result A) → Json → Result (Option A)
optional validate value = if is_null value then ok none else (do a ← validate value; ok (some a))

abbrev pub is_none : {A : Type 0} → Option A → Bool
is_none none = true
is_none (some a) = false

-- `consistent`
unfoldable pub consistent : ResponseEnvelope → Result ResponseEnvelope
consistent r =
    if (r.succeeded && not (is_none r.error))
      || (not r.succeeded && (is_none r.error || not (is_none r.value)))
    then raised validation_error
    else ok r

module _ (pydantic : Pydantic) where
  unfoldable pub validate_task : Json → Result Task
  validate_task value = task_fields (pydantic.required ("id" ∷ "title" ∷ []) value)

  unfoldable pub validate_error : Json → Result ToolError
  validate_error value = error_fields (pydantic.required ("code" ∷ "message" ∷ []) value)

  unfoldable pub envelope_fields : Option (List Json) → Result ResponseEnvelope
  unfolding consistent validate_task validate_error
  envelope_fields (some (version ∷ flag ∷ v ∷ e ∷ [])) = do
    exact_version version
    succeeded ← strict_flag (strict_bool flag)
    value ← optional validate_task v
    error ← optional validate_error e
    consistent (record { succeeded = succeeded; value = value; error = error })
  envelope_fields _ = raised validation_error

  -- `ResponseEnvelope.model_validate`
  unfoldable pub validate_envelope : Json → Result ResponseEnvelope
  unfolding envelope_fields
  validate_envelope value =
      envelope_fields (pydantic.required ("schema_version" ∷ "ok" ∷ "value" ∷ "error" ∷ []) value)

  abbrev pub titled : Option Task → String → Bool
  titled none title = false
  titled (some t) title = t.title == title

  abbrev pub identified : Option Task → String → Bool
  identified none id = true
  identified (some t) id = t.id == id

  -- A successful response against the request; each `ValueError` is a failure of the request stage.
  unfoldable pub match_request : ToolCall → Option Task → Result (Unit {0})
  unfolding create_arguments get_arguments
  match_request call value =
      if call.name == "create_task"
      then (do
        title ← create_arguments pydantic call.arguments
        raise_if (not (titled value title))
            (value_error "Create response does not match the request"))
      else if call.name == "get_task"
      then (do
        id ← get_arguments pydantic call.arguments
        raise_if (not (identified value id))
            (value_error "Lookup response does not match the request"))
      else raised (value_error "Unknown tool cannot report success")

  abbrev pub staged : ContractStage → Exception → Exception
  staged stage recursion_error = recursion_error
  staged stage e = contract_error stage

  -- `except ...: raise ContractError(stage)`, of the `ValueError`s; a `RecursionError` is none
  abbrev pub at_stage : {A : Type 0} → ContractStage → Result A → Result A
  at_stage stage (ok a) = ok a
  at_stage stage (raised e) = raised (staged stage e)

  unfoldable pub validate_response :
      (String → Decoded) → String → ToolCall → Result ResponseEnvelope
  unfolding validate_envelope match_request
  validate_response decode raw call = do
    value ← at_stage syntax (decoded (decode raw))
    response ← at_stage schema (validate_envelope value)
    if response.succeeded then at_stage request (match_request call response.value) else ok tt
    ok response
