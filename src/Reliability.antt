-- ===== src/Reliability.antt =====
-- src/agent_fault_lab/reliability.py: `ResponseExecutor`, which changes a response after the tool was
-- executed, and the policy that validates what it delivers. A response is its text; `uuid4()` is an
-- argument. That the value of a fault's payload is a dictionary is the type of a task.
pub mod Delivery
mod Examples
use agent_fault_lab.Prelude.{
  ℕ, String, Bool, true, false, not, ◌||◌, Option, none, some, List, [], ◌∷◌, ◌++◌, ◌==◌,
  if◌then◌else◌,
}
use agent_fault_lab.Exceptions.{
  Exception, ContractStage, contract_error, Result, ok, raised, Action, and_then,
}
use agent_fault_lab.Json.{
  Decoded, decoded, parsed, not_json, Json, null, bool, int, str, obj, field, end, Raw,
}
use agent_fault_lab.Model.{ToolCall}
use agent_fault_lab.Pydantic.{Pydantic}
use agent_fault_lab.Tasks.{Task}
use agent_fault_lab.Tools.{
  FaultMode, dropped_write, ToolFailure, ToolState, ToolResult, execute_tool,
}
use agent_fault_lab.Contracts.{
  ErrorCode, wrong_arguments, unknown_name, storage_error, invalid_result, ResponseEnvelope,
  validate_response,
}
use agent_fault_lab.Agent.{ToolDelivery}

pub data ResponseCase : Type 0 where
  response_healthy malformed_json duplicate_keys non_finite missing_field extra_field : ResponseCase
  wrong_type unsupported_version wrong_create_title wrong_get_id write_dropped : ResponseCase

pub data ResponsePolicy : Type 0 where
  pass_through validated : ResponsePolicy

pub record ReliabilityConfig : Type 0 where
  pub case : ResponseCase
  pub policy : ResponsePolicy

-- what the executor records, beside the injector's own events
pub data ResponseEvent : Type 0 where
  response_fault_injected : ResponseCase → String → ResponseEvent
  response_captured : String → String → ResponseEvent
  contract_refused : String → ContractStage → ResponseEvent
  contract_valid : String → ResponseEvent
  contract_unchecked : String → ResponseEvent

pub record ResponseState : Type 0 where
  pub tools : ToolState
  pub events : List ResponseEvent

-- the texts that Python's library makes
pub record Texts : Type 0 where
  -- `json.dumps` and what `json.loads` makes of a text before its hooks
  pub dump : Json → String
  pub decode : String → Decoded
  -- `error_response` and the text of a failure
  pub error_text : ErrorCode → String → String
  pub failure_text : Option ToolFailure → String
  -- the text of a `ContractError`
  pub stage_text : ContractStage → String
  -- `raw.replace(b'"schema_version": 1', b'"schema_version": NaN', 1)`
  pub with_nan : String → String

abbrev pub append_text : String → String → String
append_text String.[] t = t
append_text (String.◌∷◌ c s) t = String.◌∷◌ c (append_text s t)

-- `raw[1:]`
abbrev pub without_first : String → String
without_first String.[] = String.[]
without_first (String.◌∷◌ c s) = s

-- `raw[:-1]`
abbrev pub without_last : String → String
without_last String.[] = String.[]
without_last (String.◌∷◌ c s) = elim s [
  | String.[] ↦ String.[]
  | String.◌∷◌ d t ↦ String.◌∷◌ c (without_last s)
]

abbrev pub mode_of : ResponseCase → Option FaultMode
mode_of write_dropped = some dropped_write
mode_of _ = none

abbrev pub value_json : Option Task → Json
value_json none = null
value_json (some t) = obj (field "id" (str t.id) (field "title" (str t.title) end))

-- the payload with a version, an `ok` and a value, and what comes after these
abbrev pub payload_with : Json → Json → Json → Json → Json
payload_with version succeeded value error = obj (
    field "schema_version" version
      (field "ok" succeeded (field "value" value (field "error" error end))))

abbrev pub payload : Option Task → Json
payload value = payload_with (int 1) (bool true) (value_json value) null

-- the payload of a case that changes it
abbrev pub changed_payload : ResponseCase → Task → Json
changed_payload missing_field t = obj (
    field "schema_version" (int 1)
      (field "ok" (bool true) (field "value" (value_json (some t)) end)))
changed_payload extra_field t = obj (
    field "schema_version" (int 1) (
      field "ok" (bool true) (
        field "value" (value_json (some t))
          (field "error" null (field "unexpected" (bool true) end)))))
changed_payload wrong_type t = payload_with (int 1) (str "true") (value_json (some t)) null
changed_payload unsupported_version t = payload_with (int 2) (bool true) (value_json (some t)) null
changed_payload wrong_create_title t =
    payload (some (record t { title = append_text t.title " (changed)" }))
changed_payload wrong_get_id t = payload (some (record t { id = append_text t.id "-changed" }))
changed_payload _ t = payload (some t)

-- the cases that leave the response as it is
abbrev pub leaves_response : ResponseCase → Bool
leaves_response response_healthy = true
leaves_response write_dropped = true
leaves_response _ = false

abbrev pub target : ResponseCase → String
target wrong_get_id = "get_task"
target _ = "create_task"

abbrev pub record_event : ResponseEvent → ResponseState → ResponseState
record_event e s = record s { events = s.events ++ e ∷ [] }

module _ (texts : Texts) where
  abbrev pub changed : ResponseCase → Task → String → String
  changed malformed_json t raw = without_last raw
  changed duplicate_keys t raw = append_text "{\"ok\": false, " (without_first raw)
  changed non_finite t raw = texts.with_nan raw
  changed case t raw = texts.dump (changed_payload case t)

  -- `_inject`
  unfoldable pub inject :
      ResponseCase → Task → String → String → ResponseState → String × ResponseState
  inject case t raw call_id s =
      if leaves_response case
      then (raw, s)
      else (changed case t raw, record_event (response_fault_injected case call_id) s)

  abbrev pub injected :
      ResponseCase → String → Option Task → String → String → ResponseState → String × ResponseState
  injected case name none raw call_id s = (raw, s)
  injected case name (some t) raw call_id s =
      if name == target case then inject case t raw call_id s else (raw, s)

  abbrev pub failure_code : ToolCall → Bool → ErrorCode
  failure_code call executed =
      if executed
      then storage_error
      else if not (call.name == "create_task" || call.name == "get_task")
      then unknown_name
      else wrong_arguments

  -- the response of a tool
  unfoldable pub response :
      ResponseCase → ToolCall → ToolResult → String → ResponseState → String × ResponseState
  unfolding inject
  response case call result call_id s =
      if result.succeeded
      then injected case call.name result.value (texts.dump (payload result.value)) call_id s
      else (
        texts.error_text (failure_code call result.executed) (texts.failure_text result.error),
        s,
      )

  module _ (pydantic : Pydantic) where
    abbrev pub checked : String → String → Result ResponseEnvelope → Action ResponseState String
    checked raw call_id (ok envelope) s = (ok raw, record_event (contract_valid call_id) s)
    checked raw call_id (raised (contract_error stage)) s = (
      ok (texts.error_text invalid_result (texts.stage_text stage)),
      record_event (contract_refused call_id stage) s,
    )
    checked raw call_id (raised e) s = (raised e, s)

    -- the content that the policy delivers
    unfoldable pub deliver :
        ResponsePolicy → ToolCall → String → String → Action ResponseState String
    deliver pass_through call raw call_id s = (ok raw, record_event (contract_unchecked call_id) s)
    deliver validated call raw call_id s =
        checked raw call_id (validate_response pydantic texts.decode raw call) s

    abbrev pub finished :
        ReliabilityConfig → ToolCall → String → ToolResult → Action ResponseState ToolDelivery
    finished config call call_id result s =
        let (raw, s1) = response config.case call result call_id s in
        and_then (deliver config.policy call raw call_id)
          (λ content t. (ok (record { content = content; executed = result.executed }), t))
          (record_event (response_captured raw call_id) s1)

    abbrev pub executed :
        ReliabilityConfig
        → ToolCall
        → String
        → Result ToolResult
        → Action ResponseState ToolDelivery
    executed config call call_id (raised e) s = (raised e, s)
    executed config call call_id (ok result) s = finished config call call_id result s

    -- `ResponseExecutor.execute`
    unfoldable pub execute :
        ReliabilityConfig → String → ToolCall → String → Action ResponseState ToolDelivery
    unfolding response deliver
    execute config uuid call call_id s =
        let (r, tools) = execute_tool pydantic (mode_of config.case) uuid call call_id s.tools in
        executed config call call_id r (record s { tools = tools })
