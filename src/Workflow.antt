-- ===== src/Workflow.antt =====
-- src/agent_fault_lab/workflow.py: the create/read/check workflow without a model. The executor and
-- the recorder act on a world `W`; `decode` is what `json.loads` makes of a text before its hooks,
-- `read_result` is pydantic's reading of a `ToolResult`, whose fields have defaults, and `dump` the
-- JSON text of a claim.
pub mod Checked
mod Examples
use agent_fault_lab.Prelude.{
  ℕ, ◌+◌, String, Bool, true, false, not, ◌&&◌, ◌||◌, Option, none, some, ◌==◌, is_blank, to_nat,
  if◌then◌else◌,
}
use agent_fault_lab.Exceptions.{
  Exception, value_error, operation_conflict, contract_error, validation_error, Result, ok, raised,
  ◌>>=◌, Action, and_then,
}
use agent_fault_lab.Json.{
  Decoded, decoded, parsed, not_json, Json, null, str, obj, end, field, Raw, strict, get,
}
use agent_fault_lab.Model.{ToolCall, RunResult, finished}
use agent_fault_lab.Pydantic.{Pydantic}
use agent_fault_lab.Tasks.{Task}
use agent_fault_lab.Claims.{ClaimStatus, completed, not_completed, unknown, TerminalClaim}
use agent_fault_lab.Contracts.{is_null, ToolError, ResponseEnvelope, validate_response}
use agent_fault_lab.Agent.{ToolDelivery}

pub data WorkflowEvent : Type 0 where
  run_started : WorkflowEvent
  tool_requested : ℕ → ToolCall → WorkflowEvent
  tool_returned : ℕ → ToolDelivery → WorkflowEvent
  invalid_response : WorkflowEvent
  run_stopped : RunResult → WorkflowEvent

-- The number is the one that a call's identifier ends in.
pub record Bench (W : Type 0) : Type 0 where
  pub emit : WorkflowEvent → W → W
  pub execute : ToolCall → ℕ → Action W ToolDelivery

pub record WorkflowState (W : Type 0) : Type 0 where
  pub calls : ℕ
  pub executions : ℕ
  pub world : W

-- tools.py, `ToolResult`, with its value as JSON
pub record ToolReply : Type 0 where
  pub succeeded : Bool
  pub value : Json
  pub error : Option String
  pub executed : Bool

abbrev pub is_object : Json → Bool
is_object (obj fs) = true
is_object _ = false

abbrev pub is_present : Option Json → Bool
is_present none = false
is_present (some v) = true

-- `value == s` for a JSON value
abbrev pub is_str : Option Json → String → Bool
is_str (some (str t)) s = t == s
is_str _ s = false

abbrev pub task_json : Option Task → Json
task_json none = null
task_json (some t) = obj (field "id" (str t.id) (field "title" (str t.title) end))

abbrev pub message_of : Option ToolError → Option String
message_of none = none
message_of (some e) = some e.message

abbrev pub reply_of : ResponseEnvelope → Bool → ToolReply
reply_of r executed = record {
  succeeded = r.succeeded;
  value = task_json r.value;
  error = message_of r.error;
  executed = executed;
}

-- a usable identifier in the answer to the creation
abbrev pub usable_id : Option Json → Option String
usable_id (some (str id)) = if is_blank id then none else some id
usable_id _ = none

unfoldable pub created_id : String → ToolReply → Option String
created_id title created =
    if created.succeeded && is_object created.value && is_str (get "title" created.value) title
    then usable_id (get "id" created.value)
    else none

abbrev pub unknown_claim : TerminalClaim
unknown_claim = record { status = unknown; task_id = none }

-- the claim after the reading
unfoldable pub read_claim : String → String → ToolReply → TerminalClaim
read_claim title id reading =
    if reading.succeeded && is_object reading.value
    then (if is_str (get "id" reading.value) id && is_str (get "title" reading.value) title
        then record { status = completed; task_id = some id }
        else unknown_claim)
    else if reading.succeeded && is_null reading.value
    then record { status = not_completed; task_id = none }
    else unknown_claim

abbrev pub creation_of : String → ToolCall
creation_of title = record { name = "create_task"; arguments = obj (field "title" (str title) end) }

abbrev pub lookup_of : String → ToolCall
lookup_of id = record { name = "get_task"; arguments = obj (field "task_id" (str id) end) }

-- `except ValueError`
abbrev pub is_value_error : Exception → Bool
is_value_error (value_error m) = true
is_value_error operation_conflict = true
is_value_error (contract_error stage) = true
is_value_error validation_error = true
is_value_error _ = false

module _ {W : Type 0} (bench : Bench W) (pydantic : Pydantic) (decode : String → Decoded)
    (read_result : Json → Result ToolReply) (dump : TerminalClaim → String) where
  unfoldable pub parse : ToolCall → ToolDelivery → Result ToolReply
  parse tool delivery = do
    raw ← decoded (decode delivery.content)
    if is_present (get "schema_version" raw)
        then (do
          response ← validate_response pydantic decode delivery.content tool
          ok (reply_of response delivery.executed))
        else read_result raw

  abbrev pub delivered : ToolCall → Result ToolDelivery → Action (WorkflowState W) ToolReply
  delivered tool (raised e) s = (raised e, s)
  delivered tool (ok delivery) s = (
    parse tool delivery,
    record s {
      executions = s.executions + to_nat delivery.executed;
      world = bench.emit (tool_returned s.calls delivery) s.world;
    },
  )

  -- `call`
  unfoldable pub call_tool : ToolCall → Action (WorkflowState W) ToolReply
  unfolding parse
  call_tool tool s =
      let number = s.calls + 1 in
      let (r, w) = bench.execute tool number (bench.emit (tool_requested number tool) s.world) in
      delivered tool r (record s { calls = number; world = w })

  abbrev pub checked : String → Option String → Action (WorkflowState W) TerminalClaim
  checked title none s = (ok unknown_claim, s)
  checked title (some id) s =
      and_then (call_tool (lookup_of id)) (λ reading s'. (ok (read_claim title id reading), s')) s

  -- the body of the `try`
  unfoldable pub claim : String → Action (WorkflowState W) TerminalClaim
  unfolding call_tool created_id read_claim
  claim title =
      and_then (call_tool (creation_of title)) (λ created. checked title (created_id title created))

  abbrev pub finish : TerminalClaim → Action (WorkflowState W) RunResult
  finish c s =
      let result : RunResult = record {
        status = finished;
        final_content = some (dump c);
        model_calls = 0;
        tool_calls = s.calls;
        tool_executions = s.executions;
        error = none;
      } in
      (ok result, record s { world = bench.emit (run_stopped result) s.world })

  abbrev pub concluded : Result TerminalClaim → Action (WorkflowState W) RunResult
  concluded (ok c) s = finish c s
  concluded (raised e) s =
      if is_value_error e
      then finish unknown_claim (record s { world = bench.emit invalid_response s.world })
      else (raised e, s)

  unfoldable pub run_workflow : String → Action W RunResult
  unfolding claim
  run_workflow title w =
      let s : WorkflowState W = record {
        calls = 0;
        executions = 0;
        world = bench.emit run_started w;
      } in
      let (c, s') = claim title s in let (r, last) = concluded c s' in (r, last.world)
