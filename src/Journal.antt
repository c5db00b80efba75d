-- ===== src/Journal.antt =====
-- src/agent_fault_lab/journal.py: the state that a durable run checkpoints, and its validation.
-- A checkpoint is stored as JSON text and read by pydantic; the text and its parsing are not modelled.
-- The state itself is stored, and what is kept of the reading is that it runs the validators again.
pub mod Store
pub mod Sound
pub mod Accepted
mod Examples
use agent_fault_lab.Prelude.{
  ℕ, String, Bool, true, false, not, ◌&&◌, ◌||◌, Option, none, some, List, [], ◌∷◌, ◌==◌, eqb, leb,
  ltb, is_blank, length, if◌then◌else◌,
}
use agent_fault_lab.Exceptions.{validation_error, Result, ok, raised, ◌>>=◌, ◌>>◌, raise_if}
use agent_fault_lab.Float.{Float}
use agent_fault_lab.Json.{Fields}
use agent_fault_lab.Json.Equal.{calls_eq}
use agent_fault_lab.Model.{
  ToolCall, Message, ModelTurn, RunResult, ExecutionStatus, finished, model_limit, tool_limit,
  provider_stopped, protocol_error,
}
use agent_fault_lab.Evaluation.{Evaluation}
use agent_fault_lab.Agent.{Limits}
use agent_fault_lab.Execution.{
  ProcessConfig, ExecutionLimits, ExecutionState, Operation, limits_valid, execution_valid,
  has_policy, policies_for,
}

pub data Mode : Type 0 where
  offline live : Mode

pub data Script : Type 0 where
  create_read_report batch_two : Script

pub data Phase : Type 0 where
  model_phase tools_phase terminal_phase : Phase

-- model.py, `ModelSettings`
pub record ModelSettings (F : Type 0) : Type 0 where
  pub model : String
  pub temperature : F
  pub context_tokens : ℕ
  pub max_output_tokens : ℕ
  pub request_timeout_seconds : F

pub record RunState (F : Type 0) : Type 0 where
  pub run_id : String
  pub compatibility : String
  pub config : ProcessConfig
  pub mode : Mode
  pub client : String
  pub provenance : Fields
  pub settings : ModelSettings F
  pub limits : Limits
  pub execution_limits : ExecutionLimits F
  pub request : String
  pub expected_title : String
  pub script : Script
  pub script_cursor : ℕ
  pub messages : List Message
  pub last_turn : Option ModelTurn
  pub phase : Phase
  pub pending : List ToolCall
  pub tool_cursor : ℕ
  pub tool_reserved : Bool
  pub model_calls : ℕ
  pub tool_calls : ℕ
  pub tool_executions : ℕ
  pub execution : ExecutionState F
  pub terminal : Option RunResult
  pub evaluation : Option Evaluation
  pub finalized : Bool

abbrev pub is_tools : Phase → Bool
is_tools tools_phase = true
is_tools _ = false

abbrev pub is_terminal : Phase → Bool
is_terminal terminal_phase = true
is_terminal _ = false

abbrev pub is_some : {A : Type 0} → Option A → Bool
is_some none = false
is_some (some a) = true

abbrev pub is_offline : Mode → Bool
is_offline offline = true
is_offline live = false

abbrev pub same_status : ExecutionStatus → ExecutionStatus → Bool
same_status finished finished = true
same_status model_limit model_limit = true
same_status tool_limit tool_limit = true
same_status provider_stopped provider_stopped = true
same_status protocol_error protocol_error = true
same_status _ _ = false

abbrev pub same_text : Option String → Option String → Bool
same_text none none = true
same_text (some s) (some t) = s == t
same_text _ _ = false

unfoldable pub same_result : RunResult → RunResult → Bool
same_result a b =
    same_status a.status b.status
    && same_text a.final_content b.final_content
    && (eqb a.model_calls b.model_calls
        && eqb a.tool_calls b.tool_calls
        && eqb a.tool_executions b.tool_executions)
    && same_text a.error b.error

abbrev pub same_terminal : RunResult → Option RunResult → Bool
same_terminal r none = false
same_terminal r (some t) = same_result r t

-- `self.last_turn is not None and self.pending == self.last_turn.tool_calls`
abbrev pub pending_of : Option ModelTurn → List ToolCall → Bool
pending_of none pending = false
pending_of (some turn) pending = calls_eq pending turn.tool_calls

abbrev pub counts_agree : Option RunResult → ℕ → ℕ → ℕ → Bool
counts_agree none m t x = true
counts_agree (some r) m t x = eqb r.model_calls m && eqb r.tool_calls t && eqb r.tool_executions x

abbrev pub evaluation_agrees : Option Evaluation → Option RunResult → Bool
evaluation_agrees none terminal = true
evaluation_agrees (some e) terminal = same_terminal e.execution terminal

module _ {F : Type 0} (float : Float F) where
  unfoldable pub settings_valid : ModelSettings F → Bool
  settings_valid m =
      not (m.model == "")
      && (float.leb float.zero m.temperature && float.leb m.temperature (float.tenths 20))
      && leb 1 m.context_tokens
      && leb 1 m.max_output_tokens
      && (float.ltb float.zero m.request_timeout_seconds
          && float.leb m.request_timeout_seconds (float.tenths 600))

  -- the budgets of the active operation
  unfoldable pub within_budget : ExecutionLimits F → ExecutionState F → Operation F → Bool
  within_budget l e op =
      leb op.attempts l.max_attempts
      && leb op.attempts e.total_attempts
      && not (float.ltb op.remaining_seconds op.reserved_seconds)
      && not (float.ltb l.operation_seconds op.remaining_seconds)

  abbrev pub active_within : ExecutionLimits F → ExecutionState F → Option (Operation F) → Bool
  active_within l e none = true
  active_within l e (some op) = within_budget l e op

  -- The constraints of the fields, `ge` and `le`, and the validator of the configuration.
  unfoldable pub fields_valid : RunState F → Bool
  unfolding settings_valid limits_valid execution_valid policies_for
  fields_valid s =
      settings_valid s.settings
      && (leb 1 s.limits.max_model_calls && leb s.limits.max_model_calls 6)
      && (leb 1 s.limits.max_tool_calls && leb s.limits.max_tool_calls 6)
      && limits_valid float s.execution_limits
      && leb s.script_cursor 6
      && (leb s.model_calls 6 && leb s.tool_calls 6 && leb s.tool_executions 6)
      && execution_valid float s.execution
      && has_policy s.config.policy (policies_for s.config.case)

  unfoldable pub consistent : RunState F → Result (RunState F)
  unfolding within_budget same_result
  consistent s = do
    raise_if (ltb (length s.pending) s.tool_cursor) validation_error
    raise_if (is_tools s.phase && not (pending_of s.last_turn s.pending)) validation_error
    raise_if
        (s.tool_reserved
          && (not (is_tools s.phase) || leb (length s.pending) s.tool_cursor || eqb s.tool_calls 0))
        validation_error
    raise_if (ltb s.tool_calls s.tool_executions) validation_error
    raise_if
        (ltb s.limits.max_model_calls s.model_calls || ltb s.limits.max_tool_calls s.tool_calls)
        validation_error
    raise_if (ltb s.execution_limits.total_attempts s.execution.total_attempts) validation_error
    raise_if (not (active_within s.execution_limits s.execution s.execution.active))
        validation_error
    raise_if (if is_terminal s.phase then not (is_some s.terminal) else is_some s.terminal)
        validation_error
    raise_if (s.finalized && (not (is_some s.terminal) || not (is_some s.evaluation)))
        validation_error
    raise_if (not (counts_agree s.terminal s.model_calls s.tool_calls s.tool_executions))
        validation_error
    raise_if (not (evaluation_agrees s.evaluation s.terminal)) validation_error
    ok s

  -- `RunState.model_validate_json(state.model_dump_json())`, less the text: the types of the fields are
  -- those of the record, and what is left of the reading are the constraints and the validators
  unfoldable pub revalidate : RunState F → Result (RunState F)
  unfolding fields_valid consistent
  revalidate s = do raise_if (not (fields_valid s)) validation_error; consistent s
