-- ===== src/Model.antt =====
-- src/agent_fault_lab/model.py: the records that the loop, the tools and the evaluator share. The
-- provider's `usage` and `metadata` are carried through and never read by the modelled code.
use agent_fault_lab.Prelude.{ℕ, String, Option, List}
use agent_fault_lab.Json.{Json, Fields}

pub record ToolCall : Type 0 where
  pub name : String
  pub arguments : Json

pub data Role : Type 0 where
  system user assistant tool : Role

pub record Message : Type 0 where
  pub role : Role
  pub content : String
  pub tool_calls : List ToolCall
  pub call_id : Option String
  pub tool_name : Option String
  pub metadata : Fields

pub record ModelTurn : Type 0 where
  pub content : String
  pub tool_calls : List ToolCall
  pub usage : Fields
  pub metadata : Fields
  pub finish_reason : Option String

pub data ExecutionStatus : Type 0 where
  finished model_limit tool_limit provider_stopped protocol_error : ExecutionStatus

pub record RunResult : Type 0 where
  pub status : ExecutionStatus
  pub final_content : Option String
  pub model_calls : ℕ
  pub tool_calls : ℕ
  pub tool_executions : ℕ
  pub error : Option String
