-- ===== src/Execution.antt =====
-- src/agent_fault_lab/execution_types.py: the finite process experiments and the durable records of
-- an execution.
use agent_fault_lab.Prelude.{
  ℕ, String, Bool, true, false, not, ◌&&◌, ◌||◌, Option, none, some, List, [], ◌∷◌, leb,
  if◌then◌else◌,
}
use agent_fault_lab.Exceptions.{validation_error, Result, ok, raised}
use agent_fault_lab.Float.{Float}
use agent_fault_lab.Model.{ToolCall}
use agent_fault_lab.Agent.{ToolDelivery}

pub data ProcessCase : Type 0 where
  process_healthy transient_once transient_twice transient_always permanent_error : ProcessCase
  delay_before_write delay_after_commit ignore_termination exit_before_reply : ProcessCase
  malformed_worker restart_healthy : ProcessCase

pub data ProcessPolicy : Type 0 where
  process_single bounded_retry observe terminate : ProcessPolicy

abbrev pub is_delay : ProcessCase → Bool
is_delay delay_before_write = true
is_delay delay_after_commit = true
is_delay ignore_termination = true
is_delay _ = false

unfoldable pub policies_for : ProcessCase → List ProcessPolicy
policies_for case =
    if is_delay case then observe ∷ terminate ∷ [] else process_single ∷ bounded_retry ∷ []

pub record ProcessConfig : Type 0 where
  pub case : ProcessCase
  pub policy : ProcessPolicy

abbrev pub same_policy : ProcessPolicy → ProcessPolicy → Bool
same_policy process_single process_single = true
same_policy bounded_retry bounded_retry = true
same_policy observe observe = true
same_policy terminate terminate = true
same_policy _ _ = false

abbrev pub has_policy : ProcessPolicy → List ProcessPolicy → Bool
has_policy p [] = false
has_policy p (q ∷ qs) = same_policy p q || has_policy p qs

-- `supported`
unfoldable pub supported : ProcessConfig → Result ProcessConfig
unfolding policies_for
supported config =
    if not (has_policy config.policy (policies_for config.case))
    then raised validation_error
    else ok config

pub record ExecutionLimits (F : Type 0) : Type 0 where
  pub attempt_seconds : F
  pub operation_seconds : F
  pub max_attempts : ℕ
  -- the two waits of `backoff`
  pub first_backoff : F
  pub second_backoff : F
  pub grace_seconds : F
  pub total_attempts : ℕ
  pub delay_seconds : F

pub record Operation (F : Type 0) : Type 0 where
  pub operation_id : String
  pub call_id : String
  pub call : ToolCall
  pub attempts : ℕ
  pub remaining_seconds : F
  pub reserved_seconds : F
  pub result : Option ToolDelivery

pub record ExecutionState (F : Type 0) : Type 0 where
  pub total_attempts : ℕ
  pub fault_cursor : ℕ
  pub active : Option (Operation F)

pub data WorkerFault : Type 0 where
  no_fault transient permanent delay_before delay_after : WorkerFault
  ignoring_termination exiting malformed : WorkerFault

-- The constraints of the fields.
module _ {F : Type 0} (float : Float F) where
  -- 0 < a <= b, in tenths of a second
  abbrev pub positive_to : ℕ → F → Bool
  positive_to n a = float.ltb float.zero a && float.leb a (float.tenths n)

  abbrev pub from_zero_to : ℕ → F → Bool
  from_zero_to n a = float.leb float.zero a && float.leb a (float.tenths n)

  unfoldable pub limits_valid : ExecutionLimits F → Bool
  limits_valid l =
      positive_to 20 l.attempt_seconds
      && positive_to 80 l.operation_seconds
      && (leb 1 l.max_attempts && leb l.max_attempts 3)
      && (from_zero_to 2 l.first_backoff && from_zero_to 2 l.second_backoff)
      && positive_to 5 l.grace_seconds
      && (leb 1 l.total_attempts && leb l.total_attempts 18)
      && positive_to 30 l.delay_seconds

  unfoldable pub operation_valid : Operation F → Bool
  operation_valid op =
      leb op.attempts 3
      && from_zero_to 80 op.remaining_seconds
      && from_zero_to 80 op.reserved_seconds

  abbrev pub active_valid : Option (Operation F) → Bool
  active_valid none = true
  active_valid (some op) = operation_valid op

  unfoldable pub execution_valid : ExecutionState F → Bool
  unfolding operation_valid
  execution_valid e = leb e.total_attempts 18 && leb e.fault_cursor 18 && active_valid e.active
