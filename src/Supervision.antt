-- ===== src/Supervision.antt =====
-- src/agent_fault_lab/supervision.py: `Supervisor.execute`, the attempts at one operation under a
-- time budget, as a durable run calls it: a checkpoint is a transition of the journal, and the
-- supervisor's state is the journal's. The worker itself is another process.
pub mod Worker
pub mod Attempt
pub mod Execute
pub mod Kept
pub mod Runs
pub mod Replay
mod Examples
use agent_fault_lab.Prelude.{
  ℕ, zero, suc, ◌+◌, ◌-◌, String, Bool, true, false, not, ◌&&◌, ◌||◌, Option, none, some, List,
  ◌==◌, eqb, leb, ltb, to_nat, if◌then◌else◌,
}
use agent_fault_lab.Exceptions.{
  Exception, contract_error, value_error, assertion_error, Result, ok, raised, ◌>>=◌, Action,
  and_then,
}
use agent_fault_lab.Float.{Float, max, min}
use agent_fault_lab.Json.{Decoded, decoded, parsed, not_json, Json, Raw}
use agent_fault_lab.Json.Equal.{call_eq}
use agent_fault_lab.Model.{ToolCall}
use agent_fault_lab.Pydantic.{Pydantic}
use agent_fault_lab.Tools.{create_arguments, get_arguments}
use agent_fault_lab.Contracts.{
  ErrorCode, wrong_arguments, unknown_name, invalid_result, delivery_error, transient_error,
  deadline_exceeded, execution_limit, ToolError, ResponseEnvelope, validate_response,
}
use agent_fault_lab.Agent.{ToolDelivery}
use agent_fault_lab.Execution.{
  ProcessCase, transient_once, transient_twice, transient_always, permanent_error,
  delay_before_write, delay_after_commit, ignore_termination, exit_before_reply, malformed_worker,
  ProcessPolicy, bounded_retry, observe, same_policy, ProcessConfig, ExecutionLimits, Operation,
  ExecutionState, WorkerFault, no_fault, transient, permanent, delay_before, delay_after,
  ignoring_termination, exiting, malformed,
}
use agent_fault_lab.Journal.{RunState, is_some}
use agent_fault_lab.Journal.Store.{
  Identifiers, no_identifiers, EventKind, execution_checkpoint, operation_started, operation_failed,
  interrupted_reservation_charged, backoff_started, attempt_started, response_captured,
  contract_rejected, attempt_succeeded, attempt_failed, retry_scheduled,
}
use agent_fault_lab.Durable.{Session, Platform, save, emit}

-- A process is still running, or it exited: with code 0 or not, and with these bytes.
pub data Reply : Type 0 where
  timed_out : Reply
  exited : Bool → String → Reply

-- what the supervisor calls: the operating system, and the text of its messages
pub record Workers (F W : Type 0) : Type 0 where
  pub uuid : W → String × W
  pub clock : W → F × W
  pub sleeper : F → W → W
  -- f"{operation_id}:{attempts}"
  pub attempt_id : String → ℕ → String
  -- `subprocess.Popen`, with the request that it is given; the process is kept in `self.worker`
  pub spawn : Operation F → ToolCall → WorkerFault → Action W (Unit {0})
  -- whether `self.worker` is there
  pub owned : W → Bool
  -- `self.worker = None`
  pub release : W → W
  -- `communicate`, with a timeout or without one
  pub communicate : Option F → W → Reply × W
  -- whether the process still runs
  pub poll : W → Bool × W
  pub terminate : W → W
  pub kill : W → W
  -- the lines of the worker's evidence, `none` for one that is not valid
  pub evidence : W → List (Option Json)
  pub error_text : ErrorCode → String → String
  -- what `json.loads` makes of a reply
  pub decode : String → Decoded

-- the failures that a new attempt may follow
abbrev pub is_retryable : ErrorCode → Bool
is_retryable transient_error = true
is_retryable delivery_error = true
is_retryable deadline_exceeded = true
is_retryable _ = false

abbrev pub is_transient : ProcessCase → ℕ → Bool
is_transient transient_always cursor = true
is_transient transient_once cursor = ltb cursor 1
is_transient transient_twice cursor = ltb cursor 2
is_transient _ cursor = false

abbrev pub first_fault : ProcessCase → WorkerFault
first_fault permanent_error = permanent
first_fault delay_before_write = delay_before
first_fault delay_after_commit = delay_after
first_fault ignore_termination = ignoring_termination
first_fault exit_before_reply = exiting
first_fault malformed_worker = malformed
first_fault _ = no_fault

unfoldable pub fault_for : ProcessCase → ℕ → ToolCall → WorkerFault
fault_for case cursor call =
    if not (call.name == "create_task")
    then no_fault
    else if is_transient case cursor
    then transient
    else if not (eqb cursor 0)
    then no_fault
    else first_fault case

abbrev pub maximum : {F : Type 0} → RunState F → ℕ
maximum s = if same_policy s.config.policy bounded_retry then s.execution_limits.max_attempts else 1

-- `limits.backoff[min(op.attempts - 1, 1)]`
abbrev pub wait_after : {F : Type 0} → ExecutionLimits F → ℕ → F
wait_after l attempts = if leb attempts 1 then l.first_backoff else l.second_backoff

module _ {F W : Type 0} (float : Float F) (platform : Platform F W) (workers : Workers F W) where
  -- `save`
  unfoldable pub checkpoint : ExecutionState F → Action (Session F W) (Unit {0})
  unfolding save
  checkpoint e s =
      save float platform (record s.journal.state { execution = e }) execution_checkpoint
        no_identifiers s

  unfoldable pub save_operation : Operation F → Action (Session F W) (Unit {0})
  unfolding checkpoint
  save_operation op s = checkpoint (record s.journal.state.execution { active = some op }) s

  abbrev pub identifiers_of : Option (Operation F) → Identifiers
  identifiers_of none = no_identifiers
  identifiers_of (some op) = record {
    call_id = some op.call_id;
    operation_id = some op.operation_id;
    attempt_id =
        if eqb op.attempts 0 then none else some (workers.attempt_id op.operation_id op.attempts);
  }

  -- `Supervisor.emit`
  unfoldable pub note : EventKind F → Action (Session F W) (Unit {0})
  unfolding emit
  note kind s = emit float platform kind (identifiers_of s.journal.state.execution.active) s

  -- a result, with an event that says so
  abbrev pub settle : ToolDelivery → EventKind F → Operation F → Action (Session F W) ToolDelivery
  settle result kind op =
      and_then (save_operation (record op { result = some result }))
        (λ saved. and_then (note kind) (λ noted s. (ok result, s)))

  abbrev pub finish_of :
      ToolDelivery → ErrorCode → Option (Operation F) → Action (Session F W) ToolDelivery
  finish_of result code none s = (raised assertion_error, s)
  finish_of result code (some op) s = settle result (operation_failed code) op s

  unfoldable pub finish : ErrorCode → String → Action (Session F W) ToolDelivery
  unfolding save_operation note
  finish code message s =
      let result : ToolDelivery = record {
        content = workers.error_text code message;
        executed = true;
      } in
      finish_of result code s.journal.state.execution.active s

  abbrev pub finish_with : Option ToolError → Action (Session F W) ToolDelivery
  finish_with none s = (raised assertion_error, s)
  finish_with (some error) s = finish error.code error.message s

  abbrev pub exhausted : Action (Session F W) ToolDelivery
  exhausted s = finish execution_limit "Attempt budget exhausted; storage outcome is unknown" s
