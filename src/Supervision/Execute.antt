-- ===== src/Supervision/Execute.antt =====
-- supervision.py: the loop over the attempts, and `execute`.
use agent_fault_lab.Prelude.{
  ℕ, zero, suc, ◌-◌, String, Bool, false, not, ◌&&◌, ◌||◌, Option, none, some, ◌==◌, ltb,
  if◌then◌else◌,
}
use agent_fault_lab.Exceptions.{value_error, Result, ok, raised, ◌>>=◌, Action, and_then}
use agent_fault_lab.Float.{Float, max}
use agent_fault_lab.Json.Equal.{call_eq}
use agent_fault_lab.Model.{ToolCall}
use agent_fault_lab.Pydantic.{Pydantic}
use agent_fault_lab.Tools.{create_arguments, get_arguments}
use agent_fault_lab.Contracts.{ErrorCode, wrong_arguments, unknown_name}
use agent_fault_lab.Agent.{ToolDelivery}
use agent_fault_lab.Execution.{Operation}
use agent_fault_lab.Journal.{RunState, is_some}
use agent_fault_lab.Journal.Store.{operation_started, interrupted_reservation_charged}
use agent_fault_lab.Durable.{Session, Platform}
use agent_fault_lab.Supervision.{Workers, maximum, save_operation, note, exhausted}
use agent_fault_lab.Supervision.Attempt.{one_attempt}

module _ {F W : Type 0} (float : Float F) (platform : Platform F W) (workers : Workers F W)
    (pydantic : Pydantic) where
  -- The loop, with `left` the attempts that the policy leaves: `maximum - op.attempts`.
  unfoldable pub attempts : ToolCall → ℕ → Operation F → Action (Session F W) ToolDelivery
  unfolding one_attempt
  attempts call zero op s = exhausted float platform workers s
  attempts call (suc left) op s =
      let rest = attempts call left in
      if ltb s.journal.state.execution.total_attempts
        s.journal.state.execution_limits.total_attempts
      then one_attempt float platform workers pydantic call rest op s
      else exhausted float platform workers s

  abbrev pub checked_arguments : ToolCall → Result (Unit {0})
  checked_arguments call =
      if call.name == "create_task"
      then (do title ← create_arguments pydantic call.arguments; ok tt)
      else (do id ← get_arguments pydantic call.arguments; ok tt)

  abbrev pub new_operation : ToolCall → String → String → RunState F → Operation F
  new_operation call call_id id state = record {
    operation_id = id;
    call_id = call_id;
    call = call;
    attempts = 0;
    remaining_seconds = state.execution_limits.operation_seconds;
    reserved_seconds = float.zero;
    result = none;
  }

  unfoldable pub begin_operation : ToolCall → String → Action (Session F W) (Operation F)
  unfolding save_operation note
  begin_operation call call_id s =
      let (id, w) = workers.uuid s.world in
      let op = new_operation call call_id id s.journal.state in
      and_then (save_operation float platform workers op)
        (λ saved. and_then (note float platform workers operation_started) (λ noted t. (ok op, t)))
        (record s { world = w })

  -- the active operation where it is this call's, else a new one
  abbrev pub operation_for :
      ToolCall → String → Option (Operation F) → Action (Session F W) (Operation F)
  operation_for call call_id none s = begin_operation call call_id s
  operation_for call call_id (some op) s =
      if not (op.call_id == call_id)
      then (if is_some op.result
          then begin_operation call call_id s
          else (raised (value_error "Cannot replace an unfinished operation"), s))
      else if not (call_eq op.call call)
      then (raised (value_error "Checkpointed operation arguments changed"), s)
      else (ok op, s)

  abbrev pub is_zero : F → Bool
  is_zero a = float.leb float.zero a && float.leb a float.zero

  -- what was reserved for an attempt that a crash cut off
  abbrev pub interrupted : Operation F → Operation F
  interrupted op = record op {
    remaining_seconds = max float float.zero (float.sub op.remaining_seconds op.reserved_seconds);
    reserved_seconds = float.zero;
  }

  unfoldable pub charge : Operation F → Action (Session F W) (Operation F)
  unfolding save_operation note
  charge op s =
      if is_zero op.reserved_seconds
      then (ok op, s)
      else and_then
          (note float platform workers (interrupted_reservation_charged op.reserved_seconds))
          (λ noted.
            and_then (save_operation float platform workers (interrupted op))
              (λ saved t. (ok (interrupted op), t)))
          s

  abbrev pub attempts_left : ToolCall → Operation F → Action (Session F W) ToolDelivery
  attempts_left call op s = attempts call (maximum s.journal.state - op.attempts) op s

  -- A result that was saved is given again.
  abbrev pub perform :
      ToolCall → Operation F → Option ToolDelivery → Action (Session F W) ToolDelivery
  perform call op (some result) s = (ok result, s)
  perform call op none s = and_then (charge op) (attempts_left call) s

  abbrev pub refused : ErrorCode → String → ToolDelivery
  refused code message = record { content = workers.error_text code message; executed = false }

  abbrev pub admitted : ToolCall → String → Result (Unit {0}) → Action (Session F W) ToolDelivery
  admitted call call_id (raised e) s = (ok (refused wrong_arguments "Invalid tool arguments"), s)
  admitted call call_id (ok checked) s =
      and_then (operation_for call call_id s.journal.state.execution.active)
        (λ op. perform call op op.result) s

  -- `Supervisor.execute`
  unfoldable pub execute : ToolCall → String → Action (Session F W) ToolDelivery
  unfolding attempts begin_operation charge
  execute call call_id s =
      if not (call.name == "create_task" || call.name == "get_task")
      then (ok (refused unknown_name "Unknown tool"), s)
      else admitted call call_id (checked_arguments call) s
