-- ===== src/Supervision/Kept/Execute.antt =====
-- `Supervisor.execute` changes nothing of a run's state but its execution, so that the loop of a
-- durable run can rely on it.
use agent_fault_lab.Prelude.{
  ℕ, zero, suc, ◌-◌, String, not, ◌||◌, Option, none, some, ◌==◌, ltb, if◌then◌else◌,
}
use agent_fault_lab.Exceptions.{value_error, Result, ok, raised, and_then}
use agent_fault_lab.Float.{Float}
use agent_fault_lab.Json.Equal.{call_eq}
use agent_fault_lab.Model.{ToolCall}
use agent_fault_lab.Pydantic.{Pydantic}
use agent_fault_lab.Contracts.{unknown_name, execution_limit}
use agent_fault_lab.Agent.{ToolDelivery}
use agent_fault_lab.Execution.{Operation}
use agent_fault_lab.Journal.{RunState, is_some}
use agent_fault_lab.Journal.Store.{operation_started, interrupted_reservation_charged}
use agent_fault_lab.Durable.{Session, Platform}
use agent_fault_lab.Durable.Kept.{Configuration}
use agent_fault_lab.Supervision.{Workers, maximum, save_operation, note, exhausted}
use agent_fault_lab.Supervision.Attempt.{one_attempt}
use agent_fault_lab.Supervision.Execute.{
  attempts, checked_arguments, new_operation, begin_operation, operation_for, is_zero, interrupted,
  charge, attempts_left, perform, refused, admitted, execute,
}
use agent_fault_lab.Supervision.Kept.{
  IsRun, Keeps, and_then-Keeps, if-IsRun, save_operation-Keeps, note-Keeps, finish-Keeps,
}
use agent_fault_lab.Supervision.Kept.Attempt.{one_attempt-Keeps}

module _ {F W : Type 0} (float : Float F) (c : Configuration F) (z : RunState F)
    (platform : Platform F W) (workers : Workers F W) (pydantic : Pydantic) where
  exhausted-Keeps : Keeps float c z (exhausted float platform workers)
  exhausted-Keeps s run =
      finish-Keeps float c z platform workers execution_limit
        "Attempt budget exhausted; storage outcome is unknown" s run

  attempts-Keeps :
      (call : ToolCall) (left : ℕ) (op : Operation F)
      → Keeps float c z (attempts float platform workers pydantic call left op)
  unfolding attempts
  attempts-Keeps call zero op s run = exhausted-Keeps s run
  attempts-Keeps call (suc left) op s run =
      let rest = attempts float platform workers pydantic call left in
      let z' = s.journal.state in
      if-IsRun float c z (ltb z'.execution.total_attempts z'.execution_limits.total_attempts)
        (one_attempt float platform workers pydantic call rest op s)
        (exhausted float platform workers s)
        (one_attempt-Keeps float c z platform workers pydantic call rest (attempts-Keeps call left)
          op s run)
        (exhausted-Keeps s run)

  begin_operation-Keeps :
      (call : ToolCall) (call_id : String)
      → Keeps float c z (begin_operation float platform workers pydantic call call_id)
  unfolding begin_operation
  begin_operation-Keeps call call_id s run =
      let (id, w) = workers.uuid s.world in
      let op = new_operation float platform workers pydantic call call_id id s.journal.state in
      let started =
        and_then (note float platform workers operation_started) (λ noted t. (ok op, t)) in
      and_then-Keeps float c z (save_operation float platform workers op) (λ saved. started)
        (save_operation-Keeps float c z platform workers op)
        (λ saved.
          and_then-Keeps float c z (note float platform workers operation_started)
            (λ noted t. (ok op, t)) (note-Keeps float c z platform workers operation_started)
            (λ noted t run'. run'))
        (record s { world = w }) run

  operation_for-Keeps :
      (call : ToolCall) (call_id : String) (active : Option (Operation F))
      → Keeps float c z (operation_for float platform workers pydantic call call_id active)
  operation_for-Keeps call call_id none s run = begin_operation-Keeps call call_id s run
  operation_for-Keeps call call_id (some op) s run =
      let new = begin_operation float platform workers pydantic call call_id s in
      let unfinished : Result (Operation F) × Session F W =
        (raised (value_error "Cannot replace an unfinished operation"), s) in
      let changed : Result (Operation F) × Session F W =
        (raised (value_error "Checkpointed operation arguments changed"), s) in
      let same : Result (Operation F) × Session F W = (ok op, s) in
      if-IsRun float c z (not (op.call_id == call_id))
        (if is_some op.result then new else unfinished)
        (if not (call_eq op.call call) then changed else same)
        (if-IsRun float c z (is_some op.result) new unfinished
          (begin_operation-Keeps call call_id s run) run)
        (if-IsRun float c z (not (call_eq op.call call)) changed same run run)

  charge-Keeps : (op : Operation F) → Keeps float c z (charge float platform workers pydantic op)
  unfolding charge
  charge-Keeps op s run =
      let left = interrupted float platform workers pydantic op in
      let unchanged : Result (Operation F) × Session F W = (ok op, s) in
      let told =
        note float platform workers (interrupted_reservation_charged op.reserved_seconds) in
      let saved = and_then (save_operation float platform workers left) (λ saved t. (ok left, t)) in
      if-IsRun float c z (is_zero float platform workers pydantic op.reserved_seconds) unchanged
        (and_then told (λ noted. saved) s) run
        (and_then-Keeps float c z told (λ noted. saved)
          (note-Keeps float c z platform workers
            (interrupted_reservation_charged op.reserved_seconds))
          (λ noted.
            and_then-Keeps float c z (save_operation float platform workers left)
              (λ saved t. (ok left, t)) (save_operation-Keeps float c z platform workers left)
              (λ saved t run'. run'))
          s run)

  perform-Keeps :
      (call : ToolCall) (op : Operation F) (result : Option ToolDelivery)
      → Keeps float c z (perform float platform workers pydantic call op result)
  perform-Keeps call op (some result) s run = run
  perform-Keeps call op none s run =
      and_then-Keeps float c z (charge float platform workers pydantic op)
        (attempts_left float platform workers pydantic call) (charge-Keeps op)
        (λ op' t run'. attempts-Keeps call (maximum t.journal.state - op'.attempts) op' t run') s
        run

  admitted-Keeps :
      (call : ToolCall) (call_id : String) (checked : Result (Unit {0}))
      → Keeps float c z (admitted float platform workers pydantic call call_id checked)
  admitted-Keeps call call_id (raised e) s run = run
  admitted-Keeps call call_id (ok done) s run =
      let active = s.journal.state.execution.active in
      and_then-Keeps float c z (operation_for float platform workers pydantic call call_id active)
        (λ op. perform float platform workers pydantic call op op.result)
        (operation_for-Keeps call call_id active) (λ op. perform-Keeps call op op.result) s run

  -- From a session that is held, and whose state is `z` but for the execution, a supervised call ends
  -- in such a session, with a result or an exception, whatever the worker and the clock do.
  pub execute-IsRun :
      (call : ToolCall) (call_id : String) (s : Session F W)
      → IsRun float c z s
      → IsRun float c z (execute float platform workers pydantic call call_id s).1
  unfolding execute
  execute-IsRun call call_id s run =
      let unknown : Result ToolDelivery × Session F W =
        (ok (refused float platform workers pydantic unknown_name "Unknown tool"), s) in
      let checked = checked_arguments float platform workers pydantic call in
      if-IsRun float c z (not (call.name == "create_task" || call.name == "get_task")) unknown
        (admitted float platform workers pydantic call call_id checked s) run
        (admitted-Keeps call call_id checked s run)
