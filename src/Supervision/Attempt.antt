-- ===== src/Supervision/Attempt.antt =====
-- supervision.py: the body of the loop of `execute`.
use agent_fault_lab.Prelude.{
  ◌+◌, String, true, not, Option, none, some, ◌==◌, eqb, leb, to_nat, if◌then◌else◌,
}
use agent_fault_lab.Exceptions.{
  contract_error, assertion_error, Result, ok, raised, Action, and_then,
}
use agent_fault_lab.Float.{Float, max, min}
use agent_fault_lab.Model.{ToolCall}
use agent_fault_lab.Pydantic.{Pydantic}
use agent_fault_lab.Contracts.{
  ErrorCode, invalid_result, execution_limit, ToolError, ResponseEnvelope, validate_response,
}
use agent_fault_lab.Agent.{ToolDelivery}
use agent_fault_lab.Execution.{
  observe, same_policy, ExecutionLimits, Operation, ExecutionState, WorkerFault,
}
use agent_fault_lab.Journal.{RunState}
use agent_fault_lab.Journal.Store.{
  backoff_started, attempt_started, response_captured, contract_rejected, attempt_succeeded,
  attempt_failed, retry_scheduled,
}
use agent_fault_lab.Durable.{Session, Platform}
use agent_fault_lab.Supervision.{
  Workers, maximum, is_retryable, fault_for, wait_after, checkpoint, save_operation, note, settle,
  finish, finish_with,
}
use agent_fault_lab.Supervision.Worker.{dispatch}

module _ {F W : Type 0} (float : Float F) (platform : Platform F W) (workers : Workers F W)
    (pydantic : Pydantic) where
  -- The parts of one attempt, the last one first; `rest` is the loop's next iteration.
  module _ (call : ToolCall) (rest : Operation F → Action (Session F W) ToolDelivery) where
    abbrev pub after_failure :
        Operation F → ErrorCode → Option ToolError → Action (Session F W) ToolDelivery
    after_failure op code error s =
        if not (is_retryable code)
        then finish_with float platform workers error s
        else if leb (maximum s.journal.state) op.attempts
        then finish float platform workers code "Tool execution stopped; storage outcome is unknown"
            s
        else and_then (note float platform workers (retry_scheduled code)) (λ noted. rest op) s

    abbrev pub failed :
        Operation F → Option ErrorCode → Option ToolError → Action (Session F W) ToolDelivery
    failed op none error s = (raised assertion_error, s)
    failed op (some code) error s =
        and_then (note float platform workers (attempt_failed code))
          (λ noted. after_failure op code error) s

    abbrev pub code_of : Option ToolError → Option ErrorCode
    code_of none = none
    code_of (some error) = some error.code

    abbrev pub accepted :
        Operation F → String → ResponseEnvelope → Action (Session F W) ToolDelivery
    accepted op raw response s =
        if response.succeeded
        then settle float platform workers (record { content = raw; executed = true })
            attempt_succeeded op s
        else failed op (code_of response.error) response.error s

    abbrev pub judged :
        Operation F → String → Result ResponseEnvelope → Action (Session F W) ToolDelivery
    judged op raw (ok response) s = accepted op raw response s
    judged op raw (raised (contract_error stage)) s =
        and_then (note float platform workers (contract_rejected stage))
          (λ noted. finish float platform workers invalid_result "Tool response failed validation")
          s
    judged op raw (raised e) s = (raised e, s)

    abbrev pub replied :
        Operation F → Option String × Option ErrorCode → Action (Session F W) ToolDelivery
    replied op (none, failure) s = failed op failure none s
    replied op (some raw, failure) s =
        and_then (note float platform workers (response_captured raw))
          (λ noted. judged op raw (validate_response pydantic workers.decode raw call)) s

    -- the time that the attempt took
    abbrev pub charged : F → F → Operation F → Operation F
    charged start end op = record op {
      remaining_seconds =
          max float float.zero (float.sub op.remaining_seconds (float.sub end start));
      reserved_seconds = float.zero;
    }

    abbrev pub came_back :
        F → Operation F → Option String × Option ErrorCode → Action (Session F W) ToolDelivery
    came_back start op reply s =
        let (end, w) = workers.clock s.world in
        let op' = charged start end op in
        and_then (save_operation float platform workers op') (λ saved. replied op' reply)
          (record s { world = w })

    abbrev pub dispatched : WorkerFault → F → Operation F → Action (Session F W) ToolDelivery
    dispatched fault timeout op s =
        let (start, w) = workers.clock s.world in
        and_then (dispatch float platform workers call fault timeout op.remaining_seconds)
          (came_back start op) (record s { world = w })

    abbrev pub timeout_of : ExecutionLimits F → Operation F → F
    timeout_of l op = min float l.attempt_seconds (float.sub op.remaining_seconds l.grace_seconds)

    abbrev pub reservation_of : RunState F → Operation F → F
    reservation_of state op =
        if same_policy state.config.policy observe
        then op.remaining_seconds
        else min float op.remaining_seconds
            (float.add (timeout_of state.execution_limits op) state.execution_limits.grace_seconds)

    abbrev pub attempted : RunState F → Operation F → Operation F
    attempted state op = record op {
      attempts = op.attempts + 1;
      reserved_seconds = reservation_of state op;
    }

    -- An attempt is counted, and its time reserved, before it is made.
    abbrev pub counted_attempt : RunState F → Operation F → ExecutionState F
    counted_attempt state op = record {
      active = some (attempted state op);
      total_attempts = state.execution.total_attempts + 1;
      fault_cursor = state.execution.fault_cursor + to_nat (call.name == "create_task");
    }

    abbrev pub reserve : Operation F → Action (Session F W) ToolDelivery
    reserve op s =
        let state = s.journal.state in
        let fault = fault_for state.config.case state.execution.fault_cursor call in
        and_then (checkpoint float platform workers (counted_attempt state op))
          (λ saved.
            and_then (note float platform workers (attempt_started (reservation_of state op) fault))
              (λ noted.
                dispatched fault (timeout_of state.execution_limits op) (attempted state op)))
          s

    abbrev pub timed : Operation F → Action (Session F W) ToolDelivery
    timed op s =
        if float.leb op.remaining_seconds s.journal.state.execution_limits.grace_seconds
        then finish float platform workers execution_limit "Operation time budget exhausted" s
        else reserve op s

    abbrev pub slept : F → Operation F → Action (Session F W) ToolDelivery
    slept wait op s =
        let (start, w1) = workers.clock s.world in
        let (end, w2) = workers.clock (workers.sleeper wait w1) in
        let op' : Operation F = record op {
          remaining_seconds =
              max float float.zero
                (float.sub op.remaining_seconds (max float wait (float.sub end start)));
        } in
        and_then (save_operation float platform workers op') (λ saved. timed op')
          (record s { world = w2 })

    abbrev pub back_off : F → Operation F → Action (Session F W) ToolDelivery
    back_off wait op s =
        if float.leb op.remaining_seconds
          (float.add wait s.journal.state.execution_limits.grace_seconds)
        then finish float platform workers execution_limit
            "Operation budget exhausted during backoff" s
        else and_then
            (save_operation float platform workers (record op { reserved_seconds = wait }))
            (λ saved.
              and_then (note float platform workers (backoff_started wait))
                (λ noted. slept wait op))
            s

    -- the body of the loop
    unfoldable pub one_attempt : Operation F → Action (Session F W) ToolDelivery
    unfolding finish fault_for dispatch
    one_attempt op s =
        if eqb op.attempts 0
        then timed op s
        else back_off (wait_after s.journal.state.execution_limits op.attempts) op s
