-- ===== src/Supervision/Kept/Attempt.antt =====
-- An attempt changes nothing of a run's state but its execution.
use agent_fault_lab.Prelude.{String, true, not, Option, none, some, eqb, leb, if◌then◌else◌}
use agent_fault_lab.Exceptions.{
  value_error, operation_conflict, contract_error, validation_error, sqlite_error, file_exists,
  delivery_unavailable, provider_error, assertion_error, recursion_error, Result, ok, raised,
  Action, and_then,
}
use agent_fault_lab.Float.{Float, max}
use agent_fault_lab.Model.{ToolCall}
use agent_fault_lab.Pydantic.{Pydantic}
use agent_fault_lab.Contracts.{
  ErrorCode, invalid_result, execution_limit, ToolError, ResponseEnvelope, validate_response,
}
use agent_fault_lab.Agent.{ToolDelivery}
use agent_fault_lab.Execution.{Operation, WorkerFault}
use agent_fault_lab.Journal.{RunState}
use agent_fault_lab.Journal.Store.{
  backoff_started, attempt_started, response_captured, contract_rejected, attempt_succeeded,
  attempt_failed, retry_scheduled,
}
use agent_fault_lab.Durable.{Session, Platform}
use agent_fault_lab.Durable.Kept.{Configuration}
use agent_fault_lab.Supervision.{
  Workers, maximum, is_retryable, fault_for, wait_after, checkpoint, save_operation, note, settle,
  finish, finish_with,
}
use agent_fault_lab.Supervision.Worker.{dispatch}
use agent_fault_lab.Supervision.Attempt.{
  after_failure, failed, code_of, accepted, judged, replied, charged, came_back, dispatched,
  timeout_of, reservation_of, attempted, counted_attempt, reserve, timed, slept, back_off,
  one_attempt,
}
use agent_fault_lab.Supervision.Kept.{
  Keeps, and_then-Keeps, if-IsRun, checkpoint-Keeps, save_operation-Keeps, note-Keeps, settle-Keeps,
  finish-Keeps, finish_with-Keeps,
}
use agent_fault_lab.Supervision.Kept.Worker.{dispatch-Keeps}

module _ {F W : Type 0} (float : Float F) (c : Configuration F) (z : RunState F)
    (platform : Platform F W) (workers : Workers F W) (pydantic : Pydantic) (call : ToolCall)
    (rest : Operation F → Action (Session F W) ToolDelivery)
    (rest-Keeps : (op : Operation F) → Keeps float c z (rest op)) where
  after_failure-Keeps :
      (op : Operation F) (code : ErrorCode) (error : Option ToolError)
      → Keeps float c z (after_failure float platform workers pydantic call rest op code error)
  after_failure-Keeps op code error s run =
      let given_up : String = "Tool execution stopped; storage outcome is unknown" in
      let again =
        and_then (note float platform workers (retry_scheduled code)) (λ noted. rest op) s in
      let last = finish float platform workers code given_up s in
      let most = leb (maximum s.journal.state) op.attempts in
      if-IsRun float c z (not (is_retryable code)) (finish_with float platform workers error s)
        (if most then last else again) (finish_with-Keeps float c z platform workers error s run)
        (if-IsRun float c z most last again
          (finish-Keeps float c z platform workers code given_up s run)
          (and_then-Keeps float c z (note float platform workers (retry_scheduled code))
            (λ noted. rest op) (note-Keeps float c z platform workers (retry_scheduled code))
            (λ noted. rest-Keeps op) s run))

  failed-Keeps :
      (op : Operation F) (code : Option ErrorCode) (error : Option ToolError)
      → Keeps float c z (failed float platform workers pydantic call rest op code error)
  failed-Keeps op none error s run = run
  failed-Keeps op (some code) error s run =
      and_then-Keeps float c z (note float platform workers (attempt_failed code))
        (λ noted. after_failure float platform workers pydantic call rest op code error)
        (note-Keeps float c z platform workers (attempt_failed code))
        (λ noted. after_failure-Keeps op code error) s run

  accepted-Keeps :
      (op : Operation F) (raw : String) (response : ResponseEnvelope)
      → Keeps float c z (accepted float platform workers pydantic call rest op raw response)
  accepted-Keeps op raw response s run =
      let result : ToolDelivery = record { content = raw; executed = true } in
      let code = code_of float platform workers pydantic call rest response.error in
      if-IsRun float c z response.succeeded
        (settle float platform workers result attempt_succeeded op s)
        (failed float platform workers pydantic call rest op code response.error s)
        (settle-Keeps float c z platform workers result attempt_succeeded op s run)
        (failed-Keeps op code response.error s run)

  judged-Keeps :
      (op : Operation F) (raw : String) (response : Result ResponseEnvelope)
      → Keeps float c z (judged float platform workers pydantic call rest op raw response)
  judged-Keeps op raw (ok response) s run = accepted-Keeps op raw response s run
  judged-Keeps op raw (raised (contract_error stage)) s run =
      let message : String = "Tool response failed validation" in
      and_then-Keeps float c z (note float platform workers (contract_rejected stage))
        (λ noted. finish float platform workers invalid_result message)
        (note-Keeps float c z platform workers (contract_rejected stage))
        (λ noted. finish-Keeps float c z platform workers invalid_result message) s run
  judged-Keeps op raw (raised (value_error m)) s run = run
  judged-Keeps op raw (raised operation_conflict) s run = run
  judged-Keeps op raw (raised validation_error) s run = run
  judged-Keeps op raw (raised (sqlite_error m)) s run = run
  judged-Keeps op raw (raised file_exists) s run = run
  judged-Keeps op raw (raised delivery_unavailable) s run = run
  judged-Keeps op raw (raised (provider_error m)) s run = run
  judged-Keeps op raw (raised assertion_error) s run = run
  judged-Keeps op raw (raised recursion_error) s run = run

  replied-Keeps :
      (op : Operation F) (reply : Option String × Option ErrorCode)
      → Keeps float c z (replied float platform workers pydantic call rest op reply)
  replied-Keeps op (none, failure) s run = failed-Keeps op failure none s run
  replied-Keeps op (some raw, failure) s run =
      let response = validate_response pydantic workers.decode raw call in
      and_then-Keeps float c z (note float platform workers (response_captured raw))
        (λ noted. judged float platform workers pydantic call rest op raw response)
        (note-Keeps float c z platform workers (response_captured raw))
        (λ noted. judged-Keeps op raw response) s run

  came_back-Keeps :
      (start : F) (op : Operation F) (reply : Option String × Option ErrorCode)
      → Keeps float c z (came_back float platform workers pydantic call rest start op reply)
  came_back-Keeps start op reply s run =
      let (end, w) = workers.clock s.world in
      let op' = charged float platform workers pydantic call rest start end op in
      and_then-Keeps float c z (save_operation float platform workers op')
        (λ saved. replied float platform workers pydantic call rest op' reply)
        (save_operation-Keeps float c z platform workers op') (λ saved. replied-Keeps op' reply)
        (record s { world = w }) run

  dispatched-Keeps :
      (fault : WorkerFault) (timeout : F) (op : Operation F)
      → Keeps float c z (dispatched float platform workers pydantic call rest fault timeout op)
  dispatched-Keeps fault timeout op s run =
      let (start, w) = workers.clock s.world in
      and_then-Keeps float c z
        (dispatch float platform workers call fault timeout op.remaining_seconds)
        (came_back float platform workers pydantic call rest start op)
        (dispatch-Keeps float c z platform workers call fault timeout op.remaining_seconds)
        (came_back-Keeps start op) (record s { world = w }) run

  reserve-Keeps :
      (op : Operation F) → Keeps float c z (reserve float platform workers pydantic call rest op)
  reserve-Keeps op s run =
      let state = s.journal.state in
      let fault = fault_for state.config.case state.execution.fault_cursor call in
      let e = counted_attempt float platform workers pydantic call rest state op in
      let reserved = reservation_of float platform workers pydantic call rest state op in
      let timeout =
        timeout_of float platform workers pydantic call rest state.execution_limits op in
      let op' = attempted float platform workers pydantic call rest state op in
      let body = dispatched float platform workers pydantic call rest fault timeout op' in
      and_then-Keeps float c z (checkpoint float platform workers e)
        (λ saved.
          and_then (note float platform workers (attempt_started reserved fault)) (λ noted. body))
        (checkpoint-Keeps float c z platform workers e)
        (λ saved.
          and_then-Keeps float c z (note float platform workers (attempt_started reserved fault))
            (λ noted. body) (note-Keeps float c z platform workers (attempt_started reserved fault))
            (λ noted. dispatched-Keeps fault timeout op'))
        s run

  timed-Keeps :
      (op : Operation F) → Keeps float c z (timed float platform workers pydantic call rest op)
  timed-Keeps op s run =
      let used_up : String = "Operation time budget exhausted" in
      if-IsRun float c z
        (float.leb op.remaining_seconds s.journal.state.execution_limits.grace_seconds)
        (finish float platform workers execution_limit used_up s)
        (reserve float platform workers pydantic call rest op s)
        (finish-Keeps float c z platform workers execution_limit used_up s run)
        (reserve-Keeps op s run)

  slept-Keeps :
      (wait : F) (op : Operation F)
      → Keeps float c z (slept float platform workers pydantic call rest wait op)
  slept-Keeps wait op s run =
      let (start, w1) = workers.clock s.world in
      let (end, w2) = workers.clock (workers.sleeper wait w1) in
      let op' : Operation F = record op {
        remaining_seconds =
            max float float.zero
              (float.sub op.remaining_seconds (max float wait (float.sub end start)));
      } in
      and_then-Keeps float c z (save_operation float platform workers op')
        (λ saved. timed float platform workers pydantic call rest op')
        (save_operation-Keeps float c z platform workers op') (λ saved. timed-Keeps op')
        (record s { world = w2 }) run

  back_off-Keeps :
      (wait : F) (op : Operation F)
      → Keeps float c z (back_off float platform workers pydantic call rest wait op)
  back_off-Keeps wait op s run =
      let used_up : String = "Operation budget exhausted during backoff" in
      let op' : Operation F = record op { reserved_seconds = wait } in
      let next = slept float platform workers pydantic call rest wait op in
      let paused = and_then (note float platform workers (backoff_started wait)) (λ noted. next) in
      if-IsRun float c z
        (float.leb op.remaining_seconds
          (float.add wait s.journal.state.execution_limits.grace_seconds))
        (finish float platform workers execution_limit used_up s)
        (and_then (save_operation float platform workers op') (λ saved. paused) s)
        (finish-Keeps float c z platform workers execution_limit used_up s run)
        (and_then-Keeps float c z (save_operation float platform workers op') (λ saved. paused)
          (save_operation-Keeps float c z platform workers op')
          (λ saved.
            and_then-Keeps float c z (note float platform workers (backoff_started wait))
              (λ noted. next) (note-Keeps float c z platform workers (backoff_started wait))
              (λ noted. slept-Keeps wait op))
          s run)

  pub one_attempt-Keeps :
      (op : Operation F)
      → Keeps float c z (one_attempt float platform workers pydantic call rest op)
  unfolding one_attempt
  one_attempt-Keeps op s run =
      let wait = wait_after s.journal.state.execution_limits op.attempts in
      if-IsRun float c z (eqb op.attempts 0) (timed float platform workers pydantic call rest op s)
        (back_off float platform workers pydantic call rest wait op s) (timed-Keeps op s run)
        (back_off-Keeps wait op s run)
