-- ===== src/Retries.antt =====
-- src/agent_fault_lab/retries.py: bounded retries, one operation identity with several attempts at
-- its delivery. `dump` is the JSON text of a successful response, `error_text` that of a failed one;
-- `operation_id` and `uuids` are what `uuid4()` returns for the operation and for each attempt.
-- Messages of errors are abridged: a stage or a cause in them is left out.
pub mod Grown
pub mod Once
mod Examples
use agent_fault_lab.Prelude.{
  ℕ, zero, suc, ◌+◌, String, Bool, true, false, not, ◌&&◌, ◌||◌, Option, none, some, List, [], ◌∷◌,
  ◌++◌, ◌==◌, is_blank, if◌then◌else◌,
}
use agent_fault_lab.Exceptions.{
  Exception, operation_conflict, contract_error, validation_error, sqlite_error,
  delivery_unavailable, assertion_error, Result, ok, raised, ◌>>=◌, Action, and_then,
}
use agent_fault_lab.Json.{Decoded, decoded, parsed, not_json, Raw}
use agent_fault_lab.Model.{ToolCall}
use agent_fault_lab.Pydantic.{Pydantic}
use agent_fault_lab.Tasks.{Task, CreateReceipt, File, create_task, create_task_idempotent, get_task}
use agent_fault_lab.Tools.{create_arguments, get_arguments}
use agent_fault_lab.Contracts.{
  ErrorCode, wrong_arguments, unknown_name, storage_error, invalid_result, delivery_error,
  conflicting_operation, validate_response,
}
use agent_fault_lab.Agent.{ToolDelivery}

pub data RetryCase : Type 0 where
  retry_healthy before_write_once lost_reply_once : RetryCase

pub data RetryPolicy : Type 0 where
  single_attempt retry_unprotected retry_idempotent : RetryPolicy

-- The events carry the number of the attempt, which its identifier ends in.
pub data RetryEvent : Type 0 where
  operation_started : String → ToolCall → RetryEvent
  attempt_started : ℕ → RetryEvent
  storage_entered : ℕ → RetryEvent
  storage_returned : ℕ → Bool → Option Task → RetryEvent
  retry_fault_injected : ℕ → Bool → RetryEvent
  response_captured : ℕ → String → RetryEvent
  attempt_failed : ℕ → ErrorCode → RetryEvent
  retry_scheduled : ℕ → RetryEvent
  attempt_succeeded : ℕ → RetryEvent
  operation_error : ErrorCode → RetryEvent

-- the injector's flag, the file of the store, and what was recorded
pub record RetryState : Type 0 where
  pub consumed : Bool
  pub file : File
  pub events : List RetryEvent

pub data Arguments : Type 0 where
  creating : String → Arguments
  getting : String → Arguments

abbrev pub is_before : RetryCase → Bool
is_before before_write_once = true
is_before _ = false

abbrev pub is_lost : RetryCase → Bool
is_lost lost_reply_once = true
is_lost _ = false

abbrev pub is_protected : RetryPolicy → Bool
is_protected retry_idempotent = true
is_protected _ = false

abbrev pub emit : RetryEvent → RetryState → RetryState
emit e s = record s { events = s.events ++ e ∷ [] }

-- `_fail`
abbrev pub fail : {A : Type 0} → ℕ → Bool → Action RetryState A
fail number committed s = (
  raised delivery_unavailable,
  emit (retry_fault_injected number committed) (record s { consumed = true }),
)

abbrev pub unkeyed : Result Task × File → Result CreateReceipt × File
unkeyed (ok t, file) = (ok (record { task = t; replayed = false }), file)
unkeyed (raised e, file) = (raised e, file)

-- the creation, keyed where the policy protects it
unfoldable pub store : Bool → String → String → String → Action File CreateReceipt
store true uuid title operation_id file = create_task_idempotent uuid title operation_id file
store false uuid title operation_id file = unkeyed (create_task uuid title file)

abbrev pub lost_after : RetryCase → ℕ → CreateReceipt → Action RetryState CreateReceipt
lost_after case number receipt s =
    if is_lost case && not s.consumed then fail number true s else (ok receipt, s)

abbrev pub returned : RetryCase → ℕ → Result CreateReceipt → Action RetryState CreateReceipt
returned case number (raised e) s = (raised e, s)
returned case number (ok receipt) s =
    lost_after case number receipt
      (emit (storage_returned number receipt.replayed (some receipt.task)) s)

-- the store is entered
abbrev pub entered :
    RetryCase → Bool → String → String → String → ℕ → Action RetryState CreateReceipt
entered case protected uuid title operation_id number s =
    let (r, file') = store protected uuid title operation_id s.file in
    returned case number r (record (emit (storage_entered number) s) { file = file' })

-- `RetryFaultInjector.create`
unfoldable pub create :
    RetryCase → Bool → String → String → String → ℕ → Action RetryState CreateReceipt
unfolding store
create case protected uuid title operation_id number s =
    if is_before case && not s.consumed
    then fail number false s
    else entered case protected uuid title operation_id number s

abbrev pub read : ℕ → Result (Option Task) → Action RetryState (Option Task)
read number (raised e) s = (raised e, s)
read number (ok t) s = (ok t, emit (storage_returned number false t) s)

abbrev pub task_of : Result CreateReceipt × RetryState → Result (Option Task) × RetryState
task_of (ok receipt, s) = (ok (some receipt.task), s)
task_of (raised e, s) = (raised e, s)

-- the storage part of `_attempt`
unfoldable pub attempt_storage :
    RetryCase → RetryPolicy → String → String → Arguments → ℕ → Action RetryState (Option Task)
unfolding create
attempt_storage case policy uuid operation_id (creating title) number s =
    task_of (create case (is_protected policy) uuid title operation_id number s)
attempt_storage case policy uuid operation_id (getting id) number s =
    let (r, file') = get_task id s.file in
    read number r (record (emit (storage_entered number) s) { file = file' })

-- `TaskValue` refuses blank fields.
abbrev pub task_value : Option Task → Result (Option Task)
task_value none = ok none
task_value (some t) =
    if is_blank t.id || is_blank t.title then raised validation_error else ok (some t)

module _ (pydantic : Pydantic) (decode : String → Decoded) (dump : Option Task → String)
    (error_text : ErrorCode → String → String) where
  abbrev pub encoded : Option Task → Result String
  encoded t = do v ← task_value t; ok (dump v)

  abbrev pub validated : ToolCall → String → Result String
  validated call raw = do r ← validate_response pydantic decode raw call; ok raw

  abbrev pub captured : ToolCall → ℕ → Result String → Action RetryState String
  captured call number (raised e) s = (raised e, s)
  captured call number (ok raw) s = (validated call raw, emit (response_captured number raw) s)

  abbrev pub dumped : Result (Option Task) → Result String
  dumped r = do t ← r; encoded t

  -- the body of the `try`: `_attempt`, the record of the response and its validation
  unfoldable pub attempt :
      RetryCase
      → RetryPolicy
      → String
      → String
      → ToolCall
      → Arguments
      → ℕ
      → Action RetryState String
  unfolding attempt_storage
  attempt case policy uuid operation_id call arguments number s =
      let (r, s') = attempt_storage case policy uuid operation_id arguments number s in
      captured call number (dumped r) s'

  -- `_error`
  abbrev pub failed : ErrorCode → String → Bool → Action RetryState ToolDelivery
  failed code message executed s = (
    ok (record { content = error_text code message; executed = executed }),
    emit (operation_error code) s,
  )

  abbrev pub failed_attempt : ℕ → ErrorCode → String → Action RetryState ToolDelivery
  failed_attempt number code message s =
      failed code message true (emit (attempt_failed number code) s)

  -- The handlers; `retry` is what follows a delivery failure that is not the last attempt's.
  abbrev pub handle :
      ℕ
      → Option (RetryState → Result ToolDelivery × RetryState)
      → Result String
      → Action RetryState ToolDelivery
  handle number retry (ok raw) s =
      (ok (record { content = raw; executed = true }), emit (attempt_succeeded number) s)
  handle number (some retry) (raised delivery_unavailable) s =
      retry (emit (retry_scheduled number) (emit (attempt_failed number delivery_error) s))
  handle number none (raised delivery_unavailable) s =
      failed_attempt number delivery_error "Tool reply unavailable; storage outcome is unknown" s
  handle number retry (raised operation_conflict) s =
      failed_attempt number conflicting_operation "Operation ID was used with different arguments" s
  handle number retry (raised (sqlite_error m)) s = failed_attempt number storage_error m s
  handle number retry (raised (contract_error stage)) s =
      failed_attempt number invalid_result "Tool response failed validation" s
  handle number retry (raised e) s = (raised e, s)

  -- the attempts that are left after the attempt `number`
  unfoldable pub attempts :
      RetryCase
      → RetryPolicy
      → (ℕ → String)
      → String
      → ToolCall
      → Arguments
      → ℕ
      → ℕ
      → Action RetryState ToolDelivery
  unfolding attempt
  attempts case policy uuids operation_id call arguments number zero s =
      let (r, s') =
        attempt case policy (uuids number) operation_id call arguments number
          (emit (attempt_started number) s) in
      handle number none r s'
  attempts case policy uuids operation_id call arguments number (suc left) s =
      let (r, s') =
        attempt case policy (uuids number) operation_id call arguments number
          (emit (attempt_started number) s) in
      handle number
        (some (attempts case policy uuids operation_id call arguments (suc number) left)) r s'

  -- `limit - 1`
  abbrev pub retries : RetryPolicy → ℕ
  retries single_attempt = 0
  retries _ = 1

  abbrev pub started :
      RetryCase
      → RetryPolicy
      → (ℕ → String)
      → String
      → ToolCall
      → Result Arguments
      → Action RetryState ToolDelivery
  started case policy uuids operation_id call (raised e) s =
      failed wrong_arguments "Invalid tool arguments" false s
  started case policy uuids operation_id call (ok arguments) s =
      attempts case policy uuids operation_id call arguments 1 (retries policy)
        (emit (operation_started operation_id call) s)

  abbrev pub arguments_of : ToolCall → Result Arguments
  arguments_of call =
      if call.name == "create_task"
      then (do title ← create_arguments pydantic call.arguments; ok (creating title))
      else (do id ← get_arguments pydantic call.arguments; ok (getting id))

  -- `RetryExecutor.execute`
  unfoldable pub execute :
      RetryCase → RetryPolicy → (ℕ → String) → String → ToolCall → Action RetryState ToolDelivery
  unfolding attempts
  execute case policy uuids operation_id call s =
      if not (call.name == "create_task" || call.name == "get_task")
      then failed unknown_name "Unknown tool" false s
      else started case policy uuids operation_id call (arguments_of call) s
