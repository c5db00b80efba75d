-- ===== src/Retries/Once.antt =====
-- Under the idempotent policy an operation adds at most one task, however many attempts are made.
use agent_fault_lab.Prelude.{
  ℕ, zero, suc, String, ◌≡◌, refl, sym, ◌∙◌, subst, inl, inr, true, not, ◌&&◌, Option, none, some,
  ◌==◌, eq_iff, Bool-cases,
}
use agent_fault_lab.Exceptions.{
  value_error, operation_conflict, contract_error, validation_error, sqlite_error, file_exists,
  delivery_unavailable, provider_error, assertion_error, recursion_error, Result, ok, raised,
}
use agent_fault_lab.Json.{Decoded}
use agent_fault_lab.Model.{ToolCall}
use agent_fault_lab.Pydantic.{Pydantic}
use agent_fault_lab.Tasks.{Task, CreateReceipt, File, create_task_idempotent, get_task}
use agent_fault_lab.Tools.Storage.{get_task-file}
use agent_fault_lab.Agent.{ToolDelivery}
use agent_fault_lab.Contracts.{ErrorCode, delivery_error}
use agent_fault_lab.Retries.{
  RetryCase, retry_idempotent, RetryState, Arguments, creating, getting, store, create, returned,
  task_of, read, is_before, is_lost, emit, attempt_storage, attempt, attempts, captured, dumped,
  handle, started, execute, retry_scheduled, attempt_failed, attempt_started, storage_entered,
  operation_started,
}
use agent_fault_lab.Tools.{create_arguments}
use agent_fault_lab.Retries.Grown.{Once, GrownFile, store-Once, Once-GrownFile}

returned-file :
    (case : RetryCase) (number : ℕ) (r : Result CreateReceipt) (s : RetryState)
    → (returned case number r s).1.file ≡ s.file
returned-file case number (raised e) s = refl
returned-file case number (ok receipt) s = elim (Bool-cases (is_lost case && not s.consumed)) [
  | inl e ↦ rw e refl
  | inr e ↦ rw e refl
]

create-Once :
    (case : RetryCase) (uuid title op : String) (number : ℕ) (base : File) (s : RetryState)
    → Once op title base s.file
    → Once op title base (create case true uuid title op number s).1.file
unfolding create store
create-Once case uuid title op number base s h =
    elim (Bool-cases (is_before case && not s.consumed)) [
      | inl e ↦ rw e h
      | inr e ↦
          let p = create_task_idempotent uuid title op s.file in
          let s' : RetryState = record (emit (storage_entered number) s) { file = p.1 } in
          rw e (
            subst (Once op title base) (sym (returned-file case number p.0 s'))
              (store-Once uuid title op base s.file h))
    ]

task_of-file : (p : Result CreateReceipt × RetryState) → (task_of p).1.file ≡ p.1.file
task_of-file (ok receipt, s) = refl
task_of-file (raised e, s) = refl

read-file :
    (number : ℕ) (r : Result (Option Task)) (s : RetryState) → (read number r s).1.file ≡ s.file
read-file number (ok t) s = refl
read-file number (raised e) s = refl

-- the title of the operation
abbrev title_of : Arguments → String → String
title_of (creating title) other = title
title_of (getting id) other = other

attempt_storage-Once :
    (case : RetryCase) (uuid other op : String) (arguments : Arguments) (number : ℕ) (base : File)
    (s : RetryState)
    → Once op (title_of arguments other) base s.file
    → Once op
        (title_of arguments other)
        base
        (attempt_storage case retry_idempotent uuid op arguments number s).1.file
unfolding attempt_storage
attempt_storage-Once case uuid other op (creating title) number base s h =
    subst (Once op title base) (sym (task_of-file (create case true uuid title op number s)))
      (create-Once case uuid title op number base s h)
attempt_storage-Once case uuid other op (getting id) number base s h =
    let p = get_task id s.file in
    let s' : RetryState = record (emit (storage_entered number) s) { file = p.1 } in
    subst (Once op other base) (sym (read-file number p.0 s' ∙ get_task-file id s.file)) h

module _ (pydantic : Pydantic) (decode : String → Decoded) (dump : Option Task → String)
    (error_text : ErrorCode → String → String) where
  captured-file :
      (call : ToolCall) (number : ℕ) (r : Result String) (s : RetryState)
      → (captured pydantic decode dump error_text call number r s).1.file ≡ s.file
  captured-file call number (ok raw) s = refl
  captured-file call number (raised e) s = refl

  handle-last :
      (number : ℕ) (r : Result String) (s : RetryState)
      → (handle pydantic decode dump error_text number none r s).1.file ≡ s.file
  handle-last number (ok raw) s = refl
  handle-last number (raised (value_error m)) s = refl
  handle-last number (raised operation_conflict) s = refl
  handle-last number (raised (contract_error m)) s = refl
  handle-last number (raised validation_error) s = refl
  handle-last number (raised (sqlite_error m)) s = refl
  handle-last number (raised file_exists) s = refl
  handle-last number (raised delivery_unavailable) s = refl
  handle-last number (raised (provider_error m)) s = refl
  handle-last number (raised assertion_error) s = refl
  handle-last number (raised recursion_error) s = refl

  handle-retry :
      (P : File → Type 0) (number : ℕ) (retry : RetryState → Result ToolDelivery × RetryState)
      (r : Result String) (s : RetryState)
      → P s.file
      → ((s' : RetryState) → P s'.file → P (retry s').1.file)
      → P (handle pydantic decode dump error_text number (some retry) r s).1.file
  handle-retry P number retry (ok raw) s h k = h
  handle-retry P number retry (raised (value_error m)) s h k = h
  handle-retry P number retry (raised operation_conflict) s h k = h
  handle-retry P number retry (raised (contract_error m)) s h k = h
  handle-retry P number retry (raised validation_error) s h k = h
  handle-retry P number retry (raised (sqlite_error m)) s h k = h
  handle-retry P number retry (raised file_exists) s h k = h
  handle-retry P number retry (raised delivery_unavailable) s h k =
      k (emit (retry_scheduled number) (emit (attempt_failed number delivery_error) s)) h
  handle-retry P number retry (raised (provider_error m)) s h k = h
  handle-retry P number retry (raised assertion_error) s h k = h
  handle-retry P number retry (raised recursion_error) s h k = h

  module _ (case : RetryCase) (uuids : ℕ → String) (op other : String) (call : ToolCall)
      (arguments : Arguments) (base : File) where
    attempt-Once :
        (uuid : String) (number : ℕ) (s : RetryState)
        → Once op (title_of arguments other) base s.file
        → Once op
            (title_of arguments other)
            base
            (attempt pydantic decode dump error_text case retry_idempotent uuid op call arguments
              number s).1.file
    unfolding attempt
    attempt-Once uuid number s h =
        let p = attempt_storage case retry_idempotent uuid op arguments number s in
        subst (Once op (title_of arguments other) base)
          (sym (captured-file call number (dumped pydantic decode dump error_text p.0) p.1))
          (attempt_storage-Once case uuid other op arguments number base s h)

    attempts-Once :
        (number left : ℕ) (s : RetryState)
        → Once op (title_of arguments other) base s.file
        → Once op
            (title_of arguments other)
            base
            (attempts pydantic decode dump error_text case retry_idempotent uuids op call arguments
              number left s).1.file
    unfolding attempts
    attempts-Once number zero s h =
        let p =
          attempt pydantic decode dump error_text case retry_idempotent (uuids number) op call
            arguments number (emit (attempt_started number) s) in
        subst (Once op (title_of arguments other) base) (sym (handle-last number p.0 p.1))
          (attempt-Once (uuids number) number (emit (attempt_started number) s) h)
    attempts-Once number (suc left) s h =
        let p =
          attempt pydantic decode dump error_text case retry_idempotent (uuids number) op call
            arguments number (emit (attempt_started number) s) in
        handle-retry (Once op (title_of arguments other) base) number
          (attempts pydantic decode dump error_text case retry_idempotent uuids op call arguments
            (suc number) left)
          p.0 p.1 (attempt-Once (uuids number) number (emit (attempt_started number) s) h)
          (λ s' h'. attempts-Once (suc number) left s' h')

    pub started-Once :
        (s : RetryState)
        → Once op (title_of arguments other) base s.file
        → Once op
            (title_of arguments other)
            base
            (started pydantic decode dump error_text case retry_idempotent uuids op call
              (ok arguments)
              s).1.file
    started-Once s h = attempts-Once 1 1 (emit (operation_started op call) s) h

  -- Under the idempotent policy a creation with accepted arguments leaves the tasks as they were or
  -- adds one task, with the requested title: whatever fault is injected, whatever the attempts
  -- answer, and whether the executor returns or raises.
  pub execute-GrownFile :
      (case : RetryCase) (uuids : ℕ → String) (op title : String) (call : ToolCall) (s : RetryState)
      → call.name ≡ "create_task"
      → create_arguments pydantic call.arguments ≡ ok title
      → GrownFile title s.file
          (execute pydantic decode dump error_text case retry_idempotent uuids op call s).1.file
  unfolding execute
  execute-GrownFile case uuids op title call s named asked =
      let e : (call.name == "create_task") ≡ true = (eq_iff call.name "create_task").1 named in
      rw (e, asked)
        (Once-GrownFile op title s.file _
          (started-Once case uuids op "" call (creating title) s.file s (inl refl)))
