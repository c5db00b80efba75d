-- ===== src/Tools/ReadBack.antt =====
-- A task that `execute_tool` created is what a later lookup answers.
use agent_fault_lab.Prelude.{
  String, ◌≡◌, ◌≢◌, refl, ap, subst, true, false, Option, none, some, ◌==◌, eq_iff, is_blank,
}
use agent_fault_lab.Exceptions.{
  value_error, operation_conflict, contract_error, validation_error, sqlite_error, file_exists,
  delivery_unavailable, provider_error, assertion_error, recursion_error, Result, ok, raised,
}
use agent_fault_lab.Model.{ToolCall}
use agent_fault_lab.Pydantic.{Pydantic}
use agent_fault_lab.Tasks.{Task, create_task, get_task}
use agent_fault_lab.Tasks.Stored.{create_task-get_task}
use agent_fault_lab.Tools.{
  FaultMode, no_fault, dropped_write, ToolState, ToolResult, create_arguments, get_arguments,
  create_with, reply, found, execute_tool, inject, on_file,
}

-- a success with the task
abbrev pub success : Task → ToolResult
success t = record { succeeded = true; value = some t; error = none; executed = true }

reply-eq_ok : (r : Result Task) (t : Task) → reply (found some r) ≡ ok (success t) → r ≡ ok t
reply-eq_ok (ok u) t h = cc h
reply-eq_ok (raised (value_error m)) t h = absurd (cc h)
reply-eq_ok (raised operation_conflict) t h = absurd (cc h)
reply-eq_ok (raised (contract_error m)) t h = absurd (cc h)
reply-eq_ok (raised validation_error) t h = absurd (cc h)
reply-eq_ok (raised (sqlite_error m)) t h = absurd (cc h)
reply-eq_ok (raised file_exists) t h = absurd (cc h)
reply-eq_ok (raised delivery_unavailable) t h = absurd (cc h)
reply-eq_ok (raised (provider_error m)) t h = absurd (cc h)
reply-eq_ok (raised assertion_error) t h = absurd (cc h)
reply-eq_ok (raised recursion_error) t h = absurd (cc h)

-- without an injector, or with one that does not drop writes
create_with-honest :
    (injected : Option FaultMode) (uuid title call_id : String) (s : ToolState)
    → injected ≢ some dropped_write
    → create_with injected uuid title call_id s ≡ on_file (create_task uuid title) s
unfolding create_with inject
create_with-honest none uuid title call_id s h = refl
create_with-honest (some no_fault) uuid title call_id s h = refl
create_with-honest (some dropped_write) uuid title call_id s h = absurd (h refl)

module _ (pydantic : Pydantic) (uuid uuid' : String) (call lookup : ToolCall)
    (call_id call_id' : String) where
  -- After a creation, with a nonblank identifier and without an injector or with one that does not
  -- drop writes, that answered with a task, a call of `get_task` with the task's identifier answers
  -- with that task and changes nothing, under any mode of faults.
  pub execute_tool-read_back :
      (injected mode : Option FaultMode) (s s' : ToolState) (title : String) (t : Task)
      → injected ≢ some dropped_write
      → call.name ≡ "create_task"
      → lookup.name ≡ "get_task"
      → create_arguments pydantic call.arguments ≡ ok title
      → get_arguments pydantic lookup.arguments ≡ ok t.id
      → is_blank uuid ≡ false
      → execute_tool pydantic injected uuid call call_id s ≡ (ok (success t), s')
      → execute_tool pydantic mode uuid' lookup call_id' s' ≡ (ok (success t), s')
  unfolding execute_tool
  execute_tool-read_back injected mode s s' title t honest named named' titled identified usable h =
      let e : (call.name == "create_task") ≡ true = (eq_iff call.name "create_task").1 named in
      let h' = rw (e, titled, create_with-honest injected uuid title call_id s honest) at h in
      let r = create_task uuid title s.file in
      let made : r.0 ≡ ok t = reply-eq_ok r.0 t (ap (λ p. p.0) h') in
      let kept : record s { file = r.1 } ≡ s' = ap (λ p. p.1) h' in
      let reading : get_task t.id r.1 ≡ (ok (some t), r.1) =
        create_task-get_task uuid title s.file r.1 t usable (ap (λ q. (q, r.1)) made) in
      subst (λ z. execute_tool pydantic mode uuid' lookup call_id' z ≡ (ok (success t), z)) kept
        (rw (named', identified, reading) refl)
