-- ===== src/Tools/Storage.antt =====
-- When `execute_tool` leaves the store as it is.
use agent_fault_lab.Prelude.{
  String, ◌≡◌, refl, ap, false, Option, none, some, ◌==◌, subst, Bool-cases, inl, inr,
}
use agent_fault_lab.Exceptions.{
  Exception, value_error, operation_conflict, contract_error, validation_error, sqlite_error,
  file_exists, delivery_unavailable, provider_error, assertion_error, recursion_error, Result, ok,
  raised, Action, Result-cases, check_first, >>=-eq-ok,
}
use agent_fault_lab.Model.{ToolCall}
use agent_fault_lab.Pydantic.{Pydantic}
use agent_fault_lab.Sql.{transaction}
use agent_fault_lab.Tasks.{
  Task, Database, File, create_task, get_task, connection, select_tasks, require_nonblank_string,
}
use agent_fault_lab.Tools.{
  FaultMode, no_fault, dropped_write, ToolState, ToolResult, create_arguments, get_arguments,
  inject, create_with, reply, found, created_with, looked_up, after_create, execute_tool,
}

-- a call that raises leaves the file as it was
abbrev pub RollsBack : {A : Type 0} → File → Result A × File → Type 0
RollsBack file (ok a, file') = Unit
RollsBack file (raised e, file') = file' ≡ file

pub connection-RollsBack :
    {A : Type 0} (body : Database → Result (A × Database)) (file : File)
    → RollsBack file (connection body file)
unfolding connection
connection-RollsBack body none = refl
connection-RollsBack body (some d) = elim (Result-cases (body d)) [
  | inl ((a, d'), e) ↦ rw (e, transaction) tt
  | inr (x, e) ↦ rw (e, transaction) refl
]

pub check_first-RollsBack :
    {A : Type 0} (check : Result (Unit {0})) (m : Action File A) (file : File)
    → RollsBack file (m file)
    → RollsBack file (check_first check m file)
check_first-RollsBack (ok _) m file h = h
check_first-RollsBack (raised e) m file h = refl

create_task-RollsBack :
    (uuid title : String) (file : File) → RollsBack file (create_task uuid title file)
unfolding create_task
create_task-RollsBack uuid title file =
    check_first-RollsBack (require_nonblank_string title "title") _ file
      (connection-RollsBack _ file)

connection-file :
    {A : Type 0} (body : Database → Result (A × Database)) (file : File)
    → ((d : Database) (a : A) (d' : Database) → body d ≡ ok (a, d') → d' ≡ d)
    → (connection body file).1 ≡ file
unfolding connection
connection-file body none reads = refl
connection-file body (some d) reads = elim (Result-cases (body d)) [
  | inl ((a, d'), e) ↦ rw (e, transaction) (ap some (reads d a d' e))
  | inr (x, e) ↦ rw (e, transaction) refl
]

check_first-file :
    {A : Type 0} (check : Result (Unit {0})) (m : Action File A) (file : File)
    → (m file).1 ≡ file
    → (check_first check m file).1 ≡ file
check_first-file (ok _) m file h = h
check_first-file (raised e) m file h = refl

-- `get_task` changes no file.
pub get_task-file : (id : String) (file : File) → (get_task id file).1 ≡ file
unfolding get_task
get_task-file id file = check_first-file (require_nonblank_string id "task_id") _ file (
    connection-file _ file
      (λ d a d' h. let (rows, e, same) = >>=-eq-ok (select_tasks d.tasks) _ h in cc same))

-- what `execute_tool` answered without entering the storage
abbrev pub Untouched : ToolState → Result ToolResult × ToolState → Type 0
Untouched s (ok r, s') = r.executed ≡ false → s' ≡ s
Untouched s (raised e, s') = s' ≡ s

same_state : (s s' : ToolState) → s'.file ≡ s.file → s'.faults ≡ s.faults → s' ≡ s
same_state s s' h k = cc

reply-Untouched :
    (r : Result (Option Task)) (s s' : ToolState)
    → RollsBack s.file (r, s'.file)
    → s'.faults ≡ s.faults
    → Untouched s (reply r, s')
reply-Untouched (ok t) s s' h k = λ e. absurd (cc e)
reply-Untouched (raised validation_error) s s' h k = λ e. same_state s s' h k
reply-Untouched (raised (sqlite_error m)) s s' h k = λ e. absurd (cc e)
reply-Untouched (raised (value_error m)) s s' h k = same_state s s' h k
reply-Untouched (raised operation_conflict) s s' h k = same_state s s' h k
reply-Untouched (raised (contract_error m)) s s' h k = same_state s s' h k
reply-Untouched (raised file_exists) s s' h k = same_state s s' h k
reply-Untouched (raised delivery_unavailable) s s' h k = same_state s s' h k
reply-Untouched (raised (provider_error m)) s s' h k = same_state s s' h k
reply-Untouched (raised assertion_error) s s' h k = same_state s s' h k
reply-Untouched (raised recursion_error) s s' h k = same_state s s' h k

-- arguments that are refused
refused-Untouched : (e : Exception) (s : ToolState) → Untouched s (reply (raised e), s)
refused-Untouched e s = reply-Untouched (raised e) s s refl refl

found-RollsBack :
    (file : File) (r : Result Task × File) → RollsBack file r → RollsBack file (found some r.0, r.1)
found-RollsBack file (ok t, file') h = tt
found-RollsBack file (raised e, file') h = h

create_with-Untouched :
    (mode : Option FaultMode) (uuid title call_id : String) (s : ToolState)
    → Untouched s (after_create (create_with mode uuid title call_id s))
unfolding create_with inject
create_with-Untouched (some dropped_write) uuid title call_id s = λ e. absurd (cc e)
create_with-Untouched none uuid title call_id s =
    let r = create_task uuid title s.file in
    reply-Untouched (found some r.0) s (record s { file = r.1 })
      (found-RollsBack s.file r (create_task-RollsBack uuid title s.file)) refl
create_with-Untouched (some no_fault) uuid title call_id s =
    let r = create_task uuid title s.file in
    reply-Untouched (found some r.0) s (record s { file = r.1 })
      (found-RollsBack s.file r (create_task-RollsBack uuid title s.file)) refl

of_same :
    (file : File) (r : Result (Option Task)) (file' : File)
    → file' ≡ file
    → RollsBack file (r, file')
of_same file (ok t) file' h = tt
of_same file (raised e) file' h = h

created_with-Untouched :
    (mode : Option FaultMode) (uuid call_id : String) (title : Result String) (s : ToolState)
    → Untouched s (created_with mode uuid call_id title s)
created_with-Untouched mode uuid call_id (ok title) s =
    create_with-Untouched mode uuid title call_id s
created_with-Untouched mode uuid call_id (raised e) s = refused-Untouched e s

looked_up-Untouched : (id : Result String) (s : ToolState) → Untouched s (looked_up id s)
looked_up-Untouched (raised e) s = refused-Untouched e s
looked_up-Untouched (ok id) s =
    let r = get_task id s.file in
    reply-Untouched r.0 s (record s { file = r.1 })
      (of_same s.file r.0 r.1 (get_task-file id s.file)) refl

module _ (pydantic : Pydantic) (uuid : String) (call : ToolCall) (call_id : String)
    (s : ToolState) where
  tool-Untouched :
      (mode : Option FaultMode) → Untouched s (execute_tool pydantic mode uuid call call_id s)
  unfolding execute_tool
  tool-Untouched mode = elim (Bool-cases (call.name == "create_task")) [
    | inl e ↦
        rw e (created_with-Untouched mode uuid call_id (create_arguments pydantic call.arguments) s)
    | inr e ↦ rw e (elim (Bool-cases (call.name == "get_task")) [
      | inl k ↦ rw k (looked_up-Untouched (get_arguments pydantic call.arguments) s)
      | inr k ↦ rw k (λ h. refl)
    ])
  ]

  -- A call that reports no execution has left the store and the record of faults as they were: an
  -- unknown tool, or arguments that are refused. Where the call raises, it has left them too.
  pub execute_tool-unexecuted :
      (mode : Option FaultMode) (r : Result ToolResult) (s' : ToolState)
      → execute_tool pydantic mode uuid call call_id s ≡ (r, s')
      → Untouched s (r, s')
  execute_tool-unexecuted mode r s' h = subst (Untouched s) h (tool-Untouched mode)

  -- Where writes are dropped, no call changes the store, whatever it answers.
  pub execute_tool-drops :
      (execute_tool pydantic (some dropped_write) uuid call call_id s).1.file ≡ s.file
  unfolding execute_tool create_with inject
  execute_tool-drops = elim (Bool-cases (call.name == "create_task")) [
    | inl e ↦ rw e (dropped (create_arguments pydantic call.arguments))
    | inr e ↦ rw e (elim (Bool-cases (call.name == "get_task")) [
      | inl k ↦ rw k (read (get_arguments pydantic call.arguments))
      | inr k ↦ rw k refl
    ])
  ]
    where
      dropped :
          (title : Result String)
          → (created_with (some dropped_write) uuid call_id title s).1.file ≡ s.file
      dropped (ok title) = refl
      dropped (raised e) = refl

      read : (id : Result String) → (looked_up id s).1.file ≡ s.file
      read (ok id) = get_task-file id s.file
      read (raised e) = refl
