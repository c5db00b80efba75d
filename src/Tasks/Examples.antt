-- ===== src/Tasks/Examples.antt =====
-- One store: an operation delivered twice, the operation with another title, and a task read back.
use agent_fault_lab.Prelude.{String, ◌≡◌, ◌≢◌, refl, false, true, none, some, is_space, eq_iff}
use agent_fault_lab.Exceptions.{ok, raised, operation_conflict}
use agent_fault_lab.Tasks.{
  CreateReceipt, File, open_store, create_task, create_task_idempotent, get_task,
}
use agent_fault_lab.Tasks.Replay.{create_task_idempotent-replay, create_task_idempotent-conflict}
use agent_fault_lab.Tasks.Stored.{create_task-get_task}

abbrev kept : File
kept = (create_task_idempotent "t1" "Pay rent" "op1" (open_store none)).1

abbrev receipt : CreateReceipt
receipt = record { task = record { id = "t1"; title = "Pay rent" }; replayed = false }

create_task_idempotent-replay_example :
    create_task_idempotent "t2" "Pay rent" "op1" kept
    ≡ (ok (record { task = record { id = "t1"; title = "Pay rent" }; replayed = true }), kept)
unfolding open_store create_task_idempotent is_space
create_task_idempotent-replay_example =
    create_task_idempotent-replay "t1" "t2" "Pay rent" "op1" (open_store none) kept receipt refl

titles_differ : ◌≢◌ {A = String} "Pay rent" "Pay tax"
titles_differ h = cc ((eq_iff "Pay rent" "Pay tax").1 h)

create_task_idempotent-conflict_example :
    create_task_idempotent "t2" "Pay tax" "op1" kept ≡ (raised operation_conflict, kept)
unfolding open_store create_task_idempotent is_space
create_task_idempotent-conflict_example =
    create_task_idempotent-conflict "t1" "t2" "Pay rent" "Pay tax" "op1" (open_store none) kept
      receipt refl titles_differ refl

create_task-get_task_example : get_task "t1" (create_task "t1" "Pay rent" (open_store none)).1 ≡ (
  ok (some (record { id = "t1"; title = "Pay rent" })),
  (create_task "t1" "Pay rent" (open_store none)).1,
)
unfolding open_store create_task is_space
create_task-get_task_example =
    create_task-get_task "t1" "Pay rent" (open_store none) _
      (record { id = "t1"; title = "Pay rent" }) refl refl
