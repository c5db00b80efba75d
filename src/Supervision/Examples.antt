-- ===== src/Supervision/Examples.antt =====
-- A new run under the supervisor, with a worker that answers at once, and a process that resumes it.
use agent_fault_lab.Prelude.{ℕ, ◌+◌, ◌≡◌, refl, inr, true, false, none, [], ◌∷◌, is_space}
use agent_fault_lab.Exceptions.{ok}
use agent_fault_lab.Float.Seconds.{seconds}
use agent_fault_lab.Json.{parsed, raw_obj, raw_bool, raw_int, raw_null, raw_str, no_pair, pair}
use agent_fault_lab.Pydantic.Exact.{exact}
use agent_fault_lab.Journal.Store.{Journal, create_journal}
use agent_fault_lab.Durable.Kept.{configuration}
use agent_fault_lab.Durable.Restarts.{lives, Finishes}
use agent_fault_lab.Durable.Start.{first_state}
use agent_fault_lab.Durable.Sample.{
  launch, first, opened, creation, platform, launch-IsLaunchable, opened-IsHeld, platform_equal,
}
use agent_fault_lab.Json.Equal.{call_eq}
use agent_fault_lab.Agent.{ToolDelivery}
use agent_fault_lab.Tools.{create_arguments}
use agent_fault_lab.Execution.{Operation}
use agent_fault_lab.Journal.{revalidate}
use agent_fault_lab.Journal.Store.{attempt_succeeded, transition, open_journal, read_events}
use agent_fault_lab.Durable.{Session}
use agent_fault_lab.Supervision.Replay.{execute_replayed}
use agent_fault_lab.Supervision.{Workers, exited, save_operation, note, settle}
use agent_fault_lab.Supervision.Execute.{execute}
use agent_fault_lab.Supervision.Kept.{IsRun}
use agent_fault_lab.Supervision.Kept.Execute.{execute-IsRun}
use agent_fault_lab.Supervision.Runs.{supervised_by, run-Finishes}

abbrev workers : Workers ℕ ℕ
workers = record {
  uuid = λ w. ("operation-1", w);
  clock = λ w. (w, w + 1);
  sleeper = λ seconds w. w + seconds;
  attempt_id = λ operation number. operation;
  spawn = λ op call fault w. (ok tt, w);
  owned = λ w. true;
  release = λ w. w;
  communicate = λ timeout w. (exited true "the response", w);
  poll = λ w. (false, w);
  terminate = λ w. w;
  kill = λ w. w;
  evidence = λ w. [];
  error_text = λ code message. message;
  decode = λ raw. parsed (
      raw_obj (
        pair "schema_version" (raw_int 1) (
          pair "ok" (raw_bool true) (
            pair "value"
              (raw_obj
                (pair "id" (raw_str "t1") (pair "title" (raw_str "Review the invoice") no_pair)))
              (pair "error" raw_null no_pair)))));
}

execute-IsRun_example :
    IsRun seconds
      (configuration first)
      first
      (execute seconds platform workers exact creation "m1-t1" opened).1
execute-IsRun_example =
    execute-IsRun seconds (configuration first) first platform workers exact creation "m1-t1" opened
      (opened-IsHeld, refl)

run-Finishes_example :
    (j : Journal ℕ) × (create_journal seconds "session-1" (first_state seconds launch) ≡ ok j)
    × Finishes seconds
        (supervised_by seconds platform workers exact)
        (configuration (first_state seconds launch))
        (lives seconds
          (supervised_by seconds platform workers exact)
          20
          false
          (("session-2", 7) ∷ [])
          (record { journal = j; world = 0 }))
run-Finishes_example =
    run-Finishes seconds platform workers exact launch "session-1" 0 (("session-2", 7) ∷ [])
      platform_equal launch-IsLaunchable

abbrev delivery : ToolDelivery
delivery = record { content = "the response"; executed = true }

abbrev operation : Operation ℕ
operation = record {
  operation_id = "operation-1";
  call_id = "m1-t1";
  call = creation;
  attempts = 0;
  remaining_seconds = 80;
  reserved_seconds = 0;
  result = none;
}

abbrev after : Session ℕ ℕ
after = (settle seconds platform workers delivery attempt_succeeded operation opened).1

-- the journal that the next process opens
abbrev next : Journal ℕ
next = record after.journal { session_id = "session-2" }

execute_replayed_example :
    execute seconds platform workers exact creation "m1-t1" (record { journal = next; world = 40 })
    ≡ (ok delivery, record { journal = next; world = 40 })
unfolding save_operation note revalidate transition first_state call_eq create_arguments is_space
    open_journal read_events
execute_replayed_example =
    execute_replayed seconds platform workers exact creation "m1-t1" delivery delivery
      attempt_succeeded operation opened after (record { journal = next; world = 40 }) refl
      (inr ("session-2", refl)) refl refl refl refl
