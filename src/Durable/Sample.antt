-- ===== src/Durable/Sample.antt =====
-- A run for the examples: the model first asks for a task and then answers, the supervisor delivers
-- at once, and no process is killed.
use agent_fault_lab.Prelude.{ℕ, zero, suc, ◌≡◌, refl, subst, true, none, some, [], ◌∷◌, arith}
use agent_fault_lab.Exceptions.{ok}
use agent_fault_lab.Float.Seconds.{seconds}
use agent_fault_lab.Json.{obj, field, end, str}
use agent_fault_lab.Json.Equal.{json_eq, call_eq, calls_eq}
use agent_fault_lab.Model.{ToolCall, ModelTurn}
use agent_fault_lab.Execution.{transient_once, bounded_retry, limits_valid, policies_for}
use agent_fault_lab.Journal.{RunState, offline, create_read_report, settings_valid}
use agent_fault_lab.Journal.Sound.{IsSound}
use agent_fault_lab.Journal.Store.{Journal}
use agent_fault_lab.Journal.Store.Synced.{IsSynced}
use agent_fault_lab.Durable.{Session, Platform}
use agent_fault_lab.Durable.Kept.{configuration, IsHeld, IsReliable}
use agent_fault_lab.Durable.Start.{Launch, IsLaunchable, first_state, first_state-IsSound}

abbrev pub launch : Launch ℕ
launch = record {
  run_id = "run-1";
  compatibility = "fingerprint";
  config = record { case = transient_once; policy = bounded_retry };
  mode = offline;
  client = "serializable-script-v1 (NOT an AI model)";
  provenance = end;
  limits = record { max_model_calls = 6; max_tool_calls = 6 };
  execution_limits = record {
    attempt_seconds = 20;
    operation_seconds = 80;
    max_attempts = 3;
    first_backoff = 1;
    second_backoff = 2;
    grace_seconds = 5;
    total_attempts = 18;
    delay_seconds = 30;
  };
  script = create_read_report;
  prompt = "You are a task assistant";
}

abbrev pub first : RunState ℕ
first = first_state seconds launch

abbrev pub journal : Journal ℕ
journal = record {
  state = first;
  file = record { checkpoint = first; stored = [] };
  session_id = "session-1";
  records = [];
}

abbrev pub opened : Session ℕ ℕ
opened = record { journal = journal; world = 0 }

abbrev pub creation : ToolCall
creation = record {
  name = "create_task";
  arguments = obj (field "title" (str "Review the invoice") end);
}

abbrev pub turn : ℕ → ModelTurn
turn zero = record {
  content = "";
  tool_calls = creation ∷ [];
  usage = end;
  metadata = end;
  finish_reason = none;
}
turn (suc n) = record {
  content = "Done";
  tool_calls = [];
  usage = end;
  metadata = end;
  finish_reason = some "stop";
}

abbrev pub platform : Platform ℕ ℕ
platform = record {
  alive = λ w. (ok tt, w);
  complete = λ state w. (ok (turn state.script_cursor), w);
  supervise = λ call id s. (ok (record { content = "created"; executed = true }), s);
  stop_worker = λ s. (ok tt, s);
  call_id = λ m t. "m1-t1";
}

pub launch-IsLaunchable : IsLaunchable seconds launch
unfolding settings_valid limits_valid policies_for
launch-IsLaunchable = (refl, refl, (omega arith, omega arith), (omega arith, omega arith), refl)

pub first-IsSound : IsSound seconds first
first-IsSound = first_state-IsSound seconds launch launch-IsLaunchable

pub journal-IsSynced : IsSynced journal
journal-IsSynced = (refl, refl, tt)

pub opened-IsHeld : IsHeld seconds (configuration first) opened
opened-IsHeld = (journal-IsSynced, first-IsSound, refl)

turn_equal : (n : ℕ) → calls_eq (turn n).tool_calls (turn n).tool_calls ≡ true
unfolding calls_eq call_eq json_eq
turn_equal zero = refl
turn_equal (suc n) = refl

pub platform_equal :
    (state : RunState ℕ) (w w' : ℕ) (t : ModelTurn)
    → platform.complete state w ≡ (ok t, w')
    → calls_eq t.tool_calls t.tool_calls ≡ true
platform_equal state w w' t h =
    let same : turn state.script_cursor ≡ t = cc h in
    subst (λ t. calls_eq t.tool_calls t.tool_calls ≡ true) same (turn_equal state.script_cursor)

pub platform-IsReliable : IsReliable seconds platform
platform-IsReliable = record {
  supervised = λ c call id s held. (s.journal.state.execution, held.0, refl, held.1.2);
  self_equal = platform_equal;
}
