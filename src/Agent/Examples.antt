-- ===== src/Agent/Examples.antt =====
-- A run over the list of what was recorded: a model that first asks for one tool and then answers.
use agent_fault_lab.Prelude.{ℕ, zero, suc, ◌≡◌, refl, true, none, some, List, [], ◌∷◌, is_space}
use agent_fault_lab.Exceptions.{ok}
use agent_fault_lab.Json.{obj, end}
use agent_fault_lab.Model.{ModelTurn, RunResult, finished}
use agent_fault_lab.Agent.{Limits, LoopEvent, Harness, LoopState, halt, go_on, run_agent}
use agent_fault_lab.Agent.Budget.{IsBudgeted, Explains, tool_messages}
use agent_fault_lab.Agent.Outcome.{run_agent-within_limits, run_agent-returns}

abbrev turn : ℕ → ModelTurn
turn zero = record {
  content = "";
  tool_calls = record { name = "create_task"; arguments = obj end } ∷ [];
  usage = end;
  metadata = end;
  finish_reason = none;
}
turn (suc n) = record {
  content = "Done";
  tool_calls = [];
  usage = end;
  metadata = end;
  finish_reason = some "stop";
}

-- The model asks for a tool as long as it has seen no tool message.
abbrev harness : Harness (List LoopEvent)
harness = record {
  emit = λ e w. (ok tt, e ∷ w);
  complete = λ ms w. (ok (turn (tool_messages ms)), w);
  execute = λ call id w. (ok (record { content = "created"; executed = true }), w);
  call_id = λ m t. "m1-t1";
}

abbrev limits : Limits
limits = record { max_model_calls = 6; max_tool_calls = 6 }

abbrev result : RunResult
result = record {
  status = finished;
  final_content = some "Done";
  model_calls = 2;
  tool_calls = 1;
  tool_executions = 1;
  error = none;
}

abbrev last : LoopState (List LoopEvent)
last = elim (run_agent harness limits "Be useful" "Pay rent" []) [ halt r s ↦ s | go_on s ↦ s ]

run_agent-within_limits_example :
    IsBudgeted harness limits (λ _. Unit) result last × Explains limits result result.status
unfolding run_agent is_space
run_agent-within_limits_example =
    run_agent-within_limits harness limits "Be useful" "Pay rent" [] refl

run_agent-returns_example :
    (r : RunResult) × (s : LoopState (List LoopEvent)) × (run_agent harness limits "Be useful"
        "Pay rent" []
      ≡ halt (ok r) s)
unfolding is_space
run_agent-returns_example =
    run_agent-returns harness limits "Be useful" "Pay rent" [] refl
      (λ call id w. tt, λ messages w. tt, λ event w. tt)
