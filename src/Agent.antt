-- ===== src/Agent.antt =====
-- src/agent_fault_lab/agent.py: the sequential tool-using loop.
-- The provider, the tool executor and the recorder act on one world `W`, and any of them may raise:
-- they are a parameter, the record `Harness`. `execute` is `execute_tool`, or the executor that the caller gives.
pub mod Budget
pub mod Rounds
pub mod Outcome
mod Examples
use agent_fault_lab.Prelude.{
  ℕ, zero, suc, ◌+◌, ◌-◌, String, Bool, true, false, not, Option, none, some, List, [], ◌∷◌, ◌++◌,
  ◌==◌, leb, is_blank, to_nat, if◌then◌else◌,
}
use agent_fault_lab.Exceptions.{Exception, provider_error, value_error, Result, ok, raised, Action}
use agent_fault_lab.Json.{Json, end}
use agent_fault_lab.Model.{
  ToolCall, Role, Message, system, user, assistant, tool, ModelTurn, ExecutionStatus, finished,
  model_limit, tool_limit, provider_stopped, protocol_error, RunResult,
}

-- tools.py, `ToolDelivery`
pub record ToolDelivery : Type 0 where
  pub content : String
  pub executed : Bool

pub record Limits : Type 0 where
  pub max_model_calls : ℕ
  pub max_tool_calls : ℕ

-- what the loop records, in its order
pub data LoopEvent : Type 0 where
  run_started : List Message → Limits → LoopEvent
  model_requested : ℕ → LoopEvent
  model_returned : ℕ → ModelTurn → LoopEvent
  -- the two numbers of a call's identifier `m{model_calls}-t{index + 1}`
  tool_skipped : ℕ → ℕ → LoopEvent
  tool_requested : ℕ → ℕ → ToolCall → LoopEvent
  tool_returned : ℕ → ℕ → ToolDelivery → LoopEvent
  run_stopped : RunResult → LoopEvent

pub record Harness (W : Type 0) : Type 0 where
  pub emit : LoopEvent → Action W (Unit {0})
  pub complete : List Message → Action W ModelTurn
  pub execute : ToolCall → String → Action W ToolDelivery
  -- the text of a call's identifier
  pub call_id : ℕ → ℕ → String

-- the local variables of `run_agent`
pub record LoopState (W : Type 0) : Type 0 where
  pub messages : List Message
  pub model_calls : ℕ
  pub tool_calls : ℕ
  pub tool_executions : ℕ
  pub world : W

-- A step ends the run, with a result or an exception, or goes on.
pub data Flow (W : Type 0) : Type 0 where
  halt : Result RunResult → LoopState W → Flow W
  go_on : LoopState W → Flow W

abbrev pub text_message : Role → String → Message
text_message role content = record {
  role = role;
  content = content;
  tool_calls = [];
  call_id = none;
  tool_name = none;
  metadata = end;
}

abbrev pub assistant_message : ModelTurn → Message
assistant_message turn = record {
  role = assistant;
  content = turn.content;
  tool_calls = turn.tool_calls;
  call_id = none;
  tool_name = none;
  metadata = turn.metadata;
}

abbrev pub tool_message : String → String → String → Message
tool_message content call_id name = record {
  role = tool;
  content = content;
  tool_calls = [];
  call_id = some call_id;
  tool_name = some name;
  metadata = end;
}

abbrev pub is_length : Option String → Bool
is_length none = false
is_length (some reason) = reason == "length"

module _ {W : Type 0} (harness : Harness W) (limits : Limits) where
  abbrev pub noted : Result (Unit {0}) → LoopState W → (LoopState W → Flow W) → Flow W
  noted (raised e) s rest = halt (raised e) s
  noted (ok done) s rest = rest s

  -- `recorder.emit`, and what follows it where it does not raise
  abbrev pub recorded : LoopEvent → LoopState W → (LoopState W → Flow W) → Flow W
  recorded event s rest =
      let (r, w) = harness.emit event s.world in noted r (record s { world = w }) rest

  abbrev pub stopping : ExecutionStatus → Option String → Option String → LoopState W → RunResult
  stopping status content error s = record {
    status = status;
    final_content = content;
    model_calls = s.model_calls;
    tool_calls = s.tool_calls;
    tool_executions = s.tool_executions;
    error = error;
  }

  -- `stop`
  unfoldable pub stop : ExecutionStatus → Option String → Option String → LoopState W → Flow W
  stop status content error s =
      let result = stopping status content error s in
      recorded (run_stopped result) s (halt (ok result))

  abbrev pub deliver : ℕ → ToolCall → Result ToolDelivery → LoopState W → Flow W
  deliver index call (raised e) s = halt (raised e) s
  deliver index call (ok delivery) s =
      recorded (tool_returned s.model_calls (index + 1) delivery)
        (record s { tool_executions = s.tool_executions + to_nat delivery.executed })
        (λ s'. go_on (record s' {
          messages =
              s'.messages
              ++ tool_message delivery.content (harness.call_id s'.model_calls (index + 1))
                  call.name
                ∷ [];
        }))

  abbrev pub executed : ℕ → ToolCall → LoopState W → Flow W
  executed index call s =
      let (r, w) = harness.execute call (harness.call_id s.model_calls (index + 1)) s.world in
      deliver index call r (record s { world = w })

  -- one request of the `for` loop, which is the `index`-th
  unfoldable pub tool_step : ℕ → ToolCall → LoopState W → Flow W
  unfolding stop
  tool_step index call s =
      if leb limits.max_tool_calls s.tool_calls
      then recorded (tool_skipped s.model_calls (index + 1)) s
          (stop tool_limit none (some "Tool-call budget exhausted"))
      else recorded (tool_requested s.model_calls (index + 1) call)
          (record s { tool_calls = s.tool_calls + 1 }) (executed index call)

  unfoldable pub tool_loop : ℕ → List ToolCall → LoopState W → Flow W
  unfolding tool_step
  tool_loop index [] s = go_on s
  tool_loop index (call ∷ calls) s = elim (tool_step index call s) [
    | halt r s' ↦ halt r s'
    | go_on s' ↦ tool_loop (index + 1) calls s'
  ]

  -- a turn with no tool request
  unfoldable pub final_turn : ModelTurn → LoopState W → Flow W
  unfolding stop
  final_turn turn s =
      if is_blank turn.content
      then stop protocol_error (some turn.content) (some "Empty assistant response") s
      else stop finished (some turn.content) none s

  unfoldable pub answered : ModelTurn → List ToolCall → LoopState W → Flow W
  unfolding final_turn tool_loop
  answered turn [] s = final_turn turn s
  answered turn (call ∷ calls) s = tool_loop 0 (call ∷ calls) s

  -- A response that hit its output limit is not added to the conversation.
  abbrev pub interpreted : ModelTurn → LoopState W → Flow W
  unfolding stop answered
  interpreted turn s =
      if is_length turn.finish_reason
      then stop protocol_error (elim turn.tool_calls [ [] ↦ some turn.content | _ ∷ _ ↦ none ])
          (some "Model response hit its output limit") s
      else answered turn turn.tool_calls
          (record s { messages = s.messages ++ assistant_message turn ∷ [] })

  unfoldable pub turn_step : ModelTurn → LoopState W → Flow W
  unfolding stop answered
  turn_step turn s = recorded (model_returned s.model_calls turn) s (interpreted turn)

  abbrev pub completed_call : Result ModelTurn → LoopState W → Flow W
  unfolding turn_step stop
  completed_call (ok turn) s = turn_step turn s
  completed_call (raised (provider_error message)) s = stop provider_stopped none (some message) s
  completed_call (raised e) s = halt (raised e) s

  abbrev pub asked : LoopState W → Flow W
  unfolding turn_step stop
  asked s =
      let (r, w) = harness.complete s.messages s.world in completed_call r (record s { world = w })

  -- the body of the `while` loop
  unfoldable pub round : LoopState W → Flow W
  unfolding turn_step stop
  round s =
      let n = s.model_calls + 1 in recorded (model_requested n) (record s { model_calls = n }) asked

  -- The rounds that are left: `model_calls < limits.max_model_calls` fails when there is none.
  unfoldable pub loop : ℕ → LoopState W → Flow W
  unfolding stop round
  loop zero s = stop model_limit none (some "Model-call budget exhausted") s
  loop (suc rounds) s = elim (round s) [ halt r s' ↦ halt r s' | go_on s' ↦ loop rounds s' ]

  -- `prompt` is the system prompt, with the read-back instruction where the variant asks for it.
  unfoldable pub initial_state : String → String → W → LoopState W
  initial_state prompt request w = record {
    messages = text_message system prompt ∷ text_message user request ∷ [];
    model_calls = 0;
    tool_calls = 0;
    tool_executions = 0;
    world = w;
  }

  unfoldable pub run_agent : String → String → W → Flow W
  unfolding initial_state loop
  run_agent prompt request w =
      let s = initial_state prompt request w in
      if is_blank request
      then halt (raised (value_error "request must not be blank")) (record s { messages = [] })
      else recorded (run_started s.messages limits) s (loop limits.max_model_calls)
