-- ===== src/Durable.antt =====
-- src/agent_fault_lab/durable_run.py: the loop of a run whose every step is a checkpoint, and its
-- resumption. The model, the supervisor and the killing of the process act on one world `W`; the
-- crash barriers, which are test points, are covered by `alive`.
pub mod Kept
pub mod Next
pub mod Ask
pub mod Calls
pub mod Loop
pub mod Restarts
pub mod Start
pub mod Sample
mod Examples
use agent_fault_lab.Prelude.{
  ℕ, zero, suc, ◌+◌, String, Bool, true, false, not, ◌&&◌, Option, none, some, List, [], ◌∷◌, ◌++◌,
  ◌==◌, eqb, leb, length, is_blank, to_nat, if◌then◌else◌,
}
use agent_fault_lab.Exceptions.{
  Exception, value_error, provider_error, assertion_error, Result, ok, raised, ◌>>=◌, Action,
  and_then,
}
use agent_fault_lab.Float.{Float}
use agent_fault_lab.Model.{
  ToolCall, Message, ModelTurn, RunResult, ExecutionStatus, finished, model_limit, tool_limit,
  provider_stopped, protocol_error,
}
use agent_fault_lab.Agent.{ToolDelivery, assistant_message, tool_message, is_length}
use agent_fault_lab.Journal.{
  RunState, Phase, model_phase, tools_phase, terminal_phase, is_terminal, is_offline, is_some,
}
use agent_fault_lab.Journal.Store.{
  Journal, JournalFile, EventKind, model_requested, model_returned, model_ready, tool_requested,
  tool_returned, run_stopped, session_started, Identifiers, no_identifiers, transition,
  open_journal,
}

-- the journal that a process holds open, and the rest of the world
pub record Session (F W : Type 0) : Type 0 where
  pub journal : Journal F
  pub world : W

pub record Platform (F W : Type 0) : Type 0 where
  -- The process may be killed before any commit.
  pub alive : Action W (Unit {0})
  -- the client, or the script, on the state before its call is counted
  pub complete : RunState F → Action W ModelTurn
  -- `Supervisor.execute`
  pub supervise : ToolCall → String → Action (Session F W) ToolDelivery
  -- `Supervisor.stop_worker`
  pub stop_worker : Action (Session F W) (Unit {0})
  -- the text of a call's identifier
  pub call_id : ℕ → ℕ → String

abbrev pub ends_early : Option ModelTurn → Bool
ends_early none = false
ends_early (some turn) = is_length turn.finish_reason

abbrev pub is_empty : {A : Type 0} → List A → Bool
is_empty [] = true
is_empty (a ∷ rest) = false

abbrev pub nth : {A : Type 0} → ℕ → List A → Option A
nth n [] = none
nth zero (a ∷ rest) = some a
nth (suc n) (a ∷ rest) = nth n rest

-- the content of a response that hit its output limit
abbrev pub cut_content : ModelTurn → Option String
cut_content turn = if is_empty turn.tool_calls then some turn.content else none

module _ {F W : Type 0} (float : Float F) (platform : Platform F W) where
  abbrev pub with_journal : Result (Unit {0}) × Journal F → W → Result (Unit {0}) × Session F W
  with_journal (r, j) w = (r, record { journal = j; world = w })

  -- `recorder.transition`
  unfoldable pub save : RunState F → EventKind F → Identifiers → Action (Session F W) (Unit {0})
  save state kind identifiers s =
      let (r, w) = platform.alive s.world in
      elim r [
        | ok done ↦ with_journal (transition float (some state) kind identifiers s.journal) w
        | raised e ↦ (raised e, record s { world = w })
      ]

  abbrev pub result_of : ExecutionStatus → Option String → Option String → RunState F → RunResult
  result_of status content error state = record {
    status = status;
    final_content = content;
    model_calls = state.model_calls;
    tool_calls = state.tool_calls;
    tool_executions = state.tool_executions;
    error = error;
  }

  abbrev pub stopped : RunResult → RunState F → RunState F
  stopped result state = record state { terminal = some result; phase = terminal_phase }

  unfoldable pub stop :
      ExecutionStatus → Option String → Option String → Action (Session F W) (Unit {0})
  unfolding save
  stop status content error s =
      let result = result_of status content error s.journal.state in
      save (stopped result s.journal.state) (run_stopped result) no_identifiers s

  -- a response that hit its output limit
  abbrev pub stop_cut : ModelTurn → Action (Session F W) (Unit {0})
  stop_cut turn =
      stop protocol_error (cut_content turn) (some "Model response hit its output limit")

  -- a response without a tool request
  abbrev pub stop_final : String → Action (Session F W) (Unit {0})
  stop_final content =
      if is_blank content
      then stop protocol_error (some content) (some "Empty assistant response")
      else stop finished (some content) none

  -- the decision on a response that was just saved
  unfoldable pub interpret : ModelTurn → Action (Session F W) (Unit {0})
  unfolding stop
  interpret turn s =
      if is_length turn.finish_reason
      then stop_cut turn s
      else if is_empty turn.tool_calls
      then stop_final turn.content s
      else (ok tt, s)

  abbrev pub counted : RunState F → RunState F
  counted state = record state { model_calls = state.model_calls + 1 }

  abbrev pub returned : ModelTurn → RunState F → RunState F
  returned turn state = record state {
    messages = state.messages ++ assistant_message turn ∷ [];
    script_cursor = state.script_cursor + to_nat (is_offline state.mode);
    pending = turn.tool_calls;
    last_turn = some turn;
    tool_cursor = 0;
    phase = tools_phase;
  }

  abbrev pub answered : Result ModelTurn → Action (Session F W) (Unit {0})
  answered (ok turn) s =
      and_then
        (save (returned turn s.journal.state) (model_returned s.journal.state.model_calls turn)
          no_identifiers)
        (λ saved. interpret turn) s
  answered (raised (provider_error message)) s = stop provider_stopped none (some message) s
  answered (raised e) s = (raised e, s)

  abbrev pub asked : RunState F → Action (Session F W) (Unit {0})
  asked state s =
      let (r, w) = platform.complete state s.world in answered r (record s { world = w })

  -- an iteration in the phase "model"
  unfoldable pub model_step : Action (Session F W) (Unit {0})
  unfolding save stop interpret
  model_step s =
      let state = s.journal.state in
      if leb state.limits.max_model_calls state.model_calls
      then stop model_limit none (some "Model-call budget exhausted") s
      else and_then (save (counted state) (model_requested (state.model_calls + 1)) no_identifiers)
          (λ saved. asked state) s

  abbrev pub ready : RunState F → RunState F
  ready state = record state { phase = model_phase; pending = []; tool_cursor = 0 }

  abbrev pub reserved : RunState F → RunState F
  reserved state = record state { tool_calls = state.tool_calls + 1; tool_reserved = true }

  abbrev pub delivered : ToolCall → String → ToolDelivery → RunState F → RunState F
  delivered call id delivery state = record state {
    messages = state.messages ++ tool_message delivery.content id call.name ∷ [];
    tool_cursor = state.tool_cursor + 1;
    tool_reserved = false;
    tool_executions = state.tool_executions + to_nat delivery.executed;
  }

  abbrev pub called : String → Identifiers
  called id = record { call_id = some id; operation_id = none; attempt_id = none }

  -- the supervised call, and the record of its delivery
  unfoldable pub dispatch : ToolCall → String → Action (Session F W) (Unit {0})
  unfolding save
  dispatch call id = and_then (platform.supervise call id) (λ delivery s.
      save (delivered call id delivery s.journal.state) (tool_returned delivery) (called id) s)

  -- A call that is reserved already, by an earlier process, is not counted again.
  unfoldable pub call_step : ToolCall → String → Action (Session F W) (Unit {0})
  unfolding dispatch stop
  call_step call id s =
      let state = s.journal.state in
      if state.tool_reserved
      then dispatch call id s
      else if leb state.limits.max_tool_calls state.tool_calls
      then stop tool_limit none (some "Tool-call budget exhausted") s
      else and_then (save (reserved state) (tool_requested call) (called id))
          (λ saved. dispatch call id) s

  abbrev pub call_at : Option ToolCall → String → Action (Session F W) (Unit {0})
  call_at (some call) id s = call_step call id s
  call_at none id s = (raised assertion_error, s)

  -- the calls of the saved response
  unfoldable pub calls_step : Action (Session F W) (Unit {0})
  unfolding save call_step
  calls_step s =
      let state = s.journal.state in
      if eqb state.tool_cursor (length state.pending)
      then save (ready state) model_ready no_identifiers s
      else call_at (nth state.tool_cursor state.pending)
          (platform.call_id state.model_calls (state.tool_cursor + 1)) s

  -- The saved response is interpreted once more: an earlier process may have ended before it was.
  unfoldable pub saved_step : ModelTurn → Action (Session F W) (Unit {0})
  unfolding stop calls_step
  saved_step turn s =
      if is_length turn.finish_reason
      then stop_cut turn s
      else if is_empty s.journal.state.pending
      then stop_final turn.content s
      else calls_step s

  -- an iteration in the phase "tools"
  abbrev pub tools_step : Option ModelTurn → Action (Session F W) (Unit {0})
  tools_step (some turn) s = saved_step turn s
  tools_step none s = calls_step s

  abbrev pub step : Phase → Action (Session F W) (Unit {0})
  step model_phase s = model_step s
  step tools_phase s = tools_step s.journal.state.last_turn s
  step terminal_phase s = (ok tt, s)

  abbrev pub continued :
      (Session F W → Option (Result (Unit {0}) × Session F W))
      → Result (Unit {0}) × Session F W
      → Option (Result (Unit {0}) × Session F W)
  continued rest (ok done, s) = rest s
  continued rest (raised e, s) = some (raised e, s)

  -- The `while` loop of `_drive`; `none` where the fuel is used up.
  unfoldable pub drive : ℕ → Session F W → Option (Result (Unit {0}) × Session F W)
  unfolding model_step saved_step calls_step
  drive zero s = if is_terminal s.journal.state.phase then some (ok tt, s) else none
  drive (suc fuel) s =
      if is_terminal s.journal.state.phase
      then some (ok tt, s)
      else continued (drive fuel) (step s.journal.state.phase s)

  abbrev pub after_stop :
      Result (Unit {0}) → Result (Unit {0}) × Session F W → Result (Unit {0}) × Session F W
  after_stop r (ok done, s) = (r, s)
  after_stop r (raised e, s) = (raised e, s)

  -- the `finally` of the loop
  abbrev pub finally_stopped :
      Option (Result (Unit {0}) × Session F W) → Option (Result (Unit {0}) × Session F W)
  finally_stopped none = none
  finally_stopped (some (r, s)) = some (after_stop r (platform.stop_worker s))

  -- `_drive`
  unfoldable pub drive_finally : ℕ → Session F W → Option (Result (Unit {0}) × Session F W)
  unfolding drive
  drive_finally fuel s = finally_stopped (drive fuel s)

  -- `recorder.emit`
  unfoldable pub emit : EventKind F → Identifiers → Action (Session F W) (Unit {0})
  emit kind identifiers s =
      let (r, w) = platform.alive s.world in
      elim r [
        | ok done ↦ with_journal (transition float none kind identifiers s.journal) w
        | raised e ↦ (raised e, record s { world = w })
      ]

  -- a session of a process, from its first event on: `run_process` and `resume_process`
  unfoldable pub session : ℕ → Bool → Session F W → Option (Result (Unit {0}) × Session F W)
  unfolding emit drive_finally
  session fuel resumed s =
      continued (drive_finally fuel) (emit (session_started resumed) no_identifiers s)
