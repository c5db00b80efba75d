-- ===== src/Journal/Sound.antt =====
-- The invariant of a durable run's state: it is stronger than the validators, which accept every
-- state that has it.
use agent_fault_lab.Prelude.{
  ℕ, ◌+◌, ◌≤◌, ◌<◌, String, ◌≡◌, refl, Bool, true, false, not, ◌&&◌, ◌||◌, Option, none, some, List,
  [], arith, eq_refl, eqb, leb, ltb, length, to_nat, if◌then◌else◌, leb_true, ltb_false, eqb_self,
  &&_parts,
}
use agent_fault_lab.Exceptions.{ok}
use agent_fault_lab.Float.{Float}
use agent_fault_lab.Json.Equal.{calls_eq}
use agent_fault_lab.Model.{
  ToolCall, ModelTurn, RunResult, ExecutionStatus, finished, model_limit, tool_limit,
  provider_stopped, protocol_error,
}
use agent_fault_lab.Evaluation.{Evaluation}
use agent_fault_lab.Agent.{is_length}
use agent_fault_lab.Agent.Budget.{Explains}
use agent_fault_lab.Execution.{
  has_policy, policies_for, ExecutionLimits, ExecutionState, limits_valid, execution_valid,
}
use agent_fault_lab.Journal.{
  RunState, Phase, model_phase, tools_phase, terminal_phase, is_tools, is_terminal, is_some,
  same_status, same_text, same_result, pending_of, counts_agree, evaluation_agrees, settings_valid,
  active_within, fields_valid, consistent, revalidate,
}

-- A reserved call is the one at the cursor, and the response that asked for it was complete.
abbrev pub IsReserved : Bool → ℕ → List ToolCall → ModelTurn → Type 0
IsReserved true cursor pending turn =
    (cursor < length pending) × (is_length turn.finish_reason ≡ false)
IsReserved false cursor pending turn = Unit

-- An evaluation is of the terminal result, and a finalized run has one.
abbrev pub IsEvaluated : Bool → Option Evaluation → RunResult → Type 0
IsEvaluated finalized (some e) r = e.execution ≡ r
IsEvaluated finalized none r = finalized ≡ false

module _ {F : Type 0} (float : Float F) where
  -- The execution's records are within their limits.
  abbrev pub execution_sound : ExecutionLimits F → ExecutionState F → Bool
  execution_sound l e =
      execution_valid float e
      && leb e.total_attempts l.total_attempts
      && active_within float l e e.active

  -- no result so far
  abbrev pub IsOpen : RunState F → Type 0
  IsOpen s = (s.terminal ≡ none) × (s.evaluation ≡ none) × (s.finalized ≡ false)

  -- The pending calls are those of the last response. Python's `==` holds of them and themselves.
  abbrev pub IsCalling : RunState F → ModelTurn → Type 0
  IsCalling s turn =
      (s.last_turn ≡ some turn)
      × (s.pending ≡ turn.tool_calls)
      × (calls_eq turn.tool_calls turn.tool_calls ≡ true)
      × (s.tool_cursor ≤ length s.pending)
      × IsReserved s.tool_reserved s.tool_cursor s.pending turn

  -- the counts of the result are those of the run, and its status says what is so
  abbrev pub IsStopped : RunState F → RunResult → Type 0
  IsStopped s r =
      (s.terminal ≡ some r)
      × ((r.model_calls ≡ s.model_calls)
          × (r.tool_calls ≡ s.tool_calls)
          × (r.tool_executions ≡ s.tool_executions))
      × Explains s.limits r r.status
      × (s.tool_reserved ≡ false)
      × (s.tool_cursor ≤ length s.pending)
      × IsEvaluated s.finalized s.evaluation r

  abbrev pub IsIn : Phase → RunState F → Type 0
  IsIn model_phase s = (s.pending ≡ []) × (s.tool_cursor ≡ 0) × (s.tool_reserved ≡ false) × IsOpen s
  IsIn tools_phase s = ((turn : ModelTurn) × IsCalling s turn) × IsOpen s
  IsIn terminal_phase s = (r : RunResult) × IsStopped s r

  -- what no step of a run changes
  abbrev pub IsConfigured : RunState F → Type 0
  IsConfigured s =
      (settings_valid float s.settings ≡ true)
      × (limits_valid float s.execution_limits ≡ true)
      × ((1 ≤ s.limits.max_model_calls) × (s.limits.max_model_calls ≤ 6))
      × ((1 ≤ s.limits.max_tool_calls) × (s.limits.max_tool_calls ≤ 6))
      × (has_policy s.config.policy (policies_for s.config.case) ≡ true)

  abbrev pub IsCounted : RunState F → Type 0
  IsCounted s =
      (s.script_cursor ≤ s.model_calls)
      × (s.model_calls ≤ s.limits.max_model_calls)
      × (s.tool_calls ≤ s.limits.max_tool_calls)
      × (s.tool_executions + to_nat s.tool_reserved ≤ s.tool_calls)

  abbrev pub IsSound : RunState F → Type 0
  IsSound s =
      IsConfigured s
      × IsCounted s
      × (execution_sound s.execution_limits s.execution ≡ true)
      × IsIn s.phase s

  execution_parts :
      (l : ExecutionLimits F) (e : ExecutionState F)
      → execution_sound l e ≡ true
      → (execution_valid float e ≡ true)
        × (ltb l.total_attempts e.total_attempts ≡ false)
        × (active_within float l e e.active ≡ true)
  execution_parts l e h =
      let (first, active) =
        &&_parts (execution_valid float e && leb e.total_attempts l.total_attempts)
          (active_within float l e e.active) h in
      let (valid, total) =
        &&_parts (execution_valid float e) (leb e.total_attempts l.total_attempts) first in
      (valid, ground arith, active)

  fields_valid_sound : (s : RunState F) → IsSound s → fields_valid float s ≡ true
  unfolding fields_valid
  fields_valid_sound s ((a, b, (c0, c1), (d0, d1), policy), (e, f, g, h), k, p) =
      let (valid, _, _) = execution_parts s.execution_limits s.execution k in
      let cursor : s.script_cursor ≤ 6 = omega arith in
      let models : s.model_calls ≤ 6 = omega arith in
      let tools : s.tool_calls ≤ 6 = omega arith in
      let executions : s.tool_executions ≤ 6 = omega arith in
      rw
        (
          a,
          leb_true c0,
          leb_true c1,
          leb_true d0,
          leb_true d1,
          b,
          leb_true cursor,
          leb_true models,
          leb_true tools,
          leb_true executions,
          valid,
          policy,
        )
        refl

  -- the eleven tests of `consistent`
  consistent-ok :
      (s : RunState F)
      → (ltb (length s.pending) s.tool_cursor ≡ false)
      → (is_tools s.phase && not (pending_of s.last_turn s.pending) ≡ false)
      → (s.tool_reserved
            && (not (is_tools s.phase)
                || leb (length s.pending) s.tool_cursor
                || eqb s.tool_calls 0)
          ≡ false)
      → (IsCounted s)
      → (execution_sound s.execution_limits s.execution ≡ true)
      → ((if is_terminal s.phase then not (is_some s.terminal) else is_some s.terminal) ≡ false)
      → (s.finalized && (not (is_some s.terminal) || not (is_some s.evaluation)) ≡ false)
      → (counts_agree s.terminal s.model_calls s.tool_calls s.tool_executions ≡ true)
      → (evaluation_agrees s.evaluation s.terminal ≡ true)
      → consistent float s ≡ ok s
  unfolding consistent
  consistent-ok s t1 t2 t3 (e, f, g, h) k t8 t9 t10 t11 =
      let (_, total, active) = execution_parts s.execution_limits s.execution k in
      let executions : s.tool_executions ≤ s.tool_calls = omega arith in
      rw
        (
          t1,
          t2,
          t3,
          ltb_false executions,
          ltb_false f,
          ltb_false g,
          total,
          active,
          t8,
          t9,
          t10,
          t11,
        )
        refl

  same_result_refl : (r : RunResult) → same_result r r ≡ true
  unfolding same_result
  same_result_refl r =
      rw
        (
          same_status-refl r.status,
          same_text-refl r.final_content,
          eqb_self r.model_calls,
          eqb_self r.tool_calls,
          eqb_self r.tool_executions,
          same_text-refl r.error,
        )
        refl
    where
      same_status-refl : (x : ExecutionStatus) → same_status x x ≡ true
      same_status-refl finished = refl
      same_status-refl model_limit = refl
      same_status-refl tool_limit = refl
      same_status-refl provider_stopped = refl
      same_status-refl protocol_error = refl

      same_text-refl : (t : Option String) → same_text t t ≡ true
      same_text-refl none = refl
      same_text-refl (some t) = eq_refl t

  evaluated :
      (finalized : Bool) (e : Option Evaluation) (r : RunResult)
      → IsEvaluated finalized e r
      → (finalized && (false || not (is_some e)) ≡ false) × (evaluation_agrees e (some r) ≡ true)
  evaluated finalized none r h = (rw h refl, refl)
  evaluated true (some e) r h = (refl, rw h (same_result_refl r))
  evaluated false (some e) r h = (refl, rw h (same_result_refl r))

  reserved_ok :
      (b : Bool) (cursor calls executions : ℕ) (pending : List ToolCall) (turn : ModelTurn)
      → IsReserved b cursor pending turn
      → (executions + to_nat b ≤ calls)
      → b && (false || leb (length pending) cursor || eqb calls 0) ≡ false
  reserved_ok false cursor calls executions pending turn h k = refl
  reserved_ok true cursor calls executions pending turn (h, _) k = ground arith

  counts_same :
      (r : RunResult) (m t x : ℕ)
      → (r.model_calls ≡ m)
      → (r.tool_calls ≡ t)
      → (r.tool_executions ≡ x)
      → counts_agree (some r) m t x ≡ true
  counts_same r m t x a b c = rw (a, b, c, eqb_self m, eqb_self t, eqb_self x) refl

  consistent_sound :
      (s : RunState F) (p : Phase)
      → s.phase ≡ p
      → IsCounted s
      → (execution_sound s.execution_limits s.execution ≡ true)
      → IsIn p s
      → consistent float s ≡ ok s
  consistent_sound s model_phase e c k
        (empty, start, free, (no_result, no_evaluation, unfinished)) =
      consistent-ok s (rw (empty, start) refl) (rw e refl) (rw free refl) c k
        (rw (e, no_result) refl) (rw unfinished refl) (rw no_result refl) (rw no_evaluation refl)
  consistent_sound s tools_phase e c k
        ((turn, (last, same, self, cursor, reserved)), (no_result, no_evaluation, unfinished)) =
      consistent-ok s (ltb_false cursor) (rw (e, last, same, self) refl)
        (rw e (
          reserved_ok s.tool_reserved s.tool_cursor s.tool_calls s.tool_executions s.pending turn
            reserved c.3))
        c k (rw (e, no_result) refl) (rw unfinished refl) (rw no_result refl)
        (rw no_evaluation refl)
  consistent_sound s terminal_phase e c k (r, (stopped, (a, b, x), _, free, cursor, evaluation)) =
      let (finalized, agrees) = evaluated s.finalized s.evaluation r evaluation in
      consistent-ok s (ltb_false cursor) (rw e refl) (rw free refl) c k (rw (e, stopped) refl)
        (rw stopped finalized)
        (rw stopped (counts_same r s.model_calls s.tool_calls s.tool_executions a b x))
        (rw stopped agrees)

  -- No validator of a checkpoint refuses a sound state.
  pub revalidate_sound : (s : RunState F) → IsSound s → revalidate float s ≡ ok s
  unfolding revalidate
  revalidate_sound s h =
      let (_, counted, execution, phase) = h in
      rw (fields_valid_sound s h, consistent_sound s s.phase refl counted execution phase) refl
