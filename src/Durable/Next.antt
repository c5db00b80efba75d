-- ===== src/Durable/Next.antt =====
-- The states that the loop checkpoints are sound.
use agent_fault_lab.Prelude.{
  ℕ, ◌≤◌, ◌<◌, String, ◌≡◌, refl, sym, subst, Bool, true, false, Option, List, arith, length,
  to_nat-≤,
}
use agent_fault_lab.Float.{Float}
use agent_fault_lab.Json.Equal.{calls_eq}
use agent_fault_lab.Model.{ToolCall, ModelTurn, ExecutionStatus}
use agent_fault_lab.Agent.{ToolDelivery, is_length}
use agent_fault_lab.Agent.Budget.{Explains}
use agent_fault_lab.Execution.{ExecutionState}
use agent_fault_lab.Journal.{RunState, Phase, model_phase, tools_phase, terminal_phase, is_offline}
use agent_fault_lab.Journal.Sound.{IsSound, IsOpen, IsIn, IsCalling, IsReserved, execution_sound}
use agent_fault_lab.Durable.{
  Platform, result_of, stopped, counted, returned, ready, reserved, delivered,
}

module _ {F W : Type 0} (float : Float F) (platform : Platform F W) where
  pub stopped-IsSound :
      (status : ExecutionStatus) (content error : Option String) (s : RunState F)
      → IsSound float s
      → IsOpen float s
      → (s.tool_reserved ≡ false)
      → (s.tool_cursor ≤ length s.pending)
      → Explains s.limits (result_of float platform status content error s) status
      → IsSound float (stopped float platform (result_of float platform status content error s) s)
  stopped-IsSound status content error s (a, b, c, d) (no_result, no_evaluation, unfinished) free
        cursor why =
      (
        a,
        b,
        c,
        (
          result_of float platform status content error s,
          (refl, (refl, refl, refl), why, free, cursor, rw no_evaluation unfinished),
        ),
      )

  -- A model call is counted before it is made.
  pub counted-IsSound :
      (s : RunState F)
      → IsSound float s
      → s.phase ≡ model_phase
      → (s.model_calls < s.limits.max_model_calls)
      → IsSound float (counted float platform s)
  counted-IsSound s (a, (c0, c1, c2, c3), k, h) e more = (
    a,
    (omega arith, omega arith, c2, c3),
    k,
    subst (λ p. IsIn float p (counted float platform s)) (sym e) (subst (λ p. IsIn float p s) e h),
  )

  pub returned-IsSound :
      (turn : ModelTurn) (s : RunState F)
      → IsSound float s
      → s.phase ≡ model_phase
      → (s.script_cursor < s.model_calls)
      → calls_eq turn.tool_calls turn.tool_calls ≡ true
      → IsSound float (returned float platform turn s)
  returned-IsSound turn s (a, (c0, c1, c2, c3), k, h) e behind self =
      let (_, _, free, fresh) : IsIn float model_phase s = subst (λ p. IsIn float p s) e h in
      (
        a,
        (omega (arith, to_nat-≤ (is_offline s.mode)), c1, c2, c3),
        k,
        ((turn, (refl, refl, self, omega arith, not_reserved s.tool_reserved turn free)), fresh),
      )
    where
      not_reserved : (b : Bool) (turn : ModelTurn) → b ≡ false → IsReserved b 0 turn.tool_calls turn
      not_reserved false turn h = tt
      not_reserved true turn h = absurd (cc h)

  not_reserved :
      (b : Bool) (cursor : ℕ) (pending : List ToolCall) (turn : ModelTurn)
      → IsReserved b cursor pending turn
      → cursor ≡ length pending
      → b ≡ false
  not_reserved false cursor pending turn h e = refl
  not_reserved true cursor pending turn (h, _) e = absurd (omega arith)

  pub ready-IsSound :
      (turn : ModelTurn) (s : RunState F)
      → IsSound float s
      → IsCalling float s turn
      → IsOpen float s
      → (s.tool_cursor ≡ length s.pending)
      → IsSound float (ready float platform s)
  ready-IsSound turn s (a, c, k, h) (_, _, _, _, held) fresh e = (
    a,
    c,
    k,
    (refl, refl, not_reserved s.tool_reserved s.tool_cursor s.pending turn held e, fresh),
  )

  pub reserved-IsSound :
      (turn : ModelTurn) (s : RunState F)
      → IsSound float s
      → s.phase ≡ tools_phase
      → IsCalling float s turn
      → IsOpen float s
      → (s.tool_reserved ≡ false)
      → (s.tool_calls < s.limits.max_tool_calls)
      → (s.tool_cursor < length s.pending)
      → (is_length turn.finish_reason ≡ false)
      → IsSound float (reserved float platform s)
  reserved-IsSound turn s (a, (c0, c1, c2, c3), k, h) e (t0, t1, t2, t3, t4) fresh free more cursor
        full =
      let executions : s.tool_executions ≤ s.tool_calls = omega (arith, rw free at c3) in
      (
        a,
        (c0, c1, omega arith, omega arith),
        k,
        subst (λ p. IsIn float p (reserved float platform s)) (sym e)
            ((turn, (t0, t1, t2, t3, (cursor, full))), fresh),
      )

  pub executed-IsSound :
      (e : ExecutionState F) (s : RunState F)
      → IsSound float s
      → (execution_sound float s.execution_limits e ≡ true)
      → IsSound float (record s { execution = e })
  executed-IsSound e s (a, c, k, h) k' = (a, c, k', go s.phase h)
    where
      go : (p : Phase) → IsIn float p s → IsIn float p (record s { execution = e })
      go model_phase h = h
      go tools_phase h = h
      go terminal_phase h = h

  pub delivered-IsSound :
      (call : ToolCall) (id : String) (delivery : ToolDelivery) (turn : ModelTurn) (s : RunState F)
      → IsSound float s
      → s.phase ≡ tools_phase
      → IsCalling float s turn
      → IsOpen float s
      → (s.tool_reserved ≡ true)
      → IsSound float (delivered float platform call id delivery s)
  delivered-IsSound call id delivery turn s (a, (c0, c1, c2, c3), k, h) e (t0, t1, t2, t3, t4) fresh
        held =
      let (cursor, _) : IsReserved true s.tool_cursor s.pending turn =
        subst (λ b. IsReserved b s.tool_cursor s.pending turn) held t4 in
      (
        a,
        (c0, c1, c2, omega (arith, rw held at c3, to_nat-≤ delivery.executed)),
        k,
        subst (λ p. IsIn float p (delivered float platform call id delivery s)) (sym e)
            ((turn, (t0, t1, t2, omega arith, tt)), fresh),
      )
