-- ===== src/Journal/Accepted.antt =====
-- What the validators of a checkpoint accept.
use agent_fault_lab.Prelude.{
  ℕ, ◌≡◌, refl, Bool, true, false, not, ◌&&◌, ◌||◌, leb, ltb, eqb, length, &&_parts, arith,
  if◌then◌else◌,
}
use agent_fault_lab.Exceptions.{validation_error, Result, ok, ◌>>◌, raise_if}
use agent_fault_lab.Float.{Float}
use agent_fault_lab.Execution.{execution_valid, has_policy, policies_for}
use agent_fault_lab.Journal.{
  RunState, active_within, fields_valid, is_tools, is_terminal, is_some, pending_of, counts_agree,
  evaluation_agrees, consistent, revalidate,
}
use agent_fault_lab.Journal.Sound.{execution_sound}

-- the eleven tests of `consistent`, where none raises
tests_passed :
    {A : Type 0} (b1 b2 b3 b4 b5 b6 b7 b8 b9 b10 b11 : Bool) (s : A) {t : A}
    → (do
      raise_if b1 validation_error
      raise_if b2 validation_error
      raise_if b3 validation_error
      raise_if b4 validation_error
      raise_if b5 validation_error
      raise_if b6 validation_error
      raise_if b7 validation_error
      raise_if b8 validation_error
      raise_if b9 validation_error
      raise_if b10 validation_error
      raise_if b11 validation_error
      ok s)
      ≡ ok t
    → (s ≡ t) × (b6 ≡ false) × (b7 ≡ false)
tests_passed true _ _ _ _ _ _ _ _ _ _ s h = absurd (cc h)
tests_passed false true _ _ _ _ _ _ _ _ _ s h = absurd (cc h)
tests_passed false false true _ _ _ _ _ _ _ _ s h = absurd (cc h)
tests_passed false false false true _ _ _ _ _ _ _ s h = absurd (cc h)
tests_passed false false false false true _ _ _ _ _ _ s h = absurd (cc h)
tests_passed false false false false false true _ _ _ _ _ s h = absurd (cc h)
tests_passed false false false false false false true _ _ _ _ s h = absurd (cc h)
tests_passed false false false false false false false true _ _ _ s h = absurd (cc h)
tests_passed false false false false false false false false true _ _ s h = absurd (cc h)
tests_passed false false false false false false false false false true _ s h = absurd (cc h)
tests_passed false false false false false false false false false false true s h = absurd (cc h)
tests_passed false false false false false false false false false false false s h =
    (cc h, refl, refl)

passed :
    {A : Type 0} (b : Bool) (rest : Result A) {a : A}
    → (raise_if (not b) validation_error >> rest) ≡ ok a
    → (b ≡ true) × (rest ≡ ok a)
passed true rest h = (refl, h)
passed false rest h = absurd (cc h)

module _ {F : Type 0} (float : Float F) where
  fields_execution :
      (s : RunState F) → fields_valid float s ≡ true → execution_valid float s.execution ≡ true
  unfolding fields_valid
  fields_execution s h =
      let (first, _) = &&_parts _ (has_policy s.config.policy (policies_for s.config.case)) h in
      (&&_parts _ (execution_valid float s.execution) first).1

  -- What the test of the execution, and of its active operation, has left where no validator raised.
  pub revalidate-ok :
      (s : RunState F) {t : RunState F}
      → revalidate float s ≡ ok t
      → (s ≡ t) × (execution_sound float s.execution_limits s.execution ≡ true)
  unfolding revalidate consistent
  revalidate-ok s h =
      let (f, h0) = passed (fields_valid float s) (consistent float s) h in
      let (same, total, active) =
        tests_passed (ltb (length s.pending) s.tool_cursor)
          (is_tools s.phase && not (pending_of s.last_turn s.pending))
          (s.tool_reserved
            && (not (is_tools s.phase)
                || leb (length s.pending) s.tool_cursor
                || eqb s.tool_calls 0))
          (ltb s.tool_calls s.tool_executions)
          (ltb s.limits.max_model_calls s.model_calls || ltb s.limits.max_tool_calls s.tool_calls)
          (ltb s.execution_limits.total_attempts s.execution.total_attempts)
          (not (active_within float s.execution_limits s.execution s.execution.active))
          (if is_terminal s.phase then not (is_some s.terminal) else is_some s.terminal)
          (s.finalized && (not (is_some s.terminal) || not (is_some s.evaluation)))
          (not (counts_agree s.terminal s.model_calls s.tool_calls s.tool_executions))
          (not (evaluation_agrees s.evaluation s.terminal)) s h0 in
      (
        same,
        within (execution_valid float s.execution) s.execution.total_attempts
            s.execution_limits.total_attempts
            (active_within float s.execution_limits s.execution s.execution.active)
            (fields_execution s f) total active,
      )
    where
      within :
          (v : Bool) (a b : ℕ) (w : Bool)
          → v ≡ true
          → ltb b a ≡ false
          → not w ≡ false
          → (v && leb a b && w) ≡ true
      within true a b true e h k = ground arith
      within true a b false e h k = absurd (cc k)
      within false a b w e h k = absurd (cc e)
