-- ===== src/Agent/Rounds.antt =====
-- The rounds of a run, up to its end, for every provider, executor and recorder.
use agent_fault_lab.Prelude.{
  ℕ, zero, suc, ◌+◌, ◌≤◌, String, ◌≡◌, refl, false, Option, none, some, List, [], ◌∷◌, ◌++◌, arith,
  is_blank, Bool-cases, inl, inr,
}
use agent_fault_lab.Exceptions.{
  Exception, value_error, operation_conflict, contract_error, validation_error, sqlite_error,
  file_exists, delivery_unavailable, provider_error, assertion_error, recursion_error, Result, ok,
  raised,
}
use agent_fault_lab.Model.{
  ToolCall, ModelTurn, finished, model_limit, provider_stopped, protocol_error,
}
use agent_fault_lab.Agent.{
  Limits, run_started, run_stopped, stopping, interpreted, asked, model_requested, model_returned,
  Harness, LoopState, Flow, halt, go_on, stop, final_turn, answered, turn_step, completed_call,
  round, loop, initial_state, run_agent, is_length, assistant_message,
}
use agent_fault_lab.Agent.Budget.{
  tool_messages-append, OnlyRaises, OrProvider, RaisesOnly, IsWithin, IsSound, Ends, recorded-Holds,
  recorded-IsSound, stop-IsSound, tool_loop-IsSound,
}

module _ {W : Type 0} (harness : Harness W) (limits : Limits) (Raises : Exception → Type 0)
    (only : RaisesOnly harness limits Raises) where
  final_turn-IsSound :
      (turn : ModelTurn) (s : LoopState W)
      → IsWithin harness limits Raises s
      → (s.model_calls ≤ limits.max_model_calls)
      → IsSound harness limits Raises s.model_calls (final_turn harness limits turn s)
  unfolding final_turn
  final_turn-IsSound turn s (a, b, c) h = elim (Bool-cases (is_blank turn.content)) [
    | inl e ↦ rw e (
        stop-IsSound harness limits Raises only s.model_calls protocol_error (some turn.content)
          (some "Empty assistant response") s (h, a, b, c) (λ n. cc n))
    | inr e ↦ rw e (
        stop-IsSound harness limits Raises only s.model_calls finished (some turn.content) none s
          (h, a, b, c) (turn.content, refl, e, refl))
  ]

  answered-IsSound :
      (turn : ModelTurn) (calls : List ToolCall) (s : LoopState W)
      → IsWithin harness limits Raises s
      → (s.model_calls ≤ limits.max_model_calls)
      → IsSound harness limits Raises s.model_calls (answered harness limits turn calls s)
  unfolding answered
  answered-IsSound turn [] s k h = final_turn-IsSound turn s k h
  answered-IsSound turn (call ∷ calls) s k h =
      tool_loop-IsSound harness limits Raises only (call ∷ calls) 0 s k h

  interpreted-IsSound :
      (turn : ModelTurn) (s : LoopState W)
      → IsWithin harness limits Raises s
      → (s.model_calls ≤ limits.max_model_calls)
      → IsSound harness limits Raises s.model_calls (interpreted harness limits turn s)
  unfolding interpreted
  interpreted-IsSound turn s (a, b, c) h = elim (Bool-cases (is_length turn.finish_reason)) [
    | inl e ↦ rw e (
        stop-IsSound harness limits Raises only s.model_calls protocol_error
          (elim turn.tool_calls [ [] ↦ some turn.content | _ ∷ _ ↦ none ])
          (some "Model response hit its output limit") s (h, a, b, c) (λ n. cc n))
    | inr e ↦
        let m = assistant_message turn ∷ [] in
        rw e (
          answered-IsSound turn turn.tool_calls (record s { messages = s.messages ++ m })
            (a, b, omega (arith, tool_messages-append s.messages m)) h)
  ]

  turn_step-IsSound :
      (turn : ModelTurn) (s : LoopState W)
      → IsWithin harness limits Raises s
      → (s.model_calls ≤ limits.max_model_calls)
      → IsSound harness limits Raises s.model_calls (turn_step harness limits turn s)
  unfolding turn_step
  turn_step-IsSound turn s k h =
      recorded-IsSound harness limits Raises only s.model_calls (model_returned s.model_calls turn)
        s (interpreted harness limits turn)
        (λ w. interpreted-IsSound turn (record s { world = w }) k h)

  completed_call-IsSound :
      (r : Result ModelTurn) (s : LoopState W)
      → OnlyRaises (OrProvider Raises) r
      → IsWithin harness limits Raises s
      → (s.model_calls ≤ limits.max_model_calls)
      → IsSound harness limits Raises s.model_calls (completed_call harness limits r s)
  unfolding completed_call turn_step
  completed_call-IsSound (ok turn) s q k h = turn_step-IsSound turn s k h
  completed_call-IsSound (raised (provider_error message)) s q (a, b, c) h =
      stop-IsSound harness limits Raises only s.model_calls provider_stopped none (some message) s
        (h, a, b, c) refl
  completed_call-IsSound (raised (value_error m)) s q k h = q
  completed_call-IsSound (raised operation_conflict) s q k h = q
  completed_call-IsSound (raised (contract_error m)) s q k h = q
  completed_call-IsSound (raised validation_error) s q k h = q
  completed_call-IsSound (raised (sqlite_error m)) s q k h = q
  completed_call-IsSound (raised file_exists) s q k h = q
  completed_call-IsSound (raised delivery_unavailable) s q k h = q
  completed_call-IsSound (raised assertion_error) s q k h = q
  completed_call-IsSound (raised recursion_error) s q k h = q

  round-IsSound :
      (s : LoopState W)
      → IsWithin harness limits Raises s
      → (s.model_calls + 1 ≤ limits.max_model_calls)
      → IsSound harness limits Raises (s.model_calls + 1) (round harness limits s)
  unfolding round
  round-IsSound s k h =
      let n = s.model_calls + 1 in
      recorded-IsSound harness limits Raises only n (model_requested n)
        (record s { model_calls = n }) (asked harness limits)
        (λ w.
          let (r, w') = harness.complete s.messages w in
          completed_call-IsSound r (record s { model_calls = n; world = w' }) (only.1 s.messages w)
            k h)

  then-Ends :
      {n : ℕ} (f : Flow W) (rest : LoopState W → Flow W)
      → IsSound harness limits Raises n f
      → ((s : LoopState W)
          → IsWithin harness limits Raises s
          → (s.model_calls ≡ n)
          → Ends harness limits Raises (rest s))
      → Ends harness limits Raises (elim f [ halt r s ↦ halt r s | go_on s ↦ rest s ])
  then-Ends (halt (ok r) s) rest g k = g
  then-Ends (halt (raised e) s) rest g k = g
  then-Ends (go_on s) rest (g, e) k = k s g e

  loop-Ends :
      (rounds : ℕ) (s : LoopState W)
      → IsWithin harness limits Raises s
      → (s.model_calls + rounds ≡ limits.max_model_calls)
      → Ends harness limits Raises (loop harness limits rounds s)
  unfolding loop stop
  loop-Ends zero s (a, b, c) h =
      let message : Option String = some "Model-call budget exhausted" in
      let result = stopping harness limits model_limit none message s in
      recorded-Holds harness limits Raises only (Ends harness limits Raises) (run_stopped result) s
        (halt (ok result)) (λ e t q. q) (λ w. ((omega arith, a, b, c), (omega arith, refl)))
  loop-Ends (suc rounds) s k h =
      then-Ends (round harness limits s) (loop harness limits rounds)
        (round-IsSound s k (omega arith)) (λ s' k' e. loop-Ends rounds s' k' (omega arith))

  pub run_agent-Ends :
      (prompt request : String) (w : W)
      → (is_blank request ≡ false)
      → Ends harness limits Raises (run_agent harness limits prompt request w)
  unfolding run_agent initial_state
  run_agent-Ends prompt request w e =
      let s = initial_state harness limits prompt request w in
      rw e (
        recorded-Holds harness limits Raises only (Ends harness limits Raises)
          (run_started s.messages limits) s (loop harness limits limits.max_model_calls)
          (λ x t q. q)
          (λ w'.
            loop-Ends limits.max_model_calls (initial_state harness limits prompt request w')
              (omega arith, omega arith, refl) (omega arith)))
