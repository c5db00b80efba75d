-- ===== src/Agent/Outcome.antt =====
-- The promises of `run_agent` to its callers: its budgets, the meaning of a status, and that a run
-- gives a result.
use agent_fault_lab.Prelude.{String, ◌≡◌, refl, subst, false, is_blank, Bool-cases, inl, inr}
use agent_fault_lab.Exceptions.{
  value_error, operation_conflict, contract_error, validation_error, sqlite_error, file_exists,
  delivery_unavailable, provider_error, assertion_error, recursion_error, Result, ok, raised,
}
use agent_fault_lab.Model.{RunResult}
use agent_fault_lab.Agent.{Limits, Harness, LoopState, Flow, halt, go_on, run_agent}
use agent_fault_lab.Agent.Budget.{IsBudgeted, Explains, RaisesOnly, OnlyRaises, OrProvider, Ends}
use agent_fault_lab.Agent.Rounds.{run_agent-Ends}

anything : {A : Type 0} (r : Result A) → OnlyRaises (λ _. Unit {0}) r
anything (ok a) = tt
anything (raised e) = tt

anything_else : {A : Type 0} (r : Result A) → OnlyRaises (OrProvider (λ _. Unit {0})) r
anything_else (ok a) = tt
anything_else (raised (value_error m)) = tt
anything_else (raised operation_conflict) = tt
anything_else (raised (contract_error s)) = tt
anything_else (raised validation_error) = tt
anything_else (raised (sqlite_error m)) = tt
anything_else (raised file_exists) = tt
anything_else (raised delivery_unavailable) = tt
anything_else (raised (provider_error m)) = tt
anything_else (raised assertion_error) = tt
anything_else (raised recursion_error) = tt

module _ {W : Type 0} (harness : Harness W) (limits : Limits) (prompt request : String)
    (w : W) where
  returns :
      (f : Flow W)
      → Ends harness limits (λ _. ⊥) f
      → (r : RunResult) × (s : LoopState W) × (f ≡ halt (ok r) s)
  returns (halt (ok r) s) h = (r, s, refl)
  returns (halt (raised e) s) h = elim h [ ]
  returns (go_on s) h = elim h [ ]

  not_blank :
      {r : RunResult} {s : LoopState W}
      → run_agent harness limits prompt request w ≡ halt (ok r) s
      → is_blank request ≡ false
  unfolding run_agent
  not_blank h = elim (Bool-cases (is_blank request)) [ inl e ↦ absurd (cc (rw e at h)) | inr e ↦ e ]

  -- If `run_agent` returns a result, its model calls and its tool calls are within the limits, no
  -- more tools were executed than called, and the conversation holds one tool message for each
  -- tool call. What its status says is so: a finished run has a final text that is not blank, and
  -- no error; a run stopped by a limit used up that limit and has no final text; a run stopped by
  -- the provider has no final text; and a protocol error has a message.
  pub run_agent-within_limits :
      {r : RunResult} {s : LoopState W}
      → run_agent harness limits prompt request w ≡ halt (ok r) s
      → IsBudgeted harness limits (λ _. Unit) r s × Explains limits r r.status
  run_agent-within_limits h = subst (Ends harness limits (λ _. Unit)) h (
      run_agent-Ends harness limits (λ _. Unit)
        (
          λ call id w'. anything (harness.execute call id w').0,
          λ ms w'. anything_else (harness.complete ms w').0,
          λ event w'. anything (harness.emit event w').0,
        )
        prompt request w (not_blank h))

  -- If the request is not blank, the executor and the recorder raise nothing, and the provider raises
  -- provider errors only, then `run_agent` ends, with a result.
  pub run_agent-returns :
      is_blank request ≡ false
      → RaisesOnly harness limits (λ _. ⊥)
      → (r : RunResult) × (s : LoopState W) × (run_agent harness limits prompt request w
          ≡ halt (ok r) s)
  run_agent-returns e only =
      returns (run_agent harness limits prompt request w)
        (run_agent-Ends harness limits (λ _. ⊥) only prompt request w e)
