-- ===== src/Agent/Budget.antt =====
-- The budgets of a run and what its status says, for every provider, executor and recorder.
use agent_fault_lab.Prelude.{
  ℕ, suc, ◌+◌, ◌≤◌, String, ◌≡◌, ◌≢◌, refl, false, Option, none, some, List, [], ◌∷◌, ◌++◌, arith,
  leb, is_blank, to_nat, to_nat-≤, Bool-cases, inl, inr, subst,
}
use agent_fault_lab.Exceptions.{Exception, provider_error, Result, ok, raised}
use agent_fault_lab.Model.{
  ToolCall, Role, Message, system, user, assistant, tool, ExecutionStatus, finished, model_limit,
  tool_limit, provider_stopped, protocol_error, RunResult,
}
use agent_fault_lab.Agent.{
  ToolDelivery, Limits, LoopEvent, run_stopped, tool_skipped, tool_returned, noted, recorded,
  stopping, executed, tool_requested, Harness, LoopState, Flow, halt, go_on, stop, deliver,
  tool_step, tool_loop, tool_message,
}

-- the tool messages of a conversation
abbrev pub is_tool : Role → ℕ
is_tool tool = 1
is_tool system = 0
is_tool user = 0
is_tool assistant = 0

abbrev pub tool_messages : List Message → ℕ
tool_messages [] = 0
tool_messages (m ∷ ms) = is_tool m.role + tool_messages ms

pub tool_messages-append :
    (xs ys : List Message) → tool_messages (xs ++ ys) ≡ tool_messages xs + tool_messages ys
tool_messages-append [] ys = omega arith
tool_messages-append (m ∷ xs) ys = omega (arith, tool_messages-append xs ys)

-- What a result's status says of its content and its counts.
abbrev pub Explains : Limits → RunResult → ExecutionStatus → Type 0
Explains limits r finished =
    (text : String) × (r.final_content ≡ some text) × (is_blank text ≡ false) × (r.error ≡ none)
Explains limits r model_limit = (r.model_calls ≡ limits.max_model_calls) × (r.final_content ≡ none)
Explains limits r tool_limit = (r.tool_calls ≡ limits.max_tool_calls) × (r.final_content ≡ none)
Explains limits r provider_stopped = r.final_content ≡ none
Explains limits r protocol_error = r.error ≢ none

-- A result that is no exception but one of `P`.
abbrev pub OnlyRaises : {A : Type 0} → (Exception → Type 0) → Result A → Type 0
OnlyRaises P (ok a) = Unit
OnlyRaises P (raised e) = P e

-- The loop catches a provider's error: it ends the run with a result.
abbrev pub OrProvider : (Exception → Type 0) → Exception → Type 0
OrProvider P (provider_error message) = Unit
OrProvider P e = P e

module _ {W : Type 0} (harness : Harness W) (limits : Limits) (Raises : Exception → Type 0) where
  -- The executor and the recorder raise nothing but what `Raises` says, and the provider nothing but
  -- that and provider errors.
  abbrev pub RaisesOnly : Type 0
  RaisesOnly =
      ((call : ToolCall) (id : String) (w : W) → OnlyRaises Raises (harness.execute call id w).0)
      × ((messages : List Message) (w : W)
          → OnlyRaises (OrProvider Raises) (harness.complete messages w).0)
      × ((event : LoopEvent) (w : W) → OnlyRaises Raises (harness.emit event w).0)

  abbrev pub IsWithin : LoopState W → Type 0
  IsWithin s =
      (s.tool_calls ≤ limits.max_tool_calls)
      × (s.tool_executions ≤ s.tool_calls)
      × (tool_messages s.messages ≡ s.tool_calls)

  -- The counts of a result are within the limits, and the conversation has one tool message for
  -- each call.
  abbrev pub IsBudgeted : RunResult → LoopState W → Type 0
  IsBudgeted r s =
      (r.model_calls ≤ limits.max_model_calls)
      × (r.tool_calls ≤ limits.max_tool_calls)
      × (r.tool_executions ≤ r.tool_calls)
      × (tool_messages s.messages ≡ r.tool_calls)

  -- a step at the model call `n`
  abbrev pub IsSound : ℕ → Flow W → Type 0
  IsSound n (halt (ok r) s) = IsBudgeted r s × Explains limits r r.status
  IsSound n (halt (raised e) s) = Raises e
  IsSound n (go_on s) = IsWithin s × (s.model_calls ≡ n)

  -- How a run ends: never with a step to go.
  abbrev pub Ends : Flow W → Type 0
  Ends (halt (ok r) s) = IsBudgeted r s × Explains limits r r.status
  Ends (halt (raised e) s) = Raises e
  Ends (go_on s) = ⊥

  module _ (only : RaisesOnly) where
    -- what holds after an event that was recorded, and of an exception
    pub recorded-Holds :
        (P : Flow W → Type 0) (event : LoopEvent) (s : LoopState W) (rest : LoopState W → Flow W)
        → ((e : Exception) (t : LoopState W) → Raises e → P (halt (raised e) t))
        → ((w : W) → P (rest (record s { world = w })))
        → P (recorded harness limits event s rest)
    recorded-Holds P event s rest refused k = go (harness.emit event s.world) (only.2 event s.world)
      where
        go :
            (p : Result (Unit {0}) × W)
            → OnlyRaises Raises p.0
            → P (noted harness limits p.0 (record s { world = p.1 }) rest)
        go (ok done, w) q = k w
        go (raised e, w) q = refused e (record s { world = w }) q

    pub recorded-IsSound :
        (n : ℕ) (event : LoopEvent) (s : LoopState W) (rest : LoopState W → Flow W)
        → ((w : W) → IsSound n (rest (record s { world = w })))
        → IsSound n (recorded harness limits event s rest)
    recorded-IsSound n event s rest k = recorded-Holds (IsSound n) event s rest (λ e t q. q) k

    pub stop-IsSound :
        (n : ℕ) (status : ExecutionStatus) (content error : Option String) (s : LoopState W)
        → IsBudgeted (stopping harness limits status content error s) s
        → Explains limits (stopping harness limits status content error s) status
        → IsSound n (stop harness limits status content error s)
    unfolding stop
    stop-IsSound n status content error s b x =
        recorded-IsSound n (run_stopped (stopping harness limits status content error s)) s
          (halt (ok (stopping harness limits status content error s))) (λ w. (b, x))

    -- `s` is counted already for the call that is delivered.
    deliver-IsSound :
        (index : ℕ) (call : ToolCall) (r : Result ToolDelivery) (s : LoopState W)
        → (s.tool_calls ≤ limits.max_tool_calls)
        → (suc s.tool_executions ≤ s.tool_calls)
        → (suc (tool_messages s.messages) ≡ s.tool_calls)
        → OnlyRaises Raises r
        → IsSound s.model_calls (deliver harness limits index call r s)
    deliver-IsSound index call (raised e) s a b c q = q
    deliver-IsSound index call (ok d) s a b c q =
        let m = tool_message d.content (harness.call_id s.model_calls (index + 1)) call.name ∷ [] in
        recorded-IsSound s.model_calls (tool_returned s.model_calls (index + 1) d)
          (record s { tool_executions = s.tool_executions + to_nat d.executed }) _
          (λ w. (
            (
              a,
              omega (arith, to_nat-≤ d.executed),
              omega (arith, tool_messages-append s.messages m),
            ),
            refl,
          ))

    executed-IsSound :
        (index : ℕ) (call : ToolCall) (s : LoopState W)
        → (s.tool_calls ≤ limits.max_tool_calls)
        → (suc s.tool_executions ≤ s.tool_calls)
        → (suc (tool_messages s.messages) ≡ s.tool_calls)
        → IsSound s.model_calls (executed harness limits index call s)
    executed-IsSound index call s a b c =
        let (r, w) = harness.execute call (harness.call_id s.model_calls (index + 1)) s.world in
        deliver-IsSound index call r (record s { world = w }) a b c
          (only.0 call (harness.call_id s.model_calls (index + 1)) s.world)

    tool_step-IsSound :
        (index : ℕ) (call : ToolCall) (s : LoopState W)
        → IsWithin s
        → (s.model_calls ≤ limits.max_model_calls)
        → IsSound s.model_calls (tool_step harness limits index call s)
    unfolding tool_step
    tool_step-IsSound index call s (a, b, c) h =
        elim (Bool-cases (leb limits.max_tool_calls s.tool_calls)) [
          | inl e ↦ rw e (
              recorded-IsSound s.model_calls (tool_skipped s.model_calls (index + 1)) s
                (stop harness limits tool_limit none (some "Tool-call budget exhausted"))
                (λ w.
                  stop-IsSound s.model_calls tool_limit none (some "Tool-call budget exhausted")
                    (record s { world = w }) (h, a, b, c) (ground arith, refl)))
          | inr e ↦ rw e (
              recorded-IsSound s.model_calls (tool_requested s.model_calls (index + 1) call)
                (record s { tool_calls = s.tool_calls + 1 }) (executed harness limits index call)
                (λ w.
                  executed-IsSound index call
                    (record s { tool_calls = s.tool_calls + 1; world = w }) (ground arith)
                    (ground arith) (ground arith)))
        ]

    then-IsSound :
        {n : ℕ} (f : Flow W) (rest : LoopState W → Flow W)
        → IsSound n f
        → ((s : LoopState W) → IsWithin s → (s.model_calls ≡ n) → IsSound n (rest s))
        → IsSound n (elim f [ halt r s ↦ halt r s | go_on s ↦ rest s ])
    then-IsSound (halt (ok r) s) rest g k = g
    then-IsSound (halt (raised e) s) rest g k = g
    then-IsSound (go_on s) rest (g, e) k = k s g e

    pub tool_loop-IsSound :
        (calls : List ToolCall) (index : ℕ) (s : LoopState W)
        → IsWithin s
        → (s.model_calls ≤ limits.max_model_calls)
        → IsSound s.model_calls (tool_loop harness limits index calls s)
    unfolding tool_loop
    tool_loop-IsSound [] index s k h = (k, refl)
    tool_loop-IsSound (call ∷ calls) index s k h =
        then-IsSound (tool_step harness limits index call s)
          (tool_loop harness limits (index + 1) calls) (tool_step-IsSound index call s k h)
          (λ s' k' e.
            subst (λ n. IsSound n (tool_loop harness limits (index + 1) calls s')) e
              (tool_loop-IsSound calls (index + 1) s' k' (omega arith)))
