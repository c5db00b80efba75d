-- ===== src/Reliability/Delivery.antt =====
-- What the executor delivers under validation, and that its policy and its response faults change
-- nothing of the store.
use agent_fault_lab.Prelude.{
  String, ◌≡◌, ◌⊎◌, refl, ap, ◌∙◌, subst, Bool, Option, none, some, ◌==◌, Bool-cases, inl, inr,
}
use agent_fault_lab.Exceptions.{
  ContractStage, value_error, operation_conflict, contract_error, validation_error, sqlite_error,
  file_exists, delivery_unavailable, provider_error, assertion_error, recursion_error, Result, ok,
  raised, resume,
}
use agent_fault_lab.Model.{ToolCall}
use agent_fault_lab.Pydantic.{Pydantic}
use agent_fault_lab.Tasks.{Task}
use agent_fault_lab.Tools.{ToolResult, execute_tool}
use agent_fault_lab.Contracts.{invalid_result, ResponseEnvelope, validate_response}
use agent_fault_lab.Contracts.Accepted.{IsShaped, AnswersIf, validate_response-Answers}
use agent_fault_lab.Agent.{ToolDelivery}
use agent_fault_lab.Reliability.{
  ResponseCase, ResponsePolicy, pass_through, validated, ReliabilityConfig, ResponseState, Texts,
  response_captured, mode_of, payload, leaves_response, target, record_event, inject, injected,
  response, checked, deliver, executed, execute,
}

module _ (texts : Texts) (pydantic : Pydantic) (call : ToolCall) where
  -- what validation delivers: the text of a refusal, or a response that answers the call
  abbrev pub IsAnswered : String → Type 0
  IsAnswered content =
      ((stage : ContractStage) × (content
          ≡ texts.error_text invalid_result (texts.stage_text stage)))
      ⊎ ((r : ResponseEnvelope) × (validate_response pydantic texts.decode content call ≡ ok r)
          × IsShaped r.succeeded r.value r.error
          × AnswersIf r.succeeded pydantic call r.value)

  checked-IsAnswered :
      (raw call_id content : String) (r : Result ResponseEnvelope) (s t : ResponseState)
      → validate_response pydantic texts.decode raw call ≡ r
      → checked texts pydantic raw call_id r s ≡ (ok content, t)
      → IsAnswered content
  checked-IsAnswered raw call_id content (ok envelope) s t h k =
      let same : raw ≡ content = cc k in
      let (shaped, answers) = validate_response-Answers pydantic texts.decode raw call envelope h in
      subst IsAnswered same (inr (envelope, h, shaped, answers))
  checked-IsAnswered raw call_id content (raised (contract_error stage)) s t h k = inl (stage, cc k)
  checked-IsAnswered raw call_id content (raised (value_error m)) s t h k = absurd (cc k)
  checked-IsAnswered raw call_id content (raised operation_conflict) s t h k = absurd (cc k)
  checked-IsAnswered raw call_id content (raised validation_error) s t h k = absurd (cc k)
  checked-IsAnswered raw call_id content (raised (sqlite_error m)) s t h k = absurd (cc k)
  checked-IsAnswered raw call_id content (raised file_exists) s t h k = absurd (cc k)
  checked-IsAnswered raw call_id content (raised delivery_unavailable) s t h k = absurd (cc k)
  checked-IsAnswered raw call_id content (raised (provider_error m)) s t h k = absurd (cc k)
  checked-IsAnswered raw call_id content (raised assertion_error) s t h k = absurd (cc k)
  checked-IsAnswered raw call_id content (raised recursion_error) s t h k = absurd (cc k)

  -- the delivery of a content
  delivered-IsAnswered :
      (x : Bool) (p : Result String × ResponseState) (d : ToolDelivery) (t : ResponseState)
      → ((content : String) (u : ResponseState) → p ≡ (ok content, u) → IsAnswered content)
      → resume (λ content v. (ok (record { content = content; executed = x }), v)) p.0 p.1
        ≡ (ok d, t)
      → IsAnswered d.content
  delivered-IsAnswered x (ok content, u) d t k h =
      let made : ToolDelivery = record { content = content; executed = x } in
      let whole : made ≡ d = cc h in
      let same : content ≡ d.content = ap (λ (d : ToolDelivery). d.content) whole in
      subst IsAnswered same (k content u refl)
  delivered-IsAnswered x (raised e, u) d t k h = absurd (cc h)

  executed-IsAnswered :
      (case : ResponseCase) (call_id : String) (r : Result ToolResult) (s t : ResponseState)
      (d : ToolDelivery)
      → executed texts pydantic (record { case = case; policy = validated }) call call_id r s
        ≡ (ok d, t)
      → IsAnswered d.content
  unfolding deliver
  executed-IsAnswered case call_id (raised e) s t d h = absurd (cc h)
  executed-IsAnswered case call_id (ok result) s t d h =
      let (raw, s1) = response texts case call result call_id s in
      let s2 = record_event (response_captured raw call_id) s1 in
      let verdict = validate_response pydantic texts.decode raw call in
      delivered-IsAnswered result.executed (checked texts pydantic raw call_id verdict s2) d t
        (λ content u k. checked-IsAnswered raw call_id content verdict s2 u refl k) h

  -- Under validation, whatever fault was put in the response, a delivery has the text of a refusal,
  -- or a response that the contract accepts: a success without an error that answers the call, or
  -- a failure with a message.
  pub execute-IsAnswered :
      (case : ResponseCase) (uuid call_id : String) (s t : ResponseState) (d : ToolDelivery)
      → execute texts pydantic (record { case = case; policy = validated }) uuid call call_id s
        ≡ (ok d, t)
      → IsAnswered d.content
  unfolding execute
  execute-IsAnswered case uuid call_id s t d h =
      let (r, tools) = execute_tool pydantic (mode_of case) uuid call call_id s.tools in
      executed-IsAnswered case call_id r (record s { tools = tools }) t d h

  injected-tools :
      (case : ResponseCase) (name : String) (value : Option Task) (raw call_id : String)
      (s : ResponseState)
      → (injected texts case name value raw call_id s).1.tools ≡ s.tools
  unfolding inject
  injected-tools case name none raw call_id s = refl
  injected-tools case name (some t) raw call_id s = elim (Bool-cases (name == target case)) [
    | inr other ↦ rw other refl
    | inl this ↦ elim (Bool-cases (leaves_response case)) [
      | inl kept ↦ rw (this, kept) refl
      | inr made ↦ rw (this, made) refl
    ]
  ]

  response-tools :
      (case : ResponseCase) (result : ToolResult) (call_id : String) (s : ResponseState)
      → (response texts case call result call_id s).1.tools ≡ s.tools
  unfolding response
  response-tools case result call_id s = elim (Bool-cases result.succeeded) [
    | inl done ↦
        simp done
          (injected-tools case call.name result.value (texts.dump (payload result.value)) call_id s)
    | inr failed ↦ simp failed refl
  ]

  checked-tools :
      (raw call_id : String) (r : Result ResponseEnvelope) (s : ResponseState)
      → (checked texts pydantic raw call_id r s).1.tools ≡ s.tools
  checked-tools raw call_id (ok envelope) s = refl
  checked-tools raw call_id (raised (contract_error stage)) s = refl
  checked-tools raw call_id (raised (value_error m)) s = refl
  checked-tools raw call_id (raised operation_conflict) s = refl
  checked-tools raw call_id (raised validation_error) s = refl
  checked-tools raw call_id (raised (sqlite_error m)) s = refl
  checked-tools raw call_id (raised file_exists) s = refl
  checked-tools raw call_id (raised delivery_unavailable) s = refl
  checked-tools raw call_id (raised (provider_error m)) s = refl
  checked-tools raw call_id (raised assertion_error) s = refl
  checked-tools raw call_id (raised recursion_error) s = refl

  deliver-tools :
      (policy : ResponsePolicy) (raw call_id : String) (s : ResponseState)
      → (deliver texts pydantic policy call raw call_id s).1.tools ≡ s.tools
  unfolding deliver
  deliver-tools pass_through raw call_id s = refl
  deliver-tools validated raw call_id s =
      checked-tools raw call_id (validate_response pydantic texts.decode raw call) s

  delivered-tools :
      (x : Bool) (p : Result String × ResponseState)
      → (resume
          (λ content (v : ResponseState).
            let d : ToolDelivery = record { content = content; executed = x } in (ok d, v))
          p.0
          p.1).1.tools
        ≡ p.1.tools
  delivered-tools x (ok content, u) = refl
  delivered-tools x (raised e, u) = refl

  executed-tools :
      (config : ReliabilityConfig) (call_id : String) (r : Result ToolResult) (s : ResponseState)
      → (executed texts pydantic config call call_id r s).1.tools ≡ s.tools
  executed-tools config call_id (raised e) s = refl
  executed-tools config call_id (ok result) s =
      let (raw, s1) = response texts config.case call result call_id s in
      let s2 = record_event (response_captured raw call_id) s1 in
      delivered-tools result.executed (deliver texts pydantic config.policy call raw call_id s2)
      ∙ deliver-tools config.policy raw call_id s2
      ∙ response-tools config.case result call_id s

  -- The store and the injector's record are after an execution what `execute_tool` makes of them: the
  -- policy and the faults that are put in responses change nothing of them.
  pub execute-tools :
      (config : ReliabilityConfig) (uuid call_id : String) (s : ResponseState)
      → (execute texts pydantic config uuid call call_id s).1.tools
        ≡ (execute_tool pydantic (mode_of config.case) uuid call call_id s.tools).1
  unfolding execute
  execute-tools config uuid call_id s =
      let (r, tools) = execute_tool pydantic (mode_of config.case) uuid call call_id s.tools in
      executed-tools config call_id r (record s { tools = tools })
