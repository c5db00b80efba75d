-- ===== src/Contracts/Accepted.antt =====
-- What an accepted response promises, and what a refused one raises.
use agent_fault_lab.Prelude.{
  String, ◌≡◌, refl, sym, ap, ◌∙◌, subst, ◌⊎◌, inl, inr, Bool, true, false, not, Option, none, some,
  List, [], ◌∷◌, ◌==◌, eq_iff, is_blank, if◌then◌else◌, Bool-cases,
}
use agent_fault_lab.Exceptions.{
  Exception, ContractStage, syntax, schema, request, Result, ok, raised, raise_if, >>=-eq-ok,
}
use agent_fault_lab.Json.{Decoded, decoded, Json}
use agent_fault_lab.Model.{ToolCall}
use agent_fault_lab.Pydantic.{Pydantic, strict_str, strict_bool}
use agent_fault_lab.Tasks.{Task}
use agent_fault_lab.Tools.{create_arguments, get_arguments, strict_nonblank}
use agent_fault_lab.Contracts.{
  ToolError, ResponseEnvelope, task_fields, error_fields, coded, exact_version, strict_flag,
  optional, is_null, consistent, validate_task, validate_error, envelope_fields, validate_envelope,
  titled, identified, match_request, at_stage, decoded, validate_response,
}

-- a task with an identifier and a title that are not blank
abbrev pub IsUsable : Option Task → Type 0
IsUsable none = Unit
IsUsable (some t) = (is_blank t.id ≡ false) × (is_blank t.title ≡ false)

-- A success has no error; a failure has an error with a message, and no value.
abbrev pub IsShaped : Bool → Option Task → Option ToolError → Type 0
IsShaped true value none = IsUsable value
IsShaped false none (some e) = is_blank e.message ≡ false
IsShaped _ _ _ = ⊥

nonblank-eq_ok : (s : Option String) (t : String) → strict_nonblank s ≡ ok t → is_blank t ≡ false
nonblank-eq_ok none t h = absurd (cc h)
nonblank-eq_ok (some s) t h = elim (Bool-cases (is_blank s)) [
  | inl e ↦ absurd (cc (rw e at h))
  | inr e ↦ let same : s ≡ t = cc (rw e at h) in subst (λ u. is_blank u ≡ false) same e
]

task_fields-IsUsable :
    (values : Option (List Json)) (t : Task) → task_fields values ≡ ok t → IsUsable (some t)
task_fields-IsUsable (some (i ∷ j ∷ [])) t h =
    let (id, e, h1) = >>=-eq-ok (strict_nonblank (strict_str i)) _ h in
    let (title, e1, h2) = >>=-eq-ok (strict_nonblank (strict_str j)) _ h1 in
    let same : record { id = id; title = title } ≡ t = cc h2 in
    subst (λ (u : Task). IsUsable (some u)) same
      (nonblank-eq_ok (strict_str i) id e, nonblank-eq_ok (strict_str j) title e1)
task_fields-IsUsable none t h = absurd (cc h)
task_fields-IsUsable (some []) t h = absurd (cc h)
task_fields-IsUsable (some (i ∷ [])) t h = absurd (cc h)
task_fields-IsUsable (some (i ∷ j ∷ k ∷ rest)) t h = absurd (cc h)

-- an error with a message
abbrev HasMessage : Option ToolError → Type 0
HasMessage none = Unit
HasMessage (some e) = is_blank e.message ≡ false

error_fields-HasMessage :
    (values : Option (List Json)) (t : ToolError) → error_fields values ≡ ok t → HasMessage (some t)
error_fields-HasMessage (some (c ∷ m ∷ [])) t h =
    let (code, e, h1) = >>=-eq-ok (coded (strict_str c)) _ h in
    let (message, e1, h2) = >>=-eq-ok (strict_nonblank (strict_str m)) _ h1 in
    let same : record { code = code; message = message } ≡ t = cc h2 in
    subst (λ (u : ToolError). HasMessage (some u)) same (nonblank-eq_ok (strict_str m) message e1)
error_fields-HasMessage none t h = absurd (cc h)
error_fields-HasMessage (some []) t h = absurd (cc h)
error_fields-HasMessage (some (i ∷ [])) t h = absurd (cc h)
error_fields-HasMessage (some (i ∷ j ∷ k ∷ rest)) t h = absurd (cc h)

optional-eq_ok :
    {A : Type 0} (P : Option A → Type 0) (validate : Json → Result A) (value : Json) (o : Option A)
    → P none
    → ((a : A) → validate value ≡ ok a → P (some a))
    → optional validate value ≡ ok o
    → P o
optional-eq_ok P validate value o base step h = elim (Bool-cases (is_null value)) [
  | inl e ↦ let same : none ≡ o = cc (rw e at h) in subst P same base
  | inr e ↦
      let (a, made, h1) = >>=-eq-ok (validate value) _ (rw e at h) in
      let same : some a ≡ o = cc h1 in subst P same (step a made)
]

consistent-IsShaped :
    (succeeded : Bool) (value : Option Task) (error : Option ToolError) (r : ResponseEnvelope)
    → consistent (record { succeeded = succeeded; value = value; error = error }) ≡ ok r
    → IsUsable value
    → HasMessage error
    → IsShaped r.succeeded r.value r.error
unfolding consistent
consistent-IsShaped true value none r h u m =
    let same : record { succeeded = true; value = value; error = none } ≡ r = cc h in
    subst (λ (q : ResponseEnvelope). IsShaped q.succeeded q.value q.error) same u
consistent-IsShaped true value (some e) r h u m = absurd (cc h)
consistent-IsShaped false none none r h u m = absurd (cc h)
consistent-IsShaped false (some v) none r h u m = absurd (cc h)
consistent-IsShaped false (some v) (some e) r h u m = absurd (cc h)
consistent-IsShaped false none (some e) r h u m =
    let same : record { succeeded = false; value = none; error = some e } ≡ r = cc h in
    subst (λ (q : ResponseEnvelope). IsShaped q.succeeded q.value q.error) same m

-- The answer to a call: the created task has the requested title, and a task that is found has the
-- requested identifier.
abbrev pub Answers : Pydantic → ToolCall → Option Task → Type 0
Answers pydantic call value =
    ((call.name ≡ "create_task")
      × (title : String) × (t : Task) × (create_arguments pydantic call.arguments ≡ ok title)
      × (value ≡ some t)
      × (t.title ≡ title))
    ⊎ ((call.name ≡ "get_task")
        × (id : String) × (get_arguments pydantic call.arguments ≡ ok id)
        × ((t : Task) → value ≡ some t → t.id ≡ id))

-- a success answers the call
abbrev pub AnswersIf : Bool → Pydantic → ToolCall → Option Task → Type 0
AnswersIf true pydantic call value = Answers pydantic call value
AnswersIf false pydantic call value = Unit

module _ (pydantic : Pydantic) where
  envelope_fields-IsShaped :
      (values : Option (List Json)) (r : ResponseEnvelope)
      → envelope_fields pydantic values ≡ ok r
      → IsShaped r.succeeded r.value r.error
  unfolding envelope_fields validate_task validate_error
  envelope_fields-IsShaped (some (version ∷ flag ∷ v ∷ e ∷ [])) r h =
      let (_, _, h1) = >>=-eq-ok (exact_version version) _ h in
      let (succeeded, _, h2) = >>=-eq-ok (strict_flag (strict_bool flag)) _ h1 in
      let (value, made, h3) = >>=-eq-ok (optional (validate_task pydantic) v) _ h2 in
      let (error, failed, h4) = >>=-eq-ok (optional (validate_error pydantic) e) _ h3 in
      consistent-IsShaped succeeded value error r h4
        (optional-eq_ok IsUsable (validate_task pydantic) v value tt
          (λ t k. task_fields-IsUsable (pydantic.required ("id" ∷ "title" ∷ []) v) t k) made)
        (optional-eq_ok HasMessage (validate_error pydantic) e error tt
          (λ t k. error_fields-HasMessage (pydantic.required ("code" ∷ "message" ∷ []) e) t k)
          failed)
  envelope_fields-IsShaped none r h = absurd (cc h)
  envelope_fields-IsShaped (some []) r h = absurd (cc h)
  envelope_fields-IsShaped (some (a ∷ [])) r h = absurd (cc h)
  envelope_fields-IsShaped (some (a ∷ b ∷ [])) r h = absurd (cc h)
  envelope_fields-IsShaped (some (a ∷ b ∷ c ∷ [])) r h = absurd (cc h)
  envelope_fields-IsShaped (some (a ∷ b ∷ c ∷ d ∷ e ∷ rest)) r h = absurd (cc h)

  titled-eq_ok :
      (value : Option Task) (title : String)
      → titled pydantic value title ≡ true
      → (t : Task) × (value ≡ some t) × (t.title ≡ title)
  titled-eq_ok none title h = absurd (cc h)
  titled-eq_ok (some t) title h = (t, refl, (eq_iff t.title title).0 h)

  identified-eq_ok :
      (value : Option Task) (id : String) (t : Task)
      → identified pydantic value id ≡ true
      → value ≡ some t
      → t.id ≡ id
  identified-eq_ok none id t h e = absurd (cc e)
  identified-eq_ok (some u) id t h e =
      let same : u ≡ t = cc e in ap (λ (v : Task). v.id) (sym same) ∙ (eq_iff u.id id).0 h

  passed : (b : Bool) (e : Exception) → raise_if (not b) e ≡ ok tt → b ≡ true
  passed true e h = refl
  passed false e h = absurd (cc h)

  match_request-Answers :
      (call : ToolCall) (value : Option Task)
      → match_request pydantic call value ≡ ok tt
      → Answers pydantic call value
  unfolding match_request
  match_request-Answers call value h = elim (Bool-cases (call.name == "create_task")) [
    | inl e ↦
        let (title, made, h1) =
          >>=-eq-ok (create_arguments pydantic call.arguments) _ (rw e at h) in
        let (t, k, same) = titled-eq_ok value title (passed (titled pydantic value title) _ h1) in
        inl ((eq_iff call.name "create_task").0 e, title, t, made, k, same)
    | inr e ↦ elim (Bool-cases (call.name == "get_task")) [
      | inl k ↦
          let (id, made, h1) =
            >>=-eq-ok (get_arguments pydantic call.arguments) _ (rw (e, k) at h) in
          inr (
            (eq_iff call.name "get_task").0 k,
            id,
            made,
            λ t there.
                identified-eq_ok value id t (passed (identified pydantic value id) _ h1) there,
          )
      | inr k ↦ absurd (cc (rw (e, k) at h))
    ]
  ]

  at_stage-eq_ok :
      {A : Type 0} (stage : ContractStage) (r : Result A) (a : A)
      → at_stage pydantic stage r ≡ ok a
      → r ≡ ok a
  at_stage-eq_ok stage (ok b) a h = h
  at_stage-eq_ok stage (raised e) a h = absurd (cc h)

  matched-AnswersIf :
      (call : ToolCall) (succeeded : Bool) (value : Option Task)
      → (if succeeded then at_stage pydantic request (match_request pydantic call value) else ok tt)
        ≡ ok tt
      → AnswersIf succeeded pydantic call value
  matched-AnswersIf call false value h = tt
  matched-AnswersIf call true value h =
      match_request-Answers call value
        (at_stage-eq_ok request (match_request pydantic call value) tt h)

  -- An accepted response is a success without an error, whose task has an identifier and a title
  -- that are not blank, or a failure without a value, whose error has a message. A success answers
  -- the call: a created task has the requested title, and a task that is found has the requested
  -- identifier.
  pub validate_response-Answers :
      (decode : String → Decoded) (raw : String) (call : ToolCall) (r : ResponseEnvelope)
      → validate_response pydantic decode raw call ≡ ok r
      → IsShaped r.succeeded r.value r.error × AnswersIf r.succeeded pydantic call r.value
  unfolding validate_response validate_envelope
  validate_response-Answers decode raw call r h =
      let (value, _, h1) = >>=-eq-ok (at_stage pydantic syntax (decoded (decode raw))) _ h in
      let (q, shaped, h2) =
        >>=-eq-ok (at_stage pydantic schema (validate_envelope pydantic value)) _ h1 in
      let (_, matched, h3) =
        >>=-eq-ok
          (if q.succeeded
            then at_stage pydantic request (match_request pydantic call q.value)
            else ok tt)
          _ h2 in
      let same : q ≡ r = cc h3 in
      subst
        (λ (r : ResponseEnvelope).
          IsShaped r.succeeded r.value r.error × AnswersIf r.succeeded pydantic call r.value)
        same
        (
          envelope_fields-IsShaped
              (pydantic.required ("schema_version" ∷ "ok" ∷ "value" ∷ "error" ∷ []) value) q
              (at_stage-eq_ok schema (validate_envelope pydantic value) q shaped),
          matched-AnswersIf call q.succeeded q.value matched,
        )
