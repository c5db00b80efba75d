-- ===== src/Workflow/Checked.antt =====
-- What a completed claim of the workflow rests on.
use agent_fault_lab.Prelude.{
  String, ◌≡◌, refl, ap, sym, ◌∙◌, subst, true, false, ◌&&◌, Option, none, some, eq_iff, arith,
  is_blank, Bool-cases, inl, inr,
}
use agent_fault_lab.Exceptions.{Result, ok, and_then-eq_ok}
use agent_fault_lab.Json.{Decoded, Json, null, bool, int, negint, float, str, arr, obj, get}
use agent_fault_lab.Pydantic.{Pydantic}
use agent_fault_lab.Claims.{completed, unknown, TerminalClaim}
use agent_fault_lab.Contracts.{is_null}
use agent_fault_lab.Workflow.{
  Bench, WorkflowState, ToolReply, is_object, is_str, usable_id, created_id, read_claim,
  creation_of, lookup_of, call_tool, checked, claim, unknown_claim,
}

-- The answer is a success that shows the identifier and the title.
abbrev pub Shows : ToolReply → String → String → Type 0
Shows r id title =
    (r.succeeded ≡ true)
    × (get "id" r.value ≡ some (str id))
    × (get "title" r.value ≡ some (str title))

is_str-eq : (v : Option Json) (s : String) → is_str v s ≡ true → v ≡ some (str s)
is_str-eq none s h = absurd (cc h)
is_str-eq (some null) s h = absurd (cc h)
is_str-eq (some (bool b)) s h = absurd (cc h)
is_str-eq (some (int n)) s h = absurd (cc h)
is_str-eq (some (negint n)) s h = absurd (cc h)
is_str-eq (some (float t)) s h = absurd (cc h)
is_str-eq (some (str t)) s h = ap (λ u. some (str u)) ((eq_iff t s).0 h)
is_str-eq (some (arr xs)) s h = absurd (cc h)
is_str-eq (some (obj fs)) s h = absurd (cc h)

usable_id-eq :
    (v : Option Json) (id : String)
    → usable_id v ≡ some id
    → (v ≡ some (str id)) × (is_blank id ≡ false)
usable_id-eq none id h = absurd (cc h)
usable_id-eq (some null) id h = absurd (cc h)
usable_id-eq (some (bool b)) id h = absurd (cc h)
usable_id-eq (some (int n)) id h = absurd (cc h)
usable_id-eq (some (negint n)) id h = absurd (cc h)
usable_id-eq (some (float t)) id h = absurd (cc h)
usable_id-eq (some (arr xs)) id h = absurd (cc h)
usable_id-eq (some (obj fs)) id h = absurd (cc h)
usable_id-eq (some (str t)) id h = elim (Bool-cases (is_blank t)) [
  | inl e ↦ absurd (cc (rw e at h))
  | inr e ↦
      let same : t ≡ id = cc (rw e at h) in
      (ap (λ u. some (str u)) same, subst (λ u. is_blank u ≡ false) same e)
]

created_id-Shows :
    (title : String) (r : ToolReply) (id : String)
    → created_id title r ≡ some id
    → Shows r id title × (is_blank id ≡ false)
unfolding created_id
created_id-Shows title r id h =
    elim (Bool-cases (r.succeeded && is_object r.value && is_str (get "title" r.value) title)) [
      | inl e ↦
          let (named, usable) = usable_id-eq (get "id" r.value) id (rw e at h) in
          ((ground arith, named, is_str-eq (get "title" r.value) title (ground arith)), usable)
      | inr e ↦ absurd (cc (rw e at h))
    ]

read_claim-Shows :
    (title id : String) (r : ToolReply)
    → (read_claim title id r).status ≡ completed
    → Shows r id title × ((read_claim title id r).task_id ≡ some id)
unfolding read_claim
read_claim-Shows title id r h = elim (Bool-cases (r.succeeded && is_object r.value)) [
  | inl e ↦ elim (Bool-cases (is_str (get "id" r.value) id && is_str (get "title" r.value) title)) [
    | inl k ↦
        rw (e, k)
          (
            (
              ground arith,
              is_str-eq (get "id" r.value) id (ground arith),
              is_str-eq (get "title" r.value) title (ground arith),
            ),
            refl,
          )
    | inr k ↦ absurd (cc (rw (e, k) at h))
  ]
  | inr e ↦ elim (Bool-cases (r.succeeded && is_null r.value)) [
    | inl k ↦ absurd (cc (rw (e, k) at h))
    | inr k ↦ absurd (cc (rw (e, k) at h))
  ]
]

module _ {W : Type 0} (bench : Bench W) (pydantic : Pydantic) (decode : String → Decoded)
    (read_result : Json → Result ToolReply) (dump : TerminalClaim → String) (title : String) where
  -- what the claim rests on: two calls that answered, one after the other, and agree
  abbrev pub IsChecked : WorkflowState W → WorkflowState W → TerminalClaim → Type 0
  IsChecked s s' c =
      (id : String) × (created : ToolReply) × (reading : ToolReply) × (s1 : WorkflowState W)
      × (call_tool bench pydantic decode read_result dump (creation_of title) s ≡ (ok created, s1))
      × (call_tool bench pydantic decode read_result dump (lookup_of id) s1 ≡ (ok reading, s'))
      × Shows created id title
      × Shows reading id title
      × (c.task_id ≡ some id)
      × (is_blank id ≡ false)

  checked-IsChecked :
      (s s1 s' : WorkflowState W) (created : ToolReply) (found : Option String) (c : TerminalClaim)
      → call_tool bench pydantic decode read_result dump (creation_of title) s ≡ (ok created, s1)
      → created_id title created ≡ found
      → checked bench pydantic decode read_result dump title found s1 ≡ (ok c, s')
      → c.status ≡ completed
      → IsChecked s s' c
  checked-IsChecked s s1 s' created none c made named h done =
      let same : ok unknown_claim ≡ ok c = ap (λ p. p.0) h in
      let status : unknown ≡ c.status = cc same in absurd (cc (status, done))
  checked-IsChecked s s1 s' created (some id) c made named h done =
      let (reading, s2, asked, last) =
        and_then-eq_ok (call_tool bench pydantic decode read_result dump (lookup_of id))
          (λ reading s'. (ok (read_claim title id reading), s')) s1 s' h in
      let claimed : ok (read_claim title id reading) ≡ ok c = ap (λ p. p.0) last in
      let same : read_claim title id reading ≡ c = cc claimed in
      let ended : s2 ≡ s' = ap (λ p. p.1) last in
      let (shown, usable) = created_id-Shows title created id named in
      let (shows, task) =
        read_claim-Shows title id reading (ap (λ (c : TerminalClaim). c.status) same ∙ done) in
      (
        id,
        created,
        reading,
        s1,
        made,
        subst
            (λ z.
              call_tool bench pydantic decode read_result dump (lookup_of id) s1 ≡ (ok reading, z))
            ended asked,
        shown,
        shows,
        sym (ap (λ (c : TerminalClaim). c.task_id) same) ∙ task,
        usable,
      )

  -- If the workflow claims completion, its creation and then its reading returned, both answers are
  -- successes that show the requested title and one identifier, which is not blank, and the claim
  -- names it.
  pub claim-IsChecked :
      (s s' : WorkflowState W) (c : TerminalClaim)
      → claim bench pydantic decode read_result dump title s ≡ (ok c, s')
      → c.status ≡ completed
      → IsChecked s s' c
  unfolding claim
  claim-IsChecked s s' c h done =
      let (created, s1, made, rest) =
        and_then-eq_ok (call_tool bench pydantic decode read_result dump (creation_of title))
          (λ created.
            checked bench pydantic decode read_result dump title (created_id title created))
          s s' h in
      checked-IsChecked s s1 s' created (created_id title created) c made refl rest done
