-- ===== src/Inspection/Steps.antt =====
-- Every transaction of the permission store keeps the agreement of its database with the inspection.
use agent_fault_lab.Prelude.{
  ℕ, String, ◌≡◌, refl, sym, ◌∙◌, ◌⊎◌, inl, inr, Bool, true, false, Option, none, some, List, [],
  ◌∷◌, arith, to_nat, subst, Option-cases, map,
}
use agent_fault_lab.Exceptions.{ok}
use agent_fault_lab.Sql.{update}
use agent_fault_lab.Tasks.{Task}
use agent_fault_lab.Float.{Float}
use agent_fault_lab.Permissions.Records.{
  Proposal, Authority, Database, Reason, WriteDecision, allowed, is_pending, select_proposal,
}
use agent_fault_lab.Permissions.Grants.{propose_body, decide_body, decided}
use agent_fault_lab.Permissions.Writes.{scoped}
use agent_fault_lab.Permissions.Requests.{configure_body, stale_body}
use agent_fault_lab.Inspection.{grade}
use agent_fault_lab.Inspection.Lookups.{proposal_at}
use agent_fault_lab.Inspection.Invariant.{IsOwned, Agrees, Agrees-propose, Agrees-update}

-- a write that was authorized, and one that was made without
abbrev pub authorized_write : WriteDecision → ℕ
authorized_write w = elim w.authorized [ some true ↦ 1 | _ ↦ 0 ]

abbrev pub unauthorized_write : WriteDecision → ℕ
unauthorized_write w = elim w.task [
  | none ↦ 0
  | some _ ↦ elim w.authorized [ some false ↦ 1 | _ ↦ 0 ]
]

IsOwned-map :
    (run : String) (f : Authority → Authority) (rows : List Authority)
    → ((a : Authority) → (f a).run_id ≡ a.run_id)
    → IsOwned run rows
    → IsOwned run (map f rows)
IsOwned-map run f [] same h = h
IsOwned-map run f (a ∷ []) same h = same a ∙ h
IsOwned-map run f (a ∷ b ∷ rows) same h = h

module _ {F : Type 0} (float : Float F) (run : String) where
  pub Agrees-authority :
      (d : Database F) (f : Authority → Authority) (policy : Option (List ℕ)) {good bad : ℕ}
      → ((a : Authority) → (f a).run_id ≡ a.run_id)
      → Agrees float run d good bad
      → Agrees float run
          (record d { authority = map f d.authority; request_policy = policy })
          good
          bad
  Agrees-authority d f policy same h = record {
    owned = IsOwned-map run f d.authority same h.owned;
    receipted = h.receipted;
    unconsumed = h.unconsumed;
    known = h.known;
    goods = unfold grade in h.goods;
    bads = unfold grade in h.bads;
  }

  pub select_proposal-eq_ok :
      (d : Database F) (op : String) (p : Proposal F)
      → select_proposal d op ≡ ok p
      → proposal_at op d.proposals ≡ some p
  unfolding select_proposal
  select_proposal-eq_ok d op p h = ground arith

  -- A proposal is there already, or it is added as pending.
  propose_body-cases :
      (op title : String) (d d' : Database F) (p : Proposal F)
      → propose_body run op title d ≡ ok (p, d')
      → (d' ≡ d)
        ⊎ ((proposal_at p.operation_id d.proposals ≡ none)
            × (is_pending p.decision ≡ true)
            × (p.consumed_task_id ≡ none)
            × (d' ≡ record d { proposals = p ∷ d.proposals }))
  unfolding propose_body
  propose_body-cases op title d d' p h = ground arith

  pub propose_body-Agrees :
      (op title : String) (d d' : Database F) (p : Proposal F) {good bad : ℕ}
      → propose_body run op title d ≡ ok (p, d')
      → Agrees float run d good bad
      → Agrees float run d' good bad
  propose_body-Agrees op title d d' p {good} {bad} h a =
      elim (propose_body-cases op title d d' p h) [
        | inl same ↦ subst (λ x. Agrees float run x good bad) (sym same) a
        | inr (absent, fresh, free, e) ↦
            subst (λ x. Agrees float run x good bad) (sym e)
              (Agrees-propose float run d p fresh free absent a)
      ]

  decide_body-found :
      (op : String) (approve : Bool) (ttl now : F) (d d' : Database F) (p : Proposal F)
      → decide_body float run op approve ttl now d ≡ ok (p, d')
      → (q : Proposal F) × (proposal_at op d.proposals ≡ some q)
        × (is_pending q.decision ≡ true)
        × (d' ≡ record d {
          proposals =
              update
                (λ (q : Proposal F). q.operation_id)
                op
                (decided float approve now ttl)
                d.proposals;
        })
  unfolding decide_body
  decide_body-found op approve ttl now d d' p h = elim (Option-cases (proposal_at op d.proposals)) [
    | inl absent ↦ ground arith
    | inr (q, there) ↦ (q, there, ground arith, ground arith)
  ]

  pub decide_body-Agrees :
      (op : String) (approve : Bool) (ttl now : F) (d d' : Database F) (p : Proposal F)
      {good bad : ℕ}
      → decide_body float run op approve ttl now d ≡ ok (p, d')
      → Agrees float run d good bad
      → Agrees float run d' good bad
  decide_body-Agrees op approve ttl now d d' p {good} {bad} h a =
      let (q, there, undecided, e) = decide_body-found op approve ttl now d d' p h in
      subst (λ x. Agrees float run x good bad) (sym e)
        (Agrees-update float run d op (decided float approve now ttl) q
          (λ r. unfold decided in refl) (λ r. unfold decided in refl) there undecided a)

  pub stale_body-Agrees :
      (op : String) (d d' : Database F) (p : Proposal F) {u : Unit {0}} {good bad : ℕ}
      → stale_body op d ≡ ok (u, d')
      → proposal_at op d.proposals ≡ some p
      → is_pending p.decision ≡ true
      → Agrees float run d good bad
      → Agrees float run d' good bad
  unfolding stale_body
  stale_body-Agrees op d d' p {good = good} {bad = bad} h there undecided a =
      let e : d' ≡ record d {
        proposals =
            update (λ (q : Proposal F). q.operation_id) op
              (λ (q : Proposal F). record q { request_revision = 1; policy_revision = 1 })
              d.proposals;
      } =
        ground arith in
      subst (λ x. Agrees float run x good bad) (sym e)
        (Agrees-update float run d op
          (λ (q : Proposal F). record q { request_revision = 1; policy_revision = 1 }) p (λ r. refl)
          (λ r. refl) there undecided a)

  pub configure_body-Agrees :
      (title : String) (allow : Bool) (revision : ℕ) (d d' : Database F) {u : Unit {0}}
      {good bad : ℕ}
      → configure_body title allow revision d ≡ ok (u, d')
      → Agrees float run d good bad
      → Agrees float run d' good bad
  unfolding configure_body
  configure_body-Agrees title allow revision d d' {good = good} {bad = bad} h a =
      let f : Authority → Authority = λ a. record a {
        expected_title = title;
        request_revision = revision;
        policy_revision = revision;
      } in
      let e : d'
          ≡ record d { authority = map f d.authority; request_policy = some (to_nat allow ∷ []) } =
        ground arith in
      subst (λ x. Agrees float run x good bad) (sym e)
        (Agrees-authority d f (some (to_nat allow ∷ [])) (λ r. refl) a)

  pub scoped-allowed :
      (policy : Option (List ℕ)) (authority : List Authority) (tasks : List Task) (title : String)
      (r : Reason)
      → scoped policy authority tasks title r ≡ ok allowed
      → r ≡ allowed
  unfolding scoped
  scoped-allowed none authority tasks title allowed h = refl
  scoped-allowed (some policy) authority tasks title allowed h = refl
  scoped-allowed none authority tasks title r h = ground arith
  scoped-allowed (some policy) authority tasks title r h = ground arith
