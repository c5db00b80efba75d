-- ===== src/Inspection/WriteStep.antt =====
-- `write` adds what its decision says to the counts of the inspection.
use agent_fault_lab.Prelude.{
  ℕ, ◌+◌, String, ◌≡◌, sym, ap, ◌∙◌, inl, inr, Bool, true, false, not, none, some, ◌&&◌, arith,
  if◌then◌else◌, to_nat, Bool-cases, Option-cases,
}
use agent_fault_lab.Exceptions.{>>=-eq-ok, Result, ok, ◌>>=◌}
use agent_fault_lab.Float.{Float}
use agent_fault_lab.Permissions.Records.{
  Proposal, Authority, Database, Reason, WriteDecision, allowed, is_allowed, select_proposal,
  select_authority,
}
use agent_fault_lab.Permissions.Writes.{
  committed, clashes, grant_reason, write_body, commit_write, scoped,
}
use agent_fault_lab.Inspection.Lookups.{proposal_at, receipt_at}
use agent_fault_lab.Inspection.Invariant.{Agrees}
use agent_fault_lab.Inspection.Commit.{Agrees-commit, IsGranted, grant_reason-IsGranted}
use agent_fault_lab.Inspection.Steps.{scoped-allowed, select_proposal-eq_ok}

-- a write that was authorized, and one that was made without
abbrev pub authorized_write : WriteDecision → ℕ
authorized_write w = elim w.authorized [ some true ↦ 1 | _ ↦ 0 ]

abbrev pub unauthorized_write : WriteDecision → ℕ
unauthorized_write w = elim w.task [
  | none ↦ 0
  | some _ ↦ elim w.authorized [ some false ↦ 1 | _ ↦ 0 ]
]

module _ {F : Type 0} (float : Float F) (run uuid op title : String) (enforce : Bool)
    (now : F) where
  -- A write that returns replays a receipt, is denied, or commits under the reason of its grant.
  pub data Written (d d' : Database F) (w : WriteDecision) : Type 0 where
    unchanged : d' ≡ d → authorized_write w ≡ 0 → unauthorized_write w ≡ 0 → Written d d' w
    made :
        (p : Proposal F) (a : Authority) (reason : Reason)
        → proposal_at op d.proposals ≡ some p
        → receipt_at op d.task_operations ≡ none
        → (is_allowed reason ≡ true → IsGranted float run title now p a)
        → (enforce ≡ true → is_allowed reason ≡ true)
        → clashes float uuid op (is_allowed reason) d ≡ false
        → d' ≡ committed float run uuid op title now a (is_allowed reason) d
        → authorized_write w ≡ to_nat (is_allowed reason)
        → unauthorized_write w ≡ to_nat (not (is_allowed reason))
        → Written d d' w

  is_allowed-eq : (r : Reason) → is_allowed r ≡ true → r ≡ allowed
  is_allowed-eq r h = ground arith

  Written-found :
      (d d' : Database F) (w : WriteDecision) (p : Proposal F) (a : Authority) (reason : Reason)
      → select_proposal d op ≡ ok p
      → receipt_at op d.task_operations ≡ none
      → scoped d.request_policy d.authority d.tasks title (grant_reason float run title now p a)
        ≡ ok reason
      → (if enforce && not (is_allowed reason)
          then ok (
            record { task = none; authorized = some false; replayed = false; reason = some reason },
            d,
          )
          else commit_write float run uuid op title now a reason d)
        ≡ ok (w, d')
      → Written d d' w
  unfolding commit_write
  Written-found d d' w p a reason here fresh asked h =
      elim (Bool-cases (enforce && not (is_allowed reason))) [
        | inl denied ↦ unchanged (ground arith) (ground arith) (ground arith)
        | inr admitted ↦
            made p a reason (select_proposal-eq_ok float run d op p here) fresh
              (λ allow. grant_reason-IsGranted float run title now p a (
                scoped-allowed float run d.request_policy d.authority d.tasks title
                  (grant_reason float run title now p a) (rw (← is_allowed-eq reason allow) asked)))
              (λ e. ground arith) (ground arith) (ground arith) (ground arith) (ground arith)
      ]

  -- `write` where the operation has no receipt
  abbrev unreceipted : Database F → Result (WriteDecision × Database F)
  unreceipted d = select_proposal d op >>= λ p. select_authority d run >>= λ a.
      scoped d.request_policy d.authority d.tasks title (grant_reason float run title now p a)
      >>= λ reason.
          if enforce && not (is_allowed reason)
          then ok (
            record { task = none; authorized = some false; replayed = false; reason = some reason },
            d,
          )
          else commit_write float run uuid op title now a reason d

  write_body-unreceipted :
      (d : Database F)
      → receipt_at op d.task_operations ≡ none
      → write_body float run uuid op title enforce now d ≡ unreceipted d
  unfolding write_body
  write_body-unreceipted d fresh = rw (fresh, write_body)

  pub write_body-Written :
      (d d' : Database F) (w : WriteDecision)
      → write_body float run uuid op title enforce now d ≡ ok (w, d')
      → Written d d' w
  write_body-Written d d' w h = elim (Option-cases (receipt_at op d.task_operations)) [
    | inr (o, there) ↦
        unchanged (unfold write_body in ground arith) (unfold write_body in ground arith)
          (unfold write_body in ground arith)
    | inl fresh ↦
        let (p, here, h1) =
          >>=-eq-ok (select_proposal d op) _ (sym (write_body-unreceipted d fresh) ∙ h) in
        let (a, owner, h2) = >>=-eq-ok (select_authority d run) _ h1 in
        let (reason, asked, h3) =
          >>=-eq-ok
            (scoped d.request_policy d.authority d.tasks title
              (grant_reason float run title now p a))
            _ h2 in
        Written-found d d' w p a reason here fresh asked h3
  ]

  pub write_body-Agrees :
      (d d' : Database F) (w : WriteDecision) {good bad : ℕ}
      → write_body float run uuid op title enforce now d ≡ ok (w, d')
      → Agrees float run d good bad
      → Agrees float run d' (good + authorized_write w) (bad + unauthorized_write w)
  write_body-Agrees d d' w {good} {bad} h k = go (write_body-Written d d' w h)
    where
      go :
          Written d d' w
          → Agrees float run d' (good + authorized_write w) (bad + unauthorized_write w)
      go (unchanged same a u) =
          let g : good + 0 ≡ good = omega arith in
          let b : bad + 0 ≡ bad = omega arith in rw (same, a, u, g, b) k
      go (made p a reason here fresh granted forced apart e good_of bad_of) =
          rw (e, good_of, bad_of)
            (Agrees-commit float run uuid op title now a (is_allowed reason) d p k here fresh apart
              granted)

  -- Under enforcement nothing is written without authority.
  pub unauthorized_write-enforced :
      (d d' : Database F) (w : WriteDecision)
      → enforce ≡ true
      → write_body float run uuid op title enforce now d ≡ ok (w, d')
      → unauthorized_write w ≡ 0
  unauthorized_write-enforced d d' w forcing h = go (write_body-Written d d' w h)
    where
      go : Written d d' w → unauthorized_write w ≡ 0
      go (unchanged same a u) = u
      go (made p a reason here fresh granted forced apart e good_of bad_of) =
          bad_of ∙ ap (λ b. to_nat (not b)) (forced forcing)
