-- ===== src/Inspection/Commit.antt =====
-- An admitted write adds one graded task, and leaves the grades of the others.
use agent_fault_lab.Prelude.{
  ℕ, ◌+◌, String, ◌≡◌, refl, sym, ap, ◌∙◌, inl, inr, Bool, true, false, not, Option, none, some,
  List, arith, ◌==◌, eq_iff, eq_refl, to_nat, subst, Bool-cases, All, All-map, Option-cases,
}
use agent_fault_lab.Sql.{find, has, find-update, All-of_has}
use agent_fault_lab.Tasks.{Task, Operation}
use mathlib.Core.Bool.{false≢true}
use agent_fault_lab.Float.{Float}
use agent_fault_lab.Permissions.Records.{Proposal, Effect, Authority, Database, allowed, approved}
use agent_fault_lab.Permissions.Writes.{committed, clashes, grant_reason}
use agent_fault_lab.Inspection.{is_valid, joined, grade, in_interval, is_text}
use agent_fault_lab.Rows.{count_of, count_of-same}
use agent_fault_lab.Inspection.Lookups.{proposal_at, receipt_at, effect_at, joined-write}
use agent_fault_lab.Inspection.Invariant.{IsKnown, Agrees}

module _ {F : Type 0} (float : Float F) (run : String) where
  -- What an admitted grant is: the converse of the ladder.
  pub record IsGranted (title : String) (now : F) (p : Proposal F) (a : Authority) : Type 0 where
    pub run_of : p.run_id ≡ run
    pub title_of : p.title ≡ title
    pub request_of : p.request_revision ≡ a.request_revision
    pub policy_of : p.policy_revision ≡ a.policy_revision
    pub approved_of : p.decision ≡ approved
    pub interval_of : in_interval float p.granted_at now p.expires_at ≡ true
    pub unconsumed_of : p.consumed_task_id ≡ none

  pub grant_reason-IsGranted :
      (title : String) (now : F) (p : Proposal F) (a : Authority)
      → grant_reason float run title now p a ≡ allowed
      → IsGranted title now p a
  unfolding grant_reason
  grant_reason-IsGranted title now p a h =
      let r = eq_iff p.run_id run in
      let t = eq_iff p.title title in
      record {
        run_of = ground (arith, r);
        title_of = ground (arith, t);
        request_of = ground arith;
        policy_of = ground arith;
        approved_of = ground arith;
        interval_of = ground arith;
        unconsumed_of = ground arith;
      }

  -- An identifier of another task is not this one.
  is_text_known :
      (tasks : List Task) (id : Option String) (uuid : String)
      → IsKnown tasks id
      → has (λ (t : Task). t.id) uuid tasks ≡ false
      → is_text id uuid ≡ false
  is_text_known tasks none uuid known fresh = refl
  is_text_known tasks (some id) uuid known fresh = elim (Bool-cases (id == uuid)) [
    | inr other ↦ other
    | inl same ↦ absurd (
        false≢true (
          sym fresh
          ∙ subst (λ k. has (λ (t : Task). t.id) k tasks ≡ true) ((eq_iff id uuid).0 same) known))
  ]

  module _ (uuid op title : String) (now : F) (a : Authority) (p : Proposal F) where
    abbrev new_task : Task
    new_task = record { id = uuid; title = title }

    abbrev new_effect : Effect F
    new_effect = record {
      operation_id = op;
      run_id = run;
      task_id = uuid;
      title = title;
      admitted_at = now;
      request_revision = a.request_revision;
      policy_revision = a.policy_revision;
    }

    abbrev new_receipt : Operation
    new_receipt = record { operation_id = op; title = title; task_id = uuid }

    is_valid-granted :
        IsGranted title now p a
        → is_valid float run new_task
            (some new_effect)
            (some (record p { consumed_task_id = some uuid }))
            (some new_receipt)
          ≡ true
    unfolding is_valid
    is_valid-granted g = ground (
      arith,
      eq_iff p.run_id run,
      eq_refl run,
      eq_iff p.title title,
      eq_refl title,
      eq_refl uuid,
      g.run_of,
      g.title_of,
      g.request_of,
      g.policy_of,
      g.approved_of,
      g.interval_of,
    )

    is_valid-unknown :
        is_text p.consumed_task_id uuid ≡ false
        → is_valid float run new_task (some new_effect) (some p) (some new_receipt) ≡ false
    unfolding is_valid
    is_valid-unknown h = ground arith

  module _ (uuid op title : String) (now : F) (a : Authority) (b : Bool) (d : Database F) where
    abbrev after : Database F
    after = committed float run uuid op title now a b d

    grade-commit_old :
        (x : Task) {good bad : ℕ}
        → Agrees float run d good bad
        → (x.id == uuid) ≡ false
        → receipt_at op d.task_operations ≡ none
        → grade float run after x ≡ grade float run d x
    unfolding grade find
    grade-commit_old x h other fresh =
        let look : effect_at x.id after.effects ≡ effect_at x.id d.effects =
          ground (arith, eq_iff x.id uuid, eq_iff uuid x.id) in
        rw look (elim (Option-cases (effect_at x.id d.effects)) [
          | inl missing ↦ rw missing (unfold joined in refl)
          | inr (e, there) ↦ rw there (
              joined-write float run x (record { operation_id = op; title = title; task_id = uuid })
                b (λ (p : Proposal F). record p { consumed_task_id = some uuid }) (λ q. refl)
                d.proposals d.task_operations e
                (λ same.
                  h.receipted x.id e there
                    (subst (λ k. receipt_at k d.task_operations ≡ none) same fresh)))
        ])

    -- The new task is valid exactly where the grant was allowed.
    grade-commit_new :
        (p : Proposal F) {good bad : ℕ}
        → Agrees float run d good bad
        → proposal_at op d.proposals ≡ some p
        → has (λ (t : Task). t.id) uuid d.tasks ≡ false
        → (b ≡ true → IsGranted title now p a)
        → grade float run after (record { id = uuid; title = title }) ≡ b
    unfolding grade find joined is_valid
    grade-commit_new p h here fresh granted =
        rw (eq_refl uuid, eq_refl op)
          (elim (Bool-cases b) [
            | inl admitted ↦ rw admitted (
                rw
                  (find-update (λ (q : Proposal F). q.operation_id) op
                    (λ q. record q { consumed_task_id = some uuid }) (λ q. refl) op d.proposals)
                  (rw (eq_refl op, here)
                    (is_valid-granted uuid op title now a p (granted admitted))))
            | inr refused ↦
                rw (refused, here)
                  (is_valid-unknown uuid op title now a p
                    (is_text_known d.tasks p.consumed_task_id uuid (h.known op p here) fresh))
          ])

    -- A fresh write on an operation with no receipt adds one good task, or one bad one.
    pub Agrees-commit :
        (p : Proposal F) {good bad : ℕ}
        → Agrees float run d good bad
        → proposal_at op d.proposals ≡ some p
        → receipt_at op d.task_operations ≡ none
        → clashes float uuid op b d ≡ false
        → (b ≡ true → IsGranted title now p a)
        → Agrees float run after (good + to_nat b) (bad + to_nat (not b))
    unfolding clashes
    Agrees-commit p h here fresh apart granted =
        let new_id : has (λ (t : Task). t.id) uuid d.tasks ≡ false = ground arith in
        let added = grade-commit_new p h here new_id granted in
        let others : All (λ x. grade float run after x ≡ grade float run d x) d.tasks =
          All-of_has (λ (t : Task). t.id) uuid d.tasks (λ x other. grade-commit_old x h other fresh)
            new_id in
        let look =
          find-update (λ (q : Proposal F). q.operation_id) op
            (λ q. record q { consumed_task_id = some uuid }) (λ q. refl) in
        let same_good = count_of-same (grade float run after) (grade float run d) d.tasks others in
        let same_bad =
          count_of-same (λ t. not (grade float run after t)) (λ t. not (grade float run d t))
            d.tasks (All-map d.tasks (λ t e. ap not e) others) in
        let approved_if : b ≡ true → p.decision ≡ approved = λ e. (granted e).approved_of in
        record {
          owned = h.owned;
          receipted = λ k e there. unfold find in ground (arith, eq_refl op, h.receipted k e);
          unconsumed = λ k q there.
              ground (arith, look k d.proposals, h.unconsumed k q, eq_iff op k, approved_if, here);
          known = λ k q there.
              ground (arith, look k d.proposals, h.known k q, eq_iff op k, eq_refl uuid);
          goods = unfold count_of in omega (arith, ap to_nat added, same_good, h.goods);
          bads = unfold count_of in omega (arith, ap (λ x. to_nat (not x)) added, same_bad, h.bads);
        }
