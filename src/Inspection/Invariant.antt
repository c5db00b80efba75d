-- ===== src/Inspection/Invariant.antt =====
-- What holds of an authorization database between two calls, and the changes of its tables that
-- keep it.
use agent_fault_lab.Prelude.{
  ℕ, String, ◌≡◌, ◌≢◌, ◌∙◌, ◌⊎◌, true, not, Option, none, some, List, [], ◌∷◌, arith, eq_iff,
}
use agent_fault_lab.Sql.{find, has, update, find-update}
use agent_fault_lab.Tasks.{Task}
use agent_fault_lab.Float.{Float}
use agent_fault_lab.Permissions.Records.{
  Proposal, Effect, Authority, Database, approved, is_pending,
}
use agent_fault_lab.Inspection.{joined, grade}
use agent_fault_lab.Rows.{count_of}
use agent_fault_lab.Inspection.Lookups.{
  proposal_at, receipt_at, effect_at, joined-propose, joined-update,
}
use mathlib.Core.Path.{fun_ext}

abbrev pub IsOwned : String → List Authority → Type 0
IsOwned run (a ∷ []) = a.run_id ≡ run
IsOwned run _ = ⊥

abbrev pub IsKnown : List Task → Option String → Type 0
IsKnown tasks none = Unit
IsKnown tasks (some id) = has (λ (t : Task). t.id) id tasks ≡ true

module _ {F : Type 0} (float : Float F) (run : String) where
  -- One authority row, of the run; every effect has its receipt; only an approved grant is consumed,
  -- and by a task that is there; `good` and `bad` tasks by the grade of the inspection.
  pub record Agrees (d : Database F) (good bad : ℕ) : Type 0 where
    pub owned : IsOwned run d.authority
    pub receipted :
        (k : String) (e : Effect F)
        → effect_at k d.effects ≡ some e
        → receipt_at e.operation_id d.task_operations ≢ none
    pub unconsumed :
        (k : String) (p : Proposal F)
        → proposal_at k d.proposals ≡ some p
        → (p.decision ≡ approved) ⊎ (p.consumed_task_id ≡ none)
    pub known :
        (k : String) (p : Proposal F)
        → proposal_at k d.proposals ≡ some p
        → IsKnown d.tasks p.consumed_task_id
    pub goods : count_of (grade float run d) d.tasks ≡ good
    pub bads : count_of (λ t. not (grade float run d t)) d.tasks ≡ bad

  grade-proposals :
      (d : Database F) (proposals : List (Proposal F))
      → ((t : Task) (e : Option (Effect F))
          → joined float run t proposals d.task_operations e
            ≡ joined float run t d.proposals d.task_operations e)
      → grade float run (record d { proposals = proposals }) ≡ grade float run d
  unfolding grade
  grade-proposals d proposals h = fun_ext λ t. h t (effect_at t.id d.effects)

  pub Agrees-propose :
      (d : Database F) (q : Proposal F) {good bad : ℕ}
      → is_pending q.decision ≡ true
      → q.consumed_task_id ≡ none
      → proposal_at q.operation_id d.proposals ≡ none
      → Agrees d good bad
      → Agrees (record d { proposals = q ∷ d.proposals }) good bad
  Agrees-propose d q h free absent a =
      let same =
        grade-proposals d (q ∷ d.proposals)
          (λ t e. joined-propose float run t q d.proposals d.task_operations e h absent) in
      record {
        owned = a.owned;
        receipted = a.receipted;
        unconsumed = λ k p e. unfold find in ground (arith, a.unconsumed k p);
        known = λ k p e. unfold find in ground (arith, a.known k p);
        goods = rw same a.goods;
        bads = rw same a.bads;
      }

  pub Agrees-update :
      (d : Database F) (op : String) (f : Proposal F → Proposal F) (p : Proposal F) {good bad : ℕ}
      (same : (q : Proposal F) → (f q).operation_id ≡ q.operation_id)
      (kept : (q : Proposal F) → (f q).consumed_task_id ≡ q.consumed_task_id)
      → proposal_at op d.proposals ≡ some p
      → is_pending p.decision ≡ true
      → Agrees d good bad
      → Agrees
          (record d { proposals = update (λ (q : Proposal F). q.operation_id) op f d.proposals })
          good
          bad
  Agrees-update d op f p same kept here h a =
      let look = find-update (λ (q : Proposal F). q.operation_id) op f same in
      let free : p.consumed_task_id ≡ none = ground (arith, a.unconsumed op p here) in
      let graded =
        grade-proposals d (update (λ (q : Proposal F). q.operation_id) op f d.proposals) (λ t e.
          joined-update float run t op f p same d.proposals d.task_operations e here h
            (kept p ∙ free)) in
      record {
        owned = a.owned;
        receipted = a.receipted;
        unconsumed =
            λ k q e. ground (arith, look k d.proposals, a.unconsumed k q, kept p, eq_iff op k);
        known = λ k q e. ground (arith, look k d.proposals, a.known k q, kept p, eq_iff op k);
        goods = rw graded a.goods;
        bads = rw graded a.bads;
      }
