-- ===== src/Inspection/Lookups.antt =====
-- The joined row of a task: which changes of the proposals and receipts leave its grade alone.
use agent_fault_lab.Prelude.{
  String, ◌≡◌, ◌≢◌, refl, Bool, true, false, Option, none, some, List, ◌∷◌, arith, eq_iff,
  if◌then◌else◌,
}
use agent_fault_lab.Sql.{find, update, find-update}
use agent_fault_lab.Tasks.{Task, Operation}
use agent_fault_lab.Float.{Float}
use agent_fault_lab.Permissions.Records.{Proposal, Effect, is_pending}
use agent_fault_lab.Inspection.{is_valid, joined}

abbrev pub proposal_at : {F : Type 0} → String → List (Proposal F) → Option (Proposal F)
proposal_at {F} = find (λ (p : Proposal F). p.operation_id)

abbrev pub receipt_at : String → List Operation → Option Operation
receipt_at = find (λ (o : Operation). o.operation_id)

abbrev pub effect_at : {F : Type 0} → String → List (Effect F) → Option (Effect F)
effect_at {F} = find (λ (e : Effect F). e.task_id)

module _ {F : Type 0} (float : Float F) (run : String) (t : Task) where
  -- What is pending before and unconsumed after is no valid grant, before or after.
  is_valid-pending :
      (e : Option (Effect F)) (p p' : Proposal F) (r : Option Operation)
      → is_pending p.decision ≡ true
      → p'.consumed_task_id ≡ none
      → is_valid float run t e (some p') r ≡ is_valid float run t e (some p) r
  unfolding is_valid
  is_valid-pending e p p' r h h' = ground arith

  is_valid_pending_false :
      (e : Option (Effect F)) (p : Proposal F) (r : Option Operation)
      → is_pending p.decision ≡ true
      → is_valid float run t e (some p) r ≡ false
  unfolding is_valid
  is_valid_pending_false e p r h = ground arith

  is_valid_no_proposal :
      (e : Option (Effect F)) (r : Option Operation) → is_valid float run t e none r ≡ false
  unfolding is_valid
  is_valid_no_proposal none r = refl
  is_valid_no_proposal (some e) r = refl

  -- a new pending proposal
  pub joined-propose :
      (q : Proposal F) (proposals : List (Proposal F)) (ops : List Operation)
      (e : Option (Effect F))
      → is_pending q.decision ≡ true
      → proposal_at q.operation_id proposals ≡ none
      → joined float run t (q ∷ proposals) ops e ≡ joined float run t proposals ops e
  unfolding joined
  joined-propose q proposals ops none h absent = refl
  joined-propose q proposals ops (some e) h absent =
      let r = receipt_at e.operation_id ops in
      ground (
        arith,
        eq_iff q.operation_id e.operation_id,
        is_valid_pending_false (some e) q r,
        is_valid_no_proposal (some e) r,
      )

  -- a change of a pending, unconsumed proposal
  pub joined-update :
      (op : String) (f : Proposal F → Proposal F) (p : Proposal F)
      (same : (q : Proposal F) → (f q).operation_id ≡ q.operation_id)
      (proposals : List (Proposal F)) (ops : List Operation) (e : Option (Effect F))
      → proposal_at op proposals ≡ some p
      → is_pending p.decision ≡ true
      → (f p).consumed_task_id ≡ none
      → joined float run t (update (λ (q : Proposal F). q.operation_id) op f proposals) ops e
        ≡ joined float run t proposals ops e
  unfolding joined
  joined-update op f p same proposals ops none here h h' = refl
  joined-update op f p same proposals ops (some e) here h h' =
      let r = receipt_at e.operation_id ops in
      rw (find-update (λ (q : Proposal F). q.operation_id) op f same e.operation_id proposals)
        (ground (arith, eq_iff op e.operation_id, is_valid-pending (some e) p (f p) r))

  -- a receipt of another operation, whose grant may be consumed too
  pub joined-write :
      (o : Operation) (b : Bool) (f : Proposal F → Proposal F)
      (same : (q : Proposal F) → (f q).operation_id ≡ q.operation_id)
      (proposals : List (Proposal F)) (ops : List Operation) (e : Effect F)
      → o.operation_id ≢ e.operation_id
      → joined float run t
          (if b
            then update (λ (q : Proposal F). q.operation_id) o.operation_id f proposals
            else proposals)
          (o ∷ ops)
          (some e)
        ≡ joined float run t proposals ops (some e)
  unfolding joined find
  joined-write o b f same proposals ops e other = ground (
    arith,
    eq_iff o.operation_id e.operation_id,
    find-update (λ (q : Proposal F). q.operation_id) o.operation_id f same e.operation_id proposals,
  )
