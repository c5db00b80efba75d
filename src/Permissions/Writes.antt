-- ===== src/Permissions/Writes.antt =====
-- permissions.py: `write`, the admission of one task.
use agent_fault_lab.Prelude.{
  ℕ, String, Bool, true, false, not, ◌&&◌, ◌||◌, Option, none, some, List, [], ◌∷◌, ◌==◌, ◌++◌, eqb,
  ltb, map, any, if◌then◌else◌,
}
use agent_fault_lab.Exceptions.{
  check_first, value_error, sqlite_error, Result, ok, raised, ◌>>=◌, ◌>>◌, raise_if, Action,
}
use agent_fault_lab.Sql.{find, has, update, count}
use agent_fault_lab.Tasks.{Task, Operation, require_nonblank_string}
use agent_fault_lab.Float.{Float}
use agent_fault_lab.Permissions.Records.{
  Proposal, Authority, Effect, Database, File, Reason, allowed, mismatched, revision_changed,
  undecided, no_interval, not_current, consumed, out_of_scope, WriteDecision, is_allowed,
  is_approved, connection, select_proposal, select_authority,
}

-- the rows of `request_policy` CROSS JOIN `boundary_authority`
cross_join : List ℕ → List Authority → List (ℕ × String)
cross_join [] rows = []
cross_join (w ∷ ws) rows = map (λ (a : Authority). (w, a.expected_title)) rows ++ cross_join ws rows

-- `len(policy) != 1 or policy[0][0] not in (0, 1)` is refused; the rest is the scope of the request.
scope_reason : List (ℕ × String) → List Task → String → Result Reason
unfolding count
scope_reason ((w, expected) ∷ []) tasks title = do
  raise_if (ltb 1 w) (value_error "Invalid authoritative request policy")
  let already_created = count (λ (t : Task). t.title) expected tasks
  ok (
      if not (eqb w 1) || not (title == expected) || not (eqb already_created 0)
      then out_of_scope
      else allowed)
scope_reason _ tasks title = raised (value_error "Invalid authoritative request policy")

-- The scope is asked only of a grant that holds, and only where the policy table is there.
unfoldable pub scoped :
    Option (List ℕ) → List Authority → List Task → String → Reason → Result Reason
unfolding cross_join scope_reason
scoped (some policy) authority tasks title allowed =
    scope_reason (cross_join policy authority) tasks title
scoped _ _ _ _ reason = ok reason

module _ {F : Type 0} (float : Float F) where
  -- `granted_at <= now < expires_at`, where both are there
  abbrev interval_reason : F → Option F → Option F → Reason → Reason
  interval_reason now none e rest = no_interval
  interval_reason now (some g) none rest = no_interval
  interval_reason now (some g) (some e) rest =
      if not (float.leb g now && float.ltb now e) then not_current else rest

  abbrev consumed_reason : Option String → Reason
  consumed_reason none = allowed
  consumed_reason (some _) = consumed

  -- the ladder of `write` over the proposal and the current revision
  unfoldable pub grant_reason : String → String → F → Proposal F → Authority → Reason
  grant_reason run_id title now p revision =
      if not (p.run_id == run_id) || not (p.title == title)
      then mismatched
      else if not (
          eqb p.request_revision revision.request_revision
          && eqb p.policy_revision revision.policy_revision)
      then revision_changed
      else if not (is_approved p.decision)
      then undecided p.decision
      else interval_reason now p.granted_at p.expires_at (consumed_reason p.consumed_task_id)

  abbrev consumed_by : String → Proposal F → Bool
  consumed_by uuid p = elim p.consumed_task_id [ none ↦ false | some id ↦ id == uuid ]

  abbrev pub check_now : Option F → Result (Unit {0})
  check_now none = ok tt
  check_now (some t) =
      raise_if (not (float.is_finite t)) (value_error "Admission time must be finite")

  -- the database after an admitted write
  abbrev pub committed :
      String → String → String → String → F → Authority → Bool → Database F → Database F
  committed run_id uuid operation_id title now revision authorized d = record d {
    tasks = record { id = uuid; title = title } ∷ d.tasks;
    task_operations =
        record { operation_id = operation_id; title = title; task_id = uuid } ∷ d.task_operations;
    effects =
        record {
          operation_id = operation_id;
          run_id = run_id;
          task_id = uuid;
          title = title;
          admitted_at = now;
          request_revision = revision.request_revision;
          policy_revision = revision.policy_revision;
        }
        ∷ d.effects;
    proposals =
        if authorized
        then update (λ (p : Proposal F). p.operation_id) operation_id
            (λ (p : Proposal F). record p { consumed_task_id = some uuid }) d.proposals
        else d.proposals;
  }

  -- the primary keys and UNIQUE columns of the four tables that a write changes
  unfoldable pub clashes : String → String → Bool → Database F → Bool
  unfolding has
  clashes uuid operation_id authorized d =
      has (λ (t : Task). t.id) uuid d.tasks
      || has (λ (o : Operation). o.operation_id) operation_id d.task_operations
      || has (λ (o : Operation). o.task_id) uuid d.task_operations
      || has (λ (e : Effect F). e.operation_id) operation_id d.effects
      || has (λ (e : Effect F). e.task_id) uuid d.effects
      || (authorized && any (consumed_by uuid) d.proposals)

  -- The three INSERTs of an admitted task, and the UPDATE that consumes its grant; the transaction
  -- keeps all four statements or none, so one test stands for their constraints.
  unfoldable pub commit_write :
      String
      → String
      → String
      → String
      → F
      → Authority
      → Reason
      → Database F
      → Result (WriteDecision × Database F)
  unfolding clashes
  commit_write run_id uuid operation_id title now revision reason d = do
    raise_if (clashes uuid operation_id (is_allowed reason) d)
        (sqlite_error "UNIQUE constraint failed")
    ok (
      record {
        task = some (record { id = uuid; title = title });
        authorized = some (is_allowed reason);
        replayed = false;
        reason = some reason;
      },
      committed run_id uuid operation_id title now revision (is_allowed reason) d,
    )

  -- The body of the transaction. A committed receipt is authoritative, even when its grant has
  -- expired.
  unfoldable pub write_body :
      String
      → String
      → String
      → String
      → Bool
      → F
      → Database F
      → Result (WriteDecision × Database F)
  unfolding find select_proposal select_authority scoped grant_reason commit_write
  write_body run_id uuid operation_id title enforce now d =
      elim (find (λ (o : Operation). o.operation_id) operation_id d.task_operations) [
        | some receipt ↦
            if not (receipt.title == title)
            then raised (value_error "Committed operation arguments cannot change")
            else ok (
              record {
                task = some (record { id = receipt.task_id; title = title });
                authorized = none;
                replayed = true;
                reason = none;
              },
              d,
            )
        | none ↦ do
          p ← select_proposal d operation_id
          revision ← select_authority d run_id
          reason ←
              scoped d.request_policy d.authority d.tasks title
                (grant_reason run_id title now p revision)
          if enforce && not (is_allowed reason)
              then ok (
                record {
                  task = none;
                  authorized = some false;
                  replayed = false;
                  reason = some reason;
                },
                d,
              )
              else commit_write run_id uuid operation_id title now revision reason d
      ]

  -- `now` is the argument that a caller may give; `clock` is read after the lock is taken.
  unfoldable pub write :
      String → String → String → String → Bool → Option F → F → Action (File F) WriteDecision
  unfolding require_nonblank_string connection write_body
  write run_id uuid operation_id title enforce now clock =
      check_first (require_nonblank_string title "title" >> check_now now) (
        connection (
          write_body run_id uuid operation_id title enforce
            (elim now [ none ↦ clock | some t ↦ t ])))
