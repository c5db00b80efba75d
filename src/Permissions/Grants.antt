-- ===== src/Permissions/Grants.antt =====
-- permissions.py: `propose`, `proposal`, `decide`, `change_revision` and `get_task`.
use agent_fault_lab.Prelude.{
  ◌+◌, String, Bool, not, ◌&&◌, ◌||◌, Option, none, some, ◌==◌, if◌then◌else◌, map,
}
use agent_fault_lab.Exceptions.{
  check_first, value_error, Result, ok, raised, ◌>>=◌, ◌>>◌, raise_if, Action,
}
use agent_fault_lab.Sql.{find, has, update, insert}
use agent_fault_lab.Tasks.{Task, require_nonblank_string}
use agent_fault_lab.Float.{Float}
use agent_fault_lab.Permissions.Records.{
  pending, approved, rejected, Proposal, Authority, Database, File, is_pending, connection,
  select_proposal, select_authority,
}

module _ {F : Type 0} where
  unfoldable pub propose_body :
      String → String → String → Database F → Result (Proposal F × Database F)
  unfolding find has insert select_proposal select_authority
  propose_body run_id operation_id title d =
      elim (find (λ (p : Proposal F). p.operation_id) operation_id d.proposals) [
        | some proposal ↦
            if not (proposal.run_id == run_id) || not (proposal.title == title)
            then raised (value_error "Operation proposal is immutable")
            else ok (proposal, d)
        | none ↦ do
          revision ← select_authority d run_id
          let proposal : Proposal F = record {
            run_id = run_id;
            operation_id = operation_id;
            title = title;
            request_revision = revision.request_revision;
            policy_revision = revision.policy_revision;
            decision = pending;
            granted_at = none;
            expires_at = none;
            consumed_task_id = none;
          }
          rows ←
              insert (has (λ (p : Proposal F). p.operation_id) operation_id d.proposals) proposal
                d.proposals
          ok (proposal, record d { proposals = rows })
      ]

  unfoldable pub propose : String → String → String → Action (File F) (Proposal F)
  unfolding require_nonblank_string connection propose_body
  propose run_id operation_id title file =
      check_first
        (require_nonblank_string operation_id "operation_id"
          >> require_nonblank_string title "title")
        (connection (propose_body run_id operation_id title)) file

  unfoldable pub proposal : String → Action (File F) (Proposal F)
  unfolding connection select_proposal
  proposal operation_id = connection (λ d. do p ← select_proposal d operation_id; ok (p, d))

  -- the trusted scenario controller
  unfoldable pub change_revision : Action (File F) (Unit {0})
  unfolding connection
  change_revision = connection (λ d. ok (
    tt,
    record d {
      authority =
          map (λ (a : Authority). record a { policy_revision = a.policy_revision + 1 }) d.authority;
    },
  ))

  unfoldable pub get_task : String → File F → Result (Option Task)
  unfolding require_nonblank_string find
  get_task task_id file = do
    require_nonblank_string task_id "task_id"
    elim file [
      | none ↦ raised (value_error "Task database must be an existing regular file")
      | some d ↦ ok (find (λ (t : Task). t.id) task_id d.tasks)
    ]

module _ {F : Type 0} (float : Float F) where
  -- the row that a decision leaves
  unfoldable pub decided : Bool → F → F → Proposal F → Proposal F
  decided approve now ttl_seconds p = record p {
    decision = if approve then approved else rejected;
    granted_at = if approve then some now else none;
    expires_at = if approve then some (float.add now ttl_seconds) else none;
  }

  unfoldable pub decide_body :
      String → String → Bool → F → F → Database F → Result (Proposal F × Database F)
  unfolding select_proposal update find decided
  decide_body run_id operation_id approve ttl_seconds now d = do
    p ← select_proposal d operation_id
    raise_if (not (p.run_id == run_id) || not (is_pending p.decision))
        (value_error "Proposal is foreign or already decided")
    let d' : Database F = record d {
      proposals =
          update (λ (q : Proposal F). q.operation_id) operation_id (decided approve now ttl_seconds)
            d.proposals;
    }
    p' ← select_proposal d' operation_id
    ok (p', d')

  -- `clock` is what `time.time()` returns where no `now` is given.
  unfoldable pub decide : String → String → Bool → F → Option F → F → Action (File F) (Proposal F)
  unfolding connection decide_body
  decide run_id operation_id approve ttl_seconds now clock file =
      let at : F = elim now [ none ↦ clock | some t ↦ t ] in
      check_first
        (raise_if
          (not (float.is_finite at)
            || not (float.is_finite ttl_seconds)
            || not (float.ltb float.zero ttl_seconds && float.leb ttl_seconds float.hour))
          (value_error "Approval TTL must be positive and at most 3600 seconds"))
        (connection (decide_body run_id operation_id approve ttl_seconds at)) file
