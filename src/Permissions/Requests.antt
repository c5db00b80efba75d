-- ===== src/Permissions/Requests.antt =====
-- permissions.py: `configure_request`, `request_state` and `scenario_grant`, the trusted setup of a
-- scenario.
use agent_fault_lab.Prelude.{
  ℕ, String, Bool, true, not, ◌&&◌, none, some, List, [], ◌∷◌, ◌==◌, eqb, to_nat, if◌then◌else◌,
  map,
}
use agent_fault_lab.Exceptions.{
  check_first, value_error, sqlite_error, Result, ok, raised, Action, and_then,
}
use agent_fault_lab.Sql.{update, count}
use agent_fault_lab.Tasks.{Task, require_nonblank_string}
use agent_fault_lab.Float.{Float}
use agent_fault_lab.Permissions.Records.{
  Proposal, Authority, Database, File, is_pending, connection,
}
use agent_fault_lab.Permissions.Grants.{proposal, decide}

pub record RequestState : Type 0 where
  pub title : String
  pub request_revision : ℕ
  pub policy_revision : ℕ
  pub write_allowed : Bool

-- the first rows of the two SELECTs
abbrev first_rows : List Authority → List ℕ → Result RequestState
first_rows (a ∷ _) (w ∷ _) = ok (record {
  title = a.expected_title;
  request_revision = a.request_revision;
  policy_revision = a.policy_revision;
  write_allowed = not (eqb w 0);
})
first_rows _ _ = raised (value_error "Authoritative request is unavailable")

module _ {F : Type 0} where
  -- CREATE TABLE fails where the table is there.
  unfoldable pub configure_body : String → Bool → ℕ → Database F → Result (Unit {0} × Database F)
  configure_body title write_allowed revision d = elim d.request_policy [
    | some _ ↦ raised (sqlite_error "table request_policy already exists")
    | none ↦ ok (
      tt,
      record d {
        request_policy = some (to_nat write_allowed ∷ []);
        authority =
            map
              (λ (a : Authority). record a {
                expected_title = title;
                request_revision = revision;
                policy_revision = revision;
              })
              d.authority;
      },
    )
  ]

  unfoldable pub configure_request : String → Bool → ℕ → Action (File F) (Unit {0})
  unfolding require_nonblank_string connection configure_body
  configure_request title write_allowed revision file =
      check_first (require_nonblank_string title "title")
        (connection (configure_body title write_allowed revision)) file

  unfoldable pub request_state : File F → Result RequestState
  request_state none = raised (value_error "Task database must be an existing regular file")
  request_state (some d) = elim d.request_policy [
    | none ↦ raised (sqlite_error "no such table: request_policy")
    | some policy ↦ first_rows d.authority policy
  ]

  unfoldable pub stale_body : String → Database F → Result (Unit {0} × Database F)
  unfolding update
  stale_body operation d = ok (
    tt,
    record d {
      proposals =
          update (λ (p : Proposal F). p.operation_id) operation
            (λ (p : Proposal F). record p { request_revision = 1; policy_revision = 1 })
            d.proposals;
    },
  )

  unfoldable pub count_title : String → Database F → Result (ℕ × Database F)
  unfolding count
  count_title title d = ok (count (λ (t : Task). t.title) title d.tasks, d)

module _ {F : Type 0} (float : Float F) where
  -- The title is the requested one, a write is allowed, and no task has the title yet.
  unfoldable pub grant_in_scope :
      String → String → F → F → RequestState → Proposal F → ℕ → Action (File F) (Proposal F)
  unfolding decide
  grant_in_scope run_id operation default_ttl clock request p existing =
      decide float run_id operation
        (request.write_allowed && p.title == request.title && eqb existing 0) default_ttl none clock

  -- `default_ttl` is the 300 seconds of `decide`.
  unfoldable pub grant_pending :
      String → String → Bool → F → F → RequestState → Proposal F → Action (File F) (Proposal F)
  unfolding stale_body connection count_title grant_in_scope
  grant_pending run_id operation stale default_ttl clock request p =
      if stale
      then and_then (connection (stale_body operation))
          (λ _. decide float run_id operation true default_ttl none clock)
      else and_then (connection (count_title request.title))
          (grant_in_scope run_id operation default_ttl clock request p)

  -- What is decided is left alone.
  unfoldable pub grant_undecided :
      String → String → Bool → F → F → RequestState → Proposal F → Action (File F) (Unit {0})
  unfolding grant_pending
  grant_undecided run_id operation stale default_ttl clock request p =
      if not (is_pending p.decision)
      then (λ s. (ok tt, s))
      else and_then (grant_pending run_id operation stale default_ttl clock request p)
          (λ _ s. (ok tt, s))

  unfoldable pub grant_requested :
      String → String → Bool → F → F → RequestState → Action (File F) (Unit {0})
  unfolding proposal grant_undecided
  grant_requested run_id operation stale default_ttl clock request =
      and_then (proposal operation)
        (grant_undecided run_id operation stale default_ttl clock request)

  -- Only the current requested title is eligible.
  unfoldable pub scenario_grant : String → String → Bool → F → F → Action (File F) (Unit {0})
  unfolding request_state grant_requested
  scenario_grant run_id operation stale default_ttl clock =
      and_then (λ s. (request_state s, s))
        (grant_requested run_id operation stale default_ttl clock)
