-- ===== src/Permissions/Records.antt =====
-- permissions.py: the rows and tables of one authorization database, how it is opened and made, and
-- the two lookups that every operation makes.
use agent_fault_lab.Prelude.{
  ◌≡◌, ap, sym, inl, inr, ℕ, String, Bool, true, false, Option, none, some, List, [], ◌∷◌, not,
  ◌==◌,
}
use agent_fault_lab.Exceptions.{
  Result-cases, check_first, value_error, file_exists, Result, ok, raised, ◌>>◌, raise_if, Action,
}
use agent_fault_lab.Sql.{find, transaction}
use agent_fault_lab.Tasks.{Task, Operation, require_nonblank_string}

pub data Decision : Type 0 where
  pending approved rejected : Decision

pub record Proposal (F : Type 0) : Type 0 where
  pub run_id : String
  pub operation_id : String
  pub title : String
  pub request_revision : ℕ
  pub policy_revision : ℕ
  pub decision : Decision
  pub granted_at : Option F
  pub expires_at : Option F
  pub consumed_task_id : Option String

-- a row of `boundary_authority`
pub record Authority : Type 0 where
  pub run_id : String
  pub expected_title : String
  pub request_revision : ℕ
  pub policy_revision : ℕ

-- a row of `boundary_effects`
pub record Effect (F : Type 0) : Type 0 where
  pub operation_id : String
  pub run_id : String
  pub task_id : String
  pub title : String
  pub admitted_at : F
  pub request_revision : ℕ
  pub policy_revision : ℕ

-- The tables that `PermissionStore.create` makes; `request_policy` holds the column
-- `write_allowed` once `configure_request` has made it.
pub record Database (F : Type 0) : Type 0 where
  pub tasks : List Task
  pub authority : List Authority
  pub proposals : List (Proposal F)
  pub task_operations : List Operation
  pub effects : List (Effect F)
  pub request_policy : Option (List ℕ)

abbrev pub File : Type 0 → Type 0
File F = Option (Database F)

-- Why a write is admitted or refused; `allowed` is the text "approved".
pub data Reason : Type 0 where
  allowed mismatched revision_changed : Reason
  undecided : Decision → Reason
  no_interval not_current consumed out_of_scope : Reason

pub record WriteDecision : Type 0 where
  pub task : Option Task
  pub authorized : Option Bool
  pub replayed : Bool
  -- `none` is "committed replay"
  pub reason : Option Reason

abbrev pub is_allowed : Reason → Bool
is_allowed allowed = true
is_allowed _ = false

abbrev pub is_pending : Decision → Bool
is_pending pending = true
is_pending _ = false

abbrev pub is_approved : Decision → Bool
is_approved approved = true
is_approved _ = false

abbrev pub found_authority : Option Authority → Result Authority
found_authority none = raised (value_error "Run authority disappeared")
found_authority (some a) = ok a

-- `row != (run_id,)`, for the first row
abbrev pub owned_by : String → List Authority → Result (Unit {0})
owned_by run_id [] = raised (value_error "Authorization database belongs to another run")
owned_by run_id (a ∷ rows) =
    raise_if (not (a.run_id == run_id))
      (value_error "Authorization database belongs to another run")

module _ {F : Type 0} where
  -- `connection`: an existing regular file, and a transaction that a raise rolls back
  unfoldable pub connection {κ} :
      {A : Type κ} → (Database F → Result (A × Database F)) → Action (File F) A
  unfolding transaction
  connection body none =
      (raised (value_error "Task database must be an existing regular file"), none)
  connection body (some d) = let (r, d') = transaction body d in (r, some d')

  -- the tables of a new database
  abbrev pub initial : String → String → Database F
  initial run_id expected_title = record {
    tasks = [];
    authority =
        record {
          run_id = run_id;
          expected_title = expected_title;
          request_revision = 1;
          policy_revision = 1;
        }
        ∷ [];
    proposals = [];
    task_operations = [];
    effects = [];
    request_policy = none;
  }

  unfoldable pub create : String → String → Action (File F) (Unit {0})
  unfolding require_nonblank_string
  create run_id expected_title (some d) = (raised file_exists, some d)
  create run_id expected_title none =
      check_first
        (require_nonblank_string run_id "run_id"
          >> require_nonblank_string expected_title "expected_title")
        (λ _. (ok tt, some (initial run_id expected_title))) none

  -- `__init__`: a database of another run is refused.
  unfoldable pub open_store : String → Action (File F) (Unit {0})
  unfolding connection
  open_store run_id = connection (λ d. do owned_by run_id d.authority; ok (tt, d))

  abbrev pub found_proposal : Option (Proposal F) → Result (Proposal F)
  found_proposal none = raised (value_error "Unknown approval proposal")
  found_proposal (some p) = ok p

  -- `_proposal`
  unfoldable pub select_proposal : Database F → String → Result (Proposal F)
  unfolding find
  select_proposal d operation_id =
      found_proposal (find (λ (p : Proposal F). p.operation_id) operation_id d.proposals)

  -- the revision of the run
  unfoldable pub select_authority : Database F → String → Result Authority
  unfolding find
  select_authority d run_id =
      found_authority (find (λ (a : Authority). a.run_id) run_id d.authority)

  pub connection-eq_ok :
      {A : Type 0} (body : Database F → Result (A × Database F)) (file file' : File F) (a : A)
      → connection body file ≡ (ok a, file')
      → (d : Database F) × (d' : Database F) × (body d ≡ ok (a, d')) × (file' ≡ some d')
  unfolding connection
  connection-eq_ok body none file' a h = cc (ap (λ p. p.0) h)
  connection-eq_ok body (some d) file' a h = elim (Result-cases (body d)) [
    | inl ((b, d'), e) ↦
        let h' = rw (e, transaction) at h in
        (d, d', cc (e, ap (λ p. p.0) h'), sym (ap (λ p. p.1) h'))
    | inr (x, e) ↦ cc (ap (λ p. p.0) (rw (e, transaction) at h))
  ]
