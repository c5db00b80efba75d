-- ===== src/Inspection/Calls.antt =====
-- Every call of the permission store, at the file, keeps the counts of the inspection.
use agent_fault_lab.Prelude.{
  ℕ, ◌+◌, String, ◌≡◌, refl, sym, ◌∙◌, inl, inr, Bool, true, false, not, Option, none, some, ◌&&◌,
  ◌||◌, ◌==◌, eqb, subst, Bool-cases,
}
use agent_fault_lab.Exceptions.{
  Result, ok, raised, Result-cases, Action, and_then, resume, check_first, raise_if, value_error,
  ◌>>◌,
}
use agent_fault_lab.Sql.{transaction}
use agent_fault_lab.Tasks.{require_nonblank_string}
use agent_fault_lab.Float.{Float}
use agent_fault_lab.Permissions.Records.{
  Database, File, Proposal, Authority, connection, is_pending, select_proposal,
}
use agent_fault_lab.Permissions.Grants.{
  propose, propose_body, proposal, decide, decide_body, change_revision,
}
use agent_fault_lab.Permissions.Requests.{
  configure_request, configure_body, scenario_grant, grant_pending, grant_in_scope, grant_undecided,
  grant_requested, stale_body, request_state, count_title, RequestState,
}
use agent_fault_lab.Inspection.Invariant.{Agrees}
use agent_fault_lab.Inspection.Lookups.{proposal_at}
use agent_fault_lab.Inspection.Steps.{
  Agrees-authority, propose_body-Agrees, decide_body-Agrees, stale_body-Agrees,
  configure_body-Agrees, select_proposal-eq_ok,
}

module _ {F : Type 0} where
  -- a property of the database in a file that is there
  abbrev pub Holds : (Database F → Type 0) → File F → Type 0
  Holds P none = ⊥
  Holds P (some d) = P d

  module _ {A : Type 0} (P : Database F → Type 0) where
    connection-Holds :
        (body : Database F → Result (A × Database F)) (file : File F)
        → ((d d' : Database F) (a : A) → body d ≡ ok (a, d') → P d → P d')
        → Holds P file
        → Holds P (connection body file).1
    unfolding connection
    connection-Holds body none keep h = h
    connection-Holds body (some d) keep h = elim (Result-cases (body d)) [
      | inl ((a, d'), e) ↦ rw (e, transaction) (keep d d' a e h)
      | inr (x, e) ↦ rw (e, transaction) h
    ]

module _ {F : Type 0} (float : Float F) (run_id : String) (good bad : ℕ) where
  abbrev pub Sound : File F → Type 0
  Sound = Holds (λ d. Agrees float run_id d good bad)

  check_first-Sound :
      {A : Type 0} (check : Result (Unit {0})) (m : Action (File F) A) (file : File F)
      → Sound file
      → Sound (m file).1
      → Sound (check_first check m file).1
  check_first-Sound (ok _) m file h k = k
  check_first-Sound (raised e) m file h k = h

  pub propose-Sound :
      (op title : String) (file : File F) → Sound file → Sound (propose run_id op title file).1
  unfolding propose
  propose-Sound op title file h =
      check_first-Sound
        (require_nonblank_string op "operation_id" >> require_nonblank_string title "title")
        (connection (propose_body run_id op title)) file h
        (connection-Holds _ (propose_body run_id op title) file
          (λ d d' p e a. propose_body-Agrees float run_id op title d d' p e a) h)

  pub proposal-eq : (op : String) (file : File F) → (proposal op file).1 ≡ file
  unfolding proposal
  proposal-eq op none = refl
  proposal-eq op (some d) = elim (Result-cases (select_proposal d op)) [
    | inl (p, e) ↦ rw (e, transaction)
    | inr (x, e) ↦ rw (e, transaction)
  ]

  pub change_revision-Sound : (file : File F) → Sound file → Sound (change_revision file).1
  unfolding change_revision
  change_revision-Sound none h = h
  change_revision-Sound (some d) h =
      Agrees-authority float run_id d
        (λ (a : Authority). record a { policy_revision = a.policy_revision + 1 }) d.request_policy
        (λ a. refl) h

  pub decide-Sound :
      (op : String) (approve : Bool) (ttl : F) (now : Option F) (clock : F) (file : File F)
      → Sound file
      → Sound (decide float run_id op approve ttl now clock file).1
  unfolding decide
  decide-Sound op approve ttl now clock file h =
      let at : F = elim now [ none ↦ clock | some t ↦ t ] in
      check_first-Sound
        (raise_if
          (not (float.is_finite at)
            || not (float.is_finite ttl)
            || not (float.ltb float.zero ttl && float.leb ttl float.hour))
          (value_error "Approval TTL must be positive and at most 3600 seconds"))
        (connection (decide_body float run_id op approve ttl at)) file h
        (connection-Holds _ (decide_body float run_id op approve ttl at) file
          (λ d d' p e a. decide_body-Agrees float run_id op approve ttl at d d' p e a) h)

  pub configure-Sound :
      (title : String) (allow : Bool) (revision : ℕ) (file : File F)
      → Sound file
      → Sound (configure_request title allow revision file).1
  unfolding configure_request
  configure-Sound title allow revision file h =
      check_first-Sound (require_nonblank_string title "title")
        (connection (configure_body title allow revision)) file h
        (connection-Holds _ (configure_body title allow revision) file
          (λ d d' u e a. configure_body-Agrees float run_id title allow revision d d' e a) h)

  and_then-Sound :
      {A B : Type 0} (m : Action (File F) A) (f : A → Action (File F) B) (file : File F)
      → Sound (m file).1
      → ((a : A) → (m file).0 ≡ ok a → Sound (f a (m file).1).1)
      → Sound (and_then m f file).1
  and_then-Sound {A} {B} m f file h k = go (m file).0 (m file).1 h k
    where
      go :
          (r : Result A) (file' : File F)
          → Sound file'
          → ((a : A) → r ≡ ok a → Sound (f a file').1)
          → Sound (resume f r file').1
      go (ok a) file' h k = k a refl
      go (raised e) file' h k = h

  proposal-found :
      (op : String) (d : Database F) (p : Proposal F)
      → (proposal op (some d)).0 ≡ ok p
      → select_proposal d op ≡ ok p
  unfolding proposal
  proposal-found op d p h = elim (Result-cases (select_proposal d op)) [
    | inl (q, e) ↦ e ∙ (rw (e, transaction) at h)
    | inr (x, e) ↦ absurd (cc (rw (e, transaction) at h))
  ]

  -- The controller's transactions, on a proposal that was read as pending.
  grant_pending-Sound :
      (op : String) (stale : Bool) (ttl clock : F) (request : RequestState) (p : Proposal F)
      (d : Database F)
      → proposal_at op d.proposals ≡ some p
      → is_pending p.decision ≡ true
      → Sound (some d)
      → Sound (grant_pending float run_id op stale ttl clock request p (some d)).1
  unfolding grant_pending
  grant_pending-Sound op true ttl clock request p d there undecided h =
      and_then-Sound (connection (stale_body op)) (λ _. decide float run_id op true ttl none clock)
        (some d)
        (unfold stale_body connection transaction in
          stale_body-Agrees float run_id op d _ p refl there undecided h)
        (λ a e. decide-Sound op true ttl none clock _ (
          unfold stale_body connection transaction in
          stale_body-Agrees float run_id op d _ p refl there undecided h))
  grant_pending-Sound op false ttl clock request p d there undecided h =
      and_then-Sound (connection (count_title request.title))
        (grant_in_scope float run_id op ttl clock request p) (some d)
        (unfold count_title connection transaction in h)
        (λ existing e.
          unfold grant_in_scope count_title connection transaction in
          decide-Sound op (request.write_allowed && p.title == request.title && eqb existing 0) ttl
            none clock (some d) h)

  grant_undecided-Sound :
      (op : String) (stale : Bool) (ttl clock : F) (request : RequestState) (p : Proposal F)
      (d : Database F)
      → proposal_at op d.proposals ≡ some p
      → Sound (some d)
      → Sound (grant_undecided float run_id op stale ttl clock request p (some d)).1
  unfolding grant_undecided
  grant_undecided-Sound op stale ttl clock request p d there h =
      elim (Bool-cases (is_pending p.decision)) [
        | inr decided ↦ rw decided h
        | inl undecided ↦ rw undecided (
            and_then-Sound (grant_pending float run_id op stale ttl clock request p)
              (λ _ s. (ok tt, s)) (some d)
              (grant_pending-Sound op stale ttl clock request p d there undecided h)
              (λ q e. grant_pending-Sound op stale ttl clock request p d there undecided h))
      ]

  pub scenario_grant-Sound :
      (op : String) (stale : Bool) (ttl clock : F) (file : File F)
      → Sound file
      → Sound (scenario_grant float run_id op stale ttl clock file).1
  unfolding scenario_grant grant_requested
  scenario_grant-Sound op stale ttl clock none h = elim h [ ]
  scenario_grant-Sound op stale ttl clock (some d) h =
      and_then-Sound (λ s. (request_state s, s)) (grant_requested float run_id op stale ttl clock)
        (some d) h
        (λ request _.
          and_then-Sound (proposal op) (grant_undecided float run_id op stale ttl clock request)
            (some d) (subst Sound (sym (proposal-eq op (some d))) h)
            (λ p found.
              subst (λ s. Sound (grant_undecided float run_id op stale ttl clock request p s).1)
                (sym (proposal-eq op (some d)))
                (grant_undecided-Sound op stale ttl clock request p d
                  (select_proposal-eq_ok float run_id d op p (proposal-found op d p found)) h)))
