-- ===== src/Permissions/Receipts.antt =====
-- A committed receipt stays in the database, whatever calls follow.
use agent_fault_lab.Prelude.{
  ℕ, String, ◌≡◌, inl, inr, Bool, true, false, not, ◌&&◌, ◌||◌, Option, none, some, List, [], ◌∷◌,
  ◌==◌, eq_iff, eqb, arith, Bool-cases, Option-cases,
}
use agent_fault_lab.Exceptions.{
  Result, ok, raised, Result-cases, Action, and_then, resume, check_first, raise_if, value_error,
  ◌>>=◌, ◌>>◌, >>=-eq-ok,
}
use agent_fault_lab.Sql.{find, transaction}
use agent_fault_lab.Tasks.{Operation, require_nonblank_string}
use agent_fault_lab.Float.{Float}
use agent_fault_lab.Permissions.Records.{
  Database, File, Proposal, Authority, Reason, WriteDecision, is_allowed, is_pending, connection,
  select_proposal, select_authority,
}
use agent_fault_lab.Permissions.Grants.{
  propose, propose_body, proposal, decide, decide_body, change_revision,
}
use agent_fault_lab.Permissions.Writes.{
  write, write_body, commit_write, scoped, grant_reason, check_now,
}
use agent_fault_lab.Permissions.Requests.{
  configure_request, configure_body, scenario_grant, grant_pending, grant_in_scope, grant_undecided,
  grant_requested, stale_body, request_state, count_title, RequestState,
}
use agent_fault_lab.Permissions.Session.{
  Command, proposing, reading, deciding, changing_revision, writing, configuring, granting, execute,
  run,
}

abbrev pub receipt_at : String → List Operation → Option Operation
receipt_at = find (λ (o : Operation). o.operation_id)

module _ {F : Type 0} (op : String) (o : Operation) where
  -- The file holds the receipt `o` of the operation.
  abbrev pub HasReceipt : File F → Type 0
  HasReceipt none = ⊥
  HasReceipt (some d) = receipt_at op d.task_operations ≡ some o

  abbrev Keeps : {A : Type 0} → Action (File F) A → Type 0
  Keeps m = (file : File F) → HasReceipt file → HasReceipt (m file).1

  connection-Keeps :
      {A : Type 0} (body : Database F → Result (A × Database F))
      → ((d d' : Database F) (a : A)
          → body d ≡ ok (a, d')
          → HasReceipt (some d)
          → HasReceipt (some d'))
      → Keeps (connection body)
  unfolding connection
  connection-Keeps body keep none h = h
  connection-Keeps body keep (some d) h = elim (Result-cases (body d)) [
    | inl ((a, d'), e) ↦ rw (e, transaction) (keep d d' a e h)
    | inr (x, e) ↦ rw (e, transaction) h
  ]

  -- a transaction that does not write the receipts
  silent-Keeps :
      {A : Type 0} (body : Database F → Result (A × Database F))
      → ((d d' : Database F) (a : A) → body d ≡ ok (a, d') → d'.task_operations ≡ d.task_operations)
      → Keeps (connection body)
  silent-Keeps body silent = connection-Keeps body (λ d d' a e h. rw (silent d d' a e) h)

  check_first-Keeps :
      {A : Type 0} (check : Result (Unit {0})) (m : Action (File F) A)
      → Keeps m
      → Keeps (check_first check m)
  check_first-Keeps (ok _) m k file h = k file h
  check_first-Keeps (raised e) m k file h = h

  and_then-Keeps :
      {A B : Type 0} (m : Action (File F) A) (f : A → Action (File F) B)
      → Keeps m
      → ((a : A) → Keeps (f a))
      → Keeps (and_then m f)
  and_then-Keeps {A = A} m f h k file r = go (m file).0 (m file).1 (h file r)
    where
      go : (x : Result A) (u : File F) → HasReceipt u → HasReceipt (resume f x u).1
      go (ok a) u r' = k a u r'
      go (raised e) u r' = r'

  module _ (float : Float F) (run_id : String) where
    propose-Keeps : (operation title : String) → Keeps (propose run_id operation title)
    unfolding propose propose_body
    propose-Keeps operation title =
        check_first-Keeps
          (require_nonblank_string operation "operation_id"
            >> require_nonblank_string title "title")
          (connection (propose_body run_id operation title))
          (silent-Keeps (propose_body run_id operation title) (λ d d' p e. ground arith))

    proposal-Keeps : (operation : String) → Keeps (proposal operation)
    unfolding proposal
    proposal-Keeps operation =
        silent-Keeps (λ d. do p ← select_proposal d operation; ok (p, d)) (λ d d' p e. ground arith)

    change_revision-Keeps : Keeps change_revision
    unfolding change_revision
    change_revision-Keeps none h = h
    change_revision-Keeps (some d) h = h

    decide-Keeps :
        (operation : String) (approve : Bool) (ttl : F) (now : Option F) (clock : F)
        → Keeps (decide float run_id operation approve ttl now clock)
    unfolding decide decide_body
    decide-Keeps operation approve ttl now clock =
        let at : F = elim now [ none ↦ clock | some t ↦ t ] in
        check_first-Keeps
          (raise_if
            (not (float.is_finite at)
              || not (float.is_finite ttl)
              || not (float.ltb float.zero ttl && float.leb ttl float.hour))
            (value_error "Approval TTL must be positive and at most 3600 seconds"))
          (connection (decide_body float run_id operation approve ttl at))
          (silent-Keeps (decide_body float run_id operation approve ttl at)
            (λ d d' p e. ground arith))

    configure-Keeps :
        (title : String) (allow : Bool) (revision : ℕ)
        → Keeps (configure_request title allow revision)
    unfolding configure_request configure_body
    configure-Keeps title allow revision =
        check_first-Keeps (require_nonblank_string title "title")
          (connection (configure_body title allow revision))
          (silent-Keeps (configure_body title allow revision) (λ d d' p e. ground arith))

    -- Another operation's receipt comes before; the operation itself would clash with its own.
    commit_write-keeps :
        (uuid operation title : String) (now : F) (a : Authority) (reason : Reason)
        (d d' : Database F) (w : WriteDecision)
        → receipt_at operation d.task_operations ≡ none
        → commit_write float run_id uuid operation title now a reason d ≡ ok (w, d')
        → HasReceipt (some d)
        → HasReceipt (some d')
    unfolding commit_write find
    commit_write-keeps uuid operation title now a reason d d' w absent e h =
        ground (arith, eq_iff operation op)

    write_body-keeps :
        (uuid operation title : String) (enforce : Bool) (now : F) (d d' : Database F)
        (w : WriteDecision)
        → write_body float run_id uuid operation title enforce now d ≡ ok (w, d')
        → HasReceipt (some d)
        → HasReceipt (some d')
    unfolding write_body
    write_body-keeps uuid operation title enforce now d d' w e h =
        elim (Option-cases (receipt_at operation d.task_operations)) [
          | inr (r, there) ↦ ground arith
          | inl absent ↦
              let (p, here, h1) =
                >>=-eq-ok (select_proposal d operation) _ (rw (absent, write_body) at e) in
              let (a, owner, h2) = >>=-eq-ok (select_authority d run_id) _ h1 in
              let (reason, asked, h3) =
                >>=-eq-ok
                  (scoped d.request_policy d.authority d.tasks title
                    (grant_reason float run_id title now p a))
                  _ h2 in
              elim (Bool-cases (enforce && not (is_allowed reason))) [
                | inl denied ↦ ground arith
                | inr admitted ↦
                    commit_write-keeps uuid operation title now a reason d d' w absent
                      (rw admitted at h3) h
              ]
        ]

    write-Keeps :
        (uuid operation title : String) (enforce : Bool) (now : Option F) (clock : F)
        → Keeps (write float run_id uuid operation title enforce now clock)
    unfolding write
    write-Keeps uuid operation title enforce now clock =
        let at : F = elim now [ none ↦ clock | some t ↦ t ] in
        let body = write_body float run_id uuid operation title enforce at in
        check_first-Keeps (require_nonblank_string title "title" >> check_now float now)
          (connection body)
          (connection-Keeps body
            (λ d d' w e h. write_body-keeps uuid operation title enforce at d d' w e h))

    grant_pending-Keeps :
        (operation : String) (stale : Bool) (ttl clock : F) (request : RequestState)
        (p : Proposal F)
        → Keeps (grant_pending float run_id operation stale ttl clock request p)
    unfolding grant_pending grant_in_scope stale_body count_title
    grant_pending-Keeps operation true ttl clock request p =
        and_then-Keeps (connection (stale_body operation))
          (λ _. decide float run_id operation true ttl none clock)
          (silent-Keeps (stale_body operation) (λ d d' a e. ground arith))
          (λ _. decide-Keeps operation true ttl none clock)
    grant_pending-Keeps operation false ttl clock request p =
        and_then-Keeps (connection (count_title request.title))
          (grant_in_scope float run_id operation ttl clock request p)
          (silent-Keeps (count_title request.title) (λ d d' a e. ground arith))
          (λ existing.
            decide-Keeps operation
              (request.write_allowed && p.title == request.title && eqb existing 0) ttl none clock)

    grant_undecided-Keeps :
        (operation : String) (stale : Bool) (ttl clock : F) (request : RequestState)
        (p : Proposal F)
        → Keeps (grant_undecided float run_id operation stale ttl clock request p)
    unfolding grant_undecided
    grant_undecided-Keeps operation stale ttl clock request p =
        elim (Bool-cases (not (is_pending p.decision))) [
          | inl decided ↦ rw decided (λ file h. h)
          | inr open_still ↦ rw open_still (
              and_then-Keeps (grant_pending float run_id operation stale ttl clock request p)
                (λ _ s. (ok tt, s)) (grant_pending-Keeps operation stale ttl clock request p)
                (λ _ file h. h))
        ]

    scenario_grant-Keeps :
        (operation : String) (stale : Bool) (ttl clock : F)
        → Keeps (scenario_grant float run_id operation stale ttl clock)
    unfolding scenario_grant grant_requested
    scenario_grant-Keeps operation stale ttl clock =
        and_then-Keeps (λ s. (request_state s, s))
          (grant_requested float run_id operation stale ttl clock) (λ file h. h)
          (λ request.
            and_then-Keeps (proposal operation)
              (grant_undecided float run_id operation stale ttl clock request)
              (proposal-Keeps operation) (grant_undecided-Keeps operation stale ttl clock request))

    execute-Keeps :
        (c : Command F) (file : File F)
        → HasReceipt file
        → HasReceipt (execute float run_id c file).1
    unfolding execute
    execute-Keeps (proposing operation title) file h = propose-Keeps operation title file h
    execute-Keeps (reading operation) file h = proposal-Keeps operation file h
    execute-Keeps (deciding operation approve ttl now clock) file h =
        decide-Keeps operation approve ttl now clock file h
    execute-Keeps changing_revision file h = change_revision-Keeps file h
    execute-Keeps (writing uuid operation title enforce now clock) file h =
        write-Keeps uuid operation title enforce now clock file h
    execute-Keeps (configuring title allow revision) file h =
        configure-Keeps title allow revision file h
    execute-Keeps (granting operation stale ttl clock) file h =
        scenario_grant-Keeps operation stale ttl clock file h

    pub run-Keeps :
        (cs : List (Command F)) (file : File F)
        → HasReceipt file
        → HasReceipt (run float run_id cs file).1
    unfolding run
    run-Keeps [] file h = h
    run-Keeps (c ∷ cs) file h =
        run-Keeps cs (execute float run_id c file).1 (execute-Keeps c file h)
