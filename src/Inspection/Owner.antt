-- ===== src/Inspection/Owner.antt =====
-- The run of an authorization database: permissions.py, `PermissionStore.__init__`, after any calls.
use agent_fault_lab.Prelude.{
  ℕ, ◌+◌, String, ◌≡◌, refl, ap, ◌∙◌, subst, not, true, false, Bool, List, none, some, [], ◌∷◌,
  ◌==◌, if◌then◌else◌,
}
use agent_fault_lab.Exceptions.{value_error, Result, ok, raised, raise_if, ◌>>◌}
use agent_fault_lab.Sql.{transaction}
use agent_fault_lab.Float.{Float}
use agent_fault_lab.Permissions.Records.{
  Database, File, Authority, create, open_store, owned_by, connection,
}
use agent_fault_lab.Permissions.Session.{Command, run}
use agent_fault_lab.Inspection.WriteStep.{authorized_write, unauthorized_write}
use agent_fault_lab.Inspection.Invariant.{IsOwned, Agrees}
use agent_fault_lab.Inspection.Calls.{Holds}
use agent_fault_lab.Inspection.Agreement.{total, run-Counted, created-Counted}

module _ {F : Type 0} (float : Float F) (run_id : String) where
  -- what the opening for a run answers
  abbrev pub answer : String → Result (Unit {0})
  answer other =
      if run_id == other
      then ok tt
      else raised (value_error "Authorization database belongs to another run")

  owned_by-IsOwned :
      (other : String) (rows : List Authority)
      → IsOwned run_id rows
      → owned_by other rows ≡ answer other
  owned_by-IsOwned other [] owned = elim owned [ ]
  owned_by-IsOwned other (a ∷ b ∷ rows) owned = elim owned [ ]
  owned_by-IsOwned other (a ∷ []) owned =
      subst
        (λ r. owned_by other (a ∷ []) ≡ (
          if r == other
          then ok tt
          else raised (value_error "Authorization database belongs to another run")))
        owned (go (a.run_id == other))
    where
      go :
          (b : Bool)
          → raise_if (not b) (value_error "Authorization database belongs to another run") ≡ (
              if b
              then ok tt
              else raised (value_error "Authorization database belongs to another run"))
      go true = refl
      go false = refl

  open_store-IsOwned :
      (other : String) (d : Database F)
      → IsOwned run_id d.authority
      → open_store other (some d) ≡ (answer other, some d)
  unfolding open_store connection transaction
  open_store-IsOwned other d owned =
      go (owned_by other d.authority)
      ∙ ap (λ r. (r, some d)) (owned_by-IsOwned other d.authority owned)
    where
      go :
          (r : Result (Unit {0}))
          → let p = transaction (λ (_ : Database F). r >> ok (tt, d)) d in
            ◌≡◌ {A = Result (Unit {0}) × File F} (p.0, some p.1) (r, some d)
      go (ok done) = refl
      go (raised e) = refl

  opened_after :
      (other : String) (file : File F) (good bad : ℕ)
      → Holds (λ d. Agrees float run_id d good bad) file
      → open_store other file ≡ (answer other, file)
  opened_after other none good bad h = elim h [ ]
  opened_after other (some d) good bad h = open_store-IsOwned other d h.owned

  -- A database that was made for a run, after any calls of the run's store, opens as the store of
  -- that run, and of no other run: there it raises. The opening changes nothing.
  pub open_store-run :
      (title : String) (commands : List (Command F)) (other : String)
      → (create {F = F} run_id title none).0 ≡ ok tt
      → let last = (run float run_id commands (create run_id title none).1).1 in
        open_store other last ≡ (
          if run_id == other
              then ok tt
              else raised (value_error "Authorization database belongs to another run"),
          last,
        )
  open_store-run title commands other h =
      let (ws, last) = run float run_id commands (create run_id title none).1 in
      opened_after other last (0 + total authorized_write ws) (0 + total unauthorized_write ws) (
        run-Counted float run_id commands (create run_id title none).1 0 0
          (created-Counted float run_id title h))
