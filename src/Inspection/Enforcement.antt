-- ===== src/Inspection/Enforcement.antt =====
-- What enforcement promises, as the inspection sees it.
use agent_fault_lab.Prelude.{
  String, ◌≡◌, refl, ap, ◌∙◌, Bool, true, Option, none, some, List, [], ◌∷◌, arith, eqb,
  if◌then◌else◌, All, inl, inr,
}
use agent_fault_lab.Exceptions.{Result, ok, raised, Result-cases, check_first, ◌>>◌}
use agent_fault_lab.Sql.{transaction}
use agent_fault_lab.Tasks.{require_nonblank_string}
use agent_fault_lab.Float.{Float}
use agent_fault_lab.Permissions.Records.{File, create, connection}
use agent_fault_lab.Permissions.Writes.{write, write_body, check_now}
use agent_fault_lab.Permissions.Session.{
  Command, changing_revision, writing, execute, run, decision_of,
}
use agent_fault_lab.Inspection.{inspect, held, violated}
use agent_fault_lab.Inspection.WriteStep.{unauthorized_write, unauthorized_write-enforced}
use agent_fault_lab.Inspection.Agreement.{tally, total, inspect-run}

-- a call that does not write, or one that writes under `enforce=True`
abbrev pub IsEnforced : {F : Type 0} → Command F → Type 0
IsEnforced (writing uuid op title enforce now clock) = enforce ≡ true
IsEnforced _ = Unit

module _ {F : Type 0} (float : Float F) (run_id : String) where
  write_enforced :
      (uuid op title : String) (enforce : Bool) (now : Option F) (clock : F) (file : File F)
      → enforce ≡ true
      → tally unauthorized_write
          (decision_of (write float run_id uuid op title enforce now clock file).0)
        ≡ 0
  unfolding write connection
  write_enforced uuid op title enforce now clock file h =
      checked (require_nonblank_string title "title" >> check_now float now) file
    where
      at : F
      at = elim now [ none ↦ clock | some t ↦ t ]

      body :
          (file : File F)
          → tally unauthorized_write
              (decision_of (connection (write_body float run_id uuid op title enforce at) file).0)
            ≡ 0
      body none = refl
      body (some d) = elim (Result-cases (write_body float run_id uuid op title enforce at d)) [
        | inl ((w, d'), e) ↦
            rw (e, transaction)
              (unauthorized_write-enforced float run_id uuid op title enforce at d d' w h e)
        | inr (x, e) ↦ rw (e, transaction)
      ]

      checked :
          (check : Result (Unit {0})) (file : File F)
          → tally unauthorized_write (
              decision_of
                (check_first check
                  (connection (write_body float run_id uuid op title enforce at))
                  file).0)
            ≡ 0
      checked (ok _) file = body file
      checked (raised e) file = refl

  execute_enforced :
      (c : Command F) (file : File F)
      → IsEnforced c
      → tally unauthorized_write (execute float run_id c file).0 ≡ 0
  unfolding execute
  execute_enforced (writing uuid op title enforce now clock) file h =
      write_enforced uuid op title enforce now clock file h
  execute_enforced changing_revision file h = refl
  execute_enforced _ file h = refl

  total_enforced :
      (cs : List (Command F)) (file : File F)
      → All IsEnforced cs
      → total unauthorized_write (run float run_id cs file).0 ≡ 0
  unfolding run
  total_enforced [] file h = refl
  total_enforced (c ∷ cs) file h =
      omega
        (arith, execute_enforced c file h.0, total_enforced cs (execute float run_id c file).1 h.1)

  -- If every write is enforced, the inspection of a new database reports `held` after any calls, and
  -- no unauthorized write.
  pub held_of_enforced :
      (title : String) (cs : List (Command F))
      → (create {F = F} run_id title none).0 ≡ ok tt
      → All IsEnforced cs
      → let last = (run float run_id cs (create run_id title none).1).1 in
        let a = (inspect float last (some run_id) []).1 in
        (a.status ≡ held) × (a.unauthorized_writes ≡ some 0)
  held_of_enforced title cs h enforced =
      let none_bad = total_enforced cs (create run_id title none).1 enforced in
      let r = inspect-run float run_id title cs h in
      (r.2 ∙ ap (λ k. if eqb k 0 then held else violated) none_bad, r.1 ∙ ap some none_bad)
