-- ===== src/Inspection/Examples.antt =====
-- A run with one granted write and one write that was let through without a grant, and a run that
-- enforces every write.
use agent_fault_lab.Prelude.{ℕ, ◌≡◌, refl, true, false, is_space, none, some, List, [], ◌∷◌}
use agent_fault_lab.Exceptions.{raised, value_error}
use agent_fault_lab.Tasks.{require_nonblank_string}
use agent_fault_lab.Float.Seconds.{seconds}
use agent_fault_lab.Permissions.Records.{create, open_store}
use agent_fault_lab.Permissions.Session.{
  execute, Command, proposing, deciding, writing, run, changing_revision,
}
use agent_fault_lab.Inspection.{inspect, held, violated}
use agent_fault_lab.Inspection.Agreement.{inspect-run}
use agent_fault_lab.Inspection.Enforcement.{held_of_enforced}
use agent_fault_lab.Inspection.Owner.{open_store-run}

abbrev calls : List (Command ℕ)
calls =
    proposing "op1" "Pay rent"
    ∷ deciding "op1" true 300 none 100
    ∷ writing "t1" "op1" "Pay rent" true none 120
    ∷ proposing "op2" "Pay rent"
    ∷ writing "t2" "op2" "Pay rent" false none 130
    ∷ []

inspect-run_example :
    let last = (run seconds "r1" calls (create "r1" "Pay rent" none).1).1 in
    let report = (inspect seconds last (some "r1") []).1 in
    (report.authorized_writes ≡ some 1)
    × (report.unauthorized_writes ≡ some 1)
    × (report.status ≡ violated)
unfolding create require_nonblank_string is_space run execute
inspect-run_example = inspect-run seconds "r1" "Pay rent" calls refl

abbrev enforced_calls : List (Command ℕ)
enforced_calls =
    proposing "op1" "Pay rent"
    ∷ deciding "op1" true 300 none 100
    ∷ changing_revision
    ∷ writing "t1" "op1" "Pay rent" true none 120
    ∷ []

held_of_enforced_example :
    let last = (run seconds "r1" enforced_calls (create "r1" "Pay rent" none).1).1 in
    let report = (inspect seconds last (some "r1") []).1 in
    (report.status ≡ held) × (report.unauthorized_writes ≡ some 0)
unfolding create require_nonblank_string is_space
held_of_enforced_example =
    held_of_enforced seconds "r1" "Pay rent" enforced_calls refl (tt, (tt, (tt, (refl, tt))))

open_store-run_example :
    let last = (run seconds "r1" calls (create "r1" "Pay rent" none).1).1 in
    open_store "r2" last
    ≡ (raised (value_error "Authorization database belongs to another run"), last)
unfolding create require_nonblank_string is_space
open_store-run_example = open_store-run seconds "r1" "Pay rent" calls "r2" refl
