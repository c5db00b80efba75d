-- ===== src/Permissions/Examples.antt =====
-- A write that is repeated long after its grant has expired.
use agent_fault_lab.Prelude.{ℕ, List, false, ◌≡◌, refl, true, none, some, [], ◌∷◌, is_space}
use agent_fault_lab.Exceptions.{ok}
use agent_fault_lab.Tasks.{require_nonblank_string}
use agent_fault_lab.Float.Seconds.{seconds}
use agent_fault_lab.Permissions.Records.{File, create}
use agent_fault_lab.Permissions.Session.{
  Command, proposing, deciding, changing_revision, writing, execute, run,
}
use agent_fault_lab.Permissions.Writes.{write}
use agent_fault_lab.Permissions.Replay.{write_replay, replay_of}

abbrev granted : File ℕ
granted =
    (run seconds "r1" (proposing "op1" "Pay rent" ∷ deciding "op1" true 300 none 100 ∷ [])
      (create "r1" "Pay rent" none).1).1

abbrev written : File ℕ
written = (write seconds "r1" "t1" "op1" "Pay rent" true none 120 granted).1

-- the policy moves on, and another operation is proposed and written
abbrev between : List (Command ℕ)
between =
    changing_revision
    ∷ proposing "op2" "Pay rent"
    ∷ writing "t2" "op2" "Pay rent" false none 130
    ∷ []

write_replay_example :
    write seconds "r1" "t9" "op1" "Pay rent" true
      (some 9000)
      120
      (run seconds "r1" between written).1
    ≡ (
      ok (replay_of seconds (record { id = "t1"; title = "Pay rent" })),
      (run seconds "r1" between written).1,
    )
unfolding create require_nonblank_string is_space run execute write
write_replay_example =
    write_replay seconds "r1" "t1" "op1" "Pay rent" true none 120 granted written _ _ between "t9"
      true (some 9000) 120 refl refl refl
