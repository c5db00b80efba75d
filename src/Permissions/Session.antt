-- ===== src/Permissions/Session.antt =====
-- The calls that an experiment makes on one authorization database, in any order.
use agent_fault_lab.Prelude.{ℕ, String, Bool, Option, none, some, List, [], ◌∷◌}
use agent_fault_lab.Exceptions.{Result, ok, raised}
use agent_fault_lab.Float.{Float}
use agent_fault_lab.Permissions.Records.{File, WriteDecision}
use agent_fault_lab.Permissions.Grants.{propose, proposal, decide, change_revision}
use agent_fault_lab.Permissions.Writes.{write}
use agent_fault_lab.Permissions.Requests.{configure_request, scenario_grant}

-- A method of `PermissionStore` with its arguments; a write carries the identifier that `uuid4()`
-- returns, and a call that reads the time carries the reading.
pub data Command (F : Type 0) : Type 0 where
  proposing : String → String → Command F
  reading : String → Command F
  deciding : String → Bool → F → Option F → F → Command F
  changing_revision : Command F
  writing : String → String → String → Bool → Option F → F → Command F
  configuring : String → Bool → ℕ → Command F
  granting : String → Bool → F → F → Command F

abbrev pub decision_of : Result WriteDecision → Option WriteDecision
decision_of (ok w) = some w
decision_of (raised _) = none

module _ {F : Type 0} (float : Float F) (run_id : String) where
  -- the decision of a write that returned, and the file
  unfoldable pub execute : Command F → File F → Option WriteDecision × File F
  unfolding propose proposal decide change_revision write configure_request scenario_grant
  execute (proposing operation_id title) file = (none, (propose run_id operation_id title file).1)
  execute (reading operation_id) file = (none, (proposal operation_id file).1)
  execute (deciding operation_id approve ttl now clock) file =
      (none, (decide float run_id operation_id approve ttl now clock file).1)
  execute changing_revision file = (none, (change_revision file).1)
  execute (writing uuid operation_id title enforce now clock) file =
      let (r, file') = write float run_id uuid operation_id title enforce now clock file in
      (decision_of r, file')
  execute (configuring title write_allowed revision) file =
      (none, (configure_request title write_allowed revision file).1)
  execute (granting operation_id stale default_ttl clock) file =
      (none, (scenario_grant float run_id operation_id stale default_ttl clock file).1)

  -- A call that raises ends alone: the next one finds the file that it left.
  unfoldable pub run : List (Command F) → File F → List (Option WriteDecision) × File F
  run [] file = ([], file)
  run (c ∷ cs) file =
      let (w, file') = execute c file in let (ws, last) = run cs file' in (w ∷ ws, last)
