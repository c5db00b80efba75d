-- ===== src/Supervision/Runs.antt =====
-- A durable run with the supervisor that it has: durable_run.py calls supervision.py, and both
-- write to one journal.
use agent_fault_lab.Prelude.{String, ◌≡◌, refl, ap, subst, true, false, List}
use agent_fault_lab.Exceptions.{ok}
use agent_fault_lab.Float.{Float}
use agent_fault_lab.Json.Equal.{calls_eq}
use agent_fault_lab.Model.{ToolCall, ModelTurn}
use agent_fault_lab.Pydantic.{Pydantic}
use agent_fault_lab.Execution.{ExecutionLimits, ExecutionState}
use agent_fault_lab.Journal.{RunState}
use agent_fault_lab.Journal.Sound.{execution_sound}
use agent_fault_lab.Journal.Store.{Journal, create_journal}
use agent_fault_lab.Journal.Store.Synced.{IsSynced}
use agent_fault_lab.Durable.{Session, Platform}
use agent_fault_lab.Durable.Kept.{Configuration, configuration, IsHeld, IsReliable}
use agent_fault_lab.Durable.Start.{Launch, IsLaunchable, first_state, first_state-IsHeld}
use agent_fault_lab.Durable.Restarts.{lives, Finishes, StopsQuietly, lives-Holds}
use agent_fault_lab.Supervision.{Workers}
use agent_fault_lab.Supervision.Execute.{execute}
use agent_fault_lab.Supervision.Worker.{stop_worker}
use agent_fault_lab.Supervision.Kept.Worker.{stop_worker-Keeps}
use agent_fault_lab.Supervision.Kept.Execute.{execute-IsRun}

-- Responses equal themselves under Python's `==`.
abbrev pub IsSelfEqual : {F W : Type 0} → Platform F W → Type 0
IsSelfEqual {F = F} {W = W} platform =
    (state : RunState F) (w w' : W) (turn : ModelTurn)
    → platform.complete state w ≡ (ok turn, w')
    → calls_eq turn.tool_calls turn.tool_calls ≡ true

module _ {F W : Type 0} (float : Float F) (platform : Platform F W) (workers : Workers F W)
    (pydantic : Pydantic) where
  -- the platform of `_drive`: its supervisor is `Supervisor`
  abbrev pub supervised_by : Platform F W
  supervised_by = record platform {
    supervise = execute float platform workers pydantic;
    stop_worker = stop_worker float platform workers;
  }

  supervised-law :
      (c : Configuration F) (call : ToolCall) (id : String) (s : Session F W)
      → IsHeld float c s
      → let (r, s') = execute float platform workers pydantic call id s in
        (e : ExecutionState F) × IsSynced s'.journal
        × (s'.journal.state ≡ record s.journal.state { execution = e })
        × (execution_sound float s.journal.state.execution_limits e ≡ true)
  supervised-law c call id s held =
      let z = s.journal.state in
      let (held', same) =
        execute-IsRun float c z platform workers pydantic call id s (held, refl) in
      let s' = (execute float platform workers pydantic call id s).1 in
      let e = s'.journal.state.execution in
      (
        e,
        held'.0,
        same,
        subst (λ (l : ExecutionLimits F). execution_sound float l e ≡ true)
            (ap (λ (y : RunState F). y.execution_limits) same) held'.1.2,
      )

  supervised_by-IsReliable : IsSelfEqual platform → IsReliable float supervised_by
  supervised_by-IsReliable self = record { supervised = supervised-law; self_equal = self }

  supervised_by-StopsQuietly : StopsQuietly float supervised_by
  supervised_by-StopsQuietly c s held =
      stop_worker-Keeps float c s.journal.state platform workers s (held, refl)

  pub lives-Finishes :
      (c : Configuration F) (others : List (String × W)) (s : Session F W)
      → IsSelfEqual platform
      → IsHeld float c s
      → Finishes float supervised_by c (lives float supervised_by 20 false others s)
  lives-Finishes c others s self held =
      lives-Holds float supervised_by c false others s (supervised_by-IsReliable self)
        supervised_by-StopsQuietly held

  -- A run whose responses equal themselves under `==`, that is started with limits and a
  -- configuration that their validators accept, and resumed by any processes `others`, each of which
  -- may be killed at any commit: every process that resumes it opens the journal that the last one
  -- left, every loop ends within twenty iterations, and the last process ends, in a session that is
  -- held, with the configuration of the start. It ends with a result that the run's counts and budgets
  -- explain, or with an exception that came from a commit, from the model for a sound state, or from
  -- the supervisor, for a call of a held session or at the stopping of its worker.
  pub run-Finishes :
      (l : Launch F) (session_id : String) (w : W) (others : List (String × W))
      → IsSelfEqual platform
      → IsLaunchable float l
      → (j : Journal F) × (create_journal float session_id (first_state float l) ≡ ok j)
        × Finishes float supervised_by
            (configuration (first_state float l))
            (lives float supervised_by 20 false others (record { journal = j; world = w }))
  run-Finishes l session_id w others self valid =
      let (j, made, held) = first_state-IsHeld float l session_id w valid in
      let c = configuration (first_state float l) in
      (j, made, lives-Finishes c others (record { journal = j; world = w }) self held)
