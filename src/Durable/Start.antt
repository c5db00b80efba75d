-- ===== src/Durable/Start.antt =====
-- durable_run.py, `run_process` up to its first event: the state that a run begins with. `prompt`
-- is the system prompt.
use agent_fault_lab.Prelude.{
  ◌≤◌, String, ◌≡◌, refl, sym, ap, subst, true, false, none, [], ◌∷◌, arith,
}
use agent_fault_lab.Exceptions.{ok}
use agent_fault_lab.Float.{Float}
use agent_fault_lab.Json.{Fields}
use agent_fault_lab.Model.{system, user}
use agent_fault_lab.Agent.{Limits, text_message}
use agent_fault_lab.Execution.{
  has_policy, policies_for, ProcessConfig, ExecutionLimits, limits_valid, execution_valid,
}
use agent_fault_lab.Journal.{RunState, Mode, Script, ModelSettings, model_phase, settings_valid}
use agent_fault_lab.Journal.Sound.{IsSound, revalidate_sound}
use agent_fault_lab.Journal.Store.{Journal, create_journal}
use agent_fault_lab.Journal.Store.Synced.{create_journal-IsSynced}
use agent_fault_lab.Durable.Kept.{configuration, IsHeld}

abbrev pub title : String
title = "Review the invoice"

abbrev pub task_request : String
task_request = "Create a task with the exact title \"Review the invoice\"."

-- what a run is started with
pub record Launch (F : Type 0) : Type 0 where
  pub run_id : String
  pub compatibility : String
  pub config : ProcessConfig
  pub mode : Mode
  pub client : String
  pub provenance : Fields
  pub limits : Limits
  pub execution_limits : ExecutionLimits F
  pub script : Script
  pub prompt : String

module _ {F : Type 0} (float : Float F) where
  -- `ModelSettings()`
  abbrev pub default_settings : ModelSettings F
  default_settings = record {
    model = "qwen3:4b-instruct-2507-q4_K_M";
    temperature = float.zero;
    context_tokens = 4096;
    max_output_tokens = 512;
    request_timeout_seconds = float.tenths 600;
  }

  unfoldable pub first_state : Launch F → RunState F
  first_state l = record {
    run_id = l.run_id;
    compatibility = l.compatibility;
    config = l.config;
    mode = l.mode;
    client = l.client;
    provenance = l.provenance;
    settings = default_settings;
    limits = l.limits;
    execution_limits = l.execution_limits;
    request = task_request;
    expected_title = title;
    script = l.script;
    script_cursor = 0;
    messages = text_message system l.prompt ∷ text_message user task_request ∷ [];
    last_turn = none;
    phase = model_phase;
    pending = [];
    tool_cursor = 0;
    tool_reserved = false;
    model_calls = 0;
    tool_calls = 0;
    tool_executions = 0;
    execution = record { total_attempts = 0; fault_cursor = 0; active = none };
    terminal = none;
    evaluation = none;
    finalized = false;
  }

  -- limits and a configuration that their validators accept
  abbrev pub IsLaunchable : Launch F → Type 0
  IsLaunchable l =
      (settings_valid float default_settings ≡ true)
      × (limits_valid float l.execution_limits ≡ true)
      × ((1 ≤ l.limits.max_model_calls) × (l.limits.max_model_calls ≤ 6))
      × ((1 ≤ l.limits.max_tool_calls) × (l.limits.max_tool_calls ≤ 6))
      × (has_policy l.config.policy (policies_for l.config.case) ≡ true)

  pub first_state-IsSound : (l : Launch F) → IsLaunchable l → IsSound float (first_state l)
  unfolding first_state execution_valid
  first_state-IsSound l h = (
    h,
    (omega arith, omega arith, omega arith, omega arith),
    ground arith,
    (refl, refl, refl, (refl, refl, refl)),
  )

  -- The journal of a new run is created, and its session is held.
  pub first_state-IsHeld :
      {W : Type 0} (l : Launch F) (session_id : String) (w : W)
      → IsLaunchable l
      → (j : Journal F) × (create_journal float session_id (first_state l) ≡ ok j)
        × IsHeld float (configuration (first_state l)) (record { journal = j; world = w })
  first_state-IsHeld {W = W} l session_id w h =
      let sound = first_state-IsSound l h in
      let (j, made, same, synced) =
        create_journal-IsSynced float session_id (first_state l)
          (revalidate_sound float (first_state l) sound) in
      (j, made, (synced, subst (IsSound float) (sym same) sound, ap configuration same))
