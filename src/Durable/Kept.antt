-- ===== src/Durable/Kept.antt =====
-- What every part of the loop keeps: a journal in step with its file, a sound state, and the
-- configuration of the run.
use agent_fault_lab.Prelude.{
  ℕ, suc, ◌+◌, ◌-◌, ◌*◌, String, ◌≡◌, ◌⊎◌, refl, sym, ap, ◌∙◌, Bool, true, false, some, to_nat, inl,
  if◌then◌else◌,
}
use agent_fault_lab.Exceptions.{Exception, Result, ok, raised, Action, and_then, resume}
use agent_fault_lab.Float.{Float}
use agent_fault_lab.Json.{Fields}
use agent_fault_lab.Json.Equal.{calls_eq}
use agent_fault_lab.Model.{ToolCall, ModelTurn}
use agent_fault_lab.Agent.{Limits}
use agent_fault_lab.Execution.{ProcessConfig, ExecutionLimits, ExecutionState}
use agent_fault_lab.Journal.{
  RunState, Phase, model_phase, tools_phase, terminal_phase, Mode, Script, ModelSettings,
}
use agent_fault_lab.Journal.Sound.{IsSound, execution_sound, revalidate_sound}
use agent_fault_lab.Journal.Store.{EventKind, Identifiers, transition}
use agent_fault_lab.Journal.Store.Synced.{IsSynced, IsStorable, transition-recorded}
use agent_fault_lab.Durable.{Session, Platform, save, with_journal}

-- the twelve fields that no step changes
pub record Configuration (F : Type 0) : Type 0 where
  pub run_id : String
  pub compatibility : String
  pub config : ProcessConfig
  pub mode : Mode
  pub client : String
  pub provenance : Fields
  pub settings : ModelSettings F
  pub limits : Limits
  pub execution_limits : ExecutionLimits F
  pub request : String
  pub expected_title : String
  pub script : Script

abbrev pub configuration : {F : Type 0} → RunState F → Configuration F
configuration s = record {
  run_id = s.run_id;
  compatibility = s.compatibility;
  config = s.config;
  mode = s.mode;
  client = s.client;
  provenance = s.provenance;
  settings = s.settings;
  limits = s.limits;
  execution_limits = s.execution_limits;
  request = s.request;
  expected_title = s.expected_title;
  script = s.script;
}

-- what is left to do: a bound on the iterations of the loop
abbrev pub budget : {F : Type 0} → RunState F → ℕ
budget s =
    2 * (s.limits.max_model_calls - s.model_calls)
    + (s.limits.max_tool_calls - s.tool_calls)
    + to_nat s.tool_reserved

abbrev pub remaining : {F : Type 0} → Phase → RunState F → ℕ
remaining model_phase s = suc (budget s)
remaining tools_phase s = suc (suc (budget s))
remaining terminal_phase s = 0

abbrev pub measure : {F : Type 0} → RunState F → ℕ
measure s = remaining s.phase s

module _ {F W : Type 0} (float : Float F) where
  -- A session whose journal is in step with its file, sound, and of the configuration.
  abbrev pub IsHeld : Configuration F → Session F W → Type 0
  IsHeld c s =
      IsSynced s.journal × IsSound float s.journal.state × (configuration s.journal.state ≡ c)

  -- An exception that the platform raises: at a commit, for a sound state that it is asked to
  -- complete, or for a call that it is asked to supervise in a session that is held.
  abbrev pub MayRaise : Configuration F → Platform F W → Exception → Type 0
  MayRaise c platform e =
      ((w : W) × (w' : W) × (platform.alive w ≡ (raised e, w')))
      ⊎ ((state : RunState F) × (w : W) × (w' : W) × IsSound float state
          × (configuration state ≡ c)
          × (platform.complete state w ≡ (raised e, w')))
      ⊎ ((call : ToolCall) × (id : String) × (s : Session F W) × (s' : Session F W) × IsHeld c s
          × (s.journal.state.phase ≡ tools_phase)
          × (s.journal.state.tool_reserved ≡ true)
          × (platform.supervise call id s ≡ (raised e, s')))

  -- of a call that returned, or that raised what the platform raised
  abbrev pub OnOk :
      {A : Type 0}
      → Configuration F
      → Platform F W
      → (RunState F → Type 0)
      → Result A
      → RunState F
      → Type 0
  OnOk c platform Q (ok a) s = Q s
  OnOk c platform Q (raised e) s = MayRaise c platform e

  -- What the loop relies on: the supervisor changes nothing of the state but the execution, and
  -- keeps that within its limits; a response equals itself under Python's `==`.
  pub record IsReliable (platform : Platform F W) : Type 0 where
    pub supervised :
        (c : Configuration F) (call : ToolCall) (id : String) (s : Session F W)
        → IsHeld c s
        → let (r, s') = platform.supervise call id s in
          (e : ExecutionState F) × IsSynced s'.journal
          × (s'.journal.state ≡ record s.journal.state { execution = e })
          × (execution_sound float s.journal.state.execution_limits e ≡ true)
    pub self_equal :
        (state : RunState F) (w w' : W) (turn : ModelTurn)
        → platform.complete state w ≡ (ok turn, w')
        → calls_eq turn.tool_calls turn.tool_calls ≡ true

  module _ (platform : Platform F W) where
    -- an outcome that holds the session, and `Q` of the state where it returned
    abbrev pub Holds :
        {A : Type 0} → Configuration F → (RunState F → Type 0) → Result A × Session F W → Type 0
    Holds c Q (r, s) = IsHeld c s × OnOk c platform Q r s.journal.state

    pub and_then-Holds :
        {A B : Type 0} (c : Configuration F) (Q R : RunState F → Type 0)
        (m : Action (Session F W) A) (f : A → Action (Session F W) B) (s : Session F W)
        → Holds c Q (m s)
        → ((a : A) (s' : Session F W) → IsHeld c s' → Q s'.journal.state → Holds c R (f a s'))
        → Holds c R (and_then m f s)
    and_then-Holds {A = A} {B = B} c Q R m f s h k = go (m s) h
      where
        go : (p : Result A × Session F W) → Holds c Q p → Holds c R (resume f p.0 p.1)
        go (ok a, s') (held, q) = k a s' held q
        go (raised e, s') (held, q) = (held, q)

    -- A checkpoint of a sound state is stored, unless the process is killed before.
    pub save-Holds :
        (c : Configuration F) (state : RunState F) (kind : EventKind F) (ids : Identifiers)
        (s : Session F W)
        → IsHeld c s
        → IsSound float state
        → configuration state ≡ c
        → Holds c (λ z. z ≡ state) (save float platform state kind ids s)
    unfolding save
    save-Holds c state kind ids s (synced, sound, same) h k = go (platform.alive s.world) refl
      where
        go :
            (p : Result (Unit {0}) × W)
            → platform.alive s.world ≡ p
            → Holds {A = Unit {0}} c
                (λ z. z ≡ state)
                (elim p.0 [
                  | ok done ↦
                      with_journal float platform
                        (transition float (some state) kind ids s.journal)
                        p.1
                  | raised e ↦ (raised e, record s { world = p.1 })
                ])
        go (raised e, w) blame = ((synced, sound, same), inl (s.world, w, blame))
        go (ok done, w) blame =
            let storable : IsStorable float (some state) s.journal = (
              revalidate_sound float state h,
              ap (λ (z : Configuration F). z.run_id) (k ∙ sym same),
            ) in
            let (made, synced') =
              transition-recorded float (some state) kind ids s.journal synced storable in
            rw made ((synced', h, k), refl)

    pub weaken-Holds :
        {A : Type 0} (c : Configuration F) (Q R : RunState F → Type 0) (p : Result A × Session F W)
        → Holds c Q p
        → ((z : RunState F) → Q z → R z)
        → Holds c R p
    weaken-Holds c Q R (ok a, s) (held, q) k = (held, k s.journal.state q)
    weaken-Holds c Q R (raised e, s) (held, q) k = (held, q)

    pub if-Holds :
        {A : Type 0} (c : Configuration F) (Q : RunState F → Type 0) (b : Bool)
        (p q : Result A × Session F W)
        → (b ≡ true → Holds c Q p)
        → (b ≡ false → Holds c Q q)
        → Holds c Q (if b then p else q)
    if-Holds c Q true p q h k = h refl
    if-Holds c Q false p q h k = k refl
