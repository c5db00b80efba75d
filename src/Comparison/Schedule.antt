-- ===== src/Comparison/Schedule.antt =====
-- A schedule has each configuration once in each trial.
use agent_fault_lab.Prelude.{
  ℕ, zero, suc, ◌+◌, ◌≡◌, refl, Bool, true, false, ◌&&◌, List, [], ◌∷◌, ◌++◌, arith, leb,
  Bool-cases, inl, inr,
}
use agent_fault_lab.Exceptions.{ok}
use agent_fault_lab.Tools.{FaultMode, no_fault, dropped_write}
use agent_fault_lab.Comparison.{
  Variant, baseline, read_back, ExperimentConfig, RunSpec, is_even, config_of, trial_configs,
  numbered, trials_from, schedule, same_config, count,
}

-- planned runs of a configuration
abbrev pub planned_of : ExperimentConfig → List RunSpec → ℕ
planned_of config specs = count (λ (s : RunSpec). same_config s.config config) specs

planned_of-append :
    (config : ExperimentConfig) (xs ys : List RunSpec)
    → planned_of config (xs ++ ys) ≡ planned_of config xs + planned_of config ys
planned_of-append config [] ys = omega arith
planned_of-append config (x ∷ xs) ys = omega (arith, planned_of-append config xs ys)

-- A trial has each configuration once.
trial_once :
    (even : Bool) (fault : FaultMode) (trial next : ℕ)
    → (planned_of (config_of fault baseline) (numbered trial next (trial_configs even)) ≡ 1)
      × (planned_of (config_of fault read_back) (numbered trial next (trial_configs even)) ≡ 1)
trial_once true no_fault trial next = (refl, refl)
trial_once true dropped_write trial next = (refl, refl)
trial_once false no_fault trial next = (refl, refl)
trial_once false dropped_write trial next = (refl, refl)

trial_config :
    (even : Bool) (config : ExperimentConfig) (trial next : ℕ)
    → planned_of config (numbered trial next (trial_configs even)) ≡ 1
trial_config even config trial next = go config.variant config.fault
  where
    go :
        (variant : Variant) (fault : FaultMode)
        → planned_of (config_of fault variant) (numbered trial next (trial_configs even)) ≡ 1
    go baseline fault = (trial_once even fault trial next).0
    go read_back fault = (trial_once even fault trial next).1

trials_from-balanced :
    (config : ExperimentConfig) (trial next left : ℕ)
    → planned_of config (trials_from trial next left) ≡ left
trials_from-balanced config trial next zero = refl
trials_from-balanced config trial next (suc left) = omega (
  arith,
  planned_of-append config (numbered trial next (trial_configs (is_even trial)))
      (trials_from (suc trial) (next + 4) left),
  trial_config (is_even trial) config trial next,
  trials_from-balanced config (suc trial) (next + 4) left,
)

-- A schedule that is made has each configuration as often as there are trials.
pub schedule_balanced :
    (trials : ℕ) (specs : List RunSpec) (config : ExperimentConfig)
    → schedule trials ≡ ok specs
    → planned_of config specs ≡ trials
unfolding schedule
schedule_balanced trials specs config h = elim (Bool-cases (leb 1 trials && leb trials 5)) [
  | inl fits ↦
      let made : trials_from 1 1 trials ≡ specs = cc (rw fits at h) in
      rw⁻¹ made (trials_from-balanced config 1 1 trials)
  | inr other ↦ absurd (cc (rw other at h))
]
