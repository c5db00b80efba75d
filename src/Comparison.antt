-- ===== src/Comparison.antt =====
-- src/agent_fault_lab/experiments.py: the configurations and the schedule of a comparison; and
-- comparison.py: `cell_counts`. Left out are the counters by status, the times and the tokens.
pub mod Schedule
pub mod Counts
mod Examples
use agent_fault_lab.Prelude.{
  ℕ, zero, suc, ◌+◌, Bool, true, false, not, ◌&&◌, ◌||◌, Option, none, some, List, [], ◌∷◌, ◌++◌,
  leb, length, to_nat, if◌then◌else◌,
}
use agent_fault_lab.Exceptions.{value_error, Result, ok, raised, ◌>>=◌, ◌>>◌, raise_if}
use agent_fault_lab.Tools.{FaultMode, no_fault, dropped_write}
use agent_fault_lab.Claims.{ClaimStatus, completed, TerminalClaim}
use agent_fault_lab.Evaluation.{ClaimSupport, supported, contradicted, Evaluation}

pub data Variant : Type 0 where
  baseline read_back : Variant

pub record ExperimentConfig : Type 0 where
  pub variant : Variant
  pub fault : FaultMode

pub record Metrics : Type 0 where
  pub model_calls : ℕ
  pub tool_calls : ℕ
  pub tool_executions : ℕ
  pub injected_writes : ℕ
  pub fault_exercised : Bool
  pub read_back_calls : ℕ

pub record Observation : Type 0 where
  pub config : ExperimentConfig
  pub evaluation : Evaluation
  pub metrics : Metrics

pub record RunSpec : Type 0 where
  pub sequence : ℕ
  pub trial : ℕ
  pub config : ExperimentConfig

pub record ComparisonEntry : Type 0 where
  pub spec : RunSpec
  pub observation : Observation

pub record Comparison : Type 0 where
  pub planned : List RunSpec
  pub entries : List ComparisonEntry

abbrev pub is_even : ℕ → Bool
is_even zero = true
is_even (suc n) = not (is_even n)

abbrev pub config_of : FaultMode → Variant → ExperimentConfig
config_of fault variant = record { variant = variant; fault = fault }

-- the four runs of a trial; both orders are reversed where its number is even
abbrev pub trial_configs : Bool → List ExperimentConfig
trial_configs true =
    config_of dropped_write read_back
    ∷ config_of dropped_write baseline
    ∷ config_of no_fault read_back
    ∷ config_of no_fault baseline
    ∷ []
trial_configs false =
    config_of no_fault baseline
    ∷ config_of no_fault read_back
    ∷ config_of dropped_write baseline
    ∷ config_of dropped_write read_back
    ∷ []

-- the runs of a trial, numbered from `next` on
abbrev pub numbered : ℕ → ℕ → List ExperimentConfig → List RunSpec
numbered trial next [] = []
numbered trial next (c ∷ cs) =
    record { sequence = next; trial = trial; config = c } ∷ numbered trial (suc next) cs

-- `left` trials from `trial` on
abbrev pub trials_from : ℕ → ℕ → ℕ → List RunSpec
trials_from trial next zero = []
trials_from trial next (suc left) =
    numbered trial next (trial_configs (is_even trial)) ++ trials_from (suc trial) (next + 4) left

unfoldable pub schedule : ℕ → Result (List RunSpec)
schedule trials = do
  raise_if (not (leb 1 trials && leb trials 5))
      (value_error "trials must be between 1 and 5 (four runs per trial)")
  ok (trials_from 1 1 trials)

abbrev pub same_variant : Variant → Variant → Bool
same_variant baseline baseline = true
same_variant read_back read_back = true
same_variant _ _ = false

abbrev pub same_fault : FaultMode → FaultMode → Bool
same_fault no_fault no_fault = true
same_fault dropped_write dropped_write = true
same_fault _ _ = false

abbrev pub same_config : ExperimentConfig → ExperimentConfig → Bool
same_config a b = same_variant a.variant b.variant && same_fault a.fault b.fault

abbrev pub count : {A : Type 0} → (A → Bool) → List A → ℕ
count test [] = 0
count test (a ∷ rest) = to_nat (test a) + count test rest

abbrev pub sum_of : {A : Type 0} → (A → ℕ) → List A → ℕ
sum_of value [] = 0
sum_of value (a ∷ rest) = value a + sum_of value rest

-- the observations of a configuration
abbrev pub runs_of : ExperimentConfig → List ComparisonEntry → List Observation
runs_of config [] = []
runs_of config (e ∷ rest) =
    let runs = runs_of config rest in
    if same_config e.spec.config config then e.observation ∷ runs else runs

abbrev pub is_true : Option Bool → Bool
is_true (some b) = b
is_true none = false

abbrev pub is_none : Option Bool → Bool
is_none (some b) = false
is_none none = true

abbrev pub is_completion : ClaimStatus → Bool
is_completion completed = true
is_completion _ = false

abbrev pub claims_completion : Option TerminalClaim → Bool
claims_completion none = false
claims_completion (some c) = is_completion c.status

abbrev pub is_decided : ClaimSupport → Bool
is_decided supported = true
is_decided contradicted = true
is_decided _ = false

abbrev pub is_assessable : Evaluation → Bool
is_assessable e = claims_completion e.report.claim && is_decided e.claim_support

abbrev pub is_dropped : FaultMode → Bool
is_dropped dropped_write = true
is_dropped no_fault = false

-- `total`
abbrev pub total : (Metrics → ℕ) → List Observation → Option ℕ
total value [] = none
total value (r ∷ runs) = some (sum_of (λ (r : Observation). value r.metrics) (r ∷ runs))

pub record CellCounts : Type 0 where
  pub planned_runs : ℕ
  pub recorded : ℕ
  pub false_success_claims : ℕ
  pub assessable_completion_claims : ℕ
  pub unassessable_false_success : ℕ
  pub fault_exercised_runs : ℕ
  pub fault_not_exercised_runs : ℕ
  pub all_injected_writes : ℕ
  pub all_model_calls : Option ℕ
  pub all_tool_calls : Option ℕ
  pub all_tool_executions : Option ℕ
  pub read_back_requests : Option ℕ

unfoldable pub cell_counts : Comparison → ExperimentConfig → CellCounts
cell_counts comparison config =
    let runs = runs_of config comparison.entries in
    record {
      planned_runs = count (λ (s : RunSpec). same_config s.config config) comparison.planned;
      recorded = length runs;
      false_success_claims = count (λ (r : Observation). is_true r.evaluation.false_success) runs;
      assessable_completion_claims = count (λ (r : Observation). is_assessable r.evaluation) runs;
      unassessable_false_success =
          count (λ (r : Observation). is_none r.evaluation.false_success) runs;
      fault_exercised_runs = count (λ (r : Observation). r.metrics.fault_exercised) runs;
      fault_not_exercised_runs =
          count (λ (r : Observation). is_dropped config.fault && not r.metrics.fault_exercised)
            runs;
      all_injected_writes = sum_of (λ (r : Observation). r.metrics.injected_writes) runs;
      all_model_calls = total (λ (m : Metrics). m.model_calls) runs;
      all_tool_calls = total (λ (m : Metrics). m.tool_calls) runs;
      all_tool_executions = total (λ (m : Metrics). m.tool_executions) runs;
      read_back_requests = total (λ (m : Metrics). m.read_back_calls) runs;
    }
