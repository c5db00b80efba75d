-- ===== src/Comparison/Counts.antt =====
-- The counts of a comparison: over all cells they add up to what was recorded, and no run is counted
-- as a false success whose claim could not be assessed.
use agent_fault_lab.Prelude.{
  ℕ, ◌+◌, ◌≤◌, String, ◌≡◌, refl, Bool, true, false, not, ◌&&◌, Option, none, some, List, [], ◌∷◌,
  All, arith, length, to_nat, Bool-cases, inl, inr, if◌then◌else◌,
}
use agent_fault_lab.Exceptions.{ok}
use agent_fault_lab.Tasks.{Task, File}
use agent_fault_lab.Tools.{FaultMode, no_fault, dropped_write}
use agent_fault_lab.Json.{Decoded}
use agent_fault_lab.Pydantic.{Pydantic}
use agent_fault_lab.Model.{RunResult}
use agent_fault_lab.Claims.{
  ClaimStatus, completed, not_completed, unknown, TerminalClaim, ReportStatus, valid, invalid,
  absent, terminal_report,
}
use agent_fault_lab.Evaluation.{
  inspect_state, supported, contradicted, TaskOutcome, task_completed, task_missing, task_unknown,
  Evaluation, names_task, grade_completion, grade_assertion, grade_claim, grade_task, evaluate_run,
}
use agent_fault_lab.Evaluation.Grades.{evaluate_run-parts}
use agent_fault_lab.Comparison.{
  Variant, is_completion, baseline, read_back, ExperimentConfig, Observation, ComparisonEntry,
  Comparison, config_of, same_config, count, runs_of, is_true, is_none, claims_completion,
  is_decided, is_assessable, cell_counts,
}

runs_of-length :
    (config : ExperimentConfig) (e : ComparisonEntry) (rest : List ComparisonEntry)
    → length (runs_of config (e ∷ rest))
      ≡ to_nat (same_config e.spec.config config) + length (runs_of config rest)
runs_of-length config e rest = elim (Bool-cases (same_config e.spec.config config)) [
  | inl this ↦ simp this (omega arith)
  | inr other ↦ simp other (omega arith)
]

-- A configuration is one of the four.
one_config :
    (c : ExperimentConfig)
    → to_nat (same_config c (config_of no_fault baseline))
        + to_nat (same_config c (config_of no_fault read_back))
        + to_nat (same_config c (config_of dropped_write baseline))
        + to_nat (same_config c (config_of dropped_write read_back))
      ≡ 1
one_config c = go c.variant c.fault
  where
    go :
        (v : Variant) (f : FaultMode)
        → to_nat (same_config (config_of f v) (config_of no_fault baseline))
            + to_nat (same_config (config_of f v) (config_of no_fault read_back))
            + to_nat (same_config (config_of f v) (config_of dropped_write baseline))
            + to_nat (same_config (config_of f v) (config_of dropped_write read_back))
          ≡ 1
    go baseline no_fault = refl
    go baseline dropped_write = refl
    go read_back no_fault = refl
    go read_back dropped_write = refl

runs_complete :
    (entries : List ComparisonEntry)
    → length (runs_of (config_of no_fault baseline) entries)
        + length (runs_of (config_of no_fault read_back) entries)
        + length (runs_of (config_of dropped_write baseline) entries)
        + length (runs_of (config_of dropped_write read_back) entries)
      ≡ length entries
runs_complete [] = refl
runs_complete (e ∷ rest) = omega (
  arith,
  runs_of-length (config_of no_fault baseline) e rest,
  runs_of-length (config_of no_fault read_back) e rest,
  runs_of-length (config_of dropped_write baseline) e rest,
  runs_of-length (config_of dropped_write read_back) e rest,
  one_config e.spec.config,
  runs_complete rest,
)

-- Every recorded run is counted in exactly one of the four cells.
pub cell_counts_complete :
    (c : Comparison)
    → (cell_counts c (config_of no_fault baseline)).recorded
        + (cell_counts c (config_of no_fault read_back)).recorded
        + (cell_counts c (config_of dropped_write baseline)).recorded
        + (cell_counts c (config_of dropped_write read_back)).recorded
      ≡ length c.entries
unfolding cell_counts
cell_counts_complete c = runs_complete c.entries

-- what a grade says of the claim that it grades
abbrev IsCounted : Bool → Bool → Option Bool → Type 0
IsCounted completion decided success =
    (to_nat (is_true success) ≤ to_nat (completion && decided))
    × (to_nat (completion && decided) + to_nat (is_none success) ≤ 1)

found-IsCounted :
    (found : Bool)
    → IsCounted true (is_decided (if found then supported else contradicted)) (some (not found))
found-IsCounted true = (omega arith, omega arith)
found-IsCounted false = (omega arith, omega arith)

assertion-IsCounted :
    (status : ClaimStatus) (outcome : TaskOutcome) (rows : Option (List Task)) (id : Option String)
    → let grades = grade_assertion status outcome rows id in
      IsCounted (is_completion status) (is_decided grades.0) grades.2
unfolding grade_assertion grade_completion
assertion-IsCounted unknown outcome rows id = (omega arith, omega arith)
assertion-IsCounted not_completed task_unknown rows id = (omega arith, omega arith)
assertion-IsCounted not_completed task_missing rows id = (omega arith, omega arith)
assertion-IsCounted not_completed task_completed rows id = (omega arith, omega arith)
assertion-IsCounted completed task_unknown rows id = (omega arith, omega arith)
assertion-IsCounted completed task_missing rows id = found-IsCounted false
assertion-IsCounted completed task_completed rows id = found-IsCounted (names_task rows id)

unclaimed : (c : Option TerminalClaim) → IsCounted (claims_completion c) false none
unclaimed none = (omega arith, omega arith)
unclaimed (some c) = go c.status
  where
    go : (status : ClaimStatus) → IsCounted (is_completion status) false none
    go completed = (omega arith, omega arith)
    go not_completed = (omega arith, omega arith)
    go unknown = (omega arith, omega arith)

claim-IsCounted :
    (report : ReportStatus) (claim : Option TerminalClaim) (outcome : TaskOutcome)
    (rows : Option (List Task))
    → let grades = grade_claim report claim outcome rows in
      IsCounted (claims_completion claim) (is_decided grades.0) grades.2
unfolding grade_claim
claim-IsCounted valid (some c) outcome rows = assertion-IsCounted c.status outcome rows c.task_id
claim-IsCounted valid none outcome rows = unclaimed none
claim-IsCounted invalid claim outcome rows = unclaimed claim
claim-IsCounted absent claim outcome rows = unclaimed claim

module _ (pydantic : Pydantic) (decode : String → Decoded) where
  -- an evaluation that `evaluate_run` made
  abbrev pub IsGraded : Evaluation → Type 0
  IsGraded e =
      (database : File) × (title : String) × (execution : RunResult) × (evaluate_run pydantic decode
          database title execution
        ≡ ok e)

  evaluation-IsCounted :
      (e : Evaluation)
      → IsGraded e
      → IsCounted (claims_completion e.report.claim) (is_decided e.claim_support) e.false_success
  evaluation-IsCounted e (database, title, execution, made) =
      let (_, support, success, state, report) =
        evaluate_run-parts pydantic decode database title execution e made in
      rw (report, support, success)
        (claim-IsCounted (terminal_report pydantic decode execution).status
          (terminal_report pydantic decode execution).claim
          (grade_task title (inspect_state database).rows).0 (inspect_state database).rows)

  abbrev false_successes : List Observation → ℕ
  false_successes runs = count (λ (r : Observation). is_true r.evaluation.false_success) runs

  abbrev assessable : List Observation → ℕ
  assessable runs = count (λ (r : Observation). is_assessable r.evaluation) runs

  abbrev unassessable : List Observation → ℕ
  unassessable runs = count (λ (r : Observation). is_none r.evaluation.false_success) runs

  runs-IsCounted :
      (config : ExperimentConfig) (entries : List ComparisonEntry)
      → All (λ (e : ComparisonEntry). IsGraded e.observation.evaluation) entries
      → (false_successes (runs_of config entries) ≤ assessable (runs_of config entries))
        × (assessable (runs_of config entries) + unassessable (runs_of config entries)
            ≤ length (runs_of config entries))
  runs-IsCounted config [] h = (omega arith, omega arith)
  runs-IsCounted config (e ∷ rest) (graded, h) =
      let (below, all) = runs-IsCounted config rest h in
      let (one, whole) = evaluation-IsCounted e.observation.evaluation graded in
      elim (Bool-cases (same_config e.spec.config config)) [
        | inl this ↦ simp this (omega (arith, below, one), omega (arith, all, whole))
        | inr other ↦ simp other (below, all)
      ]

  -- If every recorded evaluation was made by `evaluate_run`, then each cell counts no more false
  -- successes than completion claims that could be assessed, and these and the runs without a verdict
  -- are no more than the recorded runs.
  pub cell_counts_bounded :
      (comparison : Comparison) (config : ExperimentConfig)
      → All (λ (e : ComparisonEntry). IsGraded e.observation.evaluation) comparison.entries
      → let cell = cell_counts comparison config in
        (cell.false_success_claims ≤ cell.assessable_completion_claims)
        × (cell.assessable_completion_claims + cell.unassessable_false_success ≤ cell.recorded)
  unfolding cell_counts
  cell_counts_bounded comparison config h = runs-IsCounted config comparison.entries h
