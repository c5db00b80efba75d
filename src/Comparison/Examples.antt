-- ===== src/Comparison/Examples.antt =====
-- Two trials, and one recorded run that claims a task which is not the stored one.
use agent_fault_lab.Prelude.{◌+◌, ◌≤◌, ◌≡◌, refl, true, [], ◌∷◌, List, length}
use agent_fault_lab.Tools.{no_fault, dropped_write}
use agent_fault_lab.Pydantic.Exact.{exact}
use agent_fault_lab.Evaluation.Examples.{decode, stored, execution, grades, graded}
use agent_fault_lab.Comparison.{
  baseline, read_back, RunSpec, Comparison, config_of, trials_from, schedule, cell_counts,
}
use agent_fault_lab.Comparison.Schedule.{planned_of, schedule_balanced}
use agent_fault_lab.Comparison.Counts.{cell_counts_complete, cell_counts_bounded}

abbrev specs : List RunSpec
specs = trials_from 1 1 2

abbrev comparison : Comparison
comparison = record {
  planned = specs;
  entries =
      record {
        spec = record { sequence = 1; trial = 1; config = config_of dropped_write baseline };
        observation = record {
          config = config_of dropped_write baseline;
          evaluation = grades;
          metrics = record {
            model_calls = 2;
            tool_calls = 1;
            tool_executions = 1;
            injected_writes = 1;
            fault_exercised = true;
            read_back_calls = 0;
          };
        };
      }
      ∷ [];
}

schedule_balanced_example : planned_of (config_of dropped_write baseline) specs ≡ 2
unfolding schedule
schedule_balanced_example = schedule_balanced 2 specs (config_of dropped_write baseline) refl

cell_counts_complete_example :
    (cell_counts comparison (config_of no_fault baseline)).recorded
      + (cell_counts comparison (config_of no_fault read_back)).recorded
      + (cell_counts comparison (config_of dropped_write baseline)).recorded
      + (cell_counts comparison (config_of dropped_write read_back)).recorded
    ≡ length comparison.entries
cell_counts_complete_example = cell_counts_complete comparison

cell_counts_bounded_example :
    let cell = cell_counts comparison (config_of dropped_write baseline) in
    (cell.false_success_claims ≤ cell.assessable_completion_claims)
    × (cell.assessable_completion_claims + cell.unassessable_false_success ≤ cell.recorded)
cell_counts_bounded_example =
    cell_counts_bounded exact decode comparison (config_of dropped_write baseline)
      ((stored, "Pay rent", execution, graded), tt)
