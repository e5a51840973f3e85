-- ===== src/Examples/Runs.antt =====
-- Runs: the run 20 of the example database is under way with the cases 30 (failed) and 31.
use runboard.Prelude.{◌≡◌, ◌↔◌, refl, pos, none, some, [], ◌∷◌, map, arith}
use runboard.Schema.{RunStatus, RunCaseResult, TestRun}
use runboard.Exec.{ok}
use runboard.Prisma.{lists}
use runboard.Runs.Counters.{RunCounterFields, compute_counters}
use runboard.Runs.Counters.Rates.{columns, compute_counters_bounds, compute_counters_exact}
use runboard.Runs.Consistent.{IsConsistent}
use runboard.Runs.Transition.{assert_valid_run_transition}
use runboard.Runs.Transition.Lifecycle.{Step, assert_valid_run_transition_iff}
use runboard.Runs.Record.{RecordResultDto, record_result, record_result_tx, name_of}
use runboard.Runs.Shift.{apply_counter_shift}
use runboard.Audit.{record_scoped}
use runboard.Tenant.{all_operations}
use runboard.Tenant.Client.{find_unique, update_row}
use runboard.Runs.Record.Invariant.{record_result-IsConsistent}
use runboard.Prelude.{All}
use runboard.Prelude.Keys.{Pointwise}
use runboard.Runs.Status.{Target, update_status}
use runboard.Runs.Status.Lifecycle.{
  Evolves, IsStamped, update_status-Evolves, update_status-IsStamped,
}
use runboard.Examples.Data.{thousandths, tester_context, one_run}

abbrev pub pass_it : RecordResultDto
pass_it = record { result = RunCaseResult.pass; comment = none }

pub one_run-IsConsistent : IsConsistent one_run
one_run-IsConsistent = record {
  run_ids = omega arith;
  case_ids = omega arith;
  counters = (
    record { total = refl; passed = refl; failed = refl; blocked = refl; skipped = refl },
    (record { total = refl; passed = refl; failed = refl; blocked = refl; skipped = refl }, tt),
  );
}

record_result-IsConsistent_example :
    IsConsistent (record_result thousandths lists tester_context 20 30 7 pass_it 99 one_run).1
record_result-IsConsistent_example =
    record_result-IsConsistent thousandths lists tester_context refl 20 30 7 pass_it 99 one_run
      one_run-IsConsistent

-- Case 30 goes from FAIL to PASS, and the counters of run 20 with it.
counters_after :
    map
      (λ (r : TestRun). r.passed_count)
      (record_result thousandths lists tester_context 20 30 7 pass_it 99 one_run).1.runs
    ≡ pos 1 ∷ pos 0 ∷ []
unfolding record_result record_result_tx name_of find_unique update_row apply_counter_shift
    record_scoped all_operations
counters_after = refl

assert_valid_run_transition_iff_example :
    (assert_valid_run_transition RunStatus.planned RunStatus.completed ≡ ok tt)
    ↔ Step RunStatus.planned RunStatus.completed
assert_valid_run_transition_iff_example =
    assert_valid_run_transition_iff RunStatus.planned RunStatus.completed

abbrev odd_columns : RunCounterFields
odd_columns = columns 2 3 0 0 0

compute_counters_bounds_example :
    thousandths.Le (some 0) (compute_counters thousandths odd_columns).progress
    × thousandths.Le (compute_counters thousandths odd_columns).progress (some 1000)
    × thousandths.Le (some 0) (compute_counters thousandths odd_columns).pass_rate
    × thousandths.Le (compute_counters thousandths odd_columns).pass_rate (some 1000)
compute_counters_bounds_example = compute_counters_bounds thousandths odd_columns

compute_counters_exact_example :
    ((compute_counters thousandths (columns 4 1 1 0 0)).progress ≡ some 500)
    × ((compute_counters thousandths (columns 4 1 1 0 0)).pass_rate ≡ some 500)
compute_counters_exact_example = compute_counters_exact thousandths 4 1 1 0 0 (omega arith)

-- Run 20 is completed at 99.
update_status-Evolves_example :
    Pointwise
      (Evolves Target.complete 99)
      one_run.runs
      (update_status thousandths lists tester_context 20 7 Target.complete 99 one_run).1.runs
update_status-Evolves_example =
    update_status-Evolves thousandths lists tester_context 20 7 Target.complete 99 refl one_run
      (omega arith)

one_run-IsStamped : All IsStamped one_run.runs
one_run-IsStamped = (((λ h. cc), refl), (refl, tt))

update_status-IsStamped_example :
    All IsStamped
      (update_status thousandths lists tester_context 20 7 Target.complete 99 one_run).1.runs
update_status-IsStamped_example =
    update_status-IsStamped thousandths lists tester_context 20 7 Target.complete 99 refl one_run
      (omega arith) one_run-IsStamped
