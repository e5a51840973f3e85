-- ===== src/Examples/Race.antt =====
-- Two testers record PASS for the failed case 30 of run 20 at once.
use runboard.Prelude.{◌≡◌, refl, find, some}
use runboard.Schema.{Db, RunStatus, RunCaseResult, TestRun, TestRunCase}
use runboard.Exec.{ok}
use runboard.Prisma.{lists}
use runboard.Runs.Consistent.{IsConsistent}
use runboard.Runs.Shift.Effect.{is_run}
use runboard.Runs.Record.Race.{read_phase, write_phase}
use runboard.Runs.Record.Race.Drift.{CountedTwice, race-Drifts}
use runboard.Examples.Data.{tester_context, one_run, run_of, run_case_of}
use runboard.Examples.Runs.{pass_it, one_run-IsConsistent}

abbrev running : TestRun
running = record (run_of 20 RunStatus.in_progress 2 1) { started_at = some 5 }

abbrev failed_case : TestRunCase
failed_case = run_case_of 30 20 RunCaseResult.fail

abbrev raced : Db
raced =
    (write_phase lists tester_context 20 30 8 pass_it 100 failed_case
      (write_phase lists tester_context 20 30 7 pass_it 99 failed_case one_run).1).1

race-Drifts_example :
    (read_phase lists tester_context 20 30 7 pass_it 99 one_run ≡ (ok failed_case, one_run))
    × (read_phase lists tester_context 20 30 8 pass_it 100 one_run ≡ (ok failed_case, one_run))
    × ((run' : TestRun) × (find (is_run 1 20) raced.runs ≡ some run')
        × CountedTwice lists tester_context tester_context refl refl 20 30 7 8 pass_it 99 100
            one_run running failed_case one_run-IsConsistent refl refl refl run' raced.run_cases)
    × ¬ IsConsistent raced
race-Drifts_example =
    race-Drifts lists tester_context tester_context refl refl 20 30 7 8 pass_it 99 100 one_run
      running failed_case one_run-IsConsistent refl refl refl refl (λ e. cc)
