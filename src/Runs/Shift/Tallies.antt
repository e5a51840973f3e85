-- ===== src/Runs/Shift/Tallies.antt =====
-- A shift of the counters follows a change of one case's result.
use runboard.Prelude.{ℕ, pos, ◌+◌, ◌≡◌, arith, List, count}
use runboard.Prelude.Keys.{bit}
use runboard.Schema.{Uuid, Time, RunCaseResult, result_eq, TestRun, TestRunCase}
use runboard.Runs.Consistent.{Tallies, tally, in_run}
use runboard.Runs.Shift.Effect.{moved}

module _ (now : Time) (previous next : RunCaseResult) (run : TestRun) (n n' : ℕ) where
  moved_passed :
      run.passed_count ≡ pos n
      → n' + bit (result_eq previous RunCaseResult.pass)
        ≡ n + bit (result_eq next RunCaseResult.pass)
      → (moved now previous next run).passed_count ≡ pos n'
  moved_passed h e = ground arith

  moved_failed :
      run.failed_count ≡ pos n
      → n' + bit (result_eq previous RunCaseResult.fail)
        ≡ n + bit (result_eq next RunCaseResult.fail)
      → (moved now previous next run).failed_count ≡ pos n'
  moved_failed h e = ground arith

  moved_blocked :
      run.blocked_count ≡ pos n
      → n' + bit (result_eq previous RunCaseResult.blocked)
        ≡ n + bit (result_eq next RunCaseResult.blocked)
      → (moved now previous next run).blocked_count ≡ pos n'
  moved_blocked h e = ground arith

  moved_skipped :
      run.skipped_count ≡ pos n
      → n' + bit (result_eq previous RunCaseResult.skipped)
        ≡ n + bit (result_eq next RunCaseResult.skipped)
      → (moved now previous next run).skipped_count ≡ pos n'
  moved_skipped h e = ground arith

  moved_total :
      run.total_count ≡ pos n → n' ≡ n → (moved now previous next run).total_count ≡ pos n'
  moved_total h e = ground arith

pub moved-id :
    (now : Time) (previous next : RunCaseResult) (run : TestRun)
    → (moved now previous next run).id ≡ run.id
moved-id now previous next run = ground arith

-- How two lists of cases differ when one case of a run goes from one result to another.
pub record IsMove (run_id : Uuid) (previous next : RunCaseResult) (cases cases' : List TestRunCase)
    : Type 0 where
  pub size : count (in_run run_id) cases' ≡ count (in_run run_id) cases
  pub move :
      (r : RunCaseResult)
      → tally cases' run_id r + bit (result_eq previous r)
        ≡ tally cases run_id r + bit (result_eq next r)

pub Tallies-moved :
    (now : Time) {previous next : RunCaseResult} {cases cases' : List TestRunCase} {run : TestRun}
    → IsMove run.id previous next cases cases'
    → Tallies cases run
    → Tallies cases' (moved now previous next run)
Tallies-moved now {previous} {next} {run} m t =
    let id = moved-id now previous next run in
    record {
      total = rw id (moved_total now previous next run _ _ t.total m.size);
      passed = rw id (moved_passed now previous next run _ _ t.passed (m.move RunCaseResult.pass));
      failed = rw id (moved_failed now previous next run _ _ t.failed (m.move RunCaseResult.fail));
      blocked =
          rw id (moved_blocked now previous next run _ _ t.blocked (m.move RunCaseResult.blocked));
      skipped =
          rw id (moved_skipped now previous next run _ _ t.skipped (m.move RunCaseResult.skipped));
    }
