-- ===== src/Runs/Consistent.antt =====
-- The counters of a run and the cases that they count (DATA-MODEL.md, section 5): an invariant of
-- the database that the code never checks and every operation has to keep.
use runboard.Prelude.{ℕ, pos, ◌==◌, ◌≡◌, Bool, ◌&&◌, List, count, All}
use runboard.Prelude.Keys.{Distinct}
use runboard.Schema.{Uuid, Db, RunCaseResult, result_eq, TestRun, TestRunCase}

abbrev pub in_run : Uuid → TestRunCase → Bool
in_run run_id c = c.test_run_id == run_id

abbrev pub with_result : Uuid → RunCaseResult → TestRunCase → Bool
with_result run_id result c = in_run run_id c && result_eq c.result result

abbrev pub tally : List TestRunCase → Uuid → RunCaseResult → ℕ
tally cases run_id result = count (with_result run_id result) cases

-- Each counter column is the number of the run's cases that it counts.
pub record Tallies (cases : List TestRunCase) (run : TestRun) : Type 0 where
  pub total : run.total_count ≡ pos (count (in_run run.id) cases)
  pub passed : run.passed_count ≡ pos (tally cases run.id RunCaseResult.pass)
  pub failed : run.failed_count ≡ pos (tally cases run.id RunCaseResult.fail)
  pub blocked : run.blocked_count ≡ pos (tally cases run.id RunCaseResult.blocked)
  pub skipped : run.skipped_count ≡ pos (tally cases run.id RunCaseResult.skipped)

pub record IsConsistent (db : Db) : Type 0 where
  pub run_ids : Distinct (λ (r : TestRun). r.id) db.runs
  pub case_ids : Distinct (λ (c : TestRunCase). c.id) db.run_cases
  pub counters : All (Tallies db.run_cases) db.runs
