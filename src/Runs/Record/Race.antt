-- ===== src/Runs/Record/Race.antt =====
-- Two transactions of `recordResult` at once. Postgres runs them at READ COMMITTED, its default,
-- which the code does not change: what a transaction has read may be out of date when it writes.
pub mod Drift
use runboard.Prelude.{
  ℕ, pos, ◌≡◌, ◌≢◌, refl, ap, sym, ◌∙◌, subst, ◌==◌, ◌&&◌, true, Bool, Option, none, some, List, [],
  ◌∷◌, ◌++◌, inl, inr, find, change, count, Bool-cases, Option-cases, All, arith,
}
use runboard.Prelude.Keys.{bit, Distinct, count-change, find_passes, Distinct-change}
use runboard.Prelude.Updates.{find-change}
use runboard.Schema.{
  Uuid, Time, Db, RunStatus, RunCaseResult, status_eq, result_eq, TestRun, TestRunCase,
}
use runboard.Exec.{Failure, Result, ok, err, Tx, ◌>>=◌, ◌>>◌, pure, guard, require, not_found_error}
use runboard.Context.{RequestContext, organization_of}
use runboard.Prisma.{Prisma}
use runboard.Tenant.Tables.{runs, run_cases}
use runboard.Tenant.Client.{find_unique, update_row, find_unique_lem, update_row_lem}
use runboard.Audit.{record_scoped, record_scoped_lem, scoped_entry}
use runboard.Runs.Consistent.{IsConsistent, Tallies, tally, in_run, with_result}
use runboard.Runs.Shift.{apply_counter_shift}
use runboard.Runs.Shift.Effect.{moved, is_run, is_run-id, apply_counter_shift_lem}
use runboard.Runs.Shift.Tallies.{moved-id}
use runboard.Runs.Record.{
  RecordResultDto, Outcome, record_case, result_params, record_result_tx, not_in_progress,
  case_of_run,
}

module _ (prisma : Prisma) (ctx : Option RequestContext) (run_id run_case_id user_id : Uuid)
    (dto : RecordResultDto) (now : Time) where
  -- The transaction up to its first write, and the rest of it.
  pub read_phase : Tx TestRunCase
  unfolding case_of_run
  read_phase = do
    found_run ← find_unique prisma ctx runs (λ r. r.id == run_id)
    run ← require not_found_error found_run
    guard (status_eq run.status RunStatus.in_progress) not_in_progress
    found_case ← find_unique prisma ctx run_cases (λ c. c.id == run_case_id)
    case_of_run prisma ctx run_id run_case_id user_id dto now found_case

  pub write_phase : TestRunCase → Tx Outcome
  write_phase run_case = do
    updated_case ←
        update_row prisma ctx run_cases (λ c. c.id == run_case_id) (record_case dto user_id now)
    updated_run ← apply_counter_shift prisma ctx run_id run_case.result dto.result now
    record_scoped prisma ctx (result_params run_case_id run_case.result dto.result)
    pure (record {
      updated_case = updated_case;
      updated_run = updated_run;
      previous_result = run_case.result;
    })

  module _ {org : Uuid} (inside : organization_of ctx ≡ some org) (db : Db) where
    abbrev is_case : TestRunCase → Bool
    is_case c = c.id == run_case_id && c.organization_id == org

    -- The two phases make the transaction.
    phases_lem :
        record_result_tx prisma ctx run_id run_case_id user_id dto now db
        ≡ (read_phase >>= write_phase) db
    unfolding record_result_tx read_phase write_phase
    phases_lem =
        rw (find_unique_lem prisma ctx runs refl inside db)
          (elim (Option-cases (find (is_run org run_id) db.runs)) [
            | inl missing ↦ rw missing refl
            | inr (run, found) ↦ elim (Bool-cases (status_eq run.status RunStatus.in_progress)) [
              | inr stopped ↦ rw found (rw stopped refl)
              | inl running ↦ rw found (
                  rw running (
                    rw (find_unique_lem prisma ctx run_cases refl inside db)
                      (elim (Option-cases (find is_case db.run_cases)) [
                        | inl missing ↦ rw missing refl
                        | inr (c, found_case) ↦ elim (Bool-cases (c.test_run_id == run_id)) [
                          | inl same ↦ rw found_case (rw same refl)
                          | inr other ↦ rw found_case (rw other refl)
                        ]
                      ])))
            ]
          ])

    pub read_phase_lem :
        (run : TestRun) (run_case : TestRunCase)
        → find (is_run org run_id) db.runs ≡ some run
        → run.status ≡ RunStatus.in_progress
        → find is_case db.run_cases ≡ some run_case
        → run_case.test_run_id ≡ run_id
        → read_phase db ≡ (ok run_case, db)
    unfolding read_phase
    read_phase_lem run run_case found running found_case of_run =
        let same : (run_case.test_run_id == run_id) ≡ true = ground (arith, of_run) in
        rw (find_unique_lem prisma ctx runs refl inside db) (
          rw found (
            rw running (
              rw (find_unique_lem prisma ctx run_cases refl inside db)
                (rw found_case (rw same refl)))))

    -- The database after the writes, whatever was read before.
    abbrev pub written : RunCaseResult → Db
    written previous = record db {
      run_cases = change is_case (record_case dto user_id now) db.run_cases;
      runs = change (is_run org run_id) (moved now previous dto.result) db.runs;
      audit_logs =
          db.audit_logs
          ++ scoped_entry ctx org (result_params run_case_id previous dto.result) ∷ [];
    }

    pub write_phase_lem :
        (read : TestRunCase) (run : TestRun) (run_case : TestRunCase)
        → find (is_run org run_id) db.runs ≡ some run
        → find is_case db.run_cases ≡ some run_case
        → (write_phase read db).1 ≡ written read.result
    unfolding write_phase
    write_phase_lem read run run_case found found_case =
        rw (update_row_lem prisma ctx run_cases refl inside db) (
          rw found_case (
            rw
              (apply_counter_shift_lem prisma ctx run_id inside read.result dto.result now run
                (record db {
                  run_cases = change is_case (record_case dto user_id now) db.run_cases;
                })
                found)
              (rw
                (record_scoped_lem prisma ctx _ (result_params run_case_id read.result dto.result)
                  inside)
                refl)))
