-- ===== src/Runs/Record/Commit.antt =====
-- What the transaction of `recordResult` does to the database: it throws, or it commits one
-- change of a case, one of its run and one audit entry.
use runboard.Prelude.{
  ◌≡◌, refl, ap, ◌==◌, true, Bool, Option, none, some, [], ◌∷◌, ◌++◌, ◌⊎◌, inl, inr, find, change,
  Bool-cases, Option-cases, eq_of_==, arith, ◌∙◌, String,
}
use runboard.Schema.{Uuid, Time, Db, RunStatus, status_eq, TestRun, TestRunCase}
use runboard.Exec.{Failure, Result, ok, err, not_found_error}
use runboard.Context.{RequestContext, organization_of}
use runboard.Prisma.{Prisma, settle}
use runboard.Floats.{Floats}
use runboard.Tenant.{within}
use runboard.Tenant.Tables.{runs, run_cases}
use runboard.Tenant.Client.{find_unique_lem, update_row_lem}
use runboard.Audit.{record_scoped_lem, scoped_entry}
use runboard.Runs.Shift.Effect.{moved, is_run, apply_counter_shift_lem}
use runboard.Runs.Record.{
  RecordResultDto, Outcome, record_case, result_params, record_result_tx, not_in_progress,
  record_result, announce, after_commit,
}

module _ (prisma : Prisma) (ctx : Option RequestContext) (run_id run_case_id user_id : Uuid)
    (dto : RecordResultDto) (now : Time) {org : Uuid} (inside : organization_of ctx ≡ some org)
    (db : Db) where
  abbrev pub is_case : TestRunCase → Bool
  is_case = within run_cases org (λ c. c.id == run_case_id)

  abbrev pub committed : TestRunCase → Db
  committed run_case = record db {
    run_cases = change is_case (record_case dto user_id now) db.run_cases;
    runs = change (is_run org run_id) (moved now run_case.result dto.result) db.runs;
    audit_logs =
        db.audit_logs
        ++ scoped_entry ctx org (result_params run_case_id run_case.result dto.result) ∷ [];
  }

  pub record IsCommitted (run : TestRun) (run_case : TestRunCase) : Type 0 where
    pub found_run : find (is_run org run_id) db.runs ≡ some run
    pub running : run.status ≡ RunStatus.in_progress
    pub found_case : find is_case db.run_cases ≡ some run_case
    pub of_run : run_case.test_run_id ≡ run_id
    pub result : record_result_tx prisma ctx run_id run_case_id user_id dto now db ≡ (
      ok (record {
        updated_case = record_case dto user_id now run_case;
        updated_run = moved now run_case.result dto.result run;
        previous_result = run_case.result;
      }),
      committed run_case,
    )

  abbrev Cases : Type 0
  Cases =
      ((e : Failure) × (record_result_tx prisma ctx run_id run_case_id user_id dto now db
          ≡ (err e, db)))
      ⊎ ((run : TestRun) × (run_case : TestRunCase) × IsCommitted run run_case)

  status_of_eq :
      (s : RunStatus) → status_eq s RunStatus.in_progress ≡ true → s ≡ RunStatus.in_progress
  status_of_eq s h = ground arith

  module _ (run : TestRun) (found : find (is_run org run_id) db.runs ≡ some run)
      (running : status_eq run.status RunStatus.in_progress ≡ true) where
    pub from_case :
        (run_case : TestRunCase)
        → find is_case db.run_cases ≡ some run_case
        → (run_case.test_run_id == run_id) ≡ true
        → IsCommitted run run_case
    unfolding record_result_tx
    from_case run_case found_case same = record {
      found_run = found;
      running = status_of_eq run.status running;
      found_case = found_case;
      of_run = eq_of_== run_case.test_run_id run_id same;
      result = rw (find_unique_lem prisma ctx runs refl inside db) (
          rw (found, running)
            (rw (find_unique_lem prisma ctx run_cases refl inside db) (
              rw found_case (
                rw same (
                  rw (update_row_lem prisma ctx run_cases refl inside db) (
                    rw found_case (
                      rw
                        (apply_counter_shift_lem prisma ctx run_id inside run_case.result dto.result
                          now run
                          (record db {
                            run_cases = change is_case (record_case dto user_id now) db.run_cases;
                          })
                          found)
                        (rw (
                          record_scoped_lem prisma ctx _
                            (result_params run_case_id run_case.result dto.result) inside)))))))));
    }

    from_running : Cases
    unfolding record_result_tx
    from_running = elim (Option-cases (find is_case db.run_cases)) [
      | inl missing ↦ inl (
        not_found_error,
        rw (find_unique_lem prisma ctx runs refl inside db) (
            rw (found, running)
              (rw (find_unique_lem prisma ctx run_cases refl inside db) (rw missing))),
      )
      | inr (run_case, found_case) ↦ elim (Bool-cases (run_case.test_run_id == run_id)) [
        | inl same ↦ inr (run, run_case, from_case run_case found_case same)
        | inr other ↦ inl (
          not_found_error,
          rw (find_unique_lem prisma ctx runs refl inside db) (
              rw (found, running)
                (rw (find_unique_lem prisma ctx run_cases refl inside db)
                  (rw found_case (rw other)))),
        )
      ]
    ]

  pub record_result_cases :
      ((e : Failure) × (record_result_tx prisma ctx run_id run_case_id user_id dto now db
          ≡ (err e, db)))
      ⊎ ((run : TestRun) × (run_case : TestRunCase) × IsCommitted run run_case)
  unfolding record_result_tx
  record_result_cases = elim (Option-cases (find (is_run org run_id) db.runs)) [
    | inl missing ↦
        inl (not_found_error, rw (find_unique_lem prisma ctx runs refl inside db) (rw missing))
    | inr (run, found) ↦ elim (Bool-cases (status_eq run.status RunStatus.in_progress)) [
      | inl running ↦ from_running run found running
      | inr stopped ↦ inl (
        not_in_progress,
        rw (find_unique_lem prisma ctx runs refl inside db) (rw found (rw stopped)),
      )
    ]
  ]

-- After the commit nothing more is written.
module _ (floats : Floats) (prisma : Prisma) (ctx : Option RequestContext)
    (run_id run_case_id user_id : Uuid) (dto : RecordResultDto) (now : Time) where
  announce-db :
      (outcome : Outcome) (db : Db) (name : Option String)
      → (announce floats prisma ctx run_id run_case_id user_id dto now outcome db name).1 ≡ db
  unfolding announce
  announce-db outcome db none = refl
  announce-db outcome db (some name) = refl

  after_commit-db :
      (r : Result Outcome) (db : Db)
      → (after_commit floats prisma ctx run_id run_case_id user_id dto now r db).1 ≡ db
  unfolding after_commit
  after_commit-db (err e) db = refl
  after_commit-db (ok outcome) db = announce-db outcome db _

  pub db-record_result :
      (db : Db)
      → (record_result floats prisma ctx run_id run_case_id user_id dto now db).1
        ≡ (settle db (record_result_tx prisma ctx run_id run_case_id user_id dto now db)).1
  unfolding record_result
  db-record_result db =
      after_commit-db _ _
      ∙ ap (λ (s : Result Outcome × Db). s.1)
          (prisma.transaction_lem (record_result_tx prisma ctx run_id run_case_id user_id dto now)
            db)
