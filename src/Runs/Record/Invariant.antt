-- ===== src/Runs/Record/Invariant.antt =====
-- backend/src/runs/runs.service.ts: the counters of the runs under `recordResult`.
use runboard.Prelude.{
  ◌+◌, ◌≡◌, ◌≢◌, refl, sym, ◌∙◌, subst, ◌==◌, true, Bool, ◌&&◌, Option, some, List, inl, inr, find,
  change, count, All, arith,
}
use runboard.Prelude.Keys.{bit, Distinct, count-change, All-change, Distinct-change, find_passes}
use runboard.Schema.{Uuid, Time, Db, RunCaseResult, TestRun, TestRunCase}
use runboard.Context.{RequestContext, organization_of}
use runboard.Prisma.{Prisma}
use runboard.Floats.{Floats}
use runboard.Runs.Consistent.{IsConsistent, Tallies, in_run, with_result}
use runboard.Runs.Shift.Effect.{moved, is_run, is_run-id}
use runboard.Runs.Shift.Tallies.{IsMove, Tallies-moved, moved-id}
use runboard.Runs.Record.{RecordResultDto, record_case, record_result}
use runboard.Runs.Record.Commit.{committed, IsCommitted, record_result_cases, db-record_result}

is_case-id :
    (org k : Uuid) (c : TestRunCase) → (c.id == k && c.organization_id == org) ≡ true → c.id ≡ k
is_case-id org k c h = ground arith

module _ (org run_id run_case_id user_id : Uuid) (dto : RecordResultDto) (now : Time) where
  abbrev is_it : TestRunCase → Bool
  is_it c = c.id == run_case_id && c.organization_id == org

  abbrev new_cases : List TestRunCase → List TestRunCase
  new_cases = change is_it (record_case dto user_id now)

  module _ (cases : List TestRunCase) (run_case : TestRunCase)
      (distinct : Distinct (λ (c : TestRunCase). c.id) cases)
      (found : find is_it cases ≡ some run_case) where
    counted :
        (p : TestRunCase → Bool)
        → count p (new_cases cases) + bit (p run_case)
          ≡ count p cases + bit (p (record_case dto user_id now run_case))
    counted p =
        count-change (λ c. c.id) is_it run_case_id (is_case-id org run_case_id) p
          (record_case dto user_id now) cases run_case distinct found

    -- The run that the case belongs to sees it move; no other run sees a difference.
    pub own-IsMove :
        run_case.test_run_id ≡ run_id
        → IsMove run_id run_case.result dto.result cases (new_cases cases)
    own-IsMove of_run = record {
      size = ground (arith, counted (in_run run_id));
      move = λ r. ground (arith, counted (with_result run_id r));
    }

    other-Tallies :
        (run : TestRun)
        → run_case.test_run_id ≢ run.id
        → Tallies cases run
        → Tallies (new_cases cases) run
    other-Tallies run ne t = record {
      total = ground (arith, counted (in_run run.id), t.total);
      passed = ground (arith, counted (with_result run.id RunCaseResult.pass), t.passed);
      failed = ground (arith, counted (with_result run.id RunCaseResult.fail), t.failed);
      blocked = ground (arith, counted (with_result run.id RunCaseResult.blocked), t.blocked);
      skipped = ground (arith, counted (with_result run.id RunCaseResult.skipped), t.skipped);
    }

    All-Tallies :
        (runs : List TestRun) (run : TestRun)
        → run_case.test_run_id ≡ run_id
        → Distinct (λ (r : TestRun). r.id) runs
        → find (is_run org run_id) runs ≡ some run
        → All (Tallies cases) runs
        → All
            (Tallies (new_cases cases))
            (change (is_run org run_id) (moved now run_case.result dto.result) runs)
    All-Tallies runs run of_run distinct_runs found_run =
        let at_id : run.id ≡ run_id = is_run-id org run_id run (find_passes _ runs run found_run) in
        All-change (λ r. r.id) (is_run org run_id) run_id (is_run-id org run_id) {P = Tallies cases}
          {Q = Tallies (new_cases cases)} (moved now run_case.result dto.result) runs run
          distinct_runs found_run
          (Tallies-moved now (
            subst (λ k. IsMove k run_case.result dto.result cases (new_cases cases)) (sym at_id)
              (own-IsMove of_run)))
          (λ r ne. other-Tallies r (λ e. ne (sym e ∙ of_run)))

module _ (floats : Floats) (prisma : Prisma) (ctx : Option RequestContext) {org : Uuid}
    (inside : organization_of ctx ≡ some org) (run_id run_case_id user_id : Uuid)
    (dto : RecordResultDto) (now : Time) (db : Db) where
  committed-IsConsistent :
      {run : TestRun} {run_case : TestRunCase}
      → IsConsistent db
      → IsCommitted prisma ctx run_id run_case_id user_id dto now inside db run run_case
      → IsConsistent (committed prisma ctx run_id run_case_id user_id dto now inside db run_case)
  committed-IsConsistent {run} {run_case} h c = record {
    run_ids =
        Distinct-change (λ r. r.id) (is_run org run_id) (moved now run_case.result dto.result)
          db.runs (moved-id now run_case.result dto.result) h.run_ids;
    case_ids =
        Distinct-change (λ x. x.id) _ (record_case dto user_id now) db.run_cases (λ x. refl)
          h.case_ids;
    counters =
        All-Tallies org run_id run_case_id user_id dto now db.run_cases run_case h.case_ids
          c.found_case db.runs run c.of_run h.run_ids c.found_run h.counters;
  }

  -- Whatever the request, and whether it is refused or recorded, the counters of every run are
  -- the results of its cases afterwards if they were before.
  pub record_result-IsConsistent :
      IsConsistent db
      → IsConsistent (record_result floats prisma ctx run_id run_case_id user_id dto now db).1
  record_result-IsConsistent h =
      rw (db-record_result floats prisma ctx run_id run_case_id user_id dto now db)
        (elim (record_result_cases prisma ctx run_id run_case_id user_id dto now inside db) [
          | inl (e, failed) ↦ rw failed h
          | inr (run, run_case, c) ↦ rw (c.result) (committed-IsConsistent h c)
        ])
