-- ===== src/Runs/Record.antt =====
-- `recordResult` of backend/src/runs/runs.service.ts: one tester's result on one case of a run.
pub mod Commit
pub mod Invariant
pub mod Race
use runboard.Prelude.{
  ◌==◌, Bool, true, false, not, Option, none, some, String, List, [], ◌++◌, if◌then◌else◌,
}
use runboard.Schema.{
  Uuid, Time, Db, RunStatus, RunCaseResult, status_eq, result_eq, TestRun, TestRunCase,
}
use runboard.Schema.{AuditAction, AuditTargetType, Metadata, User}
use runboard.Exec.{
  Failure, Result, ok, err, Tx, ◌>>=◌, ◌>>◌, pure, raise, guard, require, not_found_error, internal,
  run_not_in_progress,
}
use runboard.Context.{RequestContext, given}
use runboard.Prisma.{Prisma}
use runboard.Tenant.Tables.{runs, run_cases}
use runboard.Tenant.Client.{find_unique, update_row}
use runboard.Audit.{RecordScopedParams, record_scoped}
use runboard.Floats.{Floats}
use runboard.Runs.Counters.{RunCounters, compute_counters, counter_fields}
use runboard.Runs.Shift.{apply_counter_shift}
use runboard.Events.{Event, emit_case_recorded, emit_progress_updated}

pub record RecordResultDto : Type 0 where
  pub result : RunCaseResult
  pub comment : Option String

pub record Outcome : Type 0 where
  pub updated_case : TestRunCase
  pub updated_run : TestRun
  pub previous_result : RunCaseResult

abbrev pub not_in_progress : Failure
not_in_progress = record { status = 409; code = run_not_in_progress }

-- `data` of the update: a comment that is left out stays as it was.
abbrev pub record_case : RecordResultDto → Uuid → Time → TestRunCase → TestRunCase
record_case dto user_id now run_case =
    let is_pending = result_eq dto.result RunCaseResult.pending in
    record run_case {
      result = dto.result;
      comment = given dto.comment run_case.comment;
      recorded_by_id = if is_pending then none else some user_id;
      recorded_at = if is_pending then none else some now;
    }

abbrev pub result_params : Uuid → RunCaseResult → RunCaseResult → RecordScopedParams
result_params run_case_id previous next = record {
  action = AuditAction.runcase_result_recorded;
  target_type = AuditTargetType.test_run_case;
  target_id = some run_case_id;
  metadata = Metadata.result_change previous next;
}

module _ (prisma : Prisma) (ctx : Option RequestContext) (run_id run_case_id user_id : Uuid)
    (dto : RecordResultDto) (now : Time) where
  -- `if (!runCase || runCase.testRunId !== runId) throw`
  case_of_run : Option TestRunCase → Tx TestRunCase
  case_of_run none db = (err not_found_error, db)
  case_of_run (some run_case) db =
      if run_case.test_run_id == run_id then (ok run_case, db) else (err not_found_error, db)

  -- The body of the transaction.
  unfoldable pub record_result_tx : Tx Outcome
  unfolding case_of_run
  record_result_tx = do
    found_run ← find_unique prisma ctx runs (λ r. r.id == run_id)
    run ← require not_found_error found_run
    guard (status_eq run.status RunStatus.in_progress) not_in_progress
    found_case ← find_unique prisma ctx run_cases (λ c. c.id == run_case_id)
    run_case ← case_of_run found_case
    updated_case ←
        update_row prisma ctx run_cases (λ c. c.id == run_case_id) (record_case dto user_id now)
    updated_run ← apply_counter_shift prisma ctx run_id run_case.result dto.result now
    record_scoped prisma ctx (result_params run_case_id run_case.result dto.result)
    pure (record {
      updated_case = updated_case;
      updated_run = updated_run;
      previous_result = run_case.result;
    })

-- `nameOf`: the read of the actor's name, outside the transaction and outside the tenant scope.
unfoldable pub name_of : Prisma → Uuid → Db → Option String
name_of prisma user_id db = elim (prisma.find_one (λ (u : User). u.id == user_id) db.users) [
  | none ↦ none
  | some u ↦ some u.name
]

module _ (floats : Floats) (prisma : Prisma) (ctx : Option RequestContext)
    (run_id run_case_id user_id : Uuid) (dto : RecordResultDto) (now : Time) where
  pub record Response : Type 0 where
    pub run_case : TestRunCase
    pub counters : RunCounters floats

  events_of : Outcome → RunCounters floats → String → List (Event floats)
  events_of outcome counters actor_name =
      emit_case_recorded floats run_id (record {
        run_case_id = run_case_id;
        result = outcome.updated_case.result;
        previous_result = outcome.previous_result;
        comment = outcome.updated_case.comment;
        recorded_by = record { id = user_id; name = actor_name };
        recorded_at = outcome.updated_case.recorded_at;
      })
      ++ emit_progress_updated floats run_id counters

  announce : Outcome → Db → Option String → Result Response × Db × List (Event floats)
  announce outcome db none = (err internal, db, [])
  announce outcome db (some actor_name) =
      let counters = compute_counters floats (counter_fields outcome.updated_run) in
      (
        ok (record { run_case = outcome.updated_case; counters = counters }),
        db,
        events_of outcome counters actor_name,
      )

  -- What is emitted comes after the commit; a throw in the transaction skips it.
  after_commit : Result Outcome → Db → Result Response × Db × List (Event floats)
  after_commit (err e) db = (err e, db, [])
  after_commit (ok outcome) db = announce outcome db (name_of prisma user_id db)

  unfoldable pub record_result : Db → Result Response × Db × List (Event floats)
  unfolding events_of announce after_commit
  record_result db =
      let (result, db') =
        prisma.transaction (record_result_tx prisma ctx run_id run_case_id user_id dto now) db in
      after_commit result db'
