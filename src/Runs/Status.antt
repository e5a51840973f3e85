-- ===== src/Runs/Status.antt =====
-- `updateStatus` of backend/src/runs/runs.service.ts: starting, completing and aborting a run.
pub mod Lifecycle
use runboard.Prelude.{
  ◌==◌, Bool, true, false, ◌&&◌, ◌||◌, Option, none, some, String, List, [], ◌∷◌, if◌then◌else◌,
}
use runboard.Schema.{
  Uuid, Time, Db, RunStatus, status_eq, TestRun, AuditAction, AuditTargetType, Metadata,
}
use runboard.Exec.{
  Failure, Result, ok, err, Tx, ◌>>=◌, ◌>>◌, pure, require, not_found_error, internal,
}
use runboard.Context.{RequestContext, organization_of}
use runboard.Prisma.{Prisma}
use runboard.Tenant.Tables.{runs}
use runboard.Tenant.Client.{find_unique, update_row}
use runboard.Audit.{RecordScopedParams, record_scoped}
use runboard.Floats.{Floats}
use runboard.Runs.Transition.{assert_valid_run_transition}
use runboard.Runs.Record.{name_of}
use runboard.Events.{Event, emit_status_changed}

-- The targets that the schema of the request admits.
pub data Target : Type 0 where
  start complete abort : Target

abbrev pub status_of : Target → RunStatus
status_of start = RunStatus.in_progress
status_of complete = RunStatus.completed
status_of abort = RunStatus.aborted

abbrev pub status_audit_action : Target → AuditAction
status_audit_action start = AuditAction.run_started
status_audit_action complete = AuditAction.run_completed
status_audit_action abort = AuditAction.run_aborted

abbrev pub or_now : Time → Option Time → Option Time
or_now now none = some now
or_now now (some t) = some t

-- `data` of the update: the start is stamped once, the end by either way of ending.
abbrev pub status_data : Target → Time → TestRun → TestRun
status_data start now run = record run {
  status = RunStatus.in_progress;
  started_at = or_now now run.started_at;
  updated_at = now;
}
status_data complete now run = record run {
  status = RunStatus.completed;
  completed_at = some now;
  updated_at = now;
}
status_data abort now run = record run {
  status = RunStatus.aborted;
  completed_at = some now;
  updated_at = now;
}

abbrev status_params : Uuid → Target → RunStatus → RecordScopedParams
status_params run_id target before = record {
  action = status_audit_action target;
  target_type = AuditTargetType.test_run;
  target_id = some run_id;
  metadata = Metadata.status_change before (status_of target);
}

module _ (prisma : Prisma) (ctx : Option RequestContext) (run_id : Uuid) (target : Target)
    (now : Time) where
  unfoldable pub update_status_tx : Tx TestRun
  update_status_tx = do
    found ← find_unique prisma ctx runs (λ r. r.id == run_id)
    run ← require not_found_error found
    λ db. (assert_valid_run_transition run.status (status_of target), db)
    updated ← update_row prisma ctx runs (λ r. r.id == run_id) (status_data target now)
    record_scoped prisma ctx (status_params run_id target run.status)
    pure updated

module _ (floats : Floats) (prisma : Prisma) (ctx : Option RequestContext) (run_id user_id : Uuid)
    (target : Target) (now : Time) where
  announce_status : TestRun → Db → Uuid → Option String → Result TestRun × Db × List (Event floats)
  announce_status updated db org none = (err internal, db, [])
  announce_status updated db org (some actor_name) = (
    ok updated,
    db,
    emit_status_changed floats org (record {
      run_id = run_id;
      status = updated.status;
      changed_by = record { id = user_id; name = actor_name };
      at = updated.updated_at;
    }),
  )

  -- `if (organizationId) { … }`
  in_organization : TestRun → Db → Option Uuid → Result TestRun × Db × List (Event floats)
  in_organization updated db none = (ok updated, db, [])
  in_organization updated db (some org) = announce_status updated db org (name_of prisma user_id db)

  after_update : Result TestRun → Db → Result TestRun × Db × List (Event floats)
  after_update (err e) db = (err e, db, [])
  after_update (ok updated) db = in_organization updated db (organization_of ctx)

  unfoldable pub update_status : Db → Result TestRun × Db × List (Event floats)
  unfolding announce_status in_organization after_update
  update_status db =
      let (result, db') = prisma.transaction (update_status_tx prisma ctx run_id target now) db in
      after_update result db'
