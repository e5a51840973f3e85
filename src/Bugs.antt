-- ===== src/Bugs.antt =====
-- backend/src/bugs/bugs.service.ts: bug reports, and the events that tell of them.
pub mod Resolution
pub mod Listing
use text.Mathlib.Text.{◌==◌ as str_eq}
use runboard.Prelude.{
  ℕ, ◌==◌, Bool, true, false, not, ◌&&◌, String, Option, none, some, List, [], ◌++◌, if◌then◌else◌,
}
use runboard.Schema.{
  Uuid, Time, Step, Db, BugSeverity, BugStatus, BugReport, AuditAction, AuditTargetType, Metadata,
}
use runboard.Exec.{Result, Tx, ok, err, ◌>>=◌, ◌>>◌, pure, require, not_found_error, internal}
use runboard.Context.{RequestContext, organization_of}
use runboard.Prisma.{Prisma}
use runboard.Tenant.Tables.{bugs, run_cases}
use runboard.Tenant.Client.{find_unique, create_row, created, update_row}
use runboard.Audit.{RecordScopedParams, record_scoped}
use runboard.Audit.Diff.{diff_fields}
use runboard.Dto.{Patch, patched, replaced, is_given, is_present, key_if, Json, or_null_text}
use runboard.Floats.{Floats}
use runboard.Runs.Record.{name_of}
use runboard.Events.{Event, emit_bug_created, emit_bug_updated}

-- The schema fills in MAJOR for a severity that is left out.
pub record CreateBugDto : Type 0 where
  pub title : String
  pub description : String
  pub steps_to_reproduce : List Step
  pub severity : BugSeverity
  pub test_run_case_id : Option Uuid

pub record UpdateBugDto : Type 0 where
  pub title : Option String
  pub description : Option String
  pub steps_to_reproduce : Option (List Step)
  pub severity : Option BugSeverity
  pub status : Option BugStatus
  pub assignee_id : Patch Uuid

abbrev pub is_resolved : BugStatus → Bool
is_resolved BugStatus.resolved = true
is_resolved _ = false

abbrev pub bug_status_rank : BugStatus → ℕ
bug_status_rank BugStatus.opened = 0
bug_status_rank BugStatus.in_progress = 1
bug_status_rank BugStatus.resolved = 2
bug_status_rank BugStatus.wontfix = 3

-- `dto.status && dto.status !== existing.status`
abbrev pub status_changed : Option BugStatus → BugStatus → Bool
status_changed none old = false
status_changed (some status) old = not (bug_status_rank status == bug_status_rank old)

-- `dto.status === 'RESOLVED' && existing.status !== 'RESOLVED'`
abbrev pub newly_resolved : Option BugStatus → BugStatus → Bool
newly_resolved none old = false
newly_resolved (some status) old = is_resolved status && not (is_resolved old)

abbrev bug_params : AuditAction → Uuid → Metadata → RecordScopedParams
bug_params action bug_id metadata = record {
  action = action;
  target_type = AuditTargetType.bug_report;
  target_id = some bug_id;
  metadata = metadata;
}

abbrev pub new_bug : Uuid → Uuid → CreateBugDto → BugReport
new_bug id user_id dto = record {
  id = id;
  organization_id = 0;
  test_run_case_id = dto.test_run_case_id;
  title = dto.title;
  description = dto.description;
  steps_to_reproduce = dto.steps_to_reproduce;
  severity = dto.severity;
  status = BugStatus.opened;
  reported_by_id = user_id;
  assignee_id = none;
  resolved_at = none;
}

-- `data` of the update, on the row `bug`, with the moment of resolution that it sets, if any.
abbrev pub change_bug : UpdateBugDto → Option Time → BugReport → BugReport
change_bug dto resolved bug = record bug {
  title = replaced dto.title bug.title;
  description = replaced dto.description bug.description;
  steps_to_reproduce = replaced dto.steps_to_reproduce bug.steps_to_reproduce;
  severity = replaced dto.severity bug.severity;
  status = replaced dto.status bug.status;
  assignee_id = patched dto.assignee_id bug.assignee_id;
  resolved_at = elim resolved [ none ↦ bug.resolved_at | some now ↦ some now ];
}

-- `Object.keys(dto)`
abbrev keys_of : UpdateBugDto → List String
keys_of dto =
    key_if (is_given dto.title) "title"
    ++ key_if (is_given dto.description) "description"
    ++ key_if (is_given dto.steps_to_reproduce) "stepsToReproduce"
    ++ key_if (is_given dto.severity) "severity"
    ++ key_if (is_given dto.status) "status"
    ++ key_if (is_present dto.assignee_id) "assigneeId"

abbrev bug_text : Json → BugReport → String → String
bug_text json b field =
    if str_eq field "title"
    then json.of_string b.title
    else if str_eq field "description"
    then json.of_string b.description
    else if str_eq field "stepsToReproduce"
    then json.of_steps b.steps_to_reproduce
    else if str_eq field "severity"
    then json.of_severity b.severity
    else if str_eq field "status"
    then json.of_status b.status
    else or_null_text json.of_id b.assignee_id

module _ (prisma : Prisma) (ctx : Option RequestContext) where
  -- The run of the run case that the bug comes from.
  run_of_case : Option Uuid → Tx (Option Uuid)
  run_of_case none db = (ok none, db)
  run_of_case (some run_case_id) db =
      (find_unique prisma ctx run_cases (λ c. c.id == run_case_id) >>= λ found.
      require not_found_error found >>= λ run_case. pure (some run_case.test_run_id))
        db

  unfoldable pub create_tx : Uuid → Uuid → CreateBugDto → Tx (BugReport × Option Uuid)
  unfolding run_of_case
  create_tx id user_id dto = do
    run_id ← run_of_case dto.test_run_case_id
    create_row prisma ctx bugs (new_bug id user_id dto)
    record_scoped prisma ctx (bug_params AuditAction.bug_created id Metadata.nothing)
    pure (created prisma ctx bugs (new_bug id user_id dto), run_id)

  unfoldable pub update_tx : Json → Time → Uuid → UpdateBugDto → Tx BugReport
  update_tx json now bug_id dto = do
    found ← find_unique prisma ctx bugs (λ b. b.id == bug_id)
    existing ← require not_found_error found
    bug ←
        update_row prisma ctx bugs (λ b. b.id == bug_id)
          (change_bug dto (if newly_resolved dto.status existing.status then some now else none))
    record_scoped prisma ctx (
        bug_params
          (if status_changed dto.status existing.status
            then AuditAction.bug_status_changed
            else AuditAction.bug_updated)
          bug_id
          (Metadata.changed
            (diff_fields (bug_text json existing) (bug_text json bug) (keys_of dto))))
    pure bug

module _ (floats : Floats) (prisma : Prisma) (ctx : Option RequestContext) (user_id : Uuid) where
  abbrev pub Emitting : Type 0
  Emitting = Result BugReport × Db × List (Event floats)

  tell_created : Uuid → BugReport → Option Uuid → Db → Option String → Emitting
  tell_created org bug run_id db none = (err internal, db, [])
  tell_created org bug run_id db (some reporter_name) = (
    ok bug,
    db,
    emit_bug_created floats org (record {
      bug_id = bug.id;
      title = bug.title;
      severity = bug.severity;
      run_id = run_id;
      reported_by = record { id = user_id; name = reporter_name };
    }),
  )

  after_create : Uuid → Result (BugReport × Option Uuid) → Db → Emitting
  after_create org (err e) db = (err e, db, [])
  after_create org (ok (bug, run_id)) db =
      tell_created org bug run_id db (name_of prisma user_id db)

  create_in : Option Uuid → Uuid → CreateBugDto → Db → Emitting
  create_in none id dto db = (err internal, db, [])
  create_in (some org) id dto db =
      let (result, db') = prisma.transaction (create_tx prisma ctx id user_id dto) db in
      after_create org result db'

  unfoldable pub create : Uuid → CreateBugDto → Db → Emitting
  unfolding tell_created after_create create_in
  create id dto db = create_in (organization_of ctx) id dto db

  tell_updated : Uuid → BugReport → Db → Option String → Emitting
  tell_updated org bug db none = (err internal, db, [])
  tell_updated org bug db (some actor_name) = (
    ok bug,
    db,
    emit_bug_updated floats org (record {
      bug_id = bug.id;
      title = bug.title;
      status = bug.status;
      severity = bug.severity;
      assignee_id = bug.assignee_id;
      updated_by = record { id = user_id; name = actor_name };
    }),
  )

  after_update : Uuid → Result BugReport → Db → Emitting
  after_update org (err e) db = (err e, db, [])
  after_update org (ok bug) db = tell_updated org bug db (name_of prisma user_id db)

  update_in : Option Uuid → Json → Time → Uuid → UpdateBugDto → Db → Emitting
  update_in none json now bug_id dto db = (err internal, db, [])
  update_in (some org) json now bug_id dto db =
      let (result, db') = prisma.transaction (update_tx prisma ctx json now bug_id dto) db in
      after_update org result db'

  unfoldable pub update : Json → Time → Uuid → UpdateBugDto → Db → Emitting
  unfolding tell_updated after_update update_in
  update json now bug_id dto db = update_in (organization_of ctx) json now bug_id dto db
