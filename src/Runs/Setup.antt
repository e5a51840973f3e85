-- ===== src/Runs/Setup.antt =====
-- `create`, `updateAssignees`, `bugDraft` and the checks for sockets of
-- backend/src/runs/runs.service.ts.
pub mod Snapshot
pub mod Creation
use Prim.Native.String.{◌++◌ as str_append}
use runboard.Prelude.{
  ℕ, ◌+◌, ◌==◌, pos, Bool, true, false, not, ◌&&◌, ◌||◌, String, Option, none, some, List, [], ◌∷◌,
  ◌++◌, map, length, contains, if◌then◌else◌,
}
use runboard.Schema.{
  Uuid, Time, Step, Db, RunStatus, RunCaseResult, TestCase, TestRun, TestRunCase, TestRunAssignee,
  Membership, User, AuditAction, AuditTargetType, Metadata,
}
use runboard.Exec.{
  Failure, Result, Tx, ok, err, ◌>>=◌, ◌>>◌, pure, gets, require, guard, not_found_error,
  run_no_cases,
}
use runboard.Context.{RequestContext}
use runboard.Prisma.{Prisma}
use runboard.Tenant.Tables.{memberships, cases, runs, run_cases, assignees}
use runboard.Tenant.Client.{
  find_unique, find_many, count_rows, create_row, create_rows, created, delete_rows,
}
use runboard.Audit.{RecordScopedParams, record_scoped}
use runboard.Floats.{Floats}
use runboard.Events.{Event, Actor, emit_assignees_changed}

-- A list that is left out is empty: the code asks for `?.length` only.
pub record CreateRunDto : Type 0 where
  pub name : String
  pub description : Option String
  pub suite_ids : List Uuid
  pub case_ids : List Uuid
  pub assignee_ids : List Uuid

abbrev pub no_cases : Failure
no_cases = record { status = 400; code = run_no_cases }

abbrev pub is_empty {ℓ} : {A : Type ℓ} → List A → Bool
is_empty [] = true
is_empty (_ ∷ _) = false

-- `[...new Set(ids)]`; the order does not matter to what is counted.
abbrev pub unique : List Uuid → List Uuid
unique [] = []
unique (id ∷ ids) = let rest = unique ids in if contains id rest then rest else id ∷ rest

-- The OR of the conditions that are given.
abbrev pub selected : CreateRunDto → TestCase → Bool
selected dto c = contains c.suite_id dto.suite_ids || contains c.id dto.case_ids

abbrev pub new_run : Uuid → Uuid → Time → CreateRunDto → ℕ → TestRun
new_run id user_id now dto total = record {
  id = id;
  organization_id = 0;
  name = dto.name;
  description = dto.description;
  status = RunStatus.planned;
  created_by_id = user_id;
  started_at = none;
  completed_at = none;
  updated_at = now;
  total_count = pos total;
  passed_count = pos 0;
  failed_count = pos 0;
  blocked_count = pos 0;
  skipped_count = pos 0;
}

-- The snapshot of a case, at its place in the run.
abbrev pub snapshot : Uuid → Uuid → ℕ → TestCase → TestRunCase
snapshot id run_id position c = record {
  id = id;
  organization_id = 0;
  test_run_id = run_id;
  source_case_id = some c.id;
  title = c.title;
  steps = c.steps;
  expected_result = c.expected_result;
  priority = c.priority;
  result = RunCaseResult.pending;
  comment = none;
  recorded_by_id = none;
  recorded_at = none;
  position = position;
}

-- `cases.map((c, index) => …)`, from the index `position` on; `case_ids` are the UUIDs that the
-- database draws.
abbrev pub snapshots : (ℕ → Uuid) → Uuid → ℕ → List TestCase → List TestRunCase
snapshots case_ids run_id position [] = []
snapshots case_ids run_id position (c ∷ cs) =
    snapshot (case_ids position) run_id position c ∷ snapshots case_ids run_id (position + 1) cs

abbrev pub assignment : Uuid → Uuid → TestRunAssignee
assignment run_id user_id = record { organization_id = 0; test_run_id = run_id; user_id = user_id }

abbrev run_params : AuditAction → Uuid → Metadata → RecordScopedParams
run_params action run_id metadata = record {
  action = action;
  target_type = AuditTargetType.test_run;
  target_id = some run_id;
  metadata = metadata;
}

abbrev pub actor_of : TestRunAssignee → Option User → List Actor
actor_of a none = []
actor_of a (some u) = record { id = u.id; name = u.name } ∷ []

pub record BugDraft : Type 0 where
  pub title : String
  pub description : String
  pub steps_to_reproduce : List Step

abbrev comment_text : Option String → String
comment_text none = "(없음)"
comment_text (some comment) = comment

abbrev pub draft_of : TestRunCase → BugDraft
draft_of c = record {
  title = str_append "[버그] " c.title;
  description =
      str_append (str_append "기대 결과: " c.expected_result)
        (str_append "\n" (str_append "기록된 코멘트: " (comment_text c.comment)));
  steps_to_reproduce = c.steps;
}

module _ (prisma : Prisma) (ctx : Option RequestContext) where
  unfoldable pub assert_assignees_are_members : List Uuid → Tx (Unit {0})
  assert_assignees_are_members user_ids = do
    member_count ← count_rows prisma ctx memberships (λ m. contains m.user_id (unique user_ids))
    guard (member_count == length (unique user_ids)) not_found_error

  -- `if (ids.length) { … }`
  abbrev pub unless_empty : List Uuid → Tx (Unit {0}) → Tx (Unit {0})
  unless_empty [] body db = (ok tt, db)
  unless_empty (_ ∷ _) body db = body db

  -- The source orders them by `createdAt`, which is no column here: they come in the order of the
  -- rows, and so do the positions of the snapshots.
  abbrev pub selected_cases : CreateRunDto → Tx (List TestCase)
  selected_cases dto =
      if is_empty dto.suite_ids && is_empty dto.case_ids
      then pure []
      else find_many prisma ctx cases (selected dto)

  unfoldable pub create_tx : Uuid → (ℕ → Uuid) → Uuid → Time → CreateRunDto → Tx TestRun
  create_tx id case_ids user_id now dto = do
    chosen ← selected_cases dto
    guard (not (is_empty chosen)) no_cases
    unless_empty dto.assignee_ids (assert_assignees_are_members dto.assignee_ids)
    create_row prisma ctx runs (new_run id user_id now dto (length chosen))
    create_rows prisma ctx run_cases (snapshots case_ids id 0 chosen)
    unless_empty dto.assignee_ids
        (create_rows prisma ctx assignees (map (assignment id) dto.assignee_ids))
    record_scoped prisma ctx
        (run_params AuditAction.run_created id (Metadata.case_count (length chosen)))
    pure (created prisma ctx runs (new_run id user_id now dto (length chosen)))

  unfoldable pub create : Uuid → (ℕ → Uuid) → Uuid → Time → CreateRunDto → Tx TestRun
  create id case_ids user_id now dto = prisma.transaction (create_tx id case_ids user_id now dto)

  abbrev pub with_names : List TestRunAssignee → Db → List Actor
  with_names [] db = []
  with_names (a ∷ rows) db =
      actor_of a (prisma.find_one (λ (u : User). u.id == a.user_id) db.users) ++ with_names rows db

  unfoldable pub load_assignees_with_names : Uuid → Tx (List Actor)
  load_assignees_with_names run_id = do
    rows ← find_many prisma ctx assignees (λ a. a.test_run_id == run_id)
    gets (with_names rows)

  unfoldable pub update_assignees_tx : Uuid → List Uuid → Tx (List Actor)
  update_assignees_tx run_id user_ids = do
    found ← find_unique prisma ctx runs (λ r. r.id == run_id)
    run ← require not_found_error found
    unless_empty user_ids (assert_assignees_are_members user_ids)
    delete_rows prisma ctx assignees (λ a. a.test_run_id == run_id)
    unless_empty user_ids (create_rows prisma ctx assignees (map (assignment run_id) user_ids))
    record_scoped prisma ctx
        (run_params AuditAction.run_assignees_changed run_id (Metadata.assignee_ids user_ids))
    load_assignees_with_names run_id

  draft_in : Uuid → Option TestRunCase → Tx BugDraft
  draft_in run_id none db = (err not_found_error, db)
  draft_in run_id (some c) db =
      if c.test_run_id == run_id then (ok (draft_of c), db) else (err not_found_error, db)

  unfoldable pub bug_draft : Uuid → Uuid → Tx BugDraft
  unfolding draft_in
  bug_draft run_id run_case_id = do
    found ← find_unique prisma ctx run_cases (λ c. c.id == run_case_id)
    draft_in run_id found

module _ (floats : Floats) (prisma : Prisma) (ctx : Option RequestContext) where
  announce_assignees :
      Uuid → Result (List Actor) → Db → Result (List Actor) × Db × List (Event floats)
  announce_assignees run_id (err e) db = (err e, db, [])
  announce_assignees run_id (ok actors) db =
      (ok actors, db, emit_assignees_changed floats run_id actors)

  unfoldable pub update_assignees :
      Uuid → List Uuid → Db → Result (List Actor) × Db × List (Event floats)
  unfolding announce_assignees
  update_assignees run_id user_ids db =
      let (result, db') = prisma.transaction (update_assignees_tx prisma ctx run_id user_ids) db in
      announce_assignees run_id result db'

-- The checks of the socket gateway, which read without the tenant scope.
module _ (prisma : Prisma) where
  abbrev is_some {ℓ} : {A : Type ℓ} → Option A → Bool
  is_some none = false
  is_some (some _) = true

  unfoldable pub is_org_member : Uuid → Uuid → Db → Bool
  is_org_member organization_id user_id db = is_some (
      prisma.find_one
        (λ (m : Membership). m.user_id == user_id && m.organization_id == organization_id)
        db.memberships)

  -- `run?.organizationId === organizationId`
  abbrev pub belongs : Uuid → Option TestRun → Bool
  belongs organization_id none = false
  belongs organization_id (some run) = run.organization_id == organization_id

  unfoldable pub assert_readable : Uuid → Uuid → Uuid → Db → Bool
  assert_readable organization_id run_id user_id db =
      if is_org_member organization_id user_id db
      then belongs organization_id (prisma.find_one (λ (r : TestRun). r.id == run_id) db.runs)
      else false
