-- ===== src/Cases.antt =====
-- backend/src/cases/cases.service.ts: the test cases of the suites.
pub mod Listing
use text.Mathlib.Text.{◌==◌ as str_eq}
use runboard.Prelude.{◌==◌, String, Option, none, some, List, ◌++◌, if◌then◌else◌}
use runboard.Schema.{Uuid, Step, Db, CasePriority, TestCase, AuditAction, AuditTargetType, Metadata}
use runboard.Exec.{Tx, ok, ◌>>=◌, ◌>>◌, pure, require, not_found_error}
use runboard.Context.{RequestContext}
use runboard.Prisma.{Prisma}
use runboard.Tenant.Tables.{suites, cases}
use runboard.Tenant.Client.{find_unique, create_row, created, update_row, delete_rows}
use runboard.Audit.{RecordScopedParams, record_scoped}
use runboard.Audit.Diff.{diff_fields}
use runboard.Dto.{Patch, patched, replaced, is_given, is_present, key_if, Json, or_null_text}

-- The schema fills in MEDIUM for a priority that is left out.
pub record CreateCaseDto : Type 0 where
  pub suite_id : Uuid
  pub title : String
  pub preconditions : Option String
  pub steps : List Step
  pub expected_result : String
  pub priority : CasePriority

pub record UpdateCaseDto : Type 0 where
  pub suite_id : Option Uuid
  pub title : Option String
  pub preconditions : Patch String
  pub steps : Option (List Step)
  pub expected_result : Option String
  pub priority : Option CasePriority

abbrev case_params : AuditAction → Uuid → Metadata → RecordScopedParams
case_params action case_id metadata = record {
  action = action;
  target_type = AuditTargetType.test_case;
  target_id = some case_id;
  metadata = metadata;
}

abbrev pub new_case : Uuid → Uuid → CreateCaseDto → TestCase
new_case id user_id dto = record {
  id = id;
  organization_id = 0;
  suite_id = dto.suite_id;
  title = dto.title;
  preconditions = dto.preconditions;
  steps = dto.steps;
  expected_result = dto.expected_result;
  priority = dto.priority;
  created_by_id = user_id;
}

abbrev pub change_case : UpdateCaseDto → TestCase → TestCase
change_case dto c = record c {
  suite_id = replaced dto.suite_id c.suite_id;
  title = replaced dto.title c.title;
  preconditions = patched dto.preconditions c.preconditions;
  steps = replaced dto.steps c.steps;
  expected_result = replaced dto.expected_result c.expected_result;
  priority = replaced dto.priority c.priority;
}

-- `Object.keys(dto)`
abbrev keys_of : UpdateCaseDto → List String
keys_of dto =
    key_if (is_given dto.suite_id) "suiteId"
    ++ key_if (is_given dto.title) "title"
    ++ key_if (is_present dto.preconditions) "preconditions"
    ++ key_if (is_given dto.steps) "steps"
    ++ key_if (is_given dto.expected_result) "expectedResult"
    ++ key_if (is_given dto.priority) "priority"

abbrev case_text : Json → TestCase → String → String
case_text json c field =
    if str_eq field "suiteId"
    then json.of_id c.suite_id
    else if str_eq field "title"
    then json.of_string c.title
    else if str_eq field "preconditions"
    then or_null_text json.of_string c.preconditions
    else if str_eq field "steps"
    then json.of_steps c.steps
    else if str_eq field "expectedResult"
    then json.of_string c.expected_result
    else json.of_priority c.priority

module _ (prisma : Prisma) (ctx : Option RequestContext) where
  unfoldable pub get_one : Uuid → Tx TestCase
  get_one case_id = do
    found ← find_unique prisma ctx cases (λ c. c.id == case_id)
    require not_found_error found

  unfoldable pub assert_suite_exists : Uuid → Tx (Unit {0})
  assert_suite_exists suite_id = do
    found ← find_unique prisma ctx suites (λ s. s.id == suite_id)
    suite ← require not_found_error found
    pure tt

  -- `if (dto.suiteId && dto.suiteId !== existing.suiteId)`
  abbrev pub assert_moved_suite : Option Uuid → Uuid → Tx (Unit {0})
  assert_moved_suite none old db = (ok tt, db)
  assert_moved_suite (some suite_id) old db =
      if suite_id == old then (ok tt, db) else assert_suite_exists suite_id db

  unfoldable pub create_tx : Uuid → Uuid → CreateCaseDto → Tx TestCase
  create_tx id user_id dto = do
    assert_suite_exists dto.suite_id
    create_row prisma ctx cases (new_case id user_id dto)
    record_scoped prisma ctx (case_params AuditAction.case_created id Metadata.nothing)
    pure (created prisma ctx cases (new_case id user_id dto))

  unfoldable pub create : Uuid → Uuid → CreateCaseDto → Tx TestCase
  create id user_id dto = prisma.transaction (create_tx id user_id dto)

  unfoldable pub update_tx : Json → Uuid → UpdateCaseDto → Tx TestCase
  update_tx json case_id dto = do
    found ← find_unique prisma ctx cases (λ c. c.id == case_id)
    existing ← require not_found_error found
    assert_moved_suite dto.suite_id existing.suite_id
    updated ← update_row prisma ctx cases (λ c. c.id == case_id) (change_case dto)
    record_scoped prisma ctx (
        case_params AuditAction.case_updated updated.id (
          Metadata.changed
            (diff_fields (case_text json existing) (case_text json updated) (keys_of dto))))
    pure updated

  unfoldable pub update : Json → Uuid → UpdateCaseDto → Tx TestCase
  update json case_id dto = prisma.transaction (update_tx json case_id dto)

  -- `unlink` is what Postgres does to the rows that refer to a case, by the schema's foreign keys.
  unfoldable pub remove_tx : (Uuid → Db → Db) → Uuid → Tx (Unit {0})
  remove_tx unlink case_id = do
    found ← find_unique prisma ctx cases (λ c. c.id == case_id)
    existing ← require not_found_error found
    delete_rows prisma ctx cases (λ c. c.id == case_id)
    λ db. (ok tt, unlink case_id db)
    record_scoped prisma ctx (case_params AuditAction.case_deleted case_id Metadata.nothing)

  unfoldable pub remove : (Uuid → Db → Db) → Uuid → Tx (Unit {0})
  remove unlink case_id = prisma.transaction (remove_tx unlink case_id)
