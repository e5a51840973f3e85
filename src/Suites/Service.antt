-- ===== src/Suites/Service.antt =====
-- backend/src/suites/suites.service.ts: creating, moving and removing the suites of a tree.
pub mod Forest
pub mod Outcome
use text.Mathlib.Text.{◌==◌ as str_eq}
use runboard.Prelude.{
  ℕ, ◌==◌, Bool, true, false, not, String, Option, none, some, List, ◌++◌, any, map, if◌then◌else◌,
}
use runboard.Schema.{Uuid, Db, TestSuite, AuditAction, AuditTargetType, Metadata}
use runboard.Exec.{
  Failure, Tx, ◌>>=◌, ◌>>◌, pure, require, guard, put, not_found_error, validation_failed,
}
use runboard.Context.{RequestContext}
use runboard.Prisma.{Prisma}
use runboard.Tenant.Tables.{suites}
use runboard.Tenant.Client.{find_unique, find_many, create_row, created, update_row, delete_rows}
use runboard.Audit.{RecordScopedParams, record_scoped}
use runboard.Audit.Diff.{diff_fields}
use runboard.Dto.{Patch, value, patched, replaced, is_given, is_present, key_if, Json, or_null_text}
use runboard.Suites.Rules.{SuiteEdge, creates_cycle, exceeds_max_depth}

pub record CreateSuiteDto : Type 0 where
  pub name : String
  pub description : Option String
  pub parent_id : Option Uuid
  pub position : Option ℕ

pub record UpdateSuiteDto : Type 0 where
  pub name : Option String
  pub description : Patch String
  pub parent_id : Patch Uuid
  pub position : Option ℕ

abbrev pub bad_request : Failure
bad_request = record { status = 400; code = validation_failed }

abbrev suite_params : AuditAction → Uuid → Metadata → RecordScopedParams
suite_params action suite_id metadata = record {
  action = action;
  target_type = AuditTargetType.test_suite;
  target_id = some suite_id;
  metadata = metadata;
}

abbrev pub edge_of : TestSuite → SuiteEdge
edge_of s = record { id = s.id; parent_id = s.parent_id }

-- The row that `create` asks for; the tenant extension sets the organisation.
abbrev pub new_suite : Uuid → Uuid → CreateSuiteDto → TestSuite
new_suite id user_id dto = record {
  id = id;
  organization_id = 0;
  parent_id = dto.parent_id;
  name = dto.name;
  description = dto.description;
  position = replaced dto.position 0;
  created_by_id = user_id;
}

abbrev pub change_suite : UpdateSuiteDto → TestSuite → TestSuite
change_suite dto s = record s {
  name = replaced dto.name s.name;
  description = patched dto.description s.description;
  parent_id = patched dto.parent_id s.parent_id;
  position = replaced dto.position s.position;
}

-- `Object.keys(dto)`
abbrev keys_of : UpdateSuiteDto → List String
keys_of dto =
    key_if (is_given dto.name) "name"
    ++ key_if (is_present dto.description) "description"
    ++ key_if (is_present dto.parent_id) "parentId"
    ++ key_if (is_given dto.position) "position"

-- The JSON text of a field that an update may name.
abbrev suite_text : Json → TestSuite → String → String
suite_text json s field =
    if str_eq field "name"
    then json.of_string s.name
    else if str_eq field "description"
    then or_null_text json.of_string s.description
    else if str_eq field "parentId"
    then or_null_text json.of_id s.parent_id
    else json.of_number s.position

-- The parent that has to be checked: one that is given and differs from the present one.
abbrev pub checked_parent : Patch Uuid → Option Uuid → Option Uuid
checked_parent (value p) (some old) = if p == old then none else some p
checked_parent (value p) none = some p
checked_parent _ old = none

module _ (prisma : Prisma) (ctx : Option RequestContext) where
  load_edges : Tx (List SuiteEdge)
  load_edges = do rows ← find_many prisma ctx suites (λ s. true); pure (map edge_of rows)

  -- `excludeSuiteId && createsCycle(…)`
  abbrev pub cycle_with : List SuiteEdge → Option Uuid → Uuid → Bool
  cycle_with edges none parent_id = false
  cycle_with edges (some suite_id) parent_id = creates_cycle edges suite_id parent_id

  unfoldable pub assert_parent_is_usable : Uuid → Option Uuid → Tx (Unit {0})
  unfolding load_edges
  assert_parent_is_usable parent_id exclude_suite_id = do
    edges ← load_edges
    guard (any (λ e. e.id == parent_id) edges) not_found_error
    guard (not (cycle_with edges exclude_suite_id parent_id)) bad_request
    guard (not (exceeds_max_depth edges parent_id)) bad_request

  -- The check of a parent, if there is one to check.
  abbrev pub assert_usable_if : Option Uuid → Option Uuid → Tx (Unit {0})
  assert_usable_if none exclude_suite_id = pure tt
  assert_usable_if (some parent_id) exclude_suite_id =
      assert_parent_is_usable parent_id exclude_suite_id

  -- `id` is the UUID that the database draws.
  unfoldable pub create_tx : Uuid → Uuid → CreateSuiteDto → Tx TestSuite
  create_tx id user_id dto = do
    assert_usable_if dto.parent_id none
    create_row prisma ctx suites (new_suite id user_id dto)
    record_scoped prisma ctx (suite_params AuditAction.suite_created id Metadata.nothing)
    pure (created prisma ctx suites (new_suite id user_id dto))

  unfoldable pub create : Uuid → Uuid → CreateSuiteDto → Tx TestSuite
  create id user_id dto = prisma.transaction (create_tx id user_id dto)

  unfoldable pub update_tx : Json → Uuid → UpdateSuiteDto → Tx TestSuite
  update_tx json suite_id dto = do
    found ← find_unique prisma ctx suites (λ s. s.id == suite_id)
    existing ← require not_found_error found
    assert_usable_if (checked_parent dto.parent_id existing.parent_id) (some suite_id)
    updated ← update_row prisma ctx suites (λ s. s.id == suite_id) (change_suite dto)
    record_scoped prisma ctx (
        suite_params AuditAction.suite_updated updated.id (
          Metadata.changed
            (diff_fields (suite_text json existing) (suite_text json updated) (keys_of dto))))
    pure updated

  unfoldable pub update : Json → Uuid → UpdateSuiteDto → Tx TestSuite
  update json suite_id dto = prisma.transaction (update_tx json suite_id dto)

  -- `cascade` is what Postgres deletes along with a suite by the foreign keys of the schema.
  unfoldable pub remove_tx : (Uuid → Db → Db) → Uuid → Tx (Unit {0})
  remove_tx cascade suite_id = do
    found ← find_unique prisma ctx suites (λ s. s.id == suite_id)
    existing ← require not_found_error found
    delete_rows prisma ctx suites (λ s. s.id == suite_id)
    λ db. put (cascade suite_id db) db
    record_scoped prisma ctx (suite_params AuditAction.suite_deleted suite_id Metadata.nothing)

  unfoldable pub remove : (Uuid → Db → Db) → Uuid → Tx (Unit {0})
  remove cascade suite_id = prisma.transaction (remove_tx cascade suite_id)
