-- ===== src/Tenant.antt =====
-- backend/src/prisma/tenant.extension.ts: every query on a tenant model is narrowed to the
-- organisation of the request before it runs; without one it is refused.
pub mod Tables
pub mod Client
pub mod Isolation
pub mod Effects
pub mod Listings
pub mod Pages
use runboard.Prelude.{
  ℕ, ◌==◌, Bool, true, false, ◌&&◌, Option, none, some, List, [], ◌∷◌, map, if◌then◌else◌,
}
use runboard.Schema.{Uuid, Db}
use runboard.Exec.{Failure, Result, ok, err, Tx, tenant_context_missing, unique_violation, internal}
use runboard.Exec.{◌>>=◌, ◌>>◌, pure, raise, gets, put}
use runboard.Context.{RequestContext, organization_of}
use runboard.Prisma.{Prisma}

pub data Model : Type 0 where
  user refresh_token organization audit_log : Model
  membership invitation test_suite test_case test_run : Model
  test_run_case test_run_assignee bug_report : Model

abbrev pub tenant_models : Model → Bool
tenant_models Model.user = false
tenant_models Model.refresh_token = false
tenant_models Model.organization = false
tenant_models Model.audit_log = false
tenant_models _ = true

-- A model's rows in the database, its organisation column, and whether two of its rows break a
-- unique constraint.
pub record Table (Row : Type 0) : Type 0 where
  pub model : Model
  pub rows : Db → List Row
  pub set_rows : List Row → Db → Db
  pub org : Row → Uuid
  pub with_org : Uuid → Row → Row
  pub clash : Row → Row → Bool

-- An operation with its arguments: `where` as a test on rows, `data` as a row or a change.
-- `read` stands for the find operations, `count`, `aggregate` and `groupBy`.
pub data Query (Row : Type 0) : Type 0 where
  create : Row → Query Row
  create_many : List Row → Query Row
  upsert : (Row → Bool) → Row → (Row → Row) → Query Row
  read : (Row → Bool) → Query Row
  update : (Row → Bool) → (Row → Row) → Query Row
  delete : (Row → Bool) → Query Row

abbrev pub missing_tenant_context : Failure
missing_tenant_context = record { status = 500; code = tenant_context_missing }

module _ {Row : Type 0} (table : Table Row) where
  abbrev pub within : Uuid → (Row → Bool) → Row → Bool
  within organization_id where_ row = where_ row && table.org row == organization_id

  -- Where the caller's `where` names an organisation itself the source overwrites it; here both
  -- conditions hold.
  abbrev pub apply_tenant_scope : Query Row → Uuid → Query Row
  apply_tenant_scope (create row) org = create (table.with_org org row)
  apply_tenant_scope (create_many rows) org = create_many (map (table.with_org org) rows)
  apply_tenant_scope (upsert where_ row change) org =
      upsert (within org where_) (table.with_org org row) change
  apply_tenant_scope (read where_) org = read (within org where_)
  apply_tenant_scope (update where_ change) org = update (within org where_) change
  apply_tenant_scope (delete where_) org = delete (within org where_)

  -- `$allOperations`
  unfoldable pub all_operations : Option RequestContext → Query Row → Result (Query Row)
  all_operations ctx query =
      if tenant_models table.model
      then elim (organization_of ctx) [
        | none ↦ err missing_tenant_context
        | some org ↦ ok (apply_tenant_scope query org)
      ]
      else ok query

-- How Prisma runs a query: what it answers and what it leaves of the rows.
module _ (prisma : Prisma) {Row : Type 0} (table : Table Row) where
  abbrev pub create_all : List Row → List Row → Option (List Row)
  create_all [] rows = some rows
  create_all (new ∷ news) rows = elim (prisma.create table.clash new rows) [
    | none ↦ none
    | some rows' ↦ create_all news rows'
  ]

  abbrev pub write : Query Row → List Row → Option (List Row)
  write (create row) rows = prisma.create table.clash row rows
  write (create_many news) rows = create_all news rows
  write (upsert where_ row change) rows = elim (prisma.find_one where_ rows) [
    | none ↦ prisma.create table.clash row rows
    | some _ ↦ some (prisma.update where_ change rows)
  ]
  write (read where_) rows = some rows
  write (update where_ change) rows = some (prisma.update where_ change rows)
  write (delete where_) rows = some (prisma.delete where_ rows)

  abbrev pub answer_one : Query Row → List Row → Option Row
  answer_one (read where_) rows = prisma.find_one where_ rows
  answer_one (update where_ change) rows = prisma.find_one where_ rows
  answer_one (delete where_) rows = prisma.find_one where_ rows
  answer_one _ rows = none

  abbrev pub answer_many : Query Row → List Row → List Row
  answer_many (read where_) rows = prisma.find_many where_ rows
  answer_many _ rows = []

  abbrev pub answer_count : Query Row → List Row → ℕ
  answer_count (read where_) rows = prisma.count_rows where_ rows
  answer_count _ rows = 0
