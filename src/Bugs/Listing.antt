-- ===== src/Bugs/Listing.antt =====
-- `list` and `getOne` of backend/src/bugs/bugs.service.ts.
use runboard.Prelude.{ℕ, ◌+◌, ◌==◌, Bool, false, ◌&&◌, Option, none, some}
use runboard.Schema.{Uuid, Time, Db, BugSeverity, severity_index, BugStatus, BugReport, TestRunCase}
use runboard.Exec.{Tx, ◌>>=◌, gets, pure, require, not_found_error}
use runboard.Context.{RequestContext}
use runboard.Prisma.{Prisma}
use runboard.Tenant.Tables.{bugs}
use runboard.Tenant.Client.{find_unique}
use runboard.Tenant.Listings.{asked, Page, page_of, find_page}
use runboard.Bugs.{bug_status_rank}

pub record ListBugsQueryDto : Type 0 where
  pub status : Option BugStatus
  pub severity : Option BugSeverity
  pub test_run_id : Option Uuid
  pub take : ℕ

module _ (prisma : Prisma) where
  -- The relation `runCase` of a bug, which is read without the tenant scope.
  abbrev pub run_case : BugReport → Db → Option TestRunCase
  run_case bug db = elim bug.test_run_case_id [
    | none ↦ none
    | some id ↦ prisma.find_one (λ (c : TestRunCase). c.id == id) db.run_cases
  ]

  abbrev pub is_of_run : Uuid → Option TestRunCase → Bool
  is_of_run run_id none = false
  is_of_run run_id (some c) = c.test_run_id == run_id

  abbrev pub listed : ListBugsQueryDto → Db → BugReport → Bool
  listed query db bug =
      asked query.status (λ status. bug_status_rank bug.status == bug_status_rank status)
      && asked query.severity (λ severity. severity_index bug.severity == severity_index severity)
      && asked query.test_run_id (λ run_id. is_of_run run_id (run_case bug db))

module _ (created : BugReport → Time) (prisma : Prisma) (ctx : Option RequestContext) where
  unfoldable pub list : ListBugsQueryDto → (cursor : Option Uuid) → Tx (Page BugReport)
  list query cursor = do
    db ← gets (λ db. db)
    rows ←
        find_page prisma ctx bugs created (listed prisma query db) (λ bug. bug.id) (query.take + 1)
          cursor
    pure (page_of (λ bug. bug.id) query.take rows)

  unfoldable pub get_one : Uuid → Tx (BugReport × Option TestRunCase)
  get_one bug_id = do
    found ← find_unique prisma ctx bugs (λ bug. bug.id == bug_id)
    bug ← require not_found_error found
    gets (λ db. (bug, run_case prisma bug db))
