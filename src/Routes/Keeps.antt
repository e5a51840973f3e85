-- ===== src/Routes/Keeps.antt =====
-- The handlers that write nothing.
use runboard.Prelude.{◌≡◌, refl, ◌==◌, ℕ, Option, some, find, Option-cases, inl, inr}
use runboard.Schema.{Uuid, Db, Organization}
use runboard.Context.{RequestContext, organization_of}
use runboard.Guards.{AuthenticatedUser}
use runboard.Tenant.{within}
use runboard.Tenant.Tables.{cases, bugs, runs}
use runboard.Tenant.Client.{find_unique_lem, count_rows_lem}
use runboard.Tenant.Listings.{find_ordered_lem, group_by_lem}
use runboard.Cases
use runboard.Cases.Listing as CaseList
use runboard.Bugs.Listing as BugList
use runboard.Runs.Listing as RunList
use runboard.Dashboard.{summary, pass_rate_trend}
use runboard.Routes.{
  of_cases, of_bugs, of_runs, of_dashboard, of_organizations, get_organization, Env, handler,
  list_cases, get_case, list_bugs, get_bug, list_runs, get_run, dashboard_summary, dashboard_trend,
}

module _ (env : Env) (org : Uuid) (user : AuthenticatedUser) (ctx : Option RequestContext)
    (inside : organization_of ctx ≡ some org) (db : Db) where
  pub list_cases-Keeps :
      (query : CaseList.ListCasesQueryDto) (cursor : Option Uuid)
      → (handler env org user (of_cases (list_cases query cursor)) ctx db).1 ≡ db
  unfolding handler CaseList.list
  list_cases-Keeps query cursor = rw (find_ordered_lem env.prisma ctx cases refl inside db) refl

  pub get_case-Keeps :
      (case_id : Uuid) → (handler env org user (of_cases (get_case case_id)) ctx db).1 ≡ db
  unfolding handler Cases.get_one
  get_case-Keeps case_id =
      rw (find_unique_lem env.prisma ctx cases refl inside db)
        (elim (Option-cases (find (within cases org (λ c. c.id == case_id)) db.cases)) [
          | inl missing ↦ rw missing refl
          | inr (c, found) ↦ rw found refl
        ])

  pub list_bugs-Keeps :
      (query : BugList.ListBugsQueryDto) (cursor : Option Uuid)
      → (handler env org user (of_bugs (list_bugs query cursor)) ctx db).1 ≡ db
  unfolding handler BugList.list
  list_bugs-Keeps query cursor = rw (find_ordered_lem env.prisma ctx bugs refl inside db) refl

  pub get_bug-Keeps :
      (bug_id : Uuid) → (handler env org user (of_bugs (get_bug bug_id)) ctx db).1 ≡ db
  unfolding handler BugList.get_one
  get_bug-Keeps bug_id =
      rw (find_unique_lem env.prisma ctx bugs refl inside db)
        (elim (Option-cases (find (within bugs org (λ b. b.id == bug_id)) db.bugs)) [
          | inl missing ↦ rw missing refl
          | inr (b, found) ↦ rw found refl
        ])

  pub list_runs-Keeps :
      (query : RunList.ListRunsQueryDto) (cursor : Option Uuid)
      → (handler env org user (of_runs (list_runs query cursor)) ctx db).1 ≡ db
  unfolding handler RunList.list
  list_runs-Keeps query cursor = rw (find_ordered_lem env.prisma ctx runs refl inside db) refl

  pub get_run-Keeps :
      (run_id : Uuid) → (handler env org user (of_runs (get_run run_id)) ctx db).1 ≡ db
  unfolding handler RunList.get_one
  get_run-Keeps run_id =
      rw (find_unique_lem env.prisma ctx runs refl inside db)
        (elim (Option-cases (find (within runs org (λ r. r.id == run_id)) db.runs)) [
          | inl missing ↦ rw missing refl
          | inr (r, found) ↦ rw found refl
        ])

  pub dashboard_summary-Keeps :
      (handler env org user (of_dashboard dashboard_summary) ctx db).1 ≡ db
  unfolding handler summary
  dashboard_summary-Keeps =
      rw
        (
          group_by_lem env.prisma ctx runs refl inside db,
          count_rows_lem env.prisma ctx cases refl inside db,
          group_by_lem env.prisma ctx bugs refl inside db,
          find_ordered_lem env.prisma ctx runs refl inside db,
        )
        refl

  pub dashboard_trend-Keeps :
      (limit : ℕ) → (handler env org user (of_dashboard (dashboard_trend limit)) ctx db).1 ≡ db
  unfolding handler pass_rate_trend
  dashboard_trend-Keeps limit = rw (find_ordered_lem env.prisma ctx runs refl inside db) refl

  pub get_organization-Keeps :
      (handler env org user (of_organizations get_organization) ctx db).1 ≡ db
  unfolding handler
  get_organization-Keeps =
      elim (Option-cases
        (env.prisma.find_one (λ (o : Organization). o.id == org) db.organizations)) [
          | inl missing ↦ rw missing refl
          | inr (o, found) ↦ rw found refl
        ]
