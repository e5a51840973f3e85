-- ===== src/Dashboard/Summary.antt =====
-- What `summary` answers.
use runboard.Prelude.{
  ℕ, ◌==◌, ◌≡◌, refl, Bool, true, ◌&&◌, Option, some, List, [], ◌∷◌, count, All, arith, ap, ◌∙◌,
}
use runboard.Prelude.Keys.{count_congr}
use runboard.Schema.{
  Uuid, Time, Db, RunStatus, status_index, BugSeverity, severity_index, TestRun, BugReport,
}
use runboard.Exec.{ok}
use runboard.Context.{RequestContext, organization_of}
use runboard.Prisma.{Prisma}
use runboard.Floats.{Floats}
use runboard.Tenant.{within}
use runboard.Tenant.Tables.{cases, runs, bugs}
use runboard.Tenant.Client.{count_rows_lem}
use runboard.Tenant.Listings.{take, find_ordered_lem, group_by_lem}
use runboard.Runs.Consistent.{IsConsistent}
use runboard.Dashboard.{
  is_open, Totals, add_groups, OpenBugs, count_bugs, DashboardSummary, summary_of, summary,
}
use runboard.Dashboard.Groups.{assign_all, assign_all_lem}
use runboard.Dashboard.Sums.{HasRun}
use runboard.Dashboard.Distribution.{Distributes, count-keep, add_groups-Distributes}

add_groups-active :
    (groups : List (ℕ × List TestRun)) (totals : Totals)
    → (add_groups groups totals).active
      ≡ assign_all (status_index RunStatus.in_progress) groups totals.active
add_groups-active [] totals = refl
add_groups-active (g ∷ groups) totals = add_groups-active groups _

add_groups-completed :
    (groups : List (ℕ × List TestRun)) (totals : Totals)
    → (add_groups groups totals).completed
      ≡ assign_all (status_index RunStatus.completed) groups totals.completed
add_groups-completed [] totals = refl
add_groups-completed (g ∷ groups) totals = add_groups-completed groups _

count_bugs-each :
    (groups : List (ℕ × List BugReport)) (b : OpenBugs)
    → count_bugs groups b ≡ record {
      minor = assign_all (severity_index BugSeverity.minor) groups b.minor;
      major = assign_all (severity_index BugSeverity.major) groups b.major;
      critical = assign_all (severity_index BugSeverity.critical) groups b.critical;
    }
count_bugs-each [] b = refl
count_bugs-each (g ∷ groups) b = count_bugs-each groups _

-- How many rows of the organisation pass.
abbrev pub ours {ℓ} : {Row : Type ℓ} → (Row → Uuid) → Uuid → (Row → Bool) → List Row → ℕ
ours org_of org p rows = count (λ r. p r && org_of r == org) rows

-- What the dashboard promises of an organisation.
pub record Describes (floats : Floats) (org : Uuid) (db : Db) (s : DashboardSummary floats)
    : Type 0 where
  pub active :
      s.active
      ≡ ours
          (λ r. r.organization_id)
          org
          (λ r. status_index r.status == status_index RunStatus.in_progress)
          db.runs
  pub completed :
      s.completed
      ≡ ours
          (λ r. r.organization_id)
          org
          (λ r. status_index r.status == status_index RunStatus.completed)
          db.runs
  pub cases_total : s.cases_total ≡ ours (λ c. c.organization_id) org (λ _. true) db.cases
  pub distribution : Distributes org db s.result_distribution
  pub minor :
      s.open_bugs.minor
      ≡ ours
          (λ b. b.organization_id)
          org
          (λ b. is_open b && severity_index b.severity == severity_index BugSeverity.minor)
          db.bugs
  pub major :
      s.open_bugs.major
      ≡ ours
          (λ b. b.organization_id)
          org
          (λ b. is_open b && severity_index b.severity == severity_index BugSeverity.major)
          db.bugs
  pub critical :
      s.open_bugs.critical
      ≡ ours
          (λ b. b.organization_id)
          org
          (λ b. is_open b && severity_index b.severity == severity_index BugSeverity.critical)
          db.bugs

module _ (floats : Floats) (created_at : TestRun → Time) (prisma : Prisma)
    (ctx : Option RequestContext) {org : Uuid} (inside : organization_of ctx ≡ some org) (db : Db)
    (h : IsConsistent db) (refers : All (HasRun db.runs) db.run_cases) where
  abbrev status_groups : List (ℕ × List TestRun)
  status_groups =
      prisma.group_by (λ run. status_index run.status) (within runs org (λ _. true)) db.runs

  abbrev bug_groups : List (ℕ × List BugReport)
  bug_groups =
      prisma.group_by (λ bug. severity_index bug.severity) (within bugs org is_open) db.bugs

  abbrev answer : DashboardSummary floats
  answer =
      summary_of floats created_at status_groups (count (within cases org (λ _. true)) db.cases)
        bug_groups (take 5 (prisma.find_ordered created_at (within runs org (λ _. true)) db.runs))

  answers : summary floats created_at prisma ctx db ≡ (ok answer, db)
  unfolding summary
  answers =
      rw
        (
          group_by_lem prisma ctx runs refl inside db,
          count_rows_lem prisma ctx cases refl inside db,
          group_by_lem prisma ctx bugs refl inside db,
          find_ordered_lem prisma ctx runs refl inside db,
        )
        refl

  bugs_lem :
      (index : ℕ)
      → assign_all index bug_groups 0
        ≡ ours
            (λ b. b.organization_id)
            org
            (λ b. is_open b && severity_index b.severity == index)
            db.bugs
  bugs_lem index =
      assign_all_lem (λ bug. severity_index bug.severity) index (prisma.group_by_lem _ _ db.bugs)
      ∙ count-keep (within bugs org is_open) (λ b. severity_index b.severity == index) db.bugs
      ∙ count_congr _ _ db.bugs (λ b. ground arith)

  runs_lem :
      (index : ℕ)
      → assign_all index status_groups 0
        ≡ ours (λ r. r.organization_id) org (λ r. status_index r.status == index) db.runs
  runs_lem index =
      assign_all_lem (λ run. status_index run.status) index (prisma.group_by_lem _ _ db.runs)
      ∙ count-keep (within runs org (λ _. true)) (λ r. status_index r.status == index) db.runs
      ∙ count_congr _ _ db.runs (λ r. ground arith)

  -- Where the counters of the runs are the results of their cases and every case refers to a run
  -- of its organisation, the dashboard answers, changes nothing, and shows the organisation's runs
  -- that are under way and completed, its cases, its open bugs of each severity, and how many of
  -- its case results are PASS, FAIL, BLOCKED, SKIPPED and PENDING, though it reads the counters only.
  pub summary-Describes :
      (s : DashboardSummary floats) × (summary floats created_at prisma ctx db ≡ (ok s, db))
      × Describes floats org db s
  summary-Describes = (
    answer,
    answers,
    record {
      active = add_groups-active status_groups _ ∙ runs_lem _;
      completed = add_groups-completed status_groups _ ∙ runs_lem _;
      cases_total = refl;
      distribution = add_groups-Distributes org db h refers (prisma.group_by_lem _ _ db.runs);
      minor = ap (λ (b : OpenBugs). b.minor) (count_bugs-each bug_groups _) ∙ bugs_lem _;
      major = ap (λ (b : OpenBugs). b.major) (count_bugs-each bug_groups _) ∙ bugs_lem _;
      critical = ap (λ (b : OpenBugs). b.critical) (count_bugs-each bug_groups _) ∙ bugs_lem _;
    },
  )
