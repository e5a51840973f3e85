-- ===== src/Dashboard.antt =====
-- backend/src/dashboard/dashboard.service.ts: the numbers of an organisation at a glance.
pub mod Sums
pub mod Groups
pub mod Distribution
pub mod Summary
use mathlib.Core.List.{reverse}
use runboard.Prelude.{
  ℕ, ℤ, pos, ◌+ℤ◌, ◌-ℤ◌, ◌==◌, pos_part, Bool, true, String, Option, none, some, List, [], ◌∷◌, map,
  length, if◌then◌else◌, ◌||◌,
}
use runboard.Schema.{
  Uuid, Time, Db, RunStatus, status_index, status_eq, BugSeverity, severity_index, BugStatus,
  TestRun, BugReport,
}
use runboard.Exec.{Tx, ◌>>=◌, pure}
use runboard.Context.{RequestContext}
use runboard.Prisma.{Prisma}
use runboard.Floats.{Floats}
use runboard.Tenant.Tables.{cases, runs, bugs}
use runboard.Tenant.Client.{count_rows}
use runboard.Tenant.Listings.{take, find_ordered, group_by}
use runboard.Bugs.{bug_status_rank}
use runboard.Runs.Counters.{RunCounterFields, RunCounters, compute_counters, counter_fields}

abbrev pub is_open : BugReport → Bool
is_open bug = bug_status_rank bug.status == 0 || bug_status_rank bug.status == 1

abbrev recent_runs_take : ℕ
recent_runs_take = 5

abbrev pub add_fields : RunCounterFields → RunCounterFields → RunCounterFields
add_fields a b = record {
  total = a.total +ℤ b.total;
  passed = a.passed +ℤ b.passed;
  failed = a.failed +ℤ b.failed;
  blocked = a.blocked +ℤ b.blocked;
  skipped = a.skipped +ℤ b.skipped;
}

abbrev pub no_fields : RunCounterFields
no_fields = record {
  total = pos 0;
  passed = pos 0;
  failed = pos 0;
  blocked = pos 0;
  skipped = pos 0;
}

-- `_sum` of a group, with `?? 0`
abbrev pub sum_fields : List TestRun → RunCounterFields
sum_fields [] = no_fields
sum_fields (run ∷ rows) = add_fields (counter_fields run) (sum_fields rows)

-- What a loop over groups leaves in the variable that is assigned at the value with the index.
abbrev pub assigned : {Row : Type 0} → ℕ → ℕ × List Row → ℕ → ℕ
assigned index (key, rows) value = if key == index then length rows else value

pub record Totals : Type 0 where
  pub active : ℕ
  pub completed : ℕ
  pub fields : RunCounterFields

-- `for (const group of statusGroups)`
abbrev pub add_groups : List (ℕ × List TestRun) → Totals → Totals
add_groups [] totals = totals
add_groups ((key, rows) ∷ groups) totals = add_groups groups (record {
  active = assigned (status_index RunStatus.in_progress) (key, rows) totals.active;
  completed = assigned (status_index RunStatus.completed) (key, rows) totals.completed;
  fields = add_fields totals.fields (sum_fields rows);
})

pub record OpenBugs : Type 0 where
  pub minor : ℕ
  pub major : ℕ
  pub critical : ℕ

-- `for (const group of openBugGroups)`
abbrev pub count_bugs : List (ℕ × List BugReport) → OpenBugs → OpenBugs
count_bugs [] bugs = bugs
count_bugs (group ∷ groups) bugs = count_bugs groups (record {
  minor = assigned (severity_index BugSeverity.minor) group bugs.minor;
  major = assigned (severity_index BugSeverity.major) group bugs.major;
  critical = assigned (severity_index BugSeverity.critical) group bugs.critical;
})

pub record ResultDistribution : Type 0 where
  pub pass : ℤ
  pub fail : ℤ
  pub blocked : ℤ
  pub skipped : ℤ
  pub pending : ℤ

-- `Math.max(…, 0)`
abbrev pub at_least_zero : ℤ → ℤ
at_least_zero n = pos (pos_part n)

abbrev pub distribution : RunCounterFields → ResultDistribution
distribution sums = record {
  pass = sums.passed;
  fail = sums.failed;
  blocked = sums.blocked;
  skipped = sums.skipped;
  pending =
      at_least_zero (sums.total -ℤ sums.passed -ℤ sums.failed -ℤ sums.blocked -ℤ sums.skipped);
}

module _ (floats : Floats) where
  pub record RecentRun : Type 0 where
    pub id : Uuid
    pub name : String
    pub status : RunStatus
    pub counters : RunCounters floats
    pub created_at : Time
    pub started_at : Option Time
    pub completed_at : Option Time

  pub record DashboardSummary : Type 0 where
    pub active : ℕ
    pub completed : ℕ
    pub cases_total : ℕ
    pub result_distribution : ResultDistribution
    pub open_bugs : OpenBugs
    pub recent_runs : List RecentRun

  pub record TrendPoint : Type 0 where
    pub run_id : Uuid
    pub name : String
    pub completed_at : Option Time
    pub pass_rate : floats.Float
    pub total : ℤ

module _ (floats : Floats) (created_at : TestRun → Time) where
  abbrev pub recent_run : TestRun → RecentRun floats
  recent_run run = record {
    id = run.id;
    name = run.name;
    status = run.status;
    counters = compute_counters floats (counter_fields run);
    created_at = created_at run;
    started_at = run.started_at;
    completed_at = run.completed_at;
  }

  abbrev pub summary_of :
      List (ℕ × List TestRun)
      → ℕ
      → List (ℕ × List BugReport)
      → List TestRun
      → DashboardSummary floats
  summary_of status_groups cases_total open_bug_groups recent_runs =
      let totals =
        add_groups status_groups (record { active = 0; completed = 0; fields = no_fields }) in
      record {
        active = totals.active;
        completed = totals.completed;
        cases_total = cases_total;
        result_distribution = distribution totals.fields;
        open_bugs = count_bugs open_bug_groups (record { minor = 0; major = 0; critical = 0 });
        recent_runs = map recent_run recent_runs;
      }

  -- The four queries are sent together; they read one database here.
  unfoldable pub summary : Prisma → Option RequestContext → Tx (DashboardSummary floats)
  summary prisma ctx = do
    status_groups ← group_by prisma ctx runs (λ run. status_index run.status) (λ _. true)
    cases_total ← count_rows prisma ctx cases (λ _. true)
    open_bug_groups ← group_by prisma ctx bugs (λ bug. severity_index bug.severity) is_open
    recent_runs ← find_ordered prisma ctx runs created_at (λ _. true)
    pure (summary_of status_groups cases_total open_bug_groups (take recent_runs_take recent_runs))

-- The time by which runs that are completed are ordered; those have one.
abbrev pub completion : TestRun → Time
completion run = elim run.completed_at [ none ↦ 0 | some at ↦ at ]

module _ (floats : Floats) where
  abbrev pub trend_point : TestRun → TrendPoint floats
  trend_point run = record {
    run_id = run.id;
    name = run.name;
    completed_at = run.completed_at;
    pass_rate = (compute_counters floats (counter_fields run)).pass_rate;
    total = run.total_count;
  }

  unfoldable pub pass_rate_trend :
      Prisma → Option RequestContext → (limit : ℕ) → Tx (List (TrendPoint floats))
  pass_rate_trend prisma ctx limit = do
    rows ← find_ordered prisma ctx runs completion λ run. status_eq run.status RunStatus.completed
    pure (map trend_point (reverse (take limit rows)))
