-- ===== src/Examples/Listing.antt =====
-- Runs that are created, listed and summed up, and the audit log: the database of the example with
-- a case of a suite.
use runboard.Prelude.{ℕ, ◌+◌, ◌≡◌, refl, suc, length, map, none, some, List, [], ◌∷◌, arith}
use runboard.Schema.{
  Db, Uuid, CasePriority, AuditLog, AuditAction, AuditTargetType, Metadata, TestRun,
}
use runboard.Exec.{ok}
use runboard.Prisma.{lists}
use runboard.Prisma.Distinct.{Lists}
use runboard.Tenant.{within}
use runboard.Tenant.Tables.{runs}
use runboard.Tenant.Pages.{collect}
use runboard.Runs.Consistent.{IsConsistent}
use runboard.Runs.Setup.{CreateRunDto, create}
use runboard.Runs.Setup.Creation.{create-IsConsistent}
use runboard.Runs.Listing.{ListRunsQueryDto, listed, to_run_summary, collect-list}
use runboard.Runs.Listing as RunList
use runboard.Audit.Query
use runboard.Audit.Query.{ListAuditLogsDto}
use runboard.Dashboard.{DashboardSummary, summary}
use runboard.Dashboard.Summary.{Describes, summary-Describes}
use runboard.Examples.Data.{thousandths, tester_context, one_run}

abbrev with_case : Db
with_case = record one_run {
  cases =
      record {
        id = 50;
        organization_id = 1;
        suite_id = 40;
        title = "Log in";
        preconditions = none;
        steps = [];
        expected_result = "The dashboard";
        priority = CasePriority.high;
        created_by_id = 7;
      }
      ∷ [];
}

abbrev of_suite : CreateRunDto
of_suite = record {
  name = "Nightly";
  description = none;
  suite_ids = 40 ∷ [];
  case_ids = [];
  assignee_ids = 7 ∷ [];
}

with_case-IsConsistent : IsConsistent with_case
with_case-IsConsistent = record {
  run_ids = omega arith;
  case_ids = omega arith;
  counters = (
    record { total = refl; passed = refl; failed = refl; blocked = refl; skipped = refl },
    (record { total = refl; passed = refl; failed = refl; blocked = refl; skipped = refl }, tt),
  );
}

create-IsConsistent_example :
    IsConsistent (create lists tester_context 22 (λ n. 60 + n) 7 99 of_suite with_case).1
create-IsConsistent_example =
    create-IsConsistent lists tester_context refl 22 (λ n. 60 + n) 7 99 of_suite with_case
      with_case-IsConsistent (omega arith)

summary-Describes_example :
    (s : DashboardSummary thousandths) × (summary thousandths
        (λ r. r.id)
        lists
        tester_context
        with_case
      ≡ (ok s, with_case))
    × Describes thousandths 1 with_case s
summary-Describes_example =
    summary-Describes thousandths (λ r. r.id) lists tester_context refl with_case
      with_case-IsConsistent (refl, (refl, tt))

abbrev one_by_one : ListRunsQueryDto
one_by_one = record { status = none; assigned_to_me = none; take = 1 }

collect-list_example :
    (items : List TestRun) × Lists
      (λ r. r.id)
      (within runs 1 (listed one_by_one 7 []))
      with_case.runs
      items
    × (collect
          (λ request. RunList.list thousandths (λ r. r.id) lists tester_context one_by_one 7)
          (suc (length items))
          none
          with_case
        ≡ (
          ok (map (to_run_summary thousandths (λ r. r.id) lists tester_context with_case) items),
          with_case,
        ))
collect-list_example =
    collect-list thousandths (λ r. r.id) tester_context with_case (λ request. lists) refl one_by_one
      7 (omega arith) (omega arith) (omega arith)

abbrev entry : ℕ → Uuid → AuditLog
entry target organization_id = record {
  organization_id = some organization_id;
  actor_id = some 7;
  actor_email = none;
  action = AuditAction.case_created;
  target_type = AuditTargetType.test_case;
  target_id = some target;
  metadata = Metadata.nothing;
  ip = none;
  user_agent = none;
}

abbrev target_of : AuditLog → Uuid
target_of log = elim log.target_id [ none ↦ 0 | some id ↦ id ]

abbrev with_log : Db
with_log = record one_run { audit_logs = entry 1 1 ∷ entry 2 5 ∷ entry 3 1 ∷ [] }

abbrev all_entries : ListAuditLogsDto
all_entries = record {
  take = 1;
  action = none;
  actor_id = none;
  target_type = none;
  target_id = none;
  from = none;
  until = none;
}
