-- ===== src/Tenant/Tables.antt =====
-- The tables of the tenant models, with the unique constraints of schema.prisma.
use text.Mathlib.Text.{◌==◌ as str_eq}
use runboard.Prelude.{◌==◌, Bool, false, ◌&&◌, ◌||◌, Option, some}
use runboard.Schema.{
  Uuid, Membership, TestSuite, TestCase, TestRun, TestRunCase, TestRunAssignee, BugReport,
  Invitation,
}
use runboard.Tenant.{Table, Model}

abbrev pub memberships : Table Membership
memberships = record {
  model = Model.membership;
  rows = λ db. db.memberships;
  set_rows = λ rows db. record db { memberships = rows };
  org = λ r. r.organization_id;
  with_org = λ org r. record r { organization_id = org };
  clash = λ a b. a.id == b.id || (a.user_id == b.user_id && a.organization_id == b.organization_id);
}

abbrev pub suites : Table TestSuite
suites = record {
  model = Model.test_suite;
  rows = λ db. db.suites;
  set_rows = λ rows db. record db { suites = rows };
  org = λ r. r.organization_id;
  with_org = λ org r. record r { organization_id = org };
  clash = λ a b. a.id == b.id;
}

abbrev pub cases : Table TestCase
cases = record {
  model = Model.test_case;
  rows = λ db. db.cases;
  set_rows = λ rows db. record db { cases = rows };
  org = λ r. r.organization_id;
  with_org = λ org r. record r { organization_id = org };
  clash = λ a b. a.id == b.id;
}

abbrev pub runs : Table TestRun
runs = record {
  model = Model.test_run;
  rows = λ db. db.runs;
  set_rows = λ rows db. record db { runs = rows };
  org = λ r. r.organization_id;
  with_org = λ org r. record r { organization_id = org };
  clash = λ a b. a.id == b.id;
}

-- A source case that is null clashes with nothing.
abbrev same_source : Option Uuid → Option Uuid → Bool
same_source (some a) (some b) = a == b
same_source _ _ = false

abbrev pub run_cases : Table TestRunCase
run_cases = record {
  model = Model.test_run_case;
  rows = λ db. db.run_cases;
  set_rows = λ rows db. record db { run_cases = rows };
  org = λ r. r.organization_id;
  with_org = λ org r. record r { organization_id = org };
  clash = λ a b.
      a.id == b.id
      || (a.test_run_id == b.test_run_id && same_source a.source_case_id b.source_case_id);
}

abbrev pub assignees : Table TestRunAssignee
assignees = record {
  model = Model.test_run_assignee;
  rows = λ db. db.assignees;
  set_rows = λ rows db. record db { assignees = rows };
  org = λ r. r.organization_id;
  with_org = λ org r. record r { organization_id = org };
  clash = λ a b. a.test_run_id == b.test_run_id && a.user_id == b.user_id;
}

abbrev pub bugs : Table BugReport
bugs = record {
  model = Model.bug_report;
  rows = λ db. db.bugs;
  set_rows = λ rows db. record db { bugs = rows };
  org = λ r. r.organization_id;
  with_org = λ org r. record r { organization_id = org };
  clash = λ a b. a.id == b.id;
}

abbrev pub invitations : Table Invitation
invitations = record {
  model = Model.invitation;
  rows = λ db. db.invitations;
  set_rows = λ rows db. record db { invitations = rows };
  org = λ r. r.organization_id;
  with_org = λ org r. record r { organization_id = org };
  clash = λ a b. a.id == b.id || str_eq a.token_hash b.token_hash;
}
