-- ===== src/Examples/Bugs.antt =====
-- A bug report of organisation 1 that is under way is resolved at 99.
use runboard.Prelude.{refl, All, none, some, [], ◌∷◌}
use runboard.Schema.{Db, BugSeverity, BugStatus}
use runboard.Prisma.{lists}
use runboard.Dto.{Json, Patch}
use runboard.Bugs.{UpdateBugDto, update}
use runboard.Bugs.Resolution.{HasResolution, update-HasResolution}
use runboard.Examples.Data.{thousandths, tester_context, one_run}

abbrev with_bug : Db
with_bug = record one_run {
  bugs =
      record {
        id = 60;
        organization_id = 1;
        test_run_case_id = some 30;
        title = "Broken";
        description = "It is broken";
        steps_to_reproduce = [];
        severity = BugSeverity.major;
        status = BugStatus.in_progress;
        reported_by_id = 7;
        assignee_id = none;
        resolved_at = none;
      }
      ∷ [];
}

abbrev resolve : UpdateBugDto
resolve = record {
  title = none;
  description = none;
  steps_to_reproduce = none;
  severity = none;
  status = some BugStatus.resolved;
  assignee_id = Patch.absent;
}

abbrev texts : Json
texts = record {
  of_string = λ s. s;
  of_number = λ n. "0";
  of_id = λ id. "id";
  of_steps = λ steps. "[]";
  of_priority = λ p. "p";
  of_severity = λ s. "s";
  of_status = λ s. "t";
}

update-HasResolution_example :
    All HasResolution
      (update thousandths lists tester_context 7 texts 99 60 resolve with_bug).1.bugs
update-HasResolution_example =
    update-HasResolution thousandths lists tester_context 7 refl texts 99 60 resolve with_bug
      (tt, tt) ((λ h. cc), tt)
