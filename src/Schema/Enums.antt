-- ===== src/Schema/Enums.antt =====
-- The enums of backend/prisma/schema.prisma, with the equality tests that the code uses on them.
use mathlib.Core.Bool.{Bool}
use runboard.Prelude.{ℕ, ◌==◌}

pub data Role : Type 0 where
  admin qa_lead tester viewer : Role

pub data InviteStatus : Type 0 where
  pending accepted revoked expired : InviteStatus

pub data CasePriority : Type 0 where
  low medium high critical : CasePriority

pub data RunStatus : Type 0 where
  planned in_progress completed aborted : RunStatus

pub data RunCaseResult : Type 0 where
  pending pass fail blocked skipped : RunCaseResult

pub data BugSeverity : Type 0 where
  minor major critical : BugSeverity

pub data BugStatus : Type 0 where
  opened in_progress resolved wontfix : BugStatus

pub data AuditAction : Type 0 where
  org_created member_invited member_joined member_role_changed member_removed : AuditAction
  suite_created suite_updated suite_deleted case_created case_updated case_deleted : AuditAction
  run_created run_started run_completed run_aborted run_assignees_changed : AuditAction
  runcase_result_recorded bug_created bug_status_changed bug_updated : AuditAction
  auth_login_succeeded auth_login_failed auth_refresh_reuse_detected : AuditAction

pub data AuditTargetType : Type 0 where
  organization membership invitation test_suite test_case test_run : AuditTargetType
  test_run_case bug_report user : AuditTargetType

-- The place of a value in its enum; `===` on enum values compares these.
abbrev pub role_index : Role → ℕ
role_index Role.admin = 0
role_index Role.qa_lead = 1
role_index Role.tester = 2
role_index Role.viewer = 3

abbrev pub role_eq : Role → Role → Bool
role_eq a b = role_index a == role_index b

abbrev pub status_index : RunStatus → ℕ
status_index RunStatus.planned = 0
status_index RunStatus.in_progress = 1
status_index RunStatus.completed = 2
status_index RunStatus.aborted = 3

abbrev pub status_eq : RunStatus → RunStatus → Bool
status_eq a b = status_index a == status_index b

abbrev pub result_index : RunCaseResult → ℕ
result_index RunCaseResult.pending = 0
result_index RunCaseResult.pass = 1
result_index RunCaseResult.fail = 2
result_index RunCaseResult.blocked = 3
result_index RunCaseResult.skipped = 4

abbrev pub result_eq : RunCaseResult → RunCaseResult → Bool
result_eq a b = result_index a == result_index b

abbrev pub severity_index : BugSeverity → ℕ
severity_index BugSeverity.minor = 0
severity_index BugSeverity.major = 1
severity_index BugSeverity.critical = 2

abbrev pub priority_index : CasePriority → ℕ
priority_index CasePriority.low = 0
priority_index CasePriority.medium = 1
priority_index CasePriority.high = 2
priority_index CasePriority.critical = 3

abbrev pub action_index : AuditAction → ℕ
action_index AuditAction.org_created = 0
action_index AuditAction.member_invited = 1
action_index AuditAction.member_joined = 2
action_index AuditAction.member_role_changed = 3
action_index AuditAction.member_removed = 4
action_index AuditAction.suite_created = 5
action_index AuditAction.suite_updated = 6
action_index AuditAction.suite_deleted = 7
action_index AuditAction.case_created = 8
action_index AuditAction.case_updated = 9
action_index AuditAction.case_deleted = 10
action_index AuditAction.run_created = 11
action_index AuditAction.run_started = 12
action_index AuditAction.run_completed = 13
action_index AuditAction.run_aborted = 14
action_index AuditAction.run_assignees_changed = 15
action_index AuditAction.runcase_result_recorded = 16
action_index AuditAction.bug_created = 17
action_index AuditAction.bug_status_changed = 18
action_index AuditAction.bug_updated = 19
action_index AuditAction.auth_login_succeeded = 20
action_index AuditAction.auth_login_failed = 21
action_index AuditAction.auth_refresh_reuse_detected = 22

abbrev pub target_index : AuditTargetType → ℕ
target_index AuditTargetType.organization = 0
target_index AuditTargetType.membership = 1
target_index AuditTargetType.invitation = 2
target_index AuditTargetType.test_suite = 3
target_index AuditTargetType.test_case = 4
target_index AuditTargetType.test_run = 5
target_index AuditTargetType.test_run_case = 6
target_index AuditTargetType.bug_report = 7
target_index AuditTargetType.user = 8
