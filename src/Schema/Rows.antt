-- ===== src/Schema/Rows.antt =====
-- The models of backend/prisma/schema.prisma. An id stands for a UUID, which the program only
-- compares and never inspects; a time is a number of milliseconds.
use runboard.Prelude.{ℕ, ℤ, String, Option, List}
use runboard.Schema.Enums.{
  Role, InviteStatus, CasePriority, RunStatus, RunCaseResult, BugSeverity, BugStatus, AuditAction,
  AuditTargetType,
}

abbrev pub Uuid : Type 0
Uuid = ℕ

abbrev pub Time : Type 0
Time = ℕ

-- One entry of the Json columns `steps` and `stepsToReproduce`.
pub record Step : Type 0 where
  pub order : ℕ
  pub action : String
  pub expected : Option String

pub record User : Type 0 where
  pub id : Uuid
  pub email : String
  pub password_hash : String
  pub name : String

pub record RefreshToken : Type 0 where
  pub id : Uuid
  pub user_id : Uuid
  pub token_hash : String
  pub family_id : Uuid
  pub expires_at : Time
  pub revoked_at : Option Time

pub record Organization : Type 0 where
  pub id : Uuid
  pub name : String
  pub slug : String

pub record Membership : Type 0 where
  pub id : Uuid
  pub organization_id : Uuid
  pub user_id : Uuid
  pub role : Role

pub record Invitation : Type 0 where
  pub id : Uuid
  pub organization_id : Uuid
  pub email : String
  pub role : Role
  pub token_hash : String
  pub status : InviteStatus
  pub expires_at : Time
  pub invited_by_id : Uuid
  pub accepted_at : Option Time

pub record TestSuite : Type 0 where
  pub id : Uuid
  pub organization_id : Uuid
  pub parent_id : Option Uuid
  pub name : String
  pub description : Option String
  pub position : ℕ
  pub created_by_id : Uuid

pub record TestCase : Type 0 where
  pub id : Uuid
  pub organization_id : Uuid
  pub suite_id : Uuid
  pub title : String
  pub preconditions : Option String
  pub steps : List Step
  pub expected_result : String
  pub priority : CasePriority
  pub created_by_id : Uuid

pub record TestRun : Type 0 where
  pub id : Uuid
  pub organization_id : Uuid
  pub name : String
  pub description : Option String
  pub status : RunStatus
  pub created_by_id : Uuid
  pub started_at : Option Time
  pub completed_at : Option Time
  pub updated_at : Time
  pub total_count : ℤ
  pub passed_count : ℤ
  pub failed_count : ℤ
  pub blocked_count : ℤ
  pub skipped_count : ℤ

pub record TestRunCase : Type 0 where
  pub id : Uuid
  pub organization_id : Uuid
  pub test_run_id : Uuid
  pub source_case_id : Option Uuid
  pub title : String
  pub steps : List Step
  pub expected_result : String
  pub priority : CasePriority
  pub result : RunCaseResult
  pub comment : Option String
  pub recorded_by_id : Option Uuid
  pub recorded_at : Option Time
  pub position : ℕ

pub record TestRunAssignee : Type 0 where
  pub organization_id : Uuid
  pub test_run_id : Uuid
  pub user_id : Uuid

pub record BugReport : Type 0 where
  pub id : Uuid
  pub organization_id : Uuid
  pub test_run_case_id : Option Uuid
  pub title : String
  pub description : String
  pub steps_to_reproduce : List Step
  pub severity : BugSeverity
  pub status : BugStatus
  pub reported_by_id : Uuid
  pub assignee_id : Option Uuid
  pub resolved_at : Option Time

-- What the code puts into the Json column `metadata` of an audit entry; `changed` is the result
-- of `diffFields`, with each value as JSON text.
pub data Metadata : Type 0 where
  nothing : Metadata
  case_count : ℕ → Metadata
  result_change : RunCaseResult → RunCaseResult → Metadata
  status_change : RunStatus → RunStatus → Metadata
  assignee_ids : List Uuid → Metadata
  invited : String → Role → Metadata
  role_removed : Role → Metadata
  changed : List (String × String × String) → Metadata

pub record AuditLog : Type 0 where
  pub organization_id : Option Uuid
  pub actor_id : Option Uuid
  pub actor_email : Option String
  pub action : AuditAction
  pub target_type : AuditTargetType
  pub target_id : Option Uuid
  pub metadata : Metadata
  pub ip : Option String
  pub user_agent : Option String

pub record Db : Type 0 where
  pub users : List User
  pub refresh_tokens : List RefreshToken
  pub organizations : List Organization
  pub memberships : List Membership
  pub invitations : List Invitation
  pub suites : List TestSuite
  pub cases : List TestCase
  pub runs : List TestRun
  pub run_cases : List TestRunCase
  pub assignees : List TestRunAssignee
  pub bugs : List BugReport
  pub audit_logs : List AuditLog
