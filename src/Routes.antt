-- ===== src/Routes.antt =====
-- The controllers of an organisation and its resources: suites, cases, bugs, runs, members,
-- invitations, audit and dashboard under backend/src. Every route below /orgs/:orgId that writes
-- is here; of the reads, the lists of suites, of a run's cases, of members and of invitations are
-- left out. A route has the role of its `@RequireRole` and a handler
-- that calls a service. The body of the answer is left out here.
pub mod Keeps
pub mod Viewer
use runboard.Prelude.{ℕ, Bool, true, false, String, Option, none, some, List, if◌then◌else◌}
use runboard.Schema.{Uuid, Time, Db, Role, TestCase, TestRun, BugReport, AuditLog}
use runboard.Exec.{Result, ok, err, Tx, ◌>>=◌, ◌>>◌, pure}
use runboard.Context.{RequestContext}
use runboard.Prisma.{Prisma}
use runboard.Floats.{Floats}
use runboard.Dto.{Json}
use runboard.Guards.{AuthenticatedUser, run_assignment_guard}
use runboard.Guards.Access.{authorize}
use runboard.Events.{Event}
use runboard.Suites.Service as SuitesService
use runboard.Cases as CasesService
use runboard.Cases.Listing as CaseList
use runboard.Bugs as BugsService
use runboard.Bugs.Listing as BugList
use runboard.Runs.Listing as RunList
use runboard.Runs.Setup as RunSetup
use runboard.Runs.Record.{RecordResultDto, record_result}
use runboard.Runs.Status.{Target, update_status}
use runboard.Members as MembersService
use runboard.Organizations as OrganizationsService
use runboard.Invitations.{CreateInvitationDto, create_invitation, revoke}
use runboard.Audit.Query as AuditQuery
use runboard.Dashboard.{summary, pass_rate_trend}

-- suites/suites.controller.ts
pub data SuitesRoute : Type 0 where
  create_suite : SuitesService.CreateSuiteDto → SuitesRoute
  update_suite : (suite_id : Uuid) → SuitesService.UpdateSuiteDto → SuitesRoute
  remove_suite : (suite_id : Uuid) → SuitesRoute

abbrev pub suites_role : SuitesRoute → Option Role
suites_role (create_suite _) = some Role.qa_lead
suites_role (update_suite _ _) = some Role.qa_lead
suites_role (remove_suite _) = some Role.qa_lead

-- cases/cases.controller.ts
pub data CasesRoute : Type 0 where
  list_cases : CaseList.ListCasesQueryDto → (cursor : Option Uuid) → CasesRoute
  get_case : (case_id : Uuid) → CasesRoute
  create_case : CasesService.CreateCaseDto → CasesRoute
  update_case : (case_id : Uuid) → CasesService.UpdateCaseDto → CasesRoute
  remove_case : (case_id : Uuid) → CasesRoute

abbrev pub cases_role : CasesRoute → Option Role
cases_role (list_cases _ _) = none
cases_role (get_case _) = none
cases_role (create_case _) = some Role.qa_lead
cases_role (update_case _ _) = some Role.qa_lead
cases_role (remove_case _) = some Role.qa_lead

-- bugs/bugs.controller.ts
pub data BugsRoute : Type 0 where
  list_bugs : BugList.ListBugsQueryDto → (cursor : Option Uuid) → BugsRoute
  get_bug : (bug_id : Uuid) → BugsRoute
  create_bug : BugsService.CreateBugDto → BugsRoute
  update_bug : (bug_id : Uuid) → BugsService.UpdateBugDto → BugsRoute

abbrev pub bugs_role : BugsRoute → Option Role
bugs_role (list_bugs _ _) = none
bugs_role (get_bug _) = none
bugs_role (create_bug _) = some Role.tester
bugs_role (update_bug _ _) = some Role.qa_lead

-- runs/runs.controller.ts
pub data RunsRoute : Type 0 where
  list_runs : RunList.ListRunsQueryDto → (cursor : Option Uuid) → RunsRoute
  create_run : RunSetup.CreateRunDto → RunsRoute
  get_run : (run_id : Uuid) → RunsRoute
  record_run_result : (run_id run_case_id : Uuid) → RecordResultDto → RunsRoute
  update_run_status : (run_id : Uuid) → Target → RunsRoute
  update_assignees : (run_id : Uuid) → (user_ids : List Uuid) → RunsRoute
  bug_draft : (run_id run_case_id : Uuid) → RunsRoute

abbrev pub runs_role : RunsRoute → Option Role
runs_role (list_runs _ _) = none
runs_role (create_run _) = some Role.qa_lead
runs_role (get_run _) = none
runs_role (record_run_result _ _ _) = some Role.tester
runs_role (update_run_status _ _) = some Role.qa_lead
runs_role (update_assignees _ _) = some Role.qa_lead
runs_role (bug_draft _ _) = some Role.tester

-- organizations/members.controller.ts
pub data MembersRoute : Type 0 where
  update_role : (user_id : Uuid) → Role → MembersRoute
  remove_member : (user_id : Uuid) → MembersRoute

abbrev pub members_role : MembersRoute → Option Role
members_role (update_role _ _) = some Role.admin
members_role (remove_member _) = some Role.admin

-- organizations/invitations.controller.ts
pub data InvitationsRoute : Type 0 where
  invite : CreateInvitationDto → InvitationsRoute
  revoke_invitation : (invitation_id : Uuid) → InvitationsRoute

abbrev pub invitations_role : InvitationsRoute → Option Role
invitations_role (invite _) = some Role.admin
invitations_role (revoke_invitation _) = some Role.admin

-- audit/audit.controller.ts
pub data AuditRoute : Type 0 where
  list_audit_logs : AuditQuery.ListAuditLogsDto → (cursor : Option Uuid) → AuditRoute

abbrev pub audit_role : AuditRoute → Option Role
audit_role (list_audit_logs _ _) = some Role.admin

-- dashboard/dashboard.controller.ts
pub data DashboardRoute : Type 0 where
  dashboard_summary : DashboardRoute
  dashboard_trend : (limit : ℕ) → DashboardRoute

abbrev pub dashboard_role : DashboardRoute → Option Role
dashboard_role dashboard_summary = none
dashboard_role (dashboard_trend _) = none

-- The routes below /orgs/:orgId of organizations/organizations.controller.ts
pub data OrganizationsRoute : Type 0 where
  get_organization : OrganizationsRoute
  update_organization : OrganizationsService.UpdateOrganizationDto → OrganizationsRoute

abbrev pub organizations_role : OrganizationsRoute → Option Role
organizations_role get_organization = none
organizations_role (update_organization _) = some Role.admin

pub data Route : Type 0 where
  of_suites : SuitesRoute → Route
  of_cases : CasesRoute → Route
  of_bugs : BugsRoute → Route
  of_runs : RunsRoute → Route
  of_members : MembersRoute → Route
  of_organizations : OrganizationsRoute → Route
  of_invitations : InvitationsRoute → Route
  of_audit : AuditRoute → Route
  of_dashboard : DashboardRoute → Route

-- The role of `@RequireRole`; without it every member may call the route.
abbrev pub required_role : Route → Option Role
required_role (of_suites route) = suites_role route
required_role (of_cases route) = cases_role route
required_role (of_bugs route) = bugs_role route
required_role (of_runs route) = runs_role route
required_role (of_members route) = members_role route
required_role (of_organizations route) = organizations_role route
required_role (of_invitations route) = invitations_role route
required_role (of_audit route) = audit_role route
required_role (of_dashboard route) = dashboard_role route

-- What a request takes from outside: the clock, new ids, random bytes, columns that the database
-- fills in, its text search and its cascades.
pub record Env : Type 1 where
  pub floats : Floats
  pub prisma : Prisma
  pub json : Json
  pub now : Time
  pub id : Uuid
  pub case_ids : ℕ → Uuid
  pub raw_token : String
  pub invitation_ttl : ℕ
  pub hash_token : String → String
  pub cascade_suite : Uuid → Db → Db
  pub unlink_case : Uuid → Db → Db
  pub contains_insensitive : String → String → Bool
  pub case_updated : TestCase → Time
  pub run_created : TestRun → Time
  pub bug_created : BugReport → Time
  pub log_id : AuditLog → Uuid
  pub log_created : AuditLog → Time

abbrev pub no_body : {A : Type 0} → Result A → Result (Unit {0})
no_body (ok a) = ok tt
no_body (err e) = err e

abbrev pub silently : {A : Type 0} → Tx A → Tx (Unit {0})
silently m = m >> pure tt

-- The events of the request go to the sockets.
abbrev pub without_events : {A E : Type 0} → (Db → Result A × Db × List E) → Tx (Unit {0})
without_events f db = let (result, db', events) = f db in (no_body result, db')

module _ (env : Env) (org : Uuid) (user : AuthenticatedUser) where
  unfoldable pub suites_handler : SuitesRoute → Option RequestContext → Tx (Unit {0})
  suites_handler (create_suite dto) ctx =
      silently (SuitesService.create env.prisma ctx env.id user.id dto)
  suites_handler (update_suite suite_id dto) ctx =
      silently (SuitesService.update env.prisma ctx env.json suite_id dto)
  suites_handler (remove_suite suite_id) ctx =
      silently (SuitesService.remove env.prisma ctx env.cascade_suite suite_id)

  unfoldable pub cases_handler : CasesRoute → Option RequestContext → Tx (Unit {0})
  cases_handler (list_cases query cursor) ctx =
      silently (CaseList.list env.case_updated env.contains_insensitive env.prisma ctx query cursor)
  cases_handler (get_case case_id) ctx = silently (CasesService.get_one env.prisma ctx case_id)
  cases_handler (create_case dto) ctx =
      silently (CasesService.create env.prisma ctx env.id user.id dto)
  cases_handler (update_case case_id dto) ctx =
      silently (CasesService.update env.prisma ctx env.json case_id dto)
  cases_handler (remove_case case_id) ctx =
      silently (CasesService.remove env.prisma ctx env.unlink_case case_id)

  unfoldable pub bugs_handler : BugsRoute → Option RequestContext → Tx (Unit {0})
  bugs_handler (list_bugs query cursor) ctx =
      silently (BugList.list env.bug_created env.prisma ctx query cursor)
  bugs_handler (get_bug bug_id) ctx =
      silently (BugList.get_one env.bug_created env.prisma ctx bug_id)
  bugs_handler (create_bug dto) ctx =
      without_events (BugsService.create env.floats env.prisma ctx user.id env.id dto)
  bugs_handler (update_bug bug_id dto) ctx =
      without_events
        (BugsService.update env.floats env.prisma ctx user.id env.json env.now bug_id dto)

  unfoldable pub runs_handler : RunsRoute → Option RequestContext → Tx (Unit {0})
  runs_handler (list_runs query cursor) ctx =
      silently (RunList.list env.floats env.run_created env.prisma ctx query user.id cursor)
  runs_handler (create_run dto) ctx =
      silently (RunSetup.create env.prisma ctx env.id env.case_ids user.id env.now dto)
  runs_handler (get_run run_id) ctx =
      silently (RunList.get_one env.floats env.run_created env.prisma ctx run_id)
  runs_handler (record_run_result run_id run_case_id dto) ctx = do
    run_assignment_guard ctx env.prisma (some run_id)
    without_events (record_result env.floats env.prisma ctx run_id run_case_id user.id dto env.now)
  runs_handler (update_run_status run_id target) ctx =
      without_events (update_status env.floats env.prisma ctx run_id user.id target env.now)
  runs_handler (update_assignees run_id user_ids) ctx =
      without_events (RunSetup.update_assignees env.floats env.prisma ctx run_id user_ids)
  runs_handler (bug_draft run_id run_case_id) ctx =
      silently (RunSetup.bug_draft env.prisma ctx run_id run_case_id)

  unfoldable pub members_handler : MembersRoute → Option RequestContext → Tx (Unit {0})
  members_handler (update_role user_id role) ctx =
      silently (MembersService.update_role env.prisma ctx user_id role)
  members_handler (remove_member user_id) ctx =
      silently (MembersService.remove env.prisma ctx user_id)

  unfoldable pub organizations_handler : OrganizationsRoute → Option RequestContext → Tx (Unit {0})
  organizations_handler get_organization ctx =
      silently (OrganizationsService.get_one env.prisma ctx org)
  organizations_handler (update_organization dto) ctx =
      silently (OrganizationsService.update env.prisma org dto)

  unfoldable pub invitations_handler : InvitationsRoute → Option RequestContext → Tx (Unit {0})
  invitations_handler (invite dto) ctx = silently (
      create_invitation env.prisma env.hash_token ctx env.id env.raw_token env.invitation_ttl
        env.now user.id dto)
  invitations_handler (revoke_invitation invitation_id) ctx =
      silently (revoke env.prisma env.hash_token ctx invitation_id)

  unfoldable pub audit_handler : AuditRoute → Option RequestContext → Tx (Unit {0})
  audit_handler (list_audit_logs query cursor) ctx =
      silently (AuditQuery.list env.log_id env.log_created env.prisma org query cursor)

  unfoldable pub dashboard_handler : DashboardRoute → Option RequestContext → Tx (Unit {0})
  dashboard_handler dashboard_summary ctx =
      silently (summary env.floats env.run_created env.prisma ctx)
  dashboard_handler (dashboard_trend limit) ctx =
      silently (pass_rate_trend env.floats env.prisma ctx limit)

  unfoldable pub handler : Route → Option RequestContext → Tx (Unit {0})
  unfolding suites_handler cases_handler bugs_handler runs_handler members_handler
      organizations_handler invitations_handler audit_handler dashboard_handler
  handler (of_suites route) ctx = suites_handler route ctx
  handler (of_cases route) ctx = cases_handler route ctx
  handler (of_bugs route) ctx = bugs_handler route ctx
  handler (of_runs route) ctx = runs_handler route ctx
  handler (of_members route) ctx = members_handler route ctx
  handler (of_organizations route) ctx = organizations_handler route ctx
  handler (of_invitations route) ctx = invitations_handler route ctx
  handler (of_audit route) ctx = audit_handler route ctx
  handler (of_dashboard route) ctx = dashboard_handler route ctx

  -- A request: the guards, then the handler.
  unfoldable pub serve : RequestContext → Route → Tx (Unit {0})
  serve store route = do
    ctx ← authorize env.prisma store org user (required_role route)
    handler route ctx
