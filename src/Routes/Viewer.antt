-- ===== src/Routes/Viewer.antt =====
-- What a member with the role VIEWER can do by the routes of the organisation.
use runboard.Prelude.{◌≡◌, refl, ap, ◌∙◌, sym, false, Option, none, some, find}
use runboard.Schema.{Uuid, Db, Role, Membership}
use runboard.Exec.{Result, err}
use runboard.Context.{RequestContext}
use runboard.Guards.{AuthenticatedUser, member_of, forbidden}
use runboard.Guards.Access.{authorize_lem, context_as, suffices}
use runboard.Routes.{
  of_suites, of_cases, of_bugs, of_runs, of_members, of_organizations, get_organization,
  update_organization, of_invitations, of_audit, of_dashboard, Route, Env, required_role, handler,
  serve, create_suite, update_suite, remove_suite, list_cases, get_case, create_case, update_case,
  remove_case, list_bugs, get_bug, create_bug, update_bug, list_runs, create_run, get_run,
  record_run_result, update_run_status, update_assignees, bug_draft, update_role, remove_member,
  invite, revoke_invitation, list_audit_logs, dashboard_summary, dashboard_trend,
}
use runboard.Routes.Keeps.{
  list_cases-Keeps, get_case-Keeps, list_bugs-Keeps, get_bug-Keeps, list_runs-Keeps, get_run-Keeps,
  get_organization-Keeps, dashboard_summary-Keeps, dashboard_trend-Keeps,
}

module _ (env : Env) (org : Uuid) (user : AuthenticatedUser) (store : RequestContext) (db : Db)
    (m : Membership) (member : find (member_of user.id org) db.memberships ≡ some m)
    (viewer : m.role ≡ Role.viewer) where
  -- A route with a higher role is refused before its handler runs.
  refused :
      (route : Route) (role : Role)
      → required_role route ≡ some role
      → suffices (some role) Role.viewer ≡ false
      → serve env org user store route db ≡ (err forbidden, db)
  unfolding serve
  refused route role required low =
      rw (authorize_lem env.prisma store org user (required_role route) db)
        (rw member (rw (viewer, required) (rw low refl)))

  abbrev pub ctx : Option RequestContext
  ctx = some (context_as env.prisma store org user none Role.viewer)

  allowed :
      (route : Route)
      → required_role route ≡ none
      → serve env org user store route db ≡ handler env org user route ctx db
  unfolding serve
  allowed route required =
      rw (authorize_lem env.prisma store org user (required_role route) db)
        (rw member (rw (viewer, required) refl))

  abbrev pub outcome : Route → Option Role → Result (Unit {0}) × Db
  outcome route none = handler env org user route ctx db
  outcome route (some role) = (err forbidden, db)

  abbrev Harmless : Route → Type 0
  Harmless route =
      (serve env org user store route db ≡ outcome route (required_role route))
      × ((serve env org user store route db).1 ≡ db)

  closed :
      (route : Route) (role : Role)
      → required_role route ≡ some role
      → suffices (some role) Role.viewer ≡ false
      → Harmless route
  closed route role required low =
      let e = refused route role required low in
      (e ∙ ap (outcome route) (sym required), ap (λ r. r.1) e)

  open_to_all :
      (route : Route)
      → required_role route ≡ none
      → (handler env org user route ctx db).1 ≡ db
      → Harmless route
  open_to_all route required keeps =
      let e = allowed route required in
      (e ∙ ap (outcome route) (sym required), ap (λ r. r.1) e ∙ keeps)

  -- A VIEWER of the organisation asks for a route of `Route`, that is for any route below
  -- /orgs/:orgId that writes or for a read that is modelled. The handler answers where the route
  -- has no required role, and 403 ORG_FORBIDDEN is the answer where it has one; and whatever is
  -- asked for, nothing is written.
  pub serve-Harmless : (route : Route) → Harmless route
  serve-Harmless (of_suites (create_suite dto)) =
      closed (of_suites (create_suite dto)) Role.qa_lead refl refl
  serve-Harmless (of_suites (update_suite id dto)) =
      closed (of_suites (update_suite id dto)) Role.qa_lead refl refl
  serve-Harmless (of_suites (remove_suite id)) =
      closed (of_suites (remove_suite id)) Role.qa_lead refl refl
  serve-Harmless (of_cases (list_cases query cursor)) =
      open_to_all (of_cases (list_cases query cursor)) refl
        (list_cases-Keeps env org user ctx refl db query cursor)
  serve-Harmless (of_cases (get_case id)) =
      open_to_all (of_cases (get_case id)) refl (get_case-Keeps env org user ctx refl db id)
  serve-Harmless (of_cases (create_case dto)) =
      closed (of_cases (create_case dto)) Role.qa_lead refl refl
  serve-Harmless (of_cases (update_case id dto)) =
      closed (of_cases (update_case id dto)) Role.qa_lead refl refl
  serve-Harmless (of_cases (remove_case id)) =
      closed (of_cases (remove_case id)) Role.qa_lead refl refl
  serve-Harmless (of_bugs (list_bugs query cursor)) =
      open_to_all (of_bugs (list_bugs query cursor)) refl
        (list_bugs-Keeps env org user ctx refl db query cursor)
  serve-Harmless (of_bugs (get_bug id)) =
      open_to_all (of_bugs (get_bug id)) refl (get_bug-Keeps env org user ctx refl db id)
  serve-Harmless (of_bugs (create_bug dto)) =
      closed (of_bugs (create_bug dto)) Role.tester refl refl
  serve-Harmless (of_bugs (update_bug id dto)) =
      closed (of_bugs (update_bug id dto)) Role.qa_lead refl refl
  serve-Harmless (of_runs (list_runs query cursor)) =
      open_to_all (of_runs (list_runs query cursor)) refl
        (list_runs-Keeps env org user ctx refl db query cursor)
  serve-Harmless (of_runs (create_run dto)) =
      closed (of_runs (create_run dto)) Role.qa_lead refl refl
  serve-Harmless (of_runs (get_run id)) =
      open_to_all (of_runs (get_run id)) refl (get_run-Keeps env org user ctx refl db id)
  serve-Harmless (of_runs (record_run_result id case_id dto)) =
      closed (of_runs (record_run_result id case_id dto)) Role.tester refl refl
  serve-Harmless (of_runs (update_run_status id target)) =
      closed (of_runs (update_run_status id target)) Role.qa_lead refl refl
  serve-Harmless (of_runs (update_assignees id user_ids)) =
      closed (of_runs (update_assignees id user_ids)) Role.qa_lead refl refl
  serve-Harmless (of_runs (bug_draft id case_id)) =
      closed (of_runs (bug_draft id case_id)) Role.tester refl refl
  serve-Harmless (of_members (update_role user_id role)) =
      closed (of_members (update_role user_id role)) Role.admin refl refl
  serve-Harmless (of_members (remove_member user_id)) =
      closed (of_members (remove_member user_id)) Role.admin refl refl
  serve-Harmless (of_organizations get_organization) =
      open_to_all (of_organizations get_organization) refl
        (get_organization-Keeps env org user ctx refl db)
  serve-Harmless (of_organizations (update_organization dto)) =
      closed (of_organizations (update_organization dto)) Role.admin refl refl
  serve-Harmless (of_invitations (invite dto)) =
      closed (of_invitations (invite dto)) Role.admin refl refl
  serve-Harmless (of_invitations (revoke_invitation id)) =
      closed (of_invitations (revoke_invitation id)) Role.admin refl refl
  serve-Harmless (of_audit (list_audit_logs query cursor)) =
      closed (of_audit (list_audit_logs query cursor)) Role.admin refl refl
  serve-Harmless (of_dashboard dashboard_summary) =
      open_to_all (of_dashboard dashboard_summary) refl
        (dashboard_summary-Keeps env org user ctx refl db)
  serve-Harmless (of_dashboard (dashboard_trend limit)) =
      open_to_all (of_dashboard (dashboard_trend limit)) refl
        (dashboard_trend-Keeps env org user ctx refl db limit)
