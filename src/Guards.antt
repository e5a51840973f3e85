-- ===== src/Guards.antt =====
-- backend/src/common/guards: who may call a route. Each guard reads the request context that the
-- guards before it have filled, and throws or passes the context on.
pub mod Access
use runboard.Prelude.{
  ℕ, ltb, leb, ◌==◌, Bool, true, false, ◌&&◌, String, Option, none, some, if◌then◌else◌,
}
use runboard.Schema.{Uuid, Db, Role, Membership}
use runboard.Exec.{
  Failure, Result, ok, err, Tx, ◌>>=◌, not_found_error, internal, org_forbidden, run_not_assigned,
  auth_unauthorized, gets, raise, pure, require,
}
use runboard.Context.{RequestContext, update_request_context, user_of, role_of}
use runboard.Prisma.{Prisma}
use runboard.Tenant.Tables.{assignees}
use runboard.Tenant.Client.{find_unique}

-- `ROLE_RANK`
abbrev pub role_rank : Role → ℕ
role_rank Role.viewer = 0
role_rank Role.tester = 1
role_rank Role.qa_lead = 2
role_rank Role.admin = 3

-- What the JWT strategy makes of the bearer token.
pub record AuthenticatedUser : Type 0 where
  pub id : Uuid
  pub email : String

abbrev pub no_patch : RequestContext
no_patch = record {
  user_id = none;
  actor_email = none;
  organization_id = none;
  role = none;
  ip = none;
  user_agent = none;
}

abbrev pub unauthorized : Failure
unauthorized = record { status = 401; code = auth_unauthorized }

abbrev pub forbidden : Failure
forbidden = record { status = 403; code = org_forbidden }

abbrev pub not_assigned : Failure
not_assigned = record { status = 403; code = run_not_assigned }

abbrev pub member_of : Uuid → Uuid → Membership → Bool
member_of user_id organization_id m = m.user_id == user_id && m.organization_id == organization_id

module _ (ctx : Option RequestContext) where
  -- `JwtAuthGuard`: `user` is what passport found, `none` when it throws.
  abbrev pub jwt_auth_guard : Bool → Option AuthenticatedUser → Tx (Option RequestContext)
  jwt_auth_guard true user = pure ctx
  jwt_auth_guard false none = raise unauthorized
  jwt_auth_guard false (some user) = pure (
      update_request_context
        (record no_patch { user_id = some user.id; actor_email = some user.email }) ctx)

  -- `OrgContextGuard`: `organization_id` is the path parameter, `none` on a route without it.
  module _ (prisma : Prisma) where
    org_context_of : Uuid → Uuid → Tx (Option RequestContext)
    org_context_of organization_id user_id = do
      found ← gets (λ db. prisma.find_one (member_of user_id organization_id) db.memberships)
      membership ← require not_found_error found
      pure (
          update_request_context
            (record no_patch {
              organization_id = some organization_id;
              role = some membership.role;
            })
            ctx)

    unfoldable pub org_context_guard :
        Option Uuid → Option AuthenticatedUser → Tx (Option RequestContext)
    unfolding org_context_of
    org_context_guard (some organization_id) (some user) = org_context_of organization_id user.id
    org_context_guard _ _ = raise internal

  -- `RolesGuard`
  abbrev pub ranks : Option Role → Role → Bool
  ranks none required = false
  ranks (some role) required = leb (role_rank required) (role_rank role)

  abbrev pub roles_guard : Option Role → Tx (Unit {0})
  roles_guard none = pure tt
  roles_guard (some required) = if ranks (role_of ctx) required then pure tt else raise forbidden

  -- `RunAssignmentGuard`
  module _ (prisma : Prisma) where
    assigned : Option Uuid → Option Uuid → Tx (Unit {0})
    assigned (some run_id) (some user_id) = do
      found ←
          find_unique prisma ctx assignees (λ a. a.test_run_id == run_id && a.user_id == user_id)
      assignment ← require not_assigned found
      pure tt
    assigned _ _ = raise internal

    unfoldable pub run_assignment_guard : Option Uuid → Tx (Unit {0})
    unfolding assigned
    run_assignment_guard run_id =
        if ranks (role_of ctx) Role.qa_lead then pure tt else assigned run_id (user_of ctx)
