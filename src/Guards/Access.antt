-- ===== src/Guards/Access.antt =====
-- Who passes the guards of a route of an organisation.
use runboard.Prelude.{
  ◌≡◌, Bool, true, false, Option, none, some, find, leb, refl, Bool-cases, Option-cases, inl, inr,
  if◌then◌else◌,
}
use runboard.Schema.{Uuid, Db, Role}
use runboard.Exec.{ok, err, Tx, ◌>>=◌, ◌>>◌, pure, not_found_error, internal}
use runboard.Context.{RequestContext, update_request_context}
use runboard.Prisma.{Prisma}
use runboard.Guards.{
  AuthenticatedUser, jwt_auth_guard, org_context_guard, member_of, roles_guard, role_rank,
  forbidden, unauthorized,
}

-- The roles that may call a route with `@RequireRole(required)`, one by one.
abbrev pub suffices : (required : Option Role) → Role → Bool
suffices none role = true
suffices (some Role.viewer) role = true
suffices (some Role.tester) Role.viewer = false
suffices (some Role.tester) role = true
suffices (some Role.qa_lead) Role.qa_lead = true
suffices (some Role.qa_lead) Role.admin = true
suffices (some Role.qa_lead) role = false
suffices (some Role.admin) Role.admin = true
suffices (some Role.admin) role = false

rank_lem :
    (required role : Role)
    → leb (role_rank required) (role_rank role) ≡ suffices (some required) role
rank_lem Role.viewer Role.viewer = refl
rank_lem Role.viewer Role.tester = refl
rank_lem Role.viewer Role.qa_lead = refl
rank_lem Role.viewer Role.admin = refl
rank_lem Role.tester Role.viewer = refl
rank_lem Role.tester Role.tester = refl
rank_lem Role.tester Role.qa_lead = refl
rank_lem Role.tester Role.admin = refl
rank_lem Role.qa_lead Role.viewer = refl
rank_lem Role.qa_lead Role.tester = refl
rank_lem Role.qa_lead Role.qa_lead = refl
rank_lem Role.qa_lead Role.admin = refl
rank_lem Role.admin Role.viewer = refl
rank_lem Role.admin Role.tester = refl
rank_lem Role.admin Role.qa_lead = refl
rank_lem Role.admin Role.admin = refl

module _ (prisma : Prisma) (store : RequestContext) (required : Option Role) where
  -- The guards of a route with `@UseGuards(OrgContextGuard, RolesGuard)`, after the global one:
  -- the path parameter and the user that passport found are there or not.
  unfoldable pub admit : Option Uuid → Option AuthenticatedUser → Tx (Option RequestContext)
  admit org user = do
    authenticated ← jwt_auth_guard (some store) false user
    ctx ← org_context_guard authenticated prisma org user
    roles_guard ctx required
    pure ctx

module _ (prisma : Prisma) (store : RequestContext) (org : Uuid) (user : AuthenticatedUser)
    (required : Option Role) where
  unfoldable pub authorize : Tx (Option RequestContext)
  authorize = admit prisma store required (some org) (some user)

  -- The context of a request that a member with the role `role` makes.
  abbrev pub context_as : Role → RequestContext
  context_as role = record store {
    user_id = some user.id;
    actor_email = some user.email;
    organization_id = some org;
    role = some role;
  }

  roles_guard_lem :
      (role : Role) (db : Db)
      → (roles_guard (some (context_as role)) required >> pure (some (context_as role))) db ≡ (
          if suffices required role then (ok (some (context_as role)), db) else (err forbidden, db))
  roles_guard_lem role db = go required
    where
      go :
          (r : Option Role)
          → (roles_guard (some (context_as role)) r >> pure (some (context_as role))) db
            ≡ (if suffices r role then (ok (some (context_as role)), db) else (err forbidden, db))
      go none = refl
      go (some r) = elim (Bool-cases (suffices (some r) role)) [
        | inl high ↦ rw (rank_lem r role, high) refl
        | inr low ↦ rw (rank_lem r role, low) refl
      ]

  -- Whoever is no member of the organisation is answered 404, a member below the required role
  -- 403, and every other member passes with the context of the membership; nothing is written.
  pub authorize_lem :
      (db : Db)
      → authorize db ≡ elim (find (member_of user.id org) db.memberships) [
        | none ↦ (err not_found_error, db)
        | some m ↦
            if suffices required m.role
            then (ok (some (context_as m.role)), db)
            else (err forbidden, db)
      ]
  unfolding authorize admit org_context_guard update_request_context
  authorize_lem db = elim (Option-cases (find (member_of user.id org) db.memberships)) [
    | inl missing ↦ rw prisma.find_one_lem (rw missing)
    | inr (m, found) ↦ rw prisma.find_one_lem (rw found (roles_guard_lem m.role db))
  ]

-- On a route that is not public, a request without a user is answered 401; on a route without an
-- organisation in its path the organisation guard fails with an internal error; whoever is no
-- member of the organisation is answered 404, a member whose role is not among those that may call
-- the route 403, and every other member passes with the context of the membership. Nothing is
-- written.
pub admit_lem :
    (prisma : Prisma) (store : RequestContext) (required : Option Role) (org : Option Uuid)
    (user : Option AuthenticatedUser) (db : Db)
    → admit prisma store required org user db ≡ elim user [
      | none ↦ (err unauthorized, db)
      | some u ↦ elim org [
        | none ↦ (err internal, db)
        | some o ↦ elim (find (member_of u.id o) db.memberships) [
          | none ↦ (err not_found_error, db)
          | some m ↦
              if suffices required m.role
              then (ok (some (context_as prisma store o u required m.role)), db)
              else (err forbidden, db)
        ]
      ]
    ]
unfolding admit org_context_guard authorize
admit_lem prisma store required org none db = refl
admit_lem prisma store required none (some u) db = refl
admit_lem prisma store required (some o) (some u) db = authorize_lem prisma store o u required db

-- The roles that record results in every run.
abbrev pub is_lead : Option Role → Bool
is_lead (some Role.qa_lead) = true
is_lead (some Role.admin) = true
is_lead _ = false
