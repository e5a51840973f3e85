-- ===== src/Context.antt =====
-- The request context of backend/src/common/context/request-context.ts: what AsyncLocalStorage
-- holds for the request that is being served. Outside a request there is no store.
use runboard.Prelude.{String, Option, none, some}
use runboard.Schema.{Uuid, Role}

pub record RequestContext : Type 0 where
  pub user_id : Option Uuid
  pub actor_email : Option String
  pub organization_id : Option Uuid
  pub role : Option Role
  pub ip : Option String
  pub user_agent : Option String

-- A field of the patch that is given replaces the old one, as `Object.assign` does.
abbrev pub given {ℓ} : {A : Type ℓ} → Option A → Option A → Option A
given none old = old
given (some a) old = some a

-- Without a store the patch is dropped.
unfoldable pub update_request_context :
    RequestContext → Option RequestContext → Option RequestContext
update_request_context patch none = none
update_request_context patch (some store) = some (record {
  user_id = given patch.user_id store.user_id;
  actor_email = given patch.actor_email store.actor_email;
  organization_id = given patch.organization_id store.organization_id;
  role = given patch.role store.role;
  ip = given patch.ip store.ip;
  user_agent = given patch.user_agent store.user_agent;
})

-- `getRequestContext()?.organizationId`
abbrev pub organization_of : Option RequestContext → Option Uuid
organization_of none = none
organization_of (some store) = store.organization_id

-- `getRequestContext()?.userId`
abbrev pub user_of : Option RequestContext → Option Uuid
user_of none = none
user_of (some store) = store.user_id

-- `getRequestContext()?.role`
abbrev pub role_of : Option RequestContext → Option Role
role_of none = none
role_of (some store) = store.role
