-- ===== src/Organizations.antt =====
-- `getOne` and `update` of backend/src/organizations/organizations.service.ts. The model is not a
-- tenant model: the id of the path is looked up as it is. Where there is no such row Prisma throws,
-- which the client is answered as an internal error.
use runboard.Prelude.{◌==◌, String, Option}
use runboard.Schema.{Uuid, Role, Organization}
use runboard.Exec.{Tx, ok, ◌>>=◌, ◌>>◌, gets, pure, require, internal}
use runboard.Context.{RequestContext, role_of}
use runboard.Prisma.{Prisma}

pub record UpdateOrganizationDto : Type 0 where
  pub name : String

module _ (prisma : Prisma) where
  abbrev pub find_or_throw : Uuid → Tx Organization
  find_or_throw org_id = do
    found ← gets (λ db. prisma.find_one (λ (o : Organization). o.id == org_id) db.organizations)
    require internal found

  -- The organisation with `myRole`.
  abbrev pub get_one : Option RequestContext → Uuid → Tx (Organization × Option Role)
  get_one ctx org_id = do organization ← find_or_throw org_id; pure (organization, role_of ctx)

  abbrev pub rename : UpdateOrganizationDto → Organization → Organization
  rename dto o = record o { name = dto.name }

  abbrev rename_rows : Uuid → UpdateOrganizationDto → Tx (Unit {0})
  rename_rows org_id dto db = (
    ok tt,
    record db { organizations = prisma.update (λ o. o.id == org_id) (rename dto) db.organizations },
  )

  unfoldable pub update : Uuid → UpdateOrganizationDto → Tx Organization
  update org_id dto = do
    organization ← find_or_throw org_id
    rename_rows org_id dto
    pure (rename dto organization)
