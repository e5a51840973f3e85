-- ===== src/Members.antt =====
-- backend/src/organizations/members.service.ts: roles of the members of an organisation.
pub mod LastAdmin
pub mod Demotion
use runboard.Prelude.{
  ◌==◌, Bool, true, false, not, ◌&&◌, Option, none, some, String, List, [], ◌∷◌, ◌++◌,
  if◌then◌else◌,
}
use runboard.Schema.{Uuid, Db, Role, role_eq, Membership, AuditAction, AuditTargetType, Metadata}
use runboard.Exec.{
  Failure, Result, ok, Tx, ◌>>=◌, ◌>>◌, pure, require, guard, not_found_error, member_last_admin,
}
use runboard.Context.{RequestContext}
use runboard.Prisma.{Prisma}
use runboard.Tenant.Tables.{memberships}
use runboard.Tenant.Client.{find_unique, count_rows, update_row, delete_rows}
use runboard.Audit.{RecordScopedParams, record_scoped}
use runboard.Audit.Diff.{diff_fields}

abbrev pub last_admin_error : Failure
last_admin_error = record { status = 409; code = member_last_admin }

abbrev pub is_admin : Membership → Bool
is_admin m = role_eq m.role Role.admin

abbrev member_params : AuditAction → Uuid → Metadata → RecordScopedParams
member_params action membership_id metadata = record {
  action = action;
  target_type = AuditTargetType.membership;
  target_id = some membership_id;
  metadata = metadata;
}

-- The names of the roles, which are their JSON text too.
abbrev pub role_name : Role → String
role_name Role.admin = "ADMIN"
role_name Role.qa_lead = "QA_LEAD"
role_name Role.tester = "TESTER"
role_name Role.viewer = "VIEWER"

-- `diffFields(membership, updated, ['role'])`
abbrev role_diff : Membership → Membership → Metadata
role_diff before after =
    Metadata.changed
      (diff_fields (λ _. role_name before.role) (λ _. role_name after.role) ("role" ∷ []))

module _ (prisma : Prisma) (ctx : Option RequestContext) where
  abbrev pub other_admin : Uuid → Membership → Bool
  other_admin membership_id m = is_admin m && not (m.id == membership_id)

  assert_not_last_admin : Uuid → Tx (Unit {0})
  assert_not_last_admin exclude_membership_id = do
    remaining_admins ← count_rows prisma ctx memberships (other_admin exclude_membership_id)
    guard (not (remaining_admins == 0)) last_admin_error

  -- `if (demoted) await this.assertNotLastAdmin(…)`
  assert_if : Bool → Uuid → Tx (Unit {0})
  assert_if true membership_id db = assert_not_last_admin membership_id db
  assert_if false membership_id db = (ok tt, db)

  unfoldable pub update_role_tx : Uuid → Role → Tx Membership
  unfolding assert_not_last_admin assert_if
  update_role_tx target_user_id role = do
    found ← find_unique prisma ctx memberships (λ m. m.user_id == target_user_id)
    membership ← require not_found_error found
    assert_if (is_admin membership && not (role_eq role Role.admin)) membership.id
    updated ←
        update_row prisma ctx memberships (λ m. m.id == membership.id)
          (λ m. record m { role = role })
    record_scoped prisma ctx
        (member_params AuditAction.member_role_changed updated.id (role_diff membership updated))
    pure updated

  unfoldable pub update_role : Uuid → Role → Tx Membership
  update_role target_user_id role = prisma.transaction (update_role_tx target_user_id role)

  unfoldable pub remove_tx : Uuid → Tx (Unit {0})
  unfolding assert_not_last_admin assert_if
  remove_tx target_user_id = do
    found ← find_unique prisma ctx memberships (λ m. m.user_id == target_user_id)
    membership ← require not_found_error found
    assert_if (is_admin membership) membership.id
    delete_rows prisma ctx memberships (λ m. m.id == membership.id)
    record_scoped prisma ctx (
        member_params AuditAction.member_removed membership.id
          (Metadata.role_removed membership.role))

  unfoldable pub remove : Uuid → Tx (Unit {0})
  remove target_user_id = prisma.transaction (remove_tx target_user_id)
