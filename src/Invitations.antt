-- ===== src/Invitations.antt =====
-- backend/src/organizations: founding an organisation (organizations.service.ts) and inviting
-- members into one (invitations.service.ts).
pub mod Acceptance
use text.Mathlib.Text.{◌==◌ as str_eq}
use runboard.Prelude.{
  ℕ, ltb, ◌+◌, ◌==◌, Bool, true, false, not, ◌&&◌, ◌||◌, String, Option, none, some, List,
  if◌then◌else◌,
}
use runboard.Schema.{
  Uuid, Time, Role, InviteStatus, Organization, Invitation, Membership, AuditAction,
  AuditTargetType, Metadata,
}
use runboard.Exec.{
  Failure, Tx, ok, err, ◌>>=◌, ◌>>◌, pure, gets, guard, not_found_error, conflict, unique_violation,
}
use runboard.Context.{RequestContext, update_request_context}
use runboard.Prisma.{Prisma}
use runboard.Guards.{AuthenticatedUser, no_patch}
use runboard.Tenant.Tables.{memberships, invitations}
use runboard.Tenant.Client.{find_unique, create_row, created, update_row}
use runboard.Audit.{RecordScopedParams, record_scoped}

pub record CreateInvitationDto : Type 0 where
  pub email : String
  pub role : Role

abbrev pub is_pending : InviteStatus → Bool
is_pending InviteStatus.pending = true
is_pending _ = false

abbrev pub conflict_error : Failure
conflict_error = record { status = 409; code = conflict }

abbrev params : AuditAction → AuditTargetType → Uuid → Metadata → RecordScopedParams
params action target_type id metadata = record {
  action = action;
  target_type = target_type;
  target_id = some id;
  metadata = metadata;
}

-- The invitation that `create` asks for: `ttl` is INVITATION_TTL_MS.
abbrev pub new_invitation :
    (String → String) → Uuid → String → ℕ → Time → Uuid → CreateInvitationDto → Invitation
new_invitation hash_token id raw_token ttl now invited_by_id dto = record {
  id = id;
  organization_id = 0;
  email = dto.email;
  role = dto.role;
  token_hash = hash_token raw_token;
  status = InviteStatus.pending;
  expires_at = now + ttl;
  invited_by_id = invited_by_id;
  accepted_at = none;
}

abbrev pub new_member : Uuid → Uuid → Role → Membership
new_member id user_id role = record { id = id; organization_id = 0; user_id = user_id; role = role }

abbrev pub accept_it : Time → Invitation → Invitation
accept_it now i = record i { status = InviteStatus.accepted; accepted_at = some now }

-- `!existing`
abbrev pub is_missing {ℓ} : {A : Type ℓ} → Option A → Bool
is_missing none = true
is_missing (some _) = false

module _ (prisma : Prisma) (hash_token : String → String) where
  unfoldable pub create_invitation :
      Option RequestContext → Uuid → String → ℕ → Time → Uuid → CreateInvitationDto → Tx Invitation
  create_invitation ctx id raw_token ttl now invited_by_id dto = prisma.transaction (do
    create_row prisma ctx invitations
        (new_invitation hash_token id raw_token ttl now invited_by_id dto)
    record_scoped prisma ctx (
        params AuditAction.member_invited AuditTargetType.invitation id
          (Metadata.invited dto.email dto.role))
    pure (
        created prisma ctx invitations
          (new_invitation hash_token id raw_token ttl now invited_by_id dto)))

  -- `if (!invitation || invitation.status !== PENDING) throw`
  pending_or_404 : Option Invitation → Tx Invitation
  pending_or_404 none db = (err not_found_error, db)
  pending_or_404 (some i) db = if is_pending i.status then (ok i, db) else (err not_found_error, db)

  unfoldable pub revoke : Option RequestContext → Uuid → Tx Invitation
  unfolding pending_or_404
  revoke ctx invitation_id = do
    found ← find_unique prisma ctx invitations (λ i. i.id == invitation_id)
    invitation ← pending_or_404 found
    update_row prisma ctx invitations (λ i. i.id == invitation_id)
        (λ i. record i { status = InviteStatus.revoked })

  abbrev pub invited_by_token : String → Invitation → Bool
  invited_by_token token i = str_eq i.token_hash (hash_token token)

  -- The context that `accept` opens for the organisation of the invitation.
  abbrev pub joining : Option RequestContext → Invitation → Option RequestContext
  joining ctx invitation =
      update_request_context
        (record no_patch {
          organization_id = some invitation.organization_id;
          role = some invitation.role;
        })
        ctx

  unfoldable pub accept_tx :
      Option RequestContext → AuthenticatedUser → Uuid → Time → Invitation → Tx Membership
  accept_tx ctx user id now invitation = do
    existing ← find_unique prisma ctx memberships (λ m. m.user_id == user.id)
    guard (is_missing existing) conflict_error
    create_row prisma ctx memberships (new_member id user.id invitation.role)
    update_row prisma ctx invitations (λ i. i.id == invitation.id) (accept_it now)
    record_scoped prisma ctx
        (params AuditAction.member_joined AuditTargetType.membership id Metadata.nothing)
    pure (created prisma ctx memberships (new_member id user.id invitation.role))

  -- `if (!invitation || invitation.email !== user.email) throw`
  of_email : String → Option Invitation → Tx Invitation
  of_email email none db = (err not_found_error, db)
  of_email email (some i) db =
      if str_eq i.email email then (ok i, db) else (err not_found_error, db)

  unfoldable pub accept :
      Option RequestContext → AuthenticatedUser → Uuid → Time → String → Tx Membership
  unfolding of_email
  accept ctx user id now token = do
    found ← gets (λ db. prisma.find_one (invited_by_token token) db.invitations)
    invitation ← of_email user.email found
    guard (is_pending invitation.status && not (ltb invitation.expires_at now)) conflict_error
    prisma.transaction (accept_tx (joining ctx invitation) user id now invitation)

  -- organizations.service.ts
  abbrev organization_clash : Organization → Organization → Bool
  organization_clash a b = a.id == b.id || str_eq a.slug b.slug

  save_organizations : Option (List Organization) → Tx (Unit {0})
  save_organizations none db = (err unique_violation, db)
  save_organizations (some rows) db = (ok tt, record db { organizations = rows })

  abbrev pub founding : Option RequestContext → Uuid → Option RequestContext
  founding ctx id =
      update_request_context (record no_patch { organization_id = some id; role = some Role.admin })
        ctx

  -- `slug` is the one of the request or the one that `slugify` makes of the name.
  unfoldable pub create_organization :
      Option RequestContext → Uuid → Uuid → Uuid → String → String → Tx Organization
  unfolding save_organizations
  create_organization ctx user_id id member_id name slug = prisma.transaction (do
    λ db.
        save_organizations
          (prisma.create organization_clash (record { id = id; name = name; slug = slug })
            db.organizations)
          db
    create_row prisma (founding ctx id) memberships (new_member member_id user_id Role.admin)
    record_scoped prisma (founding ctx id)
        (params AuditAction.org_created AuditTargetType.organization id Metadata.nothing)
    pure (record { id = id; name = name; slug = slug }))
