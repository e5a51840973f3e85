-- ===== src/Examples/Invitations.antt =====
-- The user 9 accepts an invitation into organisation 1; the stand-in for SHA-256 keeps its input.
use runboard.Prelude.{◌≡◌, refl, String, none, some, [], ◌∷◌, ◌++◌}
use runboard.Schema.{Db, Role, InviteStatus, Invitation, Membership}
use runboard.Exec.{Failure, ok, err}
use runboard.Context.{RequestContext, update_request_context}
use runboard.Prisma.{lists}
use runboard.Guards.{AuthenticatedUser}
use runboard.Tenant.{all_operations}
use runboard.Tenant.Client.{find_unique, create_row, update_row}
use runboard.Audit.{record_scoped}
use runboard.Invitations.{accept, accept_tx}
use runboard.Invitations.Acceptance.{accept_once}
use runboard.Examples.Data.{one_run}

abbrev invited : Invitation
invited = record {
  id = 80;
  organization_id = 1;
  email = "n@example.com";
  role = Role.tester;
  token_hash = "secret";
  status = InviteStatus.pending;
  expires_at = 500;
  invited_by_id = 7;
  accepted_at = none;
}

abbrev with_invitation : Db
with_invitation = record one_run { invitations = invited ∷ [] }

abbrev request : RequestContext
request = record {
  user_id = some 9;
  actor_email = some "n@example.com";
  organization_id = none;
  role = none;
  ip = none;
  user_agent = none;
}

abbrev newcomer : AuthenticatedUser
newcomer = record { id = 9; email = "n@example.com" }

abbrev same_text : String → String
same_text t = t

abbrev membership : Membership
membership = record { id = 71; organization_id = 1; user_id = 9; role = Role.tester }

accepted :
    (accept lists same_text (some request) newcomer 71 100 "secret" with_invitation).0
    ≡ ok membership
unfolding accept accept_tx find_unique create_row update_row record_scoped all_operations
    update_request_context
accepted = refl

abbrev afterwards : Db
afterwards = (accept lists same_text (some request) newcomer 71 100 "secret" with_invitation).1

accept_once_example :
    (membership.user_id ≡ newcomer.id)
    × (membership.organization_id ≡ invited.organization_id)
    × (membership.role ≡ invited.role)
    × (afterwards.memberships ≡ one_run.memberships ++ membership ∷ [])
    × ((e : Failure) × (accept lists same_text (some request) newcomer 72 200 "secret" afterwards
          ≡ (err e, afterwards)))
accept_once_example =
    accept_once lists same_text request newcomer 71 100 "secret" with_invitation invited refl
      membership request newcomer 72 200 accepted
