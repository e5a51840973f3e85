-- ===== src/Members/Demotion.antt =====
-- backend/src/organizations/members.service.ts and the guards: when a changed role counts (rule
-- T-12).
use runboard.Prelude.{
  ◌≡◌, refl, ap, ◌∙◌, ◌==◌, Bool, true, false, ◌&&◌, not, Option, some, ◌⊎◌, inl, inr, find, change,
  count, Bool-cases, Option-cases, if◌then◌else◌, ==_self, arith,
}
use runboard.Prelude.Keys.{find_passes}
use runboard.Prelude.Updates.{find-change}
use runboard.Schema.{Uuid, Db, Role, role_eq, Membership}
use runboard.Exec.{Failure, not_found_error, Result, ok, err}
use runboard.Context.{RequestContext, organization_of}
use runboard.Prisma.{Prisma}
use runboard.Tenant.{within}
use runboard.Tenant.Tables.{memberships}
use runboard.Tenant.Client.{find_unique_lem, count_rows_lem, update_row_lem}
use runboard.Audit.{record_scoped_lem}
use runboard.Guards.{AuthenticatedUser, forbidden, member_of}
use runboard.Guards.Access.{authorize, authorize_lem, suffices, context_as}
use runboard.Members.{
  assert_if, assert_not_last_admin, last_admin_error, other_admin, is_admin, update_role_tx,
  update_role,
}
use runboard.Members.LastAdmin.{HasDistinctIds, found_again}

module _ (prisma : Prisma) (ctx : Option RequestContext) {org : Uuid}
    (inside : organization_of ctx ≡ some org) (db : Db) where
  assert_if_outcome :
      (b : Bool) (id : Uuid)
      → (assert_if prisma ctx b id db ≡ (err last_admin_error, db))
        ⊎ (assert_if prisma ctx b id db ≡ (ok tt, db))
  unfolding assert_if assert_not_last_admin
  assert_if_outcome false id = inr refl
  assert_if_outcome true id =
      elim (Bool-cases
        (count (within memberships org (other_admin prisma ctx id)) db.memberships == 0)) [
          | inl last ↦
              inl (rw (count_rows_lem prisma ctx memberships refl inside db) (rw last refl))
          | inr enough ↦
              inr (rw (count_rows_lem prisma ctx memberships refl inside db) (rw enough refl))
        ]

  module _ (target_user_id : Uuid) (role : Role) (distinct : HasDistinctIds db.memberships) where
    abbrev by_user : Membership → Bool
    by_user x = x.user_id == target_user_id

    abbrev outcome : Result Membership × Db
    outcome = update_role prisma ctx target_user_id role db

    update_role_outcome :
        ((e : Failure) × (outcome.0 ≡ err e))
        ⊎ ((m : Membership) × (find (within memberships org by_user) db.memberships ≡ some m)
            × (outcome.1.memberships
                ≡ change
                    (within memberships org (λ x. x.id == m.id))
                    (λ x. record x { role = role })
                    db.memberships))
    unfolding update_role update_role_tx
    update_role_outcome =
        elim (Option-cases (find (within memberships org by_user) db.memberships)) [
          | inl missing ↦ inl (
            not_found_error,
            rw prisma.transaction_lem
                (rw (find_unique_lem prisma ctx memberships refl inside db) (rw missing refl)),
          )
          | inr (m, found) ↦
              elim (assert_if_outcome (is_admin m && not (role_eq role Role.admin)) m.id) [
                | inl last ↦ inl (
                  last_admin_error,
                  rw prisma.transaction_lem (
                      rw (find_unique_lem prisma ctx memberships refl inside db)
                        (rw found (rw last refl))),
                )
                | inr passed ↦ inr (
                  m,
                  found,
                  rw prisma.transaction_lem (
                      rw (find_unique_lem prisma ctx memberships refl inside db) (
                        rw found (
                          rw passed (
                            rw (update_row_lem prisma ctx memberships refl inside db) (
                              rw (found_again org db.memberships by_user m distinct found)
                                (rw (record_scoped_lem prisma ctx _ _ inside) refl)))))),
                )
              ]
        ]

    at_org :
        (m : Membership)
        → find (within memberships org by_user) db.memberships ≡ some m
        → (m.organization_id == org) ≡ true
    at_org m found =
        let passes = find_passes (within memberships org by_user) db.memberships m found in
        ground arith

    found_changed :
        (user : AuthenticatedUser) (m : Membership)
        → user.id ≡ target_user_id
        → find (within memberships org by_user) db.memberships ≡ some m
        → outcome.1.memberships
          ≡ change
              (within memberships org (λ x. x.id == m.id))
              (λ x. record x { role = role })
              db.memberships
        → find (member_of user.id org) outcome.1.memberships ≡ some (record m { role = role })
    found_changed user m same found changed =
        ap (λ u. find (member_of u org) outcome.1.memberships) same
        ∙ ap (find (member_of target_user_id org)) changed
        ∙ find-change (member_of target_user_id org) (within memberships org (λ x. x.id == m.id))
            (λ x. record x { role = role }) db.memberships (λ x. refl)
        ∙ rw found (rw (==_self m.id, at_org m found) refl)

    -- Once the role of a member was changed, the guards of every route of the organisation let
    -- the member pass by the new role alone, from the next request on.
    pub authorize-update_role :
        (updated : Membership) (store : RequestContext) (user : AuthenticatedUser)
        (required : Option Role)
        → outcome.0 ≡ ok updated
        → user.id ≡ target_user_id
        → authorize prisma store org user required outcome.1 ≡ (
            if suffices required role
            then (ok (some (context_as prisma store org user required role)), outcome.1)
            else (err forbidden, outcome.1))
    authorize-update_role updated store user required done same = elim update_role_outcome [
      | inl (e, refused) ↦ cc
      | inr (m, found, changed) ↦
          rw (authorize_lem prisma store org user required outcome.1)
            (rw (found_changed user m same found changed) refl)
    ]
