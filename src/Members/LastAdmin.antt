-- ===== src/Members/LastAdmin.antt =====
-- backend/src/organizations/members.service.ts: the administrators of an organisation (rule T-11).
use runboard.Prelude.{
  ℕ, ◌+◌, ◌<◌, ◌≡◌, refl, ap, ◌∙◌, subst, ◌==◌, true, false, Bool, ◌&&◌, not, Option, some, List,
  ◌⊎◌, inl, inr, find, keep, change, count, arith, eq_of_==, ==_self, Bool-cases, Option-cases,
}
use runboard.Prelude.Keys.{
  bit, Distinct, count-change, count-delete, count-except, find_passes, find-key, count_congr,
}
use runboard.Schema.{Uuid, Db, Role, role_eq, Membership}
use runboard.Exec.{Tx}
use runboard.Context.{RequestContext, organization_of}
use runboard.Prisma.{Prisma, settle}
use runboard.Tenant.{within}
use runboard.Tenant.Tables.{memberships}
use runboard.Tenant.Client.{find_unique_lem, count_rows_lem, update_row_lem, delete_rows_lem}
use runboard.Audit.{record_scoped_lem}
use runboard.Members.{is_admin, other_admin, update_role_tx, update_role, remove_tx, remove}

abbrev admin_of : Uuid → Membership → Bool
admin_of org m = is_admin m && m.organization_id == org

abbrev pub HasAdmin : Uuid → List Membership → Type 0
HasAdmin org members = 0 < count (admin_of org) members

abbrev pub HasDistinctIds : List Membership → Type 0
HasDistinctIds = Distinct (λ (m : Membership). m.id)

-- A member of `org` that was found is found again by its id.
module _ (org : Uuid) (members : List Membership) (where_ : Membership → Bool) (m : Membership)
    (distinct : HasDistinctIds members)
    (found : find (within memberships org where_) members ≡ some m) where
  abbrev is_it : Membership → Bool
  is_it = within memberships org (λ x. x.id == m.id)

  is_it-id : (x : Membership) → is_it x ≡ true → x.id ≡ m.id
  is_it-id x h = ground arith

  pub in_org : m.organization_id ≡ org
  in_org = let passes = find_passes (within memberships org where_) members m found in ground arith

  pub found_again : find is_it members ≡ some m
  found_again =
      find-key (λ x. x.id) is_it m.id is_it-id (within memberships org where_) members m distinct
        found refl (ground (arith, in_org, ==_self m.id))

  counted_others :
      count (within memberships org (λ x. is_admin x && not (x.id == m.id))) members
        + bit (admin_of org m)
      ≡ count (admin_of org) members
  counted_others =
      ap (λ n. n + bit (admin_of org m))
        (count_congr (within memberships org (λ x. is_admin x && not (x.id == m.id)))
          (λ x. admin_of org x && not (x.id == m.id)) members (λ x. ground arith))
      ∙ count-except (λ x. x.id) is_it m.id is_it-id (admin_of org) members m distinct found_again

  -- `assertNotLastAdmin` has counted another administrator.
  abbrev HasOther : Type 0
  HasOther = 0 < count (within memberships org (λ x. is_admin x && not (x.id == m.id))) members

  counted_others_at :
      (o : Uuid)
      → org ≡ o
      → count (within memberships org (λ x. is_admin x && not (x.id == m.id))) members
          + bit (admin_of o m)
        ≡ count (admin_of o) members
  counted_others_at o e =
      subst
        (λ z.
          count (within memberships org (λ x. is_admin x && not (x.id == m.id))) members
            + bit (admin_of z m)
          ≡ count (admin_of z) members)
        e counted_others

  change_keeps :
      (o : Uuid) (role : Role)
      → HasAdmin o members
      → ((is_admin m && not (role_eq role Role.admin)) ≡ false) ⊎ HasOther
      → HasAdmin o (change is_it (λ x. record x { role = role }) members)
  change_keeps o role h safe =
      let counted =
        count-change (λ x. x.id) is_it m.id is_it-id (admin_of o) (λ x. record x { role = role })
          members m distinct found_again in
      elim (Bool-cases (org == o)) [
        | inl same ↦ ground (arith, counted, counted_others_at o (eq_of_== org o same), in_org)
        | inr other ↦ ground (arith, counted, in_org)
      ]

  delete_keeps :
      (o : Uuid)
      → HasAdmin o members
      → (is_admin m ≡ false) ⊎ HasOther
      → HasAdmin o (keep (λ x. not (is_it x)) members)
  delete_keeps o h safe =
      let counted =
        count-delete (λ x. x.id) is_it m.id is_it-id (admin_of o) members m distinct found_again in
      elim (Bool-cases (org == o)) [
        | inl same ↦ ground (arith, counted, counted_others_at o (eq_of_== org o same), in_org)
        | inr other ↦ ground (arith, counted, in_org)
      ]

module _ (prisma : Prisma) (ctx : Option RequestContext) {org : Uuid}
    (inside : organization_of ctx ≡ some org) (target_user_id : Uuid) (db : Db)
    (distinct : HasDistinctIds db.memberships) (o : Uuid) (h : HasAdmin o db.memberships) where
  abbrev by_user : Membership → Bool
  by_user x = x.user_id == target_user_id

  abbrev KeepsAdmin : {A : Type 0} → Tx A → Type 0
  KeepsAdmin body = HasAdmin o (settle db (body db)).1.memberships

  module _ (m : Membership)
      (found : find (within memberships org by_user) db.memberships ≡ some m) where
    abbrev others : ℕ
    others = count (within memberships org (other_admin prisma ctx m.id)) db.memberships

    abbrev again : find (within memberships org (λ x. x.id == m.id)) db.memberships ≡ some m
    again = found_again org db.memberships by_user m distinct found

    module _ (role : Role) where
      update_unchecked :
          (is_admin m && not (role_eq role Role.admin)) ≡ false
          → KeepsAdmin (update_role_tx prisma ctx target_user_id role)
      unfolding update_role_tx
      update_unchecked kept = rw (find_unique_lem prisma ctx memberships refl inside db) (
          rw (found, kept)
            (rw (update_row_lem prisma ctx memberships refl inside db) (
              rw again (
                rw (record_scoped_lem prisma ctx _ _ inside)
                  (change_keeps org db.memberships by_user m distinct found o role h (inl kept))))))

      update_checked :
          (is_admin m && not (role_eq role Role.admin)) ≡ true
          → KeepsAdmin (update_role_tx prisma ctx target_user_id role)
      unfolding update_role_tx
      update_checked demoted = elim (Bool-cases (others == 0)) [
        | inl last ↦ rw (find_unique_lem prisma ctx memberships refl inside db) (
            rw (found, demoted)
              (rw (count_rows_lem prisma ctx memberships refl inside db) (rw last h)))
        | inr enough ↦ rw (find_unique_lem prisma ctx memberships refl inside db) (
            rw (found, demoted)
              (rw (count_rows_lem prisma ctx memberships refl inside db) (
                rw enough (
                  rw (update_row_lem prisma ctx memberships refl inside db) (
                    rw again (
                      rw (record_scoped_lem prisma ctx _ _ inside) (
                        change_keeps org db.memberships by_user m distinct found o role h
                          (inr (ground arith)))))))))
      ]

    remove_unchecked : is_admin m ≡ false → KeepsAdmin (remove_tx prisma ctx target_user_id)
    unfolding remove_tx
    remove_unchecked plain = rw (find_unique_lem prisma ctx memberships refl inside db) (
        rw (found, plain)
          (rw (delete_rows_lem prisma ctx memberships refl inside db) (
            rw (record_scoped_lem prisma ctx _ _ inside)
              (delete_keeps org db.memberships by_user m distinct found o h (inl plain)))))

    remove_checked : is_admin m ≡ true → KeepsAdmin (remove_tx prisma ctx target_user_id)
    unfolding remove_tx
    remove_checked admin = elim (Bool-cases (others == 0)) [
      | inl last ↦ rw (find_unique_lem prisma ctx memberships refl inside db) (
          rw (found, admin) (rw (count_rows_lem prisma ctx memberships refl inside db) (rw last h)))
      | inr enough ↦ rw (find_unique_lem prisma ctx memberships refl inside db) (
          rw (found, admin)
            (rw (count_rows_lem prisma ctx memberships refl inside db) (
              rw enough (
                rw (delete_rows_lem prisma ctx memberships refl inside db) (
                  rw (record_scoped_lem prisma ctx _ _ inside) (
                    delete_keeps org db.memberships by_user m distinct found o h
                      (inr (ground arith))))))))
    ]

  -- Whatever role is asked for whichever user, every organisation that had an administrator has
  -- one afterwards.
  pub update_role-HasAdmin :
      (role : Role) → HasAdmin o (update_role prisma ctx target_user_id role db).1.memberships
  unfolding update_role update_role_tx
  update_role-HasAdmin role =
      rw (prisma.transaction_lem)
        (elim (Option-cases (find (within memberships org by_user) db.memberships)) [
          | inl missing ↦ rw (find_unique_lem prisma ctx memberships refl inside db) (rw missing h)
          | inr (m, found) ↦ elim (Bool-cases (is_admin m && not (role_eq role Role.admin))) [
            | inl demoted ↦ update_checked m found role demoted
            | inr kept ↦ update_unchecked m found role kept
          ]
        ])

  -- Whichever member is removed, every organisation that had an administrator has one afterwards.
  pub remove-HasAdmin : HasAdmin o (remove prisma ctx target_user_id db).1.memberships
  unfolding remove remove_tx
  remove-HasAdmin =
      rw (prisma.transaction_lem)
        (elim (Option-cases (find (within memberships org by_user) db.memberships)) [
          | inl missing ↦ rw (find_unique_lem prisma ctx memberships refl inside db) (rw missing h)
          | inr (m, found) ↦ elim (Bool-cases (is_admin m)) [
            | inl admin ↦ remove_checked m found admin
            | inr plain ↦ remove_unchecked m found plain
          ]
        ])
