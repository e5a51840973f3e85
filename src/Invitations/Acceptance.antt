-- ===== src/Invitations/Acceptance.antt =====
-- What an accepted invitation was, and what it makes.
use text.Mathlib.Text.{◌==◌ as str_eq}
use runboard.Prelude.{
  ltb, ◌≡◌, refl, ap, ◌∙◌, ◌==◌, Bool, true, false, not, ◌&&◌, String, Option, some, List, [], ◌∷◌,
  ◌++◌, ◌⊎◌, inl, inr, find, change, any, Bool-cases, Option-cases, arith, sym, ==_self,
}
use runboard.Prelude.Updates.{find-change}
use runboard.Schema.{Uuid, Time, Db, Membership, Invitation}
use runboard.Exec.{Failure, Result, ok, err, not_found_error, unique_violation, internal}
use runboard.Context.{RequestContext, update_request_context, organization_of}
use runboard.Prisma.{Prisma, settle, settle-ok, answer-settle}
use runboard.Guards.{AuthenticatedUser}
use runboard.Tenant.{within}
use runboard.Tenant.Tables.{memberships, invitations}
use runboard.Tenant.Client.{find_unique_lem, create_row_lem, update_row_lem}
use runboard.Audit.{record_scoped_lem}
use runboard.Invitations.{
  is_pending, accept_it, conflict_error, new_member, joining, accept_tx, accept, invited_by_token,
}

module _ (prisma : Prisma) (hash_token : String → String) (store : RequestContext)
    (user : AuthenticatedUser) (id : Uuid) (now : Time) (token : String) (db : Db) where
  abbrev invited_at : Option Invitation
  invited_at = find (invited_by_token prisma hash_token token) db.invitations

  abbrev result : Result Membership × Db
  result = accept prisma hash_token (some store) user id now token db

  -- An invitation for another address, one that is not pending any more and one that has expired
  -- is refused, and the database stays as it was.
  pub accept_refused :
      (i : Invitation)
      → invited_at ≡ some i
      → (str_eq i.email user.email && is_pending i.status && not (ltb i.expires_at now)) ≡ false
      → (e : Failure) × (result ≡ (err e, db))
  unfolding accept
  accept_refused i found unfit = elim (Bool-cases (str_eq i.email user.email)) [
    | inr other ↦ (not_found_error, rw prisma.find_one_lem (rw found (rw other refl)))
    | inl mine ↦
        (conflict_error, rw prisma.find_one_lem (rw found (rw mine (rw (rw mine at unfit) refl))))
  ]

  inside :
      (i : Invitation)
      → organization_of (joining prisma hash_token (some store) i) ≡ some i.organization_id
  unfolding update_request_context
  inside i = refl

  module _ (i : Invitation) where
    abbrev ctx : Option RequestContext
    ctx = joining prisma hash_token (some store) i

    abbrev is_it : Invitation → Bool
    is_it = within invitations i.organization_id (λ x. x.id == i.id)

    abbrev is_member : Membership → Bool
    is_member = within memberships i.organization_id (λ m. m.user_id == user.id)

    abbrev joined : Membership
    joined = record (new_member id user.id i.role) { organization_id = i.organization_id }

    abbrev tx : Result Membership × Db
    tx = accept_tx prisma hash_token ctx user id now i db

    -- The transaction fails, or the invitation is accepted and the member added.
    tx_outcome :
        ((e : Failure) × (tx.0 ≡ err e))
        ⊎ ((tx.0 ≡ ok joined)
            × (tx.1.invitations ≡ change is_it (accept_it now) db.invitations)
            × (tx.1.memberships ≡ db.memberships ++ joined ∷ []))
    unfolding accept_tx update_request_context
    tx_outcome = elim (Option-cases (find is_member db.memberships)) [
      | inr (m, found) ↦ inl (
        conflict_error,
        rw (find_unique_lem prisma ctx memberships refl (inside i) db) (rw found refl),
      )
      | inl new ↦ elim (Bool-cases (any (memberships.clash joined) db.memberships)) [
        | inl clash ↦ inl (
          unique_violation,
          rw (find_unique_lem prisma ctx memberships refl (inside i) db) (
              rw new
                (rw (create_row_lem prisma ctx memberships refl (inside i) db) (rw clash refl))),
        )
        | inr fresh ↦ elim (Option-cases (find is_it db.invitations)) [
          | inl missing ↦ inl (
            internal,
            rw (find_unique_lem prisma ctx memberships refl (inside i) db) (
                rw new (
                  rw (create_row_lem prisma ctx memberships refl (inside i) db) (
                    rw fresh (
                      rw (update_row_lem prisma ctx invitations refl (inside i) _)
                        (rw missing refl))))),
          )
          | inr (t, found) ↦ inr (
            rw (find_unique_lem prisma ctx memberships refl (inside i) db) (
                rw new (
                  rw (create_row_lem prisma ctx memberships refl (inside i) db) (
                    rw fresh (
                      rw (update_row_lem prisma ctx invitations refl (inside i) _)
                        (rw found (rw (record_scoped_lem prisma ctx _ _ (inside i)) refl)))))),
            rw (find_unique_lem prisma ctx memberships refl (inside i) db) (
                rw new (
                  rw (create_row_lem prisma ctx memberships refl (inside i) db) (
                    rw fresh (
                      rw (update_row_lem prisma ctx invitations refl (inside i) _)
                        (rw found (rw (record_scoped_lem prisma ctx _ _ (inside i)) refl)))))),
            rw (find_unique_lem prisma ctx memberships refl (inside i) db) (
                rw new (
                  rw (create_row_lem prisma ctx memberships refl (inside i) db) (
                    rw fresh (
                      rw (update_row_lem prisma ctx invitations refl (inside i) _)
                        (rw found (rw (record_scoped_lem prisma ctx _ _ (inside i)) refl)))))),
          )
        ]
      ]
    ]

    found_accepted :
        (after : List Invitation)
        → after ≡ change is_it (accept_it now) db.invitations
        → invited_at ≡ some i
        → find (invited_by_token prisma hash_token token) after ≡ some (accept_it now i)
    found_accepted after changed found =
        ap (find (invited_by_token prisma hash_token token)) changed
        ∙ find-change (invited_by_token prisma hash_token token) is_it (accept_it now)
            db.invitations (λ x. refl)
        ∙ rw found (rw (==_self i.id, ==_self i.organization_id) refl)

    accept_live :
        invited_at ≡ some i
        → (str_eq i.email user.email && is_pending i.status && not (ltb i.expires_at now)) ≡ true
        → result ≡ settle db tx
    unfolding accept
    accept_live found fit = elim (Bool-cases (str_eq i.email user.email)) [
      | inr other ↦ cc
      | inl mine ↦
          rw prisma.find_one_lem
            (rw found (rw mine (rw (rw mine at fit) (prisma.transaction_lem _ db))))
    ]

module _ (prisma : Prisma) (hash_token : String → String) (store : RequestContext)
    (user : AuthenticatedUser) (id : Uuid) (now : Time) (token : String) (db : Db) (i : Invitation)
    (found : invited_at prisma hash_token store user id now token db ≡ some i) where
  abbrev first : Result Membership × Db
  first = result prisma hash_token store user id now token db

  abbrev Again : Db → RequestContext → AuthenticatedUser → Uuid → Time → Type 0
  Again after later_store later_user later_id later =
      (e : Failure) × (result prisma hash_token later_store later_user later_id later token after
        ≡ (err e, after))

  abbrev done_tx : Result Membership × Db
  done_tx = tx prisma hash_token store user id now token db i

  abbrev member : Membership
  member = joined prisma hash_token store user id now token db i

  first_done :
      first ≡ settle db done_tx
      → done_tx.0 ≡ ok member
      → (first.0 ≡ ok member) × (first.1 ≡ done_tx.1)
  first_done live answer = (
    ap (λ (r : Result Membership × Db). r.0) live ∙ answer-settle db done_tx ∙ answer,
    ap (λ (r : Result Membership × Db). r.1) live ∙ settle-ok db done_tx member answer,
  )

  ok-inj : {a b : Membership} → ok a ≡ ok b → a ≡ b
  ok-inj e = cc

  -- The second use of a token, in a database where its invitation is accepted.
  Again-refused :
      (after : Db)
      → find (invited_by_token prisma hash_token token) after.invitations ≡ some (accept_it now i)
      → (later_store : RequestContext) (later_user : AuthenticatedUser) (later_id : Uuid)
        (later : Time)
      → Again after later_store later_user later_id later
  Again-refused after accepted later_store later_user later_id later =
      accept_refused prisma hash_token later_store later_user later_id later token after
        (accept_it now i) accepted (ground arith)

  -- Whoever accepts an invitation becomes a member of the organisation that invited, with the role
  -- of the invitation, and from then on everybody who comes with its token is refused and changes
  -- nothing.
  pub accept_once :
      (m : Membership) (later_store : RequestContext) (later_user : AuthenticatedUser)
      (later_id : Uuid) (later : Time)
      → first.0 ≡ ok m
      → (m.user_id ≡ user.id)
        × (m.organization_id ≡ i.organization_id)
        × (m.role ≡ i.role)
        × (first.1.memberships ≡ db.memberships ++ m ∷ [])
        × Again first.1 later_store later_user later_id later
  accept_once m later_store later_user later_id later done =
      elim (Bool-cases
        (str_eq i.email user.email && is_pending i.status && not (ltb i.expires_at now))) [
          | inr unfit ↦
              let (e, refused) =
                accept_refused prisma hash_token store user id now token db i found unfit in
              cc
          | inl fit ↦
              let live = accept_live prisma hash_token store user id now token db i found fit in
              elim (tx_outcome prisma hash_token store user id now token db i) [
                | inl (e, failed) ↦
                    let refused =
                      ap (λ (r : Result Membership × Db). r.0) live
                      ∙ answer-settle db done_tx
                      ∙ failed in
                    cc
                | inr (answer, changed, added) ↦
                    let (answered, state) = first_done live answer in
                    let same = ok-inj (sym done ∙ answered) in
                    (
                      ap (λ (x : Membership). x.user_id) same,
                      ap (λ (x : Membership). x.organization_id) same,
                      ap (λ (x : Membership). x.role) same,
                      ap (λ (d : Db). d.memberships) state
                          ∙ added
                          ∙ ap (λ x. db.memberships ++ x ∷ []) (sym same),
                      Again-refused first.1
                          (found_accepted prisma hash_token store user id now token db i
                            first.1.invitations (ap (λ (d : Db). d.invitations) state ∙ changed)
                            found)
                          later_store later_user later_id later,
                    )
              ]
        ]
