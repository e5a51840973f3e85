-- ===== src/Auth/Outcome.antt =====
-- The three ways in which `refresh` ends.
use runboard.Prelude.{
  ltb, ◌≡◌, refl, ◌==◌, Bool, true, false, Option, none, some, String, List, [], ◌∷◌, ◌++◌, ◌⊎◌,
  inl, inr, find, any, change, Bool-cases, Option-cases, ap, ◌∙◌,
}
use runboard.Schema.{Db, User, RefreshToken}
use runboard.Exec.{Failure, internal, unique_violation, ok, err}
use runboard.Context.{RequestContext}
use runboard.Prisma.{Prisma, settle}
use runboard.Audit.{record_global_lem}
use runboard.Auth.{
  Crypto, Draw, is_active, revoke, token_clash, new_token, pair_of, issue_token_pair, in_family,
  revoke_family_tx, rotate_tx, stored_as, refresh, refresh_invalid, refresh_reuse,
}

module _ (prisma : Prisma) (crypto : Crypto) (ctx : Option RequestContext) (draw : Draw) where
  abbrev pub tokens_after_reuse : RefreshToken → List RefreshToken → List RefreshToken
  tokens_after_reuse stored tokens = change (in_family stored.family_id) (revoke draw.now) tokens

  abbrev pub revoked_one : RefreshToken → List RefreshToken → List RefreshToken
  revoked_one stored tokens = change (λ t. t.id == stored.id) (revoke draw.now) tokens

  abbrev pub issued : User → RefreshToken → RefreshToken
  issued user stored = new_token prisma crypto ctx draw user stored.family_id

  abbrev pub has_clash : User → RefreshToken → List RefreshToken → Bool
  has_clash user stored tokens = any (token_clash (issued user stored)) (revoked_one stored tokens)

  abbrev pub stored_at : String → Db → Option RefreshToken
  stored_at token db = find (stored_as prisma crypto ctx draw token) db.refresh_tokens

  -- A revoked token was found, and its family is revoked.
  pub record Reused (token : String) (db : Db) : Type 0 where
    pub stored : RefreshToken
    pub found : stored_at token db ≡ some stored
    pub inactive : is_active stored ≡ false
    pub answer : (refresh prisma crypto ctx draw token db).0 ≡ err refresh_reuse
    pub tokens :
        (refresh prisma crypto ctx draw token db).1.refresh_tokens
        ≡ tokens_after_reuse stored db.refresh_tokens

  -- A token in force was found, and the next one of its family takes its place.
  pub record Rotated (token : String) (db : Db) : Type 0 where
    pub stored : RefreshToken
    pub user : User
    pub found : stored_at token db ≡ some stored
    pub active : is_active stored ≡ true
    pub unexpired : ltb stored.expires_at draw.now ≡ false
    pub fresh : has_clash user stored db.refresh_tokens ≡ false
    pub answer :
        (refresh prisma crypto ctx draw token db).0 ≡ ok (pair_of prisma crypto ctx draw user)
    pub tokens :
        (refresh prisma crypto ctx draw token db).1.refresh_tokens
        ≡ revoked_one stored db.refresh_tokens ++ issued user stored ∷ []

  abbrev pub IsRefused : String → Db → Type 0
  IsRefused token db = (e : Failure) × (refresh prisma crypto ctx draw token db ≡ (err e, db))

  module _ (db : Db) (stored : RefreshToken) where
    rotate_none :
        find (λ t. t.id == stored.id) db.refresh_tokens ≡ none
        → (e : Failure) × (settle db (rotate_tx prisma crypto ctx draw stored db) ≡ (err e, db))
    unfolding rotate_tx
    rotate_none missing = (internal, rw prisma.find_one_lem (rw missing refl))

    rotate_no_user :
        {t : RefreshToken}
        → find (λ t. t.id == stored.id) db.refresh_tokens ≡ some t
        → find (λ (u : User). u.id == stored.user_id) db.users ≡ none
        → (e : Failure) × (settle db (rotate_tx prisma crypto ctx draw stored db) ≡ (err e, db))
    unfolding rotate_tx
    rotate_no_user found missing =
        (internal, rw prisma.find_one_lem (rw found (rw prisma.find_one_lem (rw missing refl))))

    module _ {t : RefreshToken} {user : User}
        (found : find (λ t. t.id == stored.id) db.refresh_tokens ≡ some t)
        (known : find (λ (u : User). u.id == stored.user_id) db.users ≡ some user) where
      rotate_clash :
          has_clash user stored db.refresh_tokens ≡ true
          → (e : Failure) × (settle db (rotate_tx prisma crypto ctx draw stored db) ≡ (err e, db))
      unfolding rotate_tx issue_token_pair
      rotate_clash clash = (
        unique_violation,
        rw prisma.find_one_lem (
            rw found (
              rw prisma.find_one_lem
                (rw known (rw prisma.update_lem (rw prisma.create_lem (rw clash refl)))))),
      )

      rotate_fresh :
          has_clash user stored db.refresh_tokens ≡ false
          → settle db (rotate_tx prisma crypto ctx draw stored db) ≡ (
            ok (pair_of prisma crypto ctx draw user),
            record db {
              refresh_tokens = revoked_one stored db.refresh_tokens ++ issued user stored ∷ [];
            },
          )
      unfolding rotate_tx issue_token_pair
      rotate_fresh fresh = rw prisma.find_one_lem (
          rw found (
            rw prisma.find_one_lem
              (rw known (rw prisma.update_lem (rw prisma.create_lem (rw fresh refl))))))

  module _ (token : String) (db : Db) where
    unknown-IsRefused : stored_at token db ≡ none → IsRefused token db
    unfolding refresh
    unknown-IsRefused missing = (refresh_invalid, rw prisma.find_one_lem (rw missing refl))

    module _ {stored : RefreshToken} (found : stored_at token db ≡ some stored) where
      pub reused : is_active stored ≡ false → Reused token db
      unfolding refresh revoke_family_tx
      reused inactive = record {
        stored = stored;
        found = found;
        inactive = inactive;
        answer = rw prisma.find_one_lem (
            rw found (
              rw inactive (
                rw (prisma.transaction_lem)
                  (rw prisma.update_lem (rw (record_global_lem prisma ctx _ _) refl)))));
        tokens = rw prisma.find_one_lem (
            rw found (
              rw inactive (
                rw (prisma.transaction_lem)
                  (rw prisma.update_lem (rw (record_global_lem prisma ctx _ _) refl)))));
      }

      expired-IsRefused :
          is_active stored ≡ true → ltb stored.expires_at draw.now ≡ true → IsRefused token db
      unfolding refresh
      expired-IsRefused active expired =
          (refresh_invalid, rw prisma.find_one_lem (rw found (rw (active, expired) refl)))

      refresh_live :
          is_active stored ≡ true
          → ltb stored.expires_at draw.now ≡ false
          → refresh prisma crypto ctx draw token db
            ≡ settle db (rotate_tx prisma crypto ctx draw stored db)
      unfolding refresh
      refresh_live active unexpired =
          rw prisma.find_one_lem (rw found (rw (active, unexpired) (prisma.transaction_lem _ db)))

  rotated :
      (token : String) (db : Db) (stored : RefreshToken) (user : User)
      → stored_at token db ≡ some stored
      → is_active stored ≡ true
      → ltb stored.expires_at draw.now ≡ false
      → {t : RefreshToken} → find (λ t. t.id == stored.id) db.refresh_tokens ≡ some t
      → find (λ (u : User). u.id == stored.user_id) db.users ≡ some user
      → has_clash user stored db.refresh_tokens ≡ false
      → Rotated token db
  rotated token db stored user found active unexpired row known fresh =
      let done =
        refresh_live token db found active unexpired ∙ rotate_fresh db stored row known fresh in
      record {
        stored = stored;
        user = user;
        found = found;
        active = active;
        unexpired = unexpired;
        fresh = fresh;
        answer = ap (λ s. s.0) done;
        tokens = ap (λ s. s.1.refresh_tokens) done;
      }

  rotation-IsRefused :
      (token : String) (db : Db) (stored : RefreshToken)
      → refresh prisma crypto ctx draw token db
        ≡ settle db (rotate_tx prisma crypto ctx draw stored db)
      → (e : Failure) × (settle db (rotate_tx prisma crypto ctx draw stored db) ≡ (err e, db))
      → IsRefused token db
  rotation-IsRefused token db stored live (e, refused) = (e, live ∙ refused)

  rotation_outcome :
      (token : String) (db : Db) (stored : RefreshToken)
      → stored_at token db ≡ some stored
      → is_active stored ≡ true
      → ltb stored.expires_at draw.now ≡ false
      → IsRefused token db ⊎ Rotated token db
  rotation_outcome token db stored found active unexpired =
      let refuse =
        rotation-IsRefused token db stored (refresh_live token db found active unexpired) in
      elim (Option-cases (find (λ t. t.id == stored.id) db.refresh_tokens)) [
        | inl missing ↦ inl (refuse (rotate_none db stored missing))
        | inr (t, row) ↦
            elim (Option-cases (find (λ (u : User). u.id == stored.user_id) db.users)) [
              | inl missing ↦ inl (refuse (rotate_no_user db stored row missing))
              | inr (user, known) ↦ elim (Bool-cases (has_clash user stored db.refresh_tokens)) [
                | inl clash ↦ inl (refuse (rotate_clash db stored row known clash))
                | inr fresh ↦
                    inr (rotated token db stored user found active unexpired row known fresh)
              ]
            ]
      ]

  pub refresh_outcome :
      (token : String) (db : Db) → IsRefused token db ⊎ (Reused token db ⊎ Rotated token db)
  refresh_outcome token db = elim (Option-cases (stored_at token db)) [
    | inl missing ↦ inl (unknown-IsRefused token db missing)
    | inr (stored, found) ↦ elim (Bool-cases (is_active stored)) [
      | inr inactive ↦ inr (inl (reused token db found inactive))
      | inl active ↦ elim (Bool-cases (ltb stored.expires_at draw.now)) [
        | inl expired ↦ inl (expired-IsRefused token db found active expired)
        | inr unexpired ↦ elim (rotation_outcome token db stored found active unexpired) [
          | inl refused ↦ inl refused
          | inr done ↦ inr (inr done)
        ]
      ]
    ]
  ]
