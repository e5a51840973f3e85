-- ===== src/Auth/Sessions.antt =====
-- Ending a session by `logout`, and what `login` lets in.
use text.Mathlib.Text.{◌==◌ as str_eq}
use runboard.Prelude.{
  All, List, ◌≡◌, refl, ap, ◌∙◌, ◌==◌, Bool, false, ◌&&◌, Option, none, some, String, [], ◌∷◌, ◌++◌,
  inl, inr, find, change, Bool-cases, if◌then◌else◌, ==_self,
}
use runboard.Prelude.Keys.{find_passes}
use runboard.Prelude.Updates.{find-change}
use runboard.Schema.{Uuid, Db, User, RefreshToken, AuditAction}
use runboard.Exec.{err}
use runboard.Context.{RequestContext}
use runboard.Prisma.{Prisma}
use runboard.Audit.{global_entry, record_global_lem}
use runboard.Auth.{
  Crypto, Draw, LoginDto, is_active, revoke, stored_as, refresh, refresh_reuse, logout, login,
  authenticated, has_email, invalid_credentials, user_params, id_of,
}
use runboard.Auth.Outcome.{stored_at, reused}

module _ (prisma : Prisma) (crypto : Crypto) (ctx : Option RequestContext) (draw : Draw)
    (token : String) (db : Db) where
  abbrev ended : Uuid → RefreshToken → Bool
  ended user_id t =
      (stored_as prisma crypto ctx draw token t && t.user_id == user_id) && is_active t

  tokens-logout :
      (user_id : Uuid)
      → (logout prisma crypto ctx draw user_id token db).1.refresh_tokens
        ≡ change (ended user_id) (revoke draw.now) db.refresh_tokens
  unfolding logout
  tokens-logout user_id = prisma.update_lem _ _ _

  found_ended :
      (stored : RefreshToken)
      → stored_at prisma crypto ctx draw token db ≡ some stored
      → stored_at prisma crypto ctx draw token
          (logout prisma crypto ctx draw stored.user_id token db).1
        ≡ some (if ended stored.user_id stored then revoke draw.now stored else stored)
  found_ended stored found =
      ap (find (stored_as prisma crypto ctx draw token)) (tokens-logout stored.user_id)
      ∙ find-change (stored_as prisma crypto ctx draw token) (ended stored.user_id)
          (revoke draw.now) db.refresh_tokens (λ t. refl)
      ∙ rw found refl

  ended_inactive :
      (stored : RefreshToken)
      → stored_at prisma crypto ctx draw token db ≡ some stored
      → is_active (if ended stored.user_id stored then revoke draw.now stored else stored) ≡ false
  ended_inactive stored found =
      let passes =
        find_passes (stored_as prisma crypto ctx draw token) db.refresh_tokens stored found in
      elim (Bool-cases (is_active stored)) [
        | inl active ↦ rw (passes, ==_self stored.user_id, active) refl
        | inr inactive ↦ rw (passes, ==_self stored.user_id, inactive) inactive
      ]

  -- After its owner has logged out with a refresh token, every refresh with it is answered
  -- AUTH_REFRESH_REUSE, whenever it comes.
  pub logout_ends :
      (stored : RefreshToken) (later_ctx : Option RequestContext) (later : Draw)
      → stored_at prisma crypto ctx draw token db ≡ some stored
      → (refresh prisma crypto later_ctx later token
          (logout prisma crypto ctx draw stored.user_id token db).1).0
        ≡ err refresh_reuse
  logout_ends stored later_ctx later found =
      (reused prisma crypto later_ctx later token
        (logout prisma crypto ctx draw stored.user_id token db).1 (found_ended stored found)
        (ended_inactive stored found)).answer

module _ (prisma : Prisma) (crypto : Crypto) (ctx : Option RequestContext) (draw : Draw)
    (dto : LoginDto) (db : Db) where
  -- No account has both the email and the password.
  abbrev pub NoMatch : List User → Type 0
  NoMatch users =
      All
        (λ u.
          (str_eq u.email dto.email && crypto.compare_password dto.password u.password_hash)
          ≡ false)
        users

  NoMatch-authenticated :
      (users : List User)
      → NoMatch users
      → authenticated prisma crypto ctx draw dto (find (has_email dto.email) users) ≡ none
  NoMatch-authenticated [] _ = refl
  NoMatch-authenticated (u ∷ users) (wrong, rest) = elim (Bool-cases (has_email dto.email u)) [
    | inl hit ↦
        let refused : crypto.compare_password dto.password u.password_hash ≡ false =
          rw hit at wrong in
        rw (hit, refused) refl
    | inr miss ↦ rw miss (NoMatch-authenticated users rest)
  ]

  -- If no account has both the email and the password of a login, the login is answered
  -- AUTH_INVALID_CREDENTIALS, and it leaves the database as it was but for one entry of the audit
  -- log, which names the email and the account of that email, if there is one.
  pub login_refused_lem :
      NoMatch db.users
      → login prisma crypto ctx draw dto db ≡ (
        err invalid_credentials,
        record db {
          audit_logs =
              db.audit_logs
              ++ global_entry ctx (
                  user_params AuditAction.auth_login_failed
                    (id_of (find (has_email dto.email) db.users))
                    (some dto.email))
                ∷ [];
        },
      )
  unfolding login
  login_refused_lem no_match = rw prisma.find_one_lem (
      rw (NoMatch-authenticated db.users no_match)
        (rw prisma.transaction_lem (rw (record_global_lem prisma ctx _ _) refl)))
