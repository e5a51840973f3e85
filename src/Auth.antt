-- ===== src/Auth.antt =====
-- backend/src/auth/auth.service.ts: accounts, sessions and refresh tokens.
pub mod Outcome
pub mod Rotation
pub mod Sessions
use text.Mathlib.Text.{◌==◌ as str_eq}
use runboard.Prelude.{
  ℕ, ltb, ◌+◌, ◌*◌, ◌==◌, Bool, true, false, not, ◌&&◌, ◌||◌, Option, none, some, String, List, [],
  ◌∷◌, map, if◌then◌else◌,
}
use runboard.Schema.{
  Uuid, Time, Db, User, RefreshToken, Membership, Organization, Role, AuditAction, AuditTargetType,
  Metadata,
}
use runboard.Exec.{
  Failure, Result, ok, err, Tx, ◌>>=◌, ◌>>◌, pure, raise, gets, require, guard, internal,
  unique_violation, auth_email_taken, auth_invalid_credentials, auth_refresh_invalid,
  auth_refresh_reuse,
}
use runboard.Context.{RequestContext}
use runboard.Prisma.{Prisma}
use runboard.Audit.{RecordGlobalParams, record_global}

-- What the service relies on of bcrypt, node:crypto and the JWT library.
pub record Crypto : Type 0 where
  pub hash_password : String → String
  pub compare_password : String → String → Bool
  -- SHA-256 in hexadecimal
  pub hash_token : String → String
  -- `signAsync` with the user's id, email and the id of the token
  pub sign_access : Uuid → String → Uuid → String

-- The random values that one call draws, and the time at which it runs.
pub record Draw : Type 0 where
  pub now : Time
  pub row_id : Uuid
  pub family_id : Uuid
  pub jti : Uuid
  pub refresh_plain : String

pub record TokenPair : Type 0 where
  pub access_token : String
  pub refresh_token : String

pub record PublicUser : Type 0 where
  pub id : Uuid
  pub email : String
  pub name : String

pub record RegisterDto : Type 0 where
  pub email : String
  pub password : String
  pub name : String

pub record LoginDto : Type 0 where
  pub email : String
  pub password : String

-- Seven days, in milliseconds.
abbrev pub refresh_token_ttl_ms : ℕ
refresh_token_ttl_ms = 7 * 24 * 60 * 60 * 1000

abbrev pub email_taken : Failure
email_taken = record { status = 409; code = auth_email_taken }

abbrev pub invalid_credentials : Failure
invalid_credentials = record { status = 401; code = auth_invalid_credentials }

abbrev pub refresh_invalid : Failure
refresh_invalid = record { status = 401; code = auth_refresh_invalid }

abbrev pub refresh_reuse : Failure
refresh_reuse = record { status = 401; code = auth_refresh_reuse }

abbrev pub to_public_user : User → PublicUser
to_public_user user = record { id = user.id; email = user.email; name = user.name }

abbrev pub is_active : RefreshToken → Bool
is_active t = elim t.revoked_at [ none ↦ true | some _ ↦ false ]

abbrev pub revoke : Time → RefreshToken → RefreshToken
revoke now t = record t { revoked_at = some now }

abbrev user_clash : User → User → Bool
user_clash a b = a.id == b.id || str_eq a.email b.email

abbrev pub token_clash : RefreshToken → RefreshToken → Bool
token_clash a b = a.id == b.id || str_eq a.token_hash b.token_hash

abbrev pub in_family : Uuid → RefreshToken → Bool
in_family family_id t = t.family_id == family_id && is_active t

abbrev pub user_params : AuditAction → Option Uuid → Option String → RecordGlobalParams
user_params action user_id email = record {
  action = action;
  target_type = AuditTargetType.user;
  target_id = user_id;
  actor_id = user_id;
  actor_email = email;
  metadata = Metadata.nothing;
}

abbrev pub has_email : String → User → Bool
has_email email u = str_eq u.email email

abbrev pub is_none {ℓ} : {A : Type ℓ} → Option A → Bool
is_none none = true
is_none (some _) = false

abbrev pub id_of : Option User → Option Uuid
id_of none = none
id_of (some u) = some u.id

module _ (prisma : Prisma) (crypto : Crypto) (ctx : Option RequestContext) (draw : Draw) where
  abbrev pub new_token : User → Uuid → RefreshToken
  new_token user family_id = record {
    id = draw.row_id;
    user_id = user.id;
    token_hash = crypto.hash_token draw.refresh_plain;
    family_id = family_id;
    expires_at = draw.now + refresh_token_ttl_ms;
    revoked_at = none;
  }

  abbrev pub pair_of : User → TokenPair
  pair_of user = record {
    access_token = crypto.sign_access user.id user.email draw.jti;
    refresh_token = draw.refresh_plain;
  }

  save_tokens : Option (List RefreshToken) → Tx (Unit {0})
  save_tokens none db = (err unique_violation, db)
  save_tokens (some rows) db = (ok tt, record db { refresh_tokens = rows })

  -- `issueTokenPair`; a login and a registration begin a new family.
  unfoldable pub issue_token_pair : User → Uuid → Tx TokenPair
  unfolding save_tokens
  issue_token_pair user family_id = do
    λ db. save_tokens (prisma.create token_clash (new_token user family_id) db.refresh_tokens) db
    pure (pair_of user)

  update_tokens : (RefreshToken → Bool) → Tx (Unit {0})
  update_tokens where_ db = (
    ok tt,
    record db { refresh_tokens = prisma.update where_ (revoke draw.now) db.refresh_tokens },
  )

  -- The transaction that revokes a family, in `refresh`.
  unfoldable pub revoke_family_tx : RefreshToken → Tx (Unit {0})
  unfolding update_tokens
  revoke_family_tx stored = do
    update_tokens (in_family stored.family_id)
    record_global prisma ctx
        (user_params AuditAction.auth_refresh_reuse_detected (some stored.user_id) none)

  -- The transaction that revokes the token and issues the next one.
  unfoldable pub rotate_tx : RefreshToken → Tx TokenPair
  unfolding update_tokens
  rotate_tx stored = do
    found ← gets (λ db. prisma.find_one (λ t. t.id == stored.id) db.refresh_tokens)
    row ← require internal found
    update_tokens (λ t. t.id == stored.id)
    user ← gets (λ db. prisma.find_one (λ u. u.id == stored.user_id) db.users)
    known ← require internal user
    issue_token_pair known stored.family_id

  -- What `refresh` does with a token that is stored.
  refresh_stored : RefreshToken → Bool → Bool → Tx TokenPair
  refresh_stored stored false expired = do
    prisma.transaction (revoke_family_tx stored)
    raise refresh_reuse
  refresh_stored stored true true = raise refresh_invalid
  refresh_stored stored true false = prisma.transaction (rotate_tx stored)

  abbrev pub stored_as : String → RefreshToken → Bool
  stored_as refresh_token t = str_eq t.token_hash (crypto.hash_token refresh_token)

  unfoldable pub refresh : String → Tx TokenPair
  unfolding refresh_stored
  refresh refresh_token = do
    found ← gets (λ db. prisma.find_one (stored_as refresh_token) db.refresh_tokens)
    stored ← require refresh_invalid found
    refresh_stored stored (is_active stored) (ltb stored.expires_at draw.now)

  unfoldable pub logout : Uuid → String → Tx (Unit {0})
  unfolding update_tokens
  logout user_id refresh_token =
      update_tokens (λ t. (stored_as refresh_token t && t.user_id == user_id) && is_active t)

  save_users : Option (List User) → Tx (Unit {0})
  save_users none db = (err unique_violation, db)
  save_users (some rows) db = (ok tt, record db { users = rows })

  abbrev new_user : RegisterDto → User
  new_user dto = record {
    id = draw.row_id;
    email = dto.email;
    password_hash = crypto.hash_password dto.password;
    name = dto.name;
  }

  unfoldable pub register : RegisterDto → Tx (PublicUser × TokenPair)
  unfolding save_users
  register dto = do
    existing ← gets (λ db. prisma.find_one (has_email dto.email) db.users)
    guard (is_none existing) email_taken
    λ db. save_users (prisma.create user_clash (new_user dto) db.users) db
    tokens ← issue_token_pair (new_user dto) draw.family_id
    pure (to_public_user (new_user dto), tokens)

  -- The account of the email, if the password is right.
  abbrev pub authenticated : LoginDto → Option User → Option User
  authenticated dto none = none
  authenticated dto (some u) =
      if crypto.compare_password dto.password u.password_hash then some u else none

  login_refused : LoginDto → Option User → Tx (PublicUser × TokenPair × List Membership)
  login_refused dto found = do
    prisma.transaction (
        record_global prisma ctx
          (user_params AuditAction.auth_login_failed (id_of found) (some dto.email)))
    raise invalid_credentials

  login_tx : User → Tx TokenPair
  login_tx user = do
    pair ← issue_token_pair user draw.family_id
    record_global prisma ctx
        (user_params AuditAction.auth_login_succeeded (some user.id) (some user.email))
    pure pair

  login_checked :
      LoginDto → Option User → Option User → Tx (PublicUser × TokenPair × List Membership)
  login_checked dto found none = login_refused dto found
  login_checked dto found (some user) = do
    memberships ← gets (λ db. prisma.find_many (λ m. m.user_id == user.id) db.memberships)
    tokens ← prisma.transaction (login_tx user)
    pure (to_public_user user, tokens, memberships)

  unfoldable pub login : LoginDto → Tx (PublicUser × TokenPair × List Membership)
  unfolding login_checked login_refused login_tx
  login dto = do
    found ← gets (λ db. prisma.find_one (has_email dto.email) db.users)
    login_checked dto found (authenticated dto found)
