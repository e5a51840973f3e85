-- ===== src/Examples/Auth.antt =====
-- Refresh tokens: a stand-in for the hashes marks its input, and the token "a" of family 5 is in
-- force.
use Prim.Native.String.{◌++◌ as str_append}
use text.Mathlib.Text.{◌==◌ as str_eq}
use runboard.Prelude.{ℕ, ◌≡◌, refl, arith, none, some, count, [], ◌∷◌, String}
use runboard.Schema.{Db, RefreshToken, AuditAction, AuditTargetType, Metadata}
use runboard.Exec.{ok, err}
use runboard.Prisma.{lists}
use runboard.Auth.{
  Crypto, Draw, LoginDto, refresh, rotate_tx, issue_token_pair, pair_of, logout, login,
  invalid_credentials, refresh_reuse,
}
use runboard.Auth.Rotation.{IsRotating, refresh_once, refresh-IsRotating, active_in}
use runboard.Auth.Sessions.{logout_ends, login_refused_lem}
use runboard.Examples.Data.{tester_context, one_run}

abbrev marks : Crypto
marks = record {
  hash_password = λ p. str_append "#" p;
  compare_password = λ p h. str_eq (str_append "#" p) h;
  hash_token = λ t. str_append "#" t;
  sign_access = λ id email jti. email;
}

abbrev draw_at : ℕ → String → Draw
draw_at now plain = record {
  now = now;
  row_id = now;
  family_id = now;
  jti = now;
  refresh_plain = plain;
}

abbrev token_a : RefreshToken
token_a = record {
  id = 40;
  user_id = 7;
  token_hash = "#a";
  family_id = 5;
  expires_at = 1000;
  revoked_at = none;
}

abbrev with_token : Db
with_token = record one_run { refresh_tokens = token_a ∷ [] }

with_token-IsRotating : IsRotating with_token.refresh_tokens
with_token-IsRotating = record { ids = (tt, tt); one_active = λ f. ground arith }

refresh-IsRotating_example :
    IsRotating (refresh lists marks tester_context (draw_at 50 "b") "a" with_token).1.refresh_tokens
refresh-IsRotating_example =
    refresh-IsRotating lists marks tester_context (draw_at 50 "b") "a" with_token
      with_token-IsRotating

refreshed :
    (refresh lists marks tester_context (draw_at 50 "b") "a" with_token).0
    ≡ ok (
        pair_of lists marks tester_context
          (draw_at 50 "b")
          (record { id = 7; email = "t@example.com"; password_hash = "x"; name = "Tess" }))
unfolding refresh rotate_tx issue_token_pair
refreshed = refl

abbrev after_b : Db
after_b = (refresh lists marks tester_context (draw_at 50 "b") "a" with_token).1

refresh_once_example :
    ((refresh lists marks none (draw_at 60 "c") "a" after_b).0 ≡ err refresh_reuse)
    × (count (active_in 5) (refresh lists marks none (draw_at 60 "c") "a" after_b).1.refresh_tokens
        ≡ 0)
refresh_once_example =
    refresh_once lists marks tester_context (draw_at 50 "b") "a" with_token _ token_a none
      (draw_at 60 "c") refreshed refl

logout_ends_example :
    (refresh lists marks none
      (draw_at 60 "c")
      "a"
      (logout lists marks tester_context (draw_at 50 "b") 7 "a" with_token).1).0
    ≡ err refresh_reuse
logout_ends_example =
    logout_ends lists marks tester_context (draw_at 50 "b") "a" with_token token_a none
      (draw_at 60 "c") refl

abbrev wrong : LoginDto
wrong = record { email = "t@example.com"; password = "y" }

login_refused_lem_example : login lists marks none (draw_at 50 "b") wrong one_run ≡ (
  err invalid_credentials,
  record one_run {
    audit_logs =
        record {
          organization_id = none;
          actor_id = some 7;
          actor_email = some "t@example.com";
          action = AuditAction.auth_login_failed;
          target_type = AuditTargetType.user;
          target_id = some 7;
          metadata = Metadata.nothing;
          ip = none;
          user_agent = none;
        }
        ∷ [];
  },
)
login_refused_lem_example =
    login_refused_lem lists marks none (draw_at 50 "b") wrong one_run (refl, tt)
