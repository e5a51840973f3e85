-- ===== src/Examples/Filter.antt =====
-- Exceptions as the filter answers them: a handler's own, and what must not be shown.
use runboard.Prelude.{ℕ, ◌≡◌, refl, [], ◌∷◌}
use runboard.Filter.{
  Exception, http, known_request_error, unknown, undefined, null, string, domain_exception, catch,
  normalize,
}
use runboard.Filter.Hides.{catch-Hides}

-- A query error other than the violation of a unique constraint.
abbrev missing_row : Exception ℕ
missing_row = known_request_error "P2025" "no row of users"

abbrev thrown_value : Exception ℕ
thrown_value = unknown 7

domain : (catch (http (domain_exception {V = ℕ} 404 "NOT_FOUND" "M" undefined))) ≡ record {
  status = 404;
  body = record { status_code = 404; code = "NOT_FOUND"; message = "M"; details = null };
  logged = [];
}
unfolding catch normalize
domain = refl

teapot :
    (catch {V = ℕ} (http (record { status = 418; response = string "T"; message = "M" }))).body
    ≡ record { status_code = 418; code = "ERROR"; message = "T"; details = null }
unfolding catch normalize
teapot = refl

duplicate : (catch {V = ℕ} (known_request_error "P2002" "users_email_key")).status ≡ 409
unfolding catch normalize
duplicate = refl

catch-Hides_example :
    ((catch missing_row).status ≡ (catch thrown_value).status)
    × ((catch missing_row).body ≡ (catch thrown_value).body)
    × ((catch missing_row).body.status_code ≡ (catch missing_row).status)
    × ((catch missing_row).logged ≡ missing_row ∷ [])
catch-Hides_example = catch-Hides missing_row thrown_value refl refl refl
