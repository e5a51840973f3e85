-- ===== src/Filter/Hides.antt =====
-- What an answer to an exception tells the client of it.
use runboard.Prelude.{◌≡◌, refl, Bool, true, false, [], ◌∷◌, if◌then◌else◌, Bool-cases, inl, inr}
use text.Mathlib.Text.{◌==◌ as str_eq}
use runboard.Filter.{
  Exception, http, known_request_error, unknown, Answer, catch, normalize, conflict_body,
  internal_body,
}

module _ {V : Type 0} where
  -- The exceptions that are no HttpException.
  abbrev pub is_internal : Exception V → Bool
  is_internal (http _) = false
  is_internal _ = true

  -- The violations of a unique constraint.
  abbrev pub is_duplicate : Exception V → Bool
  is_duplicate (known_request_error code _) = str_eq code "P2002"
  is_duplicate _ = false

  internal_answer : Bool → Exception V → Answer V
  internal_answer duplicate e = record {
    status = if duplicate then 409 else 500;
    body = if duplicate then conflict_body else internal_body;
    logged = if duplicate then [] else e ∷ [];
  }

  catch-internal :
      (e : Exception V) → is_internal e ≡ true → catch e ≡ internal_answer (is_duplicate e) e
  unfolding catch normalize internal_answer
  catch-internal (http x) internal = cc
  catch-internal (known_request_error code message) _ = elim (Bool-cases (str_eq code "P2002")) [
    | inl hit ↦ rw hit refl
    | inr miss ↦ rw miss refl
  ]
  catch-internal (unknown v) _ = refl

  carries :
      (duplicate : Bool) (e : Exception V)
      → (internal_answer duplicate e).body.status_code ≡ (internal_answer duplicate e).status
  unfolding internal_answer
  carries true e = refl
  carries false e = refl

  -- Of an exception that is no HttpException the client learns only whether it violates a unique
  -- constraint: two that agree in this are answered with the same status and body. The answer to
  -- the exception has its status in the body, and it is logged unless it is such a violation.
  pub catch-Hides :
      (e e' : Exception V)
      → is_internal e ≡ true
      → is_internal e' ≡ true
      → is_duplicate e ≡ is_duplicate e'
      → ((catch e).status ≡ (catch e').status)
        × ((catch e).body ≡ (catch e').body)
        × ((catch e).body.status_code ≡ (catch e).status)
        × ((catch e).logged ≡ (if is_duplicate e then [] else e ∷ []))
  unfolding internal_answer
  catch-Hides e e' internal internal' same =
      rw (catch-internal e internal, catch-internal e' internal', same)
        (refl, refl, carries (is_duplicate e') e, refl)
