-- ===== src/Exec.antt =====
-- Fallible code over the database. A DomainException (backend/src/common/errors) is a `Failure`:
-- its HTTP status and its code; the message for people is left out. What was written before a
-- throw stays written in the state beside the error, until a transaction discards it.
pub mod After
use runboard.Prelude.{ℕ, Bool, true, false, Option, none, some}
use runboard.Schema.{Db}

pub data Code : Type 0 where
  not_found validation_failed conflict org_forbidden run_not_assigned : Code
  run_not_in_progress run_invalid_transition run_no_cases member_last_admin : Code
  auth_email_taken auth_invalid_credentials auth_refresh_invalid auth_refresh_reuse : Code
  tenant_context_missing internal_error auth_unauthorized : Code

pub record Failure : Type 0 where
  pub status : ℕ
  pub code : Code

pub data Result (A : Type 0) : Type 0 where
  ok : A → Result A
  err : Failure → Result A

-- An action on the database.
abbrev pub Tx : Type 0 → Type 0
Tx A = Db → Result A × Db

module _ {A B : Type 0} where
  abbrev pub continue : Result A → (A → Tx B) → Tx B
  continue (ok a) f db = f a db
  continue (err e) f db = (err e, db)

  infixl 10 ◌>>=◌ ◌>>◌
  abbrev pub ◌>>=◌ : Tx A → (A → Tx B) → Tx B
  ◌>>=◌ m f db = let (r, db') = m db in continue r f db'

  abbrev pub ◌>>◌ : Tx A → Tx B → Tx B
  m >> n = m >>= λ _. n

module _ {A : Type 0} where
  abbrev pub pure : A → Tx A
  pure a db = (ok a, db)

  abbrev pub raise : Failure → Tx A
  raise e db = (err e, db)

  abbrev pub gets : (Db → A) → Tx A
  gets f db = (ok (f db), db)

  -- `if (!row) throw e`
  abbrev pub require : Failure → Option A → Tx A
  require e none = raise e
  require e (some a) = pure a

abbrev pub put : Db → Tx (Unit {0})
put db' db = (ok tt, db')

-- `if (!b) throw e`
abbrev pub guard : Bool → Failure → Tx (Unit {0})
guard true e = pure tt
guard false e = raise e

abbrev pub not_found_error : Failure
not_found_error = record { status = 404; code = not_found }

abbrev pub internal : Failure
internal = record { status = 500; code = internal_error }

-- P2002, a violated unique constraint, as all-exceptions.filter.ts answers it.
abbrev pub unique_violation : Failure
unique_violation = record { status = 409; code = conflict }
