-- ===== src/Dto.antt =====
-- The optional fields of the request bodies, and what JSON.stringify makes of the values that
-- `diffFields` compares.
use runboard.Prelude.{ℕ, String, Bool, true, false, Option, none, some, List, [], ◌∷◌}
use runboard.Schema.{Uuid, Step, CasePriority, BugSeverity, BugStatus}

-- A field with `.nullable().optional()`: left out, null, or a value.
pub data Patch (A : Type 0) : Type 0 where
  absent : Patch A
  null : Patch A
  value : A → Patch A

module _ {A : Type 0} where
  -- The new value of a nullable column; Prisma leaves a column alone whose value is undefined.
  abbrev pub patched : Patch A → Option A → Option A
  patched absent old = old
  patched null old = none
  patched (value a) old = some a

  -- The new value of a column that is not nullable, from a field with `.optional()`.
  abbrev pub replaced : Option A → A → A
  replaced none old = old
  replaced (some a) old = a

  abbrev pub is_given : Option A → Bool
  is_given none = false
  is_given (some _) = true

  abbrev pub is_present : Patch A → Bool
  is_present absent = false
  is_present _ = true

-- One entry of `Object.keys(dto)`.
abbrev pub key_if : Bool → String → List String
key_if true name = name ∷ []
key_if false name = []

-- `JSON.stringify`, part of the language.
pub record Json : Type 0 where
  pub of_string : String → String
  pub of_number : ℕ → String
  pub of_id : Uuid → String
  pub of_steps : List Step → String
  pub of_priority : CasePriority → String
  pub of_severity : BugSeverity → String
  pub of_status : BugStatus → String

abbrev pub or_null_text : {A : Type 0} → (A → String) → Option A → String
or_null_text f none = "null"
or_null_text f (some a) = f a
