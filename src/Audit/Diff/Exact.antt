-- ===== src/Audit/Diff/Exact.antt =====
-- What `diffFields` reports.
use text.Mathlib.Text.{◌==◌ as str_eq}
use text.Mathlib.TextEquality.{eq_iff}
use runboard.Prelude.{
  ◌≡◌, refl, String, Bool, not, ◌&&◌, Option, none, some, List, [], ◌∷◌, if◌then◌else◌, arith, any,
  Bool-cases, inl, inr,
}
use runboard.Audit.Diff.{assign, diff_loop, diff_fields}

-- `changed[field]`
abbrev pub entry : String → List (String × String × String) → Option (String × String)
entry field [] = none
entry field ((f, p, n) ∷ changed) = if str_eq f field then some (p, n) else entry field changed

abbrev pub lists_field : String → List String → Bool
lists_field field = any (λ f. str_eq f field)

entry-assign :
    (g field prev next : String) (changed : List (String × String × String))
    → entry g (assign field prev next changed)
      ≡ (if str_eq field g then some (prev, next) else entry g changed)
entry-assign g field prev next [] = refl
entry-assign g field prev next ((f, p, n) ∷ changed) =
    ground
      (arith, entry-assign g field prev next changed, eq_iff f field, eq_iff field g, eq_iff f g)

module _ (before after : String → String) where
  abbrev pub reported : String → List String → Bool
  reported field fields = lists_field field fields && not (str_eq (before field) (after field))

  entry-diff_loop :
      (g : String) (fields : List String) (changed : List (String × String × String))
      → entry g (diff_loop before after fields changed)
        ≡ (if reported g fields then some (before g, after g) else entry g changed)
  unfolding diff_loop
  entry-diff_loop g [] changed = refl
  entry-diff_loop g (f ∷ fields) changed = elim (Bool-cases (str_eq (before f) (after f))) [
    | inl same ↦ rw same (ground (arith, entry-diff_loop g fields changed, eq_iff f g))
    | inr differs ↦ rw differs (
        ground (
          arith,
          entry-diff_loop g fields (assign f (before f) (after f) changed),
          entry-assign g f (before f) (after f) changed,
          eq_iff f g,
        ))
  ]

  -- A field is reported, with its value before and after, exactly if it is on the whitelist and
  -- its JSON text has changed; no other field is.
  pub entry-diff_fields :
      (field : String) (allowed_fields : List String)
      → entry field (diff_fields before after allowed_fields)
        ≡ (if reported field allowed_fields then some (before field, after field) else none)
  unfolding diff_fields
  entry-diff_fields field allowed_fields = entry-diff_loop field allowed_fields []
