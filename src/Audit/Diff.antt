-- ===== src/Audit/Diff.antt =====
-- backend/src/audit/diff.ts: the fields that an update changed. A row is given as the JSON text
-- of each field, which is what the code compares.
pub mod Exact
use text.Mathlib.Text.{◌==◌ as str_eq}
use text.Mathlib.TextEquality.{eq_iff}
use runboard.Prelude.{
  ◌≡◌, ◌≢◌, ◌↔◌, ◌⊎◌, inl, inr, refl, String, Bool, true, false, ◌||◌, List, [], ◌∷◌, if◌then◌else◌,
  arith, Bool-cases, In, any,
}

-- `changed[field] = [prev, next]`, on an object that may have the field already.
abbrev assign :
    String → String → String → List (String × String × String) → List (String × String × String)
assign field prev next [] = (field, prev, next) ∷ []
assign field prev next ((f, p, n) ∷ changed) =
    let rest = assign field prev next changed in
    if str_eq f field then (f, prev, next) ∷ changed else (f, p, n) ∷ rest

diff_loop :
    (String → String)
    → (String → String)
    → List String
    → List (String × String × String)
    → List (String × String × String)
diff_loop before after [] changed = changed
diff_loop before after (field ∷ fields) changed = diff_loop before after fields (
    if str_eq (before field) (after field)
    then changed
    else assign field (before field) (after field) changed)

unfoldable pub diff_fields :
    (String → String) → (String → String) → List String → List (String × String × String)
unfolding diff_loop
diff_fields before after allowed_fields = diff_loop before after allowed_fields []
