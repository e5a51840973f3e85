-- ===== src/Prisma/Groups.antt =====
-- Rows grouped by the value of a column, and their grouping on plain lists.
use Prim.Native.Nat.{ℕ, zero, suc, ◌≤◌, ◌<◌}
use mathlib.Core.Bool.{Bool}
use mathlib.Core.List.{List, [], ◌∷◌}
use native.Mathlib.Omega.{arith}
use runboard.Prelude.Tests.{◌==◌, not, ==_self}
use runboard.Prelude.Lists.{count, keep, length}

-- The groups of rows, one for each value that occurs, in any order.
pub data IsGrouping {Row : Type 0} (key : Row → ℕ) : List Row → List (ℕ × List Row) → Type 0 where
  empty : IsGrouping key [] []
  group :
      (k : ℕ) {rows : List Row} {groups : List (ℕ × List Row)}
      → 0 < count (λ r. key r == k) rows
      → IsGrouping key (keep (λ r. not (key r == k)) rows) groups
      → IsGrouping key rows ((k, keep (λ r. key r == k) rows) ∷ groups)

abbrev pub groups_of : {Row : Type 0} → ℕ → (Row → ℕ) → List Row → List (ℕ × List Row)
groups_of zero key rows = []
groups_of (suc n) key [] = []
groups_of (suc n) key (r ∷ rows) =
    (key r, keep (λ x. key x == key r) (r ∷ rows))
    ∷ groups_of n key (keep (λ x. not (key x == key r)) rows)

length-keep : {Row : Type 0} (p : Row → Bool) (rows : List Row) → length (keep p rows) ≤ length rows
length-keep p [] = omega arith
length-keep p (r ∷ rows) = ground (arith, length-keep p rows)

pub groups_of-IsGrouping :
    {Row : Type 0} (key : Row → ℕ) (n : ℕ) (rows : List Row)
    → length rows ≤ n
    → IsGrouping key rows (groups_of n key rows)
groups_of-IsGrouping key zero [] h = empty
groups_of-IsGrouping key zero (r ∷ rows) h = absurd (omega arith)
groups_of-IsGrouping key (suc n) [] h = empty
groups_of-IsGrouping {Row} key (suc n) (r ∷ rows) h =
    group (key r) (rw (==_self (key r)) (omega arith)) (
      rw (==_self (key r)) (
        groups_of-IsGrouping key n (keep (λ x. not (key x == key r)) rows)
          (omega (arith, length-keep (λ x. not (key x == key r)) rows))))
