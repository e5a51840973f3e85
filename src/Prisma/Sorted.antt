-- ===== src/Prisma/Sorted.antt =====
-- Rows with the latest first, and their sorting on plain lists.
use Prim.Native.Nat.{◌+◌, ◌≤◌}
use mathlib.Core.Path.{◌≡◌, refl, ap, ◌∙◌}
use mathlib.Core.Logic.{inl, inr}
use mathlib.Core.Bool.{Bool}
use mathlib.Core.List.{List, [], ◌∷◌}
use native.Mathlib.Omega.{arith}
use runboard.Prelude.Tests.{leb, if◌then◌else◌, Bool-cases}
use runboard.Prelude.Lists.{All, count, keep}
use runboard.Schema.{Time}

-- The latest first.
abbrev pub IsDescending : {Row : Type 0} → (Row → Time) → List Row → Type 0
IsDescending at [] = Unit
IsDescending at (r ∷ rows) = All (λ r'. at r' ≤ at r) rows × IsDescending at rows

abbrev pub insert_down : {Row : Type 0} → (Row → Time) → Row → List Row → List Row
insert_down at r [] = r ∷ []
insert_down at r (x ∷ rows) = if leb (at x) (at r) then r ∷ x ∷ rows else x ∷ insert_down at r rows

abbrev pub sort_down : {Row : Type 0} → (Row → Time) → (Row → Bool) → List Row → List Row
sort_down at where_ [] = []
sort_down at where_ (r ∷ rows) =
    let rest = sort_down at where_ rows in if where_ r then insert_down at r rest else rest

count-insert_down :
    {Row : Type 0} (at : Row → Time) (p : Row → Bool) (r : Row) (rows : List Row)
    → count p (insert_down at r rows) ≡ count p (r ∷ rows)
count-insert_down at p r [] = refl
count-insert_down at p r (x ∷ rows) = elim (Bool-cases (leb (at x) (at r))) [
  | inl first ↦ rw first refl
  | inr later ↦ rw later (omega (arith, count-insert_down at p r rows))
]

pub count-sort_down :
    {Row : Type 0} (at : Row → Time) (where_ p : Row → Bool) (rows : List Row)
    → count p (sort_down at where_ rows) ≡ count p (keep where_ rows)
count-sort_down at where_ p [] = refl
count-sort_down at where_ p (r ∷ rows) = elim (Bool-cases (where_ r)) [
  | inl hit ↦ rw hit (
      count-insert_down at p r (sort_down at where_ rows)
      ∙ ap (λ n. (if p r then 1 else 0) + n) (count-sort_down at where_ p rows))
  | inr miss ↦ rw miss (count-sort_down at where_ p rows)
]

All-insert_down :
    {Row : Type 0} (at : Row → Time) (P : Row → Type 0) (r : Row) (rows : List Row)
    → P r
    → All P rows
    → All P (insert_down at r rows)
All-insert_down at P r [] p _ = (p, tt)
All-insert_down at P r (x ∷ rows) p (q, rest) = elim (Bool-cases (leb (at x) (at r))) [
  | inl first ↦ rw first (p, (q, rest))
  | inr later ↦ rw later (q, All-insert_down at P r rows p rest)
]

All-below :
    {Row : Type 0} (at : Row → Time) (a b : Time) (rows : List Row)
    → a ≤ b
    → All (λ r. at r ≤ a) rows
    → All (λ r. at r ≤ b) rows
All-below at a b [] h _ = tt
All-below at a b (r ∷ rows) h (k, rest) = (omega arith, All-below at a b rows h rest)

insert_down-IsDescending :
    {Row : Type 0} (at : Row → Time) (r : Row) (rows : List Row)
    → IsDescending at rows
    → IsDescending at (insert_down at r rows)
insert_down-IsDescending at r [] _ = (tt, tt)
insert_down-IsDescending at r (x ∷ rows) (below, sorted) = elim (Bool-cases (leb (at x) (at r))) [
  | inl first ↦
      let le : at x ≤ at r = ground arith in
      rw first ((le, All-below at (at x) (at r) rows le below), (below, sorted))
  | inr later ↦ rw later (
    All-insert_down at (λ r'. at r' ≤ at x) r rows (ground arith) below,
    insert_down-IsDescending at r rows sorted,
  )
]

pub sort_down-IsDescending :
    {Row : Type 0} (at : Row → Time) (where_ : Row → Bool) (rows : List Row)
    → IsDescending at (sort_down at where_ rows)
sort_down-IsDescending at where_ [] = tt
sort_down-IsDescending at where_ (r ∷ rows) = elim (Bool-cases (where_ r)) [
  | inl hit ↦ rw hit (
      insert_down-IsDescending at r (sort_down at where_ rows)
        (sort_down-IsDescending at where_ rows))
  | inr miss ↦ rw miss (sort_down-IsDescending at where_ rows)
]

pub sort_down-All :
    {Row : Type 0} (at : Row → Time) (where_ : Row → Bool) (P : Row → Type 0) (rows : List Row)
    → All P (keep where_ rows)
    → All P (sort_down at where_ rows)
sort_down-All at where_ P [] _ = tt
sort_down-All at where_ P (r ∷ rows) h = elim (Bool-cases (where_ r)) [
  | inl hit ↦
      let both = rw hit at h in
      rw hit (
        All-insert_down at P r (sort_down at where_ rows) both.0
          (sort_down-All at where_ P rows both.1))
  | inr miss ↦ rw miss (sort_down-All at where_ P rows (rw miss at h))
]
