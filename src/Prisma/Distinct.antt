-- ===== src/Prisma/Distinct.antt =====
-- Keys that are distinct stay so when the rows are filtered and sorted.
use runboard.Prelude.{ℕ, ◌==◌, ◌≤◌, ◌≡◌, Bool, List, [], ◌∷◌, keep, count, arith, ==_self}
use runboard.Prelude.Keys.{Absent, Distinct, Distinct-keep}
use runboard.Schema.{Time}
use runboard.Prisma.{Prisma, IsDescending}

module _ {Row : Type 0} (key : Row → ℕ) where
  count-Absent : (a : ℕ) (rows : List Row) → Absent key a rows → count (λ r. key r == a) rows ≡ 0
  count-Absent a [] _ = omega arith
  count-Absent a (r ∷ rows) (ne, absent) = ground (arith, count-Absent a rows absent, ne)

  count-Distinct : (a : ℕ) (rows : List Row) → Distinct key rows → count (λ r. key r == a) rows ≤ 1
  count-Distinct a [] _ = omega arith
  count-Distinct a (r ∷ rows) (absent, distinct) =
      ground (arith, count-Distinct a rows distinct, count-Absent (key r) rows absent)

  Absent-count : (a : ℕ) (rows : List Row) → count (λ r. key r == a) rows ≡ 0 → Absent key a rows
  Absent-count a [] _ = tt
  Absent-count a (r ∷ rows) h = (ground (arith, h), Absent-count a rows (ground (arith, h)))

  Distinct-count :
      (rows : List Row) → ((a : ℕ) → count (λ r. key r == a) rows ≤ 1) → Distinct key rows
  Distinct-count [] _ = tt
  Distinct-count (r ∷ rows) h =
      let here = ==_self (key r) in
      (
        Absent-count (key r) rows (ground (arith, h (key r), here)),
        Distinct-count rows (λ a. ground (arith, h a)),
      )

  pub find_ordered-Distinct :
      (prisma : Prisma) (at : Row → Time) (where_ : Row → Bool) (rows : List Row)
      → Distinct key rows
      → Distinct key (prisma.find_ordered at where_ rows)
  find_ordered-Distinct prisma at where_ rows h =
      Distinct-count (prisma.find_ordered at where_ rows) λ a.
        rw (prisma.find_ordered_count at where_ rows (λ r. key r == a))
          (count-Distinct a (keep where_ rows) (Distinct-keep key where_ rows h))

-- The rows that pass, the latest first, each as often as it is there.
pub record Lists {Row : Type 0} (at : Row → Time) (where_ : Row → Bool) (rows items : List Row)
    : Type 0 where
  pub sorted : IsDescending at items
  pub same : (p : Row → Bool) → count p items ≡ count p (keep where_ rows)

pub find_ordered-Lists :
    {Row : Type 0} (prisma : Prisma) (at : Row → Time) (where_ : Row → Bool) (rows : List Row)
    → Lists at where_ rows (prisma.find_ordered at where_ rows)
find_ordered-Lists prisma at where_ rows = record {
  sorted = prisma.find_ordered_sorted at where_ rows;
  same = prisma.find_ordered_count at where_ rows;
}
