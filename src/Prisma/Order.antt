-- ===== src/Prisma/Order.antt =====
-- Where no two rows have one time, every query answers them in the same order.
use runboard.Prelude.{
  ℕ, ◌+◌, ◌==◌, ◌≤◌, ◌<◌, ◌≡◌, refl, sym, ap, ◌∙◌, subst, leb, Bool, true, false, Option, some,
  List, [], ◌∷◌, keep, find, count, All, Bool-cases, inl, inr, arith, ==_self,
}
use runboard.Prelude.Keys.{Absent, Distinct, some-inj}
use runboard.Schema.{Time}
use runboard.Prisma.{Prisma, IsDescending}

module _ {Row : Type 0} (at : Row → Time) where
  count_above :
      (a b : Time) (rows : List Row)
      → b < a
      → All (λ r. at r ≤ b) rows
      → count (λ r. leb a (at r)) rows ≡ 0
  count_above a b [] _ _ = refl
  count_above a b (r ∷ rows) h (k, rest) = ground (arith, count_above a b rows h rest, k, h)

  -- The first of one list is no later than that of another with the same rows.
  first_le :
      (x y : Row) (xs ys : List Row)
      → All (λ r. at r ≤ at y) ys
      → ((p : Row → Bool) → count p (x ∷ xs) ≡ count p (y ∷ ys))
      → at x ≤ at y
  first_le x y xs ys below same = elim (Bool-cases (leb (at x) (at y))) [
    | inl le ↦ ground arith
    | inr gt ↦
        let none = count_above (at x) (at y) ys (ground arith) below in
        let here : leb (at x) (at x) ≡ true = ground arith in
        let e = same (λ r. leb (at x) (at r)) in absurd (ground (arith, e, here, gt, none))
  ]

  -- A time names its row.
  module _ (row_at : Time → Option Row) where
    unique :
        (xs ys : List Row)
        → IsDescending at xs
        → IsDescending at ys
        → ((p : Row → Bool) → count p xs ≡ count p ys)
        → All (λ r. row_at (at r) ≡ some r) xs
        → All (λ r. row_at (at r) ≡ some r) ys
        → xs ≡ ys
    unique [] [] _ _ _ _ _ = refl
    unique [] (y ∷ ys) _ _ same _ _ = let e = same (λ r. true) in absurd (omega (arith, e))
    unique (x ∷ xs) [] _ _ same _ _ = let e = same (λ r. true) in absurd (omega (arith, e))
    unique (x ∷ xs) (y ∷ ys) (below, sorted) (below', sorted') same (named, rest) (named', rest') =
        let times : at x ≡ at y =
          antisym _ _ (first_le x y xs ys below' same)
            (first_le y x ys xs below (λ p. sym (same p))) in
        let rows : x ≡ y = some-inj (sym named ∙ ap row_at times ∙ named') in
        let tails : (p : Row → Bool) → count p xs ≡ count p ys = λ p.
          cancel _ _ _ (subst (λ z. count p (x ∷ xs) ≡ count p (z ∷ ys)) (sym rows) (same p)) in
        ap (λ z. z ∷ xs) rows ∙ ap (λ zs. y ∷ zs) (unique xs ys sorted sorted' tails rest rest')
      where
        antisym : (a b : ℕ) → a ≤ b → b ≤ a → a ≡ b
        antisym a b h k = omega arith

        cancel : (a b c : ℕ) → c + a ≡ c + b → a ≡ b
        cancel a b c e = omega arith

  Absent-other :
      (a : ℕ) (x : Row) (rows : List Row)
      → Absent at (at x) rows
      → at x ≡ a
      → All (λ r. (at r == a) ≡ false) rows
  Absent-other a x [] _ e = tt
  Absent-other a x (r ∷ rows) (ne, absent) e =
      (ground (arith, ne, e), Absent-other a x rows absent e)

  named_rest :
      (x : Row) (rows more : List Row)
      → All (λ r. find (λ z. at z == at r) more ≡ some r) rows
      → Absent at (at x) rows
      → All (λ r. find (λ z. at z == at r) (x ∷ more) ≡ some r) rows
  named_rest x [] more _ _ = tt
  named_rest x (r ∷ rows) more (found, rest) (ne, absent) =
      let other : (at x == at r) ≡ false = ground (arith, ne) in
      (rw other found, named_rest x rows more rest absent)

  Distinct-named :
      (rows : List Row) → Distinct at rows → All (λ r. find (λ z. at z == at r) rows ≡ some r) rows
  Distinct-named [] _ = tt
  Distinct-named (x ∷ rows) (absent, distinct) =
      (rw (==_self (at x)) refl, named_rest x rows rows (Distinct-named rows distinct) absent)

  pub find_ordered_unique :
      (prisma prisma' : Prisma) (where_ : Row → Bool) (rows : List Row)
      → Distinct at (keep where_ rows)
      → prisma.find_ordered at where_ rows ≡ prisma'.find_ordered at where_ rows
  find_ordered_unique prisma prisma' where_ rows distinct =
      let named = Distinct-named (keep where_ rows) distinct in
      unique (λ t. find (λ z. at z == t) (keep where_ rows)) _ _
        (prisma.find_ordered_sorted at where_ rows) (prisma'.find_ordered_sorted at where_ rows)
        (λ p.
          prisma.find_ordered_count at where_ rows p
          ∙ sym (prisma'.find_ordered_count at where_ rows p))
        (prisma.find_ordered_all at where_ rows _ named)
        (prisma'.find_ordered_all at where_ rows _ named)
