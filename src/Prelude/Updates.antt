-- ===== src/Prelude/Updates.antt =====
-- Lists of rows after a change or an addition: what is found and what is counted in them.
use runboard.Prelude.Tests.{Bool-cases, if◌then◌else◌}
use runboard.Prelude.Lists.{find, any, count, change}
use runboard.Prelude.Keys.{Absent, Distinct, find_passes}
use Prim.Native.Nat.{ℕ, ◌+◌, ◌≤◌}
use mathlib.Core.Path.{◌≡◌, ◌∙◌, refl, sym}
use mathlib.Core.Logic.{◌≢◌, inl, inr}
use mathlib.Core.Bool.{Bool, true, false}
use mathlib.Core.Option.{none, some}
use mathlib.Core.List.{List, [], ◌∷◌, ◌++◌}
use native.Mathlib.Omega.{arith}

module _ {ℓ} {A : Type ℓ} where
  -- A row is found in its new form when the change keeps what the search asks for.
  pub find-change :
      (p q : A → Bool) (f : A → A) (xs : List A)
      → ((x : A) → p (f x) ≡ p x)
      → find p (change q f xs)
        ≡ elim (find p xs) [ none ↦ none | some x ↦ some (if q x then f x else x) ]
  find-change p q f [] same = refl
  find-change p q f (x ∷ xs) same = elim (Bool-cases (q x)) [
    | inl hit ↦ elim (Bool-cases (p x)) [
      | inl mine ↦ rw (hit, same x, mine, hit) refl
      | inr other ↦ rw (hit, same x, other) (find-change p q f xs same)
    ]
    | inr miss ↦ elim (Bool-cases (p x)) [
      | inl mine ↦ rw (miss, mine, miss) refl
      | inr other ↦ rw (miss, other) (find-change p q f xs same)
    ]
  ]

  pub find-append :
      (p : A → Bool) (xs ys : List A) (x : A) → find p xs ≡ some x → find p (xs ++ ys) ≡ some x
  find-append p [] ys x h = cc
  find-append p (z ∷ zs) ys x h = elim (Bool-cases (p z)) [
    | inl hit ↦ rw hit (rw hit at h)
    | inr miss ↦ rw miss (find-append p zs ys x (rw miss at h))
  ]

  pub count-append : (p : A → Bool) (xs ys : List A) → count p (xs ++ ys) ≡ count p xs + count p ys
  count-append p [] ys = omega arith
  count-append p (x ∷ xs) ys = grind (arith, count-append p xs ys)

  -- A change whose results do not pass leaves no more rows that do.
  pub count-change-le :
      (p q : A → Bool) (f : A → A) (xs : List A)
      → ((x : A) → p (f x) ≡ false)
      → count p (change q f xs) ≤ count p xs
  count-change-le p q f [] drops = omega arith
  count-change-le p q f (x ∷ xs) drops = ground (arith, count-change-le p q f xs drops, drops x)

  pub count-change-none :
      (p : A → Bool) (f : A → A) (xs : List A)
      → ((x : A) → p (f x) ≡ false)
      → count p (change p f xs) ≡ 0
  count-change-none p f [] drops = refl
  count-change-none p f (x ∷ xs) drops = ground (arith, count-change-none p f xs drops, drops x)

  module _ (key : A → ℕ) (new : A) (clash : A → Bool)
      (keyed : (y : A) → key y ≡ key new → clash y ≡ true) where
    Absent-append :
        (a : ℕ) (xs : List A) → key new ≢ a → Absent key a xs → Absent key a (xs ++ new ∷ [])
    Absent-append a [] ne _ = (ne, tt)
    Absent-append a (x ∷ xs) ne (other, absent) = (other, Absent-append a xs ne absent)

    pub Distinct-append :
        (xs : List A) → any clash xs ≡ false → Distinct key xs → Distinct key (xs ++ new ∷ [])
    Distinct-append [] none_ _ = (tt, tt)
    Distinct-append (x ∷ xs) none_ (absent, distinct) = elim (Bool-cases (clash x)) [
      | inl hit ↦ cc
      | inr miss ↦ (
        Absent-append (key x) xs (λ e. ground (arith, keyed x (sym e))) absent,
        Distinct-append xs (rw miss at none_) distinct,
      )
    ]

pub find-changed :
    {A : Type 0} (q : A → Bool) (f : A → A) (xs : List A) (x : A)
    → ((y : A) → q (f y) ≡ q y)
    → find q xs ≡ some x
    → find q (change q f xs) ≡ some (f x)
find-changed q f xs x same found =
    find-change q q f xs same ∙ rw found (rw (find_passes q xs x found) refl)
