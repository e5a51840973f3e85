-- ===== src/Prelude/Keys.antt =====
-- Rows with a key that no two of them share, and what changing the row of one key does to a count
-- and to a property of all rows.
use Prim.Native.Nat.{ℕ, ◌+◌}
use mathlib.Core.Path.{◌≡◌, refl, ap, sym, ◌∙◌, subst}
use mathlib.Core.Logic.{◌≢◌, inl, inr}
use mathlib.Core.Bool.{Bool, true, false, ◌&&◌}
use mathlib.Core.Option.{some}
use mathlib.Core.List.{List, [], ◌∷◌}
use native.Mathlib.Omega.{arith}
use runboard.Prelude.Tests.{if◌then◌else◌, Bool-cases, not, ◌==◌}
use runboard.Prelude.Lists.{find, count, change, keep, All}

abbrev pub bit : Bool → ℕ
bit true = 1
bit false = 0

pub some-inj {ℓ} : {A : Type ℓ} {u v : A} → some u ≡ some v → u ≡ v
some-inj e = cc

pub find_passes {ℓ} :
    {A : Type ℓ} (q : A → Bool) (xs : List A) (x : A) → find q xs ≡ some x → q x ≡ true
find_passes q [] x h = cc
find_passes q (y ∷ ys) x h = elim (Bool-cases (q y)) [
  | inl hit ↦ ground arith
  | inr miss ↦ find_passes q ys x (rw miss at h)
]

module _ {ℓ} {A : Type ℓ} (key : A → ℕ) where
  abbrev pub Absent : ℕ → List A → Type 0
  Absent a [] = Unit
  Absent a (x ∷ xs) = (key x ≢ a) × Absent a xs

  abbrev pub Distinct : List A → Type 0
  Distinct [] = Unit
  Distinct (x ∷ xs) = Absent (key x) xs × Distinct xs

  find_of_Absent :
      (q : A → Bool) (xs : List A) (x : A) (a : ℕ) → Absent a xs → find q xs ≡ some x → key x ≢ a
  find_of_Absent q [] x a _ h = cc
  find_of_Absent q (y ∷ ys) x a (ne, absent) h = elim (Bool-cases (q y)) [
    | inl hit ↦ λ e. ne (ap key (some-inj (rw hit at h)) ∙ e)
    | inr miss ↦ find_of_Absent q ys x a absent (rw miss at h)
  ]

  -- `q` passes only rows with the key `a`.
  module _ (q : A → Bool) (a : ℕ) (keyed : (y : A) → q y ≡ true → key y ≡ a) where
    pub change-Absent : (f : A → A) (xs : List A) → Absent a xs → change q f xs ≡ xs
    change-Absent f [] _ = refl
    change-Absent f (x ∷ xs) (ne, absent) = ground (arith, change-Absent f xs absent, keyed x, ne)

    pub count-change :
        (p : A → Bool) (f : A → A) (xs : List A) (x : A)
        → Distinct xs
        → find q xs ≡ some x
        → count p (change q f xs) + bit (p x) ≡ count p xs + bit (p (f x))
    count-change p f [] x _ h = cc
    count-change p f (y ∷ ys) x (absent, distinct) h = elim (Bool-cases (q y)) [
      | inl hit ↦
          let same = change-Absent f ys (subst (λ b. Absent b ys) (keyed y hit) absent) in
          ground (arith, same)
      | inr miss ↦ ground (arith, count-change p f ys x distinct)
    ]

    All-other :
        {P Q : A → Type 0} (xs : List A)
        → ((y : A) → key y ≢ a → P y → Q y)
        → Absent a xs
        → All P xs
        → All Q xs
    All-other [] step _ _ = tt
    All-other (x ∷ xs) step (ne, absent) (h, hs) = (step x ne h, All-other xs step absent hs)

    pub All-change :
        {P Q : A → Type 0} (f : A → A) (xs : List A) (x : A)
        → Distinct xs
        → find q xs ≡ some x
        → (P x → Q (f x))
        → ((y : A) → key y ≢ a → P y → Q y)
        → All P xs
        → All Q (change q f xs)
    All-change f [] x _ h at other _ = cc
    All-change {P} {Q} f (y ∷ ys) x (absent, distinct) h at other (hy, hys) =
        elim (Bool-cases (q y)) [
          | inl hit ↦
              let e : y ≡ x = some-inj (rw hit at h) in
              let gone = subst (λ b. Absent b ys) (keyed y hit) absent in
              rw (hit, change-Absent f ys gone)
                (subst (λ z. Q (f z)) (sym e) (at (subst P e hy)), All-other ys other gone hys)
          | inr miss ↦
              let found = rw miss at h in
              let key_x = keyed x (find_passes q ys x found) in
              let ne : key y ≢ a =
                λ e. find_of_Absent q ys x (key y) absent found (key_x ∙ sym e) in
              rw miss (other y ne hy, All-change {P = P} {Q = Q} f ys x distinct found at other hys)
        ]

  Absent-change :
      (q : A → Bool) (f : A → A) (xs : List A) (a : ℕ)
      → ((y : A) → key (f y) ≡ key y)
      → Absent a xs
      → Absent a (change q f xs)
  Absent-change q f [] a same _ = tt
  Absent-change q f (x ∷ xs) a same (ne, absent) =
      (ground (arith, same x), Absent-change q f xs a same absent)

  pub Distinct-change :
      (q : A → Bool) (f : A → A) (xs : List A)
      → ((y : A) → key (f y) ≡ key y)
      → Distinct xs
      → Distinct (change q f xs)
  Distinct-change q f [] same _ = tt
  Distinct-change q f (x ∷ xs) same (absent, distinct) =
      let same_key : key (if q x then f x else x) ≡ key x = ground (arith, same x) in
      (
        subst (λ a. Absent a (change q f xs)) (sym same_key)
            (Absent-change q f xs (key x) same absent),
        Distinct-change q f xs same distinct,
      )

module _ {ℓ} {A : Type ℓ} (key : A → ℕ) where
  Absent-keep : (q : A → Bool) (xs : List A) (a : ℕ) → Absent key a xs → Absent key a (keep q xs)
  Absent-keep q [] a _ = tt
  Absent-keep q (x ∷ xs) a (ne, absent) = elim (Bool-cases (q x)) [
    | inl hit ↦ rw hit (ne, Absent-keep q xs a absent)
    | inr miss ↦ rw miss (Absent-keep q xs a absent)
  ]

  pub Distinct-keep : (q : A → Bool) (xs : List A) → Distinct key xs → Distinct key (keep q xs)
  Distinct-keep q [] _ = tt
  Distinct-keep q (x ∷ xs) (absent, distinct) = elim (Bool-cases (q x)) [
    | inl hit ↦ rw hit (Absent-keep q xs (key x) absent, Distinct-keep q xs distinct)
    | inr miss ↦ rw miss (Distinct-keep q xs distinct)
  ]

  count-Absent :
      (p : A → Bool) (a : ℕ) (xs : List A)
      → Absent key a xs
      → count (λ x. p x && not (key x == a)) xs ≡ count p xs
  count-Absent p a [] _ = refl
  count-Absent p a (x ∷ xs) (ne, absent) = ground (arith, count-Absent p a xs absent)

  keep-Absent :
      (q : A → Bool) (a : ℕ) (xs : List A)
      → ((y : A) → q y ≡ true → key y ≡ a)
      → Absent key a xs
      → keep (λ x. not (q x)) xs ≡ xs
  keep-Absent q a [] keyed _ = refl
  keep-Absent q a (x ∷ xs) keyed (ne, absent) =
      ground (arith, keep-Absent q a xs keyed absent, keyed x, ne)

  module _ (q : A → Bool) (a : ℕ) (keyed : (y : A) → q y ≡ true → key y ≡ a) (p : A → Bool) where
    -- Counting all rows but the one with the key `a`.
    pub count-except :
        (xs : List A) (x : A)
        → Distinct key xs
        → find q xs ≡ some x
        → count (λ y. p y && not (key y == a)) xs + bit (p x) ≡ count p xs
    count-except [] x _ h = cc
    count-except (y ∷ ys) x (absent, distinct) h = elim (Bool-cases (q y)) [
      | inl hit ↦
          ground (
            arith,
            count-Absent p a ys (subst (λ b. Absent key b ys) (keyed y hit) absent),
            keyed y,
          )
      | inr miss ↦
          let found = rw miss at h in
          let key_x = keyed x (find_passes q ys x found) in
          let ne : key y ≢ a =
            λ e. find_of_Absent key q ys x (key y) absent found (key_x ∙ sym e) in
          ground (arith, count-except ys x distinct found, ne)
    ]

    pub count-delete :
        (xs : List A) (x : A)
        → Distinct key xs
        → find q xs ≡ some x
        → count p (keep (λ y. not (q y)) xs) + bit (p x) ≡ count p xs
    count-delete [] x _ h = cc
    count-delete (y ∷ ys) x (absent, distinct) h = elim (Bool-cases (q y)) [
      | inl hit ↦
          ground
            (arith, keep-Absent q a ys keyed (subst (λ b. Absent key b ys) (keyed y hit) absent))
      | inr miss ↦ ground (arith, count-delete ys x distinct)
    ]

    -- A row that one search finds is found by its key too.
    pub find-key :
        (xs : List A) (x : A)
        → Distinct key xs
        → find p xs ≡ some x
        → key x ≡ a
        → q x ≡ true
        → find q xs ≡ some x
    find-key [] x _ h _ _ = cc
    find-key (y ∷ ys) x (absent, distinct) h at_a passes = elim (Bool-cases (p y)) [
      | inl hit ↦
          let e : y ≡ x = some-inj (rw hit at h) in
          let passes_y : q y ≡ true = subst (λ z. q z ≡ true) (sym e) passes in
          rw passes_y (ap some e)
      | inr miss ↦
          let found = rw miss at h in
          let ne = find_of_Absent key p ys x (key y) absent found in
          elim (Bool-cases (q y)) [
            | inl same ↦ absurd (ne (at_a ∙ sym (keyed y same)))
            | inr other ↦ rw other (find-key ys x distinct found at_a passes)
          ]
    ]

pub count_congr {ℓ} :
    {A : Type ℓ} (p q : A → Bool) (xs : List A) → ((x : A) → p x ≡ q x) → count p xs ≡ count q xs
count_congr p q [] same = refl
count_congr p q (x ∷ xs) same = ground (arith, count_congr p q xs same, same x)

-- Two lists that are related place by place.
abbrev pub Pointwise {ℓ} : {A : Type ℓ} → (A → A → Type 0) → List A → List A → Type 0
Pointwise R [] [] = Unit
Pointwise R (x ∷ xs) (y ∷ ys) = R x y × Pointwise R xs ys
Pointwise R _ _ = ⊥

pub Pointwise-refl {ℓ} :
    {A : Type ℓ} (R : A → A → Type 0) (xs : List A) → ((y : A) → R y y) → Pointwise R xs xs
Pointwise-refl R [] same = tt
Pointwise-refl R (x ∷ xs) same = (same x, Pointwise-refl R xs same)

module _ {ℓ} {A : Type ℓ} (key : A → ℕ) (q : A → Bool) (a : ℕ)
    (keyed : (y : A) → q y ≡ true → key y ≡ a) (R : A → A → Type 0) (same : (y : A) → R y y) where
  pub Pointwise-change :
      (f : A → A) (xs : List A) (x : A)
      → Distinct key xs
      → find q xs ≡ some x
      → R x (f x)
      → Pointwise R xs (change q f xs)
  Pointwise-change f [] x _ h step = cc
  Pointwise-change f (y ∷ ys) x (absent, distinct) h step = elim (Bool-cases (q y)) [
    | inl hit ↦
        let e : y ≡ x = some-inj (rw hit at h) in
        let gone = subst (λ b. Absent key b ys) (keyed y hit) absent in
        rw (hit, change-Absent key q a keyed f ys gone)
          (subst (λ z. R z (f z)) (sym e) step, Pointwise-refl R ys same)
    | inr miss ↦ rw miss (same y, Pointwise-change f ys x distinct (rw miss at h) step)
  ]
