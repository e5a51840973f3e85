-- ===== src/Dashboard/Sums.antt =====
-- The counters of an organisation's runs add up to the results of its cases.
use runboard.Prelude.{
  ℕ, ◌+◌, ◌==◌, ◌≡◌, ◌≢◌, refl, Bool, true, ◌&&◌, List, [], ◌∷◌, keep, count, any, All,
  if◌then◌else◌, Bool-cases, inl, inr, arith, ap, ◌∙◌, sym, eq_of_==,
}
use runboard.Prelude.Keys.{Absent, Distinct, bit}
use runboard.Schema.{Uuid, TestRun, TestRunCase}
use runboard.Tenant.{within}
use runboard.Tenant.Tables.{runs}
use runboard.Runs.Consistent.{in_run}
use runboard.Dashboard.Groups.{sum}

-- The foreign key (testRunId, organizationId) of a case.
abbrev pub HasRun : List TestRun → TestRunCase → Type 0
HasRun rows c =
    any (λ r. r.id == c.test_run_id && r.organization_id == c.organization_id) rows ≡ true

abbrev pub of_org : Uuid → List TestRun → List TestRun
of_org org rows = keep (within runs org (λ _. true)) rows

module _ (org : Uuid) (q : TestRunCase → Bool) where
  sum-Absent :
      (c : TestRunCase) (rows : List TestRun)
      → Absent (λ (r : TestRun). r.id) c.test_run_id rows
      → sum (λ r. bit (in_run r.id c && q c)) (of_org org rows) ≡ 0
  sum-Absent c [] _ = refl
  sum-Absent c (r ∷ rows) (ne, absent) = elim (Bool-cases (r.organization_id == org)) [
    | inl ours ↦ rw ours (ground (arith, sum-Absent c rows absent, ne))
    | inr other ↦ rw other (sum-Absent c rows absent)
  ]

  HasRun-later :
      (c : TestRunCase) (r : TestRun) (rows : List TestRun)
      → HasRun (r ∷ rows) c
      → r.id ≢ c.test_run_id
      → HasRun rows c
  HasRun-later c r rows h ne = ground (arith, h, ne)

  HasRun-here :
      (c : TestRunCase) (r : TestRun) (rows : List TestRun)
      → HasRun (r ∷ rows) c
      → Absent (λ (x : TestRun). x.id) c.test_run_id rows
      → r.organization_id ≡ c.organization_id
  HasRun-here c r [] h _ = ground (arith, h)
  HasRun-here c r (x ∷ rows) h (ne, absent) = HasRun-here c r rows (ground (arith, h, ne)) absent

  sum-one :
      (c : TestRunCase) (rows : List TestRun)
      → Distinct (λ (r : TestRun). r.id) rows
      → HasRun rows c
      → sum (λ r. bit (in_run r.id c && q c)) (of_org org rows)
        ≡ bit (c.organization_id == org && q c)
  sum-one c [] _ h = cc
  sum-one c (r ∷ rows) (absent, distinct) h = elim (Bool-cases (r.id == c.test_run_id)) [
    | inl hit ↦
        let e = eq_of_== r.id c.test_run_id hit in
        let gone = rw e at absent in
        let nothing = sum-Absent c rows gone in
        let same = HasRun-here c r rows h gone in
        elim (Bool-cases (r.organization_id == org)) [
          | inl ours ↦ rw ours (ground arith)
          | inr other ↦ rw other (ground arith)
        ]
    | inr miss ↦
        let ih = sum-one c rows distinct (HasRun-later c r rows h (ground arith)) in
        elim (Bool-cases (r.organization_id == org)) [
          | inl ours ↦ rw ours (ground arith)
          | inr other ↦ rw other ih
        ]
  ]

sum-add {ℓ} :
    {A : Type ℓ} (f g : A → ℕ) (xs : List A) → sum (λ x. f x + g x) xs ≡ sum f xs + sum g xs
sum-add f g [] = refl
sum-add f g (x ∷ xs) = omega (arith, sum-add f g xs)

sum-zero {ℓ} : {A : Type ℓ} (xs : List A) → sum (λ _. 0) xs ≡ 0
sum-zero [] = refl
sum-zero (x ∷ xs) = omega (arith, sum-zero xs)

sum_congr {ℓ} :
    {A : Type ℓ} (f g : A → ℕ) (xs : List A) → ((x : A) → f x ≡ g x) → sum f xs ≡ sum g xs
sum_congr f g [] same = refl
sum_congr f g (x ∷ xs) same = omega (arith, same x, sum_congr f g xs same)

if_bit : (b : Bool) → (if b then 1 else 0) ≡ bit b
if_bit b = ground arith

-- Counting the cases run by run is counting those of the organisation.
pub sum-count :
    (org : Uuid) (q : TestRunCase → Bool) (rows : List TestRun) (cases : List TestRunCase)
    → Distinct (λ (r : TestRun). r.id) rows
    → All (HasRun rows) cases
    → sum (λ r. count (λ c. in_run r.id c && q c) cases) (of_org org rows)
      ≡ count (λ c. c.organization_id == org && q c) cases
sum-count org q rows [] _ _ = sum-zero (of_org org rows)
sum-count org q rows (c ∷ cases) distinct (h, hs) =
    let one = sum-one org q c rows distinct h in
    let ih = sum-count org q rows cases distinct hs in
    let split =
      sum-add (λ (r : TestRun). bit (in_run r.id c && q c))
        (λ (r : TestRun). count (λ c. in_run r.id c && q c) cases) (of_org org rows) in
    let to_bits =
      sum_congr (λ (r : TestRun). count (λ c. in_run r.id c && q c) (c ∷ cases))
        (λ r. bit (in_run r.id c && q c) + count (λ c. in_run r.id c && q c) cases)
        (of_org org rows)
        (λ r.
          ap (λ (n : ℕ). n + count (λ c. in_run r.id c && q c) cases)
            (if_bit (in_run r.id c && q c))) in
    to_bits
    ∙ split
    ∙ rw (one, ih)
        (ap (λ (n : ℕ). n + count (λ c. c.organization_id == org && q c) cases)
          (sym (if_bit (c.organization_id == org && q c))))
