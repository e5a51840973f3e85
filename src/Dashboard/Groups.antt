-- ===== src/Dashboard/Groups.antt =====
-- What loops over the groups of `groupBy` leave in their variables.
use runboard.Prelude.{
  ℕ, ℤ, pos, ◌+◌, ◌+ℤ◌, ◌==◌, ◌≡◌, refl, Bool, not, List, [], ◌∷◌, keep, count, length, All,
  if◌then◌else◌, Bool-cases, inl, inr, arith, eq_of_==, pos_+, ap, ◌∙◌,
}
use runboard.Schema.{TestRun}
use runboard.Prisma.{IsGrouping, empty, group}
use runboard.Runs.Counters.{RunCounterFields, counter_fields}
use runboard.Dashboard.{add_fields, no_fields, sum_fields, assigned, Totals, add_groups}

abbrev pub sum {ℓ} : {A : Type ℓ} → (A → ℕ) → List A → ℕ
sum f [] = 0
sum f (x ∷ xs) = f x + sum f xs

sum-split {ℓ} :
    {A : Type ℓ} (f : A → ℕ) (p : A → Bool) (xs : List A)
    → sum f (keep p xs) + sum f (keep (λ x. not (p x)) xs) ≡ sum f xs
sum-split f p [] = refl
sum-split f p (x ∷ xs) = elim (Bool-cases (p x)) [
  | inl hit ↦ rw hit (omega (arith, sum-split f p xs))
  | inr miss ↦ rw miss (omega (arith, sum-split f p xs))
]

pub All-keep {ℓ} :
    {A : Type ℓ} (P : A → Type 0) (p : A → Bool) (xs : List A) → All P xs → All P (keep p xs)
All-keep P p [] _ = tt
All-keep P p (x ∷ xs) (h, hs) = elim (Bool-cases (p x)) [
  | inl hit ↦ rw hit (h, All-keep P p xs hs)
  | inr miss ↦ rw miss (All-keep P p xs hs)
]

regroup : (n a b c : ℕ) → a + b ≡ c → n + a + b ≡ n + c
regroup n a b c e = omega arith

-- A column of the counters, whose value in each run is `f`.
module _ (column : RunCounterFields → ℤ) (none_lem : column no_fields ≡ pos 0)
    (add_lem : (a b : RunCounterFields) → column (add_fields a b) ≡ column a +ℤ column b)
    (f : TestRun → ℕ) where
  column-sum_fields :
      (rows : List TestRun)
      → All (λ run. column (counter_fields run) ≡ pos (f run)) rows
      → column (sum_fields rows) ≡ pos (sum f rows)
  column-sum_fields [] _ = none_lem
  column-sum_fields (run ∷ rows) (h, hs) =
      add_lem (counter_fields run) (sum_fields rows)
      ∙ rw (h, column-sum_fields rows hs) (pos_+ (f run) (sum f rows))

  pub column-add_groups :
      (key : TestRun → ℕ) {rows : List TestRun} {groups : List (ℕ × List TestRun)} (totals : Totals)
      (n : ℕ)
      → IsGrouping key rows groups
      → All (λ run. column (counter_fields run) ≡ pos (f run)) rows
      → column totals.fields ≡ pos n
      → column (add_groups groups totals).fields ≡ pos (n + sum f rows)
  column-add_groups key totals n empty _ start = rw start (ap pos (omega arith))
  column-add_groups key totals n (group k {rows} occurs rest) hs start =
      let here = keep (λ r. key r == k) rows in
      let counted = column-sum_fields here (All-keep _ (λ r. key r == k) rows hs) in
      let added =
        add_lem totals.fields (sum_fields here) ∙ rw (start, counted) (pos_+ n (sum f here)) in
      column-add_groups key _ (n + sum f here) rest (All-keep _ (λ r. not (key r == k)) rows hs)
        added
      ∙ ap pos (regroup n _ _ _ (sum-split f (λ r. key r == k) rows))

-- What the groups leave in a variable that is assigned at the value with the index.
abbrev pub assign_all : {Row : Type 0} → ℕ → List (ℕ × List Row) → ℕ → ℕ
assign_all index [] value = value
assign_all index (g ∷ groups) value = assign_all index groups (assigned index g value)

length-keep {ℓ} : {A : Type ℓ} (p : A → Bool) (xs : List A) → length (keep p xs) ≡ count p xs
length-keep p [] = refl
length-keep p (x ∷ xs) = elim (Bool-cases (p x)) [
  | inl hit ↦ rw hit (omega (arith, length-keep p xs))
  | inr miss ↦ rw miss (omega (arith, length-keep p xs))
]

count-keep_other :
    {Row : Type 0} (key : Row → ℕ) (index k : ℕ) (rows : List Row)
    → count (λ r. key r == index) (keep (λ r. not (key r == k)) rows)
      ≡ (if k == index then 0 else count (λ r. key r == index) rows)
count-keep_other key index k [] = ground arith
count-keep_other key index k (r ∷ rows) = ground (arith, count-keep_other key index k rows)

assign_all_cases :
    {Row : Type 0} (key : Row → ℕ) (index : ℕ) {rows : List Row} {groups : List (ℕ × List Row)}
    (value : ℕ)
    → IsGrouping key rows groups
    → assign_all index groups value
      ≡ (if count (λ r. key r == index) rows == 0 then value else count (λ r. key r == index) rows)
assign_all_cases key index value empty = refl
assign_all_cases key index value (group k {rows} {groups} occurs rest) =
    let ih =
      assign_all_cases key index (assigned index (k, keep (λ r. key r == k) rows) value) rest in
    let other = count-keep_other key index k rows in
    let here = length-keep (λ r. key r == k) rows in
    elim (Bool-cases (k == index)) [
      | inl same ↦ let e = eq_of_== k index same in ih ∙ ground (arith, e)
      | inr different ↦ ground arith
    ]

pub assign_all_lem :
    {Row : Type 0} (key : Row → ℕ) (index : ℕ) {rows : List Row} {groups : List (ℕ × List Row)}
    → IsGrouping key rows groups
    → assign_all index groups 0 ≡ count (λ r. key r == index) rows
assign_all_lem key index {rows} g = assign_all_cases key index 0 g ∙ ground arith
