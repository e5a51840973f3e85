-- ===== src/Client/Cache/Rows.antt =====
-- The rows behind the cache: the case that is found by its id, and what a recording leaves of a run.
use runboard.Prelude.{
  Bool, false, ap, ◌∙◌, map, keep, ◌==◌, ◌≡◌, ◌≢◌, subst, true, ◌&&◌, none, some, List, [], ◌∷◌,
  find, All, Bool-cases, inl, inr, arith,
}
use runboard.Prelude.Keys.{Absent, Distinct, some-inj}
use runboard.Schema.{Uuid, Time, RunCaseResult, TestRun, TestRunCase}
use runboard.Client.Cache.{RunCaseItem}
use runboard.Tenant.{within}
use runboard.Tenant.Tables.{run_cases}
use runboard.Runs.Consistent.{in_run}
use runboard.Runs.Shift.Effect.{moved}

pub cons_eq {ℓ} : {A : Type ℓ} {x y : A} {xs ys : List A} → x ≡ y → xs ≡ ys → x ∷ xs ≡ y ∷ ys
cons_eq e es = cc

pub none-some : {A : Type 0} {a : A} → some a ≢ none
none-some e = cc

-- With distinct ids, the row that is found is the only one of its kind.
agree_Absent :
    (k org : Uuid) (x : TestRunCase) (rows : List TestRunCase)
    → Absent (λ (c : TestRunCase). c.id) k rows
    → All (λ c. (c.id == k && c.organization_id == org) ≡ true → c ≡ x) rows
agree_Absent k org x [] _ = tt
agree_Absent k org x (c ∷ rows) (ne, absent) =
    ((λ h. absurd (ground (arith, h, ne))), agree_Absent k org x rows absent)

pub agree :
    (k org : Uuid) (x : TestRunCase) (rows : List TestRunCase)
    → Distinct (λ (c : TestRunCase). c.id) rows
    → find (λ c. c.id == k && c.organization_id == org) rows ≡ some x
    → All (λ c. (c.id == k && c.organization_id == org) ≡ true → c ≡ x) rows
agree k org x [] _ _ = tt
agree k org x (c ∷ rows) (absent, distinct) found =
    elim (Bool-cases (c.id == k && c.organization_id == org)) [
      | inl hit ↦
          let e : c ≡ x = some-inj (rw hit at found) in
          let key : c.id ≡ k = ground (arith, hit) in
          (
            (λ _. e),
            agree_Absent k org x rows
                (subst (λ a. Absent (λ (y : TestRunCase). y.id) a rows) key absent),
          )
      | inr miss ↦
          ((λ h. absurd (ground (arith, h, miss))), agree k org x rows distinct (rw miss at found))
    ]

pub moved-fields :
    (now : Time) (previous next : RunCaseResult) (run : TestRun)
    → ((moved now previous next run).id ≡ run.id)
      × ((moved now previous next run).name ≡ run.name)
      × ((moved now previous next run).description ≡ run.description)
      × ((moved now previous next run).status ≡ run.status)
      × ((moved now previous next run).started_at ≡ run.started_at)
      × ((moved now previous next run).completed_at ≡ run.completed_at)
moved-fields now previous next run = ground arith

module _ (k org run_id : Uuid) where
  abbrev pub is_it : TestRunCase → Bool
  is_it c = c.id == k && c.organization_id == org

  abbrev pub listed : TestRunCase → Bool
  listed = within run_cases org (in_run run_id)

  -- A case is shown by its id.
  pub find_shown :
      (f : TestRunCase → RunCaseItem) (x : TestRunCase) (rows : List TestRunCase)
      → ((c : TestRunCase) → (f c).id ≡ c.id)
      → find is_it rows ≡ some x
      → listed x ≡ true
      → find (λ (item : RunCaseItem). item.id == k) (map f (keep listed rows)) ≡ some (f x)
  find_shown f x [] ids h _ = cc
  find_shown f x (c ∷ rows) ids h visible = elim (Bool-cases (is_it c)) [
    | inl hit ↦
        let e : c ≡ x = some-inj (rw hit at h) in
        let own : (c.id == k) ≡ true = ground (arith, hit) in
        let key = ap (λ i. i == k) (ids c) ∙ own in
        let shown : listed c ≡ true = ap listed e ∙ visible in
        rw (shown, key) (ap (λ y. some (f y)) e)
    | inr miss ↦
        let ih = find_shown f x rows ids (rw miss at h) visible in
        elim (Bool-cases (listed c)) [
          | inl shown ↦
              let own : (c.id == k) ≡ false = ground (arith, miss, shown) in
              let other = ap (λ i. i == k) (ids c) ∙ own in rw (shown, other) ih
          | inr hidden ↦ rw hidden ih
        ]
  ]
