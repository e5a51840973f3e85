-- ===== src/Dashboard/Distribution.antt =====
-- The distribution that `summary` derives from the counters of the runs.
use runboard.Prelude.{
  ℕ, ℤ, pos, ◌+◌, ◌+ℤ◌, if◌then◌else◌, inl, inr, ◌-ℤ◌, ◌==◌, ◌≡◌, refl, Bool, true, ◌&&◌, List, [],
  ◌∷◌, count, All, Bool-cases, arith, ap, ◌∙◌, keep,
}
use runboard.Prelude.Keys.{count_congr}
use runboard.Schema.{Uuid, Db, status_index, RunCaseResult, result_eq, TestRun, TestRunCase}
use runboard.Prisma.{IsGrouping}
use runboard.Tenant.{within}
use runboard.Tenant.Tables.{runs}
use runboard.Runs.Counters.{RunCounterFields, counter_fields}
use runboard.Runs.Consistent.{IsConsistent, Tallies, in_run}
use runboard.Dashboard.{
  at_least_zero, add_fields, no_fields, distribution, Totals, add_groups, ResultDistribution,
}
use runboard.Dashboard.Groups.{All-keep, column-add_groups}
use runboard.Dashboard.Sums.{HasRun, of_org, sum-count}

-- The organisation's cases that have the result.
abbrev pub results : Uuid → Db → RunCaseResult → ℕ
results org db result =
    count (λ c. c.organization_id == org && result_eq c.result result) db.run_cases

-- The distribution is that of the organisation's case results.
pub record Distributes (org : Uuid) (db : Db) (d : ResultDistribution) : Type 0 where
  pub pass : d.pass ≡ pos (results org db RunCaseResult.pass)
  pub fail : d.fail ≡ pos (results org db RunCaseResult.fail)
  pub blocked : d.blocked ≡ pos (results org db RunCaseResult.blocked)
  pub skipped : d.skipped ≡ pos (results org db RunCaseResult.skipped)
  pub pending : d.pending ≡ pos (results org db RunCaseResult.pending)

five_results :
    (org : Uuid) (rows : List TestRunCase)
    → count (λ c. c.organization_id == org && true) rows
      ≡ count (λ c. c.organization_id == org && result_eq c.result RunCaseResult.pass) rows
        + count (λ c. c.organization_id == org && result_eq c.result RunCaseResult.fail) rows
        + count (λ c. c.organization_id == org && result_eq c.result RunCaseResult.blocked) rows
        + count (λ c. c.organization_id == org && result_eq c.result RunCaseResult.skipped) rows
        + count (λ c. c.organization_id == org && result_eq c.result RunCaseResult.pending) rows
five_results org [] = refl
five_results org (c ∷ rows) = ground (arith, five_results org rows)

and_true : (b : Bool) → b ≡ (b && true)
and_true b = ground arith

rest_lem :
    (n p f b s r : ℕ)
    → n ≡ p + f + b + s + r
    → at_least_zero (pos n -ℤ pos p -ℤ pos f -ℤ pos b -ℤ pos s) ≡ pos r
rest_lem n p f b s r e = ground arith

All-mono {ℓ} :
    {A : Type ℓ} (P Q : A → Type 0) (xs : List A) → ((x : A) → P x → Q x) → All P xs → All Q xs
All-mono P Q [] step _ = tt
All-mono P Q (x ∷ xs) step (h, hs) = (step x h, All-mono P Q xs step hs)

pub count-keep {ℓ} :
    {A : Type ℓ} (p q : A → Bool) (xs : List A) → count q (keep p xs) ≡ count (λ x. p x && q x) xs
count-keep p q [] = refl
count-keep p q (x ∷ xs) = elim (Bool-cases (p x)) [
  | inl hit ↦ rw hit (ap (λ (n : ℕ). (if q x then 1 else 0) + n) (count-keep p q xs))
  | inr miss ↦ rw miss (omega (arith, count-keep p q xs))
]

module _ (org : Uuid) (db : Db) (h : IsConsistent db) (refers : All (HasRun db.runs) db.run_cases)
    {groups : List (ℕ × List TestRun)}
    (grouped : IsGrouping (λ run. status_index run.status) (of_org org db.runs) groups) where
  abbrev start : Totals
  start = record { active = 0; completed = 0; fields = no_fields }

  module _ (column : RunCounterFields → ℤ) (q : TestRunCase → Bool) where
    column_lem :
        column no_fields ≡ pos 0
        → ((a b : RunCounterFields) → column (add_fields a b) ≡ column a +ℤ column b)
        → ((run : TestRun)
            → Tallies db.run_cases run
            → column (counter_fields run) ≡ pos (count (λ c. in_run run.id c && q c) db.run_cases))
        → column (add_groups groups start).fields
          ≡ pos (count (λ c. c.organization_id == org && q c) db.run_cases)
    column_lem none_lem add_lem counts =
        let f = λ (run : TestRun). count (λ c. in_run run.id c && q c) db.run_cases in
        let each = All-mono (Tallies db.run_cases) _ db.runs counts h.counters in
        column-add_groups column none_lem add_lem f _ start 0 grouped
          (All-keep _ (within runs org (λ _. true)) db.runs each) none_lem
        ∙ ap pos (omega (arith, sum-count org q db.runs db.run_cases h.run_ids refers))

  total_lem :
      (add_groups groups start).fields.total
      ≡ pos (count (λ c. c.organization_id == org && true) db.run_cases)
  total_lem =
      column_lem (λ f. f.total) (λ _. true) refl (λ a b. refl)
        λ run t. t.total ∙ ap pos (count_congr _ _ db.run_cases (λ c. and_true (in_run run.id c)))

  passed_lem : (add_groups groups start).fields.passed ≡ pos (results org db RunCaseResult.pass)
  passed_lem =
      column_lem (λ f. f.passed) (λ c. result_eq c.result RunCaseResult.pass) refl (λ a b. refl)
        λ run t. t.passed

  failed_lem : (add_groups groups start).fields.failed ≡ pos (results org db RunCaseResult.fail)
  failed_lem =
      column_lem (λ f. f.failed) (λ c. result_eq c.result RunCaseResult.fail) refl (λ a b. refl)
        λ run t. t.failed

  blocked_lem :
      (add_groups groups start).fields.blocked ≡ pos (results org db RunCaseResult.blocked)
  blocked_lem =
      column_lem (λ f. f.blocked) (λ c. result_eq c.result RunCaseResult.blocked) refl (λ a b. refl)
        λ run t. t.blocked

  skipped_lem :
      (add_groups groups start).fields.skipped ≡ pos (results org db RunCaseResult.skipped)
  skipped_lem =
      column_lem (λ f. f.skipped) (λ c. result_eq c.result RunCaseResult.skipped) refl (λ a b. refl)
        λ run t. t.skipped

  pub add_groups-Distributes : Distributes org db (distribution (add_groups groups start).fields)
  add_groups-Distributes = record {
    pass = passed_lem;
    fail = failed_lem;
    blocked = blocked_lem;
    skipped = skipped_lem;
    pending =
        rw (total_lem, passed_lem, failed_lem, blocked_lem, skipped_lem)
          (rest_lem _ _ _ _ _ _ (five_results org db.run_cases));
  }
