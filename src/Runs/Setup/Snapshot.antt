-- ===== src/Runs/Setup/Snapshot.antt =====
-- The cases of a new run, counted.
use runboard.Prelude.{
  ℕ, pos, ◌+◌, ◌≡◌, ◌≢◌, refl, sym, ap, ◌∙◌, ◌==◌, false, List, [], ◌∷◌, ◌++◌, map, length, count,
  any, All, Bool-cases, inl, inr, arith, ==_self, subst,
}
use runboard.Prelude.Keys.{Absent, Distinct}
use runboard.Prelude.Updates.{count-append, Distinct-append}
use runboard.Schema.{Uuid, Db, RunCaseResult, result_eq, TestCase, TestRun, TestRunCase}
use runboard.Tenant.Tables.{runs, run_cases}
use runboard.Runs.Consistent.{IsConsistent, Tallies, in_run, with_result}
use runboard.Runs.Setup.{snapshots}

module _ (org : Uuid) (case_ids : ℕ → Uuid) (id : Uuid) where
  -- The rows that `createMany` adds.
  abbrev pub copies : ℕ → List TestCase → List TestRunCase
  copies position cs = map (run_cases.with_org org) (snapshots case_ids id position cs)

  count-copies :
      (position : ℕ) (cs : List TestCase) → count (in_run id) (copies position cs) ≡ length cs
  count-copies position [] = refl
  count-copies position (c ∷ cs) = rw (==_self id) (omega (arith, count-copies (position + 1) cs))

  count-copies_ne :
      (k : Uuid) (position : ℕ) (cs : List TestCase)
      → k ≢ id
      → count (in_run k) (copies position cs) ≡ 0
  count-copies_ne k position [] ne = refl
  count-copies_ne k position (c ∷ cs) ne = ground (arith, count-copies_ne k (position + 1) cs ne)

  -- Every copy is pending.
  tally-copies :
      (k : Uuid) (result : RunCaseResult) (position : ℕ) (cs : List TestCase)
      → result_eq RunCaseResult.pending result ≡ false
      → count (with_result k result) (copies position cs) ≡ 0
  tally-copies k result position [] other = refl
  tally-copies k result position (c ∷ cs) other =
      ground (arith, tally-copies k result (position + 1) cs other)

count-Absent :
    (id : Uuid) (cases : List TestRunCase)
    → Absent (λ (c : TestRunCase). c.test_run_id) id cases
    → count (in_run id) cases ≡ 0
count-Absent id [] _ = refl
count-Absent id (c ∷ cases) (ne, absent) = ground (arith, count-Absent id cases absent)

tally-Absent :
    (id : Uuid) (result : RunCaseResult) (cases : List TestRunCase)
    → Absent (λ (c : TestRunCase). c.test_run_id) id cases
    → count (with_result id result) cases ≡ 0
tally-Absent id result [] _ = refl
tally-Absent id result (c ∷ cases) (ne, absent) =
    ground (arith, tally-Absent id result cases absent)

All-append {ℓ κ} :
    {A : Type ℓ} (P : A → Type κ) (xs : List A) (x : A) → All P xs → P x → All P (xs ++ x ∷ [])
All-append P [] x _ p = (p, tt)
All-append P (y ∷ ys) x (q, rest) p = (q, All-append P ys x rest p)

module _ (org : Uuid) (case_ids : ℕ → Uuid) (run : TestRun) (cs : List TestCase)
    (cases : List TestRunCase) where
  abbrev new_cases : List TestRunCase
  new_cases = cases ++ copies org case_ids run.id 0 cs

  -- An old run does not see the cases of another one.
  old-Tallies : (r : TestRun) → r.id ≢ run.id → Tallies cases r → Tallies new_cases r
  old-Tallies r ne t =
      let none_ = λ (result : RunCaseResult). tally-copies org case_ids run.id r.id result 0 cs in
      let sum = λ (result : RunCaseResult).
        count-append (with_result r.id result) cases (copies org case_ids run.id 0 cs) in
      record {
        total =
            t.total
            ∙ ap pos (
                omega (
                  arith,
                  count-append (in_run r.id) cases (copies org case_ids run.id 0 cs),
                  count-copies_ne org case_ids run.id r.id 0 cs ne,
                ));
        passed =
            t.passed
            ∙ ap pos (omega (arith, sum RunCaseResult.pass, none_ RunCaseResult.pass refl));
        failed =
            t.failed
            ∙ ap pos (omega (arith, sum RunCaseResult.fail, none_ RunCaseResult.fail refl));
        blocked =
            t.blocked
            ∙ ap pos (omega (arith, sum RunCaseResult.blocked, none_ RunCaseResult.blocked refl));
        skipped =
            t.skipped
            ∙ ap pos (omega (arith, sum RunCaseResult.skipped, none_ RunCaseResult.skipped refl));
      }

  All-old :
      (rs : List TestRun)
      → any (runs.clash run) rs ≡ false
      → All (Tallies cases) rs
      → All (Tallies new_cases) rs
  All-old [] _ _ = tt
  All-old (r ∷ rs) fresh (t, rest) = elim (Bool-cases (run.id == r.id)) [
    | inl same ↦ cc
    | inr other ↦ (old-Tallies r (ground arith) t, All-old rs (rw other at fresh) rest)
  ]

  new-tally :
      (result : RunCaseResult)
      → Absent (λ (c : TestRunCase). c.test_run_id) run.id cases
      → result_eq RunCaseResult.pending result ≡ false
      → count (with_result run.id result) new_cases ≡ 0
  new-tally result absent e = omega (
    arith,
    count-append (with_result run.id result) cases (copies org case_ids run.id 0 cs),
    tally-Absent run.id result cases absent,
    tally-copies org case_ids run.id run.id result 0 cs e,
  )

  -- The new run counts its copies, all pending, and nothing else.
  pub new-Tallies :
      Absent (λ (c : TestRunCase). c.test_run_id) run.id cases
      → run.total_count ≡ pos (length cs)
      → run.passed_count ≡ pos 0
      → run.failed_count ≡ pos 0
      → run.blocked_count ≡ pos 0
      → run.skipped_count ≡ pos 0
      → Tallies new_cases run
  new-Tallies absent total passed failed blocked skipped =
      let zero_at = λ (result : RunCaseResult).
        λ (e : result_eq RunCaseResult.pending result ≡ false). new-tally result absent e in
      record {
        total =
            total
            ∙ ap pos (
                omega (
                  arith,
                  count-append (in_run run.id) cases (copies org case_ids run.id 0 cs),
                  count-Absent run.id cases absent,
                  count-copies org case_ids run.id 0 cs,
                ));
        passed = passed ∙ ap pos (sym (zero_at RunCaseResult.pass refl));
        failed = failed ∙ ap pos (sym (zero_at RunCaseResult.fail refl));
        blocked = blocked ∙ ap pos (sym (zero_at RunCaseResult.blocked refl));
        skipped = skipped ∙ ap pos (sym (zero_at RunCaseResult.skipped refl));
      }

  -- The database with the new run and its cases.
  pub added-IsConsistent :
      (rs : List TestRun) (db : Db)
      → db.runs ≡ rs ++ run ∷ []
      → db.run_cases ≡ new_cases
      → Distinct (λ (r : TestRun). r.id) rs
      → any (runs.clash run) rs ≡ false
      → Distinct (λ (c : TestRunCase). c.id) new_cases
      → All (Tallies cases) rs
      → Tallies new_cases run
      → IsConsistent db
  added-IsConsistent rs db has_runs has_cases run_ids fresh case_ids old new = record {
    run_ids = subst (Distinct (λ (r : TestRun). r.id)) (sym has_runs) (
        Distinct-append (λ (r : TestRun). r.id) run (runs.clash run) (λ r e. ground (arith, e)) rs
          fresh run_ids);
    case_ids = subst (Distinct (λ (c : TestRunCase). c.id)) (sym has_cases) case_ids;
    counters =
        subst (λ c. All (Tallies c) db.runs) (sym has_cases)
          (subst (All (Tallies new_cases)) (sym has_runs)
            (All-append (Tallies new_cases) rs run (All-old rs fresh old) new));
  }
