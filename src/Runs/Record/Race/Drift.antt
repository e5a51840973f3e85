-- ===== src/Runs/Record/Race/Drift.antt =====
-- Two testers who answer one case at once shift the counters twice.
use runboard.Prelude.{
  ℕ, pos, ◌+◌, ◌≡◌, ◌≢◌, refl, ap, sym, ◌∙◌, subst, ◌==◌, ◌&&◌, Bool, Option, some, List, [], ◌∷◌,
  find, Bool-cases, All, arith, inl, inr,
}
use runboard.Prelude.Keys.{bit, find_passes, Distinct-change, some-inj}
use runboard.Prelude.Updates.{find-changed}
use runboard.Schema.{Uuid, Time, Db, RunStatus, RunCaseResult, result_eq, TestRun, TestRunCase}
use runboard.Exec.{ok}
use runboard.Context.{RequestContext, organization_of}
use runboard.Prisma.{Prisma}
use runboard.Runs.Consistent.{IsConsistent, Tallies, tally}
use runboard.Runs.Shift.Effect.{moved, is_run, is_run-id, moved-is_run}
use runboard.Runs.Shift.Tallies.{IsMove, Tallies-moved, moved-id}
use runboard.Runs.Shift.Twice.{twice, passed_twice, failed_twice, blocked_twice, skipped_twice}
use runboard.Runs.Record.{RecordResultDto, record_case}
use runboard.Runs.Record.Invariant.{own-IsMove}
use runboard.Runs.Record.Race.{read_phase, read_phase_lem, write_phase, write_phase_lem, written}

-- A shift between two results changes a column.
module _ (now : Time) (run : TestRun) (a b c d : ℕ) where
  abbrev Columns : TestRun → Type 0
  Columns r =
      (r.passed_count ≡ pos a)
      × (r.failed_count ≡ pos b)
      × (r.blocked_count ≡ pos c)
      × (r.skipped_count ≡ pos d)

  moved-differs :
      (previous next : RunCaseResult)
      → previous ≢ next
      → Columns run
      → ¬ Columns (moved now previous next run)
  moved-differs RunCaseResult.pending RunCaseResult.pending ne h k = ne refl
  moved-differs RunCaseResult.pending RunCaseResult.pass ne h k = ground (arith, h, k)
  moved-differs RunCaseResult.pending RunCaseResult.fail ne h k = ground (arith, h, k)
  moved-differs RunCaseResult.pending RunCaseResult.blocked ne h k = ground (arith, h, k)
  moved-differs RunCaseResult.pending RunCaseResult.skipped ne h k = ground (arith, h, k)
  moved-differs RunCaseResult.pass RunCaseResult.pending ne h k = ground (arith, h, k)
  moved-differs RunCaseResult.pass RunCaseResult.pass ne h k = ne refl
  moved-differs RunCaseResult.pass RunCaseResult.fail ne h k = ground (arith, h, k)
  moved-differs RunCaseResult.pass RunCaseResult.blocked ne h k = ground (arith, h, k)
  moved-differs RunCaseResult.pass RunCaseResult.skipped ne h k = ground (arith, h, k)
  moved-differs RunCaseResult.fail RunCaseResult.pending ne h k = ground (arith, h, k)
  moved-differs RunCaseResult.fail RunCaseResult.pass ne h k = ground (arith, h, k)
  moved-differs RunCaseResult.fail RunCaseResult.fail ne h k = ne refl
  moved-differs RunCaseResult.fail RunCaseResult.blocked ne h k = ground (arith, h, k)
  moved-differs RunCaseResult.fail RunCaseResult.skipped ne h k = ground (arith, h, k)
  moved-differs RunCaseResult.blocked RunCaseResult.pending ne h k = ground (arith, h, k)
  moved-differs RunCaseResult.blocked RunCaseResult.pass ne h k = ground (arith, h, k)
  moved-differs RunCaseResult.blocked RunCaseResult.fail ne h k = ground (arith, h, k)
  moved-differs RunCaseResult.blocked RunCaseResult.blocked ne h k = ne refl
  moved-differs RunCaseResult.blocked RunCaseResult.skipped ne h k = ground (arith, h, k)
  moved-differs RunCaseResult.skipped RunCaseResult.pending ne h k = ground (arith, h, k)
  moved-differs RunCaseResult.skipped RunCaseResult.pass ne h k = ground (arith, h, k)
  moved-differs RunCaseResult.skipped RunCaseResult.fail ne h k = ground (arith, h, k)
  moved-differs RunCaseResult.skipped RunCaseResult.blocked ne h k = ground (arith, h, k)
  moved-differs RunCaseResult.skipped RunCaseResult.skipped ne h k = ne refl

find-All :
    {A : Type 0} (P : A → Type 0) (q : A → Bool) (xs : List A) (x : A)
    → find q xs ≡ some x
    → All P xs
    → P x
find-All P q [] x h _ = cc
find-All P q (y ∷ ys) x h (p, ps) = elim (Bool-cases (q y)) [
  | inl hit ↦ let e : some y ≡ some x = rw hit at h in subst P (some-inj e) p
  | inr miss ↦ find-All P q ys x (rw miss at h) ps
]

module _ (prisma : Prisma) (ctx ctx' : Option RequestContext) {org : Uuid}
    (inside : organization_of ctx ≡ some org) (inside' : organization_of ctx' ≡ some org)
    (run_id run_case_id user_id user_id' : Uuid) (dto : RecordResultDto) (now now' : Time) (db : Db)
    (run : TestRun) (run_case : TestRunCase) (h : IsConsistent db)
    (found : find (is_run org run_id) db.runs ≡ some run)
    (found_case : find (λ c. c.id == run_case_id && c.organization_id == org) db.run_cases
      ≡ some run_case)
    (of_run : run_case.test_run_id ≡ run_id) where
  abbrev first : Db
  first = written prisma ctx run_id run_case_id user_id dto now inside db run_case.result

  abbrev both : Db
  both = written prisma ctx' run_id run_case_id user_id' dto now' inside' first run_case.result

  abbrev is_case : TestRunCase → Bool
  is_case c = c.id == run_case_id && c.organization_id == org

  abbrev old : RunCaseResult
  old = run_case.result

  -- How many cases of the run had the result at the beginning.
  abbrev before : RunCaseResult → ℕ
  before r = tally db.run_cases run_id r

  abbrev next : RunCaseResult
  next = dto.result

  abbrev run_first : TestRun
  run_first = moved now run_case.result next run

  abbrev run_both : TestRun
  run_both = moved now' run_case.result next run_first

  abbrev case_first : TestRunCase
  case_first = record_case dto user_id now run_case

  found_first : find (is_run org run_id) first.runs ≡ some run_first
  found_first =
      find-changed (is_run org run_id) (moved now run_case.result next) db.runs run
        (moved-is_run org run_id now run_case.result next) found

  found_both : find (is_run org run_id) both.runs ≡ some run_both
  found_both =
      find-changed (is_run org run_id) (moved now' run_case.result next) first.runs run_first
        (moved-is_run org run_id now' run_case.result next) found_first

  found_case_first : find is_case first.run_cases ≡ some case_first
  found_case_first =
      find-changed is_case (record_case dto user_id now) db.run_cases run_case (λ c. refl)
        found_case

  abbrev at_id : run.id ≡ run_id
  at_id = is_run-id org run_id run (find_passes _ db.runs run found)

  first-Tallies : Tallies first.run_cases run_first
  first-Tallies =
      Tallies-moved now
        (subst (λ k. IsMove k run_case.result next db.run_cases first.run_cases) (sym at_id)
          (own-IsMove org run_id run_case_id user_id dto now db.run_cases run_case h.case_ids
            found_case of_run))
        (find-All (Tallies db.run_cases) (is_run org run_id) db.runs run found h.counters)

  -- The second change of the case changes nothing that is counted.
  second-IsMove : IsMove run_id next next first.run_cases both.run_cases
  second-IsMove =
      own-IsMove org run_id run_case_id user_id' dto now' first.run_cases case_first
        (Distinct-change (λ c. c.id) is_case (record_case dto user_id now) db.run_cases (λ c. refl)
          h.case_ids)
        found_case_first of_run

  abbrev id_first : run_first.id ≡ run_id
  id_first = moved-id now run_case.result next run ∙ at_id

  same_tally :
      (r : RunCaseResult)
      → tally both.run_cases run_both.id r ≡ tally first.run_cases run_first.id r
  same_tally r =
      ap (λ k. tally both.run_cases k r) (moved-id now' run_case.result next run_first ∙ id_first)
      ∙ cancel _ _ _ (second-IsMove.move r)
      ∙ ap (λ k. tally first.run_cases k r) (sym id_first)
    where
      cancel : (m n k : ℕ) → m + k ≡ n + k → m ≡ n
      cancel m n k e = omega arith

  -- The run with its counters, and its cases, against those at the beginning: each counter is moved
  -- twice, though the results of the cases move once.
  pub record CountedTwice (run' : TestRun) (cases' : List TestRunCase) : Type 0 where
    pub passed : run'.passed_count ≡ twice (before RunCaseResult.pass) old next RunCaseResult.pass
    pub failed : run'.failed_count ≡ twice (before RunCaseResult.fail) old next RunCaseResult.fail
    pub blocked :
        run'.blocked_count ≡ twice (before RunCaseResult.blocked) old next RunCaseResult.blocked
    pub skipped :
        run'.skipped_count ≡ twice (before RunCaseResult.skipped) old next RunCaseResult.skipped
    pub once :
        (r : RunCaseResult)
        → tally cases' run_id r + bit (result_eq old r) ≡ before r + bit (result_eq next r)

  both-CountedTwice : CountedTwice run_both both.run_cases
  both-CountedTwice =
      let t = find-All (Tallies db.run_cases) (is_run org run_id) db.runs run found h.counters in
      let at = λ (r : RunCaseResult). ap (λ k. pos (tally db.run_cases k r)) at_id in
      let m =
        own-IsMove org run_id run_case_id user_id dto now db.run_cases run_case h.case_ids
          found_case of_run in
      record {
        passed = passed_twice now now' old next run _ (t.passed ∙ at RunCaseResult.pass);
        failed = failed_twice now now' old next run _ (t.failed ∙ at RunCaseResult.fail);
        blocked = blocked_twice now now' old next run _ (t.blocked ∙ at RunCaseResult.blocked);
        skipped = skipped_twice now now' old next run _ (t.skipped ∙ at RunCaseResult.skipped);
        once = λ r. omega (arith, m.move r, second-IsMove.move r);
      }

  -- After the writes of both.
  abbrev raced : Db
  raced =
      (write_phase prisma ctx' run_id run_case_id user_id' dto now' run_case
        (write_phase prisma ctx run_id run_case_id user_id dto now run_case db).1).1

  raced_lem : raced ≡ both
  raced_lem =
      ap (λ d. (write_phase prisma ctx' run_id run_case_id user_id' dto now' run_case d).1)
        (write_phase_lem prisma ctx run_id run_case_id user_id dto now inside db run_case run
          run_case found found_case)
      ∙ write_phase_lem prisma ctx' run_id run_case_id user_id' dto now' inside' first run_case
          run_first case_first found_first found_case_first

  drifts : run_case.result ≢ next → ¬ IsConsistent both
  drifts changes c =
      let t =
        find-All (Tallies both.run_cases) (is_run org run_id) both.runs run_both found_both
          c.counters in
      let u = first-Tallies in
      moved-differs now' run_first _ _ _ _ run_case.result next changes
        (u.passed, u.failed, u.blocked, u.skipped)
        (
          t.passed ∙ ap pos (same_tally RunCaseResult.pass),
          t.failed ∙ ap pos (same_tally RunCaseResult.fail),
          t.blocked ∙ ap pos (same_tally RunCaseResult.blocked),
          t.skipped ∙ ap pos (same_tally RunCaseResult.skipped),
        )

  -- Two testers of one organisation record the same new result for a case at the same time, and
  -- both transactions read the case before either has written. Both read the old result. After the
  -- writes of both, one after the other, each counter of the run has been moved twice from the old
  -- result to the new one, while the results of the cases have moved once; so the counters are no
  -- longer the results, though they were before.
  pub race-Drifts :
      run.status ≡ RunStatus.in_progress
      → run_case.result ≢ next
      → (read_phase prisma ctx run_id run_case_id user_id dto now db ≡ (ok run_case, db))
        × (read_phase prisma ctx' run_id run_case_id user_id' dto now' db ≡ (ok run_case, db))
        × ((run' : TestRun) × (find (is_run org run_id) raced.runs ≡ some run')
            × CountedTwice run' raced.run_cases)
        × ¬ IsConsistent raced
  race-Drifts running changes = (
    read_phase_lem prisma ctx run_id run_case_id user_id dto now inside db run run_case found
        running found_case of_run,
    read_phase_lem prisma ctx' run_id run_case_id user_id' dto now' inside' db run run_case found
        running found_case of_run,
    (
      run_both,
      ap (λ d. find (is_run org run_id) d.runs) raced_lem ∙ found_both,
      subst (λ d. CountedTwice run_both d.run_cases) (sym raced_lem) both-CountedTwice,
    ),
    λ consistent. drifts changes (subst IsConsistent raced_lem consistent),
  )
