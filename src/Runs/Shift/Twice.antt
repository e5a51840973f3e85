-- ===== src/Runs/Shift/Twice.antt =====
-- Two shifts of the counters between the same two results, one after the other.
use runboard.Prelude.{
  ℕ, ℤ, pos, negsuc, sub_ℕ, ◌+◌, ◌+ℤ◌, ◌≡◌, ◌∙◌, ap, true, if◌then◌else◌, Bool-cases, inl, inr,
  arith,
}
use runboard.Prelude.Keys.{bit}
use runboard.Schema.{Time, RunCaseResult, result_eq, TestRun}
use runboard.Runs.Shift.Effect.{moved}

-- What a shift makes of the column of a result.
abbrev shifted : (previous next r : RunCaseResult) → ℤ → ℤ
shifted previous next r column =
    if result_eq previous next
    then column
    else if result_eq next r
    then column +ℤ pos 1
    else if result_eq previous r
    then column +ℤ negsuc 0
    else column

up : (a b : ℕ) → sub_ℕ a b +ℤ pos 1 ≡ sub_ℕ (a + 1) (b + 0)
up a b = ground arith

down : (a b : ℕ) → sub_ℕ a b +ℤ negsuc 0 ≡ sub_ℕ (a + 0) (b + 1)
down a b = ground arith

both_up : (a b : ℕ) → sub_ℕ a b ≡ sub_ℕ (a + 1) (b + 1)
both_up a b = ground arith

neither : (a b : ℕ) → sub_ℕ a b ≡ sub_ℕ (a + 0) (b + 0)
neither a b = ground arith

eq_left : (p q r : RunCaseResult) → result_eq p q ≡ true → result_eq p r ≡ result_eq q r
eq_left p q r e = ground (arith, e)

eq_both :
    (p q r : RunCaseResult) → result_eq q r ≡ true → result_eq p r ≡ true → result_eq p q ≡ true
eq_both p q r e f = ground (arith, e, f)

shifted_lem :
    (p q r : RunCaseResult) (a b : ℕ)
    → shifted p q r (sub_ℕ a b) ≡ sub_ℕ (a + bit (result_eq q r)) (b + bit (result_eq p r))
shifted_lem p q r a b = elim (Bool-cases (result_eq p q)) [
  | inl same ↦ elim (Bool-cases (result_eq q r)) [
    | inl hit ↦ rw (same, eq_left p q r same, hit) (both_up a b)
    | inr miss ↦ rw (same, eq_left p q r same, miss) (neither a b)
  ]
  | inr differs ↦ elim (Bool-cases (result_eq q r)) [
    | inl hit ↦ elim (Bool-cases (result_eq p r)) [
      | inl clash ↦ absurd (ground (arith, eq_both p q r hit clash, differs))
      | inr miss ↦ rw (differs, hit, miss) (up a b)
    ]
    | inr miss ↦ elim (Bool-cases (result_eq p r)) [
      | inl lost ↦ rw (differs, miss, lost) (down a b)
      | inr other ↦ rw (differs, miss, other) (neither a b)
    ]
  ]
]

-- One shift of a column that holds the difference a - b.
module _ (now : Time) (previous next : RunCaseResult) (run : TestRun) (a b : ℕ) where
  passed_shifted :
      (moved now previous next run).passed_count
      ≡ shifted previous next RunCaseResult.pass run.passed_count
  passed_shifted = ground arith

  passed_step :
      run.passed_count ≡ sub_ℕ a b
      → (moved now previous next run).passed_count
        ≡ sub_ℕ
            (a + bit (result_eq next RunCaseResult.pass))
            (b + bit (result_eq previous RunCaseResult.pass))
  passed_step h =
      passed_shifted
      ∙ ap (shifted previous next RunCaseResult.pass) h
      ∙ shifted_lem previous next RunCaseResult.pass a b

  failed_shifted :
      (moved now previous next run).failed_count
      ≡ shifted previous next RunCaseResult.fail run.failed_count
  failed_shifted = ground arith

  failed_step :
      run.failed_count ≡ sub_ℕ a b
      → (moved now previous next run).failed_count
        ≡ sub_ℕ
            (a + bit (result_eq next RunCaseResult.fail))
            (b + bit (result_eq previous RunCaseResult.fail))
  failed_step h =
      failed_shifted
      ∙ ap (shifted previous next RunCaseResult.fail) h
      ∙ shifted_lem previous next RunCaseResult.fail a b

  blocked_shifted :
      (moved now previous next run).blocked_count
      ≡ shifted previous next RunCaseResult.blocked run.blocked_count
  blocked_shifted = ground arith

  blocked_step :
      run.blocked_count ≡ sub_ℕ a b
      → (moved now previous next run).blocked_count
        ≡ sub_ℕ
            (a + bit (result_eq next RunCaseResult.blocked))
            (b + bit (result_eq previous RunCaseResult.blocked))
  blocked_step h =
      blocked_shifted
      ∙ ap (shifted previous next RunCaseResult.blocked) h
      ∙ shifted_lem previous next RunCaseResult.blocked a b

  skipped_shifted :
      (moved now previous next run).skipped_count
      ≡ shifted previous next RunCaseResult.skipped run.skipped_count
  skipped_shifted = ground arith

  skipped_step :
      run.skipped_count ≡ sub_ℕ a b
      → (moved now previous next run).skipped_count
        ≡ sub_ℕ
            (a + bit (result_eq next RunCaseResult.skipped))
            (b + bit (result_eq previous RunCaseResult.skipped))
  skipped_step h =
      skipped_shifted
      ∙ ap (shifted previous next RunCaseResult.skipped) h
      ∙ shifted_lem previous next RunCaseResult.skipped a b

pos-sub : (n : ℕ) → pos n ≡ sub_ℕ n 0
pos-sub n = ground arith

-- The column of a result, as large as it was, with one for each of two cases that get the result
-- and without one for each of two that lose it.
abbrev pub twice : (n : ℕ) (previous next r : RunCaseResult) → ℤ
twice n previous next r =
    sub_ℕ (n + bit (result_eq next r) + bit (result_eq next r))
      (0 + bit (result_eq previous r) + bit (result_eq previous r))

module _ (now now' : Time) (previous next : RunCaseResult) (run : TestRun) (n : ℕ) where
  abbrev after : TestRun
  after = moved now' previous next (moved now previous next run)

  pub passed_twice :
      run.passed_count ≡ pos n → after.passed_count ≡ twice n previous next RunCaseResult.pass
  passed_twice h =
      passed_step now' previous next (moved now previous next run) _ _
        (passed_step now previous next run n 0 (h ∙ pos-sub n))

  pub failed_twice :
      run.failed_count ≡ pos n → after.failed_count ≡ twice n previous next RunCaseResult.fail
  failed_twice h =
      failed_step now' previous next (moved now previous next run) _ _
        (failed_step now previous next run n 0 (h ∙ pos-sub n))

  pub blocked_twice :
      run.blocked_count ≡ pos n → after.blocked_count ≡ twice n previous next RunCaseResult.blocked
  blocked_twice h =
      blocked_step now' previous next (moved now previous next run) _ _
        (blocked_step now previous next run n 0 (h ∙ pos-sub n))

  pub skipped_twice :
      run.skipped_count ≡ pos n → after.skipped_count ≡ twice n previous next RunCaseResult.skipped
  skipped_twice h =
      skipped_step now' previous next (moved now previous next run) _ _
        (skipped_step now previous next run n 0 (h ∙ pos-sub n))
