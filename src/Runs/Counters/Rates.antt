-- ===== src/Runs/Counters/Rates.antt =====
-- backend/src/runs/lib/run-counters.ts: the rates of `computeCounters`.
use runboard.Prelude.{
  ℕ, ℤ, zero, suc, Bool-cases, inl, inr, pos, ◌+◌, ◌+ℤ◌, ◌≤◌, ◌≡◌, ◌∙◌, false, ap, arith, is_zero,
  pos_+, if◌then◌else◌,
}
use runboard.Floats.{Floats}
use runboard.Runs.Counters.{RunCounterFields, compute_counters, clamp01, recorded}

abbrev pub columns : ℕ → ℕ → ℕ → ℕ → ℕ → RunCounterFields
columns total passed failed blocked skipped = record {
  total = pos total;
  passed = pos passed;
  failed = pos failed;
  blocked = pos blocked;
  skipped = pos skipped;
}

module _ (floats : Floats) where
  open floats use {Float, one, divide, Le}

  clamp01_bounds :
      (v : Float)
      → floats.IsNumber v
      → Le floats.zero (clamp01 floats v) × Le (clamp01 floats v) one
  clamp01_bounds v number = (
    floats.le-min _ _ _ floats.zero-le-one
        (floats.le-max_left floats.zero v floats.zero-IsNumber number),
    floats.min-le_left one _ floats.one-IsNumber
        (floats.max-IsNumber floats.zero v floats.zero-IsNumber number),
  )

  clamp01_of_bounds : (v : Float) → Le floats.zero v → Le v one → clamp01 floats v ≡ v
  clamp01_of_bounds v lo hi =
      rw (clamp01, floats.max_of_le floats.zero v lo) (floats.min_of_le one v hi)

  ratio-IsNumber : (a b : ℤ) → floats.IsNumber (if is_zero b then floats.zero else divide a b)
  ratio-IsNumber a b = elim (Bool-cases (is_zero b)) [
    | inl none ↦ rw none floats.zero-IsNumber
    | inr some ↦ rw some (floats.divide-IsNumber a b some)
  ]

  -- Whatever the columns hold, zero totals included, both rates are numbers between 0 and 1; in
  -- particular neither is NaN, which stands in no order.
  pub compute_counters_bounds :
      (run : RunCounterFields)
      → Le floats.zero (compute_counters floats run).progress
        × Le (compute_counters floats run).progress one
        × Le floats.zero (compute_counters floats run).pass_rate
        × Le (compute_counters floats run).pass_rate one
  unfolding compute_counters
  compute_counters_bounds run =
      let progress = clamp01_bounds _ (ratio-IsNumber (recorded run) run.total) in
      let pass_rate = clamp01_bounds _ (ratio-IsNumber run.passed (recorded run)) in
      (progress.0, progress.1, pass_rate.0, pass_rate.1)

  -- A share, which is 0 of nothing.
  abbrev pub share : ℕ → ℕ → Float
  share part zero = floats.zero
  share part (suc n) = divide (pos part) (pos (suc n))

  clamped_ratio :
      (a b : ℕ)
      → a ≤ b
      → clamp01 floats (if is_zero (pos b) then floats.zero else divide (pos a) (pos b)) ≡ share a b
  clamped_ratio a zero fits = clamp01_of_bounds floats.zero (floats.zero-le-zero) floats.zero-le-one
  clamped_ratio a (suc n) fits =
      let nonzero : is_zero (pos (suc n)) ≡ false = ground arith in
      rw nonzero (
        clamp01_of_bounds _ (floats.zero-le-divide a (suc n) (omega arith))
          (floats.divide-le-one a (suc n) fits (omega arith)))

  recorded-columns : (total p f b s : ℕ) → recorded (columns total p f b s) ≡ pos (p + f + b + s)
  recorded-columns total p f b s =
      ap (λ x. x +ℤ pos b +ℤ pos s) (pos_+ p f)
      ∙ ap (λ x. x +ℤ pos s) (pos_+ (p + f) b)
      ∙ pos_+ (p + f + b) s

  -- Counters that add up to at most the total give exactly the shares: the recorded cases of the
  -- total, and the passed ones of the recorded. Each is 0 where it is a share of nothing.
  pub compute_counters_exact :
      (total p f b s : ℕ)
      → p + f + b + s ≤ total
      → ((compute_counters floats (columns total p f b s)).progress ≡ share (p + f + b + s) total)
        × ((compute_counters floats (columns total p f b s)).pass_rate ≡ share p (p + f + b + s))
  unfolding compute_counters
  compute_counters_exact total p f b s fits =
      rw (recorded-columns total p f b s)
        (clamped_ratio (p + f + b + s) total fits, clamped_ratio p (p + f + b + s) (omega arith))
