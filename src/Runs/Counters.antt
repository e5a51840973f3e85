-- ===== src/Runs/Counters.antt =====
-- backend/src/runs/lib/run-counters.ts: the counter columns of a run and the rates that are
-- computed from them.
pub mod Rates
use runboard.Prelude.{ℤ, pos, ◌+ℤ◌, is_zero, ◌==◌, Bool, Option, none, some, if◌then◌else◌, ℕ}
use runboard.Schema.{RunCaseResult, TestRun}
use runboard.Floats.{Floats}

pub data CounterField : Type 0 where
  passed_count failed_count blocked_count skipped_count : CounterField

-- PENDING has no column.
abbrev pub counter_field_by_result : RunCaseResult → Option CounterField
counter_field_by_result RunCaseResult.pending = none
counter_field_by_result RunCaseResult.pass = some passed_count
counter_field_by_result RunCaseResult.fail = some failed_count
counter_field_by_result RunCaseResult.blocked = some blocked_count
counter_field_by_result RunCaseResult.skipped = some skipped_count

pub record RunCounterFields : Type 0 where
  pub total : ℤ
  pub passed : ℤ
  pub failed : ℤ
  pub blocked : ℤ
  pub skipped : ℤ

abbrev pub counter_fields : TestRun → RunCounterFields
counter_fields run = record {
  total = run.total_count;
  passed = run.passed_count;
  failed = run.failed_count;
  blocked = run.blocked_count;
  skipped = run.skipped_count;
}

abbrev pub recorded : RunCounterFields → ℤ
recorded run = run.passed +ℤ run.failed +ℤ run.blocked +ℤ run.skipped

module _ (floats : Floats) where
  open floats use {Float, zero, one, divide, min, max}

  pub record RunCounters : Type 0 where
    pub fields : RunCounterFields
    pub progress : Float
    pub pass_rate : Float

  abbrev pub clamp01 : Float → Float
  clamp01 value = min one (max zero value)

  unfoldable pub compute_counters : RunCounterFields → RunCounters
  compute_counters run =
      let progress = if is_zero run.total then zero else divide (recorded run) run.total in
      let pass_rate = if is_zero (recorded run) then zero else divide run.passed (recorded run) in
      record { fields = run; progress = clamp01 progress; pass_rate = clamp01 pass_rate }
