-- ===== src/Runs/Shift.antt =====
-- `applyCounterShift` of backend/src/runs/runs.service.ts: the counters that a changed result
-- moves.
pub mod Effect
pub mod Tallies
pub mod Twice
use runboard.Prelude.{
  ℕ, zero, suc, ℤ, pos, negsuc, ◌+ℤ◌, ◌==◌, Bool, true, false, ◌&&◌, Option, none, some,
  if◌then◌else◌,
}
use runboard.Schema.{Uuid, Time, RunCaseResult, TestRun}
use runboard.Exec.{Tx, internal, require, ◌>>=◌}
use runboard.Context.{RequestContext}
use runboard.Prisma.{Prisma}
use runboard.Tenant.Tables.{runs}
use runboard.Tenant.Client.{find_unique, update_row}
use runboard.Runs.Counters.{
  CounterField, passed_count, failed_count, blocked_count, skipped_count, counter_field_by_result,
}

abbrev field_index : CounterField → ℕ
field_index passed_count = 0
field_index failed_count = 1
field_index blocked_count = 2
field_index skipped_count = 3

-- `Partial<Record<CounterField, number>>`
abbrev pub Delta : Type 0
Delta = CounterField → Option ℤ

-- `delta[field] ?? 0`
abbrev or_zero : Option ℤ → ℤ
or_zero none = pos 0
or_zero (some v) = v

-- `if (field) delta[field] = (delta[field] ?? 0) + v`
abbrev bump : Option CounterField → ℤ → Delta → Delta
bump none v delta f = delta f
bump (some field) v delta f =
    if field_index f == field_index field then some (or_zero (delta f) +ℤ v) else delta f

abbrev pub delta_between : RunCaseResult → RunCaseResult → Delta
delta_between previous next =
    bump (counter_field_by_result next) (pos 1)
      (bump (counter_field_by_result previous) (negsuc 0) (λ _. none))

-- `{ increment: n }` or `{ decrement: n }` on a column
pub data Change : Type 0 where
  increment decrement : ℕ → Change

-- One round of the loop over the entries of `delta`.
abbrev pub change_of : Option ℤ → Option Change
change_of none = none
change_of (some (pos zero)) = none
change_of (some (pos (suc n))) = some (increment (suc n))
change_of (some (negsuc n)) = some (decrement (suc n))

abbrev negative : ℕ → ℤ
negative zero = pos 0
negative (suc n) = negsuc n

abbrev pub apply_change : Option Change → ℤ → ℤ
apply_change none column = column
apply_change (some (increment n)) column = column +ℤ pos n
apply_change (some (decrement n)) column = column +ℤ negative n

abbrev is_none : Option Change → Bool
is_none none = true
is_none (some _) = false

-- `Object.keys(data).length === 0`
abbrev is_empty : Delta → Bool
is_empty delta =
    is_none (change_of (delta passed_count))
    && is_none (change_of (delta failed_count))
    && is_none (change_of (delta blocked_count))
    && is_none (change_of (delta skipped_count))

-- The update that the collected changes make; Prisma stamps `updatedAt`.
abbrev pub shift_run : Time → Delta → TestRun → TestRun
shift_run now delta run = record run {
  passed_count = apply_change (change_of (delta passed_count)) run.passed_count;
  failed_count = apply_change (change_of (delta failed_count)) run.failed_count;
  blocked_count = apply_change (change_of (delta blocked_count)) run.blocked_count;
  skipped_count = apply_change (change_of (delta skipped_count)) run.skipped_count;
  updated_at = now;
}

module _ (prisma : Prisma) (ctx : Option RequestContext) where
  read_run : Uuid → Tx TestRun
  read_run run_id = do run ← find_unique prisma ctx runs (λ r. r.id == run_id); require internal run

  unfoldable pub apply_counter_shift : Uuid → RunCaseResult → RunCaseResult → Time → Tx TestRun
  unfolding read_run
  apply_counter_shift run_id previous next now =
      let delta = delta_between previous next in
      if is_empty delta
      then read_run run_id
      else update_row prisma ctx runs (λ r. r.id == run_id) (shift_run now delta)
