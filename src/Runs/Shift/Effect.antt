-- ===== src/Runs/Shift/Effect.antt =====
-- What `applyCounterShift` does to the rows of the runs.
use runboard.Prelude.{
  ◌≡◌, refl, ap, ◌==◌, Bool, true, Option, some, List, [], ◌∷◌, inl, inr, find, change, Bool-cases,
  if◌then◌else◌, arith, sym,
}
use mathlib.Core.Path.{fun_ext}
use runboard.Schema.{Uuid, Time, Db, RunCaseResult, TestRun}
use runboard.Exec.{ok}
use runboard.Context.{RequestContext, organization_of}
use runboard.Prisma.{Prisma}
use runboard.Tenant.{within}
use runboard.Tenant.Tables.{runs}
use runboard.Tenant.Client.{find_unique_lem, update_row_lem}
use runboard.Runs.Shift.{apply_counter_shift, delta_between, shift_run, is_empty}

-- The counters move only if the result does.
abbrev pub moved : Time → RunCaseResult → RunCaseResult → TestRun → TestRun
moved now previous next run =
    let delta = delta_between previous next in
    if is_empty delta then run else shift_run now delta run

abbrev pub is_run : Uuid → Uuid → TestRun → Bool
is_run org run_id = within runs org (λ r. r.id == run_id)

pub is_run-id : (org k : Uuid) (r : TestRun) → is_run org k r ≡ true → r.id ≡ k
is_run-id org k r h = ground arith

change_fixed {ℓ} :
    {A : Type ℓ} (p : A → Bool) (f : A → A) (xs : List A) → ((x : A) → f x ≡ x) → change p f xs ≡ xs
change_fixed p f [] fixed = refl
change_fixed p f (x ∷ xs) fixed = ground (arith, change_fixed p f xs fixed, fixed x)

module _ (prisma : Prisma) (ctx : Option RequestContext) (run_id : Uuid) {org : Uuid}
    (inside : organization_of ctx ≡ some org) where
  pub apply_counter_shift_lem :
      (previous next : RunCaseResult) (now : Time) (run : TestRun) (db : Db)
      → find (is_run org run_id) db.runs ≡ some run
      → apply_counter_shift prisma ctx run_id previous next now db ≡ (
        ok (moved now previous next run),
        record db { runs = change (is_run org run_id) (moved now previous next) db.runs },
      )
  unfolding apply_counter_shift
  apply_counter_shift_lem previous next now run db found =
      elim (Bool-cases (is_empty (delta_between previous next))) [
        | inl empty ↦ rw empty (
            rw (find_unique_lem prisma ctx runs refl inside db) (
              rw found (
                ap (λ rows. (ok run, record db { runs = rows }))
                  (sym (change_fixed _ (moved now previous next) db.runs (λ r. rw empty))))))
        | inr moves ↦ rw moves (
            rw (update_row_lem prisma ctx runs refl inside db) (
              rw found (
                ap
                  (λ f. (
                    ok (shift_run now (delta_between previous next) run),
                    record db { runs = change (is_run org run_id) f db.runs },
                  ))
                  (fun_ext λ r. rw moves))))
      ]

pub moved-is_run :
    (org k : Uuid) (now : Time) (previous next : RunCaseResult) (run : TestRun)
    → is_run org k (moved now previous next run) ≡ is_run org k run
moved-is_run org k now previous next run = ground arith
