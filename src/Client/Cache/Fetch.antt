-- ===== src/Client/Cache/Fetch.antt =====
-- What a fetch of the page of a run answers: `getOne` and `listCases` of
-- backend/src/runs/runs.service.ts, and who is shown there as the recorder of a case.
use runboard.Prelude.{◌==◌, ◌≡◌, refl, Option, none, some, List, map, find, keep}
use runboard.Schema.{Uuid, Time, Db, TestRun}
use runboard.Context.{RequestContext, organization_of}
use runboard.Tenant.Client.{find_unique_lem}
use runboard.Exec.{Result, ok, err}
use runboard.Prisma.{Prisma}
use runboard.Floats.{Floats}
use runboard.Tenant.{within}
use runboard.Tenant.Tables.{run_cases, runs}
use runboard.Runs.Consistent.{in_run}
use runboard.Runs.Shift.Effect.{is_run}
use runboard.Runs.Listing.{to_run_summary, get_one}
use runboard.Client.Cache.{RunCaseItem, RunCache, case_item, Recorder}

module _ (floats : Floats) (created : TestRun → Time) (prisma : Prisma)
    (ctx : Option RequestContext) where
  abbrev pub answer : {A : Type 0} → Result A → Option A
  answer (ok a) = some a
  answer (err e) = none

  abbrev pub listed_cases : (org run_id : Uuid) → Db → List RunCaseItem
  listed_cases org run_id d =
      map (case_item prisma d) (keep (within run_cases org (in_run run_id)) d.run_cases)

  -- What a fetch answers: the run as `getOne` reads it, and its cases in the order of the rows.
  abbrev pub fetched : (org run_id : Uuid) → Db → RunCache floats created prisma ctx
  fetched org run_id d = record {
    run = answer (get_one floats created prisma ctx run_id d).0;
    cases = some (listed_cases org run_id d);
  }

  pub fetched_lem :
      {org : Uuid}
      → organization_of ctx ≡ some org
      → (run_id : Uuid) (d : Db) (r : TestRun) → find (is_run org run_id) d.runs ≡ some r
      → fetched org run_id d ≡ record {
        run = some (to_run_summary floats created prisma ctx d r);
        cases = some (listed_cases org run_id d);
      }
  unfolding get_one
  fetched_lem inside run_id d r found =
      rw (find_unique_lem prisma ctx runs refl inside d) (rw found refl)

  -- Who is shown as the recorder of a case, if the case is shown.
  abbrev pub recorder_of : Uuid → RunCache floats created prisma ctx → Option (Option Recorder)
  recorder_of id cache = elim cache.cases [
    | none ↦ none
    | some items ↦ elim (find (λ (item : RunCaseItem). item.id == id) items) [
      | none ↦ none
      | some item ↦ some item.recorded_by
    ]
  ]
