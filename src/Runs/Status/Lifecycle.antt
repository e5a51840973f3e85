-- ===== src/Runs/Status/Lifecycle.antt =====
-- backend/src/runs/runs.service.ts: what `updateStatus` does to the runs and their time stamps.
use runboard.Prelude.{
  ◌≡◌, ◌≢◌, refl, ap, ◌∙◌, Option, none, some, String, ◌⊎◌, inl, inr, find, change, All, arith,
  Option-cases,
}
use runboard.Prelude.Keys.{Distinct, Pointwise, Pointwise-refl, Pointwise-change, All-change}
use runboard.Schema.{Uuid, Time, Db, RunStatus, TestRun}
use runboard.Exec.{Failure, not_found_error, Result, ok, err}
use runboard.Context.{RequestContext, organization_of}
use runboard.Prisma.{Prisma, settle, settle-ok}
use runboard.Floats.{Floats}
use runboard.Tenant.Tables.{runs}
use runboard.Tenant.Client.{find_unique_lem, update_row_lem}
use runboard.Audit.{record_scoped_lem}
use runboard.Runs.Shift.Effect.{is_run, is_run-id}
use runboard.Runs.Transition.{assert_valid_run_transition, invalid_transition}
use runboard.Runs.Transition.Lifecycle.{
  Step, abort_planned, abort_running, assert_valid_run_transition_iff,
}
use runboard.Runs.Status.{
  Target, start, complete, abort, or_now, status_of, status_data, update_status_tx, update_status,
  announce_status, in_organization, after_update,
}

-- The moment that a stamp holds already, or the present one.
abbrev pub first_stamp : Option Time → Time → Time
first_stamp none now = now
first_stamp (some t) now = t

-- Nothing, or the step of a run's life that was asked for: the status and the stamps change as
-- written here, and nothing else does.
pub data Evolves (target : Target) (now : Time) (r r' : TestRun) : Type 0 where
  stay : r ≡ r' → Evolves target now r r'
  starts :
      target ≡ start
      → r.status ≡ RunStatus.planned
      → r' ≡ record r {
        status = RunStatus.in_progress;
        started_at = some (first_stamp r.started_at now);
        updated_at = now;
      }
      → Evolves target now r r'
  completes :
      target ≡ complete
      → r.status ≡ RunStatus.in_progress
      → r' ≡ record r { status = RunStatus.completed; completed_at = some now; updated_at = now }
      → Evolves target now r r'
  aborts :
      target ≡ abort
      → (r.status ≡ RunStatus.planned) ⊎ (r.status ≡ RunStatus.in_progress)
      → r' ≡ record r { status = RunStatus.aborted; completed_at = some now; updated_at = now }
      → Evolves target now r r'

started_lem :
    (now : Time) (r : TestRun)
    → status_data start now r ≡ record r {
      status = RunStatus.in_progress;
      started_at = some (first_stamp r.started_at now);
      updated_at = now;
    }
started_lem now r = go r.started_at
  where
    go :
        (s : Option Time)
        → record (status_data start now r) { started_at = or_now now s } ≡ record r {
          status = RunStatus.in_progress;
          started_at = some (first_stamp s now);
          updated_at = now;
        }
    go none = refl
    go (some t) = refl

status_data-Evolves :
    (target : Target) (now : Time) (r : TestRun)
    → Step r.status (status_of target)
    → Evolves target now r (status_data target now r)
status_data-Evolves start now r s = starts refl (from s) (started_lem now r)
  where
    from : {a : RunStatus} → Step a RunStatus.in_progress → a ≡ RunStatus.planned
    from Step.start = refl
status_data-Evolves complete now r s = completes refl (from s) refl
  where
    from : {a : RunStatus} → Step a RunStatus.completed → a ≡ RunStatus.in_progress
    from Step.complete = refl
status_data-Evolves abort now r s = aborts refl (from s) refl
  where
    from :
        {a : RunStatus}
        → Step a RunStatus.aborted
        → (a ≡ RunStatus.planned) ⊎ (a ≡ RunStatus.in_progress)
    from abort_planned = inl refl
    from abort_running = inr refl

abbrev Stamps : RunStatus → Option Time → Option Time → Type 0
Stamps RunStatus.planned started completed = completed ≡ none
Stamps RunStatus.in_progress started completed = (started ≢ none) × (completed ≡ none)
Stamps RunStatus.completed started completed = (started ≢ none) × (completed ≢ none)
Stamps RunStatus.aborted started completed = completed ≢ none

-- The start is stamped from IN_PROGRESS on, the end exactly in the two final statuses.
abbrev pub IsStamped : TestRun → Type 0
IsStamped r = Stamps r.status r.started_at r.completed_at

status_data-IsStamped :
    (target : Target) (now : Time) (run : TestRun)
    → assert_valid_run_transition run.status (status_of target) ≡ ok tt
    → IsStamped run
    → IsStamped (status_data target now run)
unfolding assert_valid_run_transition
status_data-IsStamped target now run = go run.status target
  where
    go :
        (before : RunStatus) (t : Target)
        → assert_valid_run_transition before (status_of t) ≡ ok tt
        → Stamps before run.started_at run.completed_at
        → IsStamped (status_data t now run)
    go RunStatus.planned start s k = ground arith
    go RunStatus.in_progress complete s k = ground arith
    go before abort s k = ground arith
    go before t s k = cc

assert_cases :
    (current target : RunStatus)
    → (assert_valid_run_transition current target ≡ ok tt)
      ⊎ (assert_valid_run_transition current target ≡ err invalid_transition)
unfolding assert_valid_run_transition
assert_cases current target = ground arith

status_data-id :
    (target : Target) (now : Time) (run : TestRun) → (status_data target now run).id ≡ run.id
status_data-id start now run = refl
status_data-id complete now run = refl
status_data-id abort now run = refl

module _ (prisma : Prisma) (ctx : Option RequestContext) (run_id : Uuid) (target : Target)
    (now : Time) {org : Uuid} (inside : organization_of ctx ≡ some org) (db : Db) where
  -- The request is refused, or the one run that it names takes the step.
  pub update_status_cases :
      ((e : Failure) × (update_status_tx prisma ctx run_id target now db ≡ (err e, db)))
      ⊎ ((run : TestRun) × (find (is_run org run_id) db.runs ≡ some run)
          × (assert_valid_run_transition run.status (status_of target) ≡ ok tt)
          × ((update_status_tx prisma ctx run_id target now db).0 ≡ ok (status_data target now run))
          × ((update_status_tx prisma ctx run_id target now db).1.runs
              ≡ change (is_run org run_id) (status_data target now) db.runs)
          × ((update_status_tx prisma ctx run_id target now db).1.run_cases ≡ db.run_cases))
  unfolding update_status_tx
  update_status_cases = elim (Option-cases (find (is_run org run_id) db.runs)) [
    | inl missing ↦
        inl (not_found_error, rw (find_unique_lem prisma ctx runs refl inside db) (rw missing))
    | inr (run, found) ↦ elim (assert_cases run.status (status_of target)) [
      | inr refused ↦ inl (
        invalid_transition,
        rw (find_unique_lem prisma ctx runs refl inside db) (rw (found, refused)),
      )
      | inl allowed ↦ inr (
          rw (find_unique_lem prisma ctx runs refl inside db) (
            rw (found, allowed)
              (rw (update_row_lem prisma ctx runs refl inside db) (
                rw found (
                  rw (record_scoped_lem prisma ctx _ _ inside)
                    (run, refl, allowed, refl, refl, refl))))))
    ]
  ]

module _ (floats : Floats) (prisma : Prisma) (ctx : Option RequestContext) (run_id user_id : Uuid)
    (target : Target) (now : Time) where
  announce-db :
      (updated : TestRun) (db : Db) (org : Uuid) (name : Option String)
      → (announce_status floats prisma ctx run_id user_id target now updated db org name).1 ≡ db
  unfolding announce_status
  announce-db updated db org none = refl
  announce-db updated db org (some name) = refl

  in_organization-db :
      (updated : TestRun) (db : Db) (org : Option Uuid)
      → (in_organization floats prisma ctx run_id user_id target now updated db org).1 ≡ db
  unfolding in_organization
  in_organization-db updated db none = refl
  in_organization-db updated db (some org) = announce-db updated db org _

  after_update-db :
      (r : Result TestRun) (db : Db)
      → (after_update floats prisma ctx run_id user_id target now r db).1 ≡ db
  unfolding after_update
  after_update-db (err e) db = refl
  after_update-db (ok updated) db = in_organization-db updated db _

  db-update_status :
      (db : Db)
      → (update_status floats prisma ctx run_id user_id target now db).1
        ≡ (settle db (update_status_tx prisma ctx run_id target now db)).1
  unfolding update_status
  db-update_status db =
      after_update-db _ _
      ∙ ap (λ (s : Result TestRun × Db). s.1)
          (prisma.transaction_lem (update_status_tx prisma ctx run_id target now) db)

  module _ {org : Uuid} (inside : organization_of ctx ≡ some org) (db : Db)
      (distinct : Distinct (λ (r : TestRun). r.id) db.runs) where
    abbrev after : Db
    after = (update_status floats prisma ctx run_id user_id target now db).1

    -- Refused or not, every run stays as it is or takes the step that the target asks for: a planned
    -- run starts, one under way is completed, and either is aborted, with the stamps of that step
    -- and no other change.
    pub update_status-Evolves : Pointwise (Evolves target now) db.runs after.runs
    update_status-Evolves =
        rw (db-update_status db)
          (elim (update_status_cases prisma ctx run_id target now inside db) [
            | inl (e, refused) ↦
                rw refused (Pointwise-refl (Evolves target now) db.runs (λ r. stay refl))
            | inr (run, found, allowed, result, runs', cases') ↦
                rw
                  (
                    settle-ok db (update_status_tx prisma ctx run_id target now db)
                        (status_data target now run) result,
                    runs',
                  )
                  (Pointwise-change (λ r. r.id) (is_run org run_id) run_id (is_run-id org run_id)
                    (Evolves target now) (λ r. stay refl) (status_data target now) db.runs run
                    distinct found
                    (status_data-Evolves target now run
                      ((assert_valid_run_transition_iff _ _).0 allowed)))
          ])

    -- The time stamps of every run keep going with its status.
    pub update_status-IsStamped : All IsStamped db.runs → All IsStamped after.runs
    update_status-IsStamped h =
        rw (db-update_status db)
          (elim (update_status_cases prisma ctx run_id target now inside db) [
            | inl (e, refused) ↦ rw refused h
            | inr (run, found, allowed, result, runs', cases') ↦
                rw
                  (
                    settle-ok db (update_status_tx prisma ctx run_id target now db)
                        (status_data target now run) result,
                    runs',
                  )
                  (All-change (λ r. r.id) (is_run org run_id) run_id (is_run-id org run_id)
                    {P = IsStamped} {Q = IsStamped} (status_data target now) db.runs run distinct
                    found (status_data-IsStamped target now run allowed) (λ r ne k. k) h)
          ])
