-- ===== src/Runs/Setup/Creation.antt =====
-- backend/src/runs/runs.service.ts: the counters of the runs under `create`.
use runboard.Prelude.{
  ℕ, ◌≡◌, refl, ◌&&◌, not, Option, some, List, [], ◌∷◌, ◌++◌, map, length, Bool-cases, Option-cases,
  arith, inl, inr,
}
use runboard.Prelude.Keys.{Absent}
use runboard.Schema.{Uuid, Time, Db, TestCase, TestRun, TestRunCase, TestRunAssignee}
use runboard.Exec.{not_found_error, guard}
use runboard.Exec.After.{After, Reaches, bind-After, then-After, guard-Reaches, forget}
use runboard.Context.{RequestContext, organization_of}
use runboard.Prisma.{Prisma, settle-After}
use runboard.Tenant.Tables.{memberships, cases, runs, run_cases, assignees}
use runboard.Tenant.{all_operations, create_all}
use runboard.Tenant.Client.{find_many_lem, count_rows_lem, create_row, create_rows}
use runboard.Tenant.Effects.{create_row-Reaches, create_rows-After}
use runboard.Audit.{record_scoped_lem}
use runboard.Runs.Consistent.{IsConsistent}
use runboard.Runs.Setup.{
  CreateRunDto, no_cases, selected, is_empty, new_run, snapshots, assignment, selected_cases,
  assert_assignees_are_members, unless_empty, create_tx, create,
}
use runboard.Runs.Setup.Snapshot.{copies, new-Tallies, added-IsConsistent}

module _ (prisma : Prisma) (ctx : Option RequestContext) {org : Uuid}
    (inside : organization_of ctx ≡ some org) where
  selected_cases-Reaches :
      (dto : CreateRunDto) (db : Db) → Reaches db (λ _. Unit) (selected_cases prisma ctx dto db)
  selected_cases-Reaches dto db =
      elim (Bool-cases (is_empty dto.suite_ids && is_empty dto.case_ids)) [
        | inl nothing ↦ rw nothing (refl, tt)
        | inr something ↦
            rw something
              (rw (find_many_lem prisma ctx cases refl inside db (selected dto)) (refl, tt))
      ]

  assert-Reaches :
      (ids : List Uuid) (db : Db)
      → Reaches db
          (λ _. Unit)
          (unless_empty prisma ctx ids (assert_assignees_are_members prisma ctx ids) db)
  unfolding assert_assignees_are_members
  assert-Reaches [] db = (refl, tt)
  assert-Reaches (id ∷ ids) db =
      rw (count_rows_lem prisma ctx memberships refl inside db)
        (forget db _ _ (guard-Reaches _ not_found_error db))

  -- The assignments leave the runs and their cases alone.
  assign-After :
      (ids : List Uuid) (rows : List TestRunAssignee) (db : Db)
      → After
          (λ _ d. (d.runs ≡ db.runs) × (d.run_cases ≡ db.run_cases))
          (unless_empty prisma ctx ids (create_rows prisma ctx assignees rows) db)
  unfolding create_rows all_operations
  assign-After [] rows db = (refl, refl)
  assign-After (id ∷ ids) rows db =
      elim (Option-cases
        (create_all prisma assignees (map (assignees.with_org org) rows) db.assignees)) [
          | inl clash ↦ rw inside (rw clash tt)
          | inr (rows', done) ↦ rw inside (rw done (refl, refl))
        ]

  module _ (id : Uuid) (case_ids : ℕ → Uuid) (user_id : Uuid) (now : Time) (dto : CreateRunDto)
      (db : Db) (h : IsConsistent db)
      (absent : Absent (λ (c : TestRunCase). c.test_run_id) id db.run_cases) where
    abbrev row : ℕ → TestRun
    row total = record (new_run id user_id now dto total) { organization_id = org }

    abbrev with_run : ℕ → Db
    with_run total = record db { runs = db.runs ++ row total ∷ [] }

    abbrev with_cases : List TestCase → Db
    with_cases chosen = record (with_run (length chosen)) {
      run_cases = db.run_cases ++ copies org case_ids id 0 chosen;
    }

    create_tx-After :
        After (λ _. IsConsistent) (create_tx prisma ctx id case_ids user_id now dto db)
    unfolding create_tx
    create_tx-After =
        bind-After db (λ _. Unit) _ (selected_cases prisma ctx dto) _ db
          (selected_cases-Reaches dto db)
          λ chosen _.
            bind-After db _ _ (guard (not (is_empty chosen)) no_cases) _ db
              (guard-Reaches _ no_cases db)
              λ _ some_case.
                bind-After db (λ _. Unit) _
                  (unless_empty prisma ctx dto.assignee_ids
                    (assert_assignees_are_members prisma ctx dto.assignee_ids))
                  _ db (assert-Reaches dto.assignee_ids db)
                  λ _ _.
                    bind-After (with_run (length chosen)) _ _
                      (create_row prisma ctx runs (new_run id user_id now dto (length chosen))) _ db
                      (create_row-Reaches prisma ctx runs refl inside db
                        (new_run id user_id now dto (length chosen)))
                      λ _ fresh.
                        bind-After (with_cases chosen) _ _
                          (create_rows prisma ctx run_cases (snapshots case_ids id 0 chosen)) _
                          (with_run (length chosen))
                          (create_rows-After prisma run_cases (λ c. c.id)
                            (λ a b e. ground (arith, e)) refl ctx inside
                            (snapshots case_ids id 0 chosen) (with_run (length chosen)))
                          λ _ distinct.
                            then-After _ _
                              (unless_empty prisma ctx dto.assignee_ids (
                                create_rows prisma ctx assignees
                                  (map (assignment id) dto.assignee_ids)))
                              _ (with_cases chosen)
                              (assign-After dto.assignee_ids (map (assignment id) dto.assignee_ids)
                                (with_cases chosen))
                              λ _ d kept. rw (record_scoped_lem prisma ctx d _ inside) (
                                added-IsConsistent org case_ids (row (length chosen)) chosen
                                  db.run_cases db.runs _ kept.0 kept.1 h.run_ids fresh
                                  (distinct h.case_ids) h.counters
                                  (new-Tallies org case_ids (row (length chosen)) chosen
                                    db.run_cases absent refl refl refl refl refl))

    -- Whatever cases and people are asked for, and whether the run is created or refused, the
    -- counters of every run are the results of its cases afterwards if they were before, where no
    -- case refers to the id that is drawn for the new run.
    pub create-IsConsistent : IsConsistent (create prisma ctx id case_ids user_id now dto db).1
    unfolding create
    create-IsConsistent =
        rw (prisma.transaction_lem (create_tx prisma ctx id case_ids user_id now dto) db) (
          settle-After IsConsistent db (create_tx prisma ctx id case_ids user_id now dto db) h
            create_tx-After)
