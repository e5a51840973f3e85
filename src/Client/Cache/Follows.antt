-- ===== src/Client/Cache/Follows.antt =====
-- The cache after the events of `recordResult`, against what a fetch would answer.
use runboard.Prelude.{
  ◌==◌, ◌≡◌, refl, sym, ap, ◌∙◌, Bool, true, false, ◌&&◌, Option, none, some, List, [], ◌∷◌, ◌++◌,
  map, find, keep, change, All, String, Bool-cases, inl, inr, arith,
}
use runboard.Prelude.Keys.{Distinct, find_passes}
use runboard.Schema.{
  Uuid, Time, Db, RunStatus, status_eq, RunCaseResult, result_eq, TestRun, TestRunCase,
  TestRunAssignee, User,
}
use runboard.Context.{RequestContext, organization_of}
use runboard.Prelude.Updates.{find-changed}
use runboard.Prisma.{Prisma}
use runboard.Floats.{Floats}
use runboard.Events.{CaseRecordedPayload}
use runboard.Tenant.{within}
use runboard.Tenant.Tables.{run_cases}
use runboard.Runs.Consistent.{in_run}
use runboard.Runs.Counters.{compute_counters, counter_fields}
use runboard.Runs.Shift.Effect.{moved, is_run, moved-is_run}
use runboard.Runs.Setup.{with_names, actor_of}
use runboard.Runs.Listing.{to_run_summary}
use runboard.Runs.Record.{RecordResultDto, record_case, record_result, record_result_tx, name_of}
use runboard.Runs.Record.Commit.{committed, from_case, db-record_result}
use runboard.Client.Cache.{
  RunCaseItem, RunCache, case_item, patch_item, patch_of, on_events, patch_run_counters,
  patch_run_case_result, recorder, Summary, Recorder,
}
use runboard.Client.Cache.Rows.{find_shown, cons_eq, agree, moved-fields}
use runboard.Client.Cache.Fetch.{fetched, fetched_lem, recorder_of}

module _ (floats : Floats) (created : TestRun → Time) (prisma : Prisma)
    (ctx : Option RequestContext) {org : Uuid} (inside : organization_of ctx ≡ some org)
    (run_id run_case_id user_id : Uuid) (dto : RecordResultDto) (now : Time) (db : Db)
    (run : TestRun) (run_case : TestRunCase) (name : String)
    (found : find (is_run org run_id) db.runs ≡ some run)
    (running : run.status ≡ RunStatus.in_progress)
    (found_case : find (λ c. c.id == run_case_id && c.organization_id == org) db.run_cases
      ≡ some run_case)
    (of_run : run_case.test_run_id ≡ run_id) (named : name_of prisma user_id db ≡ some name) where
  abbrev after : Db
  after = committed prisma ctx run_id run_case_id user_id dto now inside db run_case

  abbrev page : Db → RunCache floats created prisma ctx
  page = fetched floats created prisma ctx org run_id

  abbrev payload : CaseRecordedPayload
  payload = record {
    run_case_id = run_case_id;
    result = dto.result;
    previous_result = run_case.result;
    comment = (record_case dto user_id now run_case).comment;
    recorded_by = record { id = user_id; name = name };
    recorded_at = (record_case dto user_id now run_case).recorded_at;
  }

  abbrev run_after : TestRun
  run_after = moved now run_case.result dto.result run

  named_after : name_of prisma user_id after ≡ some name
  unfolding name_of
  named_after = named

  found_after : find (is_run org run_id) after.runs ≡ some run_after
  found_after =
      find-changed (is_run org run_id) (moved now run_case.result dto.result) db.runs run
        (moved-is_run org run_id now run_case.result dto.result) found

  committed_lem : (record_result floats prisma ctx run_id run_case_id user_id dto now db).1 ≡ after
  committed_lem =
      let running_eq : status_eq run.status RunStatus.in_progress ≡ true = rw running refl in
      let same : (run_case.test_run_id == run_id) ≡ true = ground (arith, of_run) in
      let c =
        from_case prisma ctx run_id run_case_id user_id dto now inside db run found running_eq
          run_case found_case same in
      db-record_result floats prisma ctx run_id run_case_id user_id dto now db ∙ rw c.result refl

  cache_eq :
      {r r' : Option (Summary floats created prisma ctx)} {cs cs' : Option (List RunCaseItem)}
      → r ≡ r'
      → cs ≡ cs'
      → ◌≡◌ {A = RunCache floats created prisma ctx}
          (record { run = r; cases = cs })
          (record { run = r'; cases = cs' })
  cache_eq e k = cc

  -- What the events of the recording do to a cache.
  events_lem :
      (cache : RunCache floats created prisma ctx)
      → on_events floats created prisma ctx
          (record_result floats prisma ctx run_id run_case_id user_id dto now db).2
          cache
        ≡ patch_run_counters floats created prisma ctx
            (compute_counters floats (counter_fields run_after))
            (patch_run_case_result floats created prisma ctx
              (patch_of floats created prisma ctx payload)
              cache)
  unfolding record_result on_events
  events_lem cache =
      let running_eq : status_eq run.status RunStatus.in_progress ≡ true = rw running refl in
      let same : (run_case.test_run_id == run_id) ≡ true = ground (arith, of_run) in
      let c =
        from_case prisma ctx run_id run_case_id user_id dto now inside db run found running_eq
          run_case found_case same in
      rw
        (prisma.transaction_lem (record_result_tx prisma ctx run_id run_case_id user_id dto now) db)
        (rw c.result (rw named_after refl))

  -- The other rows of users are those that they were.
  name_same : (id : Uuid) → name_of prisma id after ≡ name_of prisma id db
  unfolding name_of
  name_same id = refl

  abbrev patch : RunCaseItem → RunCaseItem
  patch = patch_item (patch_of floats created prisma ctx payload)

  abbrev is_it : TestRunCase → Bool
  is_it c = c.id == run_case_id && c.organization_id == org

  abbrev listed : TestRunCase → Bool
  listed = within run_cases org (in_run run_id)

  same_recorder : (id : Option Uuid) → recorder prisma after id ≡ recorder prisma db id
  same_recorder none = refl
  same_recorder (some id) = ap (λ n. some (record { id = id; name = n })) (name_same id)

  same_item : (c : TestRunCase) → case_item prisma after c ≡ case_item prisma db c
  same_item c =
      ap (λ r. record (case_item prisma db c) { recorded_by = r }) (same_recorder c.recorded_by_id)

  -- The item of the case, patched.
  patched_item :
      result_eq dto.result RunCaseResult.pending ≡ false
      → patch (case_item prisma db run_case)
        ≡ case_item prisma after (record_case dto user_id now run_case)
  patched_item recorded =
      let e : (run_case.id == run_case_id) ≡ true =
        ground (arith, find_passes _ db.run_cases run_case found_case) in
      rw e (rw recorded (rw named_after refl))

  patched_cases :
      (rows : List TestRunCase)
      → result_eq dto.result RunCaseResult.pending ≡ false
      → All (λ c. is_it c ≡ true → c ≡ run_case) rows
      → map patch (map (case_item prisma db) (keep listed rows))
        ≡ map
            (case_item prisma after)
            (keep listed (change is_it (record_case dto user_id now) rows))
  patched_cases [] recorded _ = refl
  patched_cases (c ∷ rows) recorded (agrees, rest) =
      let ih = patched_cases rows recorded rest in
      elim (Bool-cases (is_it c)) [
        | inl hit ↦
            let e = agrees hit in
            elim (Bool-cases (listed c)) [
              | inl shown ↦
                  rw (hit, shown)
                    (cons_eq
                      (ap (λ x. patch (case_item prisma db x)) e
                        ∙ patched_item recorded
                        ∙ ap (λ x. case_item prisma after (record_case dto user_id now x)) (sym e))
                      ih)
              | inr hidden ↦ rw (hit, hidden) ih
            ]
        | inr miss ↦ elim (Bool-cases (listed c)) [
          | inl shown ↦
              let other : (c.id == run_case_id) ≡ false = ground (arith, miss, shown) in
              rw (miss, shown) (cons_eq (rw other (sym (same_item c))) ih)
          | inr hidden ↦ rw (miss, hidden) ih
        ]
      ]

  abbrev summary : Db → TestRun → Summary floats created prisma ctx
  summary = to_run_summary floats created prisma ctx

  same_names :
      (rows : List TestRunAssignee)
      → with_names prisma ctx rows after ≡ with_names prisma ctx rows db
  same_names [] = refl
  same_names (a ∷ rows) =
      ap (λ names. actor_of a (prisma.find_one (λ (u : User). u.id == a.user_id) db.users) ++ names)
        (same_names rows)

  module _ (stable : created run_after ≡ created run) where
    patched_run :
        summary after run_after
        ≡ record (summary db run) { counters = compute_counters floats (counter_fields run_after) }
    patched_run =
        let fields = moved-fields now run_case.result dto.result run in
        rw
          (
            stable,
            fields.0,
            fields.1,
            fields.2,
            fields.3,
            fields.4,
            fields.5,
            same_names
                (prisma.find_many (λ (a : TestRunAssignee). a.test_run_id == run.id) db.assignees),
          )
          refl

    -- Two clients look at a run, and a result other than PENDING is recorded. The cache of each is
    -- what a fetch of the run and its cases answered before; after the events of the recording it
    -- is what a fetch answers then: no reload is needed, if the ids of cases are distinct and an
    -- update keeps the creation time.
    pub record_result-Follows :
        Distinct (λ (c : TestRunCase). c.id) db.run_cases
        → result_eq dto.result RunCaseResult.pending ≡ false
        → on_events floats created prisma ctx
            (record_result floats prisma ctx run_id run_case_id user_id dto now db).2
            (page db)
          ≡ page (record_result floats prisma ctx run_id run_case_id user_id dto now db).1
    record_result-Follows distinct recorded =
        let run_eq = ap (λ r. some r) (sym patched_run) in
        let cases_eq =
          ap (λ cs. some cs)
            (patched_cases db.run_cases recorded
              (agree run_case_id org run_case db.run_cases distinct found_case)) in
        events_lem (page db)
        ∙ ap
            (λ cache.
              patch_run_counters floats created prisma ctx
                (compute_counters floats (counter_fields run_after))
                (patch_run_case_result floats created prisma ctx
                  (patch_of floats created prisma ctx payload) cache))
            (fetched_lem floats created prisma ctx inside run_id db run found)
        ∙ cache_eq run_eq cases_eq
        ∙ sym (fetched_lem floats created prisma ctx inside run_id after run_after found_after)
        ∙ ap (λ d. page d) (sym committed_lem)

  patch-id : (item : RunCaseItem) → (patch item).id ≡ item.id
  patch-id item = elim (Bool-cases (item.id == run_case_id)) [
    | inl hit ↦ rw hit refl
    | inr miss ↦ rw miss refl
  ]

  map-map :
      (rows : List TestRunCase)
      → map patch (map (case_item prisma db) rows) ≡ map (λ c. patch (case_item prisma db c)) rows
  map-map [] = refl
  map-map (c ∷ rows) = ap (λ l. patch (case_item prisma db c) ∷ l) (map-map rows)

  case_listed : listed run_case ≡ true
  case_listed = ground (arith, find_passes _ db.run_cases run_case found_case, of_run)

  -- The page of a run is fetched, and a case of the run that is there is set back to PENDING. After
  -- the events of the recording the page shows whoever did it as the recorder of the case; a fetch
  -- then answers the case without a recorder.
  pub pending-Diverges :
      result_eq dto.result RunCaseResult.pending ≡ true
      → (recorder_of floats created prisma ctx run_case_id (
            on_events floats created prisma ctx
              (record_result floats prisma ctx run_id run_case_id user_id dto now db).2
              (page db))
          ≡ some (some (record { id = user_id; name = some name })))
        × (recorder_of floats created prisma ctx run_case_id
              (page (record_result floats prisma ctx run_id run_case_id user_id dto now db).1)
            ≡ some none)
  pending-Diverges pending = (
    ap (recorder_of floats created prisma ctx run_case_id) (events_lem (page db))
        ∙ ap recorder_in (
            ap (find (λ (item : RunCaseItem). item.id == run_case_id))
              (map-map (keep listed db.run_cases))
            ∙ find_shown run_case_id org run_id (λ c. patch (case_item prisma db c)) run_case
                db.run_cases (λ c. patch-id (case_item prisma db c)) found_case case_listed)
        ∙ rw here refl,
    ap (λ d. recorder_of floats created prisma ctx run_case_id (page d)) committed_lem
        ∙ ap recorder_in (
            find_shown run_case_id org run_id (case_item prisma after)
              (record_case dto user_id now run_case) after.run_cases (λ c. refl)
              (find-changed is_it (record_case dto user_id now) db.run_cases run_case (λ c. refl)
                found_case)
              case_listed)
        ∙ rw pending refl,
  )
    where
      here : (run_case.id == run_case_id) ≡ true
      here = ground (arith, find_passes _ db.run_cases run_case found_case)

      recorder_in : Option RunCaseItem → Option (Option Recorder)
      recorder_in none = none
      recorder_in (some item) = some item.recorded_by
