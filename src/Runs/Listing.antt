-- ===== src/Runs/Listing.antt =====
-- `list`, `getOne` and `toRunSummary` of backend/src/runs/runs.service.ts.
use mathlib.Core.Path.{fun_ext}
use runboard.Prelude.{
  [], ◌∷◌, ap, ◌∙◌, sym, keep, ℕ, ◌+◌, ◌==◌, ◌≡◌, ◌≤◌, refl, Bool, true, false, ◌&&◌, String,
  Option, none, some, List, any, map, length, suc, if◌then◌else◌,
}
use runboard.Prelude.Keys.{Distinct}
use runboard.Schema.{Uuid, Time, Db, RunStatus, status_eq, TestRun, TestRunAssignee}
use runboard.Exec.{Tx, ok, ◌>>=◌, gets, pure, require, not_found_error}
use runboard.Context.{RequestContext, organization_of}
use runboard.Prisma.{Prisma}
use runboard.Prisma.Distinct.{Lists, find_ordered-Lists, find_ordered-Distinct}
use runboard.Prisma.Order.{find_ordered_unique}
use runboard.Floats.{Floats}
use runboard.Events.{Actor}
use runboard.Tenant.{within}
use runboard.Tenant.Tables.{runs}
use runboard.Tenant.Client.{find_unique}
use runboard.Tenant.Listings.{asked, take, after_cursor, Page, page_of, find_page, find_ordered_lem}
use runboard.Tenant.Pages.{map_page, collect, collect_all}
use runboard.Runs.Counters.{RunCounters, compute_counters, counter_fields}
use runboard.Runs.Setup.{with_names}

pub record ListRunsQueryDto : Type 0 where
  pub status : Option RunStatus
  pub assigned_to_me : Option Bool
  pub take : ℕ

-- `assignees: { some: { userId } }`
abbrev pub is_assigned : Uuid → List TestRunAssignee → TestRun → Bool
is_assigned user_id rows run = any (λ a. a.test_run_id == run.id && a.user_id == user_id) rows

-- `query.assignedToMe ? … : undefined`
abbrev pub asks_mine : Option Bool → Bool
asks_mine none = false
asks_mine (some b) = b

abbrev pub listed : ListRunsQueryDto → Uuid → List TestRunAssignee → TestRun → Bool
listed query user_id rows run =
    asked query.status (λ status. status_eq run.status status)
    && (if asks_mine query.assigned_to_me then is_assigned user_id rows run else true)

module _ (floats : Floats) where
  pub record RunSummary : Type 0 where
    pub id : Uuid
    pub name : String
    pub description : Option String
    pub status : RunStatus
    pub counters : RunCounters floats
    pub assignees : List Actor
    pub created_at : Time
    pub started_at : Option Time
    pub completed_at : Option Time

module _ (floats : Floats) (created : TestRun → Time) (prisma : Prisma)
    (ctx : Option RequestContext) where
  -- The run with its included relations, which are read without the tenant scope.
  abbrev pub to_run_summary : Db → TestRun → RunSummary floats
  to_run_summary db run = record {
    id = run.id;
    name = run.name;
    description = run.description;
    status = run.status;
    counters = compute_counters floats (counter_fields run);
    assignees =
        with_names prisma ctx
          (prisma.find_many (λ (a : TestRunAssignee). a.test_run_id == run.id) db.assignees) db;
    created_at = created run;
    started_at = run.started_at;
    completed_at = run.completed_at;
  }

  unfoldable pub list :
      ListRunsQueryDto → Uuid → (cursor : Option Uuid) → Tx (Page (RunSummary floats))
  list query user_id cursor = do
    db ← gets (λ db. db)
    rows ←
        find_page prisma ctx runs created (listed query user_id db.assignees) (λ run. run.id)
          (query.take + 1) cursor
    pure (map_page (to_run_summary db) (page_of (λ run. run.id) query.take rows))

  unfoldable pub get_one : Uuid → Tx (RunSummary floats)
  get_one run_id = do
    found ← find_unique prisma ctx runs (λ run. run.id == run_id)
    run ← require not_found_error found
    gets (λ db. to_run_summary db run)

  module _ {org : Uuid} (inside : organization_of ctx ≡ some org) (query : ListRunsQueryDto)
      (user_id : Uuid) (db : Db) where
    abbrev pub wanted : TestRun → Bool
    wanted = within runs org (listed query user_id db.assignees)

    abbrev pub rows : List TestRun
    rows = prisma.find_ordered created wanted db.runs

    pub list_lem :
        (cursor : Option Uuid)
        → list query user_id cursor db ≡ (
          ok (
              map_page (to_run_summary db) (
                page_of
                  (λ run. run.id)
                  query.take
                  (take (query.take + 1) (after_cursor (λ run. run.id) cursor rows)))),
          db,
        )
    unfolding list
    list_lem cursor =
        rw
          (find_ordered_lem prisma ctx runs refl inside db created
            (listed query user_id db.assignees))
          refl

with_names_lem :
    (prisma prisma' : Prisma) (ctx : Option RequestContext) (rows : List TestRunAssignee) (db : Db)
    → with_names prisma ctx rows db ≡ with_names prisma' ctx rows db
with_names_lem prisma prisma' ctx [] db = refl
with_names_lem prisma prisma' ctx (a ∷ rows) db =
    rw (prisma.find_one_lem, prisma'.find_one_lem, with_names_lem prisma prisma' ctx rows db) refl

module _ (floats : Floats) (created : TestRun → Time) (ctx : Option RequestContext) (db : Db) where
  summary_lem :
      (prisma prisma' : Prisma) (run : TestRun)
      → to_run_summary floats created prisma ctx db run
        ≡ to_run_summary floats created prisma' ctx db run
  summary_lem prisma prisma' run =
      ap (λ names. record (to_run_summary floats created prisma' ctx db run) { assignees = names })
        (with_names_lem prisma prisma' ctx _ db
          ∙ ap (λ rows. with_names prisma' ctx rows db)
              (prisma.find_many_lem _ _ ∙ sym (prisma'.find_many_lem _ _)))

  module _ (requests : ℕ → Prisma) {org : Uuid} (inside : organization_of ctx ≡ some org)
      (query : ListRunsQueryDto) (user_id : Uuid) where
    abbrev asked_for : TestRun → Bool
    asked_for = wanted floats created (requests 0) ctx inside query user_id db

    abbrev shown : TestRun → RunSummary floats
    shown = to_run_summary floats created (requests 0) ctx db

    -- Each request of a client may find runs of one time in another order: the requests have each a
    -- database interface of its own. With pages of one row or more, following `nextCursor` from the
    -- first page ends after at most one page for each row and one more, and collects the
    -- organisation's runs that the query asks for, the latest first, each of them once, if the ids
    -- of the runs are distinct, and the times of the runs that are asked for; nothing is changed.
    pub collect-list :
        1 ≤ query.take
        → Distinct (λ (run : TestRun). run.id) db.runs
        → Distinct created (keep asked_for db.runs)
        → (items : List TestRun) × Lists created asked_for db.runs items
          × (collect
                (λ request. list floats created (requests request) ctx query user_id)
                (suc (length items))
                none
                db
              ≡ (ok (map shown items), db))
    collect-list positive distinct times =
        let rows = (requests 0).find_ordered created asked_for db.runs in
        (
          rows,
          find_ordered-Lists (requests 0) created asked_for db.runs,
          collect_all (λ run. run.id) shown query.take db rows
              (λ request. list floats created (requests request) ctx query user_id) positive
              (find_ordered-Distinct (λ run. run.id) (requests 0) created asked_for db.runs
                distinct)
              λ request cursor.
                list_lem floats created (requests request) ctx inside query user_id db cursor
                ∙ ap
                    (λ (f : TestRun → RunSummary floats). (
                      ok (
                          map_page f (
                            page_of (λ run. run.id) query.take
                              (take (query.take + 1) (
                                after_cursor (λ run. run.id) cursor
                                  ((requests request).find_ordered created asked_for db.runs))))),
                      db,
                    ))
                    (fun_ext (summary_lem (requests request) (requests 0)))
                ∙ ap
                    (λ rows. (
                      ok (
                          map_page shown (
                            page_of (λ run. run.id) query.take
                              (take (query.take + 1) (after_cursor (λ run. run.id) cursor rows)))),
                      db,
                    ))
                    (find_ordered_unique created (requests request) (requests 0) asked_for db.runs
                      times),
        )
