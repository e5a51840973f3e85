-- ===== src/Client/Cache.antt =====
-- frontend/src/features/runs/cache.ts and use-run-socket.ts: what the page of a run holds of the
-- server's answers, and how the events of its room change it.
pub mod Follows
pub mod Rows
pub mod Fetch
use runboard.Prelude.{ℕ, ◌==◌, Bool, String, Option, none, some, List, [], ◌∷◌, map, if◌then◌else◌}
use runboard.Schema.{Uuid, Time, Db, Step, CasePriority, RunCaseResult, TestRun, TestRunCase}
use runboard.Context.{RequestContext}
use runboard.Prisma.{Prisma}
use runboard.Floats.{Floats}
use runboard.Events.{
  Actor, CaseRecordedPayload, Event, Message, case_recorded, progress_updated, status_changed,
  assignees_changed, bug_created, bug_updated,
}
use runboard.Runs.Counters.{RunCounters}
use runboard.Runs.Record.{name_of}
use runboard.Runs.Listing.{RunSummary}

-- `{ id, name? }`
pub record Recorder : Type 0 where
  pub id : Uuid
  pub name : Option String

pub record RunCaseItem : Type 0 where
  pub id : Uuid
  pub position : ℕ
  pub title : String
  pub steps : List Step
  pub expected_result : String
  pub priority : CasePriority
  pub result : RunCaseResult
  pub comment : Option String
  pub recorded_by : Option Recorder
  pub recorded_at : Option Time

-- What `listCases` of runs.service.ts makes of a row.
abbrev pub recorder : Prisma → Db → Option Uuid → Option Recorder
recorder prisma db none = none
recorder prisma db (some id) = some (record { id = id; name = name_of prisma id db })

abbrev pub case_item : Prisma → Db → TestRunCase → RunCaseItem
case_item prisma db c = record {
  id = c.id;
  position = c.position;
  title = c.title;
  steps = c.steps;
  expected_result = c.expected_result;
  priority = c.priority;
  result = c.result;
  comment = c.comment;
  recorded_by = recorder prisma db c.recorded_by_id;
  recorded_at = c.recorded_at;
}

-- The second argument of `patchRunCaseResult`, with the fields that it picks.
pub record CasePatch : Type 0 where
  pub id : Uuid
  pub result : RunCaseResult
  pub comment : Option String
  pub recorded_by : Option Recorder
  pub recorded_at : Option Time

abbrev pub patch_item : CasePatch → RunCaseItem → RunCaseItem
patch_item patch item =
    if item.id == patch.id
    then record item {
      result = patch.result;
      comment = patch.comment;
      recorded_by = patch.recorded_by;
      recorded_at = patch.recorded_at;
    }
    else item

-- A query that has not been fetched has no data to patch.
abbrev pub set_query_data : {A : Type 0} → (A → A) → Option A → Option A
set_query_data f none = none
set_query_data f (some a) = some (f a)

module _ (floats : Floats) (created : TestRun → Time) (prisma : Prisma)
    (ctx : Option RequestContext) where
  abbrev pub Summary : Type 0
  Summary = RunSummary floats

  -- The data under `runDetailKey` and `runCasesKey` of the run that is shown.
  pub record RunCache : Type 0 where
    pub run : Option Summary
    pub cases : Option (List RunCaseItem)

  abbrev pub patch_run_case_result : CasePatch → RunCache → RunCache
  patch_run_case_result patch cache = record cache {
    cases = set_query_data (map (patch_item patch)) cache.cases;
  }

  abbrev pub patch_run_counters : RunCounters floats → RunCache → RunCache
  patch_run_counters counters cache = record cache {
    run = set_query_data (λ run. record run { counters = counters }) cache.run;
  }

  abbrev pub patch_run_assignees : List Actor → RunCache → RunCache
  patch_run_assignees assignees cache = record cache {
    run = set_query_data (λ run. record run { assignees = assignees }) cache.run;
  }

  abbrev pub patch_of : CaseRecordedPayload → CasePatch
  patch_of payload = record {
    id = payload.run_case_id;
    result = payload.result;
    comment = payload.comment;
    recorded_by =
        some (record { id = payload.recorded_by.id; name = some payload.recorded_by.name });
    recorded_at = payload.recorded_at;
  }

  -- The handlers of `useRunSocket`; it does not listen to the other events.
  abbrev pub on_message : Message floats → RunCache → RunCache
  on_message (case_recorded payload) cache = patch_run_case_result (patch_of payload) cache
  on_message (progress_updated run_id counters) cache = patch_run_counters counters cache
  on_message (assignees_changed run_id assignees) cache = patch_run_assignees assignees cache
  on_message (status_changed payload) cache = cache
  on_message (bug_created payload) cache = cache
  on_message (bug_updated payload) cache = cache

  unfoldable pub on_events : List (Event floats) → RunCache → RunCache
  on_events [] cache = cache
  on_events (e ∷ events) cache = on_events events (on_message e.message cache)
