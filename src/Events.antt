-- ===== src/Events.antt =====
-- The events of backend/src/runs/run-events.service.ts, as values: the rooms that they go to and
-- their payloads. Delivery is socket.io's.
use runboard.Prelude.{String, Option, List, [], ◌∷◌}
use runboard.Schema.{Uuid, Time, RunStatus, RunCaseResult, BugStatus, BugSeverity}
use runboard.Floats.{Floats}
use runboard.Runs.Counters.{RunCounters}

pub data Room : Type 0 where
  run_room org_room : Uuid → Room

-- `{ id, name }`
pub record Actor : Type 0 where
  pub id : Uuid
  pub name : String

pub record CaseRecordedPayload : Type 0 where
  pub run_case_id : Uuid
  pub result : RunCaseResult
  pub previous_result : RunCaseResult
  pub comment : Option String
  pub recorded_by : Actor
  pub recorded_at : Option Time

pub record StatusChangedPayload : Type 0 where
  pub run_id : Uuid
  pub status : RunStatus
  pub changed_by : Actor
  pub at : Time

pub record BugCreatedPayload : Type 0 where
  pub bug_id : Uuid
  pub title : String
  pub severity : BugSeverity
  pub run_id : Option Uuid
  pub reported_by : Actor

pub record BugUpdatedPayload : Type 0 where
  pub bug_id : Uuid
  pub title : String
  pub status : BugStatus
  pub severity : BugSeverity
  pub assignee_id : Option Uuid
  pub updated_by : Actor

module _ (floats : Floats) where
  pub data Message : Type 0 where
    case_recorded : CaseRecordedPayload → Message
    progress_updated : Uuid → RunCounters floats → Message
    status_changed : StatusChangedPayload → Message
    assignees_changed : Uuid → List Actor → Message
    bug_created : BugCreatedPayload → Message
    bug_updated : BugUpdatedPayload → Message

  pub record Event : Type 0 where
    pub room : Room
    pub message : Message

  abbrev pub emit_case_recorded : Uuid → CaseRecordedPayload → List Event
  emit_case_recorded run_id payload =
      record { room = run_room run_id; message = case_recorded payload } ∷ []

  abbrev pub emit_progress_updated : Uuid → RunCounters floats → List Event
  emit_progress_updated run_id counters =
      record { room = run_room run_id; message = progress_updated run_id counters } ∷ []

  -- To the run's room and to the organisation's.
  abbrev pub emit_status_changed : Uuid → StatusChangedPayload → List Event
  emit_status_changed organization_id payload =
      record { room = run_room payload.run_id; message = status_changed payload }
      ∷ record { room = org_room organization_id; message = status_changed payload }
      ∷ []

  abbrev pub emit_assignees_changed : Uuid → List Actor → List Event
  emit_assignees_changed run_id assignees =
      record { room = run_room run_id; message = assignees_changed run_id assignees } ∷ []

  abbrev pub emit_bug_created : Uuid → BugCreatedPayload → List Event
  emit_bug_created organization_id payload =
      record { room = org_room organization_id; message = bug_created payload } ∷ []

  abbrev pub emit_bug_updated : Uuid → BugUpdatedPayload → List Event
  emit_bug_updated organization_id payload =
      record { room = org_room organization_id; message = bug_updated payload } ∷ []
