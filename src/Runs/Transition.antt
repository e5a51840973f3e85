-- ===== src/Runs/Transition.antt =====
-- backend/src/runs/lib/run-status-transition.ts: which statuses of a run may follow each other.
pub mod Lifecycle
use runboard.Prelude.{Bool, ◌&&◌, ◌||◌, any, List, [], ◌∷◌, if◌then◌else◌}
use runboard.Schema.{RunStatus, status_eq}
use runboard.Exec.{Failure, Result, ok, err, run_invalid_transition}

abbrev pub terminal_statuses : List RunStatus
terminal_statuses = RunStatus.completed ∷ RunStatus.aborted ∷ []

abbrev pub invalid_transition : Failure
invalid_transition = record { status = 409; code = run_invalid_transition }

abbrev pub allowed : RunStatus → RunStatus → Bool
allowed current target =
    status_eq target RunStatus.aborted
    || (status_eq current RunStatus.planned && status_eq target RunStatus.in_progress)
    || (status_eq current RunStatus.in_progress && status_eq target RunStatus.completed)

unfoldable pub assert_valid_run_transition : RunStatus → RunStatus → Result (Unit {0})
assert_valid_run_transition current target =
    if any (λ s. status_eq s current) terminal_statuses
    then err invalid_transition
    else if allowed current target
    then ok tt
    else err invalid_transition
