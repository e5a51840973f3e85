-- ===== src/Runs/Transition/Lifecycle.antt =====
-- The life of a run as a step relation, and what `assertValidRunTransition` has to do with it.
use runboard.Prelude.{◌≡◌, ◌↔◌, refl, ◌⊎◌}
use runboard.Schema.{RunStatus}
use runboard.Exec.{ok}
use runboard.Runs.Transition.{assert_valid_run_transition}

-- PLANNED → IN_PROGRESS → COMPLETED, and ABORTED from the first two.
pub data Step : RunStatus → RunStatus → Type 0 where
  start : Step RunStatus.planned RunStatus.in_progress
  complete : Step RunStatus.in_progress RunStatus.completed
  abort_planned : Step RunStatus.planned RunStatus.aborted
  abort_running : Step RunStatus.in_progress RunStatus.aborted

pub data Reach (s : RunStatus) : RunStatus → Type 0 where
  here : Reach s s
  next : {t u : RunStatus} → Reach s t → Step t u → Reach s u

assert_valid_sound :
    (current target : RunStatus)
    → assert_valid_run_transition current target ≡ ok tt
    → Step current target
unfolding assert_valid_run_transition
assert_valid_sound RunStatus.planned RunStatus.in_progress h = start
assert_valid_sound RunStatus.planned RunStatus.aborted h = abort_planned
assert_valid_sound RunStatus.in_progress RunStatus.completed h = complete
assert_valid_sound RunStatus.in_progress RunStatus.aborted h = abort_running
assert_valid_sound _ _ h = cc

assert_valid_complete :
    {current target : RunStatus}
    → Step current target
    → assert_valid_run_transition current target ≡ ok tt
unfolding assert_valid_run_transition
assert_valid_complete start = refl
assert_valid_complete complete = refl
assert_valid_complete abort_planned = refl
assert_valid_complete abort_running = refl

-- The check passes exactly for the steps of a run's life.
pub assert_valid_run_transition_iff :
    (current target : RunStatus)
    → (assert_valid_run_transition current target ≡ ok tt) ↔ Step current target
assert_valid_run_transition_iff current target =
    (assert_valid_sound current target, assert_valid_complete)

abbrev IsTerminal : RunStatus → Type 0
IsTerminal s = (s ≡ RunStatus.completed) ⊎ (s ≡ RunStatus.aborted)
