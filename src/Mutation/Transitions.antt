-- ===== src/Mutation/Transitions.antt =====
-- The transitions of src/mutation.rs: a step of a record is submitted, completed or failed.
pub mod Refresh
pub mod Succeeds
pub mod Change
pub mod History
pub mod Attempts
pub mod Order
use nowledge.Prelude.{
  ℕ, ◌+◌, ◌-◌, ◌^◌, min, String, str_eq, Bool, true, false, not, Option, none, some, List, [], ◌∷◌,
  ok, err, ◌>>=◌, ◌>>◌, fail_if, ok_or, ltb, if◌then◌else◌,
}
use nowledge.Prelude.Table.{Table, get, write}
use nowledge.Models.Common.{Time}
use nowledge.Models.Operations.{
  OperationStepRole as StepRole, OperationStepStatus as StepStatus, OperationStatus,
  OperationIndexingState as IndexingState, OperationStep, OperationStepProgress as StepProgress,
  OperationProgress, OperationRecord,
}
use nowledge.Mutation.Checks.{
  Checked, invalid_plan, unknown_step, invalid_transition, require_non_empty, validate_task_uids,
  dedup_non_empty,
}
use nowledge.Mutation.Plans.{operation_steps}
use nowledge.Mutation.Records.{
  same_status, same_step_status, has_no_uids, derive_operation_state, validate_operation_record,
}

-- `u32::saturating_add(1)`.
abbrev pub saturating_increment : ℕ → ℕ
saturating_increment n = min (n + 1) (2 ^ 32 - 1)

-- `operation_steps(plan).find(|step| step.id == step_id)`.
unfoldable pub find_step : String → List OperationStep → Option OperationStep
find_step step_id [] = none
find_step step_id (step ∷ rest) =
    if str_eq step.id step_id then some step else find_step step_id rest

unfoldable pub is_accepted : StepStatus → Bool
is_accepted StepStatus.submitted = true
is_accepted StepStatus.completed = true
is_accepted _ = false

-- The guard of `validate_step_sequence` for the role of the step that is found.
unfoldable pub validate_role : OperationRecord → String → StepRole → Checked (Unit {0})
validate_role entry step_id StepRole.primary = ok tt
validate_role entry step_id StepRole.side_effect = do
  primary ←
      ok_or (get entry.plan.primary.id entry.progress.steps) (unknown_step entry.plan.primary.id)
  fail_if (not (is_accepted primary.status))
      (invalid_transition step_id "primary step has not been durably accepted")

unfoldable pub validate_step_sequence : OperationRecord → String → Checked (Unit {0})
validate_step_sequence entry step_id = do
  step ← ok_or (find_step step_id (operation_steps entry.plan)) (unknown_step step_id)
  validate_role entry step_id step.role

-- `progress.steps.values().find(|progress| progress.status == Failed)`.
unfoldable pub first_failed : Table StepProgress → Option StepProgress
first_failed [] = none
first_failed ((k, progress) ∷ rest) =
    if same_step_status progress.status StepStatus.failed then some progress else first_failed rest

unfoldable pub error_category : Option StepProgress → Option String
error_category none = none
error_category (some progress) = progress.last_error_category

unfoldable pub error_fingerprint : Option StepProgress → Option String
error_fingerprint none = none
error_fingerprint (some progress) = progress.last_error_fingerprint

unfoldable pub or_time : Option Time → Time → Option Time
or_time none at = some at
or_time (some t) at = some t

-- The record with the state that `refresh_operation_state` derives for it.
unfoldable pub refreshed :
    OperationRecord → Time → OperationStatus × IndexingState → OperationRecord
unfolding or_time
refreshed entry at derived = record entry {
  status = derived.0;
  indexing_state = derived.1;
  updated_at = at;
  completed_at =
      if same_status derived.0 OperationStatus.completed
      then or_time entry.completed_at at
      else none;
  last_error_category = error_category (first_failed entry.progress.steps);
  last_error_fingerprint = error_fingerprint (first_failed entry.progress.steps);
}

unfoldable pub refresh_operation_state : OperationRecord → Time → Checked OperationRecord
refresh_operation_state entry at = do
  fail_if (ltb at entry.updated_at) (invalid_plan "operation transition timestamp moved backwards")
  derived ← derive_operation_state entry
  validate_operation_record (refreshed entry at derived)
  ok (refreshed entry at derived)

-- `next` with new progress of the step, and one more attempt if the step counts one.
unfoldable pub with_progress : OperationRecord → String → ℕ → StepProgress → OperationRecord
with_progress entry step_id attempt_count progress = record entry {
  progress = record {
    attempt_count = attempt_count;
    steps = write step_id progress entry.progress.steps;
  };
}

unfoldable pub may_submit : String → StepStatus → Checked (Unit {0})
may_submit step_id StepStatus.pending = ok tt
may_submit step_id StepStatus.failed = ok tt
may_submit step_id StepStatus.submitted =
    err (invalid_transition step_id "step is already submitted")
may_submit step_id StepStatus.completed =
    err (invalid_transition step_id "completed steps are immutable")

unfoldable pub submit_progress : StepProgress → List String → Time → StepProgress
submit_progress progress task_uids at = record progress {
  status = StepStatus.submitted;
  attempts = saturating_increment progress.attempts;
  task_uids = dedup_non_empty task_uids;
  last_error_category = none;
  last_error_fingerprint = none;
  updated_at = at;
}

unfoldable pub operation_step_submitted :
    OperationRecord → String → List String → Time → Checked OperationRecord
operation_step_submitted entry step_id task_uids at = do
  validate_operation_record entry
  validate_task_uids step_id task_uids
  fail_if (has_no_uids task_uids)
      (invalid_transition step_id "submission requires at least one task UID")
  validate_step_sequence entry step_id
  progress ← ok_or (get step_id entry.progress.steps) (unknown_step step_id)
  may_submit step_id progress.status
  refresh_operation_state
      (with_progress entry step_id (saturating_increment entry.progress.attempt_count)
        (submit_progress progress task_uids at))
      at

unfoldable pub operation_step_accepted :
    OperationRecord → String → List String → Time → Checked OperationRecord
unfolding operation_step_submitted
operation_step_accepted entry step_id task_uids at =
    operation_step_submitted entry step_id task_uids at

unfoldable pub may_complete : String → StepStatus → Checked (Unit {0})
may_complete step_id StepStatus.completed =
    err (invalid_transition step_id "completed steps are immutable")
may_complete step_id StepStatus.failed =
    err (invalid_transition step_id "failed steps must be retried before completion")
may_complete step_id StepStatus.pending = ok tt
may_complete step_id StepStatus.submitted = ok tt

-- A pending step is attempted now; a submitted one was counted at its submission.
unfoldable pub count_attempt : StepStatus → ℕ → ℕ
count_attempt StepStatus.submitted n = n
count_attempt _ n = saturating_increment n

unfoldable pub complete_progress : StepProgress → Time → StepProgress
unfolding count_attempt
complete_progress progress at = record progress {
  status = StepStatus.completed;
  attempts = count_attempt progress.status progress.attempts;
  last_error_category = none;
  last_error_fingerprint = none;
  updated_at = at;
}

unfoldable pub operation_step_completed : OperationRecord → String → Time → Checked OperationRecord
operation_step_completed entry step_id at = do
  validate_operation_record entry
  validate_step_sequence entry step_id
  progress ← ok_or (get step_id entry.progress.steps) (unknown_step step_id)
  may_complete step_id progress.status
  refresh_operation_state
      (with_progress entry step_id (count_attempt progress.status entry.progress.attempt_count)
        (complete_progress progress at))
      at

unfoldable pub fail_progress : StepProgress → String → String → Time → StepProgress
unfolding count_attempt
fail_progress progress category fingerprint at = record progress {
  status = StepStatus.failed;
  attempts = count_attempt progress.status progress.attempts;
  last_error_category = some category;
  last_error_fingerprint = some fingerprint;
  updated_at = at;
}

unfoldable pub operation_step_failed :
    OperationRecord → String → String → String → Time → Checked OperationRecord
operation_step_failed entry step_id category fingerprint at = do
  validate_operation_record entry
  validate_step_sequence entry step_id
  require_non_empty "error category" category
  require_non_empty "error fingerprint" fingerprint
  progress ← ok_or (get step_id entry.progress.steps) (unknown_step step_id)
  fail_if (same_step_status progress.status StepStatus.completed)
      (invalid_transition step_id "completed steps are immutable")
  refresh_operation_state
      (with_progress entry step_id (count_attempt progress.status entry.progress.attempt_count)
        (fail_progress progress category fingerprint at))
      at
