-- ===== src/Mutation/Transitions/Succeeds.antt =====
-- The transitions of src/mutation.rs on a valid record whose guards pass.
use nowledge.Prelude.{
  ℕ, ◌≤◌, String, eq_refl, ◌≡◌, ◌≢◌, refl, sym, ap, ◌∙◌, ◌⊎◌, inl, inr, false, some, List, [], ◌∷◌,
  arith, ok, >>=-eq-ok, ok_or, ok_or-eq-ok, is_blank,
}
use nowledge.Prelude.Table.{get, get-write}
use nowledge.Prelude.Entries.{All-get}
use nowledge.Models.Common.{Time}
use nowledge.Models.Operations.{
  OperationStepStatus as StepStatus, OperationStatus, OperationIndexingState as IndexingState,
  OperationStep, OperationStepProgress as StepProgress, OperationRecord,
}
use nowledge.Mutation.Checks.{validate_task_uids}
use nowledge.Mutation.Checks.Unique.{
  validate_task_uids_iff, dedup_non_empty_of_IsUidList, require_non_empty_iff,
}
use nowledge.Mutation.Plans.{operation_steps}
use nowledge.Mutation.Records.{
  same_step_status, has_no_uids, validate_progress, validate_operation_record,
}
use nowledge.Mutation.Records.Valid.{IsValidRecord, validate_operation_record_iff}
use nowledge.Mutation.Records.Derive.{status_of}
use nowledge.Mutation.Transitions.{
  saturating_increment, find_step, validate_step_sequence, refreshed, refresh_operation_state,
  with_progress, may_submit, submit_progress, operation_step_submitted, may_complete, count_attempt,
  complete_progress, operation_step_completed, fail_progress, operation_step_failed,
}
use nowledge.Mutation.Transitions.Refresh.{refresh_succeeds}

-- The planned step that the sequence check has found.
pub sequence_step :
    (r : OperationRecord) (id : String)
    → validate_step_sequence r id ≡ ok tt
    → (step : OperationStep) × (find_step id (operation_steps r.plan) ≡ some step)
unfolding validate_step_sequence
sequence_step r id h =
    let step = >>=-eq-ok (ok_or (find_step id (operation_steps r.plan)) _) _ h in
    (step.0, ok_or-eq-ok _ _ step.1)

entry_of :
    (r : OperationRecord) (id : String) (p : StepProgress)
    → IsValidRecord r
    → get id r.progress.steps ≡ some p
    → validate_progress r.created_at r.updated_at (id, p) ≡ ok tt
entry_of r id p v g =
    All-get (λ e. validate_progress r.created_at r.updated_at e ≡ ok tt) id p r.progress.steps g
      v.entries

status_of-refreshed :
    (r : OperationRecord) (id : String) (count : ℕ) (old new : StepProgress) (at : Time)
    (derived : OperationStatus × IndexingState)
    → get id r.progress.steps ≡ some old
    → status_of (refreshed (with_progress r id count new) at derived).progress.steps id
      ≡ some new.status
unfolding refreshed with_progress
status_of-refreshed r id count old new at derived g =
    ground (arith, get-write id id new r.progress.steps old g, eq_refl id)

submit_fits :
    (r : OperationRecord) (id : String) (p : StepProgress) (uids : List String) (at : Time)
    → IsValidRecord r
    → get id r.progress.steps ≡ some p
    → validate_task_uids id uids ≡ ok tt
    → has_no_uids uids ≡ false
    → r.updated_at ≤ at
    → validate_progress r.created_at at (id, submit_progress p uids at) ≡ ok tt
unfolding validate_progress submit_progress
submit_fits r id p uids at v g u some_uid later =
    rw (dedup_non_empty_of_IsUidList uids ((validate_task_uids_iff id uids).0 u))
      (ground (arith, entry_of r id p v g, v.times))

complete_fits :
    (r : OperationRecord) (id : String) (p : StepProgress) (at : Time)
    → IsValidRecord r
    → get id r.progress.steps ≡ some p
    → r.updated_at ≤ at
    → validate_progress r.created_at at (id, complete_progress p at) ≡ ok tt
unfolding validate_progress complete_progress same_step_status
complete_fits r id p at v g later = ground (arith, entry_of r id p v g, v.times)

fail_fits :
    (r : OperationRecord) (id : String) (p : StepProgress) (category fingerprint : String)
    (at : Time)
    → IsValidRecord r
    → get id r.progress.steps ≡ some p
    → r.updated_at ≤ at
    → validate_progress r.created_at at (id, fail_progress p category fingerprint at) ≡ ok tt
unfolding validate_progress fail_progress same_step_status
fail_fits r id p category fingerprint at v g later = ground (arith, entry_of r id p v g, v.times)

some_uids : (uids : List String) → uids ≢ [] → has_no_uids uids ≡ false
unfolding has_no_uids
some_uids [] h = absurd (h refl)
some_uids (uid ∷ uids) h = refl

-- The progress that a status is read from.
progress_of :
    (r : OperationRecord) (id : String) (s : StepStatus)
    → status_of r.progress.steps id ≡ some s
    → (p : StepProgress) × (get id r.progress.steps ≡ some p) × (p.status ≡ s)
progress_of r id s h = ground arith

not_completed :
    (s : StepStatus) → s ≢ StepStatus.completed → same_step_status s StepStatus.completed ≡ false
unfolding same_step_status
not_completed s h = ground arith

module _ (r : OperationRecord) (id : String) (at : Time)
    (valid : validate_operation_record r ≡ ok tt) (ordered : validate_step_sequence r id ≡ ok tt)
    (later : r.updated_at ≤ at) where
  -- A step's status that admits the change lets the whole transition succeed.
  after_change :
      (p new : StepProgress) (count : ℕ)
      → get id r.progress.steps ≡ some p
      → p.status ≢ StepStatus.completed
      → validate_progress r.created_at at (id, new) ≡ ok tt
      → (r' : OperationRecord) × (refresh_operation_state (with_progress r id count new) at ≡ ok r')
        × (validate_operation_record r' ≡ ok tt)
        × (status_of r'.progress.steps id ≡ some new.status)
  after_change p new count g unfinished fits =
      let v = (validate_operation_record_iff r).0 valid in
      let (step, found) = sequence_step r id ordered in
      let (derived, done, valid') =
        refresh_succeeds r id step p new count at v found g unfinished later fits in
      (
        refreshed (with_progress r id count new) at derived,
        done,
        (validate_operation_record_iff _).1 valid',
        status_of-refreshed r id count p new at derived g,
      )

  submit_from :
      (uids : List String) (s : StepStatus)
      → validate_task_uids id uids ≡ ok tt
      → uids ≢ []
      → status_of r.progress.steps id ≡ some s
      → may_submit id s ≡ ok tt
      → (r' : OperationRecord) × (operation_step_submitted r id uids at ≡ ok r')
        × (validate_operation_record r' ≡ ok tt)
        × (status_of r'.progress.steps id ≡ some StepStatus.submitted)
  unfolding operation_step_submitted may_submit
  submit_from uids s u some_uid status may =
      let v = (validate_operation_record_iff r).0 valid in
      let (p, g, same) = progress_of r id s status in
      let (r', done, valid', after) =
        after_change p (submit_progress p uids at) (saturating_increment r.progress.attempt_count) g
          (ground arith) (submit_fits r id p uids at v g u (some_uids uids some_uid) later) in
      (
        r',
        rw (valid, u, some_uids uids some_uid, ordered, g, same, may) done,
        valid',
        unfold submit_progress in after,
      )

  -- On a valid record, with times in order, valid and at least one task UID, a step that is pending
  -- or failed, and for a side effect an accepted primary, the submission succeeds; the new record
  -- is valid and the step is submitted.
  pub submitted_succeeds :
      (uids : List String)
      → validate_task_uids id uids ≡ ok tt
      → uids ≢ []
      → (status_of r.progress.steps id ≡ some StepStatus.pending)
        ⊎ (status_of r.progress.steps id ≡ some StepStatus.failed)
      → (r' : OperationRecord) × (operation_step_submitted r id uids at ≡ ok r')
        × (validate_operation_record r' ≡ ok tt)
        × (status_of r'.progress.steps id ≡ some StepStatus.submitted)
  unfolding may_submit
  submitted_succeeds uids u some_uid (inl h) = submit_from uids StepStatus.pending u some_uid h refl
  submitted_succeeds uids u some_uid (inr h) = submit_from uids StepStatus.failed u some_uid h refl

  complete_from :
      (s : StepStatus)
      → status_of r.progress.steps id ≡ some s
      → may_complete id s ≡ ok tt
      → (r' : OperationRecord) × (operation_step_completed r id at ≡ ok r')
        × (validate_operation_record r' ≡ ok tt)
        × (status_of r'.progress.steps id ≡ some StepStatus.completed)
  unfolding operation_step_completed may_complete
  complete_from s status may =
      let v = (validate_operation_record_iff r).0 valid in
      let (p, g, same) = progress_of r id s status in
      let (r', done, valid', after) =
        after_change p (complete_progress p at) (count_attempt p.status r.progress.attempt_count) g
          (ground arith) (complete_fits r id p at v g later) in
      (
        r',
        rw (valid, ordered, g) (rw (ap (may_complete id) same ∙ may) done),
        valid',
        unfold complete_progress in after,
      )

  -- On a valid record, with times in order, a step that is pending or submitted, and for a side
  -- effect an accepted primary, the completion succeeds; the new record is valid and the step is
  -- completed.
  pub completed_succeeds :
      (status_of r.progress.steps id ≡ some StepStatus.pending)
        ⊎ (status_of r.progress.steps id ≡ some StepStatus.submitted)
      → (r' : OperationRecord) × (operation_step_completed r id at ≡ ok r')
        × (validate_operation_record r' ≡ ok tt)
        × (status_of r'.progress.steps id ≡ some StepStatus.completed)
  unfolding may_complete
  completed_succeeds (inl h) = complete_from StepStatus.pending h refl
  completed_succeeds (inr h) = complete_from StepStatus.submitted h refl

  -- On a valid record, with times in order, a cause that is not blank, a step with progress that is
  -- not completed, and for a side effect an accepted primary, the failure is recorded; the new
  -- record is valid and the step is failed.
  pub failed_succeeds :
      (category fingerprint : String) (s : StepStatus)
      → is_blank category ≡ false
      → is_blank fingerprint ≡ false
      → status_of r.progress.steps id ≡ some s
      → s ≢ StepStatus.completed
      → (r' : OperationRecord) × (operation_step_failed r id category fingerprint at ≡ ok r')
        × (validate_operation_record r' ≡ ok tt)
        × (status_of r'.progress.steps id ≡ some StepStatus.failed)
  unfolding operation_step_failed
  failed_succeeds category fingerprint s c f status unfinished =
      let v = (validate_operation_record_iff r).0 valid in
      let (p, g, same) = progress_of r id s status in
      let (r', done, valid', after) =
        after_change p (fail_progress p category fingerprint at)
          (count_attempt p.status r.progress.attempt_count) g (λ e. unfinished (sym same ∙ e))
          (fail_fits r id p category fingerprint at v g later) in
      (
        r',
        rw
            (
              valid,
              ordered,
              (require_non_empty_iff "error category" category).1 c,
              (require_non_empty_iff "error fingerprint" fingerprint).1 f,
              g,
              not_completed p.status (λ e. unfinished (sym same ∙ e)),
            )
            done,
        valid',
        unfold fail_progress in after,
      )
