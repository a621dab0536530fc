-- ===== src/Mutation/Transitions/Change.antt =====
-- What a successful transition of src/mutation.rs did to the record, whichever of the three it was.
use nowledge.Prelude.{
  ℕ, ◌≤◌, String, ◌≡◌, ◌≢◌, refl, ap, subst, some, arith, List, ok, >>-eq-ok, >>=-eq-ok, fail_if,
  fail_if-eq-ok, ok_or, ok_or-eq-ok, ltb,
}
use nowledge.Prelude.Table.{get, write}
use nowledge.Models.Common.{Time}
use nowledge.Models.Operations.{
  OperationStepStatus as StepStatus, OperationStatus, OperationIndexingState as IndexingState,
  OperationStepProgress as StepProgress, OperationRecord,
}
use nowledge.Mutation.Checks.{require_non_empty, validate_task_uids}
use nowledge.Mutation.Records.{
  same_step_status, has_no_uids, derive_operation_state, validate_operation_record,
}
use nowledge.Mutation.Transitions.{
  saturating_increment, validate_step_sequence, refreshed, refresh_operation_state, with_progress,
  may_submit, submit_progress, operation_step_submitted, may_complete, count_attempt,
  complete_progress, operation_step_completed, fail_progress, operation_step_failed,
}

-- A successful call of one of the three transitions, on the step `id`.
pub data Transition (r r' : OperationRecord) (id : String) : Type 0 where
  submit :
      (uids : List String) (at : Time)
      → operation_step_submitted r id uids at ≡ ok r'
      → Transition r r' id
  complete : (at : Time) → operation_step_completed r id at ≡ ok r' → Transition r r' id
  fail :
      (category fingerprint : String) (at : Time)
      → operation_step_failed r id category fingerprint at ≡ ok r'
      → Transition r r' id

-- Any number of successful transitions.
pub data Reach (r : OperationRecord) : OperationRecord → Type 0 where
  here : Reach r r
  next : {s t : OperationRecord} (id : String) → Reach r s → Transition s t id → Reach r t

pub record Change (r r' : OperationRecord) (id : String) : Type 0 where
  pub before : StepProgress
  pub after : StepProgress
  pub present : get id r.progress.steps ≡ some before
  pub unfinished : before.status ≢ StepStatus.completed
  pub started : after.status ≢ StepStatus.pending
  pub written : r'.progress.steps ≡ write id after r.progress.steps
  pub same_plan : r'.plan ≡ r.plan
  pub counted : after.attempts ≡ count_attempt before.status before.attempts
  pub total : r'.progress.attempt_count ≡ count_attempt before.status r.progress.attempt_count
  pub ordered : validate_step_sequence r id ≡ ok tt
  pub later : r.updated_at ≤ r'.updated_at
  pub valid : validate_operation_record r ≡ ok tt
  pub valid' : validate_operation_record r' ≡ ok tt

-- A refresh that succeeds derived a state, and its result is valid.
refresh_inversion :
    (e : OperationRecord) (at : Time) {r' : OperationRecord}
    → refresh_operation_state e at ≡ ok r'
    → (derived : OperationStatus × IndexingState) × (r' ≡ refreshed e at derived)
      × (e.updated_at ≤ at)
      × (validate_operation_record r' ≡ ok tt)
unfolding refresh_operation_state
refresh_inversion e at {r' = r'} h =
    let t = >>-eq-ok (fail_if (ltb at e.updated_at) _) _ h in
    let d = >>=-eq-ok (derive_operation_state e) _ t.1 in
    let c =
      >>-eq-ok (validate_operation_record (refreshed e at d.0)) (ok (refreshed e at d.0)) d.2 in
    let same : r' ≡ refreshed e at d.0 = cc (c.1) in
    (d.0, same, ground (arith, fail_if-eq-ok _ _ t.0), rw same c.0)

module _ (r r' : OperationRecord) (id : String) (at : Time) (before after : StepProgress) where
  Change-of_refresh :
      get id r.progress.steps ≡ some before
      → before.status ≢ StepStatus.completed
      → after.status ≢ StepStatus.pending
      → after.attempts ≡ count_attempt before.status before.attempts
      → validate_operation_record r ≡ ok tt
      → validate_step_sequence r id ≡ ok tt
      → refresh_operation_state
          (with_progress r id (count_attempt before.status r.progress.attempt_count) after)
          at
        ≡ ok r'
      → Change r r' id
  unfolding with_progress refreshed
  Change-of_refresh g unfinished started counted valid ordered h =
      let (derived, same, later, valid') = refresh_inversion _ at h in
      record {
        before = before;
        after = after;
        present = g;
        unfinished = unfinished;
        started = started;
        written = ap (λ (e : OperationRecord). e.progress.steps) same;
        same_plan = ap (λ (e : OperationRecord). e.plan) same;
        counted = counted;
        total = ap (λ (e : OperationRecord). e.progress.attempt_count) same;
        ordered = ordered;
        later = rw same later;
        valid = valid;
        valid' = valid';
      }

submit-Change :
    (r r' : OperationRecord) (id : String) (uids : List String) (at : Time)
    → operation_step_submitted r id uids at ≡ ok r'
    → Change r r' id
unfolding operation_step_submitted may_submit submit_progress count_attempt
submit-Change r r' id uids at h =
    let v = >>-eq-ok (validate_operation_record r) _ h in
    let u = >>-eq-ok (validate_task_uids id uids) _ v.1 in
    let n = >>-eq-ok (fail_if (has_no_uids uids) _) _ u.1 in
    let o = >>-eq-ok (validate_step_sequence r id) _ n.1 in
    let (p, found, rest) = >>=-eq-ok (ok_or (get id r.progress.steps) _) _ o.1 in
    let m = >>-eq-ok (may_submit id p.status) _ rest in
    let not_submitted : (n : ℕ) → saturating_increment n ≡ count_attempt p.status n =
      λ n. ground (arith, m.0) in
    Change-of_refresh r r' id at p (submit_progress p uids at) (ok_or-eq-ok _ _ found)
      (ground (arith, m.0)) (λ e. cc) (not_submitted p.attempts) v.0 o.0
      (subst
        (λ n. refresh_operation_state (with_progress r id n (submit_progress p uids at)) at ≡ ok r')
        (not_submitted r.progress.attempt_count) m.1)

complete-Change :
    (r r' : OperationRecord) (id : String) (at : Time)
    → operation_step_completed r id at ≡ ok r'
    → Change r r' id
unfolding operation_step_completed may_complete complete_progress
complete-Change r r' id at h =
    let v = >>-eq-ok (validate_operation_record r) _ h in
    let o = >>-eq-ok (validate_step_sequence r id) _ v.1 in
    let (p, found, rest) = >>=-eq-ok (ok_or (get id r.progress.steps) _) _ o.1 in
    let m = >>-eq-ok (may_complete id p.status) _ rest in
    Change-of_refresh r r' id at p (complete_progress p at) (ok_or-eq-ok _ _ found)
      (ground (arith, m.0)) (λ e. cc) refl v.0 o.0 m.1

fail-Change :
    (r r' : OperationRecord) (id category fingerprint : String) (at : Time)
    → operation_step_failed r id category fingerprint at ≡ ok r'
    → Change r r' id
unfolding operation_step_failed fail_progress same_step_status
fail-Change r r' id category fingerprint at h =
    let v = >>-eq-ok (validate_operation_record r) _ h in
    let o = >>-eq-ok (validate_step_sequence r id) _ v.1 in
    let c = >>-eq-ok (require_non_empty "error category" category) _ o.1 in
    let f = >>-eq-ok (require_non_empty "error fingerprint" fingerprint) _ c.1 in
    let (p, found, rest) = >>=-eq-ok (ok_or (get id r.progress.steps) _) _ f.1 in
    let m = >>-eq-ok (fail_if (same_step_status p.status StepStatus.completed) _) _ rest in
    Change-of_refresh r r' id at p (fail_progress p category fingerprint at) (ok_or-eq-ok _ _ found)
      (ground (arith, m.0)) (λ e. cc) refl v.0 o.0 m.1

pub Transition-Change : {r r' : OperationRecord} {id : String} → Transition r r' id → Change r r' id
Transition-Change {r} {r'} {id} (submit uids at h) = submit-Change r r' id uids at h
Transition-Change {r} {r'} {id} (complete at h) = complete-Change r r' id at h
Transition-Change {r} {r'} {id} (fail category fingerprint at h) =
    fail-Change r r' id category fingerprint at h
