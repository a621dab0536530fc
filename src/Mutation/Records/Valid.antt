-- ===== src/Mutation/Records/Valid.antt =====
-- `validate_operation_record` of src/mutation.rs as a predicate, field by field.
use nowledge.Prelude.{
  ◌≤◌, ◌≡◌, ◌↔◌, true, false, not, arith, All, ok, >>-eq-ok, >>=-eq-ok, fail_if, fail_if-eq-ok, ltb,
  is_some, same_set,
}
use nowledge.Prelude.Table.{keys}
use nowledge.Json.{get_field}
use nowledge.Models.Operations.{
  OperationStatus, OperationIndexingState as IndexingState, OperationRecord,
}
use nowledge.Mutation.Checks.{for_each}
use nowledge.Mutation.Checks.Loops.{for_each_sound, for_each_complete}
use nowledge.Mutation.Plans.{operation_steps, validate_operation_plan}
use nowledge.Mutation.Records.{
  compacted_payloads_metadata_key, same_status, same_indexing_state, same_flag,
  derive_operation_state, step_ids, matches_plan, validate_progress, validate_compaction,
  validate_state, validate_operation_record,
}

pub record IsValidRecord (r : OperationRecord) : Type 0 where
  pub plan_valid : validate_operation_plan r.plan ≡ ok tt
  pub identity : matches_plan r ≡ true
  pub times : r.created_at ≤ r.updated_at
  pub covered : same_set (step_ids (operation_steps r.plan)) (keys r.progress.steps) ≡ true
  pub entries : All (λ e. validate_progress r.created_at r.updated_at e ≡ ok tt) r.progress.steps
  pub derived : derive_operation_state r ≡ ok (r.status, r.indexing_state)
  pub completion : same_status r.status OperationStatus.completed ≡ is_some r.completed_at
  pub compaction :
      validate_compaction r (get_field compacted_payloads_metadata_key r.plan.redacted_metadata)
      ≡ ok tt

same_status_eq : (s t : OperationStatus) → same_status s t ≡ true → s ≡ t
unfolding same_status
same_status_eq s t h = ground arith

same_indexing_state_eq : (s t : IndexingState) → same_indexing_state s t ≡ true → s ≡ t
unfolding same_indexing_state
same_indexing_state_eq s t h = ground arith

pub same_status_refl : (s : OperationStatus) → same_status s s ≡ true
unfolding same_status
same_status_refl s = ground arith

pub same_indexing_state_refl : (s : IndexingState) → same_indexing_state s s ≡ true
unfolding same_indexing_state
same_indexing_state_refl s = ground arith

validate_state_sound :
    (r : OperationRecord)
    → validate_state r ≡ ok tt
    → (derive_operation_state r ≡ ok (r.status, r.indexing_state))
      × (same_status r.status OperationStatus.completed ≡ is_some r.completed_at)
unfolding validate_state same_flag
validate_state_sound r h =
    let step = >>=-eq-ok (derive_operation_state r) _ h in
    ground (
      arith,
      step.1,
      step.2,
      same_status_eq r.status step.0.0,
      same_indexing_state_eq r.indexing_state step.0.1,
    )

validate_state_complete :
    (r : OperationRecord)
    → derive_operation_state r ≡ ok (r.status, r.indexing_state)
    → same_status r.status OperationStatus.completed ≡ is_some r.completed_at
    → validate_state r ≡ ok tt
unfolding validate_state same_flag
validate_state_complete r d c =
    rw (d, same_status_refl r.status, same_indexing_state_refl r.indexing_state) (ground arith)

not_before :
    (r : OperationRecord) → r.created_at ≤ r.updated_at → ltb r.updated_at r.created_at ≡ false
not_before r h = ground arith

-- The check of a record passes exactly on valid records.
pub validate_operation_record_iff :
    (r : OperationRecord) → (validate_operation_record r ≡ ok tt) ↔ IsValidRecord r
unfolding validate_operation_record
validate_operation_record_iff r = (
  λ h.
      let p = >>-eq-ok (validate_operation_plan r.plan) _ h in
      let i = >>-eq-ok (fail_if (not (matches_plan r)) _) _ p.1 in
      let t = >>-eq-ok (fail_if (ltb r.updated_at r.created_at) _) _ i.1 in
      let c = >>-eq-ok (fail_if (not (same_set _ _)) _) _ t.1 in
      let e = >>-eq-ok (for_each _ r.progress.steps) _ c.1 in
      let s = >>-eq-ok (validate_state r) _ e.1 in
      record {
        plan_valid = p.0;
        identity = ground (arith, fail_if-eq-ok _ _ i.0);
        times = ground (arith, fail_if-eq-ok _ _ t.0);
        covered = ground (arith, fail_if-eq-ok _ _ c.0);
        entries = for_each_sound _ r.progress.steps e.0;
        derived = (validate_state_sound r s.0).0;
        completion = (validate_state_sound r s.0).1;
        compaction = s.1;
      },
  λ v.
      rw
        (
          v.plan_valid,
          v.identity,
          not_before r v.times,
          v.covered,
          for_each_complete _ r.progress.steps v.entries,
          validate_state_complete r v.derived v.completion,
        )
        v.compaction,
)
