-- ===== src/Mutation/Records/Create.antt =====
-- The record that `operation_record_from_plan` of src/mutation.rs makes, and its validation.
use nowledge.Prelude.{
  String, eq_refl, ◌≡◌, refl, sym, ◌↔◌, true, false, ◌||◌, Option, none, some, List, [], ◌∷◌, arith,
  All, ok, contains, same_text, Option-cases, inl, inr, All-map,
}
use nowledge.Prelude.Sets.{same_set_of_contains}
use nowledge.Prelude.Table.{Table, get, insert, keys}
use nowledge.Prelude.Entries.{contains-keys, contains-keys-insert, All-insert, All-get}
use nowledge.Json.{get_field}
use nowledge.Models.Common.{Time}
use nowledge.Models.Operations.{
  OperationActorScope, OperationStepStatus as StepStatus, OperationStatus,
  OperationIndexingState as IndexingState, OperationStep, OperationPlan,
  OperationStepProgress as StepProgress,
}
use nowledge.Mutation.Checks.{validate_task_uids}
use nowledge.Mutation.Plans.{operation_steps, validate_operation_plan}
use nowledge.Mutation.Records.{
  compacted_payloads_metadata_key, same_scope, same_status, operation_is_settled, matches_plan,
  validate_progress, validate_compaction, derive_from, derive_operation_state, step_ids,
  new_progress, collect_progress, new_record, operation_record_from_plan, validate_operation_record,
}
use nowledge.Mutation.Records.Valid.{IsValidRecord, validate_operation_record_iff}

same_scope_refl : (s : OperationActorScope) → same_scope s s ≡ true
unfolding same_scope
same_scope_refl s = ground arith

same_text_refl : (t : Option String) → same_text t t ≡ true
unfolding same_text
same_text_refl none = refl
same_text_refl (some t) = eq_refl t

new_record-matches_plan : (plan : OperationPlan) → matches_plan (new_record plan) ≡ true
unfolding matches_plan new_record
new_record-matches_plan plan = ground (
  arith,
  eq_refl plan.id,
  eq_refl plan.tenant_id,
  eq_refl plan.operation_kind,
  same_scope_refl plan.actor.scope,
  same_text_refl plan.idempotency_key_hash,
)

keys-collect :
    (at : Time) (m : Table StepProgress) (steps : List OperationStep) (a : String)
    → contains (keys (collect_progress at m steps)) a
      ≡ (contains (keys m) a || contains (step_ids steps) a)
unfolding collect_progress step_ids contains
keys-collect at m [] a = ground arith
keys-collect at m (step ∷ rest) a = ground (
  arith,
  keys-collect at (insert step.id (new_progress at step) m) rest a,
  contains-keys-insert step.id a (new_progress at step) m,
)

-- What holds of a new entry.
abbrev IsNew : Time → String × StepProgress → Type 0
IsNew at e = (validate_progress at at e ≡ ok tt) × (e.1.status ≡ StepStatus.pending)

new_progress-IsNew : (at : Time) (step : OperationStep) → IsNew at (step.id, new_progress at step)
unfolding validate_progress new_progress validate_task_uids
new_progress-IsNew at step = (ground (arith, eq_refl step.id), refl)

collect-IsNew :
    (at : Time) (m : Table StepProgress) (steps : List OperationStep)
    → All (IsNew at) m
    → All (IsNew at) (collect_progress at m steps)
unfolding collect_progress
collect-IsNew at m [] h = h
collect-IsNew at m (step ∷ rest) h =
    collect-IsNew at (insert step.id (new_progress at step) m) rest
      (All-insert (IsNew at) step.id (new_progress at step) m (new_progress-IsNew at step) h)

new_record-derived :
    (plan : OperationPlan)
    → derive_operation_state (new_record plan) ≡ ok (OperationStatus.pending, IndexingState.pending)
unfolding derive_operation_state derive_from new_record operation_steps step_ids contains keys
new_record-derived plan =
    let steps = collect_progress plan.created_at [] (operation_steps plan) in
    let listed = keys-collect plan.created_at [] (operation_steps plan) plan.primary.id in
    elim (Option-cases (get plan.primary.id steps)) [
      | inl e ↦
          absurd
            (ground (arith, listed, eq_refl plan.primary.id, contains-keys plan.primary.id steps))
      | inr (p, e) ↦
          let fresh =
            All-get (IsNew plan.created_at) plan.primary.id p steps e
              (collect-IsNew plan.created_at [] (operation_steps plan) tt) in
          ground (arith, fresh)
    ]

new_record-IsValidRecord :
    (plan : OperationPlan)
    → validate_operation_plan plan ≡ ok tt
    → get_field compacted_payloads_metadata_key plan.redacted_metadata ≡ none
    → IsValidRecord (new_record plan)
unfolding new_record same_status validate_compaction contains keys
new_record-IsValidRecord plan h fresh =
    let steps = operation_steps plan in
    record {
      plan_valid = h;
      identity = new_record-matches_plan plan;
      times = omega arith;
      covered =
          same_set_of_contains (step_ids steps) (keys (collect_progress plan.created_at [] steps))
            (λ a. sym (keys-collect plan.created_at [] steps a));
      entries =
          All-map (IsNew plan.created_at) _ (λ e n. n.0) (collect_progress plan.created_at [] steps)
            (collect-IsNew plan.created_at [] steps tt);
      derived = new_record-derived plan;
      completion = refl;
      compaction = rw fresh;
    }

not_settled : (plan : OperationPlan) → operation_is_settled (new_record plan) ≡ false
unfolding operation_is_settled new_record same_status
not_settled plan = refl

uncompacted_of_valid :
    (plan : OperationPlan)
    → IsValidRecord (new_record plan)
    → get_field compacted_payloads_metadata_key plan.redacted_metadata ≡ none
unfolding new_record validate_compaction
uncompacted_of_valid plan v =
    elim (Option-cases (get_field compacted_payloads_metadata_key plan.redacted_metadata)) [
      | inl e ↦ e
      | inr (digests, e) ↦ absurd (ground (arith, v.compaction, not_settled plan))
    ]

-- Every plan that passes its check gets a record; the record passes its own check exactly when the
-- plan's metadata does not already hold the key `compacted_payloads`.
pub operation_record_from_plan_valid :
    (plan : OperationPlan)
    → validate_operation_plan plan ≡ ok tt
    → (operation_record_from_plan plan ≡ ok (new_record plan))
      × ((validate_operation_record (new_record plan) ≡ ok tt)
          ↔ (get_field compacted_payloads_metadata_key plan.redacted_metadata ≡ none))
unfolding operation_record_from_plan
operation_record_from_plan_valid plan h =
    let spec = validate_operation_record_iff (new_record plan) in
    (
      rw h,
      (λ v. uncompacted_of_valid plan (spec.0 v), λ e. spec.1 (new_record-IsValidRecord plan h e)),
    )
