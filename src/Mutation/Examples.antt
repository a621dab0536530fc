-- ===== src/Mutation/Examples.antt =====
-- The mutation journal at concrete plans: the records of one operation's life, and runs of the
-- transitions. The modules below apply the theorems to them.
mod Journal
mod Outcomes
use nowledge.Prelude.{
  ℕ, ◌≤◌, ◌+◌, min, String, str_eq, ◌≡◌, refl, sym, subst, ◌↔◌, ◌⊎◌, inl, inr, true, false, not,
  ◌&&◌, ◌||◌, is_empty, Option, none, some, List, [], ◌∷◌, ◌++◌, map, arith, All, length, Result,
  ok, err, is_blank, is_subset, same_set, same_text, contains, format,
}
use nowledge.Prelude.Table
use nowledge.Json
use nowledge.Json.{Value, null}
use nowledge.Models.Operations.{
  OperationActorScope, OperationStepRole as StepRole, OperationStepStatus as StepStatus,
  OperationStatus, OperationIndexingState as IndexingState, CompanySourceDeleteTarget,
  OperationResource, OperationStep, OperationPlan, OperationStepProgress as StepProgress,
  OperationRecord, RepositoryWriteReceipt,
}
use nowledge.Prelude.Sets.{IsUnique}
use nowledge.Mutation.Checks
use nowledge.Mutation.Checks.Unique.{IsUidList, validate_task_uids_iff}
use nowledge.Mutation.Plans.Steps.{IsSideEffect, validated_steps}
use nowledge.Mutation.Plans.Deletes.{targets, count_up, deletes_in_order}
use nowledge.Mutation.Records.Valid.{IsValidRecord, validate_operation_record_iff}
use nowledge.Mutation.Records.Derive.{status_of, IsAccepted, settled_iff, completed_iff}
use nowledge.Mutation.Records.Create.{operation_record_from_plan_valid}
use nowledge.Mutation.Transitions.Succeeds.{submitted_succeeds, completed_succeeds, failed_succeeds}
use nowledge.Mutation.Transitions.Change.{Transition, Reach, here, next, submit, complete}
use nowledge.Mutation.Transitions.History.{Transition-frame, completed_is_final}
use nowledge.Mutation.Transitions.Attempts.{total_attempts, u32_max, attempts_accounted}
use nowledge.Mutation.Transitions.Order.{side_effects_wait, primary_goes_first}
use nowledge.Mutation.Compaction.Valid.{compact_succeeds}
use nowledge.Mutation.Compaction.Bodies.{validate_resource-clear}
use nowledge.Mutation.Reports.Uids.{extend_lem, step_uids, any_uid, persistence_metadata_uids}
use nowledge.Mutation.Reports.Counts.{completed_steps, summary_counts_every_step, summary_settled}
use nowledge.Mutation.Resources
use nowledge.Mutation.Plans
use nowledge.Mutation.Records
use nowledge.Mutation.Transitions
use nowledge.Mutation.Compaction
use nowledge.Mutation.Reports

abbrev primary_step : OperationStep
primary_step = record {
  id = "rows";
  role = StepRole.primary;
  resource = OperationResource.structured_rows (Value.string "row" ∷ []);
}

abbrev side_step : OperationStep
side_step = record {
  id = "tasks";
  role = StepRole.side_effect;
  resource = OperationResource.delete_ingest_tasks ("task-1" ∷ "task-2" ∷ []);
}

abbrev plan : OperationPlan
plan = record {
  schema_version = 1;
  id = "op-1";
  tenant_id = "tenant";
  operation_kind = "structured.rows";
  actor = record {
    scope = OperationActorScope.system;
    owner_user_id_hash = none;
    roles = [];
    request_id = none;
  };
  idempotency_key_hash = none;
  primary = primary_step;
  side_effects = side_step ∷ [];
  redacted_metadata = null;
  response_snapshot = null;
  created_at = 100;
}

-- Names on its line what the checks of a plan and a record compute with.
evaluation : Unit {0}
unfolding is_blank contains is_subset same_set same_text Table.get Table.insert Table.write
    Table.keys Table.values Json.is_null Json.is_object Json.get_field Json.as_str Json.as_object
    Json.field_names Json.insert_in Checks.for_each Checks.for_each_from Checks.require_non_empty
    Checks.require_non_empty_slice Checks.validate_unique_non_empty Checks.validate_task_uids
    Checks.tenant_matches Checks.dedup_non_empty Resources.validate_resource Plans.operation_steps
    Plans.is_primary Plans.check_delete_target Plans.check_all_targets Plans.validate_step
    Plans.validate_side_effect Plans.validate_steps Plans.check_delete_step
    Plans.validate_company_source_delete_steps Plans.validate_analysis_materialization_steps
    Plans.require_owner Plans.require_if_given Plans.validate_actor Plans.validate_plan_header
    Plans.validate_operation_plan Records.same_step_status Records.same_status
    Records.same_indexing_state Records.has_status Records.all_status Records.side_statuses
    Records.derive_accepted Records.derive_from Records.derive_operation_state
    Records.operation_is_settled Records.operation_is_compacted Records.step_ids
    Records.matches_plan Records.has_no_uids Records.validate_progress Records.covers
    Records.validate_compaction Records.same_flag Records.validate_state
    Records.validate_operation_record Records.new_progress Records.collect_progress
    Records.new_record Records.operation_record_from_plan Transitions.find_step
    Transitions.is_accepted Transitions.validate_role Transitions.validate_step_sequence
    Transitions.first_failed Transitions.error_category Transitions.error_fingerprint
    Transitions.or_time Transitions.refreshed Transitions.refresh_operation_state
    Transitions.with_progress Transitions.may_submit Transitions.submit_progress
    Transitions.operation_step_submitted Transitions.may_complete Transitions.count_attempt
    Transitions.complete_progress Transitions.operation_step_completed Transitions.fail_progress
    Transitions.operation_step_failed
evaluation = tt

plan_accepted : Plans.validate_operation_plan plan ≡ ok tt
unfolding evaluation
plan_accepted = refl

abbrev progress : String → StepStatus → ℕ → List String → ℕ → StepProgress
progress id status attempts uids at = record {
  step_id = id;
  status = status;
  attempts = attempts;
  task_uids = uids;
  last_error_category = none;
  last_error_fingerprint = none;
  updated_at = at;
}

abbrev stage :
    OperationStatus
    → IndexingState
    → ℕ
    → StepProgress
    → StepProgress
    → ℕ
    → Option ℕ
    → OperationRecord
stage status indexing attempts rows tasks at done = record {
  id = "op-1";
  tenant_id = "tenant";
  operation_kind = "structured.rows";
  actor_scope = OperationActorScope.system;
  idempotency_key_hash = none;
  plan = plan;
  status = status;
  indexing_state = indexing;
  progress = record { attempt_count = attempts; steps = ("rows", rows) ∷ ("tasks", tasks) ∷ [] };
  created_at = 100;
  updated_at = at;
  completed_at = done;
  last_error_category = none;
  last_error_fingerprint = none;
}

-- The new record, then after the primary's submission, its completion and the side effect's.
abbrev r0 : OperationRecord
r0 =
    stage OperationStatus.pending IndexingState.pending 0
      (progress "rows" StepStatus.pending 0 [] 100) (progress "tasks" StepStatus.pending 0 [] 100)
      100 none

abbrev r1 : OperationRecord
r1 =
    stage OperationStatus.primary_committed IndexingState.pending 1
      (progress "rows" StepStatus.submitted 1 ("uid-1" ∷ []) 110)
      (progress "tasks" StepStatus.pending 0 [] 100) 110 none

abbrev r2 : OperationRecord
r2 =
    stage OperationStatus.primary_committed IndexingState.pending 1
      (progress "rows" StepStatus.completed 1 ("uid-1" ∷ []) 120)
      (progress "tasks" StepStatus.pending 0 [] 100) 120 none

abbrev r3 : OperationRecord
r3 =
    stage OperationStatus.completed IndexingState.completed 2
      (progress "rows" StepStatus.completed 1 ("uid-1" ∷ []) 120)
      (progress "tasks" StepStatus.completed 1 [] 130) 130 (some 130)

new_record_of_plan : Records.new_record plan ≡ r0
unfolding evaluation
new_record_of_plan = refl

rows_submitted : Transitions.operation_step_submitted r0 "rows" ("uid-1" ∷ []) 110 ≡ ok r1
unfolding evaluation
rows_submitted = refl

rows_completed : Transitions.operation_step_completed r1 "rows" 120 ≡ ok r2
unfolding evaluation
rows_completed = refl

tasks_completed : Transitions.operation_step_completed r2 "tasks" 130 ≡ ok r3
unfolding evaluation
tasks_completed = refl

r3_settled : Records.operation_is_settled r3 ≡ true
unfolding evaluation
r3_settled = refl

side_effect_too_early :
    Transitions.operation_step_completed r0 "tasks" 110
    ≡ err (Checks.invalid_transition "tasks" "primary step has not been durably accepted")
unfolding evaluation
side_effect_too_early = refl
