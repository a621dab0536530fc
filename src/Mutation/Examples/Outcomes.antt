-- ===== src/Mutation/Examples/Outcomes.antt =====
-- The theorems on compaction, plans, derived states and reports, at concrete inputs.
use nowledge.Prelude.{String, ◌≡◌, refl, ◌↔◌, ◌⊎◌, true, none, some, List, [], ◌∷◌, map, All, ok}
use nowledge.Models.Operations.{
  OperationStepRole as StepRole, OperationStepStatus as StepStatus, CompanySourceDeleteTarget,
  OperationResource, OperationStep, OperationPlan, OperationRecord, RepositoryWriteReceipt,
}
use nowledge.Mutation.Plans.Deletes.{targets, count_up, deletes_in_order}
use nowledge.Mutation.Records.Valid.{validate_operation_record_iff}
use nowledge.Mutation.Records.Derive.{status_of, settled_iff}
use nowledge.Mutation.Compaction.Valid.{compact_succeeds}
use nowledge.Mutation.Compaction.Bodies.{validate_resource-clear}
use nowledge.Mutation.Reports.Counts.{summary_settled}
use nowledge.Mutation.Resources
use nowledge.Mutation.Plans
use nowledge.Mutation.Records
use nowledge.Mutation.Compaction
use nowledge.Mutation.Reports
use nowledge.Mutation.Examples.{primary_step, plan, evaluation, r3}

compact_succeeds_example :
    (r' : OperationRecord) × (Compaction.compact_settled_operation (λ x. ok "payload") (λ s. s) r3
      ≡ ok (some r'))
    × (Records.validate_operation_record r' ≡ ok tt)
    × (r'.progress ≡ r3.progress)
    × (r'.status ≡ r3.status)
    × (Plans.operation_steps r'.plan ≡ map Compaction.clear_step (Plans.operation_steps r3.plan))
    × (Compaction.compact_settled_operation (λ x. ok "payload") (λ s. s) r' ≡ ok none)
unfolding evaluation
compact_succeeds_example =
    compact_succeeds (λ x. ok "payload") (λ s. s) r3 (λ x. ("payload", refl)) refl refl refl

settled_iff_example :
    (Records.operation_is_settled r3 ≡ true)
    ↔ All
        (λ step. status_of r3.progress.steps step.id ≡ some StepStatus.completed)
        (Plans.operation_steps r3.plan)
unfolding evaluation
settled_iff_example = settled_iff r3 ((validate_operation_record_iff r3).0 refl)

abbrev receipt : List String → RepositoryWriteReceipt
receipt uids = record { task_uids = uids }

summary_settled_example : (Records.operation_is_settled r3 ≡ true) ↔ (
    ((Reports.operation_summary r3).pending_steps ≡ 0)
    × ((Reports.operation_summary r3).failed_steps ≡ 0))
unfolding evaluation
summary_settled_example = summary_settled r3 refl (refl, (refl, tt))

validate_resource-clear_example :
    Resources.validate_resource "tenant" (Compaction.clear_resource_bodies primary_step.resource)
    ≡ Resources.validate_resource "tenant" primary_step.resource
validate_resource-clear_example = validate_resource-clear "tenant" primary_step.resource

abbrev delete_step : String → CompanySourceDeleteTarget → OperationStep
delete_step id target = record {
  id = id;
  role = StepRole.side_effect;
  resource = OperationResource.delete_company_source_index "src" target;
}

abbrev delete_plan : OperationPlan
delete_plan = record plan {
  primary = record (delete_step "d0" CompanySourceDeleteTarget.fragments) {
    role = StepRole.primary;
  };
  side_effects =
      delete_step "d1" CompanySourceDeleteTarget.revisions
      ∷ delete_step "d2" CompanySourceDeleteTarget.source
      ∷ delete_step "d3" CompanySourceDeleteTarget.source_documents
      ∷ delete_step "d4" CompanySourceDeleteTarget.parse_artifacts
      ∷ delete_step "d5" CompanySourceDeleteTarget.ingest_tasks
      ∷ delete_step "d6" CompanySourceDeleteTarget.ingest_results
      ∷ [];
}

deletes_in_order_example :
    (targets "src" (Plans.operation_steps delete_plan) ≡ [])
    ⊎ (targets "src" (Plans.operation_steps delete_plan) ≡ count_up 0 7)
    ⊎ (targets "src" (Plans.operation_steps delete_plan) ≡ count_up 0 8)
unfolding evaluation
deletes_in_order_example = deletes_in_order delete_plan "src" refl
