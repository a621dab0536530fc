-- ===== src/Mutation/Reports.antt =====
-- What src/mutation.rs reports of a record: the receipt of a write, the persistence metadata, the
-- summary and the list item.
pub mod Uids
pub mod Counts
use nowledge.Prelude.{
  ℕ, suc, String, Bool, true, false, Option, none, some, List, [], ◌∷◌, ◌++◌, if◌then◌else◌,
}
use nowledge.Prelude.Table.{get, values}
use nowledge.Models.Operations.{
  OperationStepStatus as StepStatus, OperationStatus, OperationIndexingState as IndexingState,
  OperationStep, OperationStepProgress as StepProgress, OperationRecord, PersistenceMetadata,
  RepositoryWriteReceipt, OperationSummary, OperationListItem,
}
use nowledge.Mutation.Checks.{dedup_non_empty, dedup_from}
use nowledge.Mutation.Records.{same_step_status}

unfoldable pub status_as_str : OperationStatus → String
status_as_str OperationStatus.pending = "pending"
status_as_str OperationStatus.primary_committed = "primary_committed"
status_as_str OperationStatus.effects_submitted = "effects_submitted"
status_as_str OperationStatus.partially_failed = "partially_failed"
status_as_str OperationStatus.completed = "completed"
status_as_str OperationStatus.failed = "failed"

unfoldable pub indexing_state_as_str : IndexingState → String
indexing_state_as_str IndexingState.pending = "pending"
indexing_state_as_str IndexingState.completed = "completed"
indexing_state_as_str IndexingState.failed = "failed"

unfoldable pub empty_receipt : RepositoryWriteReceipt
empty_receipt = record { task_uids = [] }

unfoldable pub from_task_uid : Option String → RepositoryWriteReceipt
from_task_uid none = record { task_uids = [] }
from_task_uid (some task_uid) = record { task_uids = task_uid ∷ [] }

-- `RepositoryWriteReceipt::extend`: what the other receipt adds, less what is empty or there.
unfoldable pub extend : RepositoryWriteReceipt → RepositoryWriteReceipt → RepositoryWriteReceipt
extend receipt other = record {
  task_uids = receipt.task_uids ++ dedup_from receipt.task_uids other.task_uids;
}

-- The loop of `persistence_metadata` over the side effects; `uids` are those so far, which are
-- also what its `HashSet` holds.
unfoldable pub gather_uids : OperationRecord → List String → List OperationStep → List String
gather_uids entry uids [] = uids
gather_uids entry uids (step ∷ rest) =
    gather_uids entry
      (elim (get step.id entry.progress.steps) [
        | none ↦ uids
        | some progress ↦ uids ++ dedup_from uids progress.task_uids
      ])
      rest

unfoldable pub primary_task_uids : OperationRecord → List String
primary_task_uids entry = elim (get entry.plan.primary.id entry.progress.steps) [
  | none ↦ []
  | some progress ↦ dedup_non_empty progress.task_uids
]

unfoldable pub persistence_metadata : OperationRecord → PersistenceMetadata
unfolding gather_uids primary_task_uids
persistence_metadata entry = record {
  operation_id = entry.id;
  status = entry.status;
  indexing_state = entry.indexing_state;
  primary_task_uids = primary_task_uids entry;
  task_uids = gather_uids entry (primary_task_uids entry) entry.plan.side_effects;
}

unfoldable pub count_if : (StepStatus → Bool) → List StepProgress → ℕ
count_if test [] = 0
count_if test (progress ∷ rest) =
    let n = count_if test rest in if test progress.status then suc n else n

unfoldable pub is_unconfirmed : StepStatus → Bool
is_unconfirmed StepStatus.pending = true
is_unconfirmed StepStatus.submitted = true
is_unconfirmed _ = false

unfoldable pub is_failed : StepStatus → Bool
is_failed StepStatus.failed = true
is_failed _ = false

unfoldable pub operation_summary : OperationRecord → OperationSummary
unfolding count_if is_unconfirmed is_failed
operation_summary entry = record {
  id = entry.id;
  tenant_id = entry.tenant_id;
  operation_kind = entry.operation_kind;
  actor_scope = entry.actor_scope;
  idempotency_key_hash = entry.idempotency_key_hash;
  status = entry.status;
  indexing_state = entry.indexing_state;
  attempt_count = entry.progress.attempt_count;
  pending_steps = count_if is_unconfirmed (values entry.progress.steps);
  failed_steps = count_if is_failed (values entry.progress.steps);
  created_at = entry.created_at;
  updated_at = entry.updated_at;
  completed_at = entry.completed_at;
  last_error_category = entry.last_error_category;
  last_error_fingerprint = entry.last_error_fingerprint;
}

unfoldable pub operation_list_item : OperationRecord → Bool → OperationListItem
unfolding operation_summary
operation_list_item entry include_plan = record {
  summary = operation_summary entry;
  plan = if include_plan then some entry.plan else none;
}
