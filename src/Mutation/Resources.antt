-- ===== src/Mutation/Resources.antt =====
-- `validate_resource` of src/mutation.rs: what a step's payload must satisfy for the tenant.
use nowledge.Prelude.{
  String, str_eq, Bool, true, false, ◌&&◌, ◌||◌, not, List, [], ◌∷◌, ok, ◌>>◌, fail_if,
}
use nowledge.Json.{is_null}
use nowledge.Models.History.{HistoryEvent}
use nowledge.Models.Context.{ContextNode}
use nowledge.Models.Operations.{CompanySourceDeleteTarget, OperationResource, OperationStep}
use nowledge.Mutation.Checks.{
  Checked, invalid_plan, for_each, require_non_empty, require_non_empty_slice,
  validate_unique_non_empty, tenant_matches,
}

unfoldable pub is_nil {ℓ} : {A : Type ℓ} → List A → Bool
is_nil [] = true
is_nil (x ∷ xs) = false

-- Every event of a batch names the index and the owner of its first one.
unfoldable pub validate_event : String → HistoryEvent → HistoryEvent → Checked (Unit {0})
validate_event tenant_id first event = do
  tenant_matches tenant_id event.tenant_id "history event"
  fail_if
      (not (str_eq event.event_index_uid first.event_index_uid)
        || not (str_eq event.owner_user_id_hash first.owner_user_id_hash))
      (invalid_plan "a history-event batch must use one event index and owner hash")

unfoldable pub validate_history_events : String → List HistoryEvent → Checked (Unit {0})
unfolding validate_event
validate_history_events tenant_id [] =
    require_non_empty_slice {A = HistoryEvent} "history events" []
validate_history_events tenant_id (first ∷ rest) = do
  require_non_empty "event index UID" first.event_index_uid
  require_non_empty "event owner hash" first.owner_user_id_hash
  for_each (validate_event tenant_id first) (first ∷ rest)

unfoldable pub validate_node : String → String → ContextNode → Checked (Unit {0})
validate_node tenant_id index_uid node = do
  tenant_matches tenant_id node.tenant_id "context node"
  fail_if (not (str_eq node.index_uid index_uid))
      (invalid_plan "context node index UID does not match the step index UID")

unfoldable pub validate_delete_target : CompanySourceDeleteTarget → Checked (Unit {0})
validate_delete_target (CompanySourceDeleteTarget.links link_ids related_uris) = do
  fail_if (is_nil link_ids && is_nil related_uris)
      (invalid_plan "company source link deletion requires link ids or related URIs")
  validate_unique_non_empty "company source link id" link_ids
  validate_unique_non_empty "company source related URI" related_uris
validate_delete_target _ = ok tt

unfoldable pub validate_resource : String → OperationResource → Checked (Unit {0})
unfolding validate_history_events validate_node validate_delete_target is_nil
validate_resource t (OperationResource.ensure_user_event_index index) = do
  tenant_matches t index.tenant_id "event index"
  require_non_empty "event index id" index.id
validate_resource t (OperationResource.history_events events) = validate_history_events t events
validate_resource t (OperationResource.context_nodes index_uid nodes) = do
  require_non_empty "context index UID" index_uid
  require_non_empty_slice "context nodes" nodes
  for_each (validate_node t index_uid) nodes
validate_resource t (OperationResource.state_item item) =
    tenant_matches t item.tenant_id "state item"
validate_resource t (OperationResource.insight entry) = tenant_matches t entry.tenant_id "insight"
validate_resource t (OperationResource.company_source source) =
    tenant_matches t source.tenant_id "company source"
validate_resource t (OperationResource.source_revision revision) =
    tenant_matches t revision.tenant_id "source revision"
validate_resource t (OperationResource.delete_company_source_index source_id target) = do
  require_non_empty "company source id" source_id
  validate_delete_target target
validate_resource t (OperationResource.source_documents documents) = do
  require_non_empty_slice "source documents" documents
  for_each (λ document. tenant_matches t document.tenant_id "source document") documents
validate_resource t (OperationResource.parse_artifacts artifacts) = do
  require_non_empty_slice "parse artifacts" artifacts
  for_each (λ artifact. tenant_matches t artifact.tenant_id "parse artifact") artifacts
validate_resource t (OperationResource.structured_snapshot snapshot) =
    tenant_matches t snapshot.tenant_id "structured snapshot"
validate_resource t (OperationResource.dataset entry) = tenant_matches t entry.tenant_id "dataset"
validate_resource t (OperationResource.structured_rows rows) =
    require_non_empty_slice "structured rows" rows
validate_resource t (OperationResource.structured_summary summary) =
    fail_if (is_null summary) (invalid_plan "structured summary must not be null")
validate_resource t (OperationResource.session entry) = tenant_matches t entry.tenant_id "session"
validate_resource t (OperationResource.trace entry) = tenant_matches t entry.tenant_id "trace"
validate_resource t (OperationResource.links entries) = do
  require_non_empty_slice "links" entries
  for_each (λ link. tenant_matches t link.tenant_id "link") entries
validate_resource t (OperationResource.harness_components components edits) = do
  fail_if (is_nil components && is_nil edits)
      (invalid_plan "harness component step has no resources")
  for_each (λ component. tenant_matches t component.tenant_id "harness component") components
  for_each (λ revision. tenant_matches t revision.tenant_id "harness revision") edits
validate_resource t (OperationResource.harness_changes changes) = do
  require_non_empty_slice "harness changes" changes
  for_each (λ change. tenant_matches t change.tenant_id "harness change") changes
validate_resource t (OperationResource.harness_verdicts verdicts) = do
  require_non_empty_slice "harness verdicts" verdicts
  for_each (λ verdict. tenant_matches t verdict.tenant_id "harness verdict") verdicts
validate_resource t (OperationResource.ingest_task task) =
    tenant_matches t task.tenant_id "ingest task"
validate_resource t (OperationResource.ingest_tasks tasks) = do
  require_non_empty_slice "ingest tasks" tasks
  for_each (λ task. tenant_matches t task.tenant_id "ingest task") tasks
validate_resource t (OperationResource.delete_ingest_tasks task_ids) = do
  validate_unique_non_empty "ingest task id" task_ids
  fail_if (is_nil task_ids) (invalid_plan "ingest task ids must not be empty")
validate_resource t (OperationResource.ingest_result result) = do
  tenant_matches t result.task.tenant_id "ingest result"
  for_each (λ artifact. tenant_matches t artifact.tenant_id "ingest result artifact")
      result.parse_artifacts
validate_resource t (OperationResource.eval_case case) =
    tenant_matches t case.tenant_id "evaluation case"
validate_resource t (OperationResource.eval_run run) =
    tenant_matches t run.tenant_id "evaluation run"
validate_resource t (OperationResource.eval_case_results results) = do
  require_non_empty_slice "evaluation case results" results
  for_each (λ result. tenant_matches t result.tenant_id "evaluation case result") results
validate_resource t (OperationResource.eval_overview overview) =
    tenant_matches t overview.tenant_id "evaluation overview"

unfoldable pub validate_operation_step_for_tenant : String → OperationStep → Checked (Unit {0})
validate_operation_step_for_tenant tenant_id step = do
  require_non_empty "tenant id" tenant_id
  require_non_empty "step id" step.id
  validate_resource tenant_id step.resource
