-- ===== src/Models/Operations.antt =====
-- src/models_operations.rs: the durable description of a mutation and its progress. `u32`
-- counters are numbers below 2 ^ 32.
use nowledge.Prelude.{ℕ, String, Option, List}
use nowledge.Prelude.Table.{Table}
use nowledge.Json.{Value}
use nowledge.Models.Common.{Time}
use nowledge.Models.History.{UserEventIndex, HistoryEvent}
use nowledge.Models.Context.{ContextNode, TraceRecord}
use nowledge.Models.Knowledge.{StateItem, InsightRecord, KnowledgeLink, SessionRecord}
use nowledge.Models.Documents.{
  CompanySource, SourceRevision, SourceDocument, ParseArtifact, IngestTask, IngestTaskResult,
}
use nowledge.Models.Structured.{StructuredSnapshot, DatasetRecord}
use nowledge.Models.Harness.{
  HarnessComponent, HarnessComponentRevision, HarnessChangeManifest, HarnessChangeVerdict,
}
use nowledge.Models.Evaluation.{RagEvalCase, RagEvalRun, RagEvalCaseResult, RagEvalOverview}

pub data OperationActorScope : Type 0 where
  owner tenant_service admin system : OperationActorScope

pub record OperationActor : Type 0 where
  pub scope : OperationActorScope
  pub owner_user_id_hash : Option String
  pub roles : List String
  pub request_id : Option String

pub data OperationStepRole : Type 0 where
  primary side_effect : OperationStepRole

pub data OperationStepStatus : Type 0 where
  pending submitted completed failed : OperationStepStatus

pub data OperationStatus : Type 0 where
  pending primary_committed effects_submitted partially_failed completed failed : OperationStatus

pub data OperationIndexingState : Type 0 where
  pending completed failed : OperationIndexingState

pub data CompanySourceDeleteTarget : Type 0 where
  fragments revisions source source_documents parse_artifacts : CompanySourceDeleteTarget
  ingest_tasks ingest_results : CompanySourceDeleteTarget
  links : (link_ids related_uris : List String) → CompanySourceDeleteTarget

pub data OperationResource : Type 0 where
  ensure_user_event_index : (index : UserEventIndex) → OperationResource
  history_events : (events : List HistoryEvent) → OperationResource
  context_nodes : (index_uid : String) (nodes : List ContextNode) → OperationResource
  state_item : (item : StateItem) → OperationResource
  insight : (entry : InsightRecord) → OperationResource
  company_source : (source : CompanySource) → OperationResource
  source_revision : (revision : SourceRevision) → OperationResource
  delete_company_source_index :
      (source_id : String) (target : CompanySourceDeleteTarget) → OperationResource
  source_documents : (documents : List SourceDocument) → OperationResource
  parse_artifacts : (artifacts : List ParseArtifact) → OperationResource
  structured_snapshot : (snapshot : StructuredSnapshot) → OperationResource
  dataset : (entry : DatasetRecord) → OperationResource
  structured_rows : (rows : List Value) → OperationResource
  structured_summary : (summary : Value) → OperationResource
  session : (entry : SessionRecord) → OperationResource
  trace : (entry : TraceRecord) → OperationResource
  links : (entries : List KnowledgeLink) → OperationResource
  harness_components :
      (components : List HarnessComponent) (edits : List HarnessComponentRevision)
      → OperationResource
  harness_changes : (changes : List HarnessChangeManifest) → OperationResource
  harness_verdicts : (verdicts : List HarnessChangeVerdict) → OperationResource
  ingest_task : (task : IngestTask) → OperationResource
  ingest_tasks : (tasks : List IngestTask) → OperationResource
  delete_ingest_tasks : (task_ids : List String) → OperationResource
  ingest_result : (result : IngestTaskResult) → OperationResource
  eval_case : (case : RagEvalCase) → OperationResource
  eval_run : (run : RagEvalRun) → OperationResource
  eval_case_results : (results : List RagEvalCaseResult) → OperationResource
  eval_overview : (overview : RagEvalOverview) → OperationResource

pub record OperationStep : Type 0 where
  pub id : String
  pub role : OperationStepRole
  pub resource : OperationResource

pub record OperationPlan : Type 0 where
  pub schema_version : ℕ
  pub id : String
  pub tenant_id : String
  pub operation_kind : String
  pub actor : OperationActor
  pub idempotency_key_hash : Option String
  pub primary : OperationStep
  pub side_effects : List OperationStep
  pub redacted_metadata : Value
  pub response_snapshot : Value
  pub created_at : Time

pub record OperationStepProgress : Type 0 where
  pub step_id : String
  pub status : OperationStepStatus
  pub attempts : ℕ  -- u32
  pub task_uids : List String
  pub last_error_category : Option String
  pub last_error_fingerprint : Option String
  pub updated_at : Time

pub record OperationProgress : Type 0 where
  pub attempt_count : ℕ  -- u32
  pub steps : Table OperationStepProgress

pub record OperationRecord : Type 0 where
  pub id : String
  pub tenant_id : String
  pub operation_kind : String
  pub actor_scope : OperationActorScope
  pub idempotency_key_hash : Option String
  pub plan : OperationPlan
  pub status : OperationStatus
  pub indexing_state : OperationIndexingState
  pub progress : OperationProgress
  pub created_at : Time
  pub updated_at : Time
  pub completed_at : Option Time
  pub last_error_category : Option String
  pub last_error_fingerprint : Option String

pub record PersistenceMetadata : Type 0 where
  pub operation_id : String
  pub status : OperationStatus
  pub indexing_state : OperationIndexingState
  pub primary_task_uids : List String
  pub task_uids : List String

pub record RepositoryWriteReceipt : Type 0 where
  pub task_uids : List String

pub record OperationSummary : Type 0 where
  pub id : String
  pub tenant_id : String
  pub operation_kind : String
  pub actor_scope : OperationActorScope
  pub idempotency_key_hash : Option String
  pub status : OperationStatus
  pub indexing_state : OperationIndexingState
  pub attempt_count : ℕ
  pub pending_steps : ℕ
  pub failed_steps : ℕ
  pub created_at : Time
  pub updated_at : Time
  pub completed_at : Option Time
  pub last_error_category : Option String
  pub last_error_fingerprint : Option String

pub record OperationListItem : Type 0 where
  pub summary : OperationSummary
  pub plan : Option OperationPlan
