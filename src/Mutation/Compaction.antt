-- ===== src/Mutation/Compaction.antt =====
-- Compaction of a settled operation (src/mutation.rs): the content bodies of its plan are cleared,
-- and each step's serialized size and keyed fingerprint are recorded in the plan's metadata.
-- `serde_json::to_string` and the caller's fingerprint are parameters.
pub mod Bodies
pub mod Valid
use Prim.Native.String.{len}
use nowledge.Prelude.{
  ℕ, String, str_eq, Bool, true, false, ◌||◌, not, Option, none, some, List, [], ◌∷◌, map, Result,
  ok, err, ◌>>=◌, ◌>>◌, format, if◌then◌else◌,
}
use nowledge.Json.{
  pos_int, Value, null, boolean, number, string, array, object, Fields, end, field, insert_in,
  retain,
}
use nowledge.Models.History.{HistoryEvent}
use nowledge.Models.Context.{ContextNode, TraceRecord}
use nowledge.Models.Knowledge.{StateItem, InsightRecord, KnowledgeLink, SessionRecord}
use nowledge.Models.Documents.{SourceRevision, SourceDocument, IngestTaskResult}
use nowledge.Models.Harness.{HarnessComponentRevision, HarnessChangeVerdict}
use nowledge.Models.Evaluation.{RagEvalCaseResult, RagEvalOverview}
use nowledge.Models.Operations.{OperationResource, OperationStep, OperationPlan, OperationRecord}
use nowledge.Mutation.Checks.{Checked, invalid_plan}
use nowledge.Mutation.Records.{
  compacted_payloads_metadata_key, operation_is_settled, operation_is_compacted,
  validate_operation_record,
}

unfoldable pub clear_event : HistoryEvent → HistoryEvent
clear_event event = record event { text = ""; payload = null }

unfoldable pub clear_node : ContextNode → ContextNode
clear_node node = record node { body = "" }

unfoldable pub clear_document : SourceDocument → SourceDocument
clear_document document = record document { content = "" }

unfoldable pub is_row_identity : String → Bool
is_row_identity key =
    str_eq key "id"
    || str_eq key "snapshot_id"
    || str_eq key "tenant_id"
    || str_eq key "owner_user_id"

unfoldable pub clear_row : Value → Value
unfolding is_row_identity
clear_row (object fields) = object (retain is_row_identity fields)
clear_row _ = null

unfoldable pub clear_link : KnowledgeLink → KnowledgeLink
clear_link link = record link { evidence_text = none }

unfoldable pub clear_revision : HarnessComponentRevision → HarnessComponentRevision
clear_revision revision = record revision { content = null }

unfoldable pub clear_verdict : HarnessChangeVerdict → HarnessChangeVerdict
clear_verdict verdict = record verdict { evidence = null }

unfoldable pub clear_case_result : RagEvalCaseResult → RagEvalCaseResult
clear_case_result result = record result { answer = "" }

unfoldable pub clear_resource_bodies : OperationResource → OperationResource
unfolding clear_event clear_node clear_document clear_row clear_link clear_revision clear_verdict
    clear_case_result
clear_resource_bodies (OperationResource.history_events events) =
    OperationResource.history_events (map clear_event events)
clear_resource_bodies (OperationResource.context_nodes index_uid nodes) =
    OperationResource.context_nodes index_uid (map clear_node nodes)
clear_resource_bodies (OperationResource.state_item item) =
    OperationResource.state_item (record item { statement = ""; value = null })
clear_resource_bodies (OperationResource.insight entry) =
    OperationResource.insight (record entry { statement = "" })
clear_resource_bodies (OperationResource.source_revision revision) =
    OperationResource.source_revision (record revision { content = "" })
clear_resource_bodies (OperationResource.source_documents documents) =
    OperationResource.source_documents (map clear_document documents)
clear_resource_bodies (OperationResource.structured_rows rows) =
    OperationResource.structured_rows (map clear_row rows)
clear_resource_bodies (OperationResource.session entry) =
    OperationResource.session (record entry { messages = [] })
clear_resource_bodies (OperationResource.links entries) =
    OperationResource.links (map clear_link entries)
clear_resource_bodies (OperationResource.trace entry) =
    OperationResource.trace (record entry { stages = [] })
clear_resource_bodies (OperationResource.harness_components components edits) =
    OperationResource.harness_components components (map clear_revision edits)
clear_resource_bodies (OperationResource.harness_verdicts verdicts) =
    OperationResource.harness_verdicts (map clear_verdict verdicts)
clear_resource_bodies (OperationResource.ingest_result result) =
    OperationResource.ingest_result (record result { parsed_blocks = [] })
clear_resource_bodies (OperationResource.eval_case_results results) =
    OperationResource.eval_case_results (map clear_case_result results)
clear_resource_bodies (OperationResource.eval_overview overview) =
    OperationResource.eval_overview (record overview { overview_markdown = "" })
clear_resource_bodies resource = resource

unfoldable pub clear_step : OperationStep → OperationStep
clear_step step = record step { resource = clear_resource_bodies step.resource }

-- `match &plan.redacted_metadata { Object(m) => m.clone(), Null => Map::new(), _ => error }`.
unfoldable pub metadata_fields : Value → Checked Fields
metadata_fields (object fields) = ok fields
metadata_fields null = ok end
metadata_fields _ = err (invalid_plan "operation metadata must be an object")

-- The plan with its bodies cleared and the digests in its metadata.
unfoldable pub compacted_plan : OperationPlan → Fields → Fields → OperationPlan
compacted_plan plan metadata digests = record plan {
  primary = clear_step plan.primary;
  side_effects = map clear_step plan.side_effects;
  redacted_metadata = object (insert_in compacted_payloads_metadata_key (object digests) metadata);
}

-- `json!({ "bytes": …, "fingerprint": … })`.
unfoldable pub digest : (String → String) → String → Value
digest fingerprint serialized = object (
    field "bytes" (number (pos_int (len serialized)))
      (field "fingerprint" (string (fingerprint serialized)) end))

unfoldable pub serialized_step : OperationStep → Result String String → Checked String
serialized_step step (ok text) = ok text
serialized_step step (err error) =
    err
      (invalid_plan (format ("step `" ∷ step.id ∷ "` resource is not serializable: " ∷ error ∷ [])))

-- The payload's serializer, which may fail, and the caller's keyed fingerprint.
module _ (to_string : OperationResource → Result String String)
    (fingerprint : String → String) where
  unfoldable pub collect_digests : Fields → List OperationStep → Checked Fields
  collect_digests digests [] = ok digests
  collect_digests digests (step ∷ rest) = serialized_step step (to_string step.resource) >>= λ text.
      collect_digests (insert_in step.id (digest fingerprint text) digests) rest

  unfoldable pub compact : OperationRecord → Checked (Option OperationRecord)
  compact entry = do
    metadata ← metadata_fields entry.plan.redacted_metadata
    digests ← collect_digests end (entry.plan.primary ∷ entry.plan.side_effects)
    let compacted = record entry { plan = compacted_plan entry.plan metadata digests }
    validate_operation_record compacted
    ok (some compacted)

  unfoldable pub compact_settled_operation : OperationRecord → Checked (Option OperationRecord)
  compact_settled_operation entry =
      if not (operation_is_settled entry) || operation_is_compacted entry
      then ok none
      else compact entry
