-- ===== src/Meili/Indexes.antt =====
-- The settings that `settings_for` of src/meili.rs names for each index, before the attributes that
-- it adds to all of them.
use nowledge.Prelude.{String, List, [], ◌∷◌}
use nowledge.Json.{Value, string, array, object, Items, nil, cons, Fields, end, field}

-- `ENGLISH_STOP_WORDS` of src/util.rs.
abbrev pub english_stop_words : List String
english_stop_words =
    "a" ∷ "about" ∷ "after" ∷ "all" ∷ "also" ∷ "am" ∷ "an" ∷ "and" ∷ "any" ∷ "are" ∷ "as" ∷ "at"
    ∷ "be" ∷ "because" ∷ "been" ∷ "before" ∷ "being" ∷ "between" ∷ "both" ∷ "but" ∷ "by" ∷ "can"
    ∷ "could" ∷ "did" ∷ "do" ∷ "does" ∷ "doing" ∷ "during" ∷ "each" ∷ "for" ∷ "from" ∷ "had" ∷ "has"
    ∷ "have" ∷ "having" ∷ "he" ∷ "her" ∷ "here" ∷ "hers" ∷ "him" ∷ "his" ∷ "how" ∷ "i" ∷ "if" ∷ "in"
    ∷ "into" ∷ "is" ∷ "it" ∷ "its" ∷ "itself" ∷ "just" ∷ "me" ∷ "more" ∷ "most" ∷ "my" ∷ "of" ∷ "on"
    ∷ "or" ∷ "other" ∷ "our" ∷ "ours" ∷ "please" ∷ "she" ∷ "should" ∷ "so" ∷ "some" ∷ "such"
    ∷ "than" ∷ "that" ∷ "the" ∷ "their" ∷ "theirs" ∷ "them" ∷ "then" ∷ "there" ∷ "these" ∷ "they"
    ∷ "this" ∷ "those" ∷ "through" ∷ "to" ∷ "too" ∷ "us" ∷ "very" ∷ "was" ∷ "we" ∷ "were" ∷ "what"
    ∷ "when" ∷ "where" ∷ "which" ∷ "while" ∷ "who" ∷ "whom" ∷ "why" ∷ "will" ∷ "with" ∷ "would"
    ∷ "you" ∷ "your" ∷ "yours" ∷ []

abbrev pub texts : List String → Items
texts [] = nil
texts (s ∷ ss) = cons (string s) (texts ss)

-- The object that `json!` builds, its keys in order.
abbrev attributes : (searchable filterable sortable : List String) → Fields → Value
attributes searchable filterable sortable rest = object (
    field "filterableAttributes" (array (texts filterable)) (
      field "searchableAttributes" (array (texts searchable))
        (field "sortableAttributes" (array (texts sortable)) rest)))

abbrev pub default_settings : Value
default_settings =
    attributes ("title" ∷ "statement" ∷ "text" ∷ "content" ∷ "id" ∷ [])
      ("id" ∷ "tenant_id" ∷ "owner_user_id" ∷ "snapshot_id" ∷ "dataset_key" ∷ "status" ∷ "privacy"
        ∷ "source_id" ∷ "revision_id" ∷ [])
      ("created_at" ∷ "updated_at" ∷ "occurred_at" ∷ []) end

abbrev pub audit_records_settings : Value
audit_records_settings =
    attributes ("action" ∷ "reason_code" ∷ "error_kind" ∷ [])
      ("id" ∷ "logical_id" ∷ "tenant_id" ∷ "request_id" ∷ "principal_scope"
        ∷ "principal_owner_user_id_hash" ∷ "resource_id_hash" ∷ "action" ∷ "reason_code" ∷ "outcome"
        ∷ "error_kind" ∷ "operation_id" ∷ "occurred_at" ∷ "updated_at" ∷ [])
      ("occurred_at" ∷ "updated_at" ∷ "id" ∷ []) end

abbrev pub operations_settings : Value
operations_settings =
    attributes
      ("operation_kind" ∷ "idempotency_key_hash" ∷ "last_error_category" ∷ "last_error_fingerprint"
        ∷ [])
      ("id" ∷ "tenant_id" ∷ "operation_kind" ∷ "actor_scope" ∷ "status" ∷ "indexing_state"
        ∷ "idempotency_key_hash" ∷ [])
      ("created_at" ∷ "updated_at" ∷ "completed_at" ∷ []) end

abbrev pub context_settings : Value
context_settings =
    attributes ("title" ∷ "body" ∷ "uri" ∷ [])
      ("id" ∷ "uri" ∷ "tenant_id" ∷ "owner_user_id" ∷ "index_uid" ∷ "index_kind" ∷ "layer"
        ∷ "ancestor_uris" ∷ "status" ∷ "privacy" ∷ "source_id" ∷ "revision_id" ∷ "node_kind"
        ∷ "retrieval_role" ∷ "retrieval_enabled" ∷ "parent_uri" ∷ "source_document_uri"
        ∷ "fragment_index" ∷ "block_type" ∷ "page_idx" ∷ "heading_level"
        ∷ "artifact_refs.artifact_kind" ∷ "section_path_trigrams" ∷ [])
      ("updated_at" ∷ "layer" ∷ []) (field "stopWords" (array (texts english_stop_words)) end)

abbrev pub source_documents_settings : Value
source_documents_settings =
    attributes ("title" ∷ "source_id" ∷ "revision_id" ∷ "uri" ∷ [])
      ("id" ∷ "tenant_id" ∷ "owner_user_id" ∷ "source_kind" ∷ "source_id" ∷ "revision_id" ∷ "uri"
        ∷ "status" ∷ "retrieval_enabled" ∷ [])
      ("created_at" ∷ "updated_at" ∷ []) end

abbrev pub parse_artifacts_settings : Value
parse_artifacts_settings =
    attributes ("source_document_uri" ∷ "source_id" ∷ "revision_id" ∷ "artifact_kind" ∷ "uri" ∷ [])
      ("id" ∷ "tenant_id" ∷ "owner_user_id" ∷ "source_document_uri" ∷ "source_id" ∷ "revision_id"
        ∷ "parser_provider" ∷ "parser_backend" ∷ "artifact_kind" ∷ "uri" ∷ [])
      ("created_at" ∷ []) end

abbrev pub events_settings : Value
events_settings =
    attributes ("text" ∷ "event_type" ∷ "entity_type" ∷ "entity_id" ∷ "tags" ∷ [])
      ("id" ∷ "tenant_id" ∷ "owner_user_id_hash" ∷ "event_type" ∷ "entity_type" ∷ "entity_id"
        ∷ "privacy" ∷ "occurred_at" ∷ "observed_at" ∷ [])
      ("occurred_at" ∷ "observed_at" ∷ []) end

abbrev pub links_settings : Value
links_settings =
    attributes
      ("source_uri" ∷ "target_uri" ∷ "source_title" ∷ "target_title" ∷ "relation" ∷ "rationale"
        ∷ "evidence_text" ∷ "tags" ∷ [])
      ("id" ∷ "tenant_id" ∷ "owner_user_id" ∷ "source_uri" ∷ "target_uri" ∷ "relation" ∷ "status"
        ∷ "created_by" ∷ [])
      ("created_at" ∷ "updated_at" ∷ []) end

abbrev pub harness_components_settings : Value
harness_components_settings =
    attributes
      ("id" ∷ "display_name" ∷ "description" ∷ "component_id" ∷ "manifest_id" ∷ "files"
        ∷ "created_by" ∷ [])
      ("id" ∷ "tenant_id" ∷ "doc_kind" ∷ "component_id" ∷ "status" ∷ "component_kind"
        ∷ "manifest_id" ∷ "created_by" ∷ [])
      ("logical_id" ∷ "created_at" ∷ "updated_at" ∷ "iteration" ∷ []) end

abbrev pub harness_changes_settings : Value
harness_changes_settings =
    attributes
      ("id" ∷ "component_id" ∷ "failure_pattern" ∷ "root_cause" ∷ "targeted_fix" ∷ "predicted_fixes"
        ∷ "risk_cases" ∷ "why_this_component" ∷ "created_by" ∷ [])
      ("id" ∷ "tenant_id" ∷ "component_id" ∷ "type" ∷ "status" ∷ "created_by" ∷ [])
      ("created_at" ∷ "iteration" ∷ []) end

abbrev pub harness_verdicts_settings : Value
harness_verdicts_settings =
    attributes
      ("id" ∷ "change_id" ∷ "verdict" ∷ "predicted_fixes_confirmed" ∷ "risk_cases_regressed"
        ∷ "created_by" ∷ [])
      ("id" ∷ "tenant_id" ∷ "change_id" ∷ "eval_run_id" ∷ "verdict" ∷ "created_by" ∷ [])
      ("created_at" ∷ []) end

abbrev pub ingest_tasks_settings : Value
ingest_tasks_settings =
    attributes
      ("task_id" ∷ "source_id" ∷ "revision_id" ∷ "parser_provider" ∷ "parser_backend" ∷ "error"
        ∷ [])
      ("id" ∷ "task_id" ∷ "tenant_id" ∷ "owner_user_id" ∷ "source_id" ∷ "revision_id" ∷ "state"
        ∷ "parser_provider" ∷ "parser_backend" ∷ [])
      ("created_at" ∷ "updated_at" ∷ "completed_at" ∷ []) end

abbrev pub ingest_results_settings : Value
ingest_results_settings =
    attributes
      ("task_id" ∷ "source_id" ∷ "revision_id" ∷ "source_document_uri" ∷ "fragment_uris"
        ∷ "context_uris" ∷ [])
      ("id" ∷ "task_id" ∷ "tenant_id" ∷ "owner_user_id" ∷ "source_id" ∷ "revision_id" ∷ [])
      ("created_at" ∷ "updated_at" ∷ []) end

abbrev pub eval_cases_settings : Value
eval_cases_settings =
    attributes
      ("id" ∷ "question" ∷ "expected_context_uris" ∷ "expected_source_document_uris"
        ∷ "expected_answer_contains" ∷ "tags" ∷ [])
      ("id" ∷ "tenant_id" ∷ "owner_user_id" ∷ "tags" ∷ []) ("created_at" ∷ []) end

abbrev pub eval_runs_settings : Value
eval_runs_settings =
    attributes ("id" ∷ "change_id" ∷ "case_ids" ∷ "status" ∷ "created_by" ∷ [])
      ("id" ∷ "tenant_id" ∷ "change_id" ∷ "status" ∷ "created_by" ∷ [])
      ("created_at" ∷ "completed_at" ∷ []) end

abbrev pub eval_case_results_settings : Value
eval_case_results_settings =
    attributes
      ("id" ∷ "run_id" ∷ "case_id" ∷ "status" ∷ "question" ∷ "answer" ∷ "failures"
        ∷ "guard_failures" ∷ [])
      ("id" ∷ "run_id" ∷ "case_id" ∷ "owner_user_id" ∷ "status" ∷ "failures" ∷ "guard_failures"
        ∷ [])
      ("created_at" ∷ "latency_ms" ∷ []) end

abbrev pub traces_settings : Value
traces_settings =
    attributes ("title" ∷ "statement" ∷ "text" ∷ "content" ∷ "id" ∷ [])
      ("id" ∷ "tenant_id" ∷ "owner_user_id" ∷ "created_at" ∷ "created_at_ms" ∷ [])
      ("created_at" ∷ "created_at_ms" ∷ []) end

abbrev pub eval_overviews_settings : Value
eval_overviews_settings =
    attributes ("run_id" ∷ "status" ∷ "overview_markdown" ∷ "suggested_target_component" ∷ [])
      ("id" ∷ "run_id" ∷ "status" ∷ "suggested_target_component" ∷ []) ("generated_at" ∷ []) end
