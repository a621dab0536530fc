-- ===== src/Models/Evaluation.antt =====
-- The records of src/models_harness_eval.rs, the evaluation records.
use nowledge.Prelude.{ℕ, String, Bool, Option, List}
use nowledge.Json.{Value}
use nowledge.Models.Common.{Time, Float64}
use nowledge.Models.Context.{Citation}

pub record RagEvalCase : Type 0 where
  pub id : String
  pub tenant_id : String
  pub owner_user_id : Option String
  pub question : String
  pub expected_context_uris : List String
  pub expected_source_document_uris : List String
  pub expected_answer_contains : List String
  pub tags : List String
  pub metadata : Value
  pub created_at : Time

pub record RagEvalMetrics : Type 0 where
  pub pass_rate : Float64
  pub retrieval_recall_at_5 : Float64
  pub citation_precision : Float64
  pub traceback_success_rate : Float64
  pub source_doc_leak_rate : Float64
  pub acl_violation_rate : Float64
  pub stale_fragment_rate : Float64
  pub state_history_consistency_rate : Float64
  pub llm_health_false_ready_rate : Float64
  pub tokens_per_answer : Float64
  pub latency_p95 : Float64

pub record RegressionGuardResult : Type 0 where
  pub name : String
  pub passed : Bool
  pub evidence : Value

pub record RagEvalRun : Type 0 where
  pub id : String
  pub tenant_id : String
  pub change_id : Option String
  pub case_ids : List String
  pub result_ids : List String
  pub trace_ids : List String
  pub status : String
  pub metrics : RagEvalMetrics
  pub guard_results : List RegressionGuardResult
  pub overview_source_document_uri : Option String
  pub report_source_document_uris : List String
  pub created_by : String
  pub created_at : Time
  pub completed_at : Option Time

pub record RagEvalCaseResult : Type 0 where
  pub id : String
  pub tenant_id : String
  pub run_id : String
  pub case_id : String
  pub owner_user_id : Option String
  pub status : String
  pub question : String
  pub trace_id : String
  pub answer : String
  pub citations : List Citation
  pub retrieved_uris : List String
  pub source_document_uris : List String
  pub failures : List String
  pub guard_failures : List String
  pub metrics : Value
  pub latency_ms : ℕ
  pub created_at : Time

pub record FailurePatternCluster : Type 0 where
  pub pattern : String
  pub count : ℕ
  pub case_ids : List String
  pub suggested_target_component : String
  pub root_cause_notes : List String

pub record RagEvalOverview : Type 0 where
  pub tenant_id : String
  pub run_id : String
  pub status : String
  pub metrics : RagEvalMetrics
  pub failure_patterns : List FailurePatternCluster
  pub suggested_target_component : String
  pub root_cause_notes : List String
  pub overview_markdown : String
  pub case_report_uris : List String
  pub overview_source_document_uri : Option String
  pub generated_at : Time
