-- ===== src/Models/Documents.antt =====
-- The records of src/models_company_docs.rs and src/models_ingest.rs.
use nowledge.Prelude.{ℕ, String, Bool, Option, List}
use nowledge.Json.{Value}
use nowledge.Models.Common.{Time}

pub record CompanySource : Type 0 where
  pub id : String
  pub tenant_id : String
  pub title : String
  pub canonical_key : String
  pub source_uri : String
  pub active_revision_id : Option String

pub record SourceRevision : Type 0 where
  pub id : String
  pub tenant_id : String
  pub source_id : String
  pub title : String
  pub source_uri : String
  pub checksum : String
  pub content : String
  pub status : String
  pub created_at : Time

pub record SourceDocument : Type 0 where
  pub id : String
  pub tenant_id : String
  pub owner_user_id : Option String
  pub source_kind : String
  pub source_id : String
  pub revision_id : String
  pub uri : String
  pub title : String
  pub content : String
  pub checksum : String
  pub status : String
  pub retrieval_enabled : Bool
  pub created_at : Time
  pub updated_at : Time

pub record ParseArtifact : Type 0 where
  pub id : String
  pub tenant_id : String
  pub owner_user_id : Option String
  pub source_document_uri : String
  pub source_id : String
  pub revision_id : String
  pub parser_provider : String
  pub parser_backend : String
  pub parser_version : Option String
  pub artifact_kind : String
  pub uri : String
  pub checksum : String
  pub byte_size : ℕ
  pub created_at : Time

pub record ParsedBlock : Type 0 where
  pub block_id : String
  pub block_type : String
  pub page_idx : Option ℕ
  pub bbox : Option Value
  pub text : Option String
  pub html : Option String
  pub latex : Option String
  pub image_ref : Option String
  pub caption : Option String
  pub footnote : Option String
  pub text_level : Option ℕ
  pub section_path : List String
  pub reading_order : ℕ

pub record IngestTask : Type 0 where
  pub task_id : String
  pub tenant_id : String
  pub owner_user_id : Option String
  pub source_id : String
  pub revision_id : String
  pub source_document_uri : Option String
  pub parser_provider : String
  pub parser_backend : String
  pub state : String
  pub error : Option String
  pub created_at : Time
  pub updated_at : Time
  pub completed_at : Option Time
  pub status_url : Option String
  pub result_url : Option String
  pub queued_ahead : Option ℕ

pub record IngestTaskResult : Type 0 where
  pub task : IngestTask
  pub source_document_uri : String
  pub source_id : String
  pub revision_id : String
  pub parse_artifacts : List ParseArtifact
  pub parsed_blocks : List ParsedBlock
  pub fragment_uris : List String
  pub context_uris : List String
