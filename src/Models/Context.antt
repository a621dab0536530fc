-- ===== src/Models/Context.antt =====
-- The records of src/models_context_rag_llm.rs.
use nowledge.Prelude.{ℕ, String, Bool, Option, List}
use nowledge.Json.{Value}
use nowledge.Models.Common.{Time, Float32, ParseArtifactRef}

pub record ContextNode : Type 0 where
  pub uri : String
  pub title : String
  pub layer : ℕ
  pub body : String
  pub tenant_id : String
  pub owner_user_id : Option String
  pub index_uid : String
  pub index_kind : String
  pub ancestor_uris : List String
  pub node_kind : String
  pub retrieval_role : String
  pub retrieval_enabled : Bool
  pub parent_uri : Option String
  pub source_document_uri : Option String
  pub fragment_index : Option ℕ
  pub char_start : Option ℕ
  pub char_end : Option ℕ
  pub token_estimate : Option ℕ
  pub checksum : Option String
  pub source_id : Option String
  pub revision_id : Option String
  pub block_type : Option String
  pub page_idx : Option ℕ
  pub bbox : Option Value
  pub section_path : List String
  pub heading_level : Option ℕ
  pub asset_refs : List String
  pub artifact_refs : List ParseArtifactRef
  pub status : String
  pub privacy : String
  pub updated_at : Time

pub record TraceRecord : Type 0 where
  pub id : String
  pub tenant_id : String
  pub owner_user_id : Option String
  pub query : String
  pub mode : String
  pub stages : List Value
  pub context_uris : List String
  pub created_at : Time

pub record Citation : Type 0 where
  pub uri : String
  pub node_kind : Option String
  pub retrieval_role : Option String
  pub source_id : Option String
  pub revision_id : Option String
  pub source_document_uri : Option String
  pub source_title : Option String
  pub block_type : Option String
  pub page_idx : Option ℕ
  pub bbox : Option Value
  pub section_path : List String
  pub heading_level : Option ℕ
  pub asset_refs : List String
  pub artifact_refs : List ParseArtifactRef
  pub fragment_index : Option ℕ
  pub char_start : Option ℕ
  pub char_end : Option ℕ
  pub checksum : Option String
  pub title : String
  pub quote : String
  pub score : Float32
