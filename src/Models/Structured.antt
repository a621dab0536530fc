-- ===== src/Models/Structured.antt =====
-- The records of src/models_structured.rs.
use nowledge.Prelude.{ℕ, String, Bool, Option, List}
use nowledge.Models.Common.{Time}

pub record StructuredSnapshot : Type 0 where
  pub id : String
  pub tenant_id : String
  pub dataset_key : String
  pub owner_user_id : String
  pub period_key : String
  pub period_start : Time
  pub period_end : Time
  pub row_count : ℕ
  pub status : String

pub record DatasetColumn : Type 0 where
  pub name : String
  pub kind : String
  pub required : Bool
  pub semantic_role : Option String
  pub trend_direction : Option String

pub record DatasetRecord : Type 0 where
  pub id : String
  pub tenant_id : String
  pub dataset_key : String
  pub title : String
  pub schema_version : ℕ
  pub status : String
  pub columns : List DatasetColumn
