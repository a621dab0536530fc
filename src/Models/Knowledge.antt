-- ===== src/Models/Knowledge.antt =====
-- The records of src/models_state.rs, src/models_insights_links_analysis.rs and src/models_sessions.rs.
use nowledge.Prelude.{ℕ, String, Option, List}
use nowledge.Json.{Value}
use nowledge.Models.Common.{Time, Float32, SourceRef}

pub record StateItem : Type 0 where
  pub id : String
  pub tenant_id : String
  pub owner_user_id : String
  pub state_type : String
  pub natural_key : String
  pub title : String
  pub statement : String
  pub value : Value
  pub status : String
  pub confidence : Float32
  pub salience : Float32
  pub valid_from : Option Time
  pub valid_to : Option Time
  pub source_refs : List SourceRef
  pub context_uri : String
  pub current_version : ℕ
  pub supersedes : List String
  pub created_at : Time
  pub updated_at : Time

pub record InsightRecord : Type 0 where
  pub id : String
  pub tenant_id : String
  pub insight_type : String
  pub title : String
  pub statement : String
  pub status : String
  pub confidence : Float32
  pub salience : Float32
  pub context_uri : String
  pub source_refs : List SourceRef
  pub owner_user_id : String
  pub privacy : String
  pub created_at : Time
  pub updated_at : Time

pub record KnowledgeLink : Type 0 where
  pub id : String
  pub tenant_id : String
  pub owner_user_id : Option String
  pub source_uri : String
  pub target_uri : String
  pub source_title : Option String
  pub target_title : Option String
  pub relation : String
  pub rationale : Option String
  pub evidence_text : Option String
  pub confidence : Float32
  pub created_by : String
  pub status : String
  pub tags : List String
  pub created_at : Time
  pub updated_at : Time

pub record SessionRecord : Type 0 where
  pub id : String
  pub tenant_id : String
  pub owner_user_id : String
  pub title : String
  pub status : String
  pub messages : List Value
  pub created_at : Time
