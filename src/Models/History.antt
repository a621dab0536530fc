-- ===== src/Models/History.antt =====
-- The records of src/models_history.rs.
use nowledge.Prelude.{ℕ, String, Option, List}
use nowledge.Json.{Value}
use nowledge.Models.Common.{Time, SourceRef}

pub record UserEventIndex : Type 0 where
  pub id : String
  pub tenant_id : String
  pub tenant_hash : String
  pub owner_user_id_hash : String
  pub event_index_uid : String
  pub personal_context_index_uid : String
  pub schema_version : ℕ
  pub settings_hash : String
  pub status : String
  pub created_at : Time
  pub last_event_at : Option Time
  pub event_count_estimate : ℕ

pub record HistoryEvent : Type 0 where
  pub id : String
  pub event_type : String
  pub entity_type : String
  pub entity_id : String
  pub occurred_at : Time
  pub observed_at : Time
  pub source_kind : String
  pub source_ref : SourceRef
  pub text : String
  pub payload : Value
  pub tags : List String
  pub privacy : String
  pub tenant_id : String
  pub owner_user_id : String
  pub owner_user_id_hash : String
  pub event_index_uid : String
  pub event_index_schema_version : ℕ
  pub idempotency_key_hash : Option String
