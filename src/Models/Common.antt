-- ===== src/Models/Common.antt =====
-- Times, floats and the shared records of src/models_common.rs.
use nowledge.Prelude.{ℕ, String, Option}
use nowledge.Json.{Value}

-- `DateTime<Utc>`: only the order of times matters, so a time is a number.
abbrev pub Time : Type 0
Time = ℕ

-- An `f32` and an `f64`, by its bit pattern: the journal does not compute with them.
pub record Float32 : Type 0 where
  pub bits : ℕ

pub record Float64 : Type 0 where
  pub bits : ℕ

pub record SourceRef : Type 0 where
  pub kind : String
  pub id : String
  pub uri : Option String
  pub meta : Option Value

pub record ParseArtifactRef : Type 0 where
  pub id : String
  pub artifact_kind : String
  pub uri : String
  pub checksum : Option String
