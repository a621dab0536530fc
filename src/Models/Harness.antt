-- ===== src/Models/Harness.antt =====
-- The records of src/models_harness_eval.rs.
use nowledge.Prelude.{ℕ, String, Option, List}
use nowledge.Json.{Value}
use nowledge.Models.Common.{Time}

pub record HarnessComponent : Type 0 where
  pub id : String
  pub tenant_id : String
  pub display_name : String
  pub component_kind : String
  pub description : String
  pub status : String
  pub current_revision_id : Option String
  pub created_at : Time
  pub updated_at : Time

pub record HarnessComponentRevision : Type 0 where
  pub id : String
  pub tenant_id : String
  pub component_id : String
  pub iteration : ℕ
  pub manifest_id : String
  pub files : List String
  pub content : Value
  pub status : String
  pub created_by : String
  pub created_at : Time

pub record HarnessChangeManifest : Type 0 where
  pub id : String
  pub tenant_id : String
  pub iteration : ℕ
  pub change_type : String
  pub component_id : String
  pub files : List String
  pub failure_pattern : String
  pub root_cause : String
  pub targeted_fix : String
  pub predicted_fixes : List String
  pub risk_cases : List String
  pub expected_metric_deltas : Value
  pub baseline_eval_run_id : Option String
  pub candidate_eval_run_id : Option String
  pub why_this_component : String
  pub created_by : String
  pub created_at : Time
  pub status : String

pub record HarnessChangeVerdict : Type 0 where
  pub id : String
  pub tenant_id : String
  pub change_id : String
  pub eval_run_id : Option String
  pub verdict : String
  pub predicted_fixes_confirmed : List String
  pub risk_cases_regressed : List String
  pub observed_metric_deltas : Value
  pub evidence : Value
  pub created_by : String
  pub created_at : Time
