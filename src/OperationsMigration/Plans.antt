-- ===== src/OperationsMigration/Plans.antt =====
-- The data of src/operations_v1.rs, and a plan: its action, its checksum and its validation.
use nowledge.Prelude.{
  ℕ, String, str_eq, Bool, true, false, not, ◌&&◌, ◌||◌, Option, none, some, ◌==◌, Result, ok, err,
  ◌>>◌, fail_if, is_blank,
}
use nowledge.Json.{Value, null, boolean, number, pos_int, string, object, end, insert_in}
use nowledge.Json.Equal.{same_value, same_bool}
use nowledge.Json.Canonical.{Encoder, checksum_value}
use nowledge.Meili.Settings.{settings_for}

abbrev pub migration_name : String
migration_name = "operations_v1"

abbrev pub artifact_schema_version : ℕ
artifact_schema_version = 2

abbrev pub target_index_uid : String
target_index_uid = "rag_operations"

abbrev pub target_primary_key : String
target_primary_key = "id"

pub data IndexState : Type 0 where
  missing already_present settings_drift primary_key_mismatch : IndexState

pub data PlannedAction : Type 0 where
  create unchanged reconcile_settings refuse : PlannedAction

pub record IndexInspection : Type 0 where
  pub exists : Bool
  pub primary_key_match : Bool
  pub settings_match : Bool

-- `IndexInspection::missing`, `ready`, `settings_drift` and `primary_key_mismatch`.
abbrev pub missing_index : IndexInspection
missing_index = record { exists = false; primary_key_match = false; settings_match = false }

abbrev pub ready_index : IndexInspection
ready_index = record { exists = true; primary_key_match = true; settings_match = true }

abbrev pub drifted_index : IndexInspection
drifted_index = record { exists = true; primary_key_match = true; settings_match = false }

abbrev pub mismatched_index : IndexInspection
mismatched_index = record { exists = true; primary_key_match = false; settings_match = false }

-- The match of `IndexInspection::state`.
unfoldable pub state_of : (exists primary_key_match settings_match : Bool) → IndexState
state_of false _ _ = missing
state_of true false _ = primary_key_mismatch
state_of true true true = already_present
state_of true true false = settings_drift

unfoldable pub state : IndexInspection → IndexState
unfolding state_of
state inspection = state_of inspection.exists inspection.primary_key_match inspection.settings_match

pub record ObservedIndex : Type 0 where
  pub inspection : IndexInspection
  pub created_at : Option String

pub record MigrationPlan : Type 0 where
  pub migration : String
  pub schema_version : ℕ
  pub index_uid : String
  pub primary_key : String
  pub desired_settings : Value
  pub desired_settings_checksum : String
  pub observed_state : IndexState
  pub observed_created_at : Option String
  pub action : PlannedAction
  pub destructive : Bool
  pub plan_checksum : String

-- `anyhow::Error`: a `bail!` with its text, or an error of the backend.
pub data Failure : Type 0 where
  bail : String → Failure
  backend_failed : String → Failure

-- The derived equalities, and the names under serde's `snake_case`.
unfoldable pub state_name : IndexState → String
state_name missing = "missing"
state_name already_present = "already_present"
state_name settings_drift = "settings_drift"
state_name primary_key_mismatch = "primary_key_mismatch"

unfoldable pub action_name : PlannedAction → String
action_name create = "create"
action_name unchanged = "none"
action_name reconcile_settings = "reconcile_settings"
action_name refuse = "refuse"

unfoldable pub same_state : IndexState → IndexState → Bool
same_state missing missing = true
same_state already_present already_present = true
same_state settings_drift settings_drift = true
same_state primary_key_mismatch primary_key_mismatch = true
same_state _ _ = false

unfoldable pub same_action : PlannedAction → PlannedAction → Bool
same_action create create = true
same_action unchanged unchanged = true
same_action reconcile_settings reconcile_settings = true
same_action refuse refuse = true
same_action _ _ = false

unfoldable pub same_inspection : IndexInspection → IndexInspection → Bool
unfolding same_bool
same_inspection a b =
    same_bool a.exists b.exists
    && (same_bool a.primary_key_match b.primary_key_match
        && same_bool a.settings_match b.settings_match)

unfoldable pub action_for : IndexState → PlannedAction
action_for missing = create
action_for already_present = unchanged
action_for settings_drift = reconcile_settings
action_for primary_key_mismatch = refuse

abbrev optional_text : Option String → Value
optional_text none = null
optional_text (some s) = string s

-- `serde_json::to_value(plan)` with the checksum replaced by the empty text.
unfoldable pub unsigned_value : MigrationPlan → Value
unfolding state_name action_name insert_in
unsigned_value plan = object (
    insert_in "migration" (string plan.migration) (
      insert_in "schema_version" (number (pos_int plan.schema_version)) (
        insert_in "index_uid" (string plan.index_uid) (
          insert_in "primary_key" (string plan.primary_key) (
            insert_in "desired_settings" plan.desired_settings (
              insert_in "desired_settings_checksum" (string plan.desired_settings_checksum) (
                insert_in "observed_state" (string (state_name plan.observed_state)) (
                  insert_in "observed_created_at" (optional_text plan.observed_created_at) (
                    insert_in "action" (string (action_name plan.action)) (
                      insert_in "destructive" (boolean plan.destructive)
                        (insert_in "plan_checksum" (string "") end)))))))))))

-- Which generations a plan may bind: none for a missing index, and a text that is not blank for one
-- that exists.
unfoldable pub validate_generation : IndexState → Option String → Result Failure (Unit {0})
unfolding is_blank
validate_generation missing none = ok tt
validate_generation missing (some _) =
    err (bail "operations_v1 missing-index plans cannot bind a createdAt generation")
validate_generation _ (some created_at) =
    fail_if (is_blank created_at)
      (bail "operations_v1 existing-index plans must bind a non-empty createdAt generation")
validate_generation _ none =
    err (bail "operations_v1 existing-index plans must bind a non-empty createdAt generation")

module _ (encoder : Encoder) where
  -- The serialisation of a plan cannot fail.
  unfoldable pub compute_plan_checksum : MigrationPlan → String
  unfolding unsigned_value checksum_value
  compute_plan_checksum plan = checksum_value encoder (unsigned_value plan)

  unfoldable pub validate_plan : MigrationPlan → Result Failure (Unit {0})
  unfolding validate_generation compute_plan_checksum same_state same_action
  validate_plan plan = do
    fail_if
        (not (str_eq plan.migration migration_name)
          || not (plan.schema_version == artifact_schema_version))
        (bail "unsupported operations_v1 migration plan version")
    fail_if
        (not (str_eq plan.index_uid target_index_uid)
          || not (str_eq plan.primary_key target_primary_key))
        (bail "operations_v1 may target only rag_operations with primary key id")
    fail_if plan.destructive (bail "operations_v1 refuses destructive migration plans")
    fail_if (same_state plan.observed_state primary_key_mismatch)
        (bail "operations_v1 refuses plans for an index with an incompatible primary key")
    validate_generation plan.observed_state plan.observed_created_at
    fail_if
        (not (same_value plan.desired_settings (settings_for target_index_uid))
          || not (
              str_eq plan.desired_settings_checksum
                (checksum_value encoder (settings_for target_index_uid))))
        (bail "operations_v1 plan settings do not match this binary")
    fail_if (not (same_action plan.action (action_for plan.observed_state)))
        (bail "operations_v1 plan action is inconsistent with its observed state")
    fail_if (not (str_eq plan.plan_checksum (compute_plan_checksum plan)))
        (bail "operations_v1 migration plan checksum does not match its contents")
