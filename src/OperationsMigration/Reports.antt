-- ===== src/OperationsMigration/Reports.antt =====
-- The pure parts of the commands of src/operations_v1.rs: the guards, the plan that an observation
-- gives, and the reports.
use nowledge.Prelude.{
  is_blank, is_none_or, ℕ, String, same_text, Bool, true, false, not, ◌&&◌, ◌||◌, Option, List, [],
  ◌∷◌, ◌++◌, if◌then◌else◌, Result, ok, ◌>>◌, err, fail_if,
}
use nowledge.Json.Canonical.{Encoder, checksum_value}
use nowledge.Meili.Settings.{settings_for}
use nowledge.OperationsMigration.Plans.{
  migration_name, artifact_schema_version, target_index_uid, target_primary_key, IndexState,
  missing, already_present, primary_key_mismatch, PlannedAction, IndexInspection, ready_index,
  state, ObservedIndex, MigrationPlan, Failure, bail, same_state, same_inspection, action_for,
  compute_plan_checksum, validate_plan,
}

pub record PlanReport : Type 0 where
  pub mode : String
  pub migration : String
  pub plan_checksum : String
  pub index_uid : String
  pub observed_state : IndexState
  pub observed_created_at : Option String
  pub action : PlannedAction
  pub already_present : Bool
  pub settings_match : Bool
  pub mutation_free : Bool
  pub destructive : Bool

pub record ApplyReport : Type 0 where
  pub mode : String
  pub migration : String
  pub plan_checksum : String
  pub index_uid : String
  pub dry_run : Bool
  pub mutation_free : Bool
  pub pre_apply_state : IndexState
  pub already_present : Bool
  pub already_ready : Bool
  pub creation_performed : Bool
  pub settings_reconciled : Bool
  pub waited_task_count : ℕ
  pub ready_to_verify : Bool

pub record VerificationReport : Type 0 where
  pub mode : String
  pub migration : String
  pub plan_checksum : String
  pub index_uid : String
  pub planned_initial_state : IndexState
  pub already_present_at_plan : Bool
  pub index_present : Bool
  pub primary_key_match : Bool
  pub settings_match : Bool
  pub expected_created_at : Option String
  pub actual_created_at : Option String
  pub generation_match : Bool
  pub ready : Bool
  pub mutation_free : Bool
  pub failures : List String

unfoldable pub require_compatible_primary_key : IndexInspection → Result Failure (Unit {0})
unfolding same_state state
require_compatible_primary_key inspection =
    fail_if (same_state (state inspection) primary_key_mismatch) (
      bail
        "Meilisearch index rag_operations has an incompatible primary key; expected id; refusing non-destructive migration")

-- The check of `inspect` on the `createdAt` of an index that exists.
unfoldable pub require_generation : Option String → Result Failure (Unit {0})
unfolding is_blank
require_generation created_at =
    fail_if (is_none_or created_at is_blank)
      (bail "Meilisearch index rag_operations returned no valid createdAt generation")

-- The match of `require_planned_generation`: the state of the plan, whether the index exists, and
-- whether its `createdAt` is the planned one.
unfoldable pub planned_generation : IndexState → (exists same : Bool) → Result Failure (Unit {0})
planned_generation missing true same = err (
    bail
      "rag_operations was missing when the plan was created but is now present; refusing to adopt or reconcile an index that was not reviewed by this plan")
planned_generation missing false same = ok tt
planned_generation _ false same = err (
    bail
      "rag_operations existed when the plan was created but is now missing; refusing to hide possible data loss by recreating it")
planned_generation _ true false = err (
    bail
      "rag_operations createdAt does not match the generation bound by this plan; refusing same-UID replacement")
planned_generation _ true true = ok tt

unfoldable pub require_planned_generation :
    MigrationPlan → ObservedIndex → Result Failure (Unit {0})
unfolding planned_generation same_text
require_planned_generation plan observed =
    planned_generation plan.observed_state observed.inspection.exists
      (same_text observed.created_at plan.observed_created_at)

-- The plan before its checksum is computed.
unfoldable pub unsigned_plan : Encoder → ObservedIndex → MigrationPlan
unfolding state action_for checksum_value
unsigned_plan encoder observed = record {
  migration = migration_name;
  schema_version = artifact_schema_version;
  index_uid = target_index_uid;
  primary_key = target_primary_key;
  desired_settings = settings_for target_index_uid;
  desired_settings_checksum = checksum_value encoder (settings_for target_index_uid);
  observed_state = state observed.inspection;
  observed_created_at = observed.created_at;
  action = action_for (state observed.inspection);
  destructive = false;
  plan_checksum = "";
}

unfoldable pub signed_plan : Encoder → ObservedIndex → MigrationPlan
unfolding unsigned_plan compute_plan_checksum
signed_plan encoder observed =
    let plan = unsigned_plan encoder observed in
    record plan { plan_checksum = compute_plan_checksum encoder plan }

-- `create_plan` after its inspection.
unfoldable pub planned : Encoder → ObservedIndex → Result Failure MigrationPlan
unfolding require_compatible_primary_key signed_plan validate_plan
planned encoder observed = do
  require_compatible_primary_key observed.inspection
  validate_plan encoder (signed_plan encoder observed)
  ok (signed_plan encoder observed)

-- The guards of `apply_plan` on what it observes first.
unfoldable pub require_before_apply : MigrationPlan → ObservedIndex → Result Failure (Unit {0})
unfolding require_compatible_primary_key require_planned_generation
require_before_apply plan before = do
  require_compatible_primary_key before.inspection
  require_planned_generation plan before

-- The checks of `apply_plan` after its write, and what it then reports: the number of tasks it
-- waited for, and whether the plan may be verified.
unfoldable pub require_after_apply : MigrationPlan → ℕ → ObservedIndex → Result Failure (ℕ × Bool)
unfolding require_compatible_primary_key require_planned_generation same_inspection
require_after_apply plan waited after = do
  require_compatible_primary_key after.inspection
  if same_state plan.observed_state missing then ok tt else require_planned_generation plan after
  fail_if (not (same_inspection after.inspection ready_index))
      (bail "rag_operations did not reach the required index and settings state after apply")
  ok (waited, not (same_state plan.observed_state missing))

unfoldable pub plan_report : MigrationPlan → PlanReport
unfolding same_state
plan_report plan = record {
  mode = "plan";
  migration = plan.migration;
  plan_checksum = plan.plan_checksum;
  index_uid = plan.index_uid;
  observed_state = plan.observed_state;
  observed_created_at = plan.observed_created_at;
  action = plan.action;
  already_present = not (same_state plan.observed_state missing);
  settings_match = same_state plan.observed_state already_present;
  mutation_free = true;
  destructive = false;
}

unfoldable pub apply_report : MigrationPlan → Bool → IndexInspection → ℕ × Bool → ApplyReport
unfolding same_inspection state
apply_report plan dry_run before (waited, ready_to_verify) = record {
  mode = "apply";
  migration = migration_name;
  plan_checksum = plan.plan_checksum;
  index_uid = target_index_uid;
  dry_run = dry_run;
  mutation_free = dry_run || same_inspection before ready_index;
  pre_apply_state = state before;
  already_present = before.exists;
  already_ready = same_inspection before ready_index;
  creation_performed = not before.exists && not dry_run;
  settings_reconciled = before.exists && (not before.settings_match && not dry_run);
  waited_task_count = waited;
  ready_to_verify = ready_to_verify;
}

-- `if test { failures.push(text) }`.
abbrev failure_if : Bool → String → List String
failure_if true text = text ∷ []
failure_if false text = []

unfoldable pub index_failures : IndexInspection → List String
index_failures inspection =
    if inspection.exists
    then failure_if (not inspection.primary_key_match)
        "Meilisearch index rag_operations must use primary key id"
      ++ failure_if (inspection.primary_key_match && not inspection.settings_match)
          "managed settings for Meilisearch index rag_operations do not match"
    else "required Meilisearch index rag_operations is missing" ∷ []

unfoldable pub generation_failures : (planned_missing exists generation_match : Bool) → List String
generation_failures planned_missing exists generation_match =
    if planned_missing && exists
    then "rag_operations was missing in this plan; create a fresh post-create plan to bind the index createdAt before verification"
      ∷ []
    else failure_if (not planned_missing && not generation_match)
        "Meilisearch index rag_operations createdAt does not match the generation bound by this plan"

unfoldable pub verification_report : MigrationPlan → ObservedIndex → VerificationReport
unfolding index_failures generation_failures same_inspection same_state same_text
verification_report plan observed =
    let inspection = observed.inspection in
    let planned_missing = same_state plan.observed_state missing in
    let generation_match =
      not planned_missing && same_text observed.created_at plan.observed_created_at in
    record {
      mode = "verify";
      migration = migration_name;
      plan_checksum = plan.plan_checksum;
      index_uid = target_index_uid;
      planned_initial_state = plan.observed_state;
      already_present_at_plan = not planned_missing;
      index_present = inspection.exists;
      primary_key_match = inspection.exists && inspection.primary_key_match;
      settings_match = inspection.exists && inspection.settings_match;
      expected_created_at = plan.observed_created_at;
      actual_created_at = observed.created_at;
      generation_match = generation_match;
      ready = same_inspection inspection ready_index && generation_match;
      mutation_free = true;
      failures =
          index_failures inspection
          ++ generation_failures planned_missing inspection.exists generation_match;
    }
