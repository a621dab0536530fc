-- ===== src/OperationsMigration/Commands.antt =====
-- The commands of src/operations_v1.rs over a backend: `inspect`, `create_plan`, `apply_plan` and
-- `verify_plan`.
use nowledge.Prelude.{
  ℕ, String, same_text, Bool, true, false, Option, none, some, List, length, if◌then◌else◌,
}
use nowledge.Prelude.Effects.{Effect, ◌>>=◌, ◌>>◌, return, lift}
use nowledge.Json.Canonical.{Encoder}
use nowledge.OperationsMigration.Plans.{
  target_index_uid, target_primary_key, IndexInspection, missing_index, ready_index, drifted_index,
  mismatched_index, ObservedIndex, MigrationPlan, Failure, same_inspection, validate_plan,
}
use nowledge.OperationsMigration.Reports.{
  require_generation, ApplyReport, VerificationReport, planned, apply_report, verification_report,
  require_before_apply, require_after_apply,
}

-- `OperationsV1Backend`: a call may fail, and may find or leave another state.
pub record OperationsV1Backend (S : Type 0) : Type 0 where
  pub index_exists : String → Effect S Failure Bool
  pub index_primary_key : String → Effect S Failure (Option String)
  pub index_created_at : String → Effect S Failure (Option String)
  pub index_settings_match : String → Effect S Failure Bool
  pub create_index_strict : String → String → Bool → Effect S Failure (List String)
  pub reconcile_existing_index : String → String → Bool → Effect S Failure (List String)

module _ {S : Type 0} (backend : OperationsV1Backend S) where
  open backend use {
    index_exists, index_primary_key, index_created_at, index_settings_match, create_index_strict,
    reconcile_existing_index,
  }

  -- `inspect` after the primary key is found to be the right one.
  unfoldable pub inspect_settings : Option String → Effect S Failure ObservedIndex
  inspect_settings created_at = do
    matches ← index_settings_match target_index_uid
    return record {
      inspection = if matches then ready_index else drifted_index;
      created_at = created_at;
    }

  unfoldable pub inspect_key : Option String → Option String → Effect S Failure ObservedIndex
  unfolding inspect_settings same_text
  inspect_key created_at key =
      if same_text key (some target_primary_key)
      then inspect_settings created_at
      else return record { inspection = mismatched_index; created_at = created_at }

  unfoldable pub inspect_present : Option String → Effect S Failure ObservedIndex
  unfolding inspect_key require_generation
  inspect_present created_at = do
    lift (require_generation created_at)
    key ← index_primary_key target_index_uid
    inspect_key created_at key

  unfoldable pub inspect_existing : Bool → Effect S Failure ObservedIndex
  unfolding inspect_present
  inspect_existing false = return record { inspection = missing_index; created_at = none }
  inspect_existing true = do
    created_at ← index_created_at target_index_uid
    inspect_present created_at

  unfoldable pub inspect : Effect S Failure ObservedIndex
  unfolding inspect_existing
  inspect = do exists ← index_exists target_index_uid; inspect_existing exists

  -- The one call of `apply_plan` that writes; it answers the number of tasks it waited for.
  unfoldable pub provide_index : IndexInspection → Effect S Failure ℕ
  unfolding same_inspection
  provide_index before = if same_inspection before ready_index then return 0 else do
    task_uids ←
        if before.exists
        then reconcile_existing_index target_index_uid target_primary_key true
        else create_index_strict target_index_uid target_primary_key true
    return (length task_uids)

  module _ (encoder : Encoder) where
    unfoldable pub create_plan : Effect S Failure MigrationPlan
    unfolding inspect planned
    create_plan = do observed ← inspect; lift (planned encoder observed)

    -- The branch of `apply_plan` that is no dry run, up to `ready_to_verify`.
    unfoldable pub execute : MigrationPlan → IndexInspection → Effect S Failure (ℕ × Bool)
    unfolding provide_index inspect require_after_apply
    execute plan before = do
      waited ← provide_index before
      after ← inspect
      lift (require_after_apply plan waited after)

    -- The two values that the report takes from the run.
    unfoldable pub outcome_of : MigrationPlan → Bool → IndexInspection → Effect S Failure (ℕ × Bool)
    unfolding execute same_inspection
    outcome_of plan true before = return (0, same_inspection before ready_index)
    outcome_of plan false before = execute plan before

    unfoldable pub apply_observed :
        MigrationPlan → Bool → ObservedIndex → Effect S Failure ApplyReport
    unfolding outcome_of require_before_apply apply_report
    apply_observed plan dry_run before = do
      lift (require_before_apply plan before)
      outcome ← outcome_of plan dry_run before.inspection
      return (apply_report plan dry_run before.inspection outcome)

    unfoldable pub apply_plan : MigrationPlan → Bool → Effect S Failure ApplyReport
    unfolding apply_observed validate_plan
    apply_plan plan dry_run = do
      lift (validate_plan encoder plan)
      before ← inspect
      apply_observed plan dry_run before

    unfoldable pub verify_plan : MigrationPlan → Effect S Failure VerificationReport
    unfolding validate_plan inspect verification_report
    verify_plan plan = do
      lift (validate_plan encoder plan)
      observed ← inspect
      return (verification_report plan observed)
