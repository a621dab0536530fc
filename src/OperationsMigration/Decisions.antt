-- ===== src/OperationsMigration/Decisions.antt =====
-- What `apply_plan` may do to the index, as a decision on the plan and the index, and the decision
-- against the two guards of the command.
use nowledge.Prelude.{
  ℕ, Bool, true, false, not, ◌||◌, ◌≡◌, ◌≢◌, Option, none, some, arith, if◌then◌else◌, ok,
  same_text,
}
use nowledge.OperationsMigration.Plans.{
  target_index_uid, target_primary_key, missing, MigrationPlan, same_state, state,
}
use nowledge.OperationsMigration.Reports.{require_before_apply, planned_generation, apply_report}
use nowledge.OperationsMigration.Commands.{OperationsV1Backend, provide_index}
use nowledge.OperationsMigration.Reads.{Index, observe, inspected}

pub data Decision : Type 0 where
  denied left created reconciled : Decision

-- A present index is adopted only if it is the one that the plan was made for.
unfoldable pub decide : MigrationPlan → Bool → Option Index → Decision
unfolding same_state same_text
decide plan dry_run none =
    if same_state plan.observed_state missing then if dry_run then left else created else denied
decide plan dry_run (some index) =
    if same_state plan.observed_state missing
    then denied
    else if not (same_text index.primary_key (some target_primary_key))
    then denied
    else if not (same_text index.created_at plan.observed_created_at)
    then denied
    else if dry_run || index.settings_match
    then left
    else reconciled

-- The state after the one write that the decision stands for.
unfoldable pub performed : {S : Type 0} → OperationsV1Backend S → Decision → S → S
performed backend denied s = s
performed backend left s = s
performed backend created s =
    (backend.create_index_strict target_index_uid target_primary_key true s).1
performed backend reconciled s =
    (backend.reconcile_existing_index target_index_uid target_primary_key true s).1

-- The guards let a plan through exactly when it is not denied.
pub not_denied :
    (plan : MigrationPlan) (dry_run : Bool) (found : Option Index)
    → require_before_apply plan (observe found) ≡ ok tt
    → decide plan dry_run found ≢ denied
unfolding decide require_before_apply observe inspected state same_state planned_generation
not_denied plan dry_run none passes = ground arith
not_denied plan dry_run (some index) passes = ground arith

pub denied_fails :
    (plan : MigrationPlan) (dry_run : Bool) (found : Option Index)
    → decide plan dry_run found ≡ denied
    → require_before_apply plan (observe found) ≢ ok tt
unfolding decide require_before_apply observe inspected state same_state planned_generation
denied_fails plan dry_run none h passes = ground arith
denied_fails plan dry_run (some index) h passes = ground arith

-- After the guards, the write that is chosen by what was observed is the decided one.
pub performed_observed :
    {S : Type 0} (backend : OperationsV1Backend S) (plan : MigrationPlan) (found : Option Index)
    (s : S)
    → require_before_apply plan (observe found) ≡ ok tt
    → (provide_index backend (observe found).inspection s).1
      ≡ performed backend (decide plan false found) s
unfolding decide require_before_apply observe inspected state same_state planned_generation
    provide_index performed
performed_observed backend plan none s passes = ground arith
performed_observed backend plan (some index) s passes = ground arith

-- A dry run writes nothing.
pub performed_dry :
    {S : Type 0} (backend : OperationsV1Backend S) (plan : MigrationPlan) (found : Option Index)
    (s : S)
    → performed backend (decide plan true found) s ≡ s
unfolding decide performed
performed_dry backend plan none s = ground arith
performed_dry backend plan (some index) s = ground arith

abbrev pub is_left : Decision → Bool
is_left left = true
is_left _ = false

abbrev pub is_created : Decision → Bool
is_created created = true
is_created _ = false

abbrev pub is_reconciled : Decision → Bool
is_reconciled reconciled = true
is_reconciled _ = false

-- The flags of a report name the decision.
pub apply_report-decides :
    (plan : MigrationPlan) (dry_run : Bool) (found : Option Index) (outcome : ℕ × Bool)
    → require_before_apply plan (observe found) ≡ ok tt
    → let report = apply_report plan dry_run (observe found).inspection outcome in
      let decision = decide plan dry_run found in
      (report.mutation_free ≡ is_left decision)
      × (report.creation_performed ≡ is_created decision)
      × (report.settings_reconciled ≡ is_reconciled decision)
unfolding decide require_before_apply observe inspected state same_state planned_generation
    apply_report
apply_report-decides plan dry_run none outcome passes = ground arith
apply_report-decides plan dry_run (some index) outcome passes = ground arith
