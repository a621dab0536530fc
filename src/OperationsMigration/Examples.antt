-- ===== src/OperationsMigration/Examples.antt =====
-- The migration operations_v1 against an index in memory.
use nowledge.Prelude.{
  String, true, false, ◌≡◌, ◌≢◌, ap, refl, Option, none, some, is_some, List, [], ◌∷◌, Result, ok,
  err, is_blank,
}
use nowledge.Json.Equal.{same_value}
use nowledge.Meili.Settings.{settings_for}
use nowledge.Json.Canonical.{Encoder}
use nowledge.OperationsMigration.Plans.{MigrationPlan, Failure, target_index_uid, backend_failed}
use nowledge.OperationsMigration.Reports.{
  ApplyReport, VerificationReport, signed_plan, apply_report, verification_report,
}
use nowledge.OperationsMigration.Commands.{
  OperationsV1Backend, create_plan, apply_plan, verify_plan,
}
use nowledge.OperationsMigration.Reads.{Index, IsFaithful, observe, Reads-answers}
use nowledge.OperationsMigration.Decisions.{
  denied, decide, performed, is_left, is_created, is_reconciled,
}
use nowledge.OperationsMigration.Refines.{apply_plan-refines}
use nowledge.OperationsMigration.Refusals.{apply_plan-refuses}
use nowledge.OperationsMigration.Verified.{verified_after_apply}
use nowledge.OperationsMigration.Converges.{IsResponsive, migration_succeeds}

abbrev encoder : Encoder
encoder = record { quoted = λ s. s; number_text = λ n. "n"; sha256_hex = λ s. s }

abbrev Memory : Type 0
Memory = Option Index

abbrev made : Index
made = record { primary_key = some "id"; created_at = some "2026-01-01"; settings_match = true }

abbrev drifted : Index
drifted = record { primary_key = some "id"; created_at = some "2025-01-01"; settings_match = false }

of_index : {A : Type 0} → (Index → A) → A → Memory → Result Failure A × Memory
of_index read default none = (ok default, none)
of_index read default (some index) = (ok (read index), some index)

create_in : Memory → Result Failure (List String) × Memory
create_in none = (ok ("1" ∷ "2" ∷ []), some made)
create_in (some index) = (err (backend_failed "index_already_exists"), some index)

reconcile_in : Memory → Result Failure (List String) × Memory
reconcile_in none = (err (backend_failed "index_not_found"), none)
reconcile_in (some index) = (ok ("3" ∷ []), some (record index { settings_match = true }))

abbrev memory : OperationsV1Backend Memory
memory = record {
  index_exists = λ uid s. (ok (is_some s), s);
  index_primary_key = λ uid. of_index (λ index. index.primary_key) none;
  index_created_at = λ uid. of_index (λ index. index.created_at) none;
  index_settings_match = λ uid. of_index (λ index. index.settings_match) false;
  create_index_strict = λ uid key apply. create_in;
  reconcile_existing_index = λ uid key apply. reconcile_in;
}

abbrev view : Memory → Option Index
view s = s

of_index-answers :
    {A : Type 0} (read : Index → A) (default : A) (s : Memory) (index : Index)
    → s ≡ some index
    → of_index read default s ≡ (ok (read index), s)
unfolding of_index
of_index-answers read default s index here = rw here refl

responsive : IsResponsive memory view
responsive = record {
  exists_answers = λ s. refl;
  created_at_answers = of_index-answers (λ index. index.created_at) none;
  primary_key_answers = of_index-answers (λ index. index.primary_key) none;
  settings_answers = of_index-answers (λ index. index.settings_match) false;
  creates = λ s here. (
    "1" ∷ "2" ∷ [],
    (
      some made,
      (made, unfold create_in in rw here refl, refl, (refl, unfold is_blank in refl), refl),
    ),
  );
  reconciles = λ s index here h. (
    "3" ∷ [],
    (some (record index { settings_match = true }), unfold reconcile_in in rw here refl, refl),
  );
}

faithful : IsFaithful memory view
faithful = record {
  exists_reads = λ s.
      Reads-answers (memory.index_exists target_index_uid s) s (is_some s)
        (responsive.exists_answers s);
  created_at_reads = λ s index here.
      Reads-answers (memory.index_created_at target_index_uid s) s index.created_at
        (responsive.created_at_answers s index here);
  primary_key_reads = λ s index here.
      Reads-answers (memory.index_primary_key target_index_uid s) s index.primary_key
        (responsive.primary_key_answers s index here);
  settings_reads = λ s index here.
      Reads-answers (memory.index_settings_match target_index_uid s) s index.settings_match
        (responsive.settings_answers s index here);
}

-- From a missing index to one that is verified.
migration_succeeds_example :
    (plan : MigrationPlan) × ((report : ApplyReport) × ((s' : Memory) × ((bound : MigrationPlan)
          × ((verification : VerificationReport) × (create_plan memory encoder none
                ≡ (ok plan, none))
              × (apply_plan memory encoder plan false none ≡ (ok report, s'))
              × (create_plan memory encoder s' ≡ (ok bound, s'))
              × (verify_plan memory encoder bound s' ≡ (ok verification, s'))
              × (verification.ready ≡ true)
              × (verification.failures ≡ [])))))
migration_succeeds_example = migration_succeeds responsive encoder none tt

abbrev plan_of : Memory → MigrationPlan
plan_of s = signed_plan encoder (observe s)

abbrev report : ApplyReport
report = apply_report (plan_of (some drifted)) false (observe (some drifted)).inspection (1, true)

reconciled_run :
    apply_plan memory encoder (plan_of (some drifted)) false (some drifted)
    ≡ (ok report, some (record drifted { settings_match = true }))
unfolding apply_plan signed_plan observe of_index reconcile_in apply_report same_value settings_for
reconciled_run = refl

apply_plan-refines_example :
    let decision = decide (plan_of (some drifted)) false (some drifted) in
    (decision ≢ denied)
    × ((apply_plan memory encoder (plan_of (some drifted)) false (some drifted)).1
        ≡ performed memory decision (some drifted))
    × (report.mutation_free ≡ is_left decision)
    × (report.creation_performed ≡ is_created decision)
    × (report.settings_reconciled ≡ is_reconciled decision)
apply_plan-refines_example =
    apply_plan-refines faithful encoder (plan_of (some drifted)) false (some drifted) report
      (ap (λ (o : Result Failure ApplyReport × Memory). o.0) reconciled_run)

-- The plan was made for a missing index, and somebody else created one.
abbrev foreign : Memory
foreign = some made

foreign_denied : decide (plan_of none) false foreign ≡ denied
unfolding decide signed_plan observe
foreign_denied = refl

apply_plan-refuses_example :
    ((apply_plan memory encoder (plan_of none) false foreign).1 ≡ foreign)
    × ((e : Failure) × ((apply_plan memory encoder (plan_of none) false foreign).0 ≡ err e))
apply_plan-refuses_example =
    apply_plan-refuses faithful encoder (plan_of none) false foreign foreign_denied

abbrev verification : VerificationReport
verification =
    verification_report (plan_of (some drifted))
      (observe (some (record drifted { settings_match = true })))

checked :
    (verify_plan memory encoder
      (plan_of (some drifted))
      (apply_plan memory encoder (plan_of (some drifted)) false (some drifted)).1).0
    ≡ ok verification
unfolding apply_plan verify_plan signed_plan observe of_index reconcile_in apply_report same_value
    settings_for
checked = refl

verified_after_apply_example : (verification.ready ≡ true) × (verification.failures ≡ [])
verified_after_apply_example =
    verified_after_apply faithful encoder (plan_of (some drifted)) false (some drifted) report
      verification (ap (λ (o : Result Failure ApplyReport × Memory). o.0) reconciled_run)
      (unfold apply_report in refl) checked
