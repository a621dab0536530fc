-- ===== src/OperationsMigration/Verified.antt =====
-- `verify_plan`: its verdict against its list of failures, and after `apply_plan`.
use nowledge.Prelude.{
  ℕ, Bool, true, false, ◌≡◌, ◌↔◌, sym, ◌∙◌, ap, ok_injective, Option, [], arith, ok,
}
use nowledge.Json.Canonical.{Encoder}
use nowledge.OperationsMigration.Plans.{
  MigrationPlan, ObservedIndex, same_inspection, ready_index, validate_plan,
}
use nowledge.OperationsMigration.Reports.{
  ApplyReport, VerificationReport, verification_report, require_before_apply, require_after_apply,
  apply_report,
}
use nowledge.OperationsMigration.Commands.{
  OperationsV1Backend, inspect, outcome_of, apply_plan, verify_plan,
}
use nowledge.OperationsMigration.Reads.{Index, IsFaithful, observe, inspect-Reads}
use nowledge.OperationsMigration.Refines.{Reads-eq-ok, check-eq-ok, execute-eq-ok, apply_plan-eq-ok}

-- For every plan and observation, the report of a verification says that the index is ready exactly
-- when it lists no failure.
pub verification_report-ready_iff :
    (plan : MigrationPlan) (observed : ObservedIndex)
    → ((verification_report plan observed).ready ≡ true)
      ↔ ((verification_report plan observed).failures ≡ [])
unfolding verification_report
verification_report-ready_iff plan observed = (λ h. ground arith, λ h. ground arith)

ready_before :
    (plan : MigrationPlan) (observed : ObservedIndex)
    → require_before_apply plan observed ≡ ok tt
    → same_inspection observed.inspection ready_index ≡ true
    → (verification_report plan observed).ready ≡ true
unfolding verification_report require_before_apply same_inspection
ready_before plan observed passes here = ground arith

ready_after :
    (plan : MigrationPlan) (n : ℕ) (observed : ObservedIndex) (y : ℕ × Bool)
    → require_after_apply plan n observed ≡ ok y
    → y.1 ≡ true
    → (verification_report plan observed).ready ≡ true
unfolding verification_report require_after_apply
ready_after plan n observed y passes here = ground arith

module _ {S : Type 0} {backend : OperationsV1Backend S} {view : S → Option Index}
    (faithful : IsFaithful backend view) (encoder : Encoder) where
  verify_plan-eq-ok :
      (plan : MigrationPlan) (s : S) {verification : VerificationReport}
      → (verify_plan backend encoder plan s).0 ≡ ok verification
      → verification ≡ verification_report plan (observe (view s))
  unfolding verify_plan
  verify_plan-eq-ok plan s h =
      let valid = check-eq-ok (validate_plan encoder plan) _ s h in
      sym (ok_injective (Reads-eq-ok (inspect backend s) _ (inspect-Reads faithful s) valid.1).0)

  ready_outcome :
      (plan : MigrationPlan) (dry_run : Bool) (s : S) (y : ℕ × Bool)
      → require_before_apply plan (observe (view s)) ≡ ok tt
      → (outcome_of backend encoder plan dry_run (observe (view s)).inspection s).0 ≡ ok y
      → y.1 ≡ true
      → (verification_report plan (
          observe (
            view
              (outcome_of backend encoder plan dry_run (observe (view s)).inspection s).1))).ready
        ≡ true
  unfolding outcome_of
  ready_outcome plan true s y passes ran ready =
      ready_before plan (observe (view s)) passes
        (ap (λ (o : ℕ × Bool). o.1) (ok_injective ran) ∙ ready)
  ready_outcome plan false s y passes ran ready =
      let executed = execute-eq-ok faithful encoder plan (observe (view s)).inspection s ran in
      rw executed.0 (ready_after plan executed.1.0 _ y executed.1.1 ready)

  -- With reads that tell the index as it is: after an `apply_plan` that reports `ready_to_verify`,
  -- `verify_plan` of the same plan, when it answers, finds the index ready and no failure.
  pub verified_after_apply :
      (plan : MigrationPlan) (dry_run : Bool) (s : S) (report : ApplyReport)
      (verification : VerificationReport)
      → (apply_plan backend encoder plan dry_run s).0 ≡ ok report
      → report.ready_to_verify ≡ true
      → (verify_plan backend encoder plan (apply_plan backend encoder plan dry_run s).1).0
        ≡ ok verification
      → (verification.ready ≡ true) × (verification.failures ≡ [])
  unfolding apply_report
  verified_after_apply plan dry_run s report verification h ready checked =
      let (valid, passes, (y, ran, reported, ended)) =
        apply_plan-eq-ok faithful encoder plan dry_run s h in
      let found = verify_plan-eq-ok plan (apply_plan backend encoder plan dry_run s).1 checked in
      let good =
        ready_outcome plan dry_run s y passes ran
          (sym (ap (λ (r : ApplyReport). r.ready_to_verify) reported) ∙ ready) in
      rw (found, ended) (good, (verification_report-ready_iff plan _).0 good)
