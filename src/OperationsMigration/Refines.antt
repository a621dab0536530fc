-- ===== src/OperationsMigration/Refines.antt =====
-- `apply_plan` against the decision: which state a run leaves, and what its report says of it.
use nowledge.Prelude.{
  ok_injective, ℕ, Bool, true, false, ◌≡◌, ◌≢◌, refl, sym, ◌∙◌, subst, Option, Result, ok, err,
}
use nowledge.Prelude.Effects.{Effect, continue, ◌>>◌, lift, continue-eq-ok}
use nowledge.Json.Canonical.{Encoder}
use nowledge.OperationsMigration.Plans.{MigrationPlan, IndexInspection, validate_plan}
use nowledge.OperationsMigration.Reports.{
  require_before_apply, require_after_apply, apply_report, ApplyReport,
}
use nowledge.OperationsMigration.Commands.{
  OperationsV1Backend, inspect, provide_index, outcome_of, apply_observed, execute, outcome_of,
  apply_observed, apply_plan,
}
use nowledge.OperationsMigration.Reads.{Index, IsFaithful, Reads, observe, inspect-Reads}
use nowledge.OperationsMigration.Decisions.{
  denied, decide, performed, is_left, is_created, is_reconciled, not_denied, performed_observed,
  performed_dry, apply_report-decides,
}

module _ {S E A B : Type 0} where
  -- A chain that succeeds after a read goes on from the same state, with what is there.
  pub Reads-eq-ok :
      (outcome : Result E A × S) (rest : A → Effect S E B) {s : S} {a : A} {y : B}
      → Reads outcome s a
      → (continue outcome rest).0 ≡ ok y
      → ((rest a s).0 ≡ ok y) × ((continue outcome rest).1 ≡ (rest a s).1)
  Reads-eq-ok (err e, s') rest r h = absurd (cc)
  Reads-eq-ok (ok b, s') rest {s} {a} {y} r h =
      subst (λ x. ((rest x s).0 ≡ ok y) × ((rest b s').1 ≡ (rest x s).1)) (r.1 b refl)
        (subst (λ t. ((rest b t).0 ≡ ok y) × ((rest b s').1 ≡ (rest b t).1)) r.0 (h, refl))

pub check-eq-ok :
    {S E B : Type 0} (check : Result E (Unit {0})) (rest : Effect S E B) (s : S) {y : B}
    → ((lift check >> rest) s).0 ≡ ok y
    → (check ≡ ok tt) × ((rest s).0 ≡ ok y) × (((lift check >> rest) s).1 ≡ (rest s).1)
check-eq-ok (err e) rest s h = absurd (cc)
check-eq-ok (ok tt) rest s h = (refl, h, refl)

module _ {S : Type 0} {backend : OperationsV1Backend S} {view : S → Option Index}
    (faithful : IsFaithful backend view) (encoder : Encoder) where
  -- A run that is no dry run ends in the state that its write left, with the checks passed there.
  pub execute-eq-ok :
      (plan : MigrationPlan) (before : IndexInspection) (s : S) {y : ℕ × Bool}
      → (execute backend encoder plan before s).0 ≡ ok y
      → let s' = (provide_index backend before s).1 in
        ((execute backend encoder plan before s).1 ≡ s')
        × ((n : ℕ) × (require_after_apply plan n (observe (view s')) ≡ ok y))
  unfolding execute
  execute-eq-ok plan before s h =
      let provided = continue-eq-ok (provide_index backend before s) _ h in
      let inspected =
        Reads-eq-ok (inspect backend (provide_index backend before s).1) _
          (inspect-Reads faithful (provide_index backend before s).1) provided.2 in
      (provided.3 ∙ inspected.1, (provided.0, inspected.0))

  outcome_of-eq-ok :
      (plan : MigrationPlan) (dry_run : Bool) (s : S) {y : ℕ × Bool}
      → require_before_apply plan (observe (view s)) ≡ ok tt
      → (outcome_of backend encoder plan dry_run (observe (view s)).inspection s).0 ≡ ok y
      → (outcome_of backend encoder plan dry_run (observe (view s)).inspection s).1
        ≡ performed backend (decide plan dry_run (view s)) s
  unfolding outcome_of
  outcome_of-eq-ok plan true s passes h = sym (performed_dry backend plan (view s) s)
  outcome_of-eq-ok plan false s passes h =
      (execute-eq-ok plan (observe (view s)).inspection s h).0
      ∙ performed_observed backend plan (view s) s passes

  pub apply_observed-eq-ok :
      (plan : MigrationPlan) (dry_run : Bool) (s : S) {report : ApplyReport}
      → (apply_observed backend encoder plan dry_run (observe (view s)) s).0 ≡ ok report
      → (require_before_apply plan (observe (view s)) ≡ ok tt)
        × ((y : ℕ × Bool) × ((outcome_of backend encoder plan dry_run
                (observe (view s)).inspection
                s).0
              ≡ ok y)
            × (report ≡ apply_report plan dry_run (observe (view s)).inspection y)
            × ((apply_observed backend encoder plan dry_run (observe (view s)) s).1
                ≡ (outcome_of backend encoder plan dry_run (observe (view s)).inspection s).1))
  unfolding apply_observed
  apply_observed-eq-ok plan dry_run s h =
      let guarded = check-eq-ok (require_before_apply plan (observe (view s))) _ s h in
      let ran =
        continue-eq-ok (outcome_of backend encoder plan dry_run (observe (view s)).inspection s) _
          guarded.1 in
      (guarded.0, (ran.0, ran.1, sym (ok_injective ran.2), guarded.2 ∙ ran.3))

  -- What a successful run went through.
  pub apply_plan-eq-ok :
      (plan : MigrationPlan) (dry_run : Bool) (s : S) {report : ApplyReport}
      → (apply_plan backend encoder plan dry_run s).0 ≡ ok report
      → (validate_plan encoder plan ≡ ok tt)
        × (require_before_apply plan (observe (view s)) ≡ ok tt)
        × ((y : ℕ × Bool) × ((outcome_of backend encoder plan dry_run
                (observe (view s)).inspection
                s).0
              ≡ ok y)
            × (report ≡ apply_report plan dry_run (observe (view s)).inspection y)
            × ((apply_plan backend encoder plan dry_run s).1
                ≡ (outcome_of backend encoder plan dry_run (observe (view s)).inspection s).1))
  unfolding apply_plan
  apply_plan-eq-ok plan dry_run s h =
      let valid = check-eq-ok (validate_plan encoder plan) _ s h in
      let seen =
        Reads-eq-ok (inspect backend s) (apply_observed backend encoder plan dry_run)
          (inspect-Reads faithful s) valid.1 in
      let applied = apply_observed-eq-ok plan dry_run s seen.0 in
      (valid.0, applied.0, (applied.1.0, applied.1.1, applied.1.2, valid.2 ∙ seen.1 ∙ applied.1.3))

  -- With reads that tell the index as it is, a successful `apply_plan` implements the decision on the
  -- plan and the index: the plan was not denied, the state is the one that the decided write leaves
  -- (none for a dry run or a ready index), and the report says whether that write was none, the
  -- creation or the reconciliation of the settings.
  pub apply_plan-refines :
      (plan : MigrationPlan) (dry_run : Bool) (s : S) (report : ApplyReport)
      → (apply_plan backend encoder plan dry_run s).0 ≡ ok report
      → let decision = decide plan dry_run (view s) in
        (decision ≢ denied)
        × ((apply_plan backend encoder plan dry_run s).1 ≡ performed backend decision s)
        × (report.mutation_free ≡ is_left decision)
        × (report.creation_performed ≡ is_created decision)
        × (report.settings_reconciled ≡ is_reconciled decision)
  apply_plan-refines plan dry_run s report h =
      let (valid, passes, (y, ran, reported, ended)) = apply_plan-eq-ok plan dry_run s h in
      let flags = apply_report-decides plan dry_run (view s) y passes in
      (
        not_denied plan dry_run (view s) passes,
        ended ∙ outcome_of-eq-ok plan dry_run s passes ran,
        rw reported flags.0,
        rw reported flags.1,
        rw reported flags.2,
      )
