-- ===== src/OperationsMigration/Refusals.antt =====
-- `apply_plan` when the decision denies the plan.
use nowledge.Prelude.{◌≡◌, ◌≢◌, refl, sym, subst, Bool, Option, Result, ok, err}
use nowledge.Prelude.Effects.{Effect, continue, ◌>>◌, lift}
use nowledge.Json.Canonical.{Encoder}
use nowledge.OperationsMigration.Plans.{MigrationPlan, Failure, validate_plan}
use nowledge.OperationsMigration.Reports.{require_before_apply}
use nowledge.OperationsMigration.Commands.{OperationsV1Backend, inspect, apply_observed, apply_plan}
use nowledge.OperationsMigration.Reads.{Index, IsFaithful, Reads, observe, inspect-Reads}
use nowledge.OperationsMigration.Decisions.{denied, decide, denied_fails}

-- The run ends with an error and in the state it started from.
abbrev pub Refuses : {S E A : Type 0} → Result E A × S → S → Type 0
Refuses {E} outcome s = (outcome.1 ≡ s) × ((e : E) × (outcome.0 ≡ err e))

module _ {S E B : Type 0} where
  Refuses-check :
      (check : Result E (Unit {0})) (rest : Effect S E B) (s : S)
      → check ≢ ok tt
      → Refuses ((lift check >> rest) s) s
  Refuses-check (ok tt) rest s h = absurd (h refl)
  Refuses-check (err e) rest s h = (refl, (e, refl))

  Refuses-rest :
      (check : Result E (Unit {0})) (rest : Effect S E B) (s : S)
      → Refuses (rest s) s
      → Refuses ((lift check >> rest) s) s
  Refuses-rest (ok tt) rest s h = h
  Refuses-rest (err e) rest s h = (refl, (e, refl))

  Refuses-continue :
      {A : Type 0} (outcome : Result E A × S) (rest : A → Effect S E B) {s : S} {a : A}
      → Reads outcome s a
      → Refuses (rest a s) s
      → Refuses (continue outcome rest) s
  Refuses-continue (err e, s') rest r h = (r.0, (e, refl))
  Refuses-continue (ok b, s') rest {s} {a} r h =
      subst (λ t. Refuses (rest b t) s) (sym r.0)
        (subst (λ x. Refuses (rest x s) s) (sym (r.1 b refl)) h)

module _ {S : Type 0} {backend : OperationsV1Backend S} {view : S → Option Index}
    (faithful : IsFaithful backend view) (encoder : Encoder) where
  -- With reads that tell the index as it is: when the plan was made for a missing index that is now
  -- present, or for an index that is now missing, has another primary key or another `createdAt`,
  -- `apply_plan` ends with an error and has written nothing.
  pub apply_plan-refuses :
      (plan : MigrationPlan) (dry_run : Bool) (s : S)
      → decide plan dry_run (view s) ≡ denied
      → ((apply_plan backend encoder plan dry_run s).1 ≡ s)
        × ((e : Failure) × ((apply_plan backend encoder plan dry_run s).0 ≡ err e))
  unfolding apply_plan apply_observed
  apply_plan-refuses plan dry_run s h = Refuses-rest (validate_plan encoder plan) _ s (
      Refuses-continue (inspect backend s) (apply_observed backend encoder plan dry_run)
        (inspect-Reads faithful s)
        (Refuses-check (require_before_apply plan (observe (view s))) _ s
          (denied_fails plan dry_run (view s) h)))
