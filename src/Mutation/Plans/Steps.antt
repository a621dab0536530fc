-- ===== src/Mutation/Plans/Steps.antt =====
-- The steps of a plan that `validate_operation_plan` of src/mutation.rs accepts.
use nowledge.Prelude.{
  String, ◌≡◌, refl, subst, false, not, List, [], ◌∷◌, arith, All, ok, >>-eq-ok, >>=-eq-ok, fail_if,
  fail_if-eq-ok, contains, is_blank,
}
use nowledge.Prelude.Sets.{IsUnique, str_eq_comm}
use nowledge.Models.Operations.{OperationStepRole as StepRole, OperationStep, OperationPlan}
use nowledge.Mutation.Checks.{for_each_from, require_non_empty}
use nowledge.Mutation.Checks.Unique.{require_non_empty_iff}
use nowledge.Mutation.Resources.{validate_resource}
use nowledge.Mutation.Plans.{
  operation_steps, is_primary, validate_step, validate_side_effect, validate_steps,
  validate_plan_header, validate_operation_plan,
}
use nowledge.Mutation.Records.{step_ids}

-- A step that may follow those with the ids `seen`.
record IsSound (tenant_id : String) (step : OperationStep) : Type 0 where
  named : is_blank step.id ≡ false
  payload : validate_resource tenant_id step.resource ≡ ok tt

step-IsSound :
    (tenant_id : String) (seen : List String) (step : OperationStep) {ids : List String}
    → validate_step tenant_id seen step ≡ ok ids
    → IsSound tenant_id step × (contains seen step.id ≡ false) × (ids ≡ step.id ∷ seen)
unfolding validate_step
step-IsSound tenant_id seen step h =
    let n = >>-eq-ok (require_non_empty "step id" step.id) _ h in
    let f = >>-eq-ok (fail_if (contains seen step.id) _) _ n.1 in
    let p = >>-eq-ok (validate_resource tenant_id step.resource) (ok (step.id ∷ seen)) f.1 in
    (
      record { named = (require_non_empty_iff "step id" step.id).0 n.0; payload = p.0 },
      fail_if-eq-ok _ _ f.0,
      cc (p.1),
    )

abbrev pub IsSideEffect : String → OperationStep → Type 0
IsSideEffect tenant_id step =
    (step.role ≡ StepRole.side_effect)
    × (is_blank step.id ≡ false)
    × (validate_resource tenant_id step.resource ≡ ok tt)

-- The ids of the steps are none of those seen.
abbrev Apart : List String → List OperationStep → Type 0
Apart seen steps = All (λ step. contains seen step.id ≡ false) steps

Apart-tail :
    (id : String) (seen : List String) (steps : List OperationStep)
    → Apart (id ∷ seen) steps
    → Apart seen steps × (contains (step_ids steps) id ≡ false)
unfolding contains step_ids
Apart-tail id seen [] h = (tt, refl)
Apart-tail id seen (step ∷ rest) h =
    let tail = Apart-tail id seen rest h.1 in
    ((ground arith, tail.0), ground (arith, str_eq_comm id step.id))

side_effects_sound :
    (tenant_id : String) (seen : List String) (steps : List OperationStep) (ids : List String)
    → for_each_from (validate_side_effect tenant_id) seen steps ≡ ok ids
    → All (IsSideEffect tenant_id) steps × Apart seen steps × IsUnique (step_ids steps)
unfolding for_each_from validate_side_effect step_ids is_primary
side_effects_sound tenant_id seen [] ids h = (tt, tt, tt)
side_effects_sound tenant_id seen (step ∷ rest) ids h =
    let (seen', first, later) = >>=-eq-ok (validate_side_effect tenant_id seen step) _ h in
    let r = >>-eq-ok (fail_if (is_primary step.role) _) _ first in
    let (sound, fresh, same) = step-IsSound tenant_id seen step r.1 in
    let tail =
      side_effects_sound tenant_id (step.id ∷ seen) rest ids
        (subst (λ s. for_each_from (validate_side_effect tenant_id) s rest ≡ ok ids) same later) in
    let apart = Apart-tail step.id seen rest tail.1 in
    (
      ((ground (arith, fail_if-eq-ok _ _ r.0), sound.named, sound.payload), tail.0),
      (fresh, apart.0),
      (apart.1, tail.2),
    )

-- An accepted plan has a primary step and side effects, under different ids that are not blank;
-- each payload passes the check for the plan's tenant.
pub validated_steps :
    (plan : OperationPlan)
    → validate_operation_plan plan ≡ ok tt
    → (plan.primary.role ≡ StepRole.primary)
      × (is_blank plan.primary.id ≡ false)
      × (validate_resource plan.tenant_id plan.primary.resource ≡ ok tt)
      × All (IsSideEffect plan.tenant_id) plan.side_effects
      × IsUnique (step_ids (operation_steps plan))
unfolding validate_operation_plan validate_steps is_primary operation_steps step_ids
validated_steps plan h =
    let header = >>-eq-ok (validate_plan_header plan) _ h in
    let (ids, steps, rest) = >>=-eq-ok (validate_steps plan) _ header.1 in
    let r = >>-eq-ok (fail_if (not (is_primary plan.primary.role)) _) _ steps in
    let (first, primary, others) = >>=-eq-ok (validate_step plan.tenant_id [] plan.primary) _ r.1 in
    let (sound, fresh, same) = step-IsSound plan.tenant_id [] plan.primary primary in
    let tail = side_effects_sound plan.tenant_id (plan.primary.id ∷ []) plan.side_effects ids (
      subst (λ s. for_each_from (validate_side_effect plan.tenant_id) s plan.side_effects ≡ ok ids)
        same others) in
    (
      ground (arith, fail_if-eq-ok _ _ r.0),
      sound.named,
      sound.payload,
      tail.0,
      ((Apart-tail plan.primary.id [] plan.side_effects tail.1).1, tail.2),
    )
