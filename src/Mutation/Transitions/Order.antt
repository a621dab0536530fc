-- ===== src/Mutation/Transitions/Order.antt =====
-- The order of the primary step and the side effects in src/mutation.rs.
use nowledge.Prelude.{
  String, str_eq, ◌≡◌, ◌≢◌, refl, sym, ap, ◌∙◌, subst, inl, inr, true, false, some, List, [], ◌∷◌,
  arith, All, ok, >>=-eq-ok, ok_or, ok_or-eq-ok, Bool-cases,
}
use nowledge.Prelude.Table.{Table, get, insert, get-write}
use nowledge.Prelude.Entries.{All-insert}
use nowledge.Models.Common.{Time}
use nowledge.Models.Operations.{
  OperationStepRole as StepRole, OperationStepStatus as StepStatus, OperationStep, OperationPlan,
  OperationStepProgress as StepProgress, OperationRecord,
}
use nowledge.Mutation.Plans.{operation_steps}
use nowledge.Mutation.Records.{
  new_progress, collect_progress, new_record, validate_operation_record,
}
use nowledge.Mutation.Transitions.{find_step, is_accepted, validate_role, validate_step_sequence}
use nowledge.Mutation.Plans.Steps.{validated_steps, IsSideEffect}
use nowledge.Mutation.Records.Derive.{status_of}
use nowledge.Mutation.Records.Valid.{validate_operation_record_iff}
use nowledge.Prelude.Sets.{str_eq_comm}
use nowledge.Mutation.Transitions.History.{Transition-frame, Reach-plan}
use nowledge.Mutation.Transitions.Change.{Transition, Reach, here, next, Transition-Change}

find_side_effect :
    (tenant_id id : String) (steps : List OperationStep) (step : OperationStep)
    → All (IsSideEffect tenant_id) steps
    → find_step id steps ≡ some step
    → step.role ≡ StepRole.side_effect
unfolding find_step
find_side_effect tenant_id id [] step h found = absurd (cc)
find_side_effect tenant_id id (s ∷ rest) step h found = elim (Bool-cases (str_eq s.id id)) [
  | inl e ↦
      let same : s ≡ step = ground arith in ap (λ (x : OperationStep). x.role) (sym same) ∙ h.0.0
  | inr e ↦ find_side_effect tenant_id id rest step h.1 (rw e at found)
]

accepted_primary :
    (r : OperationRecord) (id : String)
    → validate_role r id StepRole.side_effect ≡ ok tt
    → (p : StepProgress) × (get r.plan.primary.id r.progress.steps ≡ some p)
      × (is_accepted p.status ≡ true)
unfolding validate_role
accepted_primary r id h = ground arith

first_listed :
    (r : OperationRecord) (id : String) (step : OperationStep)
    → str_eq r.plan.primary.id id ≡ false
    → find_step id (operation_steps r.plan) ≡ some step
    → find_step id r.plan.side_effects ≡ some step
unfolding find_step operation_steps
first_listed r id step other h = ground arith

-- A step that is not the primary may change only when the primary is accepted.
side_effect_waits :
    (r : OperationRecord) (id : String)
    → validate_operation_record r ≡ ok tt
    → str_eq r.plan.primary.id id ≡ false
    → validate_step_sequence r id ≡ ok tt
    → (p : StepProgress) × (get r.plan.primary.id r.progress.steps ≡ some p)
      × (is_accepted p.status ≡ true)
unfolding validate_step_sequence operation_steps find_step
side_effect_waits r id valid other h =
    let v = (validate_operation_record_iff r).0 valid in
    let steps = validated_steps r.plan v.plan_valid in
    let (step, found, role) = >>=-eq-ok (ok_or (find_step id (operation_steps r.plan)) _) _ h in
    let listed : find_step id r.plan.side_effects ≡ some step =
      first_listed r id step other (ok_or-eq-ok _ _ found) in
    accepted_primary r id
      (rw (find_side_effect r.plan.tenant_id id r.plan.side_effects step steps.3 listed) at role)

-- A transition of a step other than the primary succeeds only where the primary is submitted or
-- completed, and leaves the primary's progress as it was.
pub side_effects_wait :
    {r r' : OperationRecord} {id : String}
    → Transition r r' id
    → str_eq r.plan.primary.id id ≡ false
    → (p : StepProgress) × (get r.plan.primary.id r.progress.steps ≡ some p)
      × (get r.plan.primary.id r'.progress.steps ≡ some p)
      × (is_accepted p.status ≡ true)
side_effects_wait {r} {r'} {id} t other =
    let c = Transition-Change t in
    let (p, found, accepted) = side_effect_waits r id c.valid other c.ordered in
    let away : str_eq id r.plan.primary.id ≡ false = str_eq_comm id r.plan.primary.id ∙ other in
    (p, found, (Transition-frame t).1 r.plan.primary.id away ∙ found, accepted)

-- After a transition the primary is no longer pending.
primary_moved :
    {r r' : OperationRecord} {id : String}
    → Transition r r' id
    → status_of r'.progress.steps r.plan.primary.id ≢ some StepStatus.pending
unfolding is_accepted
primary_moved {r} {r'} {id} t pending =
    let c = Transition-Change t in
    elim (Bool-cases (str_eq r.plan.primary.id id)) [
      | inl e ↦
          let at_primary =
            get-write id r.plan.primary.id c.after r.progress.steps c.before c.present in
          c.started (ground (arith, c.written, at_primary, str_eq_comm id r.plan.primary.id))
      | inr e ↦ let (p, before, after, accepted) = side_effects_wait t e in ground arith
    ]

abbrev IsPending : String × StepProgress → Type 0
IsPending e = e.1.status ≡ StepStatus.pending

collect-IsPending :
    (at : Time) (m : Table StepProgress) (steps : List OperationStep)
    → All IsPending m
    → All IsPending (collect_progress at m steps)
unfolding collect_progress new_progress
collect-IsPending at m [] h = h
collect-IsPending at m (step ∷ rest) h =
    collect-IsPending at (insert step.id (new_progress at step) m) rest
      (All-insert IsPending step.id (new_progress at step) m refl h)

-- In every record that transitions reach from a plan's new record, no step has left `pending`
-- while the primary step is pending.
pub primary_goes_first :
    (plan : OperationPlan) {r : OperationRecord}
    → Reach (new_record plan) r
    → status_of r.progress.steps plan.primary.id ≡ some StepStatus.pending
    → All (λ e. e.1.status ≡ StepStatus.pending) r.progress.steps
unfolding new_record
primary_goes_first plan here pending =
    collect-IsPending plan.created_at [] (operation_steps plan) tt
primary_goes_first plan {r} (next {s = s} id path t) pending = absurd (
    primary_moved t (
      subst
        (λ (q : OperationPlan). status_of r.progress.steps q.primary.id ≡ some StepStatus.pending)
        (sym (Reach-plan path)) pending))
