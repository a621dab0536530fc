-- ===== src/Mutation/Reports/Counts.antt =====
-- The counts of a summary of src/mutation.rs.
use nowledge.Prelude.{
  ℕ, ◌+◌, String, str_eq, eq_iff, eq_refl, ◌≡◌, refl, subst, ok, ◌↔◌, Bool, true, false, some, List,
  [], ◌∷◌, arith, All, All-map, length, contains, Bool-cases, inl, inr,
}
use nowledge.Prelude.Sets.{IsUnique, contains_of_same_set}
use nowledge.Prelude.Table.{Table, get, keys, values}
use nowledge.Prelude.Entries.{contains-keys, All-get}
use nowledge.Models.Operations.{
  OperationStepStatus as StepStatus, OperationStep, OperationStepProgress as StepProgress,
  OperationRecord,
}
use nowledge.Mutation.Plans.{operation_steps}
use nowledge.Mutation.Records.{operation_is_settled, step_ids, validate_operation_record}
use nowledge.Mutation.Records.Valid.{IsValidRecord, validate_operation_record_iff}
use nowledge.Mutation.Records.Derive.{status_of, settled_iff, planned-HasProgress}
use nowledge.Mutation.Reports.{count_if, is_unconfirmed, is_failed, operation_summary}

is_done : StepStatus → Bool
is_done StepStatus.completed = true
is_done _ = false

-- How many entries are completed.
pub completed_steps : Table StepProgress → ℕ
completed_steps m = count_if is_done (values m)

counts :
    (m : Table StepProgress)
    → count_if is_unconfirmed (values m) + count_if is_failed (values m) + completed_steps m
      ≡ length m
unfolding count_if values is_unconfirmed is_failed completed_steps is_done
counts [] = omega arith
counts ((k, p) ∷ m) = ground (arith, counts m)

-- The steps that a summary counts as pending or failed, and the completed ones, are all the steps.
pub summary_counts_every_step :
    (entry : OperationRecord)
    → (operation_summary entry).pending_steps
        + (operation_summary entry).failed_steps
        + completed_steps entry.progress.steps
      ≡ length entry.progress.steps
unfolding operation_summary
summary_counts_every_step entry = counts entry.progress.steps

-- An entry of a table whose keys are unique is what a lookup finds.
All-of-get {ℓ κ} :
    {V : Type ℓ} (P : String × V → Type κ) (m : Table V)
    → IsUnique (keys m)
    → ((k : String) (v : V) → get k m ≡ some v → P (k, v))
    → All P m
unfolding get keys
All-of-get P [] u h = tt
All-of-get P ((j, v) ∷ m) u h = (
  h j v (rw (eq_refl j)),
  All-of-get P m u.1 (λ k w g. h k w (ground (arith, contains-keys k m, eq_iff j k))),
)

All-of-contains {κ} :
    (P : String → Type κ) (k : String) (steps : List OperationStep)
    → contains (step_ids steps) k ≡ true
    → All (λ s. P s.id) steps
    → P k
unfolding contains step_ids
All-of-contains P k [] c h = absurd (cc)
All-of-contains P k (s ∷ steps) c h = elim (Bool-cases (str_eq s.id k)) [
  | inl e ↦ subst P ((eq_iff s.id k).0 e) h.0
  | inr e ↦ All-of-contains P k steps (rw e at c) h.1
]

abbrev IsDone : String × StepProgress → Type 0
IsDone e = e.1.status ≡ StepStatus.completed

IsDone-iff :
    (m : Table StepProgress)
    → ((count_if is_unconfirmed (values m) ≡ 0) × (count_if is_failed (values m) ≡ 0))
      ↔ All IsDone m
unfolding count_if values is_unconfirmed is_failed
IsDone-iff [] = (λ h. tt, λ h. (refl, refl))
IsDone-iff ((k, p) ∷ m) = (
  λ h. (ground arith, (IsDone-iff m).0 (ground arith)),
  λ h. ground (arith, (IsDone-iff m).1 h.1),
)

-- A valid record whose table has no key twice is settled exactly when its summary counts no
-- pending and no failed step.
pub summary_settled :
    (r : OperationRecord)
    → validate_operation_record r ≡ ok tt
    → IsUnique (keys r.progress.steps)
    → (operation_is_settled r ≡ true)
      ↔ (((operation_summary r).pending_steps ≡ 0) × ((operation_summary r).failed_steps ≡ 0))
unfolding operation_summary
summary_settled r valid unique =
    let v = (validate_operation_record_iff r).0 valid in
    (
      λ s.
          (IsDone-iff r.progress.steps).1
            (All-of-get IsDone r.progress.steps unique (λ k p g. entry_done v s k p g)),
      λ none_left. (settled_iff r v).1 (
          All-map _ _ (λ step found. planned_done none_left step found) (operation_steps r.plan)
            (planned-HasProgress r v)),
    )
  where
    entry_done :
        IsValidRecord r
        → operation_is_settled r ≡ true
        → (k : String) (p : StepProgress) → get k r.progress.steps ≡ some p
        → p.status ≡ StepStatus.completed
    entry_done v s k p g =
        let planned =
          contains_of_same_set (step_ids (operation_steps r.plan)) (keys r.progress.steps) k
            v.covered in
        let done =
          All-of-contains (λ i. status_of r.progress.steps i ≡ some StepStatus.completed) k
            (operation_steps r.plan) (ground (arith, planned, contains-keys k r.progress.steps))
            ((settled_iff r v).0 s) in
        ground arith

    planned_done :
        (count_if is_unconfirmed (values r.progress.steps) ≡ 0)
          × (count_if is_failed (values r.progress.steps) ≡ 0)
        → (step : OperationStep) → (p : StepProgress) × (get step.id r.progress.steps ≡ some p)
        → status_of r.progress.steps step.id ≡ some StepStatus.completed
    planned_done nothing step (p, g) =
        let all =
          All-get IsDone step.id p r.progress.steps g ((IsDone-iff r.progress.steps).0 nothing) in
        ground arith
