-- ===== src/Mutation/Records/Derive.antt =====
-- The derived state of a record of src/mutation.rs and the statuses of its steps
-- (`derive_operation_state`).
use nowledge.Prelude.{
  String, ◌≡◌, refl, ◌↔◌, ◌⊎◌, true, false, Option, none, some, List, [], ◌∷◌, arith, All,
  >>=-eq-ok, ok_or, ok_or-eq-ok, is_subset, same_set, and_true,
}
use nowledge.Prelude.Table.{Table, get, keys}
use nowledge.Prelude.Entries.{contains-keys}
use nowledge.Models.Operations.{
  OperationStepStatus as StepStatus, OperationStatus, OperationIndexingState as IndexingState,
  OperationStep, OperationStepProgress as StepProgress, OperationRecord,
}
use nowledge.Mutation.Plans.{operation_steps}
use nowledge.Mutation.Records.{
  same_step_status, same_status, same_indexing_state, has_status, all_status, side_statuses,
  derive_accepted, derive_from, derive_operation_state, operation_is_settled, step_ids,
}
use nowledge.Mutation.Records.Valid.{IsValidRecord}

-- The status of a step in the table of progress.
abbrev pub status_of : Table StepProgress → String → Option StepStatus
status_of steps id = elim (get id steps) [ none ↦ none | some progress ↦ some progress.status ]

-- A step that was durably accepted: submitted or completed.
abbrev pub IsAccepted : Option StepStatus → Type 0
IsAccepted status = (status ≡ some StepStatus.submitted) ⊎ (status ≡ some StepStatus.completed)

-- Every step of the list has progress.
abbrev HasProgress : Table StepProgress → OperationStep → Type 0
HasProgress steps step = (progress : StepProgress) × (get step.id steps ≡ some progress)

covered_steps :
    (steps : Table StepProgress) (planned : List OperationStep)
    → is_subset (step_ids planned) (keys steps) ≡ true
    → All (HasProgress steps) planned
unfolding is_subset step_ids
covered_steps steps [] h = tt
covered_steps steps (step ∷ rest) h =
    (ground (arith, contains-keys step.id steps), covered_steps steps rest (ground arith))

-- In a valid record every planned step has progress.
pub planned-HasProgress :
    (r : OperationRecord)
    → IsValidRecord r
    → All
        (λ step. (p : StepProgress) × (get step.id r.progress.steps ≡ some p))
        (operation_steps r.plan)
unfolding same_set
planned-HasProgress r v =
    covered_steps r.progress.steps (operation_steps r.plan) (and_true _ _ v.covered).0

module _ (steps : Table StepProgress) where
  completed_sound :
      (planned : List OperationStep)
      → All (HasProgress steps) planned
      → all_status StepStatus.completed (side_statuses steps planned) ≡ true
      → All (λ step. status_of steps step.id ≡ some StepStatus.completed) planned
  unfolding side_statuses all_status same_step_status
  completed_sound [] c h = tt
  completed_sound (step ∷ rest) c h =
      let found = c.0.1 in (ground arith, completed_sound rest c.1 (ground arith))

  completed_complete :
      (planned : List OperationStep)
      → All (λ step. status_of steps step.id ≡ some StepStatus.completed) planned
      → all_status StepStatus.completed (side_statuses steps planned) ≡ true
  unfolding side_statuses all_status same_step_status
  completed_complete [] h = refl
  completed_complete (step ∷ rest) h = ground (arith, completed_complete rest h.1)

  IsAccepted-sound :
      (planned : List OperationStep)
      → All (HasProgress steps) planned
      → has_status StepStatus.failed (side_statuses steps planned) ≡ false
      → has_status StepStatus.pending (side_statuses steps planned) ≡ false
      → All (λ step. IsAccepted (status_of steps step.id)) planned
  unfolding side_statuses has_status same_step_status
  IsAccepted-sound [] c f p = tt
  IsAccepted-sound (step ∷ rest) c f p =
      let found = c.0.1 in (ground arith, IsAccepted-sound rest c.1 (ground arith) (ground arith))

  accepted_complete :
      (planned : List OperationStep)
      → All (λ step. IsAccepted (status_of steps step.id)) planned
      → (has_status StepStatus.failed (side_statuses steps planned) ≡ false)
        × (has_status StepStatus.pending (side_statuses steps planned) ≡ false)
  unfolding side_statuses has_status same_step_status
  accepted_complete [] h = (refl, refl)
  accepted_complete (step ∷ rest) h = ground (arith, accepted_complete rest h.1)

all_completed_accepted :
    (statuses : List StepStatus)
    → all_status StepStatus.completed statuses ≡ true
    → (has_status StepStatus.failed statuses ≡ false)
      × (has_status StepStatus.pending statuses ≡ false)
unfolding all_status has_status same_step_status
all_completed_accepted [] h = (refl, refl)
all_completed_accepted (s ∷ ss) h = ground (arith, all_completed_accepted ss)

-- The primary's progress, and the state that it gives with the side effects.
pub derived_primary :
    (r : OperationRecord)
    → IsValidRecord r
    → (p : StepProgress) × (get r.plan.primary.id r.progress.steps ≡ some p)
      × (derive_from p.status (side_statuses r.progress.steps r.plan.side_effects)
          ≡ (r.status, r.indexing_state))
unfolding derive_operation_state
derived_primary r v =
    let found = >>=-eq-ok (ok_or (get r.plan.primary.id r.progress.steps) _) _ v.derived in
    (found.0, ok_or-eq-ok _ _ found.1, ground (arith, found.2))

derived_settled :
    (status : StepStatus) (statuses : List StepStatus)
    → (derive_from status statuses ≡ (OperationStatus.completed, IndexingState.completed))
      ↔ ((status ≡ StepStatus.completed) × (all_status StepStatus.completed statuses ≡ true))
unfolding derive_from derive_accepted same_step_status
derived_settled status statuses = ground (arith, all_completed_accepted statuses)

derived_completed :
    (status : StepStatus) (statuses : List StepStatus) (indexing : IndexingState)
    → derive_from status statuses ≡ (OperationStatus.completed, indexing)
    → IsAccepted (some status)
      × (has_status StepStatus.failed statuses ≡ false)
      × (has_status StepStatus.pending statuses ≡ false)
unfolding derive_from derive_accepted
derived_completed status statuses indexing h = ground arith

derived_of_accepted :
    (status : StepStatus) (statuses : List StepStatus)
    → IsAccepted (some status)
    → has_status StepStatus.failed statuses ≡ false
    → has_status StepStatus.pending statuses ≡ false
    → (derive_from status statuses).0 ≡ OperationStatus.completed
unfolding derive_from derive_accepted
derived_of_accepted status statuses a f p = ground arith

settled_parts :
    (r : OperationRecord)
    → (operation_is_settled r ≡ true)
      ↔ ((r.status ≡ OperationStatus.completed) × (r.indexing_state ≡ IndexingState.completed))
unfolding operation_is_settled same_status same_indexing_state
settled_parts r = ground arith

-- A valid record is settled exactly when every planned step is completed.
pub settled_iff :
    (r : OperationRecord)
    → IsValidRecord r
    → (operation_is_settled r ≡ true)
      ↔ All
          (λ step. status_of r.progress.steps step.id ≡ some StepStatus.completed)
          (operation_steps r.plan)
unfolding operation_steps
settled_iff r v =
    let (p, found, derived) = derived_primary r v in
    let sides = side_statuses r.progress.steps r.plan.side_effects in
    (
      λ h.
          let parts = (settled_parts r).0 h in
          let all = (derived_settled p.status sides).0 (ground (arith, parts)) in
          (
            ground (arith, all),
            completed_sound r.progress.steps r.plan.side_effects (planned-HasProgress r v).1 all.1,
          ),
      λ h.
          let done = completed_complete r.progress.steps r.plan.side_effects h.1 in
          let all = (derived_settled p.status sides).1 (ground arith, done) in
          (settled_parts r).1 (ground (arith, all)),
    )

-- A valid record has the status `completed` exactly when every planned step is accepted.
pub completed_iff :
    (r : OperationRecord)
    → IsValidRecord r
    → (r.status ≡ OperationStatus.completed)
      ↔ All (λ step. IsAccepted (status_of r.progress.steps step.id)) (operation_steps r.plan)
unfolding operation_steps
completed_iff r v =
    let (p, found, derived) = derived_primary r v in
    let sides = side_statuses r.progress.steps r.plan.side_effects in
    (
      λ h.
          let all = derived_completed p.status sides r.indexing_state (ground arith) in
          (
            ground (arith, all),
            IsAccepted-sound r.progress.steps r.plan.side_effects (planned-HasProgress r v).1 all.1
                all.2,
          ),
      λ h.
          let fine = accepted_complete r.progress.steps r.plan.side_effects h.1 in
          ground (arith, derived_of_accepted p.status sides (ground arith) fine.0 fine.1),
    )
