-- ===== src/Mutation/Transitions/Refresh.antt =====
-- A change of one unfinished step, and the check that ends `refresh_operation_state` of
-- src/mutation.rs.
use nowledge.Prelude.{
  ℕ, ◌≤◌, String, str_eq, eq_iff, ◌≡◌, ◌≢◌, subst, inl, inr, true, false, none, some, List, [], ◌∷◌,
  arith, All, All-map, ok, ltb, Bool-cases, Option-cases, if◌then◌else◌,
}
use nowledge.Prelude.Table.{get, write, keys-write, get-write}
use nowledge.Prelude.Entries.{All-write}
use nowledge.Json.{Value, get_field}
use nowledge.Models.Common.{Time}
use nowledge.Models.Operations.{
  OperationStepStatus as StepStatus, OperationStatus, OperationIndexingState as IndexingState,
  OperationStep, OperationStepProgress as StepProgress, OperationRecord,
}
use nowledge.Mutation.Plans.{operation_steps}
use nowledge.Mutation.Records.{
  compacted_payloads_metadata_key, derive_operation_state, operation_is_settled, matches_plan,
  validate_progress, validate_compaction, derive_from, side_statuses,
}
use nowledge.Mutation.Records.Valid.{IsValidRecord, validate_operation_record_iff}
use nowledge.Mutation.Records.Derive.{status_of, settled_iff, derived_primary}
use nowledge.Mutation.Transitions.{
  find_step, or_time, refreshed, refresh_operation_state, with_progress,
}

-- What `find_step` finds has the id that was asked for, and whatever holds of every step.
pub All-find_step {κ} :
    (P : String → Type κ) (id : String) (steps : List OperationStep) (step : OperationStep)
    → find_step id steps ≡ some step
    → All (λ s. P s.id) steps
    → P id
unfolding find_step
All-find_step P id [] step h all = absurd (cc)
All-find_step P id (s ∷ steps) step h all = elim (Bool-cases (str_eq s.id id)) [
  | inl e ↦ subst P ((eq_iff s.id id).0 e) all.0
  | inr e ↦ All-find_step P id steps step (rw e at h) all.1
]

-- An entry stays valid when the record's time moves on.
validate_progress_later :
    (created updated at : Time) (e : String × StepProgress)
    → updated ≤ at
    → validate_progress created updated e ≡ ok tt
    → validate_progress created at e ≡ ok tt
unfolding validate_progress
validate_progress_later created updated at e later h = ground arith

compaction_settled :
    (r : OperationRecord) (digests : Value)
    → validate_compaction r (some digests) ≡ ok tt
    → operation_is_settled r ≡ true
unfolding validate_compaction
compaction_settled r digests h = ground arith

-- A settled record has completed every step that it plans.
pub completed_of_settled :
    (r : OperationRecord) (id : String) (step : OperationStep) (p : StepProgress)
    → IsValidRecord r
    → find_step id (operation_steps r.plan) ≡ some step
    → get id r.progress.steps ≡ some p
    → operation_is_settled r ≡ true
    → p.status ≡ StepStatus.completed
completed_of_settled r id step p v found g s =
    let done =
      All-find_step (λ i. status_of r.progress.steps i ≡ some StepStatus.completed) id
        (operation_steps r.plan) step found ((settled_iff r v).0 s) in
    ground arith

-- A record with an unfinished step is not compacted.
not_compacted :
    (r : OperationRecord) (id : String) (step : OperationStep) (p : StepProgress)
    → IsValidRecord r
    → find_step id (operation_steps r.plan) ≡ some step
    → get id r.progress.steps ≡ some p
    → p.status ≢ StepStatus.completed
    → get_field compacted_payloads_metadata_key r.plan.redacted_metadata ≡ none
not_compacted r id step p v found g unfinished =
    elim (Option-cases (get_field compacted_payloads_metadata_key r.plan.redacted_metadata)) [
      | inl e ↦ e
      | inr (digests, e) ↦ absurd (
          unfinished (
            completed_of_settled r id step p v found g
              (compaction_settled r digests (rw e at v.compaction))))
    ]

derive_total :
    (r : OperationRecord) (p : StepProgress)
    → get r.plan.primary.id r.progress.steps ≡ some p
    → derive_operation_state r
      ≡ ok (derive_from p.status (side_statuses r.progress.steps r.plan.side_effects))
unfolding derive_operation_state
derive_total r p h = rw h

-- The primary keeps progress when another step's is written.
primary_progress :
    (r : OperationRecord) (id : String) (old new : StepProgress)
    → IsValidRecord r
    → get id r.progress.steps ≡ some old
    → (p : StepProgress) × (get r.plan.primary.id (write id new r.progress.steps) ≡ some p)
primary_progress r id old new v g =
    let (p, found, derived) = derived_primary r v in
    (
      if str_eq id r.plan.primary.id then new else p,
      ground (arith, get-write id r.plan.primary.id new r.progress.steps old g),
    )

module _ (r : OperationRecord) (id : String) (step : OperationStep) (old new : StepProgress)
    (count : ℕ) (at : Time) (v : IsValidRecord r)
    (found : find_step id (operation_steps r.plan) ≡ some step)
    (present : get id r.progress.steps ≡ some old) (unfinished : old.status ≢ StepStatus.completed)
    (later : r.updated_at ≤ at) (fits : validate_progress r.created_at at (id, new) ≡ ok tt) where
  -- The record with the changed step, before its state is derived.
  abbrev next : OperationRecord
  next = with_progress r id count new

  pub refreshed-IsValidRecord :
      (derived : OperationStatus × IndexingState)
      → derive_operation_state next ≡ ok derived
      → IsValidRecord (refreshed next at derived)
  unfolding with_progress refreshed matches_plan derive_operation_state or_time validate_compaction
  refreshed-IsValidRecord derived h = record {
    plan_valid = v.plan_valid;
    identity = v.identity;
    times = omega (arith, v.times);
    covered = rw (keys-write id new r.progress.steps) v.covered;
    entries =
        All-write (λ e. validate_progress r.created_at at e ≡ ok tt) id new r.progress.steps fits
          (All-map _ _ (λ e. validate_progress_later r.created_at r.updated_at at e later)
            r.progress.steps v.entries);
    derived = h;
    completion = ground arith;
    compaction = rw (not_compacted r id step old v found present unfinished);
  }

  next_derives :
      (derived : OperationStatus × IndexingState) × (derive_operation_state next ≡ ok derived)
  unfolding with_progress
  next_derives = let (p, g) = primary_progress r id old new v present in (_, derive_total next p g)

  -- The final check of the record cannot fail.
  pub refresh_succeeds :
      (derived : OperationStatus × IndexingState) × (refresh_operation_state
          (with_progress r id count new)
          at
        ≡ ok (refreshed (with_progress r id count new) at derived))
      × IsValidRecord (refreshed (with_progress r id count new) at derived)
  unfolding refresh_operation_state
  refresh_succeeds =
      let (derived, h) = next_derives in
      let valid = refreshed-IsValidRecord derived h in
      (
        derived,
        rw (not_later, h, (validate_operation_record_iff (refreshed next at derived)).1 valid),
        valid,
      )
    where
      not_later : ltb at next.updated_at ≡ false
      not_later = unfold with_progress in ground arith
