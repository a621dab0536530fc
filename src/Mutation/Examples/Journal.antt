-- ===== src/Mutation/Examples/Journal.antt =====
-- The theorems on transitions and new records, at the records of one operation.
use nowledge.Prelude.{
  min, ◌≡◌, refl, sym, subst, ◌↔◌, inl, true, none, some, [], ◌∷◌, arith, All, ok,
}
use nowledge.Prelude.Table
use nowledge.Json
use nowledge.Json.{Value, null}
use nowledge.Models.Operations.{
  OperationStepStatus as StepStatus, OperationStepProgress as StepProgress, OperationRecord,
}
use nowledge.Mutation.Records.Derive.{status_of}
use nowledge.Mutation.Records.Create.{operation_record_from_plan_valid}
use nowledge.Mutation.Transitions.Succeeds.{submitted_succeeds, completed_succeeds, failed_succeeds}
use nowledge.Mutation.Transitions.Change.{Reach, here, next, submit, complete}
use nowledge.Mutation.Transitions.History.{completed_is_final}
use nowledge.Mutation.Transitions.Attempts.{total_attempts, u32_max, attempts_accounted}
use nowledge.Mutation.Transitions.Order.{side_effects_wait, primary_goes_first}
use nowledge.Mutation.Records
use nowledge.Mutation.Transitions
use nowledge.Mutation.Examples.{
  plan, plan_accepted, evaluation, progress, r0, r1, r2, r3, new_record_of_plan, rows_submitted,
  tasks_completed,
}

submitted_succeeds_example :
    (r' : OperationRecord) × (Transitions.operation_step_submitted r0 "rows" ("uid-1" ∷ []) 110
      ≡ ok r')
    × (Records.validate_operation_record r' ≡ ok tt)
    × (status_of r'.progress.steps "rows" ≡ some StepStatus.submitted)
unfolding evaluation
submitted_succeeds_example =
    submitted_succeeds r0 "rows" 110 refl refl (omega arith) ("uid-1" ∷ []) refl (λ e. cc)
      (inl refl)

completed_succeeds_example :
    (r' : OperationRecord) × (Transitions.operation_step_completed r1 "tasks" 120 ≡ ok r')
    × (Records.validate_operation_record r' ≡ ok tt)
    × (status_of r'.progress.steps "tasks" ≡ some StepStatus.completed)
unfolding evaluation
completed_succeeds_example = completed_succeeds r1 "tasks" 120 refl refl (omega arith) (inl refl)

failed_succeeds_example :
    (r' : OperationRecord) × (Transitions.operation_step_failed r1 "rows" "timeout" "f00d" 120
      ≡ ok r')
    × (Records.validate_operation_record r' ≡ ok tt)
    × (status_of r'.progress.steps "rows" ≡ some StepStatus.failed)
unfolding evaluation
failed_succeeds_example =
    failed_succeeds r1 "rows" 120 refl refl (omega arith) "timeout" "f00d" StepStatus.submitted refl
      refl refl (λ e. cc)

operation_record_from_plan_valid_example :
    (Records.operation_record_from_plan plan ≡ ok (Records.new_record plan))
    × ((Records.validate_operation_record (Records.new_record plan) ≡ ok tt)
        ↔ (Json.get_field "compacted_payloads" null ≡ none))
operation_record_from_plan_valid_example = operation_record_from_plan_valid plan plan_accepted

-- The path from the new record to the settled one.
path1 : Reach (Records.new_record plan) r1
path1 = next "rows" here (
    submit ("uid-1" ∷ []) 110 (
      subst (λ r. Transitions.operation_step_submitted r "rows" ("uid-1" ∷ []) 110 ≡ ok r1)
        (sym new_record_of_plan) rows_submitted))

path3 : Reach r2 r3
path3 = next "tasks" here (complete 130 tasks_completed)

primary_goes_first_example :
    All (λ e. e.1.status ≡ StepStatus.pending) (Records.new_record plan).progress.steps
unfolding evaluation
primary_goes_first_example = primary_goes_first plan {r = Records.new_record plan} here refl

side_effects_wait_example :
    (p : StepProgress) × (Table.get "rows" r2.progress.steps ≡ some p)
    × (Table.get "rows" r3.progress.steps ≡ some p)
    × (Transitions.is_accepted p.status ≡ true)
unfolding evaluation
side_effects_wait_example =
    side_effects_wait {r = r2} {r' = r3} {id = "tasks"} (complete 130 tasks_completed) refl

completed_is_final_example :
    Table.get "rows" r3.progress.steps
    ≡ some (progress "rows" StepStatus.completed 1 ("uid-1" ∷ []) 120)
unfolding evaluation
completed_is_final_example =
    completed_is_final {r = r2} {r' = r3} "rows"
      (progress "rows" StepStatus.completed 1 ("uid-1" ∷ []) 120) path3 refl refl

attempts_accounted_example :
    r1.progress.attempt_count ≡ min (total_attempts r1.progress.steps) u32_max
attempts_accounted_example = attempts_accounted plan {r = r1} path1
