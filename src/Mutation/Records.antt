-- ===== src/Mutation/Records.antt =====
-- The operation record of src/mutation.rs: its derived state, its validation and its creation.
pub mod Valid
pub mod Derive
pub mod Create
use nowledge.Prelude.{
  ℕ, String, str_eq, Bool, true, false, ◌&&◌, ◌||◌, not, Option, none, some, List, [], ◌∷◌, map, ok,
  err, ◌>>=◌, ◌>>◌, fail_if, ok_or, format, same_set, same_text, ◌==◌, ltb, is_some, if◌then◌else◌,
}
use nowledge.Prelude.Table.{Table, get, insert, keys}
use nowledge.Json.{Value, get_field, as_object, field_names}
use nowledge.Models.Common.{Time}
use nowledge.Models.Operations.{
  OperationActorScope, OperationStepStatus as StepStatus, OperationStatus,
  OperationIndexingState as IndexingState, OperationStep, OperationPlan,
  OperationStepProgress as StepProgress, OperationProgress, OperationRecord,
}
use nowledge.Mutation.Checks.{Checked, invalid_plan, unknown_step, for_each, validate_task_uids}
use nowledge.Mutation.Plans.{operation_steps, validate_operation_plan}

abbrev pub compacted_payloads_metadata_key : String
compacted_payloads_metadata_key = "compacted_payloads"

-- Rust's derived `==` of the enumerations.
unfoldable pub same_step_status : StepStatus → StepStatus → Bool
same_step_status StepStatus.pending StepStatus.pending = true
same_step_status StepStatus.submitted StepStatus.submitted = true
same_step_status StepStatus.completed StepStatus.completed = true
same_step_status StepStatus.failed StepStatus.failed = true
same_step_status _ _ = false

unfoldable pub same_status : OperationStatus → OperationStatus → Bool
same_status OperationStatus.pending OperationStatus.pending = true
same_status OperationStatus.primary_committed OperationStatus.primary_committed = true
same_status OperationStatus.effects_submitted OperationStatus.effects_submitted = true
same_status OperationStatus.partially_failed OperationStatus.partially_failed = true
same_status OperationStatus.completed OperationStatus.completed = true
same_status OperationStatus.failed OperationStatus.failed = true
same_status _ _ = false

unfoldable pub same_indexing_state : IndexingState → IndexingState → Bool
same_indexing_state IndexingState.pending IndexingState.pending = true
same_indexing_state IndexingState.completed IndexingState.completed = true
same_indexing_state IndexingState.failed IndexingState.failed = true
same_indexing_state _ _ = false

unfoldable pub same_scope : OperationActorScope → OperationActorScope → Bool
same_scope OperationActorScope.owner OperationActorScope.owner = true
same_scope OperationActorScope.tenant_service OperationActorScope.tenant_service = true
same_scope OperationActorScope.admin OperationActorScope.admin = true
same_scope OperationActorScope.system OperationActorScope.system = true
same_scope _ _ = false

-- `side_statuses.contains(&status)`, and `iter().all(|s| s == status)`.
unfoldable pub has_status : StepStatus → List StepStatus → Bool
unfolding same_step_status
has_status status [] = false
has_status status (s ∷ ss) = same_step_status s status || has_status status ss

unfoldable pub all_status : StepStatus → List StepStatus → Bool
unfolding same_step_status
all_status status [] = true
all_status status (s ∷ ss) = same_step_status s status && all_status status ss

-- The statuses of the side effects that have progress, in the plan's order (`filter_map`).
unfoldable pub side_statuses : Table StepProgress → List OperationStep → List StepStatus
side_statuses steps [] = []
side_statuses steps (step ∷ rest) =
    let later = side_statuses steps rest in
    elim (get step.id steps) [ none ↦ later | some progress ↦ progress.status ∷ later ]

-- The branch of `derive_operation_state` where the primary is durably accepted.
unfoldable pub derive_accepted : StepStatus → List StepStatus → OperationStatus × IndexingState
unfolding has_status all_status same_step_status
derive_accepted primary statuses =
    if has_status StepStatus.failed statuses
    then (OperationStatus.partially_failed, IndexingState.failed)
    else if has_status StepStatus.pending statuses
    then (
      if all_status StepStatus.pending statuses
          then OperationStatus.primary_committed
          else OperationStatus.effects_submitted,
      IndexingState.pending,
    )
    else (
      OperationStatus.completed,
      if same_step_status primary StepStatus.completed && all_status StepStatus.completed statuses
          then IndexingState.completed
          else IndexingState.pending,
    )

unfoldable pub derive_from : StepStatus → List StepStatus → OperationStatus × IndexingState
unfolding derive_accepted
derive_from StepStatus.pending statuses = (OperationStatus.pending, IndexingState.pending)
derive_from StepStatus.failed statuses = (OperationStatus.failed, IndexingState.failed)
derive_from StepStatus.submitted statuses = derive_accepted StepStatus.submitted statuses
derive_from StepStatus.completed statuses = derive_accepted StepStatus.completed statuses

unfoldable pub derive_operation_state : OperationRecord → Checked (OperationStatus × IndexingState)
derive_operation_state entry = do
  primary ←
      ok_or (get entry.plan.primary.id entry.progress.steps) (unknown_step entry.plan.primary.id)
  ok (derive_from primary.status (side_statuses entry.progress.steps entry.plan.side_effects))

unfoldable pub operation_is_settled : OperationRecord → Bool
unfolding same_status same_indexing_state
operation_is_settled entry =
    same_status entry.status OperationStatus.completed
    && same_indexing_state entry.indexing_state IndexingState.completed

unfoldable pub operation_is_compacted : OperationRecord → Bool
operation_is_compacted entry =
    is_some (get_field compacted_payloads_metadata_key entry.plan.redacted_metadata)

unfoldable pub step_ids : List OperationStep → List String
step_ids [] = []
step_ids (step ∷ rest) = step.id ∷ step_ids rest

unfoldable pub matches_plan : OperationRecord → Bool
unfolding same_scope
matches_plan r =
    str_eq r.id r.plan.id
    && str_eq r.tenant_id r.plan.tenant_id
    && str_eq r.operation_kind r.plan.operation_kind
    && same_scope r.actor_scope r.plan.actor.scope
    && same_text r.idempotency_key_hash r.plan.idempotency_key_hash
    && r.created_at == r.plan.created_at

unfoldable pub has_no_uids : List String → Bool
has_no_uids [] = true
has_no_uids (uid ∷ uids) = false

-- One round of the loop over `progress.steps`, between the entrys two times.
unfoldable pub validate_progress : Time → Time → String × StepProgress → Checked (Unit {0})
unfolding same_step_status has_no_uids
validate_progress created_at updated_at (step_id, progress) = do
  fail_if (not (str_eq progress.step_id step_id)) (
      invalid_plan (format ("progress key `" ∷ step_id ∷ "` does not match embedded step id" ∷ [])))
  fail_if (ltb progress.updated_at created_at || ltb updated_at progress.updated_at)
      (invalid_plan (format ("step `" ∷ step_id ∷ "` has an invalid update timestamp" ∷ [])))
  validate_task_uids step_id progress.task_uids
  fail_if (same_step_status progress.status StepStatus.submitted && has_no_uids progress.task_uids)
      (invalid_plan
        (format ("submitted step `" ∷ step_id ∷ "` must retain at least one task UID" ∷ [])))

unfoldable pub covers : Value → List String → Bool
covers digests ids = elim (as_object digests) [
  | none ↦ false
  | some fields ↦ same_set (field_names fields) ids
]

unfoldable pub validate_compaction : OperationRecord → Option Value → Checked (Unit {0})
validate_compaction entry none = ok tt
validate_compaction entry (some digests) = do
  fail_if (not (operation_is_settled entry))
      (invalid_plan "only settled operations may be compacted")
  fail_if (not (covers digests (step_ids (operation_steps entry.plan))))
      (invalid_plan "compacted payload digests do not cover exactly the planned steps")

unfoldable pub same_flag : Bool → Bool → Bool
same_flag true b = b
same_flag false b = not b

unfoldable pub validate_state : OperationRecord → Checked (Unit {0})
validate_state entry = do
  expected ← derive_operation_state entry
  fail_if
      (not (same_status entry.status expected.0)
        || not (same_indexing_state entry.indexing_state expected.1))
      (invalid_plan "record status does not match step progress")
  fail_if
      (not (
        same_flag (same_status entry.status OperationStatus.completed)
          (is_some entry.completed_at)))
      (invalid_plan "completed_at must be present only for completed operations")

unfoldable pub validate_operation_record : OperationRecord → Checked (Unit {0})
validate_operation_record entry = do
  validate_operation_plan entry.plan
  fail_if (not (matches_plan entry))
      (invalid_plan "record identity does not match its immutable plan")
  fail_if (ltb entry.updated_at entry.created_at)
      (invalid_plan "record updated_at precedes created_at")
  fail_if (not (same_set (step_ids (operation_steps entry.plan)) (keys entry.progress.steps)))
      (invalid_plan "record progress does not cover exactly the planned steps")
  for_each (validate_progress entry.created_at entry.updated_at) entry.progress.steps
  validate_state entry
  validate_compaction entry (get_field compacted_payloads_metadata_key entry.plan.redacted_metadata)

unfoldable pub new_progress : Time → OperationStep → StepProgress
new_progress created_at step = record {
  step_id = step.id;
  status = StepStatus.pending;
  attempts = 0;
  task_uids = [];
  last_error_category = none;
  last_error_fingerprint = none;
  updated_at = created_at;
}

-- `collect::<BTreeMap<_, _>>()`: the entries are inserted one after the other.
unfoldable pub collect_progress :
    Time → Table StepProgress → List OperationStep → Table StepProgress
unfolding new_progress
collect_progress created_at steps [] = steps
collect_progress created_at steps (step ∷ rest) =
    collect_progress created_at (insert step.id (new_progress created_at step) steps) rest

unfoldable pub new_record : OperationPlan → OperationRecord
unfolding collect_progress
new_record plan = record {
  id = plan.id;
  tenant_id = plan.tenant_id;
  operation_kind = plan.operation_kind;
  actor_scope = plan.actor.scope;
  idempotency_key_hash = plan.idempotency_key_hash;
  plan = plan;
  status = OperationStatus.pending;
  indexing_state = IndexingState.pending;
  progress = record {
    attempt_count = 0;
    steps = collect_progress plan.created_at [] (operation_steps plan);
  };
  created_at = plan.created_at;
  updated_at = plan.created_at;
  completed_at = none;
  last_error_category = none;
  last_error_fingerprint = none;
}

unfoldable pub operation_record_from_plan : OperationPlan → Checked OperationRecord
operation_record_from_plan plan = do validate_operation_plan plan; ok (new_record plan)
