-- ===== src/Mutation/Reports/Uids.antt =====
-- The task UIDs that a receipt and the persistence metadata of src/mutation.rs report.
use nowledge.Prelude.{
  String, ◌≡◌, Bool, false, ◌&&◌, ◌||◌, not, none, some, List, [], ◌∷◌, ◌++◌, arith, is_empty,
  contains, Option-cases, inl, inr,
}
use nowledge.Prelude.Sets.{IsUnique, contains-append}
use nowledge.Prelude.Table.{get}
use nowledge.Models.Operations.{OperationStep, OperationRecord, RepositoryWriteReceipt}
use nowledge.Mutation.Checks.{dedup_from, dedup_non_empty}
use nowledge.Mutation.Checks.Unique.{
  contains-dedup_from, dedup_from-IsUnique, append-dedup_from-IsUnique,
}
use nowledge.Mutation.Reports.{extend, gather_uids, primary_task_uids, persistence_metadata}

contains-append-dedup :
    (seen uids : List String) (a : String)
    → contains (seen ++ dedup_from seen uids) a
      ≡ (contains seen a || not (is_empty a) && contains uids a)
contains-append-dedup seen uids a =
    ground (arith, contains-append seen (dedup_from seen uids) a, contains-dedup_from seen uids a)

-- `extend` keeps UIDs unique, and the result holds what the first receipt held and what the other
-- one holds that is not empty.
pub extend_lem :
    (receipt other : RepositoryWriteReceipt)
    → IsUnique receipt.task_uids
    → IsUnique (extend receipt other).task_uids
      × ((a : String)
          → contains (extend receipt other).task_uids a
            ≡ (contains receipt.task_uids a || not (is_empty a) && contains other.task_uids a))
unfolding extend
extend_lem receipt other u = (
  append-dedup_from-IsUnique receipt.task_uids other.task_uids u,
  contains-append-dedup receipt.task_uids other.task_uids,
)

-- The UIDs of a step's progress; none if the step has none.
pub step_uids : OperationRecord → OperationStep → List String
step_uids entry step = elim (get step.id entry.progress.steps) [
  | none ↦ []
  | some progress ↦ progress.task_uids
]

pub any_uid : OperationRecord → List OperationStep → String → Bool
any_uid entry [] a = false
any_uid entry (step ∷ rest) a = contains (step_uids entry step) a || any_uid entry rest a

gather-IsUnique :
    (entry : OperationRecord) (uids : List String) (steps : List OperationStep)
    → IsUnique uids
    → IsUnique (gather_uids entry uids steps)
unfolding gather_uids
gather-IsUnique entry uids [] u = u
gather-IsUnique entry uids (step ∷ rest) u =
    elim (Option-cases (get step.id entry.progress.steps)) [
      | inl e ↦ rw (e, gather_uids) (gather-IsUnique entry uids rest u)
      | inr (p, e) ↦
          rw (e, gather_uids)
            (gather-IsUnique entry (uids ++ dedup_from uids p.task_uids) rest
              (append-dedup_from-IsUnique uids p.task_uids u))
    ]

contains-gather :
    (entry : OperationRecord) (uids : List String) (steps : List OperationStep) (a : String)
    → contains (gather_uids entry uids steps) a
      ≡ (contains uids a || not (is_empty a) && any_uid entry steps a)
unfolding gather_uids any_uid step_uids contains
contains-gather entry uids [] a = ground arith
contains-gather entry uids (step ∷ rest) a =
    elim (Option-cases (get step.id entry.progress.steps)) [
      | inl e ↦ ground (arith, contains-gather entry uids rest a)
      | inr (p, e) ↦ ground (
        arith,
        contains-gather entry (uids ++ dedup_from uids p.task_uids) rest a,
        contains-append-dedup uids p.task_uids a,
      )
    ]

primary-IsUnique : (entry : OperationRecord) → IsUnique (primary_task_uids entry)
unfolding primary_task_uids dedup_non_empty
primary-IsUnique entry = elim (Option-cases (get entry.plan.primary.id entry.progress.steps)) [
  | inl e ↦ rw (e, primary_task_uids) tt
  | inr (p, e) ↦ rw (e, primary_task_uids) (dedup_from-IsUnique [] p.task_uids)
]

contains-primary :
    (entry : OperationRecord) (a : String)
    → contains (primary_task_uids entry) a
      ≡ (not (is_empty a) && contains (step_uids entry entry.plan.primary) a)
unfolding primary_task_uids dedup_non_empty step_uids contains
contains-primary entry a = elim (Option-cases (get entry.plan.primary.id entry.progress.steps)) [
  | inl e ↦ ground arith
  | inr (p, e) ↦ ground (arith, contains-dedup_from [] p.task_uids a)
]

-- The reported UIDs are unique, those of the primary step are too, and a text is reported exactly
-- when it is not empty and the progress of the primary or of a side effect holds it.
pub persistence_metadata_uids :
    (entry : OperationRecord)
    → IsUnique (persistence_metadata entry).task_uids
      × IsUnique (persistence_metadata entry).primary_task_uids
      × ((a : String)
          → contains (persistence_metadata entry).task_uids a ≡ (
              not (is_empty a)
              && (contains (step_uids entry entry.plan.primary) a
                  || any_uid entry entry.plan.side_effects a)))
unfolding persistence_metadata
persistence_metadata_uids entry = (
  gather-IsUnique entry (primary_task_uids entry) entry.plan.side_effects (primary-IsUnique entry),
  primary-IsUnique entry,
  λ a. ground (
    arith,
    contains-primary entry a,
    contains-gather entry (primary_task_uids entry) entry.plan.side_effects a,
  ),
)
