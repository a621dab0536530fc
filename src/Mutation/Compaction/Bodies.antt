-- ===== src/Mutation/Compaction/Bodies.antt =====
-- The checks of src/mutation.rs on a plan whose content bodies are cleared.
use nowledge.Prelude.{ℕ, String, ◌≡◌, refl, ap, Option, List, [], ◌∷◌, map, arith}
use nowledge.Prelude.Table.{Table}
use nowledge.Models.Operations.{
  OperationResource, OperationStep, OperationStepProgress as StepProgress,
}
use nowledge.Mutation.Checks.{for_each_from, require_non_empty_slice, tenant_matches}
use nowledge.Mutation.Checks.Loops.{for_each-map, for_each_from-map}
use nowledge.Mutation.Resources.{is_nil, validate_event, validate_node, validate_resource}
use nowledge.Mutation.Plans.{
  check_delete_target, check_delete_step, validate_step, validate_side_effect, bind_event,
  bind_node, bind_link, bind_resource, bind_step,
}
use nowledge.Mutation.Records.{step_ids, side_statuses}
use nowledge.Mutation.Compaction.{
  clear_event, clear_node, clear_document, clear_row, clear_link, clear_revision, clear_verdict,
  clear_case_result, clear_resource_bodies, clear_step,
}

slice-map {ℓ κ} :
    {A : Type ℓ} {B : Type κ} (f : A → B) (label : String) (xs : List A)
    → require_non_empty_slice label (map f xs) ≡ require_non_empty_slice label xs
unfolding require_non_empty_slice
slice-map f label [] = refl
slice-map f label (x ∷ xs) = refl

is_nil-map {ℓ κ} :
    {A : Type ℓ} {B : Type κ} (f : A → B) (xs : List A) → is_nil (map f xs) ≡ is_nil xs
unfolding is_nil
is_nil-map f [] = refl
is_nil-map f (x ∷ xs) = refl

-- A payload whose bodies are cleared passes or fails the payload check as before, with the same
-- error.
pub validate_resource-clear :
    (t : String) (resource : OperationResource)
    → validate_resource t (clear_resource_bodies resource) ≡ validate_resource t resource
unfolding clear_resource_bodies validate_resource
validate_resource-clear t (OperationResource.history_events []) = refl
validate_resource-clear t (OperationResource.history_events (first ∷ rest)) = rw (
    for_each-map clear_event (validate_event t (clear_event first)) (validate_event t first)
      (first ∷ rest) (λ e. refl))
validate_resource-clear t (OperationResource.context_nodes index_uid nodes) = rw (
  slice-map clear_node "context nodes" nodes,
  for_each-map clear_node (validate_node t index_uid) (validate_node t index_uid) nodes (λ n. refl),
)
validate_resource-clear t (OperationResource.source_documents documents) = rw (
  slice-map clear_document "source documents" documents,
  for_each-map clear_document (λ d. tenant_matches t d.tenant_id "source document")
      (λ d. tenant_matches t d.tenant_id "source document") documents (λ d. refl),
)
validate_resource-clear t (OperationResource.structured_rows rows) =
    slice-map clear_row "structured rows" rows
validate_resource-clear t (OperationResource.links entries) = rw (
  slice-map clear_link "links" entries,
  for_each-map clear_link (λ d. tenant_matches t d.tenant_id "link")
      (λ d. tenant_matches t d.tenant_id "link") entries (λ d. refl),
)
validate_resource-clear t (OperationResource.harness_components components edits) = rw (
  is_nil-map clear_revision edits,
  for_each-map clear_revision (λ d. tenant_matches t d.tenant_id "harness revision")
      (λ d. tenant_matches t d.tenant_id "harness revision") edits (λ d. refl),
)
validate_resource-clear t (OperationResource.harness_verdicts verdicts) = rw (
  slice-map clear_verdict "harness verdicts" verdicts,
  for_each-map clear_verdict (λ d. tenant_matches t d.tenant_id "harness verdict")
      (λ d. tenant_matches t d.tenant_id "harness verdict") verdicts (λ d. refl),
)
validate_resource-clear t (OperationResource.eval_case_results results) = rw (
  slice-map clear_case_result "evaluation case results" results,
  for_each-map clear_case_result (λ d. tenant_matches t d.tenant_id "evaluation case result")
      (λ d. tenant_matches t d.tenant_id "evaluation case result") results (λ d. refl),
)
validate_resource-clear t _ = refl

check_delete_target-clear :
    (next : Table ℕ) (id : String) (resource : OperationResource)
    → check_delete_target next id (clear_resource_bodies resource)
      ≡ check_delete_target next id resource
unfolding check_delete_target clear_resource_bodies
check_delete_target-clear next id (OperationResource.delete_company_source_index source target) =
    refl
check_delete_target-clear next id (OperationResource.history_events events) = refl
check_delete_target-clear next id _ = refl

bind_resource-clear :
    (hash : String) (target : Option String) (resource : OperationResource)
    → bind_resource hash target (clear_resource_bodies resource)
      ≡ bind_resource hash target resource
unfolding bind_resource clear_resource_bodies
bind_resource-clear hash target (OperationResource.history_events events) =
    for_each_from-map clear_event (bind_event hash) (bind_event hash) target events (λ s e. refl)
bind_resource-clear hash target (OperationResource.context_nodes index_uid nodes) =
    for_each_from-map clear_node bind_node bind_node target nodes (λ s e. refl)
bind_resource-clear hash target (OperationResource.links entries) =
    for_each_from-map clear_link bind_link bind_link target entries (λ s e. refl)
bind_resource-clear hash target _ = refl

-- The loops over the steps take the same course over the cleared steps.
pub check_delete_step-clear :
    (next : Table ℕ) (steps : List OperationStep)
    → for_each_from check_delete_step next (map clear_step steps)
      ≡ for_each_from check_delete_step next steps
unfolding check_delete_step clear_step
check_delete_step-clear next steps =
    for_each_from-map clear_step check_delete_step check_delete_step next steps
      (λ s step. check_delete_target-clear s step.id step.resource)

pub bind_step-clear :
    (hash : String) (target : Option String) (steps : List OperationStep)
    → for_each_from (bind_step hash) target (map clear_step steps)
      ≡ for_each_from (bind_step hash) target steps
unfolding bind_step clear_step
bind_step-clear hash target steps =
    for_each_from-map clear_step (bind_step hash) (bind_step hash) target steps
      (λ s step. bind_resource-clear hash s step.resource)

pub validate_step-clear :
    (t : String) (ids : List String) (step : OperationStep)
    → validate_step t ids (clear_step step) ≡ validate_step t ids step
unfolding validate_step clear_step
validate_step-clear t ids step = rw (validate_resource-clear t step.resource)

pub clear_step-role :
    (step : OperationStep) → ((clear_step step).role ≡ step.role) × ((clear_step step).id ≡ step.id)
unfolding clear_step
clear_step-role step = (refl, refl)

validate_one-clear :
    (t : String) (ids : List String) (step : OperationStep)
    → validate_side_effect t ids (clear_step step) ≡ validate_side_effect t ids step
unfolding validate_side_effect
validate_one-clear t ids step = ground (arith, validate_step-clear t ids step, clear_step-role step)

pub validate_side_effect-clear :
    (t : String) (ids : List String) (steps : List OperationStep)
    → for_each_from (validate_side_effect t) ids (map clear_step steps)
      ≡ for_each_from (validate_side_effect t) ids steps
validate_side_effect-clear t ids steps =
    for_each_from-map clear_step (validate_side_effect t) (validate_side_effect t) ids steps
      (validate_one-clear t)

pub step_ids-clear : (steps : List OperationStep) → step_ids (map clear_step steps) ≡ step_ids steps
unfolding step_ids clear_step
step_ids-clear [] = refl
step_ids-clear (step ∷ rest) = ap (λ (ids : List String). step.id ∷ ids) (step_ids-clear rest)

pub side_statuses-clear :
    (m : Table StepProgress) (steps : List OperationStep)
    → side_statuses m (map clear_step steps) ≡ side_statuses m steps
unfolding side_statuses clear_step
side_statuses-clear m [] = refl
side_statuses-clear m (step ∷ rest) = ground (arith, side_statuses-clear m rest)
