-- ===== src/Mutation/Plans.antt =====
-- `validate_operation_plan` of src/mutation.rs: the plan's identity, its steps, the order of a
-- company source's deletions, and the one owner of an analysis.
pub mod Steps
pub mod Deletes
use nowledge.Prelude.{
  ℕ, ◌+◌, String, str_eq, Bool, true, false, ◌&&◌, not, Option, none, some, List, [], ◌∷◌, ok, err,
  ◌>>=◌, ◌>>◌, fail_if, ok_or, format, decimal, contains, ◌==◌, ltb, is_some, if◌then◌else◌,
}
use nowledge.Prelude.Table.{Table, get, insert}
use nowledge.Json.{Value, get_field, as_str, is_null, is_object}
use nowledge.Models.History.{UserEventIndex, HistoryEvent}
use nowledge.Models.Context.{ContextNode}
use nowledge.Models.Knowledge.{InsightRecord, KnowledgeLink}
use nowledge.Models.Operations.{
  OperationActorScope, OperationActor, OperationStepRole, CompanySourceDeleteTarget,
  OperationResource, OperationStep, OperationPlan,
}
use nowledge.Mutation.Checks.{
  Checked, invalid_plan, for_each, for_each_from, require_non_empty, validate_unique_non_empty,
}
use nowledge.Mutation.Resources.{validate_resource}

abbrev pub operation_plan_schema_version : ℕ
operation_plan_schema_version = 1

abbrev pub or_default : Option String → String
or_default none = ""
or_default (some text) = text

abbrev pub or_zero : Option ℕ → ℕ
or_zero none = 0
or_zero (some n) = n

unfoldable pub operation_steps : OperationPlan → List OperationStep
operation_steps plan = plan.primary ∷ plan.side_effects

unfoldable pub is_primary : OperationStepRole → Bool
is_primary OperationStepRole.primary = true
is_primary OperationStepRole.side_effect = false

-- `step_ids` is the `HashSet`; the new set is returned.
unfoldable pub validate_step : String → List String → OperationStep → Checked (List String)
validate_step tenant_id step_ids step = do
  require_non_empty "step id" step.id
  fail_if (contains step_ids step.id)
      (invalid_plan (format ("duplicate step id `" ∷ step.id ∷ "`" ∷ [])))
  validate_resource tenant_id step.resource
  ok (step.id ∷ step_ids)

unfoldable pub validate_side_effect : String → List String → OperationStep → Checked (List String)
validate_side_effect tenant_id step_ids step = do
  fail_if (is_primary step.role) (
      invalid_plan
        (format ("side-effect step `" ∷ step.id ∷ "` must have the side_effect role" ∷ [])))
  validate_step tenant_id step_ids step

-- The steps' part of `validate_operation_plan`, with the ids that it has seen.
unfoldable pub validate_steps : OperationPlan → Checked (List String)
validate_steps plan = do
  fail_if (not (is_primary plan.primary.role))
      (invalid_plan "primary step must have the primary role")
  step_ids ← validate_step plan.tenant_id [] plan.primary
  for_each_from (validate_side_effect plan.tenant_id) step_ids plan.side_effects

unfoldable pub target_index : CompanySourceDeleteTarget → ℕ
target_index CompanySourceDeleteTarget.fragments = 0
target_index CompanySourceDeleteTarget.revisions = 1
target_index CompanySourceDeleteTarget.source = 2
target_index CompanySourceDeleteTarget.source_documents = 3
target_index CompanySourceDeleteTarget.parse_artifacts = 4
target_index CompanySourceDeleteTarget.ingest_tasks = 5
target_index CompanySourceDeleteTarget.ingest_results = 6
target_index (CompanySourceDeleteTarget.links _ _) = 7

-- One round of the loop: `entry(source_id).or_default()` reads 0 for a new source.
unfoldable pub check_delete_target : Table ℕ → String → OperationResource → Checked (Table ℕ)
unfolding target_index
check_delete_target next step_id (OperationResource.delete_company_source_index source_id target) =
    let expected = or_zero (get source_id next) in
    do
      fail_if (not (target_index target == expected)) (
          invalid_plan (
            format (
              "company source `" ∷ source_id ∷ "` deletion target is out of order at step `"
              ∷ step_id ∷ "`" ∷ [])))
      ok (insert source_id (expected + 1) next)
check_delete_target next step_id _ = ok next

unfoldable pub check_delete_step : Table ℕ → OperationStep → Checked (Table ℕ)
check_delete_step next step = check_delete_target next step.id step.resource

unfoldable pub check_all_targets : String × ℕ → Checked (Unit {0})
check_all_targets (source_id, next_target) = fail_if (ltb next_target 7) (
    invalid_plan (
      format
        ("company source `" ∷ source_id ∷ "` deletion omits a required managed-index step" ∷ [])))

unfoldable pub validate_company_source_delete_steps : OperationPlan → Checked (Unit {0})
validate_company_source_delete_steps plan = do
  next ← for_each_from check_delete_step [] (operation_steps plan)
  for_each check_all_targets next

-- `target_owner` is the owner that the steps so far have named.
unfoldable pub bind_analysis_owner : Option String → String → Checked (Option String)
bind_analysis_owner none owner = do
  require_non_empty "analysis resource owner" owner
  ok (some owner)
bind_analysis_owner (some expected) owner = do
  require_non_empty "analysis resource owner" owner
  fail_if (not (str_eq expected owner))
      (invalid_plan "analysis materialization mixes target owners")
  ok (some expected)

unfoldable pub bind_event : String → Option String → HistoryEvent → Checked (Option String)
unfolding bind_analysis_owner
bind_event owner_hash target_owner event = do
  fail_if (not (str_eq event.owner_user_id_hash owner_hash))
      (invalid_plan "analysis history resource does not match its target owner commitment")
  bind_analysis_owner target_owner event.owner_user_id

unfoldable pub bind_node : Option String → ContextNode → Checked (Option String)
unfolding bind_analysis_owner
bind_node target_owner node = do
  owner ← ok_or node.owner_user_id (invalid_plan "analysis context resource must be owner scoped")
  bind_analysis_owner target_owner owner

unfoldable pub bind_link : Option String → KnowledgeLink → Checked (Option String)
unfolding bind_analysis_owner
bind_link target_owner link = do
  owner ← ok_or link.owner_user_id (invalid_plan "analysis link resource must be owner scoped")
  bind_analysis_owner target_owner owner

unfoldable pub bind_resource : String → Option String → OperationResource → Checked (Option String)
unfolding bind_event bind_node bind_link bind_analysis_owner
bind_resource owner_hash target_owner (OperationResource.ensure_user_event_index index) = do
  fail_if (not (str_eq index.owner_user_id_hash owner_hash))
      (invalid_plan "analysis user-index resource does not match its target owner commitment")
  ok target_owner
bind_resource owner_hash target_owner (OperationResource.history_events events) =
    for_each_from (bind_event owner_hash) target_owner events
bind_resource owner_hash target_owner (OperationResource.context_nodes _ nodes) =
    for_each_from bind_node target_owner nodes
bind_resource owner_hash target_owner (OperationResource.insight entry) =
    bind_analysis_owner target_owner entry.owner_user_id
bind_resource owner_hash target_owner (OperationResource.links entries) =
    for_each_from bind_link target_owner entries
bind_resource owner_hash target_owner _ =
    err (invalid_plan "analysis materialization contains an unsupported operation resource")

unfoldable pub bind_step : String → Option String → OperationStep → Checked (Option String)
bind_step owner_hash target_owner step = bind_resource owner_hash target_owner step.resource

-- `redacted_metadata.get(…).and_then(Value::as_str)`.
unfoldable pub owner_commitment : Value → Option String
owner_commitment metadata = elim (get_field "target_owner_user_id_hash" metadata) [
  | none ↦ none
  | some v ↦ as_str v
]

-- What an analysis plan must satisfy.
unfoldable pub validate_analysis_owner : OperationPlan → Checked (Unit {0})
validate_analysis_owner plan = do
  owner_hash ←
      ok_or (owner_commitment plan.redacted_metadata)
        (invalid_plan "analysis materialization is missing its target owner commitment")
  require_non_empty "analysis target owner hash" owner_hash
  target_owner ← for_each_from (bind_step owner_hash) none (operation_steps plan)
  fail_if (not (is_some target_owner))
      (invalid_plan "analysis materialization contains no owner-scoped resource")

unfoldable pub validate_analysis_materialization_steps : OperationPlan → Checked (Unit {0})
validate_analysis_materialization_steps plan =
    if str_eq plan.operation_kind "analysis.materialize"
    then validate_analysis_owner plan
    else ok tt

-- `if let Some(value) = … { require_non_empty(…)? }`.
unfoldable pub require_if_given : String → Option String → Checked (Unit {0})
require_if_given label none = ok tt
require_if_given label (some value) = require_non_empty label value

unfoldable pub require_owner : OperationActorScope → String → Checked (Unit {0})
require_owner OperationActorScope.owner owner_hash = require_non_empty "owner actor hash" owner_hash
require_owner _ owner_hash = ok tt

unfoldable pub validate_actor : OperationActor → Checked (Unit {0})
validate_actor actor = do
  require_if_given "request id" actor.request_id
  require_owner actor.scope (or_default actor.owner_user_id_hash)
  validate_unique_non_empty "actor role" actor.roles

-- The part of `validate_operation_plan` above the steps.
unfoldable pub validate_plan_header : OperationPlan → Checked (Unit {0})
validate_plan_header plan = do
  fail_if (not (plan.schema_version == operation_plan_schema_version)) (
      invalid_plan (
        format (
          "unsupported schema version "
          ∷ decimal plan.schema_version
          ∷ "; expected "
          ∷ decimal operation_plan_schema_version
          ∷ [])))
  require_non_empty "operation id" plan.id
  require_non_empty "tenant id" plan.tenant_id
  require_non_empty "operation kind" plan.operation_kind
  require_if_given "idempotency key hash" plan.idempotency_key_hash
  validate_actor plan.actor
  fail_if (not (is_null plan.redacted_metadata) && not (is_object plan.redacted_metadata))
      (invalid_plan "redacted metadata must be an object or null")

unfoldable pub validate_operation_plan : OperationPlan → Checked (Unit {0})
validate_operation_plan plan = do
  validate_plan_header plan
  _ ← validate_steps plan
  validate_company_source_delete_steps plan
  validate_analysis_materialization_steps plan
