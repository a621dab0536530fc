-- ===== src/TenantScope/Examples.antt =====
-- The stored documents of src/tenant_scope.rs at concrete values, with a stand-in for HMAC.
use nowledge.Prelude.{
  String, str_eq, ◌≡◌, refl, ◌⊎◌, true, Option, none, some, List, [], ◌∷◌, Result, if◌then◌else◌,
  ok, is_blank,
}
use nowledge.Json
use nowledge.Json.{Value, string, object, Fields, end, field, get_in, get_field, insert_in, null}
use nowledge.TenantScope.Identities.{
  length_prefixed_identity, owner_scoped_storage_identity, persisted_document_id,
}
use nowledge.TenantScope.Injective.{persisted_document_id_injective}
use nowledge.TenantScope.Documents
use nowledge.TenantScope.Documents.{
  as_map, tenant_document, tenant_structured_row_document, restore_logical_id,
}
use nowledge.TenantScope.Rows.{restore_structured_row}
use nowledge.TenantScope.Restore.{
  IsIdentifiedByLogicalId, tenant_document-scope, restore_tenant_document,
}

abbrev document_hmac : String → String
document_hmac identity = identity

identity : length_prefixed_identity ("company" ∷ "é" ∷ []) ≡ "7:company2:é"
unfolding length_prefixed_identity
identity = refl

abbrev parts : List String
parts = "tenant-a" ∷ "rag_sources" ∷ []

abbrev tenant : String
tenant = "tenant-a"

abbrev kind : String
kind = "rag_sources"

abbrev logical : String
logical = "source-1"

document_id :
    persisted_document_id document_hmac tenant kind logical
    ≡ ok "ts1_8:tenant-a11:rag_sources8:source-1"
unfolding persisted_document_id
document_id = refl

persisted_document_id_injective_example : (tenant ≡ tenant) × (kind ≡ kind) × (logical ≡ logical)
persisted_document_id_injective_example =
    persisted_document_id_injective document_hmac (λ a b same. same) tenant kind logical tenant kind
      logical "ts1_8:tenant-a11:rag_sources8:source-1" document_id document_id

owner_identity : owner_scoped_storage_identity (some "u1") logical ≡ ok "11:5:owner2:u18:source-1"
unfolding owner_scoped_storage_identity
owner_identity = refl

abbrev owner : Option String
owner = some "u1"

abbrev source : Value
source = object (field "id" (string "source-1") (field "title" (string "Source") end))

abbrev stored : Value
stored = object (
    field "id" (string "ts1_8:tenant-a11:rag_sources8:source-1") (
      field "logical_id" (string "source-1")
        (field "tenant_id" (string "tenant-a") (field "title" (string "Source") end))))

source_document :
    tenant_document document_hmac "tenant-a" "rag_sources" "source-1" source ≡ ok stored
unfolding tenant_document Json.as_object
source_document = refl

tenant_document-scope_example :
    (get_field "tenant_id" stored ≡ some (string "tenant-a"))
    × ((get_in "tenant_id" (as_map source) ≡ none)
        ⊎ ((named : String) × (get_in "tenant_id" (as_map source) ≡ some (string named))
            × ((named ≡ "tenant-a") ⊎ (is_blank named ≡ true))))
tenant_document-scope_example =
    tenant_document-scope document_hmac "tenant-a" "rag_sources" "source-1" source stored
      source_document

restored_source :
    restore_logical_id document_hmac "rag_sources" stored
    ≡ object (
        field "id"
          (string "source-1")
          (field "tenant_id" (string "tenant-a") (field "title" (string "Source") end)))
unfolding restore_logical_id persisted_document_id Json.as_str Json.as_object
    Documents.restore_fields Documents.storage_identity
restored_source = refl

abbrev component : Value
component = object (field "doc_kind" (string "component") (field "id" (string "planner") end))

abbrev stored_component : Value
stored_component =
    elim (tenant_document document_hmac "tenant-a" "rag_harness_components:component" "planner"
      component) [ Result.ok document ↦ document | Result.err e ↦ null ]

component_document :
    tenant_document document_hmac "tenant-a" "rag_harness_components:component" "planner" component
    ≡ ok stored_component
unfolding tenant_document Json.as_object
component_document = refl

component-IsIdentifiedByLogicalId :
    IsIdentifiedByLogicalId "rag_harness_components" "rag_harness_components:component" "planner"
      (object (as_map component))
unfolding Documents.document_kind Json.as_object Json.as_str as_map
component-IsIdentifiedByLogicalId = record {
  no_rows = refl;
  no_artifacts = refl;
  shown_kind = refl;
  own_uri = λ context. absurd (cc);
}

restore_tenant_document_example :
    (restored : Fields) × (restore_logical_id document_hmac "rag_harness_components"
        stored_component
      ≡ object restored)
    × ((k : String)
        → get_in k restored ≡ (
            if str_eq "id" k
            then some (string "planner")
            else if str_eq "logical_id" k
            then none
            else if str_eq "tenant_id" k
            then some (string "tenant-a")
            else get_in k (as_map component)))
restore_tenant_document_example =
    restore_tenant_document document_hmac "rag_harness_components"
      "rag_harness_components:component" "tenant-a" "planner" component stored_component
      component-IsIdentifiedByLogicalId component_document

abbrev row_fields : Fields
row_fields = field "id" (string "r1") (field "snapshot_id" (string "s1") end)

abbrev run_row : Value
run_row = elim (tenant_structured_row_document document_hmac "tenant-a" (object row_fields)) [
  | Result.ok document ↦ document
  | Result.err e ↦ null
]

stored_row_document :
    tenant_structured_row_document document_hmac "tenant-a" (object row_fields) ≡ ok run_row
unfolding tenant_structured_row_document Json.as_object Json.as_str get_field
stored_row_document = refl

restore_structured_row_example :
    (fields : Fields) × (object row_fields ≡ object fields)
    × ((logical_id : String) × (get_in "id" fields ≡ some (string logical_id))
        × (restore_logical_id document_hmac "rag_structured_rows" run_row
            ≡ object (
                insert_in "tenant_id"
                  (string "tenant-a")
                  (insert_in "id" (string logical_id) fields))))
restore_structured_row_example =
    restore_structured_row document_hmac "tenant-a" (object row_fields) run_row stored_row_document
