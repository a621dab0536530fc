-- ===== src/TenantScope/Documents.antt =====
-- The documents of src/tenant_scope.rs: how a value is stored for a tenant, recognised and restored.
-- `serde_json::to_value` has already made a `Value` of it.
use nowledge.Prelude.{
  String, str_eq, Bool, true, false, not, ◌&&◌, ◌||◌, Option, none, some, [], ◌∷◌, if◌then◌else◌,
  Result, ok, err, ◌>>◌, ◌>>=◌, fail_if, ok_or, is_blank, format,
}
use nowledge.Json.{
  Value, null, string, object, Fields, end, is_object, get_in, get_field, as_str, as_object,
  insert_in, retain,
}
use nowledge.Boundary.Errors.{ApiError, internal}
use nowledge.TenantScope.Identities.{
  require_non_empty, scoped_storage_identity, owner_scoped_storage_identity, persisted_document_id,
}

abbrev pub payload_field : String
payload_field = "__nowledge_row_payload_v1"

-- The fields of an object; what is no object is stored under `value`.
unfoldable pub as_map : Value → Fields
as_map value = elim (as_object value) [ some fields ↦ fields | none ↦ insert_in "value" value end ]

-- The tenant that the value already names must be none or this one.
unfoldable pub check_tenant : String → Option Value → Result ApiError (Unit {0})
unfolding is_blank
check_tenant tenant_id none = ok tt
check_tenant tenant_id (some (string existing)) =
    fail_if (not (str_eq existing tenant_id || is_blank existing))
      (internal "persisted document tenant_id does not match its repository scope")
check_tenant tenant_id (some _) = err (internal "persisted document tenant_id must be a string")

unfoldable pub scoped_fields : String → String → String → Fields → Fields
unfolding insert_in
scoped_fields tenant_id logical_id id document =
    insert_in "tenant_id" (string tenant_id)
      (insert_in "logical_id" (string logical_id) (insert_in "id" (string id) document))

abbrev pub text_field : String → Value → Option String
text_field key document = elim (get_field key document) [ none ↦ none | some value ↦ as_str value ]

-- A chain of `let … else { return false }`.
abbrev Found : Type 0 → Type 0
Found A = Result (Unit {0}) A

abbrev pub found_text : String → Value → Found String
found_text key document = ok_or (text_field key document) tt

abbrev hide : {A : Type 0} → Result ApiError A → Found A
hide (ok a) = ok a
hide (err e) = err tt

-- `Map::remove`; a map holds a key once.
unfoldable pub remove_in : String → Fields → Fields
unfolding retain
remove_in key fields = retain (λ other. not (str_eq other key)) fields

unfoldable pub document_kind : String → Value → Found String
unfolding format get_field
document_kind index_uid document =
    if str_eq index_uid "rag_harness_components"
    then (found_text "doc_kind" document >>= λ kind.
        if str_eq kind "component" || str_eq kind "revision"
        then ok (format (index_uid ∷ ":" ∷ kind ∷ []))
        else err tt)
    else ok index_uid

unfoldable pub document_owner : Option Value → Found (Option String)
document_owner none = ok none
document_owner (some null) = ok none
document_owner (some (string owner)) = ok (some owner)
document_owner (some _) = err tt

abbrev is_payload : Option Value → Bool
is_payload none = false
is_payload (some value) = is_object value

unfoldable pub storage_identity : String → Value → String → Found String
unfolding get_field is_object document_owner scoped_storage_identity owner_scoped_storage_identity
storage_identity index_uid document logical_id =
    if str_eq index_uid "rag_structured_rows"
    then (fail_if (not (is_payload (get_field payload_field document))) tt
        >> (found_text "snapshot_id" document >>= λ snapshot_id.
            hide (scoped_storage_identity snapshot_id logical_id)))
    else if str_eq index_uid "rag_parse_artifacts"
    then (document_owner (get_field "owner_user_id" document) >>= λ owner.
        hide (owner_scoped_storage_identity owner logical_id))
    else ok logical_id

abbrev pub is_text : Option String → String → Bool
is_text none text = false
is_text (some other) text = str_eq other text

abbrev succeeds : Found (Unit {0}) → Bool
succeeds (ok _) = true
succeeds (err _) = false

-- The payload of a structured row.
unfoldable pub restore_payload : Value → Value
unfolding get_field
restore_payload document = elim (get_field payload_field document) [
  | none ↦ document
  | some payload ↦ payload
]

-- The fields with the logical id as their id.
restored_id : Option Value → Fields → Fields
unfolding insert_in
restored_id (some (string logical_id)) fields = insert_in "id" (string logical_id) fields
restored_id _ fields = fields

unfoldable pub restore_fields : Value → Value
unfolding remove_in restored_id get_in
restore_fields document = elim (as_object document) [
  | none ↦ document
  | some fields ↦ object (restored_id (get_in "logical_id" fields) (remove_in "logical_id" fields))
]

module _ (document_hmac : String → String) where
  unfoldable pub tenant_document_with_storage_identity :
      String → String → String → String → Value → Result ApiError Value
  unfolding require_non_empty as_map check_tenant get_in persisted_document_id scoped_fields
  tenant_document_with_storage_identity tenant_id kind logical_id identity value = do
    require_non_empty "tenant_id" tenant_id
    require_non_empty "logical_id" logical_id
    require_non_empty "storage_identity" identity
    check_tenant tenant_id (get_in "tenant_id" (as_map value))
    id ← persisted_document_id document_hmac tenant_id kind identity
    ok (object (scoped_fields tenant_id logical_id id (as_map value)))

  unfoldable pub tenant_document : String → String → String → Value → Result ApiError Value
  unfolding tenant_document_with_storage_identity
  tenant_document tenant_id kind logical_id value =
      tenant_document_with_storage_identity tenant_id kind logical_id logical_id value

  unfoldable pub tenant_structured_row_document : String → Value → Result ApiError Value
  unfolding scoped_storage_identity tenant_document_with_storage_identity
  tenant_structured_row_document tenant_id row = do
    payload ← ok_or (as_object row) (internal "structured row must be a JSON object")
    logical_id ← ok_or (text_field "id" (object payload)) (internal "structured row is missing id")
    snapshot_id ←
        ok_or (text_field "snapshot_id" (object payload))
          (internal "structured row is missing snapshot_id")
    identity ← scoped_storage_identity snapshot_id logical_id
    document ←
        tenant_document_with_storage_identity tenant_id "rag_structured_rows" logical_id identity
          row
    ok (
        object (
          insert_in payload_field
            (object (
              insert_in "tenant_id" (string tenant_id)
                (insert_in "id" (string logical_id) payload)))
            (as_map document)))

  -- The checks of `is_tenant_document`.
  unfoldable pub recognise : String → Value → Found (Unit {0})
  unfolding get_field document_kind
  recognise index_uid document = do
    id ← found_text "id" document
    tenant_id ← found_text "tenant_id" document
    logical_id ← found_text "logical_id" document
    fail_if (is_blank tenant_id || is_blank logical_id) tt
    kind ← document_kind index_uid document
    identity ← storage_identity index_uid document logical_id
    fail_if
        (str_eq index_uid "rag_company_context"
          && not (is_text (text_field "uri" document) logical_id))
        tt
    expected ← hide (persisted_document_id document_hmac tenant_id kind identity)
    fail_if (not (str_eq expected id)) tt

  unfoldable pub is_tenant_document : String → Value → Bool
  unfolding recognise
  is_tenant_document index_uid document = succeeds (recognise index_uid document)

  unfoldable pub restore_logical_id : String → Value → Value
  unfolding is_tenant_document remove_in insert_in
  restore_logical_id index_uid document =
      if is_tenant_document index_uid document
      then if str_eq index_uid "rag_structured_rows"
        then restore_payload document
        else restore_fields document
      else document
