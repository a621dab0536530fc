-- ===== src/TenantScope/Rows.antt =====
-- The stored documents of structured rows in src/tenant_scope.rs, and their restoring.
use nowledge.Prelude.{
  String, str_eq, eq_refl, ◌≡◌, refl, subst, ap, ◌∙◌, false, Option, none, some, Result, ok, ◌>>=◌,
  >>=-eq-ok, ok_or, ok_or-eq-ok, is_blank,
}
use nowledge.Json.{
  Value, null, boolean, number, array, string, object, as_str, as_object, is_object, Fields, get_in,
  get_field, insert_in,
}
use nowledge.Json.Laws.{get_in-insert_in}
use nowledge.Boundary.Errors.{ApiError}
use nowledge.TenantScope.Identities.{scoped_storage_identity, persisted_document_id}
use nowledge.TenantScope.Documents.{
  payload_field, text_field, as_map, scoped_fields, storage_identity, document_kind,
  restore_payload, tenant_document_with_storage_identity, tenant_structured_row_document, recognise,
  is_tenant_document, restore_logical_id,
}
use nowledge.TenantScope.Restore.{get_in-scoped_fields, Stored-of}

text_in :
    (o : Option Value) (text : String)
    → elim o [ none ↦ none | some value ↦ as_str value ] ≡ some text
    → o ≡ some (string text)
unfolding as_str
text_in none text h = absurd (cc)
text_in (some (string s)) text h = cc
text_in (some null) text h = absurd (cc)
text_in (some (boolean b)) text h = absurd (cc)
text_in (some (number n)) text h = absurd (cc)
text_in (some (array items)) text h = absurd (cc)
text_in (some (object fields)) text h = absurd (cc)

text_of :
    (k : String) (m : Fields) (text : String)
    → text_field k (object m) ≡ some text
    → get_in k m ≡ some (string text)
unfolding get_field
text_of k m text h = text_in (get_in k m) text h

module _ (tenant logical id : String) (m payload : Fields) where
  abbrev row_fields : Fields
  row_fields = insert_in payload_field (object payload) (scoped_fields tenant logical id m)

  get_in-row_fields :
      (k : String)
      → str_eq payload_field k ≡ false
      → get_in k row_fields ≡ get_in k (scoped_fields tenant logical id m)
  get_in-row_fields k apart =
      get_in-insert_in payload_field k (object payload) (scoped_fields tenant logical id m)
      ∙ rw apart refl

  row_identity :
      (snapshot identity : String)
      → get_in "snapshot_id" m ≡ some (string snapshot)
      → scoped_storage_identity snapshot logical ≡ ok identity
      → storage_identity "rag_structured_rows" (object row_fields) logical ≡ ok identity
  unfolding storage_identity get_field as_str is_object
  row_identity snapshot identity snap scoped =
      let p : get_in payload_field row_fields ≡ some (object payload) =
        get_in-insert_in payload_field payload_field (object payload)
          (scoped_fields tenant logical id m) in
      let q : get_in "snapshot_id" row_fields ≡ some (string snapshot) =
        get_in-row_fields "snapshot_id" refl
        ∙ get_in-scoped_fields tenant logical id m "snapshot_id"
        ∙ snap in
      rw (p, q, scoped, ◌>>=◌) refl

  recognise-row :
      (document_hmac : String → String) (snapshot identity : String)
      → is_blank tenant ≡ false
      → is_blank logical ≡ false
      → get_in "snapshot_id" m ≡ some (string snapshot)
      → scoped_storage_identity snapshot logical ≡ ok identity
      → persisted_document_id document_hmac tenant "rag_structured_rows" identity ≡ ok id
      → recognise document_hmac "rag_structured_rows" (object row_fields) ≡ ok tt
  unfolding recognise document_kind get_field as_str is_object
  recognise-row document_hmac snapshot identity t l snap scoped persisted =
      let f : get_in "id" row_fields ≡ some (string id) =
        get_in-row_fields "id" refl ∙ get_in-scoped_fields tenant logical id m "id" in
      let g : get_in "tenant_id" row_fields ≡ some (string tenant) =
        get_in-row_fields "tenant_id" refl ∙ get_in-scoped_fields tenant logical id m "tenant_id" in
      let h : get_in "logical_id" row_fields ≡ some (string logical) =
        get_in-row_fields "logical_id" refl
        ∙ get_in-scoped_fields tenant logical id m "logical_id" in
      let s = row_identity snapshot identity snap scoped in
      rw (f, g, h, t, l, s, persisted, eq_refl id, ◌>>=◌) refl

restore_row :
    (document_hmac : String → String) (fields whole : Fields)
    → recognise document_hmac "rag_structured_rows" (object fields) ≡ ok tt
    → get_in payload_field fields ≡ some (object whole)
    → restore_logical_id document_hmac "rag_structured_rows" (object fields) ≡ object whole
unfolding restore_logical_id is_tenant_document restore_payload get_field
restore_row document_hmac fields whole known found =
    rw known (ap (λ o. elim o [ none ↦ object fields | some payload ↦ payload ]) found)

object_of : (row : Value) (fields : Fields) → as_object row ≡ some fields → row ≡ object fields
unfolding as_object
object_of (object m) fields h = cc
object_of null fields h = absurd (cc)
object_of (boolean b) fields h = absurd (cc)
object_of (number n) fields h = absurd (cc)
object_of (string text) fields h = absurd (cc)
object_of (array items) fields h = absurd (cc)

stored_row :
    (document : Value) (whole : Fields) (stored : Value)
    → Path
        (Result ApiError Value)
        (ok (object (insert_in payload_field (object whole) (as_map document))))
        (ok stored)
    → stored ≡ object (insert_in payload_field (object whole) (as_map document))
stored_row document whole stored h = cc

-- A row that is stored for a tenant is restored with all its fields, and with the tenant as its
-- `tenant_id`.
pub restore_structured_row :
    (document_hmac : String → String) (tenant : String) (row stored : Value)
    → tenant_structured_row_document document_hmac tenant row ≡ ok stored
    → (fields : Fields) × (row ≡ object fields)
      × ((logical : String) × (get_in "id" fields ≡ some (string logical))
          × (restore_logical_id document_hmac "rag_structured_rows" stored
              ≡ object
                  (insert_in "tenant_id" (string tenant) (insert_in "id" (string logical) fields))))
unfolding tenant_structured_row_document as_map as_object
restore_structured_row document_hmac tenant row stored h =
    let (payload, o, h₁) = >>=-eq-ok (ok_or (as_object row) _) _ h in
    let (logical, i, h₂) = >>=-eq-ok (ok_or (text_field "id" (object payload)) _) _ h₁ in
    let (snapshot, n, h₃) = >>=-eq-ok (ok_or (text_field "snapshot_id" (object payload)) _) _ h₂ in
    let (identity, scoped, h₄) = >>=-eq-ok (scoped_storage_identity snapshot logical) _ h₃ in
    let (document, d, h₅) =
      >>=-eq-ok
        (tenant_document_with_storage_identity document_hmac tenant "rag_structured_rows" logical
          identity row)
        _ h₄ in
    let r = object_of row payload (ok_or-eq-ok (as_object row) _ o) in
    let id_field =
      text_of "id" payload logical (ok_or-eq-ok (text_field "id" (object payload)) _ i) in
    let snap =
      text_of "snapshot_id" payload snapshot
        (ok_or-eq-ok (text_field "snapshot_id" (object payload)) _ n) in
    let s =
      Stored-of document_hmac tenant "rag_structured_rows" logical identity (object payload)
        document
        (subst
          (λ v.
            tenant_document_with_storage_identity document_hmac tenant "rag_structured_rows" logical
              identity v
            ≡ ok document)
          r d) in
    let whole = insert_in "tenant_id" (string tenant) (insert_in "id" (string logical) payload) in
    let kept : stored ≡ object (row_fields tenant logical s.id payload whole) =
      stored_row document whole stored h₅
      ∙ ap (λ x. object (insert_in payload_field (object whole) (as_map x))) s.fields in
    let known =
      recognise-row tenant logical s.id payload whole document_hmac snapshot identity s.has_tenant
        s.has_logical snap scoped s.persisted in
    let found : get_in payload_field (row_fields tenant logical s.id payload whole)
        ≡ some (object whole) =
      get_in-insert_in payload_field payload_field (object whole)
        (scoped_fields tenant logical s.id payload) in
    (
      payload,
      r,
      (
        logical,
        id_field,
        ap (restore_logical_id document_hmac "rag_structured_rows") kept
            ∙ restore_row document_hmac (row_fields tenant logical s.id payload whole) whole known
                found,
      ),
    )
