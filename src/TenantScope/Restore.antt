-- ===== src/TenantScope/Restore.antt =====
-- The documents that src/tenant_scope.rs stores for a tenant, recognises and restores.
use nowledge.Prelude.{
  String, str_eq, eq_refl, eq_iff, ◌≡◌, refl, ap, ◌∙◌, true, false, not, ◌&&◌, ◌||◌, Option, none,
  some, arith, inl, inr, ◌⊎◌, if◌then◌else◌, ok, ◌>>=◌, >>-eq-ok, >>=-eq-ok, fail_if-eq-ok,
  Bool-cases, is_blank,
}
use nowledge.Json.{
  Value, null, boolean, number, array, string, object, as_str, as_object, Fields, end, field,
  get_in, get_field, insert_in, retain,
}
use nowledge.Json.Laws.{get_in-insert_in}
use nowledge.TenantScope.Identities.{require_non_empty, persisted_document_id}
use nowledge.TenantScope.Documents.{
  text_field, is_text, as_map, check_tenant, scoped_fields, remove_in, document_kind,
  storage_identity, restore_fields, tenant_document_with_storage_identity, tenant_document,
  recognise, is_tenant_document, restore_logical_id,
}

-- The fields of a stored document.
module _ (tenant logical id : String) (m : Fields) where
  pub get_in-scoped_fields :
      (k : String)
      → get_in k (scoped_fields tenant logical id m) ≡ (
          if str_eq "tenant_id" k
          then some (string tenant)
          else if str_eq "logical_id" k
          then some (string logical)
          else if str_eq "id" k
          then some (string id)
          else get_in k m)
  unfolding scoped_fields
  get_in-scoped_fields k =
      let m₁ = insert_in "id" (string id) m in
      let m₂ = insert_in "logical_id" (string logical) m₁ in
      rw
        (
          get_in-insert_in "tenant_id" k (string tenant) m₂,
          get_in-insert_in "logical_id" k (string logical) m₁,
          get_in-insert_in "id" k (string id) m,
        )
        refl

  field-id : get_in "id" (scoped_fields tenant logical id m) ≡ some (string id)
  field-id = get_in-scoped_fields "id"

  field-tenant : get_in "tenant_id" (scoped_fields tenant logical id m) ≡ some (string tenant)
  field-tenant = get_in-scoped_fields "tenant_id"

  field-logical : get_in "logical_id" (scoped_fields tenant logical id m) ≡ some (string logical)
  field-logical = get_in-scoped_fields "logical_id"

get_in-remove_in :
    (key k : String) (m : Fields)
    → get_in k (remove_in key m) ≡ (if str_eq key k then none else get_in k m)
unfolding get_in remove_in retain
get_in-remove_in key k end = ground arith
get_in-remove_in key k (field j v m) =
    ground (arith, get_in-remove_in key k m, eq_iff j key, eq_iff j k, eq_iff key k, eq_refl k)

-- The documents of an index that are identified by their logical id alone: the index has no storage
-- identity of its own, the kind is the one that the document shows, and a company context is found
-- under its own `uri`.
pub record IsIdentifiedByLogicalId (index kind logical : String) (document : Value) : Type 0 where
  pub no_rows : str_eq index "rag_structured_rows" ≡ false
  pub no_artifacts : str_eq index "rag_parse_artifacts" ≡ false
  pub shown_kind : document_kind index document ≡ ok kind
  pub own_uri : str_eq index "rag_company_context" ≡ true → text_field "uri" document ≡ some logical

-- The scope of a tenant does not touch the other fields.
document_kind-scoped :
    (index tenant logical id : String) (m : Fields)
    → document_kind index (object (scoped_fields tenant logical id m))
      ≡ document_kind index (object m)
unfolding document_kind get_field
document_kind-scoped index tenant logical id m =
    rw (get_in-scoped_fields tenant logical id m "doc_kind", document_kind, text_field) refl

text_field-uri :
    (tenant logical id : String) (m : Fields)
    → text_field "uri" (object (scoped_fields tenant logical id m)) ≡ text_field "uri" (object m)
unfolding get_field
text_field-uri tenant logical id m =
    rw (get_in-scoped_fields tenant logical id m "uri", text_field) refl

is_found_under :
    (index logical : String) (uri : Option String)
    → (str_eq index "rag_company_context" ≡ true → uri ≡ some logical)
    → str_eq index "rag_company_context" && not (is_text uri logical) ≡ false
is_found_under index logical uri h = elim (Bool-cases (str_eq index "rag_company_context")) [
  | inl context ↦ rw (context, h context, eq_refl logical) refl
  | inr other ↦ rw other refl
]

recognise-scoped :
    (document_hmac : String → String) (index kind tenant logical id : String) (m : Fields)
    → IsIdentifiedByLogicalId index kind logical (object m)
    → is_blank tenant ≡ false
    → is_blank logical ≡ false
    → persisted_document_id document_hmac tenant kind logical ≡ ok id
    → recognise document_hmac index (object (scoped_fields tenant logical id m)) ≡ ok tt
unfolding recognise storage_identity get_field as_str
recognise-scoped document_hmac index kind tenant logical id m identified t l persisted =
    rw
      (
        field-id tenant logical id m,
        field-tenant tenant logical id m,
        field-logical tenant logical id m,
        t,
        l,
        document_kind-scoped index tenant logical id m,
        identified.shown_kind,
        identified.no_rows,
        identified.no_artifacts,
        is_found_under index logical (text_field "uri" (object (scoped_fields tenant logical id m)))
            (λ context. text_field-uri tenant logical id m ∙ identified.own_uri context),
        persisted,
        eq_refl id,
        ◌>>=◌,
      )
      refl

not_blank : (name value : String) → require_non_empty name value ≡ ok tt → is_blank value ≡ false
unfolding require_non_empty
not_blank name value h = fail_if-eq-ok (is_blank value) _ h

pub record Stored (document_hmac : String → String) (tenant kind logical identity : String)
    (value stored : Value) : Type 0 where
  pub id : String
  pub has_tenant : is_blank tenant ≡ false
  pub has_logical : is_blank logical ≡ false
  pub same_tenant : check_tenant tenant (get_in "tenant_id" (as_map value)) ≡ ok tt
  pub persisted : persisted_document_id document_hmac tenant kind identity ≡ ok id
  pub fields : stored ≡ object (scoped_fields tenant logical id (as_map value))

pub Stored-of :
    (document_hmac : String → String) (tenant kind logical identity : String) (value stored : Value)
    → tenant_document_with_storage_identity document_hmac tenant kind logical identity value
      ≡ ok stored
    → Stored document_hmac tenant kind logical identity value stored
unfolding tenant_document_with_storage_identity
Stored-of document_hmac tenant kind logical identity value stored h =
    let (t, h₁) = >>-eq-ok (require_non_empty "tenant_id" tenant) _ h in
    let (l, h₂) = >>-eq-ok (require_non_empty "logical_id" logical) _ h₁ in
    let (_, h₃) = >>-eq-ok (require_non_empty "storage_identity" identity) _ h₂ in
    let (c, h₄) = >>-eq-ok (check_tenant tenant (get_in "tenant_id" (as_map value))) _ h₃ in
    let (id, p, h₅) = >>=-eq-ok (persisted_document_id document_hmac tenant kind identity) _ h₄ in
    record {
      id = id;
      has_tenant = not_blank "tenant_id" tenant t;
      has_logical = not_blank "logical_id" logical l;
      same_tenant = c;
      persisted = p;
      fields = cc;
    }

named_tenant :
    (tenant : String) (o : Option Value)
    → check_tenant tenant o ≡ ok tt
    → (o ≡ none)
      ⊎ ((named : String) × (o ≡ some (string named))
          × ((named ≡ tenant) ⊎ (is_blank named ≡ true)))
unfolding check_tenant
named_tenant tenant none h = inl refl
named_tenant tenant (some (string named)) h =
    let fits = fail_if-eq-ok (not (str_eq named tenant || is_blank named)) _ h in
    inr (
      named,
      refl,
      elim (Bool-cases (str_eq named tenant)) [
        | inl same ↦ inl ((eq_iff named tenant).0 same)
        | inr other ↦ inr (ground arith)
      ],
    )
named_tenant tenant (some null) h = absurd (cc)
named_tenant tenant (some (boolean b)) h = absurd (cc)
named_tenant tenant (some (number n)) h = absurd (cc)
named_tenant tenant (some (array items)) h = absurd (cc)
named_tenant tenant (some (object fields)) h = absurd (cc)

-- What is stored for a tenant names that tenant, and the value it was made of names no tenant, a
-- blank one, or the same; a value of another tenant is not stored.
pub tenant_document-scope :
    (document_hmac : String → String) (tenant kind logical : String) (value stored : Value)
    → tenant_document document_hmac tenant kind logical value ≡ ok stored
    → (get_field "tenant_id" stored ≡ some (string tenant))
      × ((get_in "tenant_id" (as_map value) ≡ none)
          ⊎ ((named : String) × (get_in "tenant_id" (as_map value) ≡ some (string named))
              × ((named ≡ tenant) ⊎ (is_blank named ≡ true))))
unfolding tenant_document get_field
tenant_document-scope document_hmac tenant kind logical value stored h =
    let s = Stored-of document_hmac tenant kind logical logical value stored h in
    (
      ap (get_field "tenant_id") s.fields ∙ field-tenant tenant logical s.id (as_map value),
      named_tenant tenant (get_in "tenant_id" (as_map value)) s.same_tenant,
    )

-- A document that a tenant stores under its logical id, in an index other than structured rows and
-- parse artifacts, is restored with its logical id as its id, and with all its other fields but the
-- logical id and the tenant as they were; in the index of harness components if it is stored under the
-- kind that its `doc_kind` shows, and in that of the company context if its `uri` is its logical id.
pub restore_tenant_document :
    (document_hmac : String → String) (index kind tenant logical : String) (value stored : Value)
    → IsIdentifiedByLogicalId index kind logical (object (as_map value))
    → tenant_document document_hmac tenant kind logical value ≡ ok stored
    → (restored : Fields) × (restore_logical_id document_hmac index stored ≡ object restored)
      × ((k : String)
          → get_in k restored ≡ (
              if str_eq "id" k
              then some (string logical)
              else if str_eq "logical_id" k
              then none
              else if str_eq "tenant_id" k
              then some (string tenant)
              else get_in k (as_map value)))
unfolding tenant_document restore_logical_id is_tenant_document restore_fields as_object
restore_tenant_document document_hmac index kind tenant logical value stored identified h =
    let s = Stored-of document_hmac tenant kind logical logical value stored h in
    let m = scoped_fields tenant logical s.id (as_map value) in
    let known =
      recognise-scoped document_hmac index kind tenant logical s.id (as_map value) identified
        s.has_tenant s.has_logical s.persisted in
    (
      insert_in "id" (string logical) (remove_in "logical_id" m),
      rw (s.fields, known, identified.no_rows, field-logical tenant logical s.id (as_map value))
          refl,
      λ k.
          rw
            (
              get_in-insert_in "id" k (string logical) (remove_in "logical_id" m),
              get_in-remove_in "logical_id" k m,
              get_in-scoped_fields tenant logical s.id (as_map value) k,
            )
            (ground arith),
    )
