-- ===== src/TenantScope/Identities.antt =====
-- The identities of src/tenant_scope.rs: length-prefixed texts, and the ids made from them.
use Prim.Native.String.{len, ◌++◌}
use nowledge.Prelude.{
  String, Option, none, some, List, [], ◌∷◌, Result, ok, ◌>>◌, ◌>>=◌, fail_if, is_blank, format,
  decimal,
}
use nowledge.Boundary.Errors.{ApiError, internal}

unfoldable pub require_non_empty : String → String → Result ApiError (Unit {0})
unfolding is_blank format
require_non_empty field value =
    fail_if (is_blank value)
      (internal (format (field ∷ " must be non-empty for fixed-index persistence" ∷ [])))

-- Each part with its length in bytes and a colon before it.
unfoldable pub length_prefixed_identity : List String → String
unfolding decimal
length_prefixed_identity [] = ""
length_prefixed_identity (part ∷ parts) =
    decimal (len part) ++ (":" ++ (part ++ length_prefixed_identity parts))

unfoldable pub scoped_storage_identity : String → String → Result ApiError String
unfolding require_non_empty length_prefixed_identity
scoped_storage_identity scope logical_id = do
  require_non_empty "storage scope" scope
  require_non_empty "logical_id" logical_id
  ok (length_prefixed_identity (scope ∷ logical_id ∷ []))

-- The scope of an owner, or of the company.
unfoldable pub owner_scope : Option String → Result ApiError String
unfolding require_non_empty length_prefixed_identity
owner_scope none = ok (length_prefixed_identity ("company" ∷ []))
owner_scope (some owner_user_id) = do
  require_non_empty "owner_user_id" owner_user_id
  ok (length_prefixed_identity ("owner" ∷ owner_user_id ∷ []))

unfoldable pub owner_scoped_storage_identity : Option String → String → Result ApiError String
unfolding require_non_empty owner_scope length_prefixed_identity
owner_scoped_storage_identity owner_user_id logical_id = do
  require_non_empty "logical_id" logical_id
  scope ← owner_scope owner_user_id
  ok (length_prefixed_identity (scope ∷ logical_id ∷ []))

-- `hmac_hex` with the key, the namespace and the length that are fixed here; it is made of the
-- crates `hmac`, `sha2` and `hex`.
module _ (document_hmac : String → String) where
  unfoldable pub persisted_document_id : String → String → String → Result ApiError String
  unfolding require_non_empty length_prefixed_identity format
  persisted_document_id tenant_id kind logical_id = do
    require_non_empty "tenant_id" tenant_id
    require_non_empty "persisted kind" kind
    require_non_empty "logical_id" logical_id
    ok (
        format (
          "ts1_"
          ∷ document_hmac (length_prefixed_identity (tenant_id ∷ kind ∷ logical_id ∷ []))
          ∷ []))
