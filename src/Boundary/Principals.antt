-- ===== src/Boundary/Principals.antt =====
-- `Principal` of src/auth.rs: who a request acts for, and what it may reach.
use nowledge.Prelude.{
  String, str_eq, Bool, true, false, ◌||◌, Option, none, some, List, if◌then◌else◌, contains,
  format, [], ◌∷◌, Result, ok, err, ℕ,
}
use nowledge.Boundary.Errors.{ApiError, forbidden}

pub data PrincipalScope : Type 0 where
  owner : (owner_user_id : String) → PrincipalScope
  tenant_service admin : PrincipalScope

pub record Principal : Type 0 where
  pub tenant_id : String
  pub scope : PrincipalScope
  pub roles : List String

abbrev pub Answer : Type 0
Answer = Result ApiError (Unit {0})

unfoldable pub is_admin : Principal → Bool
is_admin principal = elim principal.scope [
  | owner id ↦ false
  | tenant_service ↦ false
  | admin ↦ true
]

unfoldable pub owner_user_id : Principal → Option String
owner_user_id principal = elim principal.scope [
  | owner id ↦ some id
  | tenant_service ↦ none
  | admin ↦ none
]

unfoldable pub scope_label : Principal → String
scope_label principal = elim principal.scope [
  | owner id ↦ "owner"
  | tenant_service ↦ "tenant_service"
  | admin ↦ "admin"
]

unfoldable pub has_role : Principal → String → Bool
unfolding contains
has_role principal role = contains principal.roles role

unfoldable pub require_owner_read : Principal → String → Answer
require_owner_read principal owner_user_id = elim principal.scope [
  | owner principal_owner ↦
      if str_eq principal_owner owner_user_id
      then ok tt
      else err (forbidden "principal is not allowed to access this owner_user_id")
  | tenant_service ↦ ok tt
  | admin ↦ ok tt
]

unfoldable pub require_owner_write : Principal → String → Answer
unfolding require_owner_read
require_owner_write principal owner_user_id = require_owner_read principal owner_user_id

unfoldable pub require_company_write : Principal → Answer
unfolding is_admin has_role
require_company_write principal =
    if is_admin principal || has_role principal "company_writer"
    then ok tt
    else err (forbidden "company_writer permission is required")

unfoldable pub require_admin : Principal → Answer
unfolding is_admin
require_admin principal =
    if is_admin principal then ok tt else err (forbidden "admin token required")

-- `apply_owner_default`, with the new value of its argument.
abbrev and_then : Answer → Option String → Result ApiError (Option String)
and_then (ok _) value = ok value
and_then (err e) value = err e

unfoldable pub apply_owner_default : Principal → Option String → Result ApiError (Option String)
unfolding require_owner_read
apply_owner_default principal given = elim principal.scope [
  | owner principal_owner ↦ elim given [
    | none ↦ ok (some principal_owner)
    | some requested ↦ and_then (require_owner_read principal requested) (some requested)
  ]
  | tenant_service ↦ ok given
  | admin ↦ ok given
]

abbrev unwrap_or_default : Option String → String
unwrap_or_default none = ""
unwrap_or_default (some text) = text

-- `hmac_hex(secret, namespace, value, len)`, over the crates `hmac`, `sha2` and `hex`.
module _ (hmac_hex : String → String → String → ℕ → String) where
  unfoldable pub rate_limit_key : Principal → String → String
  unfolding owner_user_id scope_label format
  rate_limit_key principal index_hash_secret =
      let owner_id = unwrap_or_default (owner_user_id principal) in
      let identity =
        format (principal.tenant_id ∷ "\0" ∷ scope_label principal ∷ "\0" ∷ owner_id ∷ []) in
      hmac_hex index_hash_secret "rate-limit-principal" identity 32
