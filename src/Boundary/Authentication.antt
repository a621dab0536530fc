-- ===== src/Boundary/Authentication.antt =====
-- `authenticate` of src/auth.rs: the principal of the credential that a request presents.
use Prim.Native.Char.{code}
use nowledge.Prelude.{
  ℕ, zero, suc, String, str_eq, Bool, true, false, not, ◌&&◌, is_empty, Option, none, some, List,
  [], ◌∷◌, if◌then◌else◌, Result, ok, err, ◌>>=◌, is_blank, is_whitespace,
}
use nowledge.Boundary.Errors.{ApiError, unauthorized}
use nowledge.Boundary.Principals.{Principal, PrincipalScope}
use nowledge.Boundary.Credentials.{
  AuthUserScope, AuthUserConfig, BearerTokenScope, Config, CredentialRef, auth_user, bearer_token,
  CredentialIndex, has_any_auth, bearer, lookup,
}

-- `text.trim()`.
unfoldable pub trim_start : String → String
unfolding is_whitespace
trim_start String.[] = String.[]
trim_start (String.◌∷◌ c s) =
    let rest = trim_start s in if is_whitespace (code c) then rest else String.◌∷◌ c s

unfoldable pub trim_end : String → String
unfolding is_whitespace
trim_end String.[] = String.[]
trim_end (String.◌∷◌ c s) =
    let rest = trim_end s in
    if is_empty rest && is_whitespace (code c) then String.[] else String.◌∷◌ c rest

abbrev invalid_token : ApiError
invalid_token = unauthorized "invalid bearer token"

-- The owner of an owner-scoped bearer token, if it is neither blank nor padded.
unfoldable pub tidy_owner : String → Option PrincipalScope
unfolding trim_start trim_end is_blank
tidy_owner id =
    if not (is_blank id) && str_eq id (trim_end (trim_start id))
    then some (PrincipalScope.owner id)
    else none

unfoldable pub bearer_scope : Option BearerTokenScope → Option String → Bool → Option PrincipalScope
unfolding tidy_owner
bearer_scope (some BearerTokenScope.owner) (some id) false = tidy_owner id
bearer_scope (some BearerTokenScope.tenant_service) none false = some PrincipalScope.tenant_service
bearer_scope none none true = some PrincipalScope.tenant_service
bearer_scope _ _ _ = none

unfoldable pub bearer_token_principal : Config → Result ApiError Principal
unfolding bearer_scope
bearer_token_principal config =
    let scope =
      bearer_scope config.bearer_token_scope config.bearer_token_owner_user_id
        config.allow_legacy_tenant_service_bearer in
    elim scope [
      | none ↦ err invalid_token
      | some s ↦ ok (record { tenant_id = config.tenant_id; scope = s; roles = "user" ∷ [] })
    ]

abbrev principal_scope : AuthUserScope → PrincipalScope
principal_scope (AuthUserScope.owner id) = PrincipalScope.owner id
principal_scope AuthUserScope.tenant_service = PrincipalScope.tenant_service
principal_scope AuthUserScope.admin = PrincipalScope.admin

unfoldable pub principal_from_auth_user : String → AuthUserConfig → Principal
principal_from_auth_user tenant_id user = record {
  tenant_id = tenant_id;
  scope = principal_scope user.scope;
  roles = user.roles;
}

abbrev pub admin_principal : Config → Principal
admin_principal config = record {
  tenant_id = config.tenant_id;
  scope = PrincipalScope.admin;
  roles = "admin" ∷ [];
}

unfoldable pub nth : List AuthUserConfig → ℕ → Option AuthUserConfig
nth [] index = none
nth (user ∷ users) zero = some user
nth (user ∷ users) (suc index) = nth users index

unfoldable pub credential_principal : Config → CredentialRef → Result ApiError Principal
unfolding nth principal_from_auth_user bearer_token_principal
credential_principal config (auth_user index) = elim (nth config.auth_users index) [
  | none ↦ err invalid_token
  | some user ↦ ok (principal_from_auth_user config.tenant_id user)
]
credential_principal config CredentialRef.admin = ok (admin_principal config)
credential_principal config bearer_token = bearer_token_principal config

-- Exactly one configured credential must match.
unfoldable pub only_one : Config → List CredentialRef → Result ApiError Principal
unfolding credential_principal
only_one config [] = err invalid_token
only_one config (credential ∷ []) = credential_principal config credential
only_one config (credential ∷ other ∷ others) = err invalid_token

module _ (tag : String → String) where
  unfoldable pub authenticate : Config → CredentialIndex → Option String → Result ApiError Principal
  unfolding has_any_auth bearer lookup only_one
  authenticate config credentials header =
      if has_any_auth config
      then (bearer header >>= λ token.
          if is_empty token
          then err invalid_token
          else only_one config (lookup tag credentials token))
      else if config.allow_unsafe_unauthenticated
      then ok (admin_principal config)
      else err (unauthorized "authentication is required")
