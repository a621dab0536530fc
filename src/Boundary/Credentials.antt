-- ===== src/Boundary/Credentials.antt =====
-- The credentials of src/auth.rs: the configuration, parsing the header, and the index of
-- configured tokens.
use Prim.Native.Char.{code}
use nowledge.Prelude.{
  ℕ, ◌+◌, String, str_eq, Bool, true, false, not, ◌&&◌, ◌||◌, is_some, Option, none, some, List, [],
  ◌∷◌, ◌++◌, leb, ◌==◌, if◌then◌else◌, Result, ok, err,
}
use nowledge.Boundary.Errors.{ApiError, unauthorized}

pub data AuthUserScope : Type 0 where
  owner : (owner_user_id : String) → AuthUserScope
  tenant_service admin : AuthUserScope

pub record AuthUserConfig : Type 0 where
  pub token : String
  pub scope : AuthUserScope
  pub roles : List String

pub data BearerTokenScope : Type 0 where
  owner tenant_service : BearerTokenScope

-- The part of `Config` that the guards read.
pub record Config : Type 0 where
  pub tenant_id : String
  pub auth_config_error : Option String
  pub bearer_token : Option String
  pub bearer_token_scope : Option BearerTokenScope
  pub bearer_token_owner_user_id : Option String
  pub allow_legacy_tenant_service_bearer : Bool
  pub admin_token : Option String
  pub auth_users : List AuthUserConfig
  pub allow_unsafe_unauthenticated : Bool
  pub allow_legacy_shared_writer : Bool
  pub index_hash_secret : String

abbrev is_nil : List AuthUserConfig → Bool
is_nil [] = true
is_nil (user ∷ users) = false

unfoldable pub has_any_auth : Config → Bool
has_any_auth config =
    is_some config.auth_config_error
    || is_some config.bearer_token
    || is_some config.admin_token
    || not (is_nil config.auth_users)

-- `header.split_once(' ')`.
unfoldable pub split_once : String → Option (String × String)
split_once String.[] = none
split_once (String.◌∷◌ c s) =
    let rest = split_once s in
    if code c == 32
    then some (String.[], s)
    else elim rest [ none ↦ none | some (before, after) ↦ some (String.◌∷◌ c before, after) ]

abbrev lowercase : ℕ → ℕ
lowercase c = if leb 65 c && leb c 90 then c + 32 else c

unfoldable pub eq_ignore_ascii_case : String → String → Bool
eq_ignore_ascii_case String.[] String.[] = true
eq_ignore_ascii_case (String.◌∷◌ c s) (String.◌∷◌ d t) =
    lowercase (code c) == lowercase (code d) && eq_ignore_ascii_case s t
eq_ignore_ascii_case _ _ = false

-- `credentials.trim_start_matches(' ')`.
unfoldable pub trim_spaces : String → String
trim_spaces String.[] = String.[]
trim_spaces (String.◌∷◌ c s) =
    let rest = trim_spaces s in if code c == 32 then rest else String.◌∷◌ c s

unfoldable pub bearer_credentials : String → Option String
unfolding split_once eq_ignore_ascii_case trim_spaces
bearer_credentials header = elim (split_once header) [
  | none ↦ none
  | some (scheme, credentials) ↦
      if eq_ignore_ascii_case scheme "bearer" then some (trim_spaces credentials) else none
]

-- The argument is the `Authorization` header, when there is one that is a text.
unfoldable pub bearer : Option String → Result ApiError String
unfolding bearer_credentials
bearer none = err (unauthorized "missing Authorization bearer token")
bearer (some header) = elim (bearer_credentials header) [
  | none ↦ err (unauthorized "Authorization must be a Bearer token")
  | some credentials ↦ ok credentials
]

pub data CredentialRef : Type 0 where
  auth_user : ℕ → CredentialRef
  admin bearer_token : CredentialRef

-- The index by tags; a `HashMap` is the function of its lookups.
abbrev pub CredentialIndex : Type 0
CredentialIndex = String → Option (List CredentialRef)

abbrev pub or_default : Option (List CredentialRef) → List CredentialRef
or_default none = []
or_default (some refs) = refs

-- HMAC-SHA256 under the key of the process is the crates `hmac` and `sha2`.
module _ (tag : String → String) where
  unfoldable pub insert : CredentialIndex → String → CredentialRef → CredentialIndex
  insert tags token credential =
      let key = tag token in
      λ other.
        if str_eq key other then some (or_default (tags other) ++ (credential ∷ [])) else tags other

  unfoldable pub insert_users : CredentialIndex → ℕ → List AuthUserConfig → CredentialIndex
  unfolding insert
  insert_users tags position [] = tags
  insert_users tags position (user ∷ users) =
      insert_users (insert tags user.token (auth_user position)) (position + 1) users

  unfoldable pub insert_token : CredentialIndex → Option String → CredentialRef → CredentialIndex
  unfolding insert
  insert_token tags none credential = tags
  insert_token tags (some token) credential = insert tags token credential

  unfoldable pub from_config : Config → CredentialIndex
  unfolding insert_users insert_token
  from_config config =
      let users = insert_users (λ key. none) 0 config.auth_users in
      insert_token (insert_token users config.admin_token admin) config.bearer_token bearer_token

  unfoldable pub lookup : CredentialIndex → String → List CredentialRef
  lookup tags token = or_default (tags (tag token))
