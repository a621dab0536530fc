-- ===== src/Boundary/Guards.antt =====
-- The guards of src/auth.rs: `UserGuard`, `CompanyWriterGuard` and `AdminGuard`, with the state
-- that they change.
use nowledge.Prelude.{
  ℕ, String, Bool, false, Option, none, some, List, [], ◌∷◌, ◌++◌, if◌then◌else◌, Result, ok, err,
}
use nowledge.Boundary.Errors.{ApiError}
use nowledge.Boundary.Principals.{
  Principal, PrincipalScope, require_company_write, require_admin, rate_limit_key,
}
use nowledge.Boundary.RateLimiter.{FixedWindowRateLimiter, RateLimiterState, check_at}
use nowledge.Boundary.Credentials.{Config, CredentialIndex}
use nowledge.Boundary.Authentication.{authenticate}

-- `RequestPrincipal` of src/request_context.rs.
pub data RequestPrincipalScope : Type 0 where
  owner : (owner_user_id_hash : String) → RequestPrincipalScope
  tenant_service admin : RequestPrincipalScope

pub record RequestPrincipal : Type 0 where
  pub scope : RequestPrincipalScope
  pub roles : List String

-- The arguments of a call of `audit_shared_write_denial`.
pub record Denial : Type 0 where
  pub principal : Option Principal
  pub method : String
  pub path : String
  pub reason : String
  pub error : ApiError

-- What the guards change: the limiter, the denials handed to the audit, and the principal of the
-- request's context.
pub record GuardState : Type 0 where
  pub limiter : RateLimiterState
  pub denials : List Denial
  pub principal : Option RequestPrincipal

pub record Request : Type 0 where
  pub authorization : Option String
  pub method : String
  pub path : String
  pub now : ℕ

unfoldable pub audit_denial :
    Option Principal → Request → String → ApiError → GuardState → GuardState
audit_denial p request reason error state = record state {
  denials =
      state.denials
      ++ (record {
        principal = p;
        method = request.method;
        path = request.path;
        reason = reason;
        error = error;
      }
          ∷ []);
}

module _ (tag : String → String) (hmac_hex : String → String → String → ℕ → String)
    (limiter : FixedWindowRateLimiter) (config : Config) (credentials : CredentialIndex) where
  request_scope : PrincipalScope → RequestPrincipalScope
  request_scope (PrincipalScope.owner id) =
      RequestPrincipalScope.owner (hmac_hex config.index_hash_secret "user" id 16)
  request_scope PrincipalScope.tenant_service = RequestPrincipalScope.tenant_service
  request_scope PrincipalScope.admin = RequestPrincipalScope.admin

  unfoldable pub record_request_principal : Principal → GuardState → GuardState
  unfolding request_scope
  record_request_principal p state = record state {
    principal = some (record { scope = request_scope p.scope; roles = p.roles });
  }

  unfoldable pub enforce_principal_rate_limit :
      Principal → ℕ → GuardState → GuardState × Result ApiError (Unit {0})
  unfolding rate_limit_key check_at
  enforce_principal_rate_limit p now state =
      let key = rate_limit_key hmac_hex p config.index_hash_secret in
      let (next, outcome) = check_at limiter state.limiter key now in
      (record state { limiter = next }, outcome)

  -- `from_request_parts` of `UserGuard`, after the rate limit and from authentication on.
  unfoldable pub limited_user :
      Principal → GuardState × Result ApiError (Unit {0}) → GuardState × Result ApiError Principal
  unfolding record_request_principal
  limited_user p (counted, err error) = (counted, err error)
  limited_user p (counted, ok _) = (record_request_principal p counted, ok p)

  unfoldable pub known_user :
      Request → GuardState → Result ApiError Principal → GuardState × Result ApiError Principal
  unfolding enforce_principal_rate_limit limited_user
  known_user request state (err error) = (state, err error)
  known_user request state (ok p) =
      limited_user p (enforce_principal_rate_limit p request.now state)

  unfoldable pub user_guard : Request → GuardState → GuardState × Result ApiError Principal
  unfolding authenticate known_user
  user_guard request state =
      known_user request state (authenticate tag config credentials request.authorization)

  -- The two guards of shared writes: `permit` is the principal's check, `waived` lets a refusal of
  -- it pass, and `reason` is what the audit is told of it.
  module _ (permit : Principal → Result ApiError (Unit {0})) (waived : Bool) (reason : String) where
    unfoldable pub permitted :
        Request
        → Principal
        → GuardState
        → Result ApiError (Unit {0})
        → GuardState × Result ApiError Principal
    unfolding record_request_principal audit_denial
    permitted request p counted (ok _) = (record_request_principal p counted, ok p)
    permitted request p counted (err error) =
        if waived
        then (record_request_principal p counted, ok p)
        else (audit_denial (some p) request reason error counted, err error)

    unfoldable pub limited :
        Request
        → Principal
        → GuardState × Result ApiError (Unit {0})
        → GuardState × Result ApiError Principal
    unfolding permitted
    limited request p (counted, err error) = (counted, err error)
    limited request p (counted, ok _) = permitted request p counted (permit p)

    unfoldable pub known :
        Request → GuardState → Result ApiError Principal → GuardState × Result ApiError Principal
    unfolding audit_denial enforce_principal_rate_limit limited
    known request state (err error) =
        (audit_denial none request "authentication_failed" error state, err error)
    known request state (ok p) =
        limited request p (enforce_principal_rate_limit p request.now state)

    unfoldable pub shared_guard : Request → GuardState → GuardState × Result ApiError Principal
    unfolding authenticate known
    shared_guard request state =
        known request state (authenticate tag config credentials request.authorization)

  unfoldable pub company_writer_guard :
      Request → GuardState → GuardState × Result ApiError Principal
  unfolding shared_guard require_company_write
  company_writer_guard =
      shared_guard require_company_write config.allow_legacy_shared_writer "company_writer_required"

  unfoldable pub admin_guard : Request → GuardState → GuardState × Result ApiError Principal
  unfolding shared_guard require_admin
  admin_guard = shared_guard require_admin false "admin_required"
