-- ===== src/Boundary/Examples.antt =====
-- The guards and the rate limiter at small configurations, with stand-ins for HMAC.
use nowledge.Prelude.{
  ℕ, ◌+◌, ◌*◌, ◌≤◌, String, ◌≡◌, refl, ◌⊎◌, is_empty, true, false, Option, none, some, List, [],
  ◌∷◌, arith, Result, ok, err,
}
use nowledge.Boundary.Errors.{ApiError, forbidden, too_many_requests}
use nowledge.Boundary.Principals
use nowledge.Boundary.Principals.{
  Principal, PrincipalScope, is_admin, has_role, require_owner_read, apply_owner_default,
}
use nowledge.Boundary.RateLimiter.{
  FixedWindowRateLimiter, RateLimiterState, Call, nanos_per_second, rate_limit_window, with_window,
  check_at, run, accepted,
}
use nowledge.Boundary.RateLimiter.Isolation.{only, caller_isolation}
use nowledge.Boundary.RateLimiter.Bursts.{burst_limit}
use nowledge.Boundary.RateLimiter.Retry.{retry_succeeds}
use nowledge.Boundary.Credentials.{
  AuthUserScope, AuthUserConfig, Config, CredentialRef, auth_user, has_any_auth, bearer,
  from_config, lookup,
}
use nowledge.Boundary.Authentication.{nth, credential_principal, authenticate}
use nowledge.Boundary.Scan.{scan, lookup-scan, authenticated}
use nowledge.Boundary.Guards.{GuardState, Request, user_guard, company_writer_guard, admin_guard}
use nowledge.Boundary.Courses.{auth, count, Audited}
use nowledge.Boundary.Access.{owner_token_confined, company_writer_guard-audits}

abbrev tag : String → String
tag token = token

abbrev hmac_hex : String → String → String → ℕ → String
hmac_hex secret namespace value len = value

abbrev user : AuthUserConfig
user = record { token = "t1"; scope = AuthUserScope.owner "u1"; roles = "user" ∷ [] }

abbrev config : Config
config = record {
  tenant_id = "tenant";
  auth_config_error = none;
  bearer_token = none;
  bearer_token_scope = none;
  bearer_token_owner_user_id = none;
  allow_legacy_tenant_service_bearer = false;
  admin_token = some "t2";
  auth_users = user ∷ [];
  allow_unsafe_unauthenticated = false;
  allow_legacy_shared_writer = false;
  index_hash_secret = "secret";
}

abbrev limiter : FixedWindowRateLimiter
limiter = record { max_requests = 1; window = 60 }

abbrev start : GuardState
start = record {
  limiter = record { windows = λ key. none; last_cleanup = 0 };
  denials = [];
  principal = none;
}

abbrev request : String → Request
request authorization = record {
  authorization = some authorization;
  method = "PUT";
  path = "/v1/state/structured/datasets/d";
  now = 5;
}

abbrev owner_principal : Principal
owner_principal = record {
  tenant_id = "tenant";
  scope = PrincipalScope.owner "u1";
  roles = "user" ∷ [];
}

abbrev admin_principal : Principal
admin_principal = record {
  tenant_id = "tenant";
  scope = PrincipalScope.admin;
  roles = "admin" ∷ [];
}

-- The guards' answers to the two tokens.
owner_passes :
    (user_guard tag hmac_hex limiter config (from_config tag config) (request "bearer  t1") start).1
    ≡ ok owner_principal
unfolding user_guard from_config
owner_passes = refl

admin_passes :
    (admin_guard tag hmac_hex limiter config (from_config tag config) (request "Bearer t2") start).1
    ≡ ok admin_principal
unfolding admin_guard from_config
admin_passes = refl

owner_is_refused :
    (company_writer_guard tag hmac_hex limiter config
      (from_config tag config)
      (request "Bearer t1")
      start).1
    ≡ err (forbidden "company_writer permission is required")
unfolding company_writer_guard from_config
owner_is_refused = refl

-- The limiter with one request a minute, and three calls of two callers.
abbrev minute : FixedWindowRateLimiter × RateLimiterState
minute = with_window 1 rate_limit_window 0

abbrev calls : List Call
calls =
    record { key = "a"; now = 1 }
    ∷ record { key = "b"; now = 2 }
    ∷ record { key = "a"; now = 3 }
    ∷ []

abbrev calls' : List Call
calls' = record { key = "a"; now = 5 } ∷ record { key = "a"; now = 6 } ∷ []

caller_isolation_example :
    (check_at minute.0 (run minute.0 minute.1 calls) "b" 4).1
    ≡ (check_at minute.0 (run minute.0 minute.1 (only "b" calls)) "b" 4).1
unfolding with_window
caller_isolation_example =
    caller_isolation 1 rate_limit_window 0 4 "b" calls (omega arith) (omega arith)

burst_limit_example : accepted minute.0 (run minute.0 minute.1 calls) "a" calls' ≤ 2 * 1
unfolding with_window
burst_limit_example =
    burst_limit 1 rate_limit_window 0 "a" calls calls' 4 (omega arith) (omega arith) (omega arith)
      (omega arith) (omega arith)

refused_now : (check_at minute.0 (run minute.0 minute.1 calls) "a" 4).1 ≡ err (too_many_requests 60)
unfolding with_window check_at run
refused_now = refl

retry_succeeds_example :
    (1 ≤ 60)
    × ((check_at minute.0
          (check_at minute.0 (run minute.0 minute.1 calls) "a" 4).0
          "a"
          (4 + 60 * nanos_per_second)).1
        ≡ ok tt)
unfolding with_window
retry_succeeds_example =
    retry_succeeds 1 rate_limit_window 0 "a" calls 4 60 (4 + 60 * nanos_per_second) (omega arith)
      (omega arith) (omega arith) (omega arith) refused_now (omega arith)

lookup-scan_example : lookup tag (from_config tag config) "t1" ≡ scan config "t1"
lookup-scan_example = lookup-scan tag (λ a b same. same) config "t1"

authenticated_as_owner :
    authenticate tag config (from_config tag config) (some "Bearer t1") ≡ ok owner_principal
unfolding authenticate from_config
authenticated_as_owner = refl

configured : has_any_auth config ≡ true
unfolding has_any_auth
configured = refl

authenticated_example :
    (token : String) × (bearer (some "Bearer t1") ≡ ok token)
    × (is_empty token ≡ false)
    × ((credential : CredentialRef) × (scan config token ≡ credential ∷ [])
        × (credential_principal config credential ≡ ok owner_principal))
authenticated_example =
    authenticated tag (λ a b same. same) config (some "Bearer t1") owner_principal configured
      authenticated_as_owner

has_owner : Principals.owner_user_id owner_principal ≡ some "u1"
unfolding Principals.owner_user_id
has_owner = refl

abbrev Confined : Principal → String → Type 0
Confined p id =
    ((other : String) → require_owner_read p other ≡ ok tt → other ≡ id)
    × ((given result : Option String) → apply_owner_default p given ≡ ok result → result ≡ some id)

abbrev run_user : GuardState × Result ApiError Principal
run_user =
    user_guard tag hmac_hex limiter config (from_config tag config) (request "Bearer t1") start

user_passes : run_user ≡ (run_user.0, ok owner_principal)
unfolding user_guard from_config
user_passes = refl

presented : bearer (some "Bearer t1") ≡ ok "t1"
unfolding bearer
presented = refl

found : scan config "t1" ≡ auth_user 0 ∷ []
unfolding scan
found = refl

listed : nth config.auth_users 0 ≡ some user
unfolding nth
listed = refl

owner_token_confined_example : Confined owner_principal "u1"
owner_token_confined_example =
    owner_token_confined tag hmac_hex (λ a b same. same) limiter config (request "Bearer t1") start
      run_user.0 "t1" "u1" 0 user owner_principal configured presented found listed refl user_passes

abbrev run_admin : GuardState × Result ApiError Principal
run_admin =
    admin_guard tag hmac_hex limiter config (from_config tag config) (request "Bearer t2") start

admin_admitted : run_admin ≡ (run_admin.0, ok admin_principal)
unfolding admin_guard from_config
admin_admitted = refl

abbrev run_writer : String → GuardState × Result ApiError Principal
run_writer header =
    company_writer_guard tag hmac_hex limiter config (from_config tag config) (request header) start

writer_admitted : run_writer "Bearer t2" ≡ ((run_writer "Bearer t2").0, ok admin_principal)
unfolding company_writer_guard from_config
writer_admitted = refl

abbrev refusal : ApiError
refusal = forbidden "company_writer permission is required"

writer_refused : run_writer "Bearer t1" ≡ ((run_writer "Bearer t1").0, err refusal)
unfolding company_writer_guard from_config
writer_refused = refl

company_writer_guard-audits_example :
    Audited refusal start (run_writer "Bearer t1").0
    ⊎ ((p : Principal) × (auth tag hmac_hex limiter config
            (from_config tag config)
            (request "Bearer t1")
          ≡ ok p)
        × ((count tag hmac_hex limiter config
              (from_config tag config)
              p
              (request "Bearer t1")
              start).1
            ≡ err refusal)
        × ((run_writer "Bearer t1").0.denials ≡ []))
company_writer_guard-audits_example =
    company_writer_guard-audits tag hmac_hex limiter config (from_config tag config)
      (request "Bearer t1") start (run_writer "Bearer t1").0 refusal writer_refused
