-- ===== src/Boundary/Access.antt =====
-- The guards of src/auth.rs from a caller's view: who gets through, what is audited, and whose data
-- a credential reaches.
use nowledge.Prelude.{
  ℕ, String, eq_iff, ◌≡◌, refl, subst, true, false, ◌||◌, inl, inr, ◌⊎◌, Option, some, [], ◌∷◌,
  arith, Bool-cases, ok, err,
}
use nowledge.Boundary.Errors.{ApiError}
use nowledge.Boundary.Principals.{
  Principal, is_admin, owner_user_id, has_role, require_owner_read, require_company_write,
  require_admin, apply_owner_default,
}
use nowledge.Boundary.RateLimiter.{FixedWindowRateLimiter}
use nowledge.Boundary.Credentials.{
  AuthUserScope, AuthUserConfig, Config, auth_user, CredentialIndex, has_any_auth, bearer,
  from_config,
}
use nowledge.Boundary.Authentication.{nth, credential_principal, principal_from_auth_user}
use nowledge.Boundary.Scan.{scan, authenticated}
use nowledge.Boundary.Courses.{auth, count, known_user-ok, known-ok, known-err, Audited}
use nowledge.Boundary.Guards.{
  GuardState, Request, user_guard, shared_guard, company_writer_guard, admin_guard,
}

-- A principal with an owner may read that owner's data only, and a request of it that names no
-- owner, or its own, is for that owner.
pub owner_confined :
    (p : Principal) (id : String)
    → owner_user_id p ≡ some id
    → ((other : String) → require_owner_read p other ≡ ok tt → other ≡ id)
      × ((given result : Option String)
          → apply_owner_default p given ≡ ok result
          → result ≡ some id)
unfolding owner_user_id require_owner_read apply_owner_default
owner_confined p id h = grind (arith, eq_iff)

require_admin-ok : (p : Principal) → require_admin p ≡ ok tt → is_admin p ≡ true
unfolding require_admin
require_admin-ok p h = elim (Bool-cases (is_admin p)) [
  | inl fits ↦ fits
  | inr fails ↦ (let wrong = rw fails at h in absurd (cc))
]

require_company_write-ok :
    (p : Principal)
    → require_company_write p ≡ ok tt
    → (is_admin p || has_role p "company_writer") ≡ true
unfolding require_company_write
require_company_write-ok p h = elim (Bool-cases (is_admin p || has_role p "company_writer")) [
  | inl fits ↦ fits
  | inr fails ↦ (let wrong = rw fails at h in absurd (cc))
]

auth_user-owner :
    (config : Config) (index : ℕ) (user : AuthUserConfig) (p : Principal) (id : String)
    → nth config.auth_users index ≡ some user
    → user.scope ≡ AuthUserScope.owner id
    → credential_principal config (auth_user index) ≡ ok p
    → owner_user_id p ≡ some id
unfolding credential_principal owner_user_id
auth_user-owner config index user p id listed owned h =
    let got = rw (listed, credential_principal) at h in
    let same : principal_from_auth_user config.tenant_id user ≡ p = cc in
    subst (λ x. owner_user_id x ≡ some id) same (rw owned refl)

-- When different tokens have different tags, a request that the users' guard lets through with the
-- token of one configured user, who has an owner, acts for a principal that may read that owner's
-- data only, and that stands in for this owner where a request names none.
pub owner_token_confined :
    (tag : String → String) (hmac_hex : String → String → String → ℕ → String)
    → ((a b : String) → tag a ≡ tag b → a ≡ b)
    → (limiter : FixedWindowRateLimiter) (config : Config) (request : Request)
      (state next : GuardState) (token id : String) (index : ℕ) (user : AuthUserConfig)
      (p : Principal)
    → has_any_auth config ≡ true
    → bearer request.authorization ≡ ok token
    → scan config token ≡ auth_user index ∷ []
    → nth config.auth_users index ≡ some user
    → user.scope ≡ AuthUserScope.owner id
    → user_guard tag hmac_hex limiter config (from_config tag config) request state ≡ (next, ok p)
    → ((other : String) → require_owner_read p other ≡ ok tt → other ≡ id)
      × ((given result : Option String)
          → apply_owner_default p given ≡ ok result
          → result ≡ some id)
unfolding user_guard
owner_token_confined tag hmac_hex injective limiter config request state next token id index user p
      configured presented found listed owned h =
    let known_p =
      known_user-ok tag hmac_hex limiter config (from_config tag config) request state next _ p h in
    let (token', presented', _, (credential, alone, principal)) =
      authenticated tag injective config request.authorization p configured known_p in
    owner_confined p id (
      auth_user-owner config index user p id listed owned (
        let same : token' ≡ token = cc in
        let this = rw same at alone in
        let which : credential ≡ auth_user index = cc in rw which at principal))

module _ (tag : String → String) (hmac_hex : String → String → String → ℕ → String)
    (limiter : FixedWindowRateLimiter) (config : Config) (credentials : CredentialIndex) where
  -- The administrators' guard lets a request through only if its credential is known, the limiter
  -- has room for it, and it acts for an administrator; the audit is then told of no denial.
  pub admin_guard-admits :
      (request : Request) (state next : GuardState) (p : Principal)
      → admin_guard tag hmac_hex limiter config credentials request state ≡ (next, ok p)
      → (auth tag hmac_hex limiter config credentials request ≡ ok p)
        × ((count tag hmac_hex limiter config credentials p request state).1 ≡ ok tt)
        × (is_admin p ≡ true)
        × (next.denials ≡ state.denials)
  unfolding admin_guard shared_guard
  admin_guard-admits request state next p h =
      let (known_p, within, allowed, quiet) =
        known-ok tag hmac_hex limiter config credentials require_admin false "admin_required"
          request state next (auth tag hmac_hex limiter config credentials request) p h in
      (
        known_p,
        within,
        elim allowed [ inl admitted ↦ require_admin-ok p admitted | inr wrong ↦ absurd (cc) ],
        quiet,
      )

  -- The guard of company writes lets a request through only if its credential is known, the limiter
  -- has room for it, and it acts for an administrator or a company writer, unless the configuration
  -- still allows every writer; the audit is then told of no denial.
  pub company_writer_guard-admits :
      (request : Request) (state next : GuardState) (p : Principal)
      → company_writer_guard tag hmac_hex limiter config credentials request state ≡ (next, ok p)
      → (auth tag hmac_hex limiter config credentials request ≡ ok p)
        × ((count tag hmac_hex limiter config credentials p request state).1 ≡ ok tt)
        × (((is_admin p || has_role p "company_writer") ≡ true)
            ⊎ (config.allow_legacy_shared_writer ≡ true))
        × (next.denials ≡ state.denials)
  unfolding company_writer_guard shared_guard
  company_writer_guard-admits request state next p h =
      let (known_p, within, allowed, quiet) =
        known-ok tag hmac_hex limiter config credentials require_company_write
          config.allow_legacy_shared_writer "company_writer_required" request state next
          (auth tag hmac_hex limiter config credentials request) p h in
      (
        known_p,
        within,
        elim allowed [
          | inl admitted ↦ inl (require_company_write-ok p admitted)
          | inr waived ↦ inr waived
        ],
        quiet,
      )

  -- Every request that the guard of company writes refuses is told to the audit, once and with the
  -- error that it is answered, except a request of a known principal that the limiter refuses, of
  -- which the audit is not told.
  pub company_writer_guard-audits :
      (request : Request) (state next : GuardState) (e : ApiError)
      → company_writer_guard tag hmac_hex limiter config credentials request state ≡ (next, err e)
      → Audited e state next
        ⊎ ((p : Principal) × (auth tag hmac_hex limiter config credentials request ≡ ok p)
            × ((count tag hmac_hex limiter config credentials p request state).1 ≡ err e)
            × (next.denials ≡ state.denials))
  unfolding company_writer_guard shared_guard
  company_writer_guard-audits request state next e h =
      known-err tag hmac_hex limiter config credentials require_company_write
        config.allow_legacy_shared_writer "company_writer_required" request state next
        (auth tag hmac_hex limiter config credentials request) e h
