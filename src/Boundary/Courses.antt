-- ===== src/Boundary/Courses.antt =====
-- The guards of src/auth.rs read backwards: what an answer says of the checks behind it.
use nowledge.Prelude.{
  ℕ, String, ◌≡◌, refl, sym, ap, subst, ◌∙◌, Bool, true, inl, inr, ◌⊎◌, [], ◌∷◌, ◌++◌, Bool-cases,
  Result, ok, err,
}
use nowledge.Boundary.Errors.{ApiError}
use nowledge.Boundary.Principals.{Principal}
use nowledge.Boundary.RateLimiter.{FixedWindowRateLimiter}
use nowledge.Boundary.Credentials.{Config, CredentialIndex}
use nowledge.Boundary.Authentication.{authenticate}
use nowledge.Boundary.Guards.{
  GuardState, Request, Denial, enforce_principal_rate_limit, audit_denial, limited_user, known_user,
  permitted, limited, known,
}

-- A refusal: the audit is told of it, unless the limiter refused a known principal.
abbrev pub Audited : ApiError → GuardState → GuardState → Type 0
Audited e state next = (d : Denial) × (d.error ≡ e) × (next.denials ≡ state.denials ++ (d ∷ []))

err_injective : {e e' : ApiError} → Path (Result ApiError Principal) (err e) (err e') → e ≡ e'
err_injective h = cc

module _ (tag : String → String) (hmac_hex : String → String → String → ℕ → String)
    (limiter : FixedWindowRateLimiter) (config : Config) (credentials : CredentialIndex) where
  abbrev pub auth : Request → Result ApiError Principal
  auth request = authenticate tag config credentials request.authorization

  abbrev pub count : Principal → Request → GuardState → GuardState × Result ApiError (Unit {0})
  count p request state =
      enforce_principal_rate_limit tag hmac_hex limiter config credentials p request.now state

  count_denials :
      (p : Principal) (request : Request) (state : GuardState)
      → (count p request state).0.denials ≡ state.denials
  unfolding enforce_principal_rate_limit
  count_denials p request state = refl

  limited_user-ok :
      (q : Principal) (counted next : GuardState) (answer : Result ApiError (Unit {0}))
      (p : Principal)
      → limited_user tag hmac_hex limiter config credentials q (counted, answer) ≡ (next, ok p)
      → q ≡ p
  unfolding limited_user
  limited_user-ok q counted next (err e) p h = (let wrong = ap (λ r. r.1) h in absurd (cc))
  limited_user-ok q counted next (ok _) p h = (let same = ap (λ r. r.1) h in cc)

  -- The users' guard lets through the principal of the credential.
  pub known_user-ok :
      (request : Request) (state next : GuardState) (r : Result ApiError Principal) (p : Principal)
      → known_user tag hmac_hex limiter config credentials request state r ≡ (next, ok p)
      → r ≡ ok p
  unfolding known_user
  known_user-ok request state next (err e) p h = (let wrong = ap (λ r. r.1) h in absurd (cc))
  known_user-ok request state next (ok q) p h =
      let counted = count q request state in ap ok (limited_user-ok q counted.0 next counted.1 p h)

  module _ (permit : Principal → Result ApiError (Unit {0})) (waived : Bool) (reason : String) where
    -- What stands behind an answer of the check, of the limiter and of authentication.
    permitted-ok :
        (request : Request) (q : Principal) (counted next : GuardState)
        (answer : Result ApiError (Unit {0})) (p : Principal)
        → permitted tag hmac_hex limiter config credentials permit waived reason request q counted
            answer
          ≡ (next, ok p)
        → (q ≡ p) × ((answer ≡ ok tt) ⊎ (waived ≡ true)) × (next.denials ≡ counted.denials)
    unfolding permitted
    permitted-ok request q counted next (ok _) p h =
        (let same = ap (λ r. r.1) h in cc, inl refl, ap (λ r. r.0.denials) (sym h))
    permitted-ok request q counted next (err e) p h = elim (Bool-cases waived) [
      | inl w ↦
          let passed = rw w at h in
          (let same = ap (λ r. r.1) passed in cc, inr w, ap (λ r. r.0.denials) (sym passed))
      | inr w ↦ (let wrong = ap (λ r. r.1) (rw w at h) in absurd (cc))
    ]

    limited-ok :
        (request : Request) (q : Principal) (counted next : GuardState)
        (answer : Result ApiError (Unit {0})) (p : Principal)
        → limited tag hmac_hex limiter config credentials permit waived reason request q
            (counted, answer)
          ≡ (next, ok p)
        → (q ≡ p)
          × (answer ≡ ok tt)
          × ((permit q ≡ ok tt) ⊎ (waived ≡ true))
          × (next.denials ≡ counted.denials)
    unfolding limited
    limited-ok request q counted next (err e) p h = (let wrong = ap (λ r. r.1) h in absurd (cc))
    limited-ok request q counted next (ok _) p h =
        let (same, allowed, quiet) = permitted-ok request q counted next (permit q) p h in
        (same, refl, allowed, quiet)

    pub known-ok :
        (request : Request) (state next : GuardState) (r : Result ApiError Principal)
        (p : Principal)
        → known tag hmac_hex limiter config credentials permit waived reason request state r
          ≡ (next, ok p)
        → (r ≡ ok p)
          × ((count p request state).1 ≡ ok tt)
          × ((permit p ≡ ok tt) ⊎ (waived ≡ true))
          × (next.denials ≡ state.denials)
    unfolding known
    known-ok request state next (err e) p h = (let wrong = ap (λ r. r.1) h in absurd (cc))
    known-ok request state next (ok q) p h =
        let counted = count q request state in
        let (same, within, allowed, quiet) = limited-ok request q counted.0 next counted.1 p h in
        (
          ap ok same,
          subst (λ x. (count x request state).1 ≡ ok tt) same within,
          subst (λ x. (permit x ≡ ok tt) ⊎ (waived ≡ true)) same allowed,
          quiet ∙ count_denials q request state,
        )

    permitted-err :
        (request : Request) (q : Principal) (counted next : GuardState)
        (answer : Result ApiError (Unit {0})) (e : ApiError)
        → permitted tag hmac_hex limiter config credentials permit waived reason request q counted
            answer
          ≡ (next, err e)
        → Audited e counted next
    unfolding permitted audit_denial
    permitted-err request q counted next (ok _) e h = (let wrong = ap (λ r. r.1) h in absurd (cc))
    permitted-err request q counted next (err error) e h = elim (Bool-cases waived) [
      | inl w ↦ (let wrong = ap (λ r. r.1) (rw w at h) in absurd (cc))
      | inr w ↦
          let refused = rw w at h in
          (
            _,
            (let same = ap (λ r. r.1) refused in err_injective same),
            ap (λ r. r.0.denials) (sym refused),
          )
    ]

    limited-err :
        (request : Request) (q : Principal) (counted next : GuardState)
        (answer : Result ApiError (Unit {0})) (e : ApiError)
        → limited tag hmac_hex limiter config credentials permit waived reason request q
            (counted, answer)
          ≡ (next, err e)
        → Audited e counted next ⊎ ((answer ≡ err e) × (next.denials ≡ counted.denials))
    unfolding limited
    limited-err request q counted next (err error) e h =
        inr ((let same = ap (λ r. r.1) h in cc), ap (λ r. r.0.denials) (sym h))
    limited-err request q counted next (ok _) e h =
        inl (permitted-err request q counted next (permit q) e h)

    pub known-err :
        (request : Request) (state next : GuardState) (r : Result ApiError Principal) (e : ApiError)
        → known tag hmac_hex limiter config credentials permit waived reason request state r
          ≡ (next, err e)
        → Audited e state next
          ⊎ ((p : Principal) × (r ≡ ok p)
              × ((count p request state).1 ≡ err e)
              × (next.denials ≡ state.denials))
    unfolding known audit_denial
    known-err request state next (err error) e h =
        inl (_, (let same = ap (λ r. r.1) h in err_injective same), ap (λ r. r.0.denials) (sym h))
    known-err request state next (ok q) e h =
        let counted = count q request state in
        elim (limited-err request q counted.0 next counted.1 e h) [
          | inl (d, told, more) ↦ inl (d, told, more)
          | inr (throttled, quiet) ↦ inr (q, refl, throttled, quiet)
        ]
