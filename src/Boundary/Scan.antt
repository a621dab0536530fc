-- ===== src/Boundary/Scan.antt =====
-- The credential index of src/auth.rs beside a scan of the configured tokens.
use nowledge.Prelude.{
  ℕ, ◌+◌, String, str_eq, eq_iff, eq_refl, ◌≡◌, refl, sym, ap, ◌∙◌, true, false, inl, inr, Option,
  none, some, List, [], ◌∷◌, ◌++◌, arith, if◌then◌else◌, ok, >>=-eq-ok, Bool-cases, is_empty,
}
use nowledge.Boundary.Principals.{Principal}
use nowledge.Boundary.Credentials.{
  AuthUserConfig, Config, CredentialRef, auth_user, bearer_token, CredentialIndex, or_default,
  has_any_auth, bearer, insert, insert_users, insert_token, from_config, lookup,
}
use nowledge.Boundary.Authentication.{credential_principal, only_one, authenticate}

abbrev when : String → String → CredentialRef → List CredentialRef
when configured token credential = if str_eq configured token then credential ∷ [] else []

abbrev scan_token : Option String → String → CredentialRef → List CredentialRef
scan_token none token credential = []
scan_token (some configured) token credential = when configured token credential

unfoldable pub scan_users : ℕ → List AuthUserConfig → String → List CredentialRef
scan_users position [] token = []
scan_users position (user ∷ users) token =
    when user.token token (auth_user position) ++ scan_users (position + 1) users token

-- The credentials whose configured token is equal to the token, in the order of the configuration.
unfoldable pub scan : Config → String → List CredentialRef
unfolding scan_users
scan config token =
    (scan_users 0 config.auth_users token
      ++ scan_token config.admin_token token CredentialRef.admin)
    ++ scan_token config.bearer_token token bearer_token

append_nil : (xs : List CredentialRef) → xs ++ [] ≡ xs
append_nil [] = refl
append_nil (x ∷ xs) = ap (λ ys. x ∷ ys) (append_nil xs)

append_assoc : (xs ys zs : List CredentialRef) → (xs ++ ys) ++ zs ≡ xs ++ (ys ++ zs)
append_assoc [] ys zs = refl
append_assoc (x ∷ xs) ys zs = ap (λ us. x ∷ us) (append_assoc xs ys zs)

the_one :
    (config : Config) (refs : List CredentialRef) (p : Principal)
    → only_one config refs ≡ ok p
    → (credential : CredentialRef) × (refs ≡ credential ∷ [])
      × (credential_principal config credential ≡ ok p)
unfolding only_one
the_one config [] p h = absurd (cc)
the_one config (credential ∷ []) p h = (credential, refl, h)
the_one config (credential ∷ other ∷ others) p h = absurd (cc)

module _ (tag : String → String) (injective : (a b : String) → tag a ≡ tag b → a ≡ b) where
  tag-eq : (a b : String) → str_eq (tag a) (tag b) ≡ str_eq a b
  tag-eq a b = elim (Bool-cases (str_eq a b)) [
    | inl e ↦ rw (e, (eq_iff a b).0 e) (eq_refl (tag b))
    | inr e ↦ ground (arith, eq_iff (tag a) (tag b), eq_iff a b, injective a b)
  ]

  lookup-insert :
      (tags : CredentialIndex) (configured token : String) (credential : CredentialRef)
      → lookup tag (insert tag tags configured credential) token
        ≡ lookup tag tags token ++ when configured token credential
  unfolding lookup insert
  lookup-insert tags configured token credential = elim (Bool-cases (str_eq configured token)) [
    | inl e ↦ rw (tag-eq configured token, e) refl
    | inr e ↦ rw (tag-eq configured token, e, append_nil (or_default (tags (tag token)))) refl
  ]

  lookup-insert_token :
      (tags : CredentialIndex) (configured : Option String) (token : String)
      (credential : CredentialRef)
      → lookup tag (insert_token tag tags configured credential) token
        ≡ lookup tag tags token ++ scan_token configured token credential
  unfolding insert_token
  lookup-insert_token tags none token credential = sym (append_nil (lookup tag tags token))
  lookup-insert_token tags (some configured) token credential =
      lookup-insert tags configured token credential

  lookup-insert_users :
      (tags : CredentialIndex) (position : ℕ) (users : List AuthUserConfig) (token : String)
      → lookup tag (insert_users tag tags position users) token
        ≡ lookup tag tags token ++ scan_users position users token
  unfolding insert_users scan_users
  lookup-insert_users tags position [] token = sym (append_nil (lookup tag tags token))
  lookup-insert_users tags position (user ∷ users) token =
      lookup-insert_users (insert tag tags user.token (auth_user position)) (position + 1) users
        token
      ∙ rw (lookup-insert tags user.token token (auth_user position)) (
          append_assoc (lookup tag tags token) (when user.token token (auth_user position))
            (scan_users (position + 1) users token))

  -- When different tokens have different tags, the index finds the credentials with the token that
  -- a scan of the configuration finds, in the same order.
  pub lookup-scan :
      (config : Config) (token : String)
      → lookup tag (from_config tag config) token ≡ scan config token
  unfolding from_config scan lookup
  lookup-scan config token =
      let empty : CredentialIndex = λ key. none in
      let users = insert_users tag empty 0 config.auth_users in
      let admins = insert_token tag users config.admin_token CredentialRef.admin in
      lookup-insert_token admins config.bearer_token token bearer_token
      ∙ ap (λ ys. ys ++ scan_token config.bearer_token token bearer_token)
          (lookup-insert_token users config.admin_token token CredentialRef.admin
            ∙ ap (λ ys. ys ++ scan_token config.admin_token token CredentialRef.admin)
                (lookup-insert_users empty 0 config.auth_users token))

  -- When different tokens have different tags and some authentication is configured, a request
  -- that is authenticated presented a token that is not empty, and it acts for the one configured
  -- credential with that token.
  pub authenticated :
      (config : Config) (header : Option String) (p : Principal)
      → has_any_auth config ≡ true
      → authenticate tag config (from_config tag config) header ≡ ok p
      → (token : String) × (bearer header ≡ ok token)
        × (is_empty token ≡ false)
        × ((credential : CredentialRef) × (scan config token ≡ credential ∷ [])
            × (credential_principal config credential ≡ ok p))
  unfolding authenticate
  authenticated config header p configured h =
      let chain = rw configured at h in
      let (token, presented, rest) = >>=-eq-ok (bearer header) _ chain in
      elim (Bool-cases (is_empty token)) [
        | inl empty ↦ (let wrong = rw empty at rest in absurd (cc))
        | inr filled ↦
            let found = rw (filled, lookup-scan config token) at rest in
            let (credential, alone, principal) = the_one config (scan config token) p found in
            (token, presented, filled, (credential, alone, principal))
      ]
