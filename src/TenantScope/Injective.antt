-- ===== src/TenantScope/Injective.antt =====
-- The identities of src/tenant_scope.rs and the texts that they are made of.
use Prim.Native.String.{len, ◌++◌}
use text.Mathlib.TextLemmas.{append_cancel_left, append_cancel_right, cons-append, nil-append}
use text.Mathlib.TextPositions.{slice-append_left}
use nowledge.Prelude.{
  String, ◌≡◌, refl, sym, ap, ◌∙◌, false, Option, none, some, List, [], ◌∷◌, ok, is_empty, decimal,
  >>-eq-ok, >>=-eq-ok,
}
use nowledge.TenantScope.Digits.{read, one-append, read-decimal}
use nowledge.TenantScope.Identities.{
  require_non_empty, length_prefixed_identity, owner_scope, owner_scoped_storage_identity,
  persisted_document_id,
}

-- Texts that are as long as each other are told apart by any text that starts with them.
same_start : (s s' r r' : String) → len s ≡ len s' → s ++ r ≡ s' ++ r' → (s ≡ s') × (r ≡ r')
same_start s s' r r' l e =
    let same : s ≡ s' = sym (slice-append_left s r) ∙ (rw (l, e) (slice-append_left s' r')) in
    (same, append_cancel_left s r r' (e ∙ ap (λ t. t ++ r') (sym same)))

not_empty : (s t : String) → is_empty (s ++ (":" ++ t)) ≡ false
not_empty String.[] t = ap is_empty (nil-append (":" ++ t) ∙ one-append ":" t)
not_empty (String.◌∷◌ c s) t = ap is_empty (cons-append c s (":" ++ t))

-- The length-prefixed identity of a list of texts determines the list.
pub length_prefixed_identity_injective :
    (xs ys : List String) → length_prefixed_identity xs ≡ length_prefixed_identity ys → xs ≡ ys
unfolding length_prefixed_identity
length_prefixed_identity_injective [] [] h = refl
length_prefixed_identity_injective [] (y ∷ ys) h =
    (let wrong = ap is_empty h ∙ not_empty (decimal (len y)) (y ++ length_prefixed_identity ys) in
      absurd (cc))
length_prefixed_identity_injective (x ∷ xs) [] h =
    (let wrong =
        ap is_empty (sym h) ∙ not_empty (decimal (len x)) (x ++ length_prefixed_identity xs) in
      absurd (cc))
length_prefixed_identity_injective (x ∷ xs) (y ∷ ys) h =
    let rest = x ++ length_prefixed_identity xs in
    let rest' = y ++ length_prefixed_identity ys in
    let back = sym (read-decimal (len x) rest) ∙ ap (read 0) h ∙ read-decimal (len y) rest' in
    let (same, others) =
      same_start x y (length_prefixed_identity xs) (length_prefixed_identity ys)
        (ap (λ p. p.0) back) (ap (λ p. p.1) back) in
    let tails = length_prefixed_identity_injective xs ys others in cc

id_of :
    (document_hmac : String → String) (tenant kind logical id : String)
    → persisted_document_id document_hmac tenant kind logical ≡ ok id
    → "ts1_" ++ (document_hmac (length_prefixed_identity (tenant ∷ kind ∷ logical ∷ [])) ++ "") ≡ id
unfolding persisted_document_id
id_of document_hmac tenant kind logical id h =
    let (_, h₁) = >>-eq-ok (require_non_empty "tenant_id" tenant) _ h in
    let (_, h₂) = >>-eq-ok (require_non_empty "persisted kind" kind) _ h₁ in
    let (_, h₃) = >>-eq-ok (require_non_empty "logical_id" logical) _ h₂ in cc

-- The scopes of different owners, and that of the company, are different.
owner_scope_injective :
    (owner owner' : Option String) (scope : String)
    → owner_scope owner ≡ ok scope
    → owner_scope owner' ≡ ok scope
    → owner ≡ owner'
unfolding owner_scope
owner_scope_injective none none scope h h' = refl
owner_scope_injective none (some o') scope h h' =
    let (_, e) = >>-eq-ok (require_non_empty "owner_user_id" o') _ h' in
    (let wrong = length_prefixed_identity_injective ("company" ∷ []) ("owner" ∷ o' ∷ []) cc in
      absurd (cc))
owner_scope_injective (some o) none scope h h' =
    let (_, e) = >>-eq-ok (require_non_empty "owner_user_id" o) _ h in
    (let wrong = length_prefixed_identity_injective ("owner" ∷ o ∷ []) ("company" ∷ []) cc in
      absurd (cc))
owner_scope_injective (some o) (some o') scope h h' =
    let (_, e) = >>-eq-ok (require_non_empty "owner_user_id" o) _ h in
    let (_, e') = >>-eq-ok (require_non_empty "owner_user_id" o') _ h' in
    let same = length_prefixed_identity_injective ("owner" ∷ o ∷ []) ("owner" ∷ o' ∷ []) cc in cc

-- If the hash gives different identities different values, the id of a document determines its
-- tenant, its kind and its logical id.
pub persisted_document_id_injective :
    (document_hmac : String → String)
    → ((a b : String) → document_hmac a ≡ document_hmac b → a ≡ b)
    → (tenant kind logical tenant' kind' logical' id : String)
    → persisted_document_id document_hmac tenant kind logical ≡ ok id
    → persisted_document_id document_hmac tenant' kind' logical' ≡ ok id
    → (tenant ≡ tenant') × (kind ≡ kind') × (logical ≡ logical')
persisted_document_id_injective document_hmac injective tenant kind logical tenant' kind' logical'
      id h h' =
    let identity = length_prefixed_identity (tenant ∷ kind ∷ logical ∷ []) in
    let identity' = length_prefixed_identity (tenant' ∷ kind' ∷ logical' ∷ []) in
    let same =
      id_of document_hmac tenant kind logical id h
      ∙ sym (id_of document_hmac tenant' kind' logical' id h') in
    let hashes = append_cancel_right (document_hmac identity) (document_hmac identity') "" (
      append_cancel_left "ts1_" (document_hmac identity ++ "") (document_hmac identity' ++ "")
        same) in
    let parts =
      length_prefixed_identity_injective (tenant ∷ kind ∷ logical ∷ [])
        (tenant' ∷ kind' ∷ logical' ∷ []) (injective identity identity' hashes) in
    (cc, cc, cc)

-- The storage identity of a document determines its owner, or that it is the company's, and its
-- logical id.
pub owner_scoped_storage_identity_injective :
    (owner owner' : Option String) (logical logical' identity : String)
    → owner_scoped_storage_identity owner logical ≡ ok identity
    → owner_scoped_storage_identity owner' logical' ≡ ok identity
    → (owner ≡ owner') × (logical ≡ logical')
unfolding owner_scoped_storage_identity
owner_scoped_storage_identity_injective owner owner' logical logical' identity h h' =
    let (_, h₁) = >>-eq-ok (require_non_empty "logical_id" logical) _ h in
    let (_, h₁') = >>-eq-ok (require_non_empty "logical_id" logical') _ h' in
    let (scope, s, e) = >>=-eq-ok (owner_scope owner) _ h₁ in
    let (scope', s', e') = >>=-eq-ok (owner_scope owner') _ h₁' in
    let both =
      length_prefixed_identity_injective (scope ∷ logical ∷ []) (scope' ∷ logical' ∷ []) cc in
    let one : scope ≡ scope' = cc in (owner_scope_injective owner owner' scope s (rw one s'), cc)
