-- ===== src/Redaction/Clean.antt =====
-- What the exact redaction of src/util.rs lets through.
use nowledge.Prelude.{
  ℕ, zero, suc, ◌≤◌, true, false, ◌≡◌, ◌≢◌, refl, sym, ap, inl, inr, List, [], ◌∷◌, ◌++◌, arith,
  leb, length, Bool-cases, All, or_false,
}
use nowledge.Redaction.Texts.{
  Text, starts_with, member, same_chars, min_redactable_secret_chars, credential_shapes,
}
use nowledge.Redaction.Members.{same_chars-eq, member-cons, member_here, member_there}
use nowledge.Redaction.Secrets.{
  SecretMatcher, contains, stands_before, insert_secret, ordered_known_secrets, new_matcher,
}
use nowledge.Redaction.Exact.{
  contains_any, contains_configured_secret, redact_configured_exact_once, redact_rounds,
  redact_configured_exact, redact_locator, replace_shapes, redact_exact,
}

abbrev pub IsLong : Text → Type 0
IsLong text = min_redactable_secret_chars ≤ length text

insert_secret-IsLong :
    (s : Text) (ss : List Text) → IsLong s → All IsLong ss → All IsLong (insert_secret s ss)
unfolding insert_secret
insert_secret-IsLong s [] h k = (h, tt)
insert_secret-IsLong s (x ∷ ss) h (k, rest) = elim (Bool-cases (same_chars s x)) [
  | inl same ↦ rw same (k, rest)
  | inr other ↦ elim (Bool-cases (stands_before s x)) [
    | inl first ↦ rw (other, first) (h, (k, rest))
    | inr later ↦ rw (other, later) (k, insert_secret-IsLong s ss h rest)
  ]
]

pub ordered_known_secrets-IsLong :
    (secrets : List Text) → All IsLong (ordered_known_secrets secrets)
unfolding ordered_known_secrets
ordered_known_secrets-IsLong [] = tt
ordered_known_secrets-IsLong (s ∷ secrets) =
    elim (Bool-cases (leb min_redactable_secret_chars (length s))) [
      | inl long ↦ rw long (
          insert_secret-IsLong s (ordered_known_secrets secrets) (ground arith)
            (ordered_known_secrets-IsLong secrets))
      | inr short ↦ rw short (ordered_known_secrets-IsLong secrets)
    ]

starts_with-nil : (s : Text) → IsLong s → starts_with [] s ≡ false
unfolding starts_with
starts_with-nil [] h = absurd (omega arith)
starts_with-nil (c ∷ s) h = refl

contains_any-nil : (ss : List Text) → All IsLong ss → contains_any ss [] ≡ false
unfolding contains_any contains
contains_any-nil [] h = refl
contains_any-nil (s ∷ ss) (h, rest) = rw (starts_with-nil s h, contains_any-nil ss rest) refl

redact_rounds-clean :
    (matcher : SecretMatcher) (rounds : ℕ) (current : Text)
    → contains_configured_secret matcher [] ≡ false
    → contains_configured_secret matcher (redact_rounds matcher rounds current) ≡ false
unfolding redact_rounds
redact_rounds-clean matcher zero current h = h
redact_rounds-clean matcher (suc rounds) current h =
    elim (Bool-cases
      (contains_configured_secret matcher (redact_configured_exact_once matcher current))) [
        | inl dirty ↦
            rw dirty
              (redact_rounds-clean matcher rounds (redact_configured_exact_once matcher current) h)
        | inr clean ↦ rw clean clean
      ]

redact_configured_exact-clean :
    (mask_character : ℕ) (secrets : List Text) (input : Text)
    → let matcher = new_matcher mask_character secrets in
      contains_configured_secret matcher (redact_configured_exact matcher input) ≡ false
unfolding redact_configured_exact contains_configured_secret new_matcher
redact_configured_exact-clean m secrets input =
    redact_rounds-clean (new_matcher m secrets) 64 input
      (contains_any-nil (ordered_known_secrets secrets) (ordered_known_secrets-IsLong secrets))

-- Every secret that is long enough stands among the ordered ones.
insert_secret_self : (s : Text) (ss : List Text) → member (insert_secret s ss) s ≡ true
unfolding insert_secret
insert_secret_self s [] = member_here s []
insert_secret_self s (x ∷ ss) = elim (Bool-cases (same_chars s x)) [
  | inl same ↦ rw same (rw (sym (same_chars-eq s x same)) (member_here s ss))
  | inr other ↦ elim (Bool-cases (stands_before s x)) [
    | inl first ↦ rw (other, first) (member_here s (x ∷ ss))
    | inr later ↦
        rw (other, later) (member_there x (insert_secret s ss) s (insert_secret_self s ss))
  ]
]

insert_secret-kept :
    (s : Text) (ss : List Text) (t : Text)
    → member ss t ≡ true
    → member (insert_secret s ss) t ≡ true
unfolding insert_secret
insert_secret-kept s [] t h = member_there s [] t h
insert_secret-kept s (x ∷ ss) t h = elim (Bool-cases (same_chars s x)) [
  | inl same ↦ rw same h
  | inr other ↦ elim (Bool-cases (stands_before s x)) [
    | inl first ↦ rw (other, first) (member_there s (x ∷ ss) t h)
    | inr later ↦
        rw (other, later)
          (elim (member-cons x ss t h) [
            | inl e ↦ rw e (member_here t (insert_secret s ss))
            | inr m ↦ member_there x (insert_secret s ss) t (insert_secret-kept s ss t m)
          ])
  ]
]

pub ordered_known_secrets-member :
    (secrets : List Text) (s : Text)
    → member secrets s ≡ true
    → IsLong s
    → member (ordered_known_secrets secrets) s ≡ true
unfolding ordered_known_secrets
ordered_known_secrets-member [] s h long = unfold member in absurd (cc)
ordered_known_secrets-member (x ∷ secrets) s h long =
    elim (Bool-cases (leb min_redactable_secret_chars (length x))) [
      | inl enough ↦ rw enough (elim (member-cons x secrets s h) [
        | inl e ↦ rw e (insert_secret_self s (ordered_known_secrets secrets))
        | inr m ↦
            insert_secret-kept x (ordered_known_secrets secrets) s
              (ordered_known_secrets-member secrets s m long)
      ])
      | inr short ↦ rw short (elim (member-cons x secrets s h) [
        | inl e ↦ absurd (ground (arith, ap length e))
        | inr m ↦ ordered_known_secrets-member secrets s m long
      ])
    ]

contains_any-false :
    (ss : List Text) (text s : Text)
    → contains_any ss text ≡ false
    → member ss s ≡ true
    → contains text s ≡ false
unfolding contains_any
contains_any-false [] text s h m = unfold member in absurd (cc)
contains_any-false (x ∷ ss) text s h m = elim (member-cons x ss s m) [
  | inl e ↦ rw (← e) (or_false (contains text x) (contains_any ss text) h).0
  | inr later ↦
      contains_any-false ss text s (or_false (contains text x) (contains_any ss text) h).1 later
]

starts_with-append : (s b : Text) → starts_with (s ++ b) s ≡ true
unfolding starts_with
starts_with-append [] b = starts_with_nil b
  where
    starts_with_nil : (t : Text) → starts_with t [] ≡ true
    starts_with_nil [] = refl
    starts_with_nil (c ∷ t) = refl
starts_with-append (c ∷ s) b = ground (arith, starts_with-append s b)

contains-append : (a s b : Text) → contains (a ++ (s ++ b)) s ≡ true
unfolding contains
contains-append [] s b = contains_of_start (s ++ b) s (starts_with-append s b)
  where
    contains_of_start : (t p : Text) → starts_with t p ≡ true → contains t p ≡ true
    contains_of_start [] p h = h
    contains_of_start (c ∷ t) p h = rw h refl
contains-append (c ∷ a) s b = ground (arith, contains-append a s b)

-- A text that passes the test holds no configured secret of four characters or more.
clean_text :
    (m : ℕ) (secrets : List Text) (text a s b : Text)
    → contains_configured_secret (new_matcher m secrets) text ≡ false
    → member secrets s ≡ true
    → IsLong s
    → text ≢ a ++ (s ++ b)
unfolding contains_configured_secret new_matcher
clean_text m secrets text a s b clean inside long e =
    let absent =
      contains_any-false (ordered_known_secrets secrets) text s clean
        (ordered_known_secrets-member secrets s inside long) in
    let there = contains-append a s b in cc

-- What `redact_locator` and `redact_exact` answer never contains a configured secret of four
-- characters or more, whatever the text and the secrets are.
pub redacted_text_clean :
    (mask_character : ℕ) (secrets : List Text) (input a s b : Text)
    → member secrets s ≡ true
    → IsLong s
    → let matcher = new_matcher mask_character secrets in
      (redact_locator matcher input ≢ a ++ (s ++ b)) × (redact_exact matcher input ≢ a ++ (s ++ b))
unfolding redact_locator redact_exact
redacted_text_clean m secrets input a s b inside long =
    let matcher = new_matcher m secrets in
    (
      clean_text m secrets (redact_configured_exact matcher input) a s b
          (redact_configured_exact-clean m secrets input) inside long,
      clean_text m secrets (redact_exact matcher input) a s b
          (redact_configured_exact-clean m secrets (
            replace_shapes (λ n. matcher.redaction_marker) credential_shapes
              (redact_configured_exact matcher input)))
          inside long,
    )
