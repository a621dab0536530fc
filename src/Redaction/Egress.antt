-- ===== src/Redaction/Egress.antt =====
-- What `redact_egress_text` of src/util.rs lets through, with the mask character that it chooses.
use nowledge.Prelude.{
  ℕ, zero, suc, true, false, ◌&&◌, ◌||◌, leb, ◌-◌, subst, ◌⊎◌, ◌≡◌, ◌≢◌, refl, sym, ap, ap₂, ◌∙◌,
  inl, inr, Option, none, some, List, [], ◌∷◌, ◌++◌, arith, Bool-cases,
}
use nowledge.Redaction.Texts.{Text, member, same_chars}
use nowledge.Redaction.Members.{same_chars-eq}
use nowledge.Redaction.Secrets.{
  SecretMatcher, has_char, used_in, first_unused, first_unused_from, or_else,
  collision_free_mask_character, new_matcher,
}
use nowledge.Redaction.Exact.{redact_exact, redact_locator}
use nowledge.Redaction.Masks.{
  ResponseTextPolicy, configured_exact_only, locator, exact_only, windowed, fragment,
  redact_egress_text, redact_response_string, mask_fragments, response_secret_fragment_chars,
}
use nowledge.Redaction.Keeps.{keeps_or_masks}
use nowledge.Redaction.Clean.{IsLong, redacted_text_clean}
use nowledge.Redaction.Projections.{
  mask_secret_substring_windows-keeps_or_masks, mask_fragments-keeps_or_masks,
}

keeps_or_masks-rest :
    (m : ℕ) (input a rest : Text)
    → keeps_or_masks m input (a ++ rest) ≡ true
    → (b : Text) × ((r : Text) × (input ≡ b ++ r) × (keeps_or_masks m r rest ≡ true))
unfolding keeps_or_masks
keeps_or_masks-rest m input [] rest h = ([], (input, refl, h))
keeps_or_masks-rest m [] (o ∷ a) rest h = absurd (cc)
keeps_or_masks-rest m (c ∷ input) (o ∷ a) rest h =
    let (b, (r, split, kept)) = keeps_or_masks-rest m input a rest (ground arith) in
    (c ∷ b, (r, ap (λ t. c ∷ t) split, kept))

-- What is shown without a mask character stood there before.
keeps_or_masks-unmasked :
    (m : ℕ) (r s b : Text)
    → has_char s m ≡ false
    → keeps_or_masks m r (s ++ b) ≡ true
    → (rest : Text) × (r ≡ s ++ rest)
unfolding keeps_or_masks has_char
keeps_or_masks-unmasked m r [] b free h = (r, refl)
keeps_or_masks-unmasked m [] (o ∷ s) b free h = absurd (cc)
keeps_or_masks-unmasked m (c ∷ r) (o ∷ s) b free h =
    let (rest, split) = keeps_or_masks-unmasked m r s b (ground arith) (ground arith) in
    let same : c ≡ o = ground arith in (rest, ap₂ (λ x t. x ∷ t) same split)

used_in-member :
    (secrets : List Text) (s : Text) (m : ℕ)
    → member secrets s ≡ true
    → used_in secrets m ≡ false
    → has_char s m ≡ false
unfolding member used_in
used_in-member [] s m inside free = absurd (cc)
used_in-member (t ∷ secrets) s m inside free = elim (Bool-cases (same_chars t s)) [
  | inl same ↦ ap (λ x. has_char x m) (sym (same_chars-eq t s same)) ∙ ground arith
  | inr other ↦ used_in-member secrets s m (rw other at inside) (ground arith)
]

first_unused-free :
    (secrets : List Text) (cs : List ℕ) (m : ℕ)
    → first_unused secrets cs ≡ some m
    → used_in secrets m ≡ false
unfolding first_unused
first_unused-free secrets [] m h = absurd (cc)
first_unused-free secrets (c ∷ cs) m h = elim (Bool-cases (used_in secrets c)) [
  | inl used ↦ first_unused-free secrets cs m (rw used at h)
  | inr free ↦ let same : c ≡ m = cc (rw free at h) in ap (used_in secrets) (sym same) ∙ free
]

first_unused_from-free :
    (secrets : List Text) (count c m : ℕ)
    → first_unused_from secrets count c ≡ some m
    → used_in secrets m ≡ false
unfolding first_unused_from
first_unused_from-free secrets zero c m h = absurd (cc)
first_unused_from-free secrets (suc count) c m h =
    elim (Bool-cases (used_in secrets c || leb 0xd800 c && leb c 0xdfff)) [
      | inl skipped ↦ first_unused_from-free secrets count (suc c) m (rw skipped at h)
      | inr taken ↦
          let same : c ≡ m = cc (rw taken at h) in ap (used_in secrets) (sym same) ∙ ground arith
    ]

or_else-cases : (a b : Option ℕ) (m : ℕ) → or_else a b ≡ some m → (a ≡ some m) ⊎ (b ≡ some m)
or_else-cases none b m h = inr h
or_else-cases (some c) b m h = inl h

collision_free_mask_character-free :
    (secrets : List Text) (m : ℕ)
    → collision_free_mask_character secrets ≡ some m
    → used_in secrets m ≡ false
unfolding collision_free_mask_character
collision_free_mask_character-free secrets m h =
    let preferred = first_unused secrets (0x2a ∷ 0x2022 ∷ 0x2588 ∷ 0x25c6 ∷ []) in
    let private_use = first_unused_from secrets (0x110000 - 0xe000) 0xe000 in
    let low = first_unused_from secrets 0xe000 0 in
    elim (or_else-cases preferred (or_else private_use low) m h) [
      | inl found ↦ first_unused-free secrets (0x2a ∷ 0x2022 ∷ 0x2588 ∷ 0x25c6 ∷ []) m found
      | inr other ↦ elim (or_else-cases private_use low m other) [
        | inl found ↦ first_unused_from-free secrets (0x110000 - 0xe000) 0xe000 m found
        | inr found ↦ first_unused_from-free secrets 0xe000 0 m found
      ]
    ]

-- A text of which some characters are masked holds no secret that the text itself does not hold.
masked_text_clean :
    (secrets : List Text) (m : ℕ) (exact masked a s b : Text)
    → collision_free_mask_character secrets ≡ some m
    → member secrets s ≡ true
    → keeps_or_masks (new_matcher m secrets).mask_character exact masked ≡ true
    → ((before after : Text) → exact ≢ before ++ (s ++ after))
    → masked ≢ a ++ (s ++ b)
unfolding new_matcher
masked_text_clean secrets m exact masked a s b chosen inside kept clean = λ e.
    let (before, (r, split, rest)) =
      keeps_or_masks-rest m exact a (s ++ b)
        (subst (λ t. keeps_or_masks m exact t ≡ true) e kept) in
    let (after, there) =
      keeps_or_masks-unmasked m r s b
        (used_in-member secrets s m inside (collision_free_mask_character-free secrets m chosen))
        rest in
    clean before after (split ∙ ap (λ t. before ++ t) there)

-- With the mask character that the secrets give, which stands in none of them, what
-- `redact_egress_text` and, under every policy, `redact_response_string` answer never contains a
-- configured secret of four characters or more.
pub egress_text_clean :
    (secrets : List Text) (mask_character : ℕ) (input : Text) (policy : ResponseTextPolicy)
    (a s b : Text)
    → collision_free_mask_character secrets ≡ some mask_character
    → member secrets s ≡ true
    → IsLong s
    → let matcher = new_matcher mask_character secrets in
      (redact_egress_text matcher input ≢ a ++ (s ++ b))
      × (redact_response_string matcher input policy ≢ a ++ (s ++ b))
unfolding redact_egress_text redact_response_string redact_locator
egress_text_clean secrets m input policy a s b chosen inside long = (fragments, under policy)
  where
    matcher : SecretMatcher
    matcher = new_matcher m secrets

    exact : Text
    exact = redact_exact matcher input

    clean : (before after : Text) → exact ≢ before ++ (s ++ after)
    clean before after = (redacted_text_clean m secrets input before s after inside long).1

    fragments : mask_fragments matcher response_secret_fragment_chars exact ≢ a ++ (s ++ b)
    fragments =
        masked_text_clean secrets m exact _ a s b chosen inside
          (mask_fragments-keeps_or_masks matcher response_secret_fragment_chars exact) clean

    under :
        (policy : ResponseTextPolicy) → redact_response_string matcher input policy ≢ a ++ (s ++ b)
    under configured_exact_only = (redacted_text_clean m secrets input a s b inside long).0
    under locator = (redacted_text_clean m secrets input a s b inside long).0
    under exact_only = clean a b
    under windowed =
        masked_text_clean secrets m exact _ a s b chosen inside
          (mask_secret_substring_windows-keeps_or_masks matcher exact) clean
    under fragment = fragments
