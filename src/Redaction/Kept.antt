-- ===== src/Redaction/Kept.antt =====
-- The masking projections of src/util.rs, character by character.
use nowledge.Prelude.{
  ℕ, zero, suc, ◌-◌, ◌≤◌, true, ◌≡◌, refl, inl, inr, some, List, [], ◌∷◌, ◌++◌, arith, length,
  Bool-cases, Option-cases, All, subst,
}
use nowledge.Redaction.Texts.{Text, drop, starts_with, codes}
use nowledge.Redaction.Secrets.{SecretMatcher, redaction_marker_text}
use nowledge.Redaction.Exact.{
  matched_secret, can_preserve_marker, Found, marker, secret, plain, found_at, replace_secrets,
  mask_text,
}
use nowledge.Redaction.Clean.{IsLong}
use nowledge.Redaction.Keeps.{keeps_or_masks, keeps_or_masks_refl, keeps_or_masks-append}

pub starts_with-split :
    (text p : Text) → starts_with text p ≡ true → p ++ drop (length p) text ≡ text
unfolding starts_with drop
starts_with-split text [] h = refl
starts_with-split [] (x ∷ p) h = absurd (cc)
starts_with-split (c ∷ text) (x ∷ p) h = ground (arith, starts_with-split text p)

matched_secret-starts :
    (ss : List Text) (text s : Text) → matched_secret ss text ≡ some s → starts_with text s ≡ true
unfolding matched_secret
matched_secret-starts [] text s h = absurd (cc)
matched_secret-starts (x ∷ ss) text s h = elim (Bool-cases (starts_with text x)) [
  | inl here ↦ ground (arith, here)
  | inr other ↦ matched_secret-starts ss text s (rw other at h)
]

matched_secret-All :
    (P : Text → Type 0) (ss : List Text) (text s : Text)
    → All P ss
    → matched_secret ss text ≡ some s
    → P s
unfolding matched_secret
matched_secret-All P [] text s h e = absurd (cc)
matched_secret-All P (x ∷ ss) text s (h, rest) e = elim (Bool-cases (starts_with text x)) [
  | inl here ↦ subst P (cc (rw here at e)) h
  | inr other ↦ matched_secret-All P ss text s rest (rw other at e)
]

-- What is found at an offset stands there.
Stands : Found → Text → Type 0
Stands marker text = starts_with text redaction_marker_text ≡ true
Stands (secret s) text = (starts_with text s ≡ true) × IsLong s
Stands plain text = Unit

preserved_marker :
    (matcher : SecretMatcher) (text : Text)
    → can_preserve_marker matcher text ≡ true
    → starts_with text redaction_marker_text ≡ true
unfolding can_preserve_marker
preserved_marker matcher text h = ground arith

found_at-Stands :
    (matcher : SecretMatcher) (text : Text)
    → All IsLong matcher.ordered
    → Stands (found_at matcher text) text
unfolding found_at Stands
found_at-Stands matcher text long = elim (Bool-cases (can_preserve_marker matcher text)) [
  | inl preserved ↦ rw preserved (preserved_marker matcher text preserved)
  | inr other ↦ elim (Option-cases (matched_secret matcher.ordered text)) [
    | inl nothing ↦ rw (other, nothing) tt
    | inr (s, there) ↦
        rw (other, there)
          (
            matched_secret-starts matcher.ordered text s there,
            matched_secret-All IsLong matcher.ordered text s long there,
          )
  ]
]

pub keeps_or_masks-mask_text :
    (m : ℕ) (text : Text) → keeps_or_masks m text (mask_text m text) ≡ true
unfolding keeps_or_masks mask_text
keeps_or_masks-mask_text m [] = refl
keeps_or_masks-mask_text m (c ∷ text) = ground (arith, keeps_or_masks-mask_text m text)

pub keeps_or_masks-cons :
    (m c : ℕ) (text out : Text)
    → keeps_or_masks m text out ≡ true
    → keeps_or_masks m (c ∷ text) (c ∷ out) ≡ true
unfolding keeps_or_masks
keeps_or_masks-cons m c text out h = ground arith

-- A part at the beginning is replaced, and the rest is kept or masked.
keeps_or_masks-segment :
    (m c : ℕ) (text p replacement out : Text)
    → starts_with (c ∷ text) p ≡ true
    → 1 ≤ length p
    → keeps_or_masks m p replacement ≡ true
    → keeps_or_masks m (drop (length p - 1) text) out ≡ true
    → keeps_or_masks m (c ∷ text) (replacement ++ out) ≡ true
unfolding drop
keeps_or_masks-segment m c text [] replacement out starts size h k = absurd (omega arith)
keeps_or_masks-segment m c text (x ∷ p) replacement out starts size h k =
    subst (λ t. keeps_or_masks m t (replacement ++ out) ≡ true)
      (starts_with-split (c ∷ text) (x ∷ p) starts)
      (keeps_or_masks-append m (x ∷ p) replacement (drop (length p) text) out h
        (subst (λ n. keeps_or_masks m (drop n text) out ≡ true) (omega arith) k))

redaction_marker_not_empty : 1 ≤ length redaction_marker_text
unfolding codes
redaction_marker_not_empty = omega arith

found_keeps :
    (matcher : SecretMatcher) (c : ℕ) (text : Text) (found : Found) (rest : ℕ → Text)
    → Stands found (c ∷ text)
    → ((n : ℕ) → keeps_or_masks matcher.mask_character (drop n text) (rest n) ≡ true)
    → keeps_or_masks matcher.mask_character (c ∷ text) (elim found [
      | marker ↦ redaction_marker_text ++ rest (length redaction_marker_text - 1)
      | secret s ↦ mask_text matcher.mask_character s ++ rest (length s - 1)
      | plain ↦ c ∷ rest 0
    ])
      ≡ true
unfolding drop Stands
found_keeps matcher c text marker rest stands kept =
    keeps_or_masks-segment matcher.mask_character c text redaction_marker_text redaction_marker_text
      (rest (length redaction_marker_text - 1)) stands redaction_marker_not_empty
      (keeps_or_masks_refl matcher.mask_character redaction_marker_text)
      (kept (length redaction_marker_text - 1))
found_keeps matcher c text (secret s) rest (stands, long) kept =
    keeps_or_masks-segment matcher.mask_character c text s (mask_text matcher.mask_character s)
      (rest (length s - 1)) stands (omega arith) (keeps_or_masks-mask_text matcher.mask_character s)
      (kept (length s - 1))
found_keeps matcher c text plain rest stands kept =
    keeps_or_masks-cons matcher.mask_character c text (rest 0) (kept 0)

pub replace_secrets-keeps_or_masks :
    (matcher : SecretMatcher) (passed : ℕ) (text : Text)
    → All IsLong matcher.ordered
    → keeps_or_masks matcher.mask_character
        (drop passed text)
        (replace_secrets matcher (mask_text matcher.mask_character) passed text)
      ≡ true
unfolding replace_secrets drop keeps_or_masks
replace_secrets-keeps_or_masks matcher zero [] long = refl
replace_secrets-keeps_or_masks matcher (suc passed) [] long = refl
replace_secrets-keeps_or_masks matcher (suc passed) (c ∷ text) long =
    replace_secrets-keeps_or_masks matcher passed text long
replace_secrets-keeps_or_masks matcher zero (c ∷ text) long =
    found_keeps matcher c text (found_at matcher (c ∷ text))
      (λ n. replace_secrets matcher (mask_text matcher.mask_character) n text)
      (found_at-Stands matcher (c ∷ text) long)
      (λ n. replace_secrets-keeps_or_masks matcher n text long)
