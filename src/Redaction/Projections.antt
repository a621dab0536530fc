-- ===== src/Redaction/Projections.antt =====
-- The masking projections of src/util.rs, from the text to what is shown of it.
use nowledge.Prelude.{
  ℕ, suc, ◌≤◌, Bool, true, false, ◌≡◌, refl, inl, inr, none, List, [], ◌∷◌, arith, if◌then◌else◌,
  length, Bool-cases, All, subst,
}
use nowledge.Redaction.Texts.{Text, drop, member, credential_shapes, codes}
use nowledge.Redaction.Secrets.{SecretMatcher, new_matcher, replicate}
use nowledge.Redaction.Exact.{
  replace_secrets, replace_shaped, replace_shapes, mask_text, mask_exact,
}
use nowledge.Redaction.Masks.{
  mask_where, mask_flagged, mask_boundaries, mask_if_whole_secret_substring,
  mask_secret_substring_windows, redaction_marker_spans, mask_fragments, mask_egress_projection,
  mask_fragment_projection,
}
use nowledge.Redaction.Clean.{IsLong, ordered_known_secrets-IsLong}
use nowledge.Redaction.Keeps.{keeps_or_masks, keeps_or_masks_refl, keeps_or_masks_trans}
use nowledge.Redaction.Kept.{keeps_or_masks-mask_text, replace_secrets-keeps_or_masks}
use nowledge.Redaction.Shaped.{replace_shaped-keeps_or_masks, left_out_none}

replace_shapes-keeps_or_masks :
    (m : ℕ) (shapes : List (Text × ℕ)) (text : Text)
    → All (λ shape. 1 ≤ length shape.0) shapes
    → keeps_or_masks m text (replace_shapes (λ n. replicate n m) shapes text) ≡ true
unfolding replace_shapes
replace_shapes-keeps_or_masks m [] text h = keeps_or_masks_refl m text
replace_shapes-keeps_or_masks m ((prefix, least) ∷ shapes) text (h, rest) =
    let out = replace_shaped prefix least (λ n. replicate n m) none 0 0 text in
    keeps_or_masks_trans m text out (replace_shapes (λ n. replicate n m) shapes out)
      (subst (λ t. keeps_or_masks m t out ≡ true) (left_out_none 0 text)
        (replace_shaped-keeps_or_masks m prefix least none 0 0 text h))
      (replace_shapes-keeps_or_masks m shapes out rest)

credential_shapes_start : All (λ shape. 1 ≤ length shape.0) credential_shapes
unfolding codes
credential_shapes_start =
    (omega arith, (omega arith, (omega arith, (omega arith, (omega arith, tt)))))

module _ (matcher : SecretMatcher) (long : All IsLong matcher.ordered) where
  mask_exact-keeps_or_masks :
      (input : Text) → keeps_or_masks matcher.mask_character input (mask_exact matcher input) ≡ true
  unfolding mask_exact drop
  mask_exact-keeps_or_masks input =
      let exact = replace_secrets matcher (mask_text matcher.mask_character) 0 input in
      elim (Bool-cases (member matcher.short_exact input)) [
        | inl short ↦ rw short (keeps_or_masks-mask_text matcher.mask_character input)
        | inr other ↦ rw other (
            keeps_or_masks_trans matcher.mask_character input exact _
              (replace_secrets-keeps_or_masks matcher 0 input long)
              (replace_shapes-keeps_or_masks matcher.mask_character credential_shapes exact
                credential_shapes_start))
      ]

mask_where-keeps_or_masks :
    (m : ℕ) (chosen : ℕ → Bool) (index : ℕ) (protected : List Bool) (text : Text)
    → keeps_or_masks m text (mask_where m chosen index protected text) ≡ true
unfolding mask_where keeps_or_masks
mask_where-keeps_or_masks m chosen index protected [] = refl
mask_where-keeps_or_masks m chosen index [] (c ∷ text) =
    ground (arith, mask_where-keeps_or_masks m chosen (suc index) [] text)
mask_where-keeps_or_masks m chosen index (p ∷ protected) (c ∷ text) =
    ground (arith, mask_where-keeps_or_masks m chosen (suc index) protected text)

mask_flagged-keeps_or_masks :
    (m : ℕ) (flags : List Bool) (text : Text)
    → keeps_or_masks m text (mask_flagged m flags text) ≡ true
unfolding mask_flagged keeps_or_masks
mask_flagged-keeps_or_masks m flags [] = refl
mask_flagged-keeps_or_masks m [] (c ∷ text) = keeps_or_masks_refl m (c ∷ text)
mask_flagged-keeps_or_masks m (flag ∷ flags) (c ∷ text) =
    ground (arith, mask_flagged-keeps_or_masks m flags text)

one_branch :
    (m : ℕ) (text masked : Text) (b : Bool)
    → keeps_or_masks m text masked ≡ true
    → keeps_or_masks m text (if b then text else masked) ≡ true
one_branch m text masked true h = keeps_or_masks_refl m text
one_branch m text masked false h = h

pub mask_secret_substring_windows-keeps_or_masks :
    (matcher : SecretMatcher) (text : Text)
    → keeps_or_masks matcher.mask_character text (mask_secret_substring_windows matcher text) ≡ true
unfolding mask_secret_substring_windows
mask_secret_substring_windows-keeps_or_masks matcher text =
    one_branch matcher.mask_character text _ _
      (mask_flagged-keeps_or_masks matcher.mask_character _ text)

pub mask_fragments-keeps_or_masks :
    (matcher : SecretMatcher) (least : ℕ) (text : Text)
    → keeps_or_masks matcher.mask_character text (mask_fragments matcher least text) ≡ true
unfolding mask_fragments mask_boundaries mask_if_whole_secret_substring
mask_fragments-keeps_or_masks matcher least text =
    let m = matcher.mask_character in
    let bounded = mask_boundaries matcher text least in
    let whole = mask_if_whole_secret_substring matcher bounded least in
    keeps_or_masks_trans m text bounded (mask_secret_substring_windows matcher whole)
      (mask_where-keeps_or_masks m _ 0 _ text)
      (keeps_or_masks_trans m bounded whole (mask_secret_substring_windows matcher whole)
        (one_branch m bounded _ _ (
          mask_where-keeps_or_masks m (λ index. true) 0
            (redaction_marker_spans bounded matcher.protect_redaction_marker) bounded))
        (mask_secret_substring_windows-keeps_or_masks matcher whole))

-- The masking projections of a text, which retrieval and egress use, have one character for each of
-- the text, in order: the character itself or the mask. So offsets into the text stay valid.
pub projections-keep_or_mask :
    (mask_character : ℕ) (secrets : List Text) (input : Text)
    → let matcher = new_matcher mask_character secrets in
      let keeps = keeps_or_masks mask_character input in
      (keeps (mask_exact matcher input) ≡ true)
      × (keeps (mask_egress_projection matcher input) ≡ true)
      × (keeps (mask_fragment_projection matcher input) ≡ true)
unfolding mask_egress_projection mask_fragment_projection new_matcher
projections-keep_or_mask m secrets input =
    let matcher = new_matcher m secrets in
    let exact = mask_exact-keeps_or_masks matcher (ordered_known_secrets-IsLong secrets) input in
    (
      exact,
      keeps_or_masks_trans m input (mask_exact matcher input) _ exact
          (mask_fragments-keeps_or_masks matcher 8 (mask_exact matcher input)),
      keeps_or_masks_trans m input (mask_exact matcher input) _ exact
          (mask_fragments-keeps_or_masks matcher 4 (mask_exact matcher input)),
    )
