-- ===== src/Redaction/Shaped.antt =====
-- `mask_credential_shaped_value` of src/util.rs, character by character.
use nowledge.Prelude.{
  ℕ, zero, suc, ◌+◌, ◌-◌, ◌≤◌, Bool, true, false, not, ◌≡◌, refl, sym, ap, ◌∙◌, inl, inr, Option,
  some, [], ◌∷◌, ◌++◌, arith, leb, if◌then◌else◌, length, Bool-cases, subst,
}
use nowledge.Redaction.Texts.{Text, take, drop, starts_with}
use nowledge.Redaction.Lists.{take-append-drop, length-take, length-append}
use nowledge.Redaction.Secrets.{replicate}
use nowledge.Redaction.Exact.{replace_shaped, value_length, allows_left, last_or}
use nowledge.Redaction.Keeps.{keeps_or_masks, keeps_or_masks-append, keeps_or_masks-replicate}
use nowledge.Redaction.Kept.{starts_with-split, keeps_or_masks-cons}

-- The characters that stand for what `replace_shaped` writes.
pub left_out : (kept cut : ℕ) → Text → Text
left_out kept cut [] = []
left_out (suc kept) cut (c ∷ text) = c ∷ left_out kept cut text
left_out zero (suc cut) (c ∷ text) = left_out zero cut text
left_out zero zero (c ∷ text) = c ∷ left_out zero zero text

pub left_out_none : (kept : ℕ) (text : Text) → left_out kept 0 text ≡ text
unfolding left_out
left_out_none kept [] = refl
left_out_none zero (c ∷ text) = ap (λ t. c ∷ t) (left_out_none zero text)
left_out_none (suc kept) (c ∷ text) = ap (λ t. c ∷ t) (left_out_none kept text)

left_out-drop : (cut : ℕ) (text : Text) → left_out 0 cut text ≡ drop cut text
unfolding left_out drop
left_out-drop zero text = left_out_none zero text
left_out-drop (suc cut) [] = refl
left_out-drop (suc cut) (c ∷ text) = left_out-drop cut text

value_length-le : (text : Text) → value_length text ≤ length text
unfolding value_length
value_length-le [] = omega arith
value_length-le (c ∷ text) = ground (arith, value_length-le text)

shaped_size :
    (text p : Text)
    → starts_with text p ≡ true
    → length p + value_length (drop (length p) text) ≤ length text
shaped_size text p starts = omega (
  arith,
  value_length-le (drop (length p) text),
  length-append p (drop (length p) text),
  ap length (starts_with-split text p starts),
)

-- So many characters at the beginning are masked, and the rest is kept or masked.
keeps_or_masks_masked :
    (m c size : ℕ) (text out : Text)
    → 1 ≤ size
    → size ≤ length (c ∷ text)
    → keeps_or_masks m (drop (size - 1) text) out ≡ true
    → keeps_or_masks m (c ∷ text) (replicate size m ++ out) ≡ true
unfolding drop
keeps_or_masks_masked m c zero text out positive fits h = absurd (omega arith)
keeps_or_masks_masked m c (suc n) text out positive fits h =
    let size : length (take (suc n) (c ∷ text)) ≡ suc n =
      omega (arith, length-take (suc n) (c ∷ text)) in
    let masked =
      subst (λ k. keeps_or_masks m (take (suc n) (c ∷ text)) (replicate k m) ≡ true) size
        (keeps_or_masks-replicate m (take (suc n) (c ∷ text))) in
    subst (λ t. keeps_or_masks m t (replicate (suc n) m ++ out) ≡ true)
      (take-append-drop (suc n) (c ∷ text))
      (keeps_or_masks-append m (take (suc n) (c ∷ text)) (replicate (suc n) m) (drop n text) out
        masked (subst (λ k. keeps_or_masks m (drop k text) out ≡ true) (omega arith) h))

both_branches : (P : Text → Type 0) (b : Bool) (x y : Text) → P x → P y → P (if b then x else y)
both_branches P true x y h k = h
both_branches P false x y h k = k

pub replace_shaped-keeps_or_masks :
    (m : ℕ) (prefix : Text) (minimum_chars : ℕ) (before : Option ℕ) (kept cut : ℕ) (text : Text)
    → 1 ≤ length prefix
    → keeps_or_masks m
        (left_out kept cut text)
        (replace_shaped prefix minimum_chars (λ n. replicate n m) before kept cut text)
      ≡ true
unfolding replace_shaped left_out keeps_or_masks
replace_shaped-keeps_or_masks m prefix least before kept cut [] h = refl
replace_shaped-keeps_or_masks m prefix least before (suc kept) cut (c ∷ text) h =
    keeps_or_masks-cons m c (left_out kept cut text)
      (replace_shaped prefix least (λ n. replicate n m) (some c) kept cut text)
      (replace_shaped-keeps_or_masks m prefix least (some c) kept cut text h)
replace_shaped-keeps_or_masks m prefix least before zero (suc cut) (c ∷ text) h =
    replace_shaped-keeps_or_masks m prefix least before zero cut text h
replace_shaped-keeps_or_masks m prefix least before zero zero (c ∷ text) h =
    let out : Option ℕ → ℕ → ℕ → Text → Text = replace_shaped prefix least (λ n. replicate n m) in
    let size = length prefix + value_length (drop (length prefix) (c ∷ text)) in
    let P : Text → Type 0 = λ t. keeps_or_masks m (c ∷ left_out 0 0 text) t ≡ true in
    let copied =
      keeps_or_masks-cons m c (left_out 0 0 text) (out (some c) 0 0 text)
        (replace_shaped-keeps_or_masks m prefix least (some c) 0 0 text h) in
    let skipped =
      keeps_or_masks-cons m c (left_out 0 0 text) (out (some c) (length prefix - 1) 0 text) (
        subst (λ t. keeps_or_masks m t (out (some c) (length prefix - 1) 0 text) ≡ true)
          (left_out_none (length prefix - 1) text ∙ sym (left_out_none 0 text))
          (replace_shaped-keeps_or_masks m prefix least (some c) (length prefix - 1) 0 text h)) in
    elim (Bool-cases (starts_with (c ∷ text) prefix)) [
      | inl starts ↦ rw starts (
          both_branches P (not (allows_left before)) (c ∷ out (some c) (length prefix - 1) 0 text) _
            skipped
            (both_branches P (leb least size)
              (replicate size m ++ out (last_or before (replicate size m)) 0 (size - 1) text)
              (c ∷ out (some c) (length prefix - 1) 0 text)
              (rw (left_out_none 0 text) (
                keeps_or_masks_masked m c size text
                  (out (last_or before (replicate size m)) 0 (size - 1) text) (omega arith)
                  (shaped_size (c ∷ text) prefix starts)
                  (subst
                    (λ t.
                      keeps_or_masks m t (out (last_or before (replicate size m)) 0 (size - 1) text)
                      ≡ true)
                    (left_out-drop (size - 1) text)
                    (replace_shaped-keeps_or_masks m prefix least
                      (last_or before (replicate size m)) 0 (size - 1) text h))))
              skipped))
      | inr other ↦ rw other copied
    ]
