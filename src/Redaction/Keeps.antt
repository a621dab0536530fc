-- ===== src/Redaction/Keeps.antt =====
-- A text against one in which some characters are masked.
use nowledge.Prelude.{
  ℕ, Bool, true, false, ◌&&◌, ◌||◌, ◌≡◌, refl, [], ◌∷◌, ◌++◌, arith, ◌==◌, length,
}
use nowledge.Redaction.Texts.{Text, reverse_onto}
use nowledge.Redaction.Secrets.{replicate}

-- Character by character, the text itself or the mask.
unfoldable pub keeps_or_masks : ℕ → Text → Text → Bool
keeps_or_masks m [] [] = true
keeps_or_masks m (c ∷ cs) (o ∷ os) = (o == m || o == c) && keeps_or_masks m cs os
keeps_or_masks m _ _ = false

pub keeps_or_masks-reverse :
    (m : ℕ) (cs os ds us : Text)
    → keeps_or_masks m cs os ≡ true
    → keeps_or_masks m ds us ≡ true
    → keeps_or_masks m (reverse_onto cs ds) (reverse_onto os us) ≡ true
unfolding keeps_or_masks reverse_onto
keeps_or_masks-reverse m [] [] ds us h k = k
keeps_or_masks-reverse m [] (o ∷ os) ds us h k = absurd (cc)
keeps_or_masks-reverse m (c ∷ cs) [] ds us h k = absurd (cc)
keeps_or_masks-reverse m (c ∷ cs) (o ∷ os) ds us h k =
    keeps_or_masks-reverse m cs os (c ∷ ds) (o ∷ us) (ground arith) (ground arith)

pub keeps_or_masks_refl : (m : ℕ) (a : Text) → keeps_or_masks m a a ≡ true
unfolding keeps_or_masks
keeps_or_masks_refl m [] = refl
keeps_or_masks_refl m (c ∷ a) = ground (arith, keeps_or_masks_refl m a)

pub keeps_or_masks-append :
    (m : ℕ) (a b c d : Text)
    → keeps_or_masks m a b ≡ true
    → keeps_or_masks m c d ≡ true
    → keeps_or_masks m (a ++ c) (b ++ d) ≡ true
unfolding keeps_or_masks
keeps_or_masks-append m [] [] c d h k = k
keeps_or_masks-append m [] (y ∷ b) c d h k = absurd (cc)
keeps_or_masks-append m (x ∷ a) [] c d h k = absurd (cc)
keeps_or_masks-append m (x ∷ a) (y ∷ b) c d h k = ground (arith, keeps_or_masks-append m a b c d)

pub keeps_or_masks_trans :
    (m : ℕ) (a b c : Text)
    → keeps_or_masks m a b ≡ true
    → keeps_or_masks m b c ≡ true
    → keeps_or_masks m a c ≡ true
unfolding keeps_or_masks
keeps_or_masks_trans m [] [] [] h k = refl
keeps_or_masks_trans m [] [] (z ∷ c) h k = absurd (cc)
keeps_or_masks_trans m [] (y ∷ b) c h k = absurd (cc)
keeps_or_masks_trans m (x ∷ a) [] c h k = absurd (cc)
keeps_or_masks_trans m (x ∷ a) (y ∷ b) [] h k = absurd (cc)
keeps_or_masks_trans m (x ∷ a) (y ∷ b) (z ∷ c) h k = ground (arith, keeps_or_masks_trans m a b c)

pub keeps_or_masks-replicate :
    (m : ℕ) (a : Text) → keeps_or_masks m a (replicate (length a) m) ≡ true
unfolding keeps_or_masks replicate
keeps_or_masks-replicate m [] = refl
keeps_or_masks-replicate m (c ∷ a) = ground (arith, keeps_or_masks-replicate m a)
