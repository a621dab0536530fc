-- ===== src/Redaction/Overlaps/Borders.antt =====
-- Prefixes of a pattern that stand at the end of a text, place by place.
use nowledge.Prelude.{ℕ, suc, ◌+◌, ◌-◌, ◌≤◌, ◌<◌, ◌≡◌, sym, ap, ◌∙◌, ◌⊎◌, inl, inr, arith}
use nowledge.Redaction.Texts.{Text}
use nowledge.Redaction.Overlaps.{at}

-- The first `j` characters of the pattern are the last `j` of the first `n` ones of the text, which is
-- given by its places.
abbrev pub Matches : Text → (ℕ → ℕ) → (j n : ℕ) → Type 0
Matches pattern t j n = (j ≤ n) × ((i : ℕ) → i < j → at pattern i ≡ t (n - j + i))

-- The longest such prefix that is shorter than `bound`.
abbrev pub Longest : Text → (ℕ → ℕ) → (bound n r : ℕ) → Type 0
Longest pattern t bound n r =
    Matches pattern t r n × (r < bound) × ((j : ℕ) → j < bound → Matches pattern t j n → j ≤ r)

below_suc : (i j : ℕ) → i < suc j → (i < j) ⊎ (i ≡ j)
below_suc i j h = ground arith

module _ (pattern : Text) (t : ℕ → ℕ) where
  -- Of two prefixes at the end of a text, the shorter stands at the end of the longer.
  pub Matches-narrow :
      (j m n : ℕ)
      → j ≤ m
      → Matches pattern t j n
      → Matches pattern t m n
      → Matches pattern (at pattern) j m
  Matches-narrow j m n le short long = (
    le,
    λ i below.
        short.1 i below ∙ ap t (omega (arith, long.0)) ∙ sym (long.1 (m - j + i) (omega arith)),
  )

  pub Matches-widen :
      (j m n : ℕ) → Matches pattern (at pattern) j m → Matches pattern t m n → Matches pattern t j n
  Matches-widen j m n short long = (
    omega (arith, short.0, long.0),
    λ i below.
        short.1 i below
        ∙ long.1 (m - j + i) (omega (arith, short.0))
        ∙ ap t (omega (arith, short.0, long.0)),
  )

  pub Matches-extend :
      (j n : ℕ) → Matches pattern t j n → at pattern j ≡ t n → Matches pattern t (suc j) (suc n)
  Matches-extend j n h same = (
    omega (arith, h.0),
    λ i below. elim (below_suc i j below) [
      | inl before ↦ h.1 i before ∙ ap t (omega (arith, h.0))
      | inr last ↦ ap (at pattern) last ∙ same ∙ ap t (omega (arith, h.0))
    ],
  )

  pub Matches-shorten :
      (j n : ℕ) → Matches pattern t (suc j) (suc n) → Matches pattern t j n × (at pattern j ≡ t n)
  Matches-shorten j n h = (
    (omega (arith, h.0), λ i below. h.1 i (omega arith) ∙ ap t (omega (arith, h.0))),
    h.1 j (omega arith) ∙ ap t (omega (arith, h.0)),
  )

  pub Matches-none : (n : ℕ) → Matches pattern t 0 n
  Matches-none n = (omega arith, λ i below. absurd (omega arith))
