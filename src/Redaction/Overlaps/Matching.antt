-- ===== src/Redaction/Overlaps/Matching.antt =====
-- What `longest_suffix_matching_prefix` of src/util.rs finds, against its description.
use nowledge.Prelude.{
  ℕ, zero, suc, ◌+◌, ◌-◌, ◌≤◌, ◌<◌, ◌≡◌, ◌≢◌, refl, sym, ap, ap₂, ◌∙◌, inl, inr, List, [], ◌∷◌,
  ◌++◌, arith, ◌==◌, length, Bool-cases, subst,
}
use nowledge.Redaction.Texts.{Text, take, drop}
use nowledge.Redaction.Lists.{length-append, length-take, take-append-drop}
use nowledge.Redaction.Overlaps.{
  at, advance, prefix_table, match_character, match_from, longest_suffix_matching_prefix,
}
use nowledge.Redaction.Overlaps.Borders.{
  Matches, Longest, Matches-narrow, Matches-widen, Matches-none,
}
use nowledge.Redaction.Overlaps.Falls.{IsTable, IsTable-last, IsTable-fewer, advance-Longest}
use nowledge.Redaction.Overlaps.Tables.{prefix_table-IsTable}

-- `text.ends_with(part)`.
pub EndsWith : Text → Text → Type 0
EndsWith text part = (before : Text) × (text ≡ before ++ part)

below_other : (a b : ℕ) → a < suc b → a ≢ b → a < b
below_other a b h differs = ground arith

module _ (pattern : Text) (table : List ℕ) (t : ℕ → ℕ)
    (ok : IsTable pattern table (length pattern)) where
  -- A whole pattern at the end falls back to its longest border.
  whole_falls :
      (n : ℕ)
      → 1 ≤ length pattern
      → Matches pattern t (length pattern) n
      → Longest pattern t (length pattern) n (at table (length pattern - 1))
  whole_falls n positive whole =
      let last = IsTable-last pattern table t (length pattern) positive ok in
      (
        Matches-widen pattern t (at table (length pattern - 1)) (length pattern) n last.0 whole,
        last.1,
        λ j below matches.
            last.2 j below
              (Matches-narrow pattern t j (length pattern) n (omega arith) matches whole),
      )

  match_character-Longest :
      (n matched : ℕ)
      → Longest pattern t (length pattern) n matched
      → Longest pattern t (length pattern) (suc n) (match_character pattern table matched (t n))
  unfolding match_character
  match_character-Longest n matched h =
      let grown = advance pattern table (t n) matched in
      let longest =
        advance-Longest pattern table t (length pattern) n matched
          (IsTable-fewer pattern table t (length pattern) matched (omega (arith, h.1)) ok) h in
      elim (Bool-cases (grown == length pattern)) [
        | inl whole ↦
            let equal : grown ≡ length pattern = ground arith in
            rw whole (
              subst (λ k. Longest pattern t (length pattern) (suc n) (at table (k - 1))) (sym equal)
                (whole_falls (suc n) (omega (arith, h.1))
                  (subst (λ k. Matches pattern t k (suc n)) equal longest.0)))
        | inr other ↦
            let differs : grown ≢ length pattern = ground arith in
            rw other (
              longest.0,
              below_other grown (length pattern) longest.1 differs,
              λ j below matches. longest.2 j (omega arith) matches,
            )
      ]

  match_from-Longest :
      (n matched : ℕ) (rest : Text)
      → Longest pattern t (length pattern) n matched
      → ((i : ℕ) → i < length rest → at rest i ≡ t (n + i))
      → Longest pattern t (length pattern) (n + length rest) (match_from pattern table matched rest)
  unfolding match_from at
  match_from-Longest n matched [] h places =
      subst (λ k. Longest pattern t (length pattern) k matched) (omega arith) h
  match_from-Longest n matched (c ∷ rest) h places =
      let here : t n ≡ c = ap t (omega arith) ∙ sym (places 0 (omega arith)) in
      let step =
        subst
          (λ d.
            Longest pattern t (length pattern) (suc n) (match_character pattern table matched d))
          here (match_character-Longest n matched h) in
      subst
        (λ k.
          Longest pattern t (length pattern) k
            (match_from pattern table (match_character pattern table matched c) rest))
        (omega arith)
        (match_from-Longest (suc n) (match_character pattern table matched c) rest step
          (λ i below. places (suc i) (omega arith) ∙ ap t (omega arith)))

at-append : (b x : Text) (i : ℕ) → at (b ++ x) (length b + i) ≡ at x i
unfolding at
at-append [] x i = ap (at x) (omega arith)
at-append (c ∷ b) x i =
    let shifted : suc (length b) + i ≡ suc (length b + i) = omega arith in
    ap (at (c ∷ (b ++ x))) shifted ∙ at-append b x i

at-take : (k i : ℕ) (p : Text) → i < k → at (take k p) i ≡ at p i
unfolding at take
at-take zero i p h = absurd (omega arith)
at-take (suc k) i [] h = refl
at-take (suc k) zero (c ∷ p) h = refl
at-take (suc k) (suc i) (c ∷ p) h = at-take k i p (omega arith)

at-drop : (k i : ℕ) (xs : Text) → at (drop k xs) i ≡ at xs (k + i)
unfolding at drop
at-drop zero i xs = ap (at xs) (omega arith)
at-drop (suc k) i [] = refl
at-drop (suc k) i (x ∷ xs) =
    let shifted : suc (k + i) ≡ suc k + i = omega arith in at-drop k i xs ∙ ap (at (x ∷ xs)) shifted

same_places :
    (xs ys : Text) → length xs ≡ length ys → ((i : ℕ) → i < length xs → at xs i ≡ at ys i) → xs ≡ ys
unfolding at
same_places [] [] size same = refl
same_places [] (y ∷ ys) size same = absurd (omega arith)
same_places (x ∷ xs) [] size same = absurd (omega arith)
same_places (x ∷ xs) (y ∷ ys) size same =
    ap₂ (λ a b. a ∷ b) (same 0 (omega arith))
      (same_places xs ys (omega arith) (λ i below. same (suc i) (omega arith)))

EndsWith-Matches :
    (pattern text : Text) (j : ℕ)
    → j ≤ length pattern
    → EndsWith text (take j pattern)
    → Matches pattern (at text) j (length text)
unfolding EndsWith
EndsWith-Matches pattern text j le (before, split) =
    let size : length text ≡ length before + j =
      ap length split
      ∙ omega (arith, length-append before (take j pattern), length-take j pattern) in
    (
      omega arith,
      λ i below.
          sym (at-take j i pattern below)
          ∙ sym (at-append before (take j pattern) i)
          ∙ ap (λ xs. at xs (length before + i)) (sym split)
          ∙ ap (at text) (omega arith),
    )

Matches-EndsWith :
    (pattern text : Text) (j : ℕ)
    → j ≤ length pattern
    → Matches pattern (at text) j (length text)
    → EndsWith text (take j pattern)
unfolding EndsWith
Matches-EndsWith pattern text j le matches =
    let k = length text - j in
    let size : length (drop k text) ≡ j = omega (
      arith,
      ap length (take-append-drop k text),
      length-append (take k text) (drop k text),
      length-take k text,
      matches.0,
    ) in
    let end : drop k text ≡ take j pattern =
      same_places (drop k text) (take j pattern) (omega (arith, length-take j pattern)) (λ i below.
        at-drop k i text
        ∙ sym (matches.1 i (omega arith))
        ∙ sym (at-take j i pattern (omega arith))) in
    (take k text, sym (take-append-drop k text) ∙ ap (λ e. take k text ++ e) end)

-- The matching by prefix tables finds what it is for: the longest beginning of a pattern, short of the
-- whole pattern, that the text ends with.
pub longest_suffix_matching_prefix_lem :
    (pattern text : Text)
    → 1 ≤ length pattern
    → let r = longest_suffix_matching_prefix pattern (prefix_table pattern) text in
      (r < length pattern)
      × EndsWith text (take r pattern)
      × ((j : ℕ) → j < length pattern → EndsWith text (take j pattern) → j ≤ r)
unfolding longest_suffix_matching_prefix
longest_suffix_matching_prefix_lem [] text h = absurd (omega arith)
longest_suffix_matching_prefix_lem (c ∷ cs) text h =
    let pattern = c ∷ cs in
    let table = prefix_table pattern in
    let start : Longest pattern (at text) (length pattern) 0 0 =
      (Matches-none pattern (at text) 0, omega arith, λ j below matches. matches.0) in
    let found =
      match_from-Longest pattern table (at text) (prefix_table-IsTable pattern) 0 0 text start
        (λ i below. ap (at text) (omega arith)) in
    let whole =
      subst (λ n. Longest pattern (at text) (length pattern) n (match_from pattern table 0 text))
        (omega arith) found in
    (
      whole.1,
      Matches-EndsWith pattern text (match_from pattern table 0 text) (omega (arith, whole.1))
          whole.0,
      λ j below ends. whole.2 j below (EndsWith-Matches pattern text j (omega arith) ends),
    )
