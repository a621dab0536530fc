-- ===== src/Redaction/Overlaps.antt =====
-- `prefix_table` and `longest_suffix_matching_prefix` of src/util.rs, the matching by prefix tables.
pub mod Borders
pub mod Falls
pub mod Tables
pub mod Matching
use nowledge.Prelude.{
  ℕ, zero, suc, ◌-◌, ◌&&◌, not, List, [], ◌∷◌, ◌++◌, ltb, ◌==◌, if◌then◌else◌, length,
}
use nowledge.Redaction.Texts.{Text}

-- `xs[i]`; the loops stay within the vectors.
unfoldable pub at : List ℕ → ℕ → ℕ
at [] i = 0
at (x ∷ xs) zero = x
at (x ∷ xs) (suc i) = at xs i

-- `while matched > 0 && pattern[matched] != character { matched = table[matched - 1] }`. Each round
-- makes `matched` smaller, so `suc matched` rounds are enough.
unfoldable pub fall_back : Text → List ℕ → ℕ → (fuel matched : ℕ) → ℕ
unfolding at
fall_back pattern table character zero matched = matched
fall_back pattern table character (suc fuel) matched =
    let shorter = fall_back pattern table character fuel (at table (matched - 1)) in
    if ltb 0 matched && not (at pattern matched == character) then shorter else matched

-- The body of both loops, up to the increment.
unfoldable pub advance : Text → List ℕ → ℕ → ℕ → ℕ
unfolding fall_back at
advance pattern table character matched =
    let fallen = fall_back pattern table character (suc matched) matched in
    if at pattern fallen == character then suc fallen else fallen

-- `for index in 1..pattern.len()`, with so many rounds left; the table is filled in its order.
unfoldable pub fill_table : Text → (rounds index : ℕ) → List ℕ → List ℕ
unfolding advance at
fill_table pattern zero index table = table
fill_table pattern (suc rounds) index table =
    fill_table pattern rounds (suc index)
      (table ++ advance pattern table (at pattern index) (at table (index - 1)) ∷ [])

-- `vec![0; len]`, of which the part from `index` on is not read before it is written.
unfoldable pub prefix_table : Text → List ℕ
unfolding fill_table
prefix_table [] = []
prefix_table (c ∷ pattern) = fill_table (c ∷ pattern) (length pattern) 1 (0 ∷ [])

unfoldable pub match_character : Text → List ℕ → ℕ → ℕ → ℕ
unfolding advance at
match_character pattern table matched character =
    let grown = advance pattern table character matched in
    if grown == length pattern then at table (grown - 1) else grown

unfoldable pub match_from : Text → List ℕ → ℕ → Text → ℕ
unfolding match_character
match_from pattern table matched [] = matched
match_from pattern table matched (c ∷ text) =
    match_from pattern table (match_character pattern table matched c) text

unfoldable pub longest_suffix_matching_prefix : Text → List ℕ → Text → ℕ
unfolding match_from
longest_suffix_matching_prefix [] table text = 0
longest_suffix_matching_prefix (c ∷ pattern) table text = match_from (c ∷ pattern) table 0 text
