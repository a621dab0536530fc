-- ===== src/Redaction/Overlaps/Tables.antt =====
-- What `prefix_table` of src/util.rs holds.
use nowledge.Prelude.{
  ℕ, zero, suc, ◌+◌, ◌-◌, ◌≤◌, ◌<◌, ◌≡◌, refl, sym, ◌⊎◌, inl, inr, List, [], ◌∷◌, ◌++◌, arith,
  length, subst,
}
use nowledge.Redaction.Texts.{Text}
use nowledge.Redaction.Lists.{length-append}
use nowledge.Redaction.Overlaps.{at, fall_back, advance, fill_table, prefix_table}
use nowledge.Redaction.Overlaps.Borders.{Longest, Matches-none}
use nowledge.Redaction.Overlaps.Falls.{
  IsTable, IsTable-last, IsTable-fewer, at_or_below, fall_back_enough, fall_back_stops,
  advance-Longest,
}

at-snoc : (xs : List ℕ) (x i : ℕ) → i < length xs → at (xs ++ x ∷ []) i ≡ at xs i
unfolding at
at-snoc [] x i h = absurd (omega arith)
at-snoc (y ∷ xs) x zero h = refl
at-snoc (y ∷ xs) x (suc i) h = at-snoc xs x i (omega arith)

at-snoc_last : (xs : List ℕ) (x : ℕ) → at (xs ++ x ∷ []) (length xs) ≡ x
unfolding at
at-snoc_last [] x = refl
at-snoc_last (y ∷ xs) x = at-snoc_last xs x

IsTable-snoc :
    (pattern : Text) (table : List ℕ) (x : ℕ)
    → IsTable pattern table (length table)
    → Longest pattern (at pattern) (suc (length table)) (suc (length table)) x
    → IsTable pattern (table ++ x ∷ []) (suc (length table))
IsTable-snoc pattern table x ok last i below = elim (at_or_below i (length table) (omega arith)) [
  | inl before ↦
      subst (λ r. Longest pattern (at pattern) (suc i) (suc i) r) (sym (at-snoc table x i before))
        (ok i before)
  | inr here ↦
      subst (λ k. Longest pattern (at pattern) (suc k) (suc k) (at (table ++ x ∷ []) k)) (sym here)
        (subst (λ r. Longest pattern (at pattern) (suc (length table)) (suc (length table)) r)
          (sym (at-snoc_last table x)) last)
]

one_entry : (pattern : Text) → IsTable pattern (0 ∷ []) 1
unfolding at
one_entry pattern zero below =
    (Matches-none pattern (at pattern) 1, omega arith, λ j less matches. omega arith)
one_entry pattern (suc i) below = absurd (omega arith)

fill_table-IsTable :
    (pattern : Text) (rounds : ℕ) (table : List ℕ)
    → 1 ≤ length table
    → IsTable pattern table (length table)
    → IsTable pattern (fill_table pattern rounds (length table) table) (length table + rounds)
unfolding fill_table
fill_table-IsTable pattern zero table h ok = subst (λ m. IsTable pattern table m) (omega arith) ok
fill_table-IsTable pattern (suc rounds) table h ok =
    let index = length table in
    let last = IsTable-last pattern table (at pattern) index h ok in
    let x = advance pattern table (at pattern index) (at table (index - 1)) in
    let grown = IsTable-snoc pattern table x ok (
      advance-Longest pattern table (at pattern) index index (at table (index - 1))
        (IsTable-fewer pattern table (at pattern) index (at table (index - 1))
          (omega (arith, last.1)) ok)
        last) in
    let size : length (table ++ x ∷ []) ≡ suc index = omega (arith, length-append table (x ∷ [])) in
    let rest =
      fill_table-IsTable pattern rounds (table ++ x ∷ []) (omega (arith, size))
        (subst (λ m. IsTable pattern (table ++ x ∷ []) m) (sym size) grown) in
    subst
      (λ m. IsTable pattern (fill_table pattern rounds m (table ++ x ∷ [])) (index + suc rounds))
      size
      (subst
        (λ m.
          IsTable pattern (fill_table pattern rounds (length (table ++ x ∷ [])) (table ++ x ∷ []))
            m)
        (omega (arith, size)) rest)

pub prefix_table-IsTable :
    (pattern : Text) → IsTable pattern (prefix_table pattern) (length pattern)
unfolding prefix_table
prefix_table-IsTable [] = λ i below. absurd (omega arith)
prefix_table-IsTable (c ∷ pattern) =
    subst (λ m. IsTable (c ∷ pattern) (fill_table (c ∷ pattern) (length pattern) 1 (0 ∷ [])) m)
      (omega arith)
      (fill_table-IsTable (c ∷ pattern) (length pattern) (0 ∷ []) (omega arith)
        (one_entry (c ∷ pattern)))

-- The inner loops of the matching end: from every place in the pattern, `suc matched` rounds reach a
-- state in which the loop's condition fails, and any greater number of rounds gives the same.
pub fall_back_settles :
    (pattern : Text) (character matched : ℕ)
    → matched < length pattern
    → let run = λ (fuel : ℕ). fall_back pattern (prefix_table pattern) character fuel matched in
      ((run (suc matched) ≡ 0) ⊎ (at pattern (run (suc matched)) ≡ character))
      × ((fuel : ℕ) → matched < fuel → run fuel ≡ run (suc matched))
fall_back_settles pattern character matched below =
    let table = prefix_table pattern in
    let ok =
      IsTable-fewer pattern table (λ n. character) (length pattern) matched (omega arith)
        (prefix_table-IsTable pattern) in
    (
      fall_back_stops pattern table (λ n. character) 0 (suc matched) matched (omega arith) ok,
      λ fuel enough.
          fall_back_enough pattern table (λ n. character) 0 fuel (suc matched) matched enough
            (omega arith) ok,
    )
