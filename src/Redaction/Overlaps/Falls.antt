-- ===== src/Redaction/Overlaps/Falls.antt =====
-- Where the inner loop of `prefix_table` and of the matching of src/util.rs ends.
use nowledge.Prelude.{
  ℕ, zero, suc, ◌-◌, ◌≤◌, ◌<◌, true, false, ◌&&◌, not, ◌≡◌, ◌≢◌, refl, sym, ap, ◌∙◌, ◌⊎◌, inl, inr,
  List, arith, ltb, ◌==◌, Bool-cases, subst,
}
use nowledge.Redaction.Texts.{Text}
use nowledge.Redaction.Overlaps.{at, fall_back, advance}
use nowledge.Redaction.Overlaps.Borders.{
  Matches, Longest, Matches-narrow, Matches-widen, Matches-extend, Matches-shorten, Matches-none,
}

-- The first `m` entries: at each place the longest prefix at the end of the pattern up to there.
abbrev pub IsTable : Text → List ℕ → ℕ → Type 0
IsTable pattern table m =
    (i : ℕ) → i < m → Longest pattern (at pattern) (suc i) (suc i) (at table i)

-- Where the inner loop ends: at the longest prefix that the next character goes on with, or at 0.
abbrev pub Falls : Text → (ℕ → ℕ) → (n matched r : ℕ) → Type 0
Falls pattern t n matched r =
    Matches pattern t r n
    × (r ≤ matched)
    × ((j : ℕ) → j ≤ matched → Matches pattern t j n → at pattern j ≡ t n → j ≤ r)
    × ((r ≡ 0) ⊎ (at pattern r ≡ t n))

loop_stops : (matched a c : ℕ) → ltb 0 matched && not (a == c) ≡ false → (matched ≡ 0) ⊎ (a ≡ c)
loop_stops matched a c h = ground arith

pub at_or_below : (j m : ℕ) → j ≤ m → (j < m) ⊎ (j ≡ m)
at_or_below j m h = ground arith

loop_differs : (matched a c : ℕ) → ltb 0 matched && not (a == c) ≡ true → a ≢ c
loop_differs matched a c h = ground arith

other_shorter :
    (pattern : Text) (j matched c : ℕ)
    → j ≤ matched
    → at pattern j ≡ c
    → ltb 0 matched && not (at pattern matched == c) ≡ true
    → j < matched
other_shorter pattern j matched c le same again = elim (at_or_below j matched le) [
  | inl below ↦ below
  | inr equal ↦
      absurd
        (loop_differs matched (at pattern matched) c again (ap (at pattern) (sym equal) ∙ same))
]

module _ (pattern : Text) (table : List ℕ) (t : ℕ → ℕ) where
  pub IsTable-last :
      (m : ℕ)
      → 1 ≤ m
      → IsTable pattern table m
      → Longest pattern (at pattern) m m (at table (m - 1))
  IsTable-last m positive ok =
      subst (λ k. Longest pattern (at pattern) k k (at table (m - 1))) (omega arith)
        (ok (m - 1) (omega arith))

  pub IsTable-fewer : (m k : ℕ) → k ≤ m → IsTable pattern table m → IsTable pattern table k
  IsTable-fewer m k le ok = λ i below. ok i (omega arith)

  fall_back-Falls :
      (n fuel matched : ℕ)
      → matched < fuel
      → IsTable pattern table matched
      → Matches pattern t matched n
      → Falls pattern t n matched (fall_back pattern table (t n) fuel matched)
  unfolding fall_back
  fall_back-Falls n zero matched below ok h = absurd (omega arith)
  fall_back-Falls n (suc fuel) matched below ok h =
      elim (Bool-cases (ltb 0 matched && not (at pattern matched == t n))) [
        | inl again ↦
            let positive : 1 ≤ matched = ground arith in
            let last = IsTable-last matched positive ok in
            let next = at table (matched - 1) in
            let rest =
              fall_back-Falls n fuel next (omega (arith, last.1))
                (IsTable-fewer matched next (omega (arith, last.1)) ok)
                (Matches-widen pattern t next matched n last.0 h) in
            rw again (
              rest.0,
              omega (arith, rest.1, last.1),
              (λ j le matches same.
                  let shorter : j < matched = other_shorter pattern j matched (t n) le same again in
                  rest.2 j (last.2 j shorter (Matches-narrow pattern t j matched n le matches h))
                    matches same),
              rest.3,
            )
        | inr stop ↦ rw stop (
          h,
          omega arith,
          (λ j le matches same. le),
          loop_stops matched (at pattern matched) (t n) stop,
        )
      ]

  -- Any two fuels that are enough give the same.
  pub fall_back_enough :
      (n fuel other matched : ℕ)
      → matched < fuel
      → matched < other
      → IsTable pattern table matched
      → fall_back pattern table (t n) fuel matched ≡ fall_back pattern table (t n) other matched
  unfolding fall_back
  fall_back_enough n zero other matched below below' ok = absurd (omega arith)
  fall_back_enough n (suc fuel) zero matched below below' ok = absurd (omega arith)
  fall_back_enough n (suc fuel) (suc other) matched below below' ok =
      elim (Bool-cases (ltb 0 matched && not (at pattern matched == t n))) [
        | inl again ↦
            let positive : 1 ≤ matched = ground arith in
            let last = IsTable-last matched positive ok in
            rw again (
              fall_back_enough n fuel other (at table (matched - 1)) (omega (arith, last.1))
                (omega (arith, last.1))
                (IsTable-fewer matched (at table (matched - 1)) (omega (arith, last.1)) ok))
        | inr stop ↦ rw stop refl
      ]

  pub fall_back_stops :
      (n fuel matched : ℕ)
      → matched < fuel
      → IsTable pattern table matched
      → let fallen = fall_back pattern table (t n) fuel matched in
        (fallen ≡ 0) ⊎ (at pattern fallen ≡ t n)
  unfolding fall_back
  fall_back_stops n zero matched below ok = absurd (omega arith)
  fall_back_stops n (suc fuel) matched below ok =
      elim (Bool-cases (ltb 0 matched && not (at pattern matched == t n))) [
        | inl again ↦
            let positive : 1 ≤ matched = ground arith in
            let last = IsTable-last matched positive ok in
            rw again (
              fall_back_stops n fuel (at table (matched - 1)) (omega (arith, last.1))
                (IsTable-fewer matched (at table (matched - 1)) (omega (arith, last.1)) ok))
        | inr stop ↦ rw stop (loop_stops matched (at pattern matched) (t n) stop)
      ]

  grown_most :
      (bound n matched fallen : ℕ)
      → Longest pattern t bound n matched
      → Falls pattern t n matched fallen
      → (j : ℕ) → j < suc bound
      → Matches pattern t j (suc n)
      → j ≤ suc fallen
  grown_most bound n matched fallen h falls zero below matches = omega arith
  grown_most bound n matched fallen h falls (suc j) below matches =
      let (shorter, same) = Matches-shorten pattern t j n matches in
      omega (arith, falls.2 j (h.2 j (omega arith) shorter) shorter same)

  not_grown_most :
      (bound n matched fallen : ℕ)
      → Longest pattern t bound n matched
      → fallen ≡ 0
      → Falls pattern t n matched fallen
      → at pattern fallen ≢ t n
      → (j : ℕ) → j < suc bound
      → Matches pattern t j (suc n)
      → j ≤ fallen
  not_grown_most bound n matched fallen h none falls differs zero below matches = omega arith
  not_grown_most bound n matched fallen h none falls differs (suc j) below matches =
      let (shorter, same) = Matches-shorten pattern t j n matches in
      let first : j ≡ fallen =
        omega (arith, falls.2 j (h.2 j (omega arith) shorter) shorter same) in
      absurd (differs (ap (at pattern) (sym first) ∙ same))

  not_grown :
      (bound n matched fallen : ℕ)
      → Longest pattern t bound n matched
      → Falls pattern t n matched fallen
      → at pattern fallen ≢ t n
      → Longest pattern t (suc bound) (suc n) fallen
  not_grown bound n matched fallen h falls differs = elim falls.3 [
    | inl none ↦ (
      subst (λ r. Matches pattern t r (suc n)) (sym none) (Matches-none pattern t (suc n)),
      omega arith,
      λ j below matches. not_grown_most bound n matched fallen h none falls differs j below matches,
    )
    | inr same ↦ absurd (differs same)
  ]

  pub advance-Longest :
      (bound n matched : ℕ)
      → IsTable pattern table matched
      → Longest pattern t bound n matched
      → Longest pattern t (suc bound) (suc n) (advance pattern table (t n) matched)
  unfolding advance
  advance-Longest bound n matched ok h =
      let fallen = fall_back pattern table (t n) (suc matched) matched in
      let falls = fall_back-Falls n (suc matched) matched (omega arith) ok h.0 in
      elim (Bool-cases (at pattern fallen == t n)) [
        | inl same ↦ rw same (
          Matches-extend pattern t fallen n falls.0 (ground arith),
          omega (arith, falls.1, h.1),
          λ j below matches. grown_most bound n matched fallen h falls j below matches,
        )
        | inr other ↦ rw other (not_grown bound n matched fallen h falls (ground arith))
      ]
