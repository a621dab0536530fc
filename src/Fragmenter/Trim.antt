-- ===== src/Fragmenter/Trim.antt =====
-- What `trim_range` of src/fragmenter.rs drops and what it keeps.
use Prim.Native.Char.{Char}
use nowledge.Prelude.{
  ℕ, zero, suc, ◌+◌, ◌-◌, ◌≤◌, ◌<◌, min, ◌≡◌, subst, ◌⊎◌, inl, inr, true, false, List, length,
  arith, Bool-cases, ltb,
}
use nowledge.Fragmenter.Chars.{whitespace_at, trim_left, trim_right, trim_range}

-- What is not white space in `[start, end)` stands in `[left, right)`.
abbrev pub Keeps : List Char → ℕ → ℕ → ℕ → ℕ → Type 0
Keeps cs start end left right =
    (i : ℕ) → start ≤ i → i < end → whitespace_at cs i ≡ false → (left ≤ i) × (i < right)

pub record Trimmed (cs : List Char) (start end left right : ℕ) : Type 0 where
  pub from_start : start ≤ left
  pub in_order : left ≤ right
  pub to_end : right ≤ end
  pub keeps : Keeps cs start end left right
  pub first : left < right → whitespace_at cs left ≡ false
  pub last : left < right → whitespace_at cs (right - 1) ≡ false

pub first_or_later : (a b : ℕ) → a ≤ b → (a ≡ b) ⊎ (suc a ≤ b)
first_or_later a b h = elim (Bool-cases (ltb a b)) [
  | inl l ↦ inr (ground arith)
  | inr g ↦ inl (ground arith)
]

-- A position that is not white space is not the one that is.
skip_first :
    (cs : List Char) (left i : ℕ)
    → whitespace_at cs left ≡ true
    → left ≤ i
    → whitespace_at cs i ≡ false
    → suc left ≤ i
skip_first cs left i w h f = elim (first_or_later left i h) [ inl e ↦ cc | inr l ↦ l ]

trim_left_lem :
    (cs : List Char) (gap left : ℕ)
    → let l = trim_left cs gap left in
      (left ≤ l)
      × (l ≤ left + gap)
      × Keeps cs left (left + gap) l (left + gap)
      × (l < left + gap → whitespace_at cs l ≡ false)
unfolding trim_left
trim_left_lem cs zero left =
    (omega arith, omega arith, λ i a b w. (a, b), λ h. absurd (omega (arith, h)))
trim_left_lem cs (suc gap) left = elim (Bool-cases (whitespace_at cs left)) [
  | inl w ↦
      let (low, high, keeps, stops) = trim_left_lem cs gap (suc left) in
      rw (w, trim_left)
        (
          omega (arith, low),
          omega (arith, high),
          λ i a b f.
              let k = keeps i (skip_first cs left i w a f) (omega (arith, b)) f in
              (k.0, omega (arith, b)),
          λ h. stops (omega (arith, h)),
        )
  | inr w ↦ rw (w, trim_left) (omega arith, omega arith, λ i a b f. (a, b), λ h. w)
]

before_last :
    (cs : List Char) (last i : ℕ)
    → whitespace_at cs last ≡ true
    → i ≤ last
    → whitespace_at cs i ≡ false
    → i < last
before_last cs last i w h f = elim (first_or_later i last h) [ inl e ↦ cc | inr l ↦ l ]

trim_right_lem :
    (cs : List Char) (gap left : ℕ)
    → let r = trim_right cs gap left in
      (left ≤ r)
      × (r ≤ left + gap)
      × Keeps cs left (left + gap) left r
      × (left < r → whitespace_at cs (r - 1) ≡ false)
unfolding trim_right
trim_right_lem cs zero left =
    (omega arith, omega arith, λ i a b w. (a, omega (arith, b)), λ h. absurd (omega (arith, h)))
trim_right_lem cs (suc gap) left = elim (Bool-cases (whitespace_at cs (left + gap))) [
  | inl w ↦
      let (low, high, keeps, stops) = trim_right_lem cs gap left in
      rw (w, trim_right)
        (
          low,
          omega (arith, high),
          λ i a b f. keeps i a (before_last cs (left + gap) i w (omega (arith, b)) f) f,
          stops,
        )
  | inr w ↦
      let e : left + gap ≡ suc (left + gap) - 1 = omega arith in
      rw (w, trim_right)
        (
          omega arith,
          omega arith,
          λ i a b f. (a, omega (arith, b)),
          λ h. subst (λ j. whitespace_at cs j ≡ false) e w,
        )
]

pub trim_range-Trimmed :
    (cs : List Char) (start end : ℕ)
    → start ≤ end
    → end ≤ length cs
    → let t = trim_range cs start end in Trimmed cs start end t.0 t.1
unfolding trim_range
trim_range-Trimmed cs start end h b =
    let from : min start (length cs) ≡ start = omega (arith, h, b) in
    let to : min end (length cs) ≡ end = omega (arith, b) in
    let l = trim_left cs (end - start) start in
    let (low, high, keeps, stops) = trim_left_lem cs (end - start) start in
    let (low', high', keeps', stops') = trim_right_lem cs (end - l) l in
    rw (from, to)
      record {
        from_start = low;
        in_order = low';
        to_end = omega (arith, h, high, high');
        keeps = λ i a c f.
            let k = keeps i a (omega (arith, h, c)) f in keeps' i k.0 (omega (arith, h, k, c)) f;
        first = λ g. stops (omega (arith, g, high'));
        last = stops';
      }
