-- ===== src/Redaction/Streaming/Patterns.antt =====
-- The patterns and prefixes that a `StreamingTextRedactor` is made with.
use nowledge.Prelude.{
  ℕ, zero, suc, ◌-◌, ◌≤◌, ◌<◌, true, ◌≡◌, refl, ap, inl, inr, List, [], ◌∷◌, length, arith, leb,
  ◌==◌, Bool-cases, subst,
}
use nowledge.Redaction.Texts.{Text, take, member, windows, secret_substring_window_chars}
use nowledge.Redaction.Members.{
  same_chars_refl, member-cons, member_of_append, member_left, member_right, member_here,
  member_there,
}
use nowledge.Redaction.Lists.{length-take, take-take}
use nowledge.Redaction.Streaming.{
  secret_patterns, all_patterns, prefixes_up_to, all_prefixes, longest_length,
}

member-prefixes_up_to :
    (n k : ℕ) (p : Text) → 1 ≤ k → k ≤ n → member (prefixes_up_to n p) (take k p) ≡ true
unfolding prefixes_up_to member
member-prefixes_up_to zero k p a b = absurd (omega arith)
member-prefixes_up_to (suc n) k p a b = elim (Bool-cases (k == suc n)) [
  | inl e ↦ let same : k ≡ suc n = ground arith in rw (same, same_chars_refl (take (suc n) p)) refl
  | inr e ↦ ground (arith, member-prefixes_up_to n k p)
]

prefix_of_member :
    (n : ℕ) (p q : Text)
    → member (prefixes_up_to n p) q ≡ true
    → (k : ℕ) × (1 ≤ k) × (k ≤ n) × (take k p ≡ q)
unfolding prefixes_up_to
prefix_of_member zero p q h = unfold member in absurd (cc)
prefix_of_member (suc n) p q h = elim (member-cons (take (suc n) p) (prefixes_up_to n p) q h) [
  | inl e ↦ (suc n, omega arith, omega arith, e)
  | inr m ↦ let (k, a, b, e) = prefix_of_member n p q m in (k, a, omega arith, e)
]

-- A pattern's beginnings stand among the prefixes.
all_prefixes-member :
    (ps : List Text) (p : Text) (k : ℕ)
    → member ps p ≡ true
    → 1 ≤ k
    → k < length p
    → member (all_prefixes ps) (take k p) ≡ true
unfolding all_prefixes
all_prefixes-member [] p k h a b = unfold member in absurd (cc)
all_prefixes-member (x ∷ ps) p k h a b = elim (member-cons x ps p h) [
  | inl e ↦ member_left (prefixes_up_to (length x - 1) x) (all_prefixes ps) (take k p) (
      subst (λ t. member (prefixes_up_to (length x - 1) x) (take k t) ≡ true) e
        (member-prefixes_up_to (length x - 1) k x a (omega (arith, ap length e))))
  | inr m ↦
      member_right (prefixes_up_to (length x - 1) x) (all_prefixes ps) (take k p)
        (all_prefixes-member ps p k m a b)
]

-- And nothing else does.
all_prefixes_of_pattern :
    (ps : List Text) (q : Text)
    → member (all_prefixes ps) q ≡ true
    → (p : Text) × ((k : ℕ) × (member ps p ≡ true) × (1 ≤ k) × (k < length p) × (take k p ≡ q))
unfolding all_prefixes
all_prefixes_of_pattern [] q h = unfold member in absurd (cc)
all_prefixes_of_pattern (x ∷ ps) q h =
    elim (member_of_append (prefixes_up_to (length x - 1) x) (all_prefixes ps) q h) [
      | inl m ↦
          let (k, a, b, e) = prefix_of_member (length x - 1) x q m in
          (x, (k, member_here x ps, a, omega arith, e))
      | inr m ↦
          let (p, (k, there, a, b, e)) = all_prefixes_of_pattern ps q m in
          (p, (k, member_there x ps p there, a, b, e))
    ]

longest_length-le : (ps : List Text) (p : Text) → member ps p ≡ true → length p ≤ longest_length ps
unfolding longest_length
longest_length-le [] p h = unfold member in absurd (cc)
longest_length-le (x ∷ ps) p h = elim (member-cons x ps p h) [
  | inl e ↦ omega (arith, ap length e)
  | inr m ↦ omega (arith, longest_length-le ps p m)
]

windows_size : (n : ℕ) (text q : Text) → member (windows n text) q ≡ true → length q ≡ n
unfolding windows
windows_size n [] q h = unfold member in absurd (cc)
windows_size n (c ∷ cs) q h = elim (Bool-cases (leb n (length (c ∷ cs)))) [
  | inl fits ↦ elim (member-cons (take n (c ∷ cs)) (windows n cs) q (rw fits at h)) [
    | inl e ↦ ground (arith, ap length e, length-take n (c ∷ cs))
    | inr m ↦ windows_size n cs q m
  ]
  | inr short ↦ unfold member in absurd (let h' : member [] q ≡ true = rw short at h in cc)
]

secret_patterns_size :
    (secret p : Text) → member (secret_patterns secret) p ≡ true → (1 ≤ length p) × (length p ≤ 8)
unfolding secret_patterns
secret_patterns_size [] p h = unfold member in absurd (cc)
secret_patterns_size (c ∷ cs) p h =
    elim (Bool-cases (leb (length (c ∷ cs)) secret_substring_window_chars)) [
      | inl short ↦ elim (member-cons (c ∷ cs) [] p (rw short at h)) [
        | inl e ↦ ground (arith, ap length e)
        | inr m ↦ unfold member in absurd (cc)
      ]
      | inr long ↦
          let size = windows_size secret_substring_window_chars (c ∷ cs) p (rw long at h) in
          (omega arith, omega arith)
    ]

all_patterns_size :
    (secrets : List Text) (p : Text)
    → member (all_patterns secrets) p ≡ true
    → (1 ≤ length p) × (length p ≤ 8)
unfolding all_patterns
all_patterns_size [] p h = unfold member in absurd (cc)
all_patterns_size (secret ∷ secrets) p h =
    elim (member_of_append (secret_patterns secret) (all_patterns secrets) p h) [
      | inl m ↦ secret_patterns_size secret p m
      | inr m ↦ all_patterns_size secrets p m
    ]

-- What the redactor relies on.
pub record IsPatternSet (patterns prefixes : List Text) (maximum : ℕ) : Type 0 where
  pub pattern_size :
      (p : Text) → member patterns p ≡ true → (1 ≤ length p) × (length p ≤ 8) × (length p ≤ maximum)
  pub pattern_prefix :
      (p : Text) (k : ℕ)
      → member patterns p ≡ true
      → 1 ≤ k
      → k < length p
      → member prefixes (take k p) ≡ true
  pub prefix_size :
      (q : Text) → member prefixes q ≡ true → (1 ≤ length q) × (length q ≤ maximum - 1)
  pub prefix_prefix :
      (q : Text) (k : ℕ)
      → member prefixes q ≡ true
      → 1 ≤ k
      → k < length q
      → member prefixes (take k q) ≡ true

pub all_patterns-IsPatternSet :
    (secrets : List Text)
    → IsPatternSet
        (all_patterns secrets)
        (all_prefixes (all_patterns secrets))
        (longest_length (all_patterns secrets))
all_patterns-IsPatternSet secrets =
    let patterns = all_patterns secrets in
    record {
      pattern_size = λ p h. (
        (all_patterns_size secrets p h).0,
        (all_patterns_size secrets p h).1,
        longest_length-le patterns p h,
      );
      pattern_prefix = λ p k h. all_prefixes-member patterns p k h;
      prefix_size = λ q h. prefix_bounds patterns q (all_prefixes_of_pattern patterns q h);
      prefix_prefix =
          λ q k h a b. prefix_closed patterns q k a b (all_prefixes_of_pattern patterns q h);
    }
  where
    prefix_bounds :
        (ps : List Text) (q : Text)
        → (p : Text) × ((k : ℕ) × (member ps p ≡ true) × (1 ≤ k) × (k < length p) × (take k p ≡ q))
        → (1 ≤ length q) × (length q ≤ longest_length ps - 1)
    prefix_bounds ps q (p, (k, m, a, b, e)) =
        omega (arith, ap length e, length-take k p, longest_length-le ps p m)

    prefix_closed :
        (ps : List Text) (q : Text) (j : ℕ)
        → 1 ≤ j
        → j < length q
        → (p : Text) × ((k : ℕ) × (member ps p ≡ true) × (1 ≤ k) × (k < length p) × (take k p ≡ q))
        → member (all_prefixes ps) (take j q) ≡ true
    prefix_closed ps q j a' b' (p, (k, m, a, b, e)) =
        subst (λ t. member (all_prefixes ps) (take j t) ≡ true) e
          (rw (take-take j k p (omega (arith, ap length e, length-take k p)))
            (all_prefixes-member ps p j m a' (omega (arith, ap length e, length-take k p))))
