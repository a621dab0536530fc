-- ===== src/Redaction/Streaming/Covers.antt =====
-- What `accept` does to the tape, when the pending characters reach back to every pattern that has
-- begun.
use nowledge.Prelude.{
  ℕ, zero, suc, ◌≤◌, ◌<◌, min, true, ◌≡◌, refl, sym, ap, ap₂, ◌∙◌, ◌⊎◌, inl, inr, List, [], ◌∷◌,
  ◌++◌, length, arith, Bool-cases, subst, All,
}
use mathlib.Core.List.{map-append}
use nowledge.Redaction.Texts.{Text, take, reversed, all, member, credential_shapes}
use nowledge.Redaction.Lists.{
  length-take, length-map, length-reversed, reversed-cons, take-append_left, take-length-append,
}
use nowledge.Redaction.Streaming.{
  StreamingMask, StreamingCharacter, StreamingTextRedactor, suffix_chars, mask_lengths,
  completes_shape, suppress, try_shapes, start_credential_suppression_if_complete,
}
use nowledge.Redaction.Streaming.Patterns.{IsPatternSet}
use nowledge.Redaction.Streaming.Tape.{
  Tape, is_masked, characters, Ends, IsCovered, Grows, keep, done, Grows-append, Grows-characters,
  Grows-IsCovered, mask_lengths-Grows, mask_lengths-masked, suffix_chars-eq,
}

-- A text that ends with the newest character, without that character.
Ends-tail : (p cs : Text) (c n : ℕ) → length p ≡ suc n → Ends p (c ∷ cs) → Ends (take n p) cs
unfolding take
Ends-tail p cs c n size (short, e) =
    let body : reversed (take n cs) ++ c ∷ [] ≡ p =
      sym (reversed-cons c (take n cs)) ∙ (subst (λ m. reversed (take m (c ∷ cs)) ≡ p) size e) in
    let deep : n ≤ length cs = omega (arith, size) in
    let long : length (reversed (take n cs)) ≡ n =
      omega (arith, length-reversed (take n cs), length-take n cs) in
    let start : reversed (take n cs) ≡ take n p =
      sym (take-length-append (reversed (take n cs)) (c ∷ [])) ∙ ap₂ (λ m t. take m t) long body in
    (
      omega (arith, length-take n p),
      subst (λ m. reversed (take m cs) ≡ take n p) (sym (omega (arith, length-take n p, size)))
          start,
    )

-- What the pending characters reach back to.
abbrev pub Reaches : List Text → Text → ℕ → Type 0
Reaches prefixes chars n = (q : Text) → member prefixes q ≡ true → Ends q chars → length q ≤ n

-- One more character, and one more is pending.
pub Reaches-next :
    (prefixes : List Text) (p cs : Text) (c n : ℕ)
    → Reaches prefixes cs n
    → ((k : ℕ) → 1 ≤ k → k < length p → member prefixes (take k p) ≡ true)
    → Ends p (c ∷ cs)
    → length p ≤ suc n
Reaches-next prefixes p cs c n held closed ends = by_size (length p) refl
  where
    by_size : (m : ℕ) → length p ≡ m → length p ≤ suc n
    by_size zero size = omega arith
    by_size (suc zero) size = omega arith
    by_size (suc (suc k)) size =
        let q = take (suc k) p in
        omega (
          arith,
          length-take (suc k) p,
          held q (closed (suc k) (omega arith) (omega arith)) (Ends-tail p cs c (suc k) size ends),
        )

IsCovered-next :
    (patterns : List Text) {c : StreamingCharacter} {tape next : Tape}
    → Grows (c ∷ tape) next
    → IsCovered patterns tape
    → ((p : Text)
        → member patterns p ≡ true
        → Ends p (characters next)
        → all is_masked (take (length p) next) ≡ true)
    → IsCovered patterns next
IsCovered-next patterns (keep e m g) covered head = (head, Grows-IsCovered patterns g covered)

-- The tests of the shapes leave the state as it is, or mask at least eight characters for a
-- credential.
abbrev pub Suppresses : StreamingTextRedactor → StreamingTextRedactor → Type 0
Suppresses s s' = (s' ≡ s) ⊎ ((n : ℕ) × (8 ≤ n) × (n ≤ length s.pending) × (s' ≡ suppress s n))

long_enough :
    (s : StreamingTextRedactor) (prefix : Text) (n : ℕ)
    → completes_shape s prefix n ≡ true
    → n ≤ length s.pending
unfolding completes_shape
long_enough s prefix n h = ground arith

try_shapes-cases :
    (shapes : List (Text × ℕ)) (s : StreamingTextRedactor)
    → All (λ shape. 8 ≤ shape.1) shapes
    → Suppresses s (try_shapes shapes s)
unfolding try_shapes
try_shapes-cases [] s h = inl refl
try_shapes-cases ((prefix, minimum_chars) ∷ shapes) s (h, rest) =
    elim (Bool-cases (completes_shape s prefix minimum_chars)) [
      | inl complete ↦
          inr (minimum_chars, h, long_enough s prefix minimum_chars complete, rw complete refl)
      | inr incomplete ↦ rw incomplete (try_shapes-cases shapes s rest)
    ]

pub start-cases :
    (s : StreamingTextRedactor) → Suppresses s (start_credential_suppression_if_complete s)
unfolding start_credential_suppression_if_complete
start-cases s = try_shapes-cases credential_shapes s (omega arith)

pub length-Grows : {a b : Tape} → Grows a b → length a ≡ length b
length-Grows done = refl
length-Grows (keep e m g) = ap suc (length-Grows g)

module _ (patterns prefixes : List Text) (maximum : ℕ)
    (set : IsPatternSet patterns prefixes maximum) (pending emitted : Tape)
    (covered : IsCovered patterns (pending ++ emitted))
    (held : Reaches prefixes (characters (pending ++ emitted)) (length pending)) where
  abbrev pub fresh : ℕ → Tape
  fresh c = record { character = c; mask = StreamingMask.none } ∷ pending

  -- A pattern that the new character ends lies within the pending characters.
  ended_pattern :
      (c : ℕ) (p : Text)
      → member patterns p ≡ true
      → Ends p (characters (fresh c ++ emitted))
      → (length p ≤ suc (length pending)) × (suffix_chars (length p) (fresh c) ≡ p)
  ended_pattern c p inside ends =
      let short =
        Reaches-next prefixes p (characters (pending ++ emitted)) c (length pending) held
          (λ k. set.pattern_prefix p k inside) ends in
      (
        short,
        suffix_chars-eq (length p) (fresh c)
            ∙ ap reversed (
                sym (
                  take-append_left (length p) (characters (fresh c)) (characters emitted)
                    (omega (arith, length-map (λ (x : StreamingCharacter). x.character) pending))))
            ∙ ap (λ cs. reversed (take (length p) cs))
                (sym (map-append (λ (x : StreamingCharacter). x.character) (fresh c) emitted))
            ∙ ends.1,
      )

  -- The loop over the lengths covers what the new character ended.
  pub fresh-IsCovered :
      (c : ℕ)
      → IsCovered patterns
          (mask_lengths patterns (min maximum (suc (length pending))) 1 (fresh c) ++ emitted)
  fresh-IsCovered c =
      let rounds = min maximum (suc (length pending)) in
      let grown = mask_lengths-Grows patterns rounds 1 (fresh c) in
      IsCovered-next patterns (Grows-append emitted grown) covered (λ p inside ends.
        let found =
          ended_pattern c p inside
            (subst (Ends p) (sym (Grows-characters (Grows-append emitted grown))) ends) in
        let size = set.pattern_size p inside in
        subst (λ t. all is_masked t ≡ true)
          (sym (
            take-append_left (length p) (mask_lengths patterns rounds 1 (fresh c)) emitted
              (omega (arith, length-Grows grown, found.0))))
          (mask_lengths-masked patterns rounds 1 (length p) (fresh c) size.0
            (omega (arith, found.0, size.2)) (rw found.1 inside)))
