-- ===== src/Redaction/Streaming/Tape.antt =====
-- The tape of a stream: all characters so far, the last one first, with the masks they have by now.
use nowledge.Prelude.{
  ℕ, zero, suc, ◌+◌, ◌≤◌, ◌<◌, Bool, true, false, ◌||◌, not, ◌≡◌, refl, sym, ap, ◌∙◌, inl, inr,
  List, [], ◌∷◌, ◌++◌, map, length, arith, ◌==◌, Bool-cases, subst, ap₂,
}
use nowledge.Redaction.Texts.{Text, take, reversed, all, member}
use nowledge.Redaction.Lists.{map-take}
use nowledge.Redaction.Streaming.{
  StreamingMask, configured, credential, StreamingCharacter, suffix_chars, at_least_configured,
  mask_suffix, mask_if_pattern, mask_lengths,
}

abbrev pub Tape : Type 0
Tape = List StreamingCharacter

abbrev pub masks : StreamingMask → Bool
masks StreamingMask.none = false
masks configured = true
masks credential = true

abbrev pub is_masked : StreamingCharacter → Bool
is_masked c = masks c.mask

abbrev pub characters : Tape → Text
characters tape = map (λ c. c.character) tape

-- A text stands at the end of what was read.
abbrev pub Ends : Text → Text → Type 0
Ends p chars = (length p ≤ length chars) × (reversed (take (length p) chars) ≡ p)

-- Every pattern that was read is masked, all of it.
abbrev pub IsCovered : List Text → Tape → Type 0
IsCovered patterns [] = Unit
IsCovered patterns (c ∷ tape) =
    ((p : Text)
      → member patterns p ≡ true
      → Ends p (characters (c ∷ tape))
      → all is_masked (take (length p) (c ∷ tape)) ≡ true)
    × IsCovered patterns tape

-- The same characters, of which what was masked still is.
pub data Grows : Tape → Tape → Type 0 where
  done : Grows [] []
  keep :
      {c d : StreamingCharacter} {tape tape' : Tape}
      → c.character ≡ d.character
      → (not (is_masked c) || is_masked d) ≡ true
      → Grows tape tape'
      → Grows (c ∷ tape) (d ∷ tape')

pub Grows-refl : (tape : Tape) → Grows tape tape
Grows-refl [] = done
Grows-refl (c ∷ tape) = keep refl (ground arith) (Grows-refl tape)

pub Grows-trans : {a b c : Tape} → Grows a b → Grows b c → Grows a c
Grows-trans done done = done
Grows-trans (keep e m g) (keep e' m' g') = keep (e ∙ e') (ground arith) (Grows-trans g g')

pub Grows-append : {a b : Tape} (tail : Tape) → Grows a b → Grows (a ++ tail) (b ++ tail)
Grows-append tail done = Grows-refl tail
Grows-append tail (keep e m g) = keep e m (Grows-append tail g)

pub Grows-characters : {a b : Tape} → Grows a b → characters a ≡ characters b
Grows-characters done = refl
Grows-characters (keep e m g) = ap₂ ◌∷◌ e (Grows-characters g)

pub Grows-masked :
    {a b : Tape} (n : ℕ)
    → Grows a b
    → all is_masked (take n a) ≡ true
    → all is_masked (take n b) ≡ true
unfolding all take
Grows-masked zero g h = refl
Grows-masked (suc n) done h = refl
Grows-masked (suc n) (keep e m g) h = ground (arith, Grows-masked n g)

pub Grows-IsCovered :
    (patterns : List Text) {a b : Tape} → Grows a b → IsCovered patterns a → IsCovered patterns b
Grows-IsCovered patterns done h = tt
Grows-IsCovered patterns (keep e m g) (h, rest) = (
  λ p inside ends.
      Grows-masked (length p) (keep e m g)
        (h p inside (subst (Ends p) (sym (Grows-characters (keep e m g))) ends)),
  Grows-IsCovered patterns g rest,
)

pub mask_suffix-Grows :
    (change : StreamingMask → StreamingMask)
    → ((m : StreamingMask) → (not (masks m) || masks (change m)) ≡ true)
    → (n : ℕ) (tape : Tape) → Grows tape (mask_suffix change n tape)
unfolding mask_suffix
mask_suffix-Grows change kept zero tape = Grows-refl tape
mask_suffix-Grows change kept (suc n) [] = done
mask_suffix-Grows change kept (suc n) (c ∷ tape) =
    keep refl (kept c.mask) (mask_suffix-Grows change kept n tape)

pub mask_suffix-masked :
    (change : StreamingMask → StreamingMask)
    → ((m : StreamingMask) → masks (change m) ≡ true)
    → (n : ℕ) (tape : Tape) → all is_masked (take n (mask_suffix change n tape)) ≡ true
unfolding mask_suffix all take
mask_suffix-masked change all_masks zero tape = refl
mask_suffix-masked change all_masks (suc n) [] = refl
mask_suffix-masked change all_masks (suc n) (c ∷ tape) =
    ground (arith, all_masks c.mask, mask_suffix-masked change all_masks n tape)

configured_masks : (m : StreamingMask) → masks (at_least_configured m) ≡ true
unfolding at_least_configured
configured_masks StreamingMask.none = refl
configured_masks configured = refl
configured_masks credential = refl

kept_of_masks :
    (change : StreamingMask → StreamingMask)
    → ((m : StreamingMask) → masks (change m) ≡ true)
    → (m : StreamingMask) → (not (masks m) || masks (change m)) ≡ true
kept_of_masks change h m = ground (arith, h m)

-- Marking the last `n` characters when they are a pattern.
mask_if_pattern-Grows :
    (patterns : List Text) (n : ℕ) (tape : Tape) → Grows tape (mask_if_pattern patterns n tape)
unfolding mask_if_pattern
mask_if_pattern-Grows patterns n tape = elim (Bool-cases (member patterns (suffix_chars n tape))) [
  | inl here ↦ rw here (
      mask_suffix-Grows at_least_configured (kept_of_masks at_least_configured configured_masks) n
        tape)
  | inr other ↦ rw other (Grows-refl tape)
]

mask_if_pattern-masked :
    (patterns : List Text) (n : ℕ) (tape : Tape)
    → member patterns (suffix_chars n tape) ≡ true
    → all is_masked (take n (mask_if_pattern patterns n tape)) ≡ true
unfolding mask_if_pattern
mask_if_pattern-masked patterns n tape here =
    rw here (mask_suffix-masked at_least_configured configured_masks n tape)

pub mask_lengths-Grows :
    (patterns : List Text) (rounds n : ℕ) (tape : Tape)
    → Grows tape (mask_lengths patterns rounds n tape)
unfolding mask_lengths
mask_lengths-Grows patterns zero n tape = Grows-refl tape
mask_lengths-Grows patterns (suc rounds) n tape =
    Grows-trans (mask_if_pattern-Grows patterns n tape)
      (mask_lengths-Grows patterns rounds (suc n) (mask_if_pattern patterns n tape))

pub suffix_chars-eq :
    (n : ℕ) (tape : Tape) → suffix_chars n tape ≡ reversed (take n (characters tape))
unfolding suffix_chars
suffix_chars-eq n tape = ap reversed (map-take (λ c. c.character) n tape)

suffix_chars-Grows : (n : ℕ) {a b : Tape} → Grows a b → suffix_chars n a ≡ suffix_chars n b
suffix_chars-Grows n {a} {b} g =
    suffix_chars-eq n a
    ∙ ap (λ cs. reversed (take n cs)) (Grows-characters g)
    ∙ sym (suffix_chars-eq n b)

-- After the loop, every length in its range that ended a pattern is masked.
pub mask_lengths-masked :
    (patterns : List Text) (rounds n k : ℕ) (tape : Tape)
    → n ≤ k
    → k < n + rounds
    → member patterns (suffix_chars k tape) ≡ true
    → all is_masked (take k (mask_lengths patterns rounds n tape)) ≡ true
unfolding mask_lengths
mask_lengths-masked patterns zero n k tape a b here = absurd (omega arith)
mask_lengths-masked patterns (suc rounds) n k tape a b here = elim (Bool-cases (k == n)) [
  | inl e ↦
      let same : k ≡ n = ground arith in
      Grows-masked k (mask_lengths-Grows patterns rounds (suc n) (mask_if_pattern patterns n tape))
        (subst (λ m. all is_masked (take k (mask_if_pattern patterns m tape)) ≡ true) same
          (mask_if_pattern-masked patterns k tape here))
  | inr e ↦
      mask_lengths-masked patterns rounds (suc n) k (mask_if_pattern patterns n tape) (ground arith)
        (omega arith) (rw (← suffix_chars-Grows k (mask_if_pattern-Grows patterns n tape)) here)
]
