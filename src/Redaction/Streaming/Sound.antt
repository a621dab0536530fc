-- ===== src/Redaction/Streaming/Sound.antt =====
-- That `push` keeps the invariant of a `StreamingTextRedactor`.
use nowledge.Prelude.{
  ℕ, zero, suc, ◌-◌, ◌≤◌, min, Bool, true, ◌≡◌, sym, ap, ◌∙◌, inl, inr, ◌∷◌, ◌++◌, map, length,
  arith, ◌==◌, Bool-cases, subst,
}
use mathlib.Core.List.{map-append, append_assoc}
use nowledge.Redaction.Texts.{Text, take, drop, reversed, member}
use nowledge.Redaction.Lists.{
  length-take, take-append_left, take-append-drop, length-map, reversed-append,
}
use nowledge.Redaction.Streaming.{
  StreamingCharacter, StreamingTextRedactor, projected, suffix_chars, accept, longest,
  longest_configured_suffix, longest_sensitive_suffix, emit_all_but, push_character,
}
use nowledge.Redaction.Streaming.Patterns.{IsPatternSet}
use nowledge.Redaction.Streaming.Tape.{Tape, characters, Ends, IsCovered, suffix_chars-eq}
use nowledge.Redaction.Streaming.Covers.{Reaches, Reaches-next}
use nowledge.Redaction.Streaming.Accepts.{Suppressed, IsSound, accept-Accepted}

longest-ge : (test : ℕ → Bool) (n k : ℕ) → 1 ≤ k → k ≤ n → test k ≡ true → k ≤ longest test n
unfolding longest
longest-ge test zero k a b h = omega arith
longest-ge test (suc n) k a b h = elim (Bool-cases (test (suc n))) [
  | inl here ↦ rw here b
  | inr other ↦ elim (Bool-cases (k == suc n)) [
    | inl e ↦
        let same : k ≡ suc n = ground arith in
        absurd (let clash : test (suc n) ≡ true = subst (λ m. test m ≡ true) same h in cc)
    | inr e ↦ rw other (longest-ge test n k a (ground arith) h)
  ]
]

longest_configured-le :
    (s : StreamingTextRedactor) → longest_configured_suffix s ≤ longest_sensitive_suffix s
unfolding longest_sensitive_suffix
longest_configured-le s = omega arith

-- A prefix of a pattern that ends the tape is retained.
retained_prefix :
    (s : StreamingTextRedactor) (emitted : Tape) (q : Text)
    → IsPatternSet s.literal_patterns s.literal_prefixes s.maximum_literal_pattern_chars
    → member s.literal_prefixes q ≡ true
    → length q ≤ length s.pending
    → Ends q (characters (s.pending ++ emitted))
    → length q ≤ longest_sensitive_suffix s
unfolding longest_configured_suffix
retained_prefix s emitted q set inside fits ends =
    let size = set.prefix_size q inside in
    let here : suffix_chars (length q) s.pending ≡ q =
      suffix_chars-eq (length q) s.pending
      ∙ ap reversed (
          sym (
            take-append_left (length q) (characters s.pending) (characters emitted)
              (omega (arith, length-map (λ (x : StreamingCharacter). x.character) s.pending))))
      ∙ ap (λ cs. reversed (take (length q) cs))
          (sym (map-append (λ (x : StreamingCharacter). x.character) s.pending emitted))
      ∙ ends.1 in
    omega (
      arith,
      longest_configured-le s,
      longest-ge (λ n. member s.literal_prefixes (suffix_chars n s.pending))
          (min (s.maximum_literal_pattern_chars - 1) (length s.pending)) (length q) size.0
          (omega (arith, size.1)) (rw here inside),
    )

abbrev pub emitted_with : ℕ → StreamingTextRedactor → Tape → Tape
emitted_with retained s emitted = drop retained s.pending ++ emitted

same_tape :
    (n : ℕ) (pending emitted : Tape)
    → take n pending ++ (drop n pending ++ emitted) ≡ pending ++ emitted
same_tape n pending emitted =
    sym (append_assoc (take n pending) (drop n pending) emitted)
    ∙ ap (λ t. t ++ emitted) (take-append-drop n pending)

-- Emission keeps the invariant, if what is retained reaches back to every prefix.
emit-IsSound :
    (s : StreamingTextRedactor) (emitted : Tape)
    → IsPatternSet s.literal_patterns s.literal_prefixes s.maximum_literal_pattern_chars
    → IsCovered s.literal_patterns (s.pending ++ emitted)
    → Reaches s.literal_prefixes (characters (s.pending ++ emitted)) (length s.pending)
    → Suppressed s.suppressing_credential (s.pending ++ emitted)
    → let retained = longest_sensitive_suffix s in
      IsSound (emit_all_but retained s).0 (emitted_with retained s emitted)
unfolding emit_all_but
emit-IsSound s emitted set covered held suppressed =
    let retained = longest_sensitive_suffix s in
    let same = same_tape retained s.pending emitted in
    record {
      set = set;
      covered = rw same covered;
      held = λ q inside ends.
          let there : Ends q (characters (s.pending ++ emitted)) = rw same at ends in
          omega (
            arith,
            length-take retained s.pending,
            held q inside there,
            retained_prefix s emitted q set inside (held q inside there) there,
          );
      suppressed = rw same suppressed;
    }

characters-append : (a b : Tape) → characters (a ++ b) ≡ characters a ++ characters b
characters-append a b = map-append (λ (x : StreamingCharacter). x.character) a b

module _ (s : StreamingTextRedactor) (emitted : Tape) (sound : IsSound s emitted) (c : ℕ) where
  abbrev pub after_emitted : Tape
  after_emitted = emitted_with (longest_sensitive_suffix (accept s c)) (accept s c) emitted

  next_characters :
      (pending : Tape)
      → characters pending ≡ c ∷ characters s.pending
      → characters (pending ++ emitted) ≡ c ∷ characters (s.pending ++ emitted)
  next_characters pending e =
      characters-append pending emitted
      ∙ ap (λ cs. cs ++ characters emitted) e
      ∙ ap (λ cs. c ∷ cs) (sym (characters-append s.pending emitted))

  next_held :
      (pending : Tape)
      → characters pending ≡ c ∷ characters s.pending
      → Reaches s.literal_prefixes (characters (pending ++ emitted)) (length pending)
  next_held pending e q inside ends = omega (
    arith,
    ap length e,
    length-map (λ (x : StreamingCharacter). x.character) pending,
    length-map (λ (x : StreamingCharacter). x.character) s.pending,
    Reaches-next s.literal_prefixes q (characters (s.pending ++ emitted)) c (length s.pending)
        sound.held (λ k. sound.set.prefix_prefix q k inside)
        (subst (Ends q) (next_characters pending e) ends),
  )

  -- `push` of one character keeps the invariant.
  pub push_character-IsSound : IsSound (push_character s c).0 after_emitted
  unfolding push_character
  push_character-IsSound =
      let (pending, (suppressing, same, chars, covered, suppressed)) =
        accept-Accepted s emitted sound c in
      rw same (
        emit-IsSound (record s { pending = pending; suppressing_credential = suppressing }) emitted
          sound.set covered (next_held pending chars) suppressed)

  -- It reads the character, and leaves the settings alone.
  pub push_character-reads :
      (characters ((push_character s c).0.pending ++ after_emitted)
        ≡ c ∷ characters (s.pending ++ emitted))
      × ((push_character s c).0.mask_character ≡ s.mask_character)
      × ((push_character s c).0.literal_patterns ≡ s.literal_patterns)
  unfolding push_character emit_all_but
  push_character-reads =
      let (pending, (suppressing, same, chars, covered, suppressed)) =
        accept-Accepted s emitted sound c in
      let retained = longest_sensitive_suffix (accept s c) in
      (
        ap characters (same_tape retained (accept s c).pending emitted)
            ∙ ap (λ (t : StreamingTextRedactor). characters (t.pending ++ emitted)) same
            ∙ next_characters pending chars,
        ap (λ (t : StreamingTextRedactor). t.mask_character) same,
        ap (λ (t : StreamingTextRedactor). t.literal_patterns) same,
      )

  -- What it answers is the projection of what it emits.
  pub push_character-out :
      (m : ℕ)
      → s.mask_character ≡ m
      → reversed (map (projected m) after_emitted)
        ≡ reversed (map (projected m) emitted) ++ (push_character s c).1
  unfolding push_character emit_all_but
  push_character-out m e =
      let (pending, (suppressing, same, chars, covered, suppressed)) =
        accept-Accepted s emitted sound c in
      let new = drop (longest_sensitive_suffix (accept s c)) (accept s c).pending in
      let masks_same : (accept s c).mask_character ≡ m =
        ap (λ (t : StreamingTextRedactor). t.mask_character) same ∙ e in
      ap reversed (map-append (projected m) new emitted)
      ∙ reversed-append (map (projected m) new) (map (projected m) emitted)
      ∙ ap (λ k. reversed (map (projected m) emitted) ++ reversed (map (projected k) new))
          (sym masks_same)
