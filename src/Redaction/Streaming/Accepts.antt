-- ===== src/Redaction/Streaming/Accepts.antt =====
-- The invariant of a `StreamingTextRedactor` over the characters that it emitted, and what `push`
-- does to it before it emits.
use nowledge.Prelude.{
  ℕ, suc, ◌≤◌, min, Bool, true, false, ◌||◌, not, ◌≡◌, refl, sym, ◌∙◌, inl, inr, ◌∷◌, ◌++◌, length,
  arith, Bool-cases,
}
use nowledge.Redaction.Texts.{take, all, is_credential_character}
use nowledge.Redaction.Lists.{take-append_left, all-take}
use nowledge.Redaction.Streaming.{
  StreamingMask, credential, StreamingTextRedactor, mask_suffix, mask_lengths,
  mask_complete_configured_suffixes, suppress, start_credential_suppression_if_complete, accept,
}
use nowledge.Redaction.Streaming.Patterns.{IsPatternSet}
use nowledge.Redaction.Streaming.Tape.{
  Tape, masks, is_masked, characters, IsCovered, Grows-append, Grows-characters, Grows-IsCovered,
  mask_suffix-Grows, mask_suffix-masked, mask_lengths-Grows,
}
use nowledge.Redaction.Streaming.Covers.{
  Reaches, Suppresses, start-cases, fresh-IsCovered, length-Grows,
}

-- While a credential is suppressed, the last eight characters are masked.
abbrev pub Suppressed : Bool → Tape → Type 0
Suppressed suppressing tape = (not suppressing || all is_masked (take 8 tape)) ≡ true

pub record IsSound (s : StreamingTextRedactor) (emitted : Tape) : Type 0 where
  pub set : IsPatternSet s.literal_patterns s.literal_prefixes s.maximum_literal_pattern_chars
  pub covered : IsCovered s.literal_patterns (s.pending ++ emitted)
  pub held : Reaches s.literal_prefixes (characters (s.pending ++ emitted)) (length s.pending)
  pub suppressed : Suppressed s.suppressing_credential (s.pending ++ emitted)

-- What `accept` leaves, before anything is emitted.
abbrev pub Accepted : StreamingTextRedactor → ℕ → Tape → StreamingTextRedactor → Type 0
Accepted s c emitted s' =
    (pending : Tape) × ((suppressing : Bool) × (s'
        ≡ record s { pending = pending; suppressing_credential = suppressing })
      × (characters pending ≡ c ∷ characters s.pending)
      × IsCovered s.literal_patterns (pending ++ emitted)
      × Suppressed suppressing (pending ++ emitted))

credential_next :
    (c : ℕ) (tape : Tape)
    → all is_masked (take 8 tape) ≡ true
    → all is_masked (take 8 (record { character = c; mask = credential } ∷ tape)) ≡ true
unfolding all take
credential_next c tape h = all-take is_masked 7 8 tape (omega arith) h

-- The last characters of a tape that is long enough are those of its first part.
masked_first :
    (n : ℕ) (first rest : Tape)
    → 8 ≤ n
    → n ≤ length first
    → all is_masked (take n first) ≡ true
    → all is_masked (take 8 (first ++ rest)) ≡ true
masked_first n first rest long fits h =
    rw (take-append_left 8 first rest (omega arith)) (all-take is_masked 8 n first long h)

credential_masks : (m : StreamingMask) → (not (masks m) || masks credential) ≡ true
credential_masks m = ground arith

module _ (s : StreamingTextRedactor) (emitted : Tape) (sound : IsSound s emitted) (c : ℕ) where
  -- A character of a credential that is suppressed already.
  accept_suppressed :
      s.suppressing_credential ≡ true
      → Accepted s c emitted
          (record s { pending = record { character = c; mask = credential } ∷ s.pending })
  accept_suppressed on =
      let next = credential_next c (s.pending ++ emitted) (rw on at sound.suppressed) in
      (
        record { character = c; mask = credential } ∷ s.pending,
        (
          true,
          rw on refl,
          refl,
          (
            λ p inside ends.
                all-take is_masked (length p) 8
                  (record { character = c; mask = credential } ∷ (s.pending ++ emitted))
                  (sound.set.pattern_size p inside).1 next,
            sound.covered,
          ),
          next,
        ),
      )

  abbrev base : StreamingTextRedactor
  base = record s {
    suppressing_credential = false;
    pending = record { character = c; mask = StreamingMask.none } ∷ s.pending;
  }

  abbrev marked : Tape
  marked =
      mask_lengths s.literal_patterns (min s.maximum_literal_pattern_chars (suc (length s.pending)))
        1 base.pending

  marked-IsCovered : IsCovered s.literal_patterns (marked ++ emitted)
  marked-IsCovered =
      fresh-IsCovered s.literal_patterns s.literal_prefixes s.maximum_literal_pattern_chars
        sound.set s.pending emitted sound.covered sound.held c

  marked-characters : characters marked ≡ c ∷ characters s.pending
  marked-characters = sym (
      Grows-characters (
        mask_lengths-Grows s.literal_patterns
          (min s.maximum_literal_pattern_chars (suc (length s.pending))) 1 base.pending))

  accept_masked :
      Accepted s c emitted
        (start_credential_suppression_if_complete (mask_complete_configured_suffixes base))
  unfolding mask_complete_configured_suffixes suppress
  accept_masked = from_cases (start-cases (mask_complete_configured_suffixes base))
    where
      from_cases :
          Suppresses
            (mask_complete_configured_suffixes base)
            (start_credential_suppression_if_complete (mask_complete_configured_suffixes base))
          → Accepted s c emitted
              (start_credential_suppression_if_complete (mask_complete_configured_suffixes base))
      from_cases (inl same) = (marked, (false, same, marked-characters, marked-IsCovered, refl))
      from_cases (inr (n, long, fits, masked)) =
          let change = λ (m : StreamingMask). credential in
          let hidden = mask_suffix change n marked in
          let grown = mask_suffix-Grows change credential_masks n marked in
          (
            hidden,
            (
              true,
              masked,
              sym (Grows-characters grown) ∙ marked-characters,
              Grows-IsCovered s.literal_patterns (Grows-append emitted grown) marked-IsCovered,
              masked_first n hidden emitted long (omega (arith, fits, length-Grows grown))
                  (mask_suffix-masked change (λ m. refl) n marked),
            ),
          )

  pub accept-Accepted : Accepted s c emitted (accept s c)
  unfolding accept
  accept-Accepted = elim (Bool-cases s.suppressing_credential) [
    | inl on ↦ elim (Bool-cases (is_credential_character c)) [
      | inl member_of_it ↦ rw (on, member_of_it) (rw on at (accept_suppressed on))
      | inr delimiter ↦ rw (on, delimiter) accept_masked
    ]
    | inr off ↦ rw off accept_masked
  ]
