-- ===== src/Redaction/Streaming/Chunks.antt =====
-- The characters of a stream that stay.
use nowledge.Prelude.{ℕ, true, ◌||◌, ◌≡◌, refl, List, [], ◌∷◌, map, arith, ◌==◌}
use nowledge.Redaction.Texts.{Text}
use nowledge.Redaction.Keeps.{keeps_or_masks, keeps_or_masks-reverse}
use nowledge.Redaction.Streaming.{StreamingCharacter, projected, new, stream}
use nowledge.Redaction.Streaming.Tape.{Tape, characters}
use nowledge.Redaction.Streaming.Hidden.{concat, whole_stream}

kept_character :
    (m : ℕ) (c : StreamingCharacter) → (projected m c == m || projected m c == c.character) ≡ true
unfolding projected
kept_character m c = ground arith

keeps_or_masks-tape :
    (m : ℕ) (tape : Tape) → keeps_or_masks m (characters tape) (map (projected m) tape) ≡ true
unfolding keeps_or_masks
keeps_or_masks-tape m [] = refl
keeps_or_masks-tape m (c ∷ tape) = ground (arith, kept_character m c, keeps_or_masks-tape m tape)

-- A finished stream answers one character for each that was pushed, in their order: the character
-- itself or the mask. Nothing is dropped, added or moved.
pub stream-keeps_or_masks :
    (mask_character : ℕ) (secrets deltas : List Text)
    → keeps_or_masks mask_character (concat deltas) (stream (new mask_character secrets) deltas)
      ≡ true
unfolding keeps_or_masks
stream-keeps_or_masks m secrets deltas =
    let (tape, reads, writes, covered) = whole_stream m secrets deltas in
    rw (← reads, ← writes)
      (keeps_or_masks-reverse m (characters tape) (map (projected m) tape) [] []
        (keeps_or_masks-tape m tape) refl)
