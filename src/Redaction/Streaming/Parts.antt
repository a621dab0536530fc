-- ===== src/Redaction/Streaming/Parts.antt =====
-- A tape cut where a text begins and ends in what was read.
use nowledge.Prelude.{ℕ, ◌≡◌, sym, ap, ap₂, ◌∙◌, ◌++◌, map, length, arith}
use mathlib.Core.List.{map-append, append_assoc}
use nowledge.Redaction.Texts.{Text, take, drop, reversed}
use nowledge.Redaction.Lists.{
  length-append, take-length-append, drop-length-append, take-append-drop, length-map,
  reversed-append, reversed-reversed, length-reversed, map-take, map-drop,
}
use nowledge.Redaction.Streaming.{StreamingCharacter, projected}
use nowledge.Redaction.Streaming.Tape.{Tape, characters, Ends}

reversed-split :
    (f : StreamingCharacter → ℕ) (n : ℕ) (tape : Tape)
    → reversed (map f tape) ≡ reversed (map f (drop n tape)) ++ reversed (map f (take n tape))
reversed-split f n tape =
    ap (λ t. reversed (map f t)) (sym (take-append-drop n tape))
    ∙ ap reversed (map-append f (take n tape) (drop n tape))
    ∙ reversed-append (map f (take n tape)) (map f (drop n tape))

-- A tape that reads `a`, then `p`, then `b`: its parts, the last first.
module _ (tape : Tape) (a p b : Text) (reads : reversed (characters tape) ≡ a ++ (p ++ b)) where
  abbrev pub read_before : Tape
  read_before = drop (length b) tape

  pub tape_characters : characters tape ≡ reversed b ++ (reversed p ++ reversed a)
  tape_characters =
      sym (reversed-reversed (characters tape))
      ∙ ap reversed reads
      ∙ reversed-append a (p ++ b)
      ∙ ap (λ t. t ++ reversed a) (reversed-append p b)
      ∙ append_assoc (reversed b) (reversed p) (reversed a)

  pub before_characters : characters read_before ≡ reversed p ++ reversed a
  before_characters =
      map-drop (λ (c : StreamingCharacter). c.character) (length b) tape
      ∙ ap₂ drop (sym (length-reversed b)) tape_characters
      ∙ drop-length-append (reversed b) (reversed p ++ reversed a)

  pub take-reversed : take (length p) (reversed p ++ reversed a) ≡ reversed p
  take-reversed =
      ap (λ n. take n (reversed p ++ reversed a)) (sym (length-reversed p))
      ∙ take-length-append (reversed p) (reversed a)

  pub pattern-Ends : Ends p (characters read_before)
  pattern-Ends = (
    rw before_characters
        (omega (arith, length-append (reversed p) (reversed a), length-reversed p)),
    rw before_characters (ap reversed take-reversed ∙ reversed-reversed p),
  )

  pub pattern_characters : characters (take (length p) read_before) ≡ reversed p
  pattern_characters =
      map-take (λ (c : StreamingCharacter). c.character) (length p) read_before
      ∙ ap (take (length p)) before_characters
      ∙ take-reversed

  pub older_length : length (drop (length p) read_before) ≡ length a
  older_length =
      sym (length-map (λ (c : StreamingCharacter). c.character) (drop (length p) read_before))
      ∙ ap length (
          map-drop (λ (c : StreamingCharacter). c.character) (length p) read_before
          ∙ ap₂ drop (sym (length-reversed p)) before_characters
          ∙ drop-length-append (reversed p) (reversed a))
      ∙ length-reversed a

  pub projected_parts :
      (m : ℕ)
      → reversed (map (projected m) tape)
        ≡ reversed (map (projected m) (drop (length p) read_before))
          ++ (reversed (map (projected m) (take (length p) read_before))
              ++ reversed (map (projected m) (take (length b) tape)))
  projected_parts m =
      reversed-split (projected m) (length b) tape
      ∙ ap (λ t. t ++ reversed (map (projected m) (take (length b) tape)))
          (reversed-split (projected m) (length p) read_before)
      ∙ append_assoc (reversed (map (projected m) (drop (length p) read_before)))
          (reversed (map (projected m) (take (length p) read_before)))
          (reversed (map (projected m) (take (length b) tape)))
