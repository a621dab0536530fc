-- ===== src/Redaction/Streaming/Hidden.antt =====
-- What a whole stream answers, against the text that was pushed.
use nowledge.Prelude.{
  ℕ, zero, suc, ◌≤◌, Bool, true, false, ◌&&◌, ◌||◌, ◌≡◌, refl, sym, ap, ap₂, ◌∙◌, List, [], ◌∷◌,
  ◌++◌, map, length, arith, ◌==◌, subst, is_whitespace,
}
use mathlib.Core.List.{map-append, append_assoc, append-nil}
use nowledge.Redaction.Texts.{Text, take, drop, reverse_onto, reversed, all, member}
use nowledge.Redaction.Lists.{
  length-map, reversed-append, reversed-cons, reversed-reversed, length-reversed,
}
use nowledge.Redaction.Streaming.{
  StreamingCharacter, StreamingTextRedactor, projected, all_patterns, new, push_character, push,
  finish, stream, emit_all_but,
}
use nowledge.Redaction.Streaming.Patterns.{all_patterns-IsPatternSet}
use nowledge.Redaction.Streaming.Tape.{Tape, is_masked, characters, Ends, IsCovered}
use nowledge.Redaction.Streaming.Parts.{
  read_before, pattern-Ends, pattern_characters, older_length, projected_parts,
}
use nowledge.Redaction.Streaming.Accepts.{IsSound}
use nowledge.Redaction.Streaming.Sound.{
  after_emitted, push_character-IsSound, push_character-reads, push_character-out,
}

abbrev pub concat : List Text → Text
concat [] = []
concat (t ∷ ts) = t ++ concat ts

-- A redactor that has read `input` and answered `out`, with what it emitted.
pub record IsRun (m : ℕ) (patterns : List Text) (s : StreamingTextRedactor) (emitted : Tape)
    (input out : Text) : Type 0 where
  pub sound : IsSound s emitted
  pub mask_same : s.mask_character ≡ m
  pub patterns_same : s.literal_patterns ≡ patterns
  pub read : reversed (characters (s.pending ++ emitted)) ≡ input
  pub wrote : reversed (map (projected m) emitted) ≡ out

new-IsRun : (m : ℕ) (secrets : List Text) → IsRun m (all_patterns secrets) (new m secrets) [] [] []
unfolding new reverse_onto
new-IsRun m secrets = record {
  sound = record {
    set = all_patterns-IsPatternSet secrets;
    covered = tt;
    held = λ q inside ends. ends.0;
    suppressed = refl;
  };
  mask_same = refl;
  patterns_same = refl;
  read = refl;
  wrote = refl;
}

module _ (m : ℕ) (patterns : List Text) where
  push_character-IsRun :
      (s : StreamingTextRedactor) (emitted : Tape) (input out : Text) (c : ℕ)
      → (run : IsRun m patterns s emitted input out)
      → IsRun m patterns
          (push_character s c).0
          (after_emitted s emitted run.sound c)
          (input ++ c ∷ [])
          (out ++ (push_character s c).1)
  push_character-IsRun s emitted input out c run =
      let reads = push_character-reads s emitted run.sound c in
      record {
        sound = push_character-IsSound s emitted run.sound c;
        mask_same = reads.1 ∙ run.mask_same;
        patterns_same = reads.2 ∙ run.patterns_same;
        read =
            ap reversed reads.0
            ∙ reversed-cons c (characters (s.pending ++ emitted))
            ∙ ap (λ t. t ++ c ∷ []) run.read;
        wrote =
            push_character-out s emitted run.sound c m run.mask_same
            ∙ ap (λ t. t ++ (push_character s c).1) run.wrote;
      }

  push-IsRun :
      (delta : Text) (s : StreamingTextRedactor) (emitted : Tape) (input out : Text)
      → IsRun m patterns s emitted input out
      → (emitted' : Tape) × IsRun m patterns
          (push s delta).0
          emitted'
          (input ++ delta)
          (out ++ (push s delta).1)
  unfolding push
  push-IsRun [] s emitted input out run = (emitted, rw (append-nil input, append-nil out) run)
  push-IsRun (c ∷ delta) s emitted input out run =
      let next = push_character-IsRun s emitted input out c run in
      let rest =
        push-IsRun delta (push_character s c).0 (after_emitted s emitted run.sound c)
          (input ++ c ∷ []) (out ++ (push_character s c).1) next in
      (
        rest.0,
        rw
            (
              ← append_assoc input (c ∷ []) delta,
              ← append_assoc out (push_character s c).1 (push (push_character s c).0 delta).1,
            )
            rest.1,
      )

  -- The answers of a whole stream are the projection of one covered tape.
  abbrev pub Projection : Text → Text → Type 0
  Projection input out =
      (tape : Tape) × (reversed (characters tape) ≡ input)
      × (reversed (map (projected m) tape) ≡ out)
      × IsCovered patterns tape

  finish-Projection :
      (s : StreamingTextRedactor) (emitted : Tape) (input out : Text)
      → IsRun m patterns s emitted input out
      → Projection input (out ++ finish s)
  unfolding finish emit_all_but drop
  finish-Projection s emitted input out run = (
    s.pending ++ emitted,
    run.read,
    ap reversed (map-append (projected m) s.pending emitted)
        ∙ reversed-append (map (projected m) s.pending) (map (projected m) emitted)
        ∙ ap₂ (λ t k. t ++ reversed (map (projected k) s.pending)) run.wrote (sym run.mask_same),
    subst (λ ps. IsCovered ps (s.pending ++ emitted)) run.patterns_same run.sound.covered,
  )

  stream-Projection :
      (deltas : List Text) (s : StreamingTextRedactor) (emitted : Tape) (input out : Text)
      → IsRun m patterns s emitted input out
      → Projection (input ++ concat deltas) (out ++ stream s deltas)
  unfolding stream
  stream-Projection [] s emitted input out run =
      rw (append-nil input) (finish-Projection s emitted input out run)
  stream-Projection (delta ∷ deltas) s emitted input out run =
      let pushed = push-IsRun delta s emitted input out run in
      rw
        (
          ← append_assoc input delta (concat deltas),
          ← append_assoc out (push s delta).1 (stream (push s delta).0 deltas),
        )
        (stream-Projection deltas (push s delta).0 pushed.0 (input ++ delta)
          (out ++ (push s delta).1) pushed.1)

-- The whole of a stream from the start.
pub whole_stream :
    (m : ℕ) (secrets deltas : List Text)
    → Projection m (all_patterns secrets) (concat deltas) (stream (new m secrets) deltas)
whole_stream m secrets deltas =
    stream-Projection m (all_patterns secrets) deltas (new m secrets) [] [] [] (new-IsRun m secrets)

-- Character by character, the text is the mask, except that white space may stand.
unfoldable pub is_hidden : ℕ → Text → Text → Bool
unfolding is_whitespace
is_hidden m [] [] = true
is_hidden m (c ∷ cs) (o ∷ os) = (o == m || is_whitespace c && o == c) && is_hidden m cs os
is_hidden m _ _ = false

is_hidden-reverse :
    (m : ℕ) (cs os ds us : Text)
    → is_hidden m cs os ≡ true
    → is_hidden m ds us ≡ true
    → is_hidden m (reverse_onto cs ds) (reverse_onto os us) ≡ true
unfolding is_hidden reverse_onto
is_hidden-reverse m [] [] ds us h k = k
is_hidden-reverse m [] (o ∷ os) ds us h k = absurd (cc)
is_hidden-reverse m (c ∷ cs) [] ds us h k = absurd (cc)
is_hidden-reverse m (c ∷ cs) (o ∷ os) ds us h k =
    is_hidden-reverse m cs os (c ∷ ds) (o ∷ us) (ground arith) (ground arith)

hidden_character :
    (m : ℕ) (c : StreamingCharacter)
    → is_masked c ≡ true
    → (projected m c == m || is_whitespace c.character && projected m c == c.character) ≡ true
unfolding projected
hidden_character m c h = ground arith

masked-is_hidden :
    (m : ℕ) (tape : Tape)
    → all is_masked tape ≡ true
    → is_hidden m (characters tape) (map (projected m) tape) ≡ true
unfolding is_hidden all
masked-is_hidden m [] h = refl
masked-is_hidden m (c ∷ tape) h = ground (arith, hidden_character m c, masked-is_hidden m tape)

IsCovered-drop :
    (patterns : List Text) (n : ℕ) (tape : Tape)
    → IsCovered patterns tape
    → IsCovered patterns (drop n tape)
unfolding drop
IsCovered-drop patterns zero tape h = h
IsCovered-drop patterns (suc n) [] h = h
IsCovered-drop patterns (suc n) (c ∷ tape) h = IsCovered-drop patterns n tape h.1

covered_head :
    (patterns : List Text) (p : Text) (tape : Tape)
    → IsCovered patterns tape
    → 1 ≤ length p
    → member patterns p ≡ true
    → Ends p (characters tape)
    → all is_masked (take (length p) tape) ≡ true
covered_head patterns p [] h size inside ends = absurd (omega (arith, ends.0))
covered_head patterns p (c ∷ tape) h size inside ends = h.0 p inside ends

-- However the provider's text is cut into deltas, every configured pattern in it (a secret of at most
-- eight characters, or eight characters in a row of a longer one) is hidden in what the stream
-- answers: the answer is the text before it, as long as what was pushed before, then the mask for
-- each character of the pattern, where only white space may stand, then the rest.
pub stream_hides_patterns :
    (mask_character : ℕ) (secrets deltas : List Text) (a p b : Text)
    → member (all_patterns secrets) p ≡ true
    → concat deltas ≡ a ++ (p ++ b)
    → (before : Text) × ((hidden : Text) × ((after : Text) × (stream
              (new mask_character secrets)
              deltas
            ≡ before ++ (hidden ++ after))
          × (length before ≡ length a)
          × (is_hidden mask_character p hidden ≡ true)))
unfolding is_hidden
stream_hides_patterns m secrets deltas a p b inside split =
    let (tape, reads, writes, covered) = whole_stream m secrets deltas in
    let found = reads ∙ split in
    let set = all_patterns-IsPatternSet secrets in
    let middle = take (length p) (read_before tape a p b found) in
    let masked =
      covered_head (all_patterns secrets) p (read_before tape a p b found)
        (IsCovered-drop (all_patterns secrets) (length b) tape covered)
        (set.pattern_size p inside).0 inside (pattern-Ends tape a p b found) in
    (
      reversed (map (projected m) (drop (length p) (read_before tape a p b found))),
      (
        reversed (map (projected m) middle),
        (
          reversed (map (projected m) (take (length b) tape)),
          sym writes ∙ projected_parts tape a p b found m,
          length-reversed (map (projected m) (drop (length p) (read_before tape a p b found)))
              ∙ length-map (projected m) (drop (length p) (read_before tape a p b found))
              ∙ older_length tape a p b found,
          subst (λ t. is_hidden m t (reversed (map (projected m) middle)) ≡ true)
              (ap reversed (pattern_characters tape a p b found) ∙ reversed-reversed p)
              (is_hidden-reverse m (characters middle) (map (projected m) middle) [] []
                (masked-is_hidden m middle masked) refl),
        ),
      ),
    )
