-- ===== src/Redaction/Streaming.antt =====
-- `StreamingTextRedactor` of src/util.rs. Its vector `pending` is kept with its last character first,
-- so that a suffix of it is the beginning of the list.
pub mod Patterns
pub mod Tape
pub mod Covers
pub mod Accepts
pub mod Sound
pub mod Parts
pub mod Hidden
pub mod Chunks
use nowledge.Prelude.{
  ℕ, zero, suc, ◌-◌, min, max, Bool, true, false, ◌&&◌, ◌||◌, not, Option, some, List, [], ◌∷◌,
  ◌++◌, map, ltb, leb, if◌then◌else◌, length, is_whitespace,
}
use mathlib.Core.Option
use nowledge.Redaction.Texts.{
  Text, take, drop, reversed, all, same_chars, starts_with, member, windows, reverse_onto,
  is_credential_left_context_character, is_credential_character, credential_shapes,
  secret_substring_window_chars,
}

pub data StreamingMask : Type 0 where
  none configured credential : StreamingMask

pub record StreamingCharacter : Type 0 where
  pub character : ℕ
  pub mask : StreamingMask

unfoldable pub projected : ℕ → StreamingCharacter → ℕ
unfolding is_whitespace
projected mask_character c = elim c.mask [
  | none ↦ c.character
  | configured ↦ if is_whitespace c.character then c.character else mask_character
  | credential ↦ mask_character
]

pub record StreamingTextRedactor : Type 0 where
  pub literal_patterns : List Text
  pub literal_prefixes : List Text
  pub maximum_literal_pattern_chars : ℕ
  pub pending : List StreamingCharacter
  pub preceding_projected_character : Option ℕ
  pub suppressing_credential : Bool
  pub mask_character : ℕ

-- The patterns of a secret: itself if it is short, else its windows.
unfoldable pub secret_patterns : Text → List Text
unfolding windows
secret_patterns [] = []
secret_patterns (c ∷ cs) =
    if leb (length (c ∷ cs)) secret_substring_window_chars
    then (c ∷ cs) ∷ []
    else windows secret_substring_window_chars (c ∷ cs)

unfoldable pub all_patterns : List Text → List Text
unfolding secret_patterns
all_patterns [] = []
all_patterns (secret ∷ secrets) = secret_patterns secret ++ all_patterns secrets

-- `(1..pattern.len()).map(|end| pattern[..end])`, the longest first.
unfoldable pub prefixes_up_to : ℕ → Text → List Text
unfolding take
prefixes_up_to zero pattern = []
prefixes_up_to (suc n) pattern = take (suc n) pattern ∷ prefixes_up_to n pattern

unfoldable pub all_prefixes : List Text → List Text
unfolding prefixes_up_to
all_prefixes [] = []
all_prefixes (p ∷ ps) = prefixes_up_to (length p - 1) p ++ all_prefixes ps

unfoldable pub longest_length : List Text → ℕ
longest_length [] = 0
longest_length (p ∷ ps) = max (length p) (longest_length ps)

-- `StreamingTextRedactor::new`, given the mask character of the secrets.
unfoldable pub new : ℕ → List Text → StreamingTextRedactor
unfolding all_patterns all_prefixes longest_length
new mask_character known_secrets = record {
  literal_patterns = all_patterns known_secrets;
  literal_prefixes = all_prefixes (all_patterns known_secrets);
  maximum_literal_pattern_chars = longest_length (all_patterns known_secrets);
  pending = [];
  preceding_projected_character = Option.none;
  suppressing_credential = false;
  mask_character = mask_character;
}

-- The characters of the last `n` pending ones, in their order.
unfoldable pub suffix_chars : ℕ → List StreamingCharacter → Text
unfolding take reverse_onto
suffix_chars n pending = reversed (map (λ c. c.character) (take n pending))

unfoldable pub projected_suffix : ℕ → ℕ → List StreamingCharacter → Text
unfolding take reverse_onto projected
projected_suffix mask_character n pending =
    reversed (map (projected mask_character) (take n pending))

-- `mask.max(StreamingMask::Configured)`.
unfoldable pub at_least_configured : StreamingMask → StreamingMask
at_least_configured credential = credential
at_least_configured _ = configured

-- A change of the masks of the last `n` characters.
unfoldable pub mask_suffix :
    (StreamingMask → StreamingMask) → ℕ → List StreamingCharacter → List StreamingCharacter
mask_suffix change zero pending = pending
mask_suffix change (suc n) [] = []
mask_suffix change (suc n) (c ∷ pending) =
    record c { mask = change c.mask } ∷ mask_suffix change n pending

unfoldable pub mask_if_pattern : List Text → ℕ → List StreamingCharacter → List StreamingCharacter
unfolding member suffix_chars mask_suffix at_least_configured
mask_if_pattern patterns n pending =
    if member patterns (suffix_chars n pending)
    then mask_suffix at_least_configured n pending
    else pending

-- `for length in 1..=maximum`: `rounds` of it are left, of which the next has this length.
unfoldable pub mask_lengths :
    List Text → (rounds length : ℕ) → List StreamingCharacter → List StreamingCharacter
unfolding mask_if_pattern
mask_lengths patterns zero n pending = pending
mask_lengths patterns (suc rounds) n pending =
    mask_lengths patterns rounds (suc n) (mask_if_pattern patterns n pending)

unfoldable pub mask_complete_configured_suffixes : StreamingTextRedactor → StreamingTextRedactor
unfolding mask_lengths
mask_complete_configured_suffixes s = record s {
  pending =
      mask_lengths s.literal_patterns (min s.maximum_literal_pattern_chars (length s.pending)) 1
        s.pending;
}

-- The projected character before the last `n` pending ones.
unfoldable pub previous_projected : StreamingTextRedactor → List StreamingCharacter → Option ℕ
unfolding projected
previous_projected s [] = s.preceding_projected_character
previous_projected s (c ∷ older) = some (projected s.mask_character c)

abbrev allows : Option ℕ → Bool
allows Option.none = true
allows (some c) = not (is_credential_left_context_character c)

-- `has_credential_left_boundary(self.pending.len() - n)`.
unfoldable pub has_credential_left_boundary : StreamingTextRedactor → ℕ → Bool
unfolding previous_projected drop is_credential_left_context_character
has_credential_left_boundary s n = allows (previous_projected s (drop n s.pending))

-- The test of the loop of `start_credential_suppression_if_complete`.
unfoldable pub completes_shape : StreamingTextRedactor → Text → ℕ → Bool
unfolding has_credential_left_boundary projected_suffix starts_with all is_credential_character
completes_shape s prefix minimum_chars =
    let candidate = projected_suffix s.mask_character minimum_chars s.pending in
    not (ltb (length s.pending) minimum_chars)
    && (has_credential_left_boundary s minimum_chars
        && (starts_with candidate prefix
            && all is_credential_character (drop (length prefix) candidate)))

unfoldable pub suppress : StreamingTextRedactor → ℕ → StreamingTextRedactor
unfolding mask_suffix
suppress s minimum_chars = record s {
  pending = mask_suffix (λ mask. credential) minimum_chars s.pending;
  suppressing_credential = true;
}

unfoldable pub try_shapes : List (Text × ℕ) → StreamingTextRedactor → StreamingTextRedactor
unfolding completes_shape suppress
try_shapes [] s = s
try_shapes ((prefix, minimum_chars) ∷ shapes) s =
    if completes_shape s prefix minimum_chars then suppress s minimum_chars else try_shapes shapes s

unfoldable pub start_credential_suppression_if_complete :
    StreamingTextRedactor → StreamingTextRedactor
unfolding try_shapes
start_credential_suppression_if_complete s = try_shapes credential_shapes s

-- `(1..=maximum).rev().find(test).unwrap_or(0)`.
unfoldable pub longest : (ℕ → Bool) → ℕ → ℕ
longest test zero = 0
longest test (suc n) = if test (suc n) then suc n else longest test n

-- Whether the last `n` characters can grow into a value of the shape.
unfoldable pub may_grow : StreamingTextRedactor → Text → ℕ → Bool
unfolding has_credential_left_boundary projected_suffix same_chars all is_credential_character
may_grow s prefix n =
    let candidate = projected_suffix s.mask_character n s.pending in
    has_credential_left_boundary s n && same_chars candidate (take n prefix)
    || has_credential_left_boundary s n
      && (leb (length prefix) n
          && (same_chars (take (length prefix) candidate) prefix
              && all is_credential_character (drop (length prefix) candidate)))

unfoldable pub longest_credential_suffix : StreamingTextRedactor → List (Text × ℕ) → ℕ
unfolding longest may_grow
longest_credential_suffix s [] = 0
longest_credential_suffix s ((prefix, minimum_chars) ∷ shapes) =
    max (longest (may_grow s prefix) (min (minimum_chars - 1) (length s.pending)))
      (longest_credential_suffix s shapes)

unfoldable pub longest_configured_suffix : StreamingTextRedactor → ℕ
unfolding longest member suffix_chars
longest_configured_suffix s =
    longest (λ n. member s.literal_prefixes (suffix_chars n s.pending))
      (min (s.maximum_literal_pattern_chars - 1) (length s.pending))

unfoldable pub longest_sensitive_suffix : StreamingTextRedactor → ℕ
unfolding longest_configured_suffix longest_credential_suffix
longest_sensitive_suffix s =
    max (longest_configured_suffix s) (longest_credential_suffix s credential_shapes)

-- The last character that is emitted, or the one before.
unfoldable pub last_projected : ℕ → Option ℕ → List StreamingCharacter → Option ℕ
unfolding projected
last_projected mask_character before [] = before
last_projected mask_character before (c ∷ older) = some (projected mask_character c)

-- `emit_prefix`, of all pending characters but the last `retained`.
unfoldable pub emit_all_but : ℕ → StreamingTextRedactor → StreamingTextRedactor × Text
unfolding take drop last_projected projected reverse_onto
emit_all_but retained s =
    let emitted = drop retained s.pending in
    (
      record s {
        pending = take retained s.pending;
        preceding_projected_character =
            last_projected s.mask_character s.preceding_projected_character emitted;
      },
      reversed (map (projected s.mask_character) emitted),
    )

-- What `push` does to a character before it emits.
unfoldable pub accept : StreamingTextRedactor → ℕ → StreamingTextRedactor
accept s character =
    if s.suppressing_credential && is_credential_character character
    then record s { pending = record { character = character; mask = credential } ∷ s.pending }
    else start_credential_suppression_if_complete (
        mask_complete_configured_suffixes record s {
          suppressing_credential = false;
          pending = record { character = character; mask = none } ∷ s.pending;
        })

unfoldable pub push_character : StreamingTextRedactor → ℕ → StreamingTextRedactor × Text
unfolding accept longest_sensitive_suffix emit_all_but
push_character s character =
    let accepted = accept s character in emit_all_but (longest_sensitive_suffix accepted) accepted

unfoldable pub push : StreamingTextRedactor → Text → StreamingTextRedactor × Text
unfolding push_character
push s [] = (s, [])
push s (c ∷ delta) =
    let (s', out) = push_character s c in let (s'', rest) = push s' delta in (s'', out ++ rest)

unfoldable pub finish : StreamingTextRedactor → Text
unfolding emit_all_but
finish s = (emit_all_but 0 s).1

unfoldable pub abort : StreamingTextRedactor → StreamingTextRedactor
abort s = record s { pending = [] }

-- A whole stream: every delta is pushed, and the stream is finished.
unfoldable pub stream : StreamingTextRedactor → List Text → Text
unfolding push finish
stream s [] = finish s
stream s (delta ∷ deltas) = let (s', out) = push s delta in out ++ stream s' deltas
