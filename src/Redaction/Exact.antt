-- ===== src/Redaction/Exact.antt =====
-- The exact replacements of `SecretMatcher` in src/util.rs: configured secrets and credential-shaped
-- values.
use nowledge.Prelude.{
  ℕ, zero, suc, ◌+◌, ◌-◌, Bool, true, false, ◌&&◌, ◌||◌, not, Option, none, some, List, [], ◌∷◌,
  ◌++◌, map, leb, if◌then◌else◌, length, is_whitespace,
}
use nowledge.Redaction.Texts.{
  Text, drop, starts_with, member, is_credential_left_context_character, is_credential_character,
  credential_shapes,
}
use nowledge.Redaction.Secrets.{SecretMatcher, redaction_marker_text, contains, replicate}

unfoldable pub contains_any : List Text → Text → Bool
unfolding contains
contains_any [] input = false
contains_any (secret ∷ secrets) input = contains input secret || contains_any secrets input

unfoldable pub contains_configured_secret : SecretMatcher → Text → Bool
unfolding contains_any
contains_configured_secret matcher input = contains_any matcher.ordered input

-- The first secret that the text starts with.
unfoldable pub matched_secret : List Text → Text → Option Text
unfolding starts_with
matched_secret [] text = none
matched_secret (secret ∷ secrets) text =
    if starts_with text secret then some secret else matched_secret secrets text

unfoldable pub starts_with_any : List Text → Text → Bool
unfolding starts_with
starts_with_any [] text = false
starts_with_any (part ∷ parts) text = starts_with text part || starts_with_any parts text

-- `can_preserve_marker_at`, on the text from the offset on.
unfoldable pub can_preserve_marker : SecretMatcher → Text → Bool
unfolding starts_with starts_with_any drop
can_preserve_marker matcher text =
    matcher.protect_redaction_marker
    && (starts_with text redaction_marker_text
        && not (
            starts_with_any matcher.marker_crossing_suffixes
              (drop (length redaction_marker_text) text)))

-- What a pass does at an offset.
pub data Found : Type 0 where
  marker : Found
  secret : Text → Found
  plain : Found

unfoldable pub found_at : SecretMatcher → Text → Found
unfolding can_preserve_marker matched_secret
found_at matcher text =
    if can_preserve_marker matcher text
    then marker
    else elim (matched_secret matcher.ordered text) [ none ↦ plain | some s ↦ secret s ]

-- The loop over the offsets: so many characters are passed over before the next offset.
unfoldable pub replace_secrets : SecretMatcher → (Text → Text) → (passed : ℕ) → Text → Text
unfolding found_at
replace_secrets matcher replacement passed [] = []
replace_secrets matcher replacement (suc passed) (c ∷ text) =
    replace_secrets matcher replacement passed text
replace_secrets matcher replacement zero (c ∷ text) = elim (found_at matcher (c ∷ text)) [
  | marker ↦
      redaction_marker_text
      ++ replace_secrets matcher replacement (length redaction_marker_text - 1) text
  | secret s ↦ replacement s ++ replace_secrets matcher replacement (length s - 1) text
  | plain ↦ c ∷ replace_secrets matcher replacement 0 text
]

unfoldable pub redact_configured_exact_once : SecretMatcher → Text → Text
unfolding replace_secrets member
redact_configured_exact_once matcher input =
    if member matcher.short_exact input
    then matcher.redaction_marker
    else replace_secrets matcher (λ s. matcher.redaction_marker) 0 input

-- `for _ in 0..rounds`, and the empty text once they are used up.
unfoldable pub redact_rounds : SecretMatcher → (rounds : ℕ) → Text → Text
unfolding redact_configured_exact_once contains_configured_secret
redact_rounds matcher zero current = []
redact_rounds matcher (suc rounds) current =
    let redacted = redact_configured_exact_once matcher current in
    let again = redact_rounds matcher rounds redacted in
    if contains_configured_secret matcher redacted then again else redacted

unfoldable pub redact_configured_exact : SecretMatcher → Text → Text
unfolding redact_rounds
redact_configured_exact matcher input = redact_rounds matcher 64 input

unfoldable pub redact_locator : SecretMatcher → Text → Text
unfolding redact_configured_exact
redact_locator matcher input = redact_configured_exact matcher input

abbrev pub allows_left : Option ℕ → Bool
allows_left none = true
allows_left (some c) = not (is_credential_left_context_character c)

-- The characters of the value that follows, up to the first that is none of a credential.
unfoldable pub value_length : Text → ℕ
unfolding is_credential_character
value_length [] = 0
value_length (c ∷ text) = if is_credential_character c then suc (value_length text) else 0

abbrev pub last_or : Option ℕ → Text → Option ℕ
last_or before [] = before
last_or before (c ∷ text) = last_or (some c) text

-- The loops of `redact_credential_shaped_value` and `mask_credential_shaped_value`, which differ in
-- the replacement of a value of so many characters. `kept` characters are copied and then `cut` ones
-- left out before the search goes on; `before` is the character in front.
unfoldable pub replace_shaped :
    Text → ℕ → (ℕ → Text) → (before : Option ℕ) → (kept cut : ℕ) → Text → Text
unfolding starts_with value_length drop is_credential_left_context_character
replace_shaped prefix minimum_chars replacement before kept cut [] = []
replace_shaped prefix minimum_chars replacement before (suc kept) cut (c ∷ text) =
    c ∷ replace_shaped prefix minimum_chars replacement (some c) kept cut text
replace_shaped prefix minimum_chars replacement before zero (suc cut) (c ∷ text) =
    replace_shaped prefix minimum_chars replacement before zero cut text
replace_shaped prefix minimum_chars replacement before zero zero (c ∷ text) =
    let size = length prefix + value_length (drop (length prefix) (c ∷ text)) in
    let copied = c ∷ replace_shaped prefix minimum_chars replacement (some c) 0 0 text in
    let skipped =
      c ∷ replace_shaped prefix minimum_chars replacement (some c) (length prefix - 1) 0 text in
    let replaced =
      replacement size
      ++ replace_shaped prefix minimum_chars replacement (last_or before (replacement size)) 0
          (size - 1) text in
    if not (starts_with (c ∷ text) prefix)
    then copied
    else if not (allows_left before)
    then skipped
    else if leb minimum_chars size
    then replaced
    else skipped

-- `for (prefix, minimum_chars) in credential_shapes()`.
unfoldable pub replace_shapes : (ℕ → Text) → List (Text × ℕ) → Text → Text
unfolding replace_shaped
replace_shapes replacement [] text = text
replace_shapes replacement ((prefix, minimum_chars) ∷ shapes) text =
    replace_shapes replacement shapes
      (replace_shaped prefix minimum_chars replacement none 0 0 text)

unfoldable pub redact_exact : SecretMatcher → Text → Text
unfolding redact_configured_exact replace_shapes
redact_exact matcher input = redact_configured_exact matcher (
    replace_shapes (λ n. matcher.redaction_marker) credential_shapes
      (redact_configured_exact matcher input))

-- White space stands, all else is masked.
unfoldable pub mask_text : ℕ → Text → Text
unfolding is_whitespace
mask_text m text = map (λ c. if is_whitespace c then c else m) text

unfoldable pub mask_exact : SecretMatcher → Text → Text
unfolding mask_text replace_secrets replace_shapes replicate member
mask_exact matcher input =
    if member matcher.short_exact input
    then mask_text matcher.mask_character input
    else replace_shapes (λ n. replicate n matcher.mask_character) credential_shapes
        (replace_secrets matcher (mask_text matcher.mask_character) 0 input)
