-- ===== src/Redaction/Masks.antt =====
-- The projections of `SecretMatcher` in src/util.rs that keep the number of characters.
use nowledge.Prelude.{
  ℕ, zero, suc, ◌-◌, min, max, Bool, true, false, ◌&&◌, ◌||◌, not, List, [], ◌∷◌, ltb, leb,
  if◌then◌else◌, length, is_whitespace,
}
use nowledge.Redaction.Texts.{
  Text, codes, take, drop, reverse_onto, reversed, same_chars, starts_with, member,
  secret_substring_window_chars,
}
use nowledge.Redaction.Secrets.{SecretMatcher, redaction_marker_text, contains}
use nowledge.Redaction.Exact.{redact_configured_exact, redact_locator, redact_exact, mask_exact}
use nowledge.Redaction.Overlaps.{prefix_table, longest_suffix_matching_prefix}

abbrev pub response_secret_fragment_chars : ℕ
response_secret_fragment_chars = 8

-- `redaction_marker_spans`: whether each character lies in a marker. `inside` characters from here on
-- lie in one that has begun.
unfoldable pub marker_spans : (inside : ℕ) → Text → List Bool
unfolding starts_with
marker_spans inside [] = []
marker_spans inside (c ∷ text) =
    let here =
      if starts_with (c ∷ text) redaction_marker_text
      then max inside (length redaction_marker_text)
      else inside in
    ltb 0 here ∷ marker_spans (here - 1) text

unfoldable pub unprotected : Text → List Bool
unprotected [] = []
unprotected (c ∷ text) = false ∷ unprotected text

unfoldable pub redaction_marker_spans : Text → Bool → List Bool
unfolding marker_spans unprotected
redaction_marker_spans text protect_marker =
    if protect_marker then marker_spans 0 text else unprotected text

-- A character under a test on its place is masked, unless it is protected or white space.
unfoldable pub mask_where : ℕ → (ℕ → Bool) → (index : ℕ) → List Bool → Text → Text
unfolding is_whitespace
mask_where m chosen index protected [] = []
mask_where m chosen index [] (c ∷ text) =
    (if chosen index && not (is_whitespace c) then m else c)
    ∷ mask_where m chosen (suc index) [] text
mask_where m chosen index (p ∷ protected) (c ∷ text) =
    (if chosen index && (not p && not (is_whitespace c)) then m else c)
    ∷ mask_where m chosen (suc index) protected text

-- `input_len - 3` for a text that ends with an ellipsis.
unfoldable pub suffix_boundary : Text → ℕ
unfolding starts_with reverse_onto
suffix_boundary input =
    if starts_with (reversed input) (codes "...") then length input - 3 else length input

-- The overlaps of one pattern with the beginning and the end of the text, where they are long enough.
unfoldable pub suffix_overlap : ℕ → Text → Text → ℕ
unfolding suffix_boundary longest_suffix_matching_prefix take drop prefix_table
suffix_overlap minimum_fragment_chars input pattern =
    let max_overlap = length pattern - 1 in
    let boundary = suffix_boundary input in
    let start = boundary - max_overlap in
    let overlap =
      longest_suffix_matching_prefix pattern (prefix_table pattern)
        (take (boundary - start) (drop start input)) in
    if ltb max_overlap minimum_fragment_chars || ltb overlap minimum_fragment_chars
    then 0
    else overlap

unfoldable pub prefix_overlap : ℕ → Text → Text → ℕ
unfolding longest_suffix_matching_prefix take reverse_onto prefix_table
prefix_overlap minimum_fragment_chars input pattern =
    let max_overlap = length pattern - 1 in
    let reverse = reversed pattern in
    let overlap =
      longest_suffix_matching_prefix reverse (prefix_table reverse)
        (reversed (take (min (length input) max_overlap) input)) in
    if ltb max_overlap minimum_fragment_chars || ltb overlap minimum_fragment_chars
    then 0
    else overlap

-- `for pattern in &self.boundary_patterns`, with the greatest overlap.
unfoldable pub greatest : (Text → ℕ) → List Text → ℕ
greatest overlap [] = 0
greatest overlap (pattern ∷ patterns) = max (overlap pattern) (greatest overlap patterns)

unfoldable pub mask_boundaries : SecretMatcher → Text → ℕ → Text
unfolding greatest suffix_overlap prefix_overlap suffix_boundary mask_where redaction_marker_spans
mask_boundaries matcher input minimum_fragment_chars =
    let boundary = suffix_boundary input in
    let prefix_chars_to_mask =
      greatest (prefix_overlap minimum_fragment_chars input) matcher.ordered in
    let suffix_chars_to_mask =
      greatest (suffix_overlap minimum_fragment_chars input) matcher.ordered in
    mask_where matcher.mask_character
      (λ index.
        ltb index prefix_chars_to_mask
        || leb (boundary - suffix_chars_to_mask) index && ltb index boundary)
      0 (redaction_marker_spans input matcher.protect_redaction_marker) input

-- `str::trim`.
unfoldable pub trim_start : Text → Text
unfolding is_whitespace
trim_start [] = []
trim_start (c ∷ text) = if is_whitespace c then trim_start text else c ∷ text

unfoldable pub trim : Text → Text
unfolding trim_start reverse_onto
trim text = reversed (trim_start (reversed (trim_start text)))

unfoldable pub any_contains : List Text → Text → Bool
unfolding contains
any_contains [] part = false
any_contains (secret ∷ secrets) part = contains secret part || any_contains secrets part

unfoldable pub mask_if_whole_secret_substring : SecretMatcher → Text → ℕ → Text
unfolding trim any_contains mask_where redaction_marker_spans same_chars
mask_if_whole_secret_substring matcher input minimum_chars =
    let trimmed = trim input in
    if ltb (length trimmed) minimum_chars
      || (matcher.protect_redaction_marker && same_chars trimmed redaction_marker_text
          || not (any_contains matcher.ordered trimmed))
    then input
    else mask_where matcher.mask_character (λ index. true) 0
        (redaction_marker_spans input matcher.protect_redaction_marker) input

-- Whether some of the first flags are set.
unfoldable pub any_first : ℕ → List Bool → Bool
any_first zero flags = false
any_first (suc n) [] = false
any_first (suc n) (flag ∷ flags) = flag || any_first n flags

-- The vector `masked`: a window that is one of a secret's, and that no marker touches, masks its
-- characters. `inside` characters from here on lie in one that has begun.
unfoldable pub window_flags : SecretMatcher → (inside : ℕ) → List Bool → Text → List Bool
unfolding member take any_first
window_flags matcher inside protected [] = []
window_flags matcher inside protected (c ∷ text) =
    let size = secret_substring_window_chars in
    let here =
      if leb size (length (c ∷ text))
        && (member matcher.substring_windows (take size (c ∷ text))
            && not (any_first size protected))
      then size
      else inside in
    ltb 0 here ∷ window_flags matcher (here - 1) (drop 1 protected) text

-- A flagged character is masked, unless it is white space.
unfoldable pub mask_flagged : ℕ → List Bool → Text → Text
unfolding is_whitespace
mask_flagged m flags [] = []
mask_flagged m [] (c ∷ text) = c ∷ text
mask_flagged m (flag ∷ flags) (c ∷ text) =
    (if flag && not (is_whitespace c) then m else c) ∷ mask_flagged m flags text

abbrev no_windows : List Text → Bool
no_windows [] = true
no_windows (w ∷ ws) = false

unfoldable pub mask_secret_substring_windows : SecretMatcher → Text → Text
unfolding window_flags mask_flagged redaction_marker_spans drop
mask_secret_substring_windows matcher input =
    if no_windows matcher.substring_windows || ltb (length input) secret_substring_window_chars
    then input
    else mask_flagged matcher.mask_character
        (window_flags matcher 0 (redaction_marker_spans input matcher.protect_redaction_marker)
          input)
        input

-- The steps that follow the exact ones, with the least length of a fragment.
unfoldable pub mask_fragments : SecretMatcher → ℕ → Text → Text
unfolding mask_boundaries mask_if_whole_secret_substring mask_secret_substring_windows
mask_fragments matcher minimum_chars exact = mask_secret_substring_windows matcher (
    mask_if_whole_secret_substring matcher (mask_boundaries matcher exact minimum_chars)
      minimum_chars)

unfoldable pub redact_egress_text : SecretMatcher → Text → Text
unfolding mask_fragments redact_exact
redact_egress_text matcher input =
    mask_fragments matcher response_secret_fragment_chars (redact_exact matcher input)

pub data ResponseTextPolicy : Type 0 where
  configured_exact_only locator exact_only windowed fragment : ResponseTextPolicy

unfoldable pub redact_response_string : SecretMatcher → Text → ResponseTextPolicy → Text
unfolding redact_configured_exact redact_locator redact_exact mask_fragments
    mask_secret_substring_windows
redact_response_string matcher input configured_exact_only = redact_configured_exact matcher input
redact_response_string matcher input locator = redact_locator matcher input
redact_response_string matcher input exact_only = redact_exact matcher input
redact_response_string matcher input windowed =
    mask_secret_substring_windows matcher (redact_exact matcher input)
redact_response_string matcher input fragment =
    mask_fragments matcher response_secret_fragment_chars (redact_exact matcher input)

unfoldable pub mask_egress_projection : SecretMatcher → Text → Text
unfolding mask_fragments mask_exact
mask_egress_projection matcher input =
    mask_fragments matcher response_secret_fragment_chars (mask_exact matcher input)

unfoldable pub mask_fragment_projection : SecretMatcher → Text → Text
unfolding mask_fragments mask_exact
mask_fragment_projection matcher input = mask_fragments matcher 4 (mask_exact matcher input)
