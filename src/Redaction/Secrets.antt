-- ===== src/Redaction/Secrets.antt =====
-- `SecretMatcher::new` of src/util.rs: what is derived from the configured secrets.
use nowledge.Prelude.{
  ℕ, zero, suc, ◌+◌, ◌-◌, min, Bool, true, false, ◌&&◌, ◌||◌, not, Option, none, some, List, [],
  ◌∷◌, ◌++◌, ltb, leb, ◌==◌, if◌then◌else◌, length,
}
use nowledge.Redaction.Texts.{
  Text, codes, drop, same_chars, starts_with, windows, min_redactable_secret_chars,
  secret_substring_window_chars,
}

abbrev pub redaction_marker_text : Text
redaction_marker_text = codes "[REDACTED]"

-- `text.contains(part)`.
unfoldable pub contains : Text → Text → Bool
unfolding starts_with
contains [] part = starts_with [] part
contains (c ∷ text) part = starts_with (c ∷ text) part || contains text part

unfoldable pub has_char : Text → ℕ → Bool
has_char [] c = false
has_char (d ∷ text) c = d == c || has_char text c

unfoldable pub used_in : List Text → ℕ → Bool
unfolding has_char
used_in [] c = false
used_in (secret ∷ secrets) c = has_char secret c || used_in secrets c

unfoldable pub first_unused : List Text → List ℕ → Option ℕ
unfolding used_in
first_unused secrets [] = none
first_unused secrets (c ∷ cs) = if used_in secrets c then first_unused secrets cs else some c

-- `count` code points from `c` on, `char::from_u32` skipping the surrogates.
unfoldable pub first_unused_from : List Text → (count c : ℕ) → Option ℕ
unfolding used_in
first_unused_from secrets zero c = none
first_unused_from secrets (suc count) c =
    let rest = first_unused_from secrets count (suc c) in
    if used_in secrets c || leb 0xd800 c && leb c 0xdfff then rest else some c

abbrev pub or_else : Option ℕ → Option ℕ → Option ℕ
or_else none other = other
or_else (some c) other = some c

-- `None` is the panic of `expect`.
unfoldable pub collision_free_mask_character : List Text → Option ℕ
unfolding first_unused first_unused_from
collision_free_mask_character secrets =
    let preferred = first_unused secrets (0x2a ∷ 0x2022 ∷ 0x2588 ∷ 0x25c6 ∷ []) in
    let private_use = first_unused_from secrets (0x110000 - 0xe000) 0xe000 in
    let lower = first_unused_from secrets 0xe000 0 in or_else preferred (or_else private_use lower)

-- The length in UTF-8, by which secrets are ordered.
unfoldable pub utf8_len : Text → ℕ
utf8_len [] = 0
utf8_len (c ∷ text) =
    (if ltb c 0x80 then 1 else if ltb c 0x800 then 2 else if ltb c 0x10000 then 3 else 4)
    + utf8_len text

-- `left.cmp(right)`: the order of UTF-8 is that of the code points.
unfoldable pub before_text : Text → Text → Bool
before_text [] [] = false
before_text [] (d ∷ ds) = true
before_text (c ∷ cs) [] = false
before_text (c ∷ cs) (d ∷ ds) = ltb c d || c == d && before_text cs ds

-- Longer secrets stand first, and equally long ones in their order.
unfoldable pub stands_before : Text → Text → Bool
unfolding utf8_len before_text
stands_before left right =
    ltb (utf8_len right) (utf8_len left)
    || utf8_len left == utf8_len right && before_text left right

-- `sort_unstable_by` and `dedup`: a secret that stands there already is not put in again.
unfoldable pub insert_secret : Text → List Text → List Text
unfolding stands_before same_chars
insert_secret secret [] = secret ∷ []
insert_secret secret (s ∷ ss) =
    let rest = insert_secret secret ss in
    if same_chars secret s
    then s ∷ ss
    else if stands_before secret s
    then secret ∷ s ∷ ss
    else s ∷ rest

unfoldable pub ordered_known_secrets : List Text → List Text
unfolding insert_secret
ordered_known_secrets [] = []
ordered_known_secrets (secret ∷ secrets) =
    let rest = ordered_known_secrets secrets in
    if leb min_redactable_secret_chars (length secret) then insert_secret secret rest else rest

-- The least number of characters of a secret that is not empty.
unfoldable pub minimum_secret_chars : List Text → Option ℕ
minimum_secret_chars [] = none
minimum_secret_chars (secret ∷ secrets) =
    let rest = minimum_secret_chars secrets in
    if length secret == 0
    then rest
    else elim rest [ none ↦ some (length secret) | some n ↦ some (min (length secret) n) ]

unfoldable pub replicate : ℕ → ℕ → Text
replicate zero c = []
replicate (suc n) c = c ∷ replicate n c

abbrev unwrap_or_one : Option ℕ → ℕ
unwrap_or_one none = 1
unwrap_or_one (some n) = n

-- No secret that is not empty stands in the marker.
unfoldable pub protects_marker : List Text → Bool
unfolding contains
protects_marker [] = true
protects_marker (secret ∷ secrets) =
    (length secret == 0 || not (contains redaction_marker_text secret)) && protects_marker secrets

-- What a secret goes on with after an end of the marker, for each of the ends of this length or less.
unfoldable pub crossing_suffixes : ℕ → Text → List Text
unfolding starts_with drop
crossing_suffixes zero secret = []
crossing_suffixes (suc n) secret =
    let marker_suffix = drop (length redaction_marker_text - suc n) redaction_marker_text in
    if ltb (length marker_suffix) (length secret) && starts_with secret marker_suffix
    then drop (length marker_suffix) secret ∷ crossing_suffixes n secret
    else crossing_suffixes n secret

unfoldable pub marker_crossings : List Text → List Text
unfolding crossing_suffixes
marker_crossings [] = []
marker_crossings (secret ∷ secrets) =
    crossing_suffixes (length redaction_marker_text) secret ++ marker_crossings secrets

-- Only whether a text stands there is asked of it, so that its order does not matter.
unfoldable pub short_secrets : List Text → List Text
short_secrets [] = []
short_secrets (secret ∷ secrets) =
    if ltb 0 (length secret) && ltb (length secret) min_redactable_secret_chars
    then secret ∷ short_secrets secrets
    else short_secrets secrets

unfoldable pub all_windows : List Text → List Text
unfolding windows
all_windows [] = []
all_windows (secret ∷ secrets) = windows secret_substring_window_chars secret ++ all_windows secrets

pub record SecretMatcher : Type 0 where
  pub ordered : List Text
  pub short_exact : List Text
  pub substring_windows : List Text
  pub marker_crossing_suffixes : List Text
  pub redaction_marker : Text
  pub protect_redaction_marker : Bool
  pub mask_character : ℕ

-- `SecretMatcher::new`, given the mask character. The tables of `boundary_patterns` are computed where
-- they are used, from the secrets in their order.
unfoldable pub new_matcher : ℕ → List Text → SecretMatcher
unfolding ordered_known_secrets short_secrets all_windows marker_crossings protects_marker replicate
    minimum_secret_chars
new_matcher mask_character known_secrets =
    let ordered = ordered_known_secrets known_secrets in
    record {
      ordered = ordered;
      short_exact = short_secrets known_secrets;
      substring_windows = all_windows ordered;
      marker_crossing_suffixes = marker_crossings ordered;
      redaction_marker =
          if protects_marker known_secrets
          then redaction_marker_text
          else replicate (unwrap_or_one (minimum_secret_chars known_secrets) - 1) mask_character;
      protect_redaction_marker = protects_marker known_secrets;
      mask_character = mask_character;
    }
