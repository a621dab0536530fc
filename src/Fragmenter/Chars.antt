-- ===== src/Fragmenter/Chars.antt =====
-- Texts as vectors of characters, and `trim_range`, `estimate_tokens` and `min_step_for` of
-- src/fragmenter.rs.
use Prim.Native.Char.{Char, code}
use nowledge.Prelude.{
  ℕ, zero, suc, ◌+◌, ◌-◌, ◌/◌, min, max, String, Bool, true, false, Option, none, some, List, [],
  ◌∷◌, length, is_whitespace,
}

abbrev pub max_fragment_chunk_chars : ℕ
max_fragment_chunk_chars = 8000

abbrev pub max_fragments_per_document : ℕ
max_fragments_per_document = 10000

-- `text.chars().collect::<Vec<char>>()`, and the text of a slice of it.
unfoldable pub chars : String → List Char
chars String.[] = []
chars (String.◌∷◌ c s) = c ∷ chars s

unfoldable pub from_chars : List Char → String
from_chars [] = String.[]
from_chars (c ∷ cs) = String.◌∷◌ c (from_chars cs)

unfoldable pub get : List Char → ℕ → Option Char
get [] i = none
get (c ∷ cs) zero = some c
get (c ∷ cs) (suc i) = get cs i

unfoldable pub skip : ℕ → List Char → List Char
skip zero cs = cs
skip (suc n) [] = []
skip (suc n) (c ∷ cs) = skip n cs

unfoldable pub take : ℕ → List Char → List Char
take zero cs = []
take (suc n) [] = []
take (suc n) (c ∷ cs) = c ∷ take n cs

-- `cs[left..right]`, for a range within the vector.
abbrev pub slice : List Char → ℕ → ℕ → List Char
slice cs left right = take (right - left) (skip left cs)

-- `cs[i].is_whitespace()`; the loops that ask stay within the vector.
unfoldable pub whitespace_at : List Char → ℕ → Bool
whitespace_at cs i = elim (get cs i) [ none ↦ false | some c ↦ is_whitespace (code c) ]

-- The two loops of `trim_range`; the number is the gap `right - left`, which ends them.
unfoldable pub trim_left : List Char → ℕ → ℕ → ℕ
trim_left cs zero left = left
trim_left cs (suc gap) left = elim (whitespace_at cs left) [
  | true ↦ trim_left cs gap (suc left)
  | false ↦ left
]

unfoldable pub trim_right : List Char → ℕ → ℕ → ℕ
trim_right cs zero left = left
trim_right cs (suc gap) left = elim (whitespace_at cs (left + gap)) [
  | true ↦ trim_right cs gap left
  | false ↦ suc (left + gap)
]

unfoldable pub trim_range : List Char → ℕ → ℕ → ℕ × ℕ
unfolding trim_left trim_right
trim_range cs start end =
    let left = min start (length cs) in
    let right = min end (length cs) in
    let left' = trim_left cs (right - left) left in (left', trim_right cs (right - left') left')

-- `a.div_ceil(b)`, for a positive `b`.
abbrev pub div_ceil : ℕ → ℕ → ℕ
div_ceil a b = (a + (b - 1)) / b

unfoldable pub estimate_tokens : String → ℕ
unfolding chars
estimate_tokens text = max (div_ceil (length (chars text)) 4) 1

unfoldable pub min_step_for : ℕ → ℕ
min_step_for char_len = max (div_ceil char_len max_fragments_per_document) 1
