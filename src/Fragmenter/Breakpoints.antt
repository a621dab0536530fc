-- ===== src/Fragmenter/Breakpoints.antt =====
-- `Breakpoints` of src/fragmenter.rs: the positions at which a fragment may end.
use Prim.Native.Char.{Char, code}
use nowledge.Prelude.{
  ℕ, suc, ◌+◌, min, Bool, false, ◌&&◌, ◌||◌, Option, none, some, List, [], ◌∷◌, length, leb, ltb,
  ◌==◌, if◌then◌else◌, is_some, is_whitespace, Result, ok, err,
}

-- How a fragmentation may fail to return: `BTreeSet::range` panics on a range whose start is
-- after its end, and the model's loop may run out of fuel.
pub data Fault : Type 0 where
  range_start_after_end out_of_fuel : Fault

-- Each set lists its positions in ascending order, the order in which they are inserted.
pub record Breakpoints : Type 0 where
  pub headings : List ℕ
  pub paragraphs : List ℕ
  pub sentences : List ℕ

abbrev is_newline : Char → Bool
is_newline c = code c == 10

abbrev is_sentence_end : Char → Bool
is_sentence_end c = code c == 46 || code c == 33 || code c == 63

-- `content.split_inclusive('\n')`.
extend_line : Char → List (List Char) → List (List Char)
extend_line c [] = (c ∷ []) ∷ []
extend_line c (line ∷ lines) = (c ∷ line) ∷ lines

unfoldable pub split_inclusive : List Char → List (List Char)
unfolding extend_line
split_inclusive [] = []
split_inclusive (c ∷ cs) =
    let rest = split_inclusive cs in if is_newline c then (c ∷ []) ∷ rest else extend_line c rest

-- `line.trim_start().starts_with('#')`.
unfoldable pub is_heading : List Char → Bool
is_heading [] = false
is_heading (c ∷ cs) =
    let rest = is_heading cs in if is_whitespace (code c) then rest else code c == 35

unfoldable pub heading_breaks : ℕ → List (List Char) → List ℕ
unfolding is_heading
heading_breaks char_pos [] = []
heading_breaks char_pos (line ∷ lines) =
    let rest = heading_breaks (char_pos + length line) lines in
    if ltb 0 char_pos && is_heading line then char_pos ∷ rest else rest

starts_with : (Char → Bool) → List Char → Bool
starts_with test [] = false
starts_with test (c ∷ cs) = test c

unfoldable pub paragraph_breaks : ℕ → ℕ → List Char → List ℕ
unfolding starts_with
paragraph_breaks len idx [] = []
paragraph_breaks len idx (c ∷ cs) =
    let rest = paragraph_breaks len (suc idx) cs in
    if is_newline c && starts_with is_newline cs then min (idx + 2) len ∷ rest else rest

unfoldable pub sentence_breaks : ℕ → List Char → List ℕ
unfolding starts_with
sentence_breaks idx [] = []
sentence_breaks idx (c ∷ cs) =
    let rest = sentence_breaks (suc idx) cs in
    if is_sentence_end c && starts_with (λ d. is_whitespace (code d)) cs
    then (idx + 1) ∷ rest
    else rest

unfoldable pub new : List Char → Breakpoints
unfolding split_inclusive heading_breaks paragraph_breaks sentence_breaks
new content = record {
  headings = heading_breaks 0 (split_inclusive content);
  paragraphs = paragraph_breaks (length content) 0 content;
  sentences = sentence_breaks 0 content;
}

-- `set.range(lo..=hi).next_back()`, for a range in order.
unfoldable pub last_between : List ℕ → ℕ → ℕ → Option ℕ
last_between [] lo hi = none
last_between (x ∷ xs) lo hi =
    let rest = last_between xs lo hi in
    if is_some rest then rest else if leb lo x && leb x hi then some x else none

-- `a.or(b)`.
abbrev or_else : Option ℕ → Option ℕ → Option ℕ
or_else none b = b
or_else (some a) b = some a

-- The last heading in the range, else the last paragraph, else the last sentence.
unfoldable pub best : Breakpoints → ℕ → ℕ → Option ℕ
unfolding last_between
best breaks lo hi =
    or_else (last_between breaks.headings lo hi)
      (or_else (last_between breaks.paragraphs lo hi) (last_between breaks.sentences lo hi))

unfoldable pub best_between : Breakpoints → ℕ → ℕ → Result Fault (Option ℕ)
unfolding best
best_between breaks lo hi = if ltb hi lo then err range_start_after_end else ok (best breaks lo hi)
