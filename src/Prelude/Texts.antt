-- ===== src/Prelude/Texts.antt =====
-- Rust's strings: equality, the blank test `s.trim().is_empty()`, and sets of strings as lists.
use Prim.Native.Nat.{ℕ, zero, suc, ◌/◌, ◌%◌}
use Prim.Native.Char.{code}
use Prim.Native.String.{String, ◌++◌}
use mathlib.Core.Bool.{Bool, true, false, ◌&&◌, ◌||◌}
use mathlib.Core.Option.{Option, none, some}
use mathlib.Core.List.{List, [], ◌∷◌}
use text.Mathlib.Text.{◌==◌ as str_eq}
use nowledge.Prelude.Tests.{ltb, leb, ◌==◌, if◌then◌else◌}

-- `format!`: the pieces of the message, one after the other.
unfoldable pub format : List String → String
format [] = ""
format (piece ∷ pieces) = piece ++ format pieces

-- `str::is_empty`.
abbrev pub is_empty : String → Bool
is_empty String.[] = true
is_empty (String.◌∷◌ c s) = false

-- A number in decimal digits; one digit is made for each unit of fuel, so `suc n` is enough.
unfoldable pub digit : ℕ → String
digit d =
    if d == 0
    then "0"
    else if d == 1
    then "1"
    else if d == 2
    then "2"
    else if d == 3
    then "3"
    else if d == 4
    then "4"
    else if d == 5
    then "5"
    else if d == 6
    then "6"
    else if d == 7
    then "7"
    else if d == 8
    then "8"
    else "9"

unfoldable pub decimal_from : ℕ → ℕ → String
unfolding digit
decimal_from zero n = ""
decimal_from (suc fuel) n =
    let more = decimal_from fuel (n / 10) ++ digit (n % 10) in if ltb n 10 then digit n else more

unfoldable pub decimal : ℕ → String
unfolding decimal_from
decimal n = decimal_from (suc n) n

-- Unicode's White_Space, the set that `str::trim` removes.
unfoldable pub is_whitespace : ℕ → Bool
is_whitespace c =
    leb 9 c && leb c 13
    || c == 0x20
    || c == 0x85
    || c == 0xa0
    || c == 0x1680
    || leb 0x2000 c && leb c 0x200a
    || c == 0x2028
    || c == 0x2029
    || c == 0x202f
    || c == 0x205f
    || c == 0x3000

-- `s.trim().is_empty()`: every character is white space.
unfoldable pub is_blank : String → Bool
unfolding is_whitespace
is_blank String.[] = true
is_blank (String.◌∷◌ c s) = is_whitespace (code c) && is_blank s

-- `HashSet<String>::contains`, on the list of the set's elements.
unfoldable pub contains : List String → String → Bool
contains [] a = false
contains (x ∷ xs) a = str_eq x a || contains xs a

unfoldable pub is_subset : List String → List String → Bool
unfolding contains
is_subset [] ys = true
is_subset (x ∷ xs) ys = contains ys x && is_subset xs ys

-- Equality of the sets of two lists' elements, as `BTreeSet` compares them.
unfoldable pub same_set : List String → List String → Bool
unfolding is_subset
same_set xs ys = is_subset xs ys && is_subset ys xs

-- Equality of two `Option<String>`.
unfoldable pub same_text : Option String → Option String → Bool
same_text none none = true
same_text (some a) (some b) = str_eq a b
same_text _ _ = false

-- `text.starts_with(part)` and `text.contains(part)`.
unfoldable pub starts_text : String → String → Bool
starts_text text String.[] = true
starts_text String.[] (String.◌∷◌ d part) = false
starts_text (String.◌∷◌ c text) (String.◌∷◌ d part) = code c == code d && starts_text text part

unfoldable pub contains_text : String → String → Bool
unfolding starts_text
contains_text String.[] part = starts_text String.[] part
contains_text (String.◌∷◌ c text) part =
    starts_text (String.◌∷◌ c text) part || contains_text text part
