-- ===== src/Fragmenter/Documents.antt =====
-- `DocumentFragmenter` of src/fragmenter.rs: the policy's limits and the loop that cuts a text.
use Prim.Native.Char.{Char}
use nowledge.Prelude.{
  ℕ, zero, suc, ◌+◌, ◌-◌, ◌/◌, ◌%◌, ◌^◌, min, max, String, true, false, Option, none, some, List,
  [], ◌∷◌, ◌++◌, length, leb, ltb, ◌==◌, if◌then◌else◌, Result, ok, err, ◌>>=◌,
}
use nowledge.Fragmenter.Chars.{
  max_fragment_chunk_chars, chars, from_chars, slice, trim_range, estimate_tokens, min_step_for,
}
use nowledge.Fragmenter.Breakpoints
use nowledge.Fragmenter.Breakpoints.{Fault, out_of_fuel, best_between}

pub record FragmentPolicy : Type 0 where
  pub chunk_size_chars : Option ℕ
  pub overlap_chars : Option ℕ
  pub min_chunk_chars : Option ℕ

pub record DocumentFragment : Type 0 where
  pub fragment_index : ℕ
  pub content : String
  pub char_start : ℕ
  pub char_end : ℕ
  pub token_estimate : ℕ
  pub checksum : String

pub record DocumentFragmenter : Type 0 where
  pub chunk_size_chars : ℕ
  pub overlap_chars : ℕ
  pub min_chunk_chars : ℕ

abbrev pub default_fragmenter : DocumentFragmenter
default_fragmenter = record { chunk_size_chars = 1200; overlap_chars = 150; min_chunk_chars = 200 }

-- `option.map(f).unwrap_or(default)`.
abbrev given : Option ℕ → ℕ → (ℕ → ℕ) → ℕ
given none default f = default
given (some n) default f = f n

unfoldable pub apply_policy : DocumentFragmenter → Option FragmentPolicy → DocumentFragmenter
apply_policy fragmenter none = fragmenter
apply_policy fragmenter (some policy) = record {
  chunk_size_chars =
      given policy.chunk_size_chars fragmenter.chunk_size_chars
        (λ n. min (max n 1) max_fragment_chunk_chars);
  overlap_chars = given policy.overlap_chars fragmenter.overlap_chars (λ n. n);
  min_chunk_chars = given policy.min_chunk_chars fragmenter.min_chunk_chars (λ n. max n 1);
}

unfoldable pub from_policy : Option FragmentPolicy → DocumentFragmenter
unfolding apply_policy
from_policy policy =
    let fragmenter = apply_policy default_fragmenter policy in
    record {
      chunk_size_chars = fragmenter.chunk_size_chars;
      overlap_chars = min fragmenter.overlap_chars (fragmenter.chunk_size_chars - 1);
      min_chunk_chars = min fragmenter.min_chunk_chars fragmenter.chunk_size_chars;
    }

-- What `fragment_with_min_step` computes before its loop.
pub record Cutter : Type 0 where
  pub text : List Char
  pub breaks : Breakpoints.Breakpoints
  pub min_step : ℕ
  pub chunk_size_chars : ℕ
  pub min_chunk_chars : ℕ
  pub overlap_chars : ℕ

unfoldable pub cutter : DocumentFragmenter → String → ℕ → Cutter
unfolding chars Breakpoints.new
cutter fragmenter content min_step =
    let step = max min_step 1 in
    let chunk = max fragmenter.chunk_size_chars step in
    record {
      text = chars content;
      breaks = Breakpoints.new (chars content);
      min_step = step;
      chunk_size_chars = chunk;
      min_chunk_chars = min (max fragmenter.min_chunk_chars step) chunk;
      overlap_chars = fragmenter.overlap_chars;
    }

abbrev unwrap_or : Option ℕ → ℕ → ℕ
unwrap_or none default = default
unwrap_or (some n) default = n

-- The end of the fragment that starts at `start`.
unfoldable pub chunk_end : Cutter → ℕ → Result Fault ℕ
unfolding best_between
chunk_end cut start =
    let char_len = length cut.text in
    let max_end = min (start + cut.chunk_size_chars) char_len in
    if max_end == char_len
    then ok char_len
    else best_between cut.breaks (start + cut.min_chunk_chars) max_end >>= λ best.
        ok (unwrap_or best max_end)

-- Where the next fragment starts.
unfoldable pub next_start : Cutter → ℕ → ℕ → ℕ
next_start cut start end =
    let advance = max ((end - start) / 4) cut.min_step in
    min (max (end - cut.overlap_chars) (start + advance)) (length cut.text)

-- What the code hashes, piece by piece.
pub data HashInput : Type 0 where
  u32_bytes usize_bytes : ℕ → HashInput
  text_bytes : String → HashInput

-- SHA-256 in hexadecimal digits is the crates `sha2` and `hex`.
module _ (sha256_hex : List HashInput → String) where
  unfoldable pub fragment_checksum : ℕ → ℕ → ℕ → String → String
  fragment_checksum index start end text =
      sha256_hex (u32_bytes index ∷ usize_bytes start ∷ usize_bytes end ∷ text_bytes text ∷ [])

  -- The fragment of `start..end`, if anything but white space stands there.
  unfoldable pub cut_fragment : Cutter → ℕ → ℕ → ℕ → List DocumentFragment
  unfolding trim_range from_chars estimate_tokens fragment_checksum
  cut_fragment cut emitted start end =
      let (left, right) = trim_range cut.text start end in
      let text = from_chars (slice cut.text left right) in
      let index = emitted % 2 ^ 32 in
      if ltb left right
      then record {
        fragment_index = index;
        content = text;
        char_start = left;
        char_end = right;
        token_estimate = estimate_tokens text;
        checksum = fragment_checksum index left right text;
      }
        ∷ []
      else []

  -- The loop of `fragment_with_min_step`; `emitted` is the number of fragments so far.
  unfoldable pub cut_from : Cutter → ℕ → ℕ → ℕ → Result Fault (List DocumentFragment)
  unfolding chunk_end next_start cut_fragment
  cut_from cut zero emitted start = err out_of_fuel
  cut_from cut (suc fuel) emitted start = elim (ltb start (length cut.text)) [
    | false ↦ ok []
    | true ↦ chunk_end cut start >>= λ end.
        (let piece = cut_fragment cut emitted start end in
          elim (leb (length cut.text) end) [
            | true ↦ ok piece
            | false ↦
                cut_from cut fuel (emitted + length piece) (next_start cut start end) >>= λ rest.
                ok (piece ++ rest)
          ])
  ]

  -- One step of the loop is made for each character at most.
  unfoldable pub fragment_with_min_step :
      DocumentFragmenter → String → ℕ → Result Fault (List DocumentFragment)
  unfolding cutter cut_from
  fragment_with_min_step fragmenter content min_step =
      let cut = cutter fragmenter content min_step in
      if length cut.text == 0 then ok [] else cut_from cut (suc (length cut.text)) 0 0

  unfoldable pub fragment : DocumentFragmenter → String → Result Fault (List DocumentFragment)
  unfolding min_step_for fragment_with_min_step
  fragment fragmenter content =
      fragment_with_min_step fragmenter content (min_step_for (length (chars content)))
