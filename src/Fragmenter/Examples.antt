-- ===== src/Fragmenter/Examples.antt =====
-- The fragmenter at small documents, with a fixed digest in place of SHA-256.
use nowledge.Prelude.{
  ℕ, ◌≤◌, ◌<◌, ◌*◌, ◌+◌, String, ◌≡◌, refl, false, true, none, some, List, [], ◌∷◌, length, ok,
  Result, is_whitespace,
}
use nowledge.Models.Documents.{ParsedBlock}
use nowledge.Fragmenter.Chars
use nowledge.Fragmenter.Chars.{
  chars, whitespace_at, min_step_for, max_fragments_per_document, max_fragment_chunk_chars,
}
use nowledge.Fragmenter.Breakpoints
use nowledge.Fragmenter.Documents
use nowledge.Fragmenter.Documents.{
  HashInput, FragmentPolicy, DocumentFragment, DocumentFragmenter, from_policy,
}
use nowledge.Fragmenter.Covers.{covers, fragment-covers}
use nowledge.Fragmenter.Limits.{width}
use nowledge.Fragmenter.Budget.{fragment_limits}
use nowledge.Fragmenter.Blocks
use nowledge.Fragmenter.Blocks.{FragmentChunk}
use nowledge.Fragmenter.Chunks.{ChunksNumbered, chunk_limits}

abbrev digest : List HashInput → String
digest inputs = "digest"

abbrev tiny : FragmentPolicy
tiny = record { chunk_size_chars = some 4; overlap_chars = some 0; min_chunk_chars = some 4 }

abbrev fragmenter : DocumentFragmenter
fragmenter = record { chunk_size_chars = 4; overlap_chars = 0; min_chunk_chars = 4 }

contents : List DocumentFragment → List String
contents [] = []
contents (f ∷ fs) = f.content ∷ contents fs

contents_of : Result Breakpoints.Fault (List DocumentFragment) → List String
unfolding contents
contents_of r = elim r [ Result.ok fs ↦ contents fs | Result.err e ↦ [] ]

tiny_policy : from_policy (some tiny) ≡ fragmenter
unfolding from_policy
tiny_policy = refl

-- The test `small_documents_keep_requested_tiny_chunks`.
tiny_chunks :
    contents_of (Documents.fragment digest fragmenter "Xabcdefghij") ≡ "Xabc" ∷ "defg" ∷ "hij" ∷ []
unfolding contents_of Documents.fragment whitespace_at Chars.get is_whitespace Chars.take Chars.skip
tiny_chunks = refl

-- With seven characters and an overlap of six, each step goes one character forward.
overlapping : DocumentFragmenter
overlapping = record { chunk_size_chars = 7; overlap_chars = 6; min_chunk_chars = 7 }

total_of : Result Breakpoints.Fault (List DocumentFragment) → ℕ
total_of r = elim r [ Result.ok fs ↦ width fs | Result.err e ↦ 0 ]

fourfold_exceeded : total_of (Documents.fragment digest overlapping "abcdefghijklmn") ≡ 56
unfolding total_of overlapping Documents.fragment whitespace_at Chars.get is_whitespace Chars.take
    Chars.skip
fourfold_exceeded = refl

fragment-covers_example :
    (fs : List DocumentFragment) × (Documents.fragment digest fragmenter "Xab. c\n\ndef" ≡ ok fs)
    × ((i : ℕ)
        → i < length (chars "Xab. c\n\ndef")
        → whitespace_at (chars "Xab. c\n\ndef") i ≡ false
        → covers fs i ≡ true)
fragment-covers_example = fragment-covers digest fragmenter "Xab. c\n\ndef"

fragment_limits_example :
    (fs : List DocumentFragment) × (Documents.fragment digest fragmenter "Xab. c\n\ndef" ≡ ok fs)
    × (length fs ≤ max_fragments_per_document)
    × (width fs ≤ 7 * length (chars "Xab. c\n\ndef"))
fragment_limits_example = fragment_limits digest fragmenter "Xab. c\n\ndef"

abbrev block : String → String → ℕ → ParsedBlock
block id text order = record {
  block_id = id;
  block_type = "paragraph";
  page_idx = none;
  bbox = none;
  text = some text;
  html = none;
  latex = none;
  image_ref = none;
  caption = none;
  footnote = some "note";
  text_level = none;
  section_path = [];
  reading_order = order;
}

abbrev blocks : List ParsedBlock
blocks = block "b2" "one two three" 2 ∷ block "b1" "abc" 1 ∷ []

chunk_limits_example :
    (cs : List FragmentChunk) × (Blocks.fragment digest fragmenter "" blocks ≡ ok cs)
    × (length cs ≤ max_fragments_per_document + 2)
    × ChunksNumbered 0 cs
chunk_limits_example = chunk_limits digest fragmenter "" blocks
