-- ===== src/Fragmenter/Blocks.antt =====
-- `BlockAwareFragmenter` of src/fragmenter.rs: parsed blocks turned into chunks.
use Prim.Native.Char.{code}
use nowledge.Prelude.{
  ℕ, ◌+◌, ◌-◌, ◌%◌, ◌^◌, String, str_eq, Bool, true, false, ◌&&◌, ◌||◌, Option, none, some, List,
  [], ◌∷◌, ◌++◌, map, length, ltb, ◌==◌, if◌then◌else◌, Result, ok, ◌>>=◌, is_blank,
}
use nowledge.Json.{Value}
use nowledge.Models.Documents.{ParsedBlock}
use nowledge.Fragmenter.Bodies.{block_body}
use nowledge.Fragmenter.Chars.{chars, estimate_tokens, min_step_for}
use nowledge.Fragmenter.Breakpoints.{Fault}
use nowledge.Fragmenter.Documents.{
  FragmentPolicy, DocumentFragment, DocumentFragmenter, HashInput, u32_bytes, usize_bytes,
  text_bytes, from_policy, fragment_with_min_step,
}
use nowledge.Fragmenter.Documents

pub record FragmentChunk : Type 0 where
  pub fragment_index : ℕ
  pub content : String
  pub char_start : Option ℕ
  pub char_end : Option ℕ
  pub token_estimate : ℕ
  pub checksum : String
  pub block_type : Option String
  pub page_idx : Option ℕ
  pub bbox : Option Value
  pub section_path : List String
  pub heading_level : Option ℕ
  pub asset_refs : List String

-- `impl From<DocumentFragment> for FragmentChunk`.
unfoldable pub from : DocumentFragment → FragmentChunk
from fragment = record {
  fragment_index = fragment.fragment_index;
  content = fragment.content;
  char_start = some fragment.char_start;
  char_end = some fragment.char_end;
  token_estimate = fragment.token_estimate;
  checksum = fragment.checksum;
  block_type = some "paragraph";
  page_idx = none;
  bbox = none;
  section_path = [];
  heading_level = none;
  asset_refs = [];
}

-- The order of texts, and of the keys `(reading_order, page_idx, block_id)`.
unfoldable pub text_le : String → String → Bool
text_le String.[] t = true
text_le (String.◌∷◌ c s) String.[] = false
text_le (String.◌∷◌ c s) (String.◌∷◌ d t) = ltb (code c) (code d) || code c == code d && text_le s t

abbrev page_key : Option ℕ → ℕ
page_key none = 2 ^ 32 - 1
page_key (some page) = page

unfoldable pub key_le : ParsedBlock → ParsedBlock → Bool
unfolding text_le
key_le a b =
    ltb a.reading_order b.reading_order
    || a.reading_order == b.reading_order
      && (ltb (page_key a.page_idx) (page_key b.page_idx)
          || page_key a.page_idx == page_key b.page_idx && text_le a.block_id b.block_id)

unfoldable pub insert_block : ParsedBlock → List ParsedBlock → List ParsedBlock
unfolding key_le
insert_block block [] = block ∷ []
insert_block block (other ∷ others) =
    let rest = insert_block block others in
    if key_le block other then block ∷ other ∷ others else other ∷ rest

-- `ordered.sort_by_key(...)`: a stable sort.
unfoldable pub sort_blocks : List ParsedBlock → List ParsedBlock
unfolding insert_block
sort_blocks [] = []
sort_blocks (block ∷ blocks) = insert_block block (sort_blocks blocks)

-- The blocks that have a body, each with it.
abbrev pub body_of : ParsedBlock → Option String → List (ParsedBlock × String)
body_of block none = []
body_of block (some body) = if is_blank body then [] else (block, body) ∷ []

unfoldable pub bodies : List ParsedBlock → List (ParsedBlock × String)
unfolding block_body
bodies [] = []
bodies (block ∷ blocks) = body_of block (block_body block) ++ bodies blocks

unfoldable pub total_chars : List (ParsedBlock × String) → ℕ
total_chars [] = 0
total_chars ((_, body) ∷ rest) = length (chars body) + total_chars rest

abbrev unwrap_or_default : Option ℕ → ℕ
unwrap_or_default none = 0
unwrap_or_default (some n) = n

abbrev option_list : Option String → List String
option_list none = []
option_list (some s) = s ∷ []

module _ (sha256_hex : List HashInput → String) where
  unfoldable pub block_fragment_checksum : ℕ → String → Option ℕ → Option ℕ → String → String
  block_fragment_checksum index block_id start end text = sha256_hex (
      u32_bytes index
      ∷ text_bytes block_id
      ∷ usize_bytes (unwrap_or_default start)
      ∷ usize_bytes (unwrap_or_default end)
      ∷ text_bytes text
      ∷ [])

  -- The fields that a fragment of a long paragraph takes from its block.
  unfoldable pub paragraph_chunk : ParsedBlock → ℕ → DocumentFragment → FragmentChunk
  unfolding from block_fragment_checksum
  paragraph_chunk block emitted fragment =
      let index = emitted % 2 ^ 32 in
      let chunk = from fragment in
      record chunk {
        fragment_index = index;
        block_type = some block.block_type;
        page_idx = block.page_idx;
        bbox = block.bbox;
        section_path = block.section_path;
        heading_level = block.text_level;
        asset_refs = option_list block.image_ref;
        checksum =
            block_fragment_checksum index block.block_id chunk.char_start chunk.char_end
              chunk.content;
      }

  unfoldable pub paragraph_chunks : ParsedBlock → ℕ → List DocumentFragment → List FragmentChunk
  unfolding paragraph_chunk
  paragraph_chunks block emitted [] = []
  paragraph_chunks block emitted (fragment ∷ fragments) =
      paragraph_chunk block emitted fragment ∷ paragraph_chunks block (emitted + 1) fragments

  -- A block that stays whole.
  unfoldable pub whole_chunk : ParsedBlock → ℕ → String → FragmentChunk
  unfolding estimate_tokens block_fragment_checksum
  whole_chunk block emitted body =
      let index = emitted % 2 ^ 32 in
      record {
        fragment_index = index;
        content = body;
        char_start = none;
        char_end = none;
        token_estimate = estimate_tokens body;
        checksum = block_fragment_checksum index block.block_id none none body;
        block_type = some block.block_type;
        page_idx = block.page_idx;
        bbox = block.bbox;
        section_path = block.section_path;
        heading_level = block.text_level;
        asset_refs = option_list block.image_ref;
      }

  unfoldable pub block_chunks :
      DocumentFragmenter → ℕ → ℕ → ParsedBlock → String → Result Fault (List FragmentChunk)
  unfolding paragraph_chunks whole_chunk fragment_with_min_step
  block_chunks fallback min_step emitted block body =
      if str_eq block.block_type "paragraph" && ltb fallback.chunk_size_chars (length (chars body))
      then (fragment_with_min_step sha256_hex fallback body min_step >>= λ fragments.
          ok (paragraph_chunks block emitted fragments))
      else ok (whole_chunk block emitted body ∷ [])

  -- The loop over the bodies; `emitted` is `chunks.len()`.
  unfoldable pub chunks_from :
      DocumentFragmenter → ℕ → ℕ → List (ParsedBlock × String) → Result Fault (List FragmentChunk)
  unfolding block_chunks
  chunks_from fallback min_step emitted [] = ok []
  chunks_from fallback min_step emitted ((block, body) ∷ rest) = do
    chunks ← block_chunks fallback min_step emitted block body
    later ← chunks_from fallback min_step (emitted + length chunks) rest
    ok (chunks ++ later)

  unfoldable pub fragment :
      DocumentFragmenter → String → List ParsedBlock → Result Fault (List FragmentChunk)
  unfolding from sort_blocks bodies total_chars chunks_from Documents.fragment
  fragment fallback content [] =
      Documents.fragment sha256_hex fallback content >>= λ fragments. ok (map from fragments)
  fragment fallback content (block ∷ blocks) =
      let with_bodies = bodies (sort_blocks (block ∷ blocks)) in
      chunks_from fallback (min_step_for (total_chars with_bodies)) 0 with_bodies
