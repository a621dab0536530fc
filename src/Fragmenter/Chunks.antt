-- ===== src/Fragmenter/Chunks.antt =====
-- The number of chunks that `BlockAwareFragmenter` of src/fragmenter.rs makes of parsed blocks.
use nowledge.Prelude.{
  ℕ, suc, ◌+◌, ◌*◌, ◌%◌, ◌^◌, ◌≤◌, ◌<◌, max, String, str_eq, ◌≡◌, refl, subst, inl, inr, ◌&&◌, List,
  [], ◌∷◌, ◌++◌, map, length, ltb, arith, ok, ◌>>=◌, Bool-cases, none, some, Option,
}
use native.Mathlib.Nat.{le_of_mul-le-mul_right}
use nowledge.Models.Documents.{ParsedBlock}
use nowledge.Fragmenter.Chars.{max_fragments_per_document, chars, min_step_for}
use nowledge.Fragmenter.Documents.{HashInput, DocumentFragment, DocumentFragmenter}
use nowledge.Fragmenter.Limits.{Numbered}
use nowledge.Fragmenter.Budget.{
  min_step_for_enough, fragment_with_min_step-Limits, fragment_limits, fragment_pieces,
}
use nowledge.Fragmenter.Bodies.{block_body}
use nowledge.Fragmenter.Blocks.{
  FragmentChunk, from, insert_block, sort_blocks, body_of, bodies, total_chars, whole_chunk,
  paragraph_chunks, block_chunks, chunks_from, fragment,
}

length-insert_block :
    (b : ParsedBlock) (bs : List ParsedBlock) → length (insert_block b bs) ≡ suc (length bs)
unfolding insert_block
length-insert_block b [] = refl
length-insert_block b (c ∷ bs) = ground (arith, length-insert_block b bs)

length-sort_blocks : (bs : List ParsedBlock) → length (sort_blocks bs) ≡ length bs
unfolding sort_blocks
length-sort_blocks [] = refl
length-sort_blocks (b ∷ bs) =
    omega (arith, length-insert_block b (sort_blocks bs), length-sort_blocks bs)

length-body_of :
    (b : ParsedBlock) (o : Option String) (rest : List (ParsedBlock × String))
    → length (body_of b o ++ rest) ≤ suc (length rest)
length-body_of b none rest = omega arith
length-body_of b (some body) rest = ground arith

length-bodies : (bs : List ParsedBlock) → length (bodies bs) ≤ length bs
unfolding bodies
length-bodies [] = omega arith
length-bodies (b ∷ bs) =
    omega (arith, length-body_of b (block_body b) (bodies bs), length-bodies bs)

length-map_from : (fs : List DocumentFragment) → length (map from fs) ≡ length fs
length-map_from [] = refl
length-map_from (f ∷ fs) = omega (arith, length-map_from fs)

length-append : (xs ys : List FragmentChunk) → length (xs ++ ys) ≡ length xs + length ys
length-append [] ys = omega arith
length-append (x ∷ xs) ys = omega (arith, length-append xs ys)

-- The chunks are numbered from `n` on, modulo 2^32.
abbrev pub ChunksNumbered : ℕ → List FragmentChunk → Type 0
ChunksNumbered n [] = Unit
ChunksNumbered n (c ∷ cs) = (c.fragment_index ≡ n % 2 ^ 32) × ChunksNumbered (n + 1) cs

ChunksNumbered-append :
    (n : ℕ) (xs ys : List FragmentChunk)
    → ChunksNumbered n xs
    → ChunksNumbered (n + length xs) ys
    → ChunksNumbered n (xs ++ ys)
ChunksNumbered-append n [] ys p q = subst (λ m. ChunksNumbered m ys) (omega arith) q
ChunksNumbered-append n (x ∷ xs) ys p q = (
  p.0,
  ChunksNumbered-append (n + 1) xs ys p.1 (subst (λ m. ChunksNumbered m ys) (omega arith) q),
)

ChunksNumbered-map_from :
    (n : ℕ) (fs : List DocumentFragment) → Numbered n fs → ChunksNumbered n (map from fs)
unfolding from
ChunksNumbered-map_from n [] h = tt
ChunksNumbered-map_from n (f ∷ fs) h = (h.0, ChunksNumbered-map_from (n + 1) fs h.1)

module _ (sha256_hex : List HashInput → String) where
  paragraph_chunks_lem :
      (block : ParsedBlock) (n : ℕ) (fs : List DocumentFragment)
      → (length (paragraph_chunks sha256_hex block n fs) ≡ length fs)
        × ChunksNumbered n (paragraph_chunks sha256_hex block n fs)
  unfolding paragraph_chunks
  paragraph_chunks_lem block n [] = (refl, tt)
  paragraph_chunks_lem block n (f ∷ fs) =
      let (same, numbered) = paragraph_chunks_lem block (n + 1) fs in
      (omega (arith, same), (refl, numbered))

  -- The step of the loop is the step asked for.
  one_step :
      (step count len : ℕ) {count' : ℕ}
      → count' ≡ count
      → 1 ≤ step
      → count * max step 1 + 0 < len + max step 1
      → count' * step ≤ len + step
  one_step step count len same positive few =
      let m : max step 1 ≡ step = omega (arith, positive) in
      let bound = subst (λ x. count * x + 0 < len + x) m few in rw same (omega (arith, bound))

  block_chunks_lem :
      (fallback : DocumentFragmenter) (step n : ℕ) (block : ParsedBlock) (body : String)
      → 1 ≤ step
      → (cs : List FragmentChunk) × (block_chunks sha256_hex fallback step n block body ≡ ok cs)
        × (length cs * step ≤ length (chars body) + step)
        × ChunksNumbered n cs
  unfolding block_chunks
  block_chunks_lem fallback step n block body positive =
      elim (Bool-cases (
        str_eq block.block_type "paragraph"
        && ltb fallback.chunk_size_chars (length (chars body)))) [
          | inr whole ↦
              (whole_chunk sha256_hex block n body ∷ [], rw whole refl, omega arith, (refl, tt))
          | inl long ↦
              let (fs, returns, limits) =
                fragment_with_min_step-Limits sha256_hex fallback body step in
              let (same, numbered) = paragraph_chunks_lem block n fs in
              (
                paragraph_chunks sha256_hex block n fs,
                rw (long, returns, ◌>>=◌) refl,
                one_step step (length fs) _ same positive (limits.few (omega arith)),
                numbered,
              )
        ]

  chunks_from_lem :
      (fallback : DocumentFragmenter) (step n : ℕ) (bs : List (ParsedBlock × String))
      → 1 ≤ step
      → (cs : List FragmentChunk) × (chunks_from sha256_hex fallback step n bs ≡ ok cs)
        × (length cs * step ≤ total_chars bs + length bs * step)
        × ChunksNumbered n cs
  unfolding chunks_from total_chars
  chunks_from_lem fallback step n [] positive = ([], refl, omega arith, tt)
  chunks_from_lem fallback step n ((block, body) ∷ rest) positive =
      let (now, returns, few, numbered) = block_chunks_lem fallback step n block body positive in
      let (later, returns', few', numbered') =
        chunks_from_lem fallback step (n + length now) rest positive in
      (
        now ++ later,
        rw (returns, returns', ◌>>=◌) refl,
        rw (length-append now later) (grind (arith, few, few')),
        ChunksNumbered-append n now later numbered numbered',
      )

  -- Whatever the policy and the blocks, the fragmenter returns at most `max_fragments_per_document`
  -- chunks and one more for each block, and it numbers them in order.
  pub chunk_limits :
      (fallback : DocumentFragmenter) (content : String) (blocks : List ParsedBlock)
      → (cs : List FragmentChunk) × (fragment sha256_hex fallback content blocks ≡ ok cs)
        × (length cs ≤ max_fragments_per_document + length blocks)
        × ChunksNumbered 0 cs
  unfolding fragment
  chunk_limits fallback content [] =
      let (fs, returns, few, _) = fragment_limits sha256_hex fallback content in
      let (fs', returns', numbered, _) = fragment_pieces sha256_hex fallback content in
      let same : fs' ≡ fs = cc in
      (
        map from fs,
        rw (returns, ◌>>=◌) refl,
        omega (arith, few, length-map_from fs),
        ChunksNumbered-map_from 0 fs (subst (Numbered 0) same numbered),
      )
  chunk_limits fallback content (block ∷ blocks) =
      let all = block ∷ blocks in
      let bs = bodies (sort_blocks all) in
      let step = min_step_for (total_chars bs) in
      let (positive, enough) = min_step_for_enough (total_chars bs) in
      let (cs, returns, few, numbered) = chunks_from_lem fallback step 0 bs positive in
      let short = length-bodies (sort_blocks all) in
      let same = length-sort_blocks all in
      let fits : length cs * step ≤ (max_fragments_per_document + length bs) * step =
        grind (arith, few, enough) in
      let count : length cs ≤ max_fragments_per_document + length bs =
        le_of_mul-le-mul_right fits positive in
      (cs, returns, omega (arith, count, short, same), numbered)
