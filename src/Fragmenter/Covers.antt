-- ===== src/Fragmenter/Covers.antt =====
-- The characters of a document that the fragments of src/fragmenter.rs hold.
use nowledge.Prelude.{
  ℕ, ◌≤◌, ◌<◌, String, ◌≡◌, refl, Bool, true, false, ◌&&◌, ◌||◌, List, [], ◌∷◌, ◌++◌, length, arith,
  ok, leb, ltb, inl, inr, Bool-cases,
}
use nowledge.Fragmenter.Chars.{chars, whitespace_at, min_step_for}
use nowledge.Fragmenter.Documents.{
  HashInput, DocumentFragment, DocumentFragmenter, Cutter, cutter, cut_fragment, fragment,
}
use nowledge.Fragmenter.Ends.{IsSound, next_start_lem}
use nowledge.Fragmenter.Cuts.{
  cutter-IsSound, cut_fragment-cases, Cuts, done, last, more, fragment_with_min_step-returns,
}

-- Some fragment holds the character at `i`.
unfoldable pub covers : List DocumentFragment → ℕ → Bool
covers [] i = false
covers (f ∷ fs) i = leb f.char_start i && ltb i f.char_end || covers fs i

covers-append :
    (xs ys : List DocumentFragment) (i : ℕ) → covers (xs ++ ys) i ≡ (covers xs i || covers ys i)
unfolding covers
covers-append [] ys i = refl
covers-append (x ∷ xs) ys i = ground (arith, covers-append xs ys i)

module _ (sha256_hex : List HashInput → String) where
  piece-covers :
      (cut : Cutter) (emitted start end i : ℕ)
      → end ≤ length cut.text
      → start ≤ i
      → i < end
      → whitespace_at cut.text i ≡ false
      → covers (cut_fragment sha256_hex cut emitted start end) i ≡ true
  unfolding covers
  piece-covers cut emitted start end i b s e w =
      elim (cut_fragment-cases sha256_hex cut emitted start end (omega arith) b) [
        | inl (_, blank) ↦ absurd (blank i s e w)
        | inr (f, eq, fragment) ↦
            let k = fragment.trimmed.keeps i s e w in rw eq (ground (arith, k))
      ]

  Cuts-covers :
      (cut : Cutter)
      → IsSound cut
      → (emitted start : ℕ) (fs : List DocumentFragment) → Cuts sha256_hex cut emitted start fs
      → (i : ℕ) → start ≤ i
      → i < length cut.text
      → whitespace_at cut.text i ≡ false
      → covers fs i ≡ true
  Cuts-covers cut sound _ _ _ (done emitted start stop) i s b w = absurd (omega arith)
  Cuts-covers cut sound _ _ _ (last emitted start end at stop) i s b w =
      piece-covers cut emitted start end i at.inside s (omega arith) w
  Cuts-covers cut sound _ _ _ (more emitted start end {rest} at inside cuts) i s b w =
      let piece = cut_fragment sha256_hex cut emitted start end in
      rw (covers-append piece rest i) (elim (Bool-cases (ltb i end)) [
        | inl e ↦
            let c = piece-covers cut emitted start end i at.inside s (ground arith) w in
            ground arith
        | inr l ↦
            let (_, behind, _) = next_start_lem cut start end sound at inside in
            let c = Cuts-covers cut sound _ _ rest cuts i (ground arith) b w in ground arith
      ])

  -- Whatever the policy, the fragmenter returns, and every character of the document that is not
  -- white space stands in a fragment.
  pub fragment-covers :
      (fragmenter : DocumentFragmenter) (content : String)
      → (fs : List DocumentFragment) × (fragment sha256_hex fragmenter content ≡ ok fs)
        × ((i : ℕ)
            → i < length (chars content)
            → whitespace_at (chars content) i ≡ false
            → covers fs i ≡ true)
  unfolding fragment cutter
  fragment-covers fragmenter content =
      let step = min_step_for (length (chars content)) in
      let (fs, returns, cuts) = fragment_with_min_step-returns sha256_hex fragmenter content step in
      let cut = cutter fragmenter content step in
      (
        fs,
        returns,
        λ i b w.
            Cuts-covers cut (cutter-IsSound fragmenter content step) 0 0 fs cuts i (omega arith) b
              w,
      )
