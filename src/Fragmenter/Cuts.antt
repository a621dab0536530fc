-- ===== src/Fragmenter/Cuts.antt =====
-- The loop of `fragment_with_min_step` of src/fragmenter.rs as a relation, and its end.
use nowledge.Prelude.{
  ℕ, zero, suc, ◌+◌, ◌%◌, ◌^◌, ◌≤◌, ◌<◌, String, ◌≡◌, ◌≢◌, refl, inl, inr, ◌⊎◌, true, false, ◌==◌,
  List, [], ◌∷◌, ◌++◌, length, ◌>>=◌, arith, ok, ltb, leb, Bool-cases,
}
use nowledge.Fragmenter.Chars.{from_chars, slice, trim_range, whitespace_at, estimate_tokens}
use nowledge.Fragmenter.Documents.{
  HashInput, DocumentFragment, DocumentFragmenter, Cutter, cutter, next_start, fragment_checksum,
  cut_fragment, cut_from, fragment_with_min_step,
}
use nowledge.Fragmenter.Trim.{Trimmed, first_or_later, trim_range-Trimmed}
use nowledge.Fragmenter.Ends.{IsSound, EndsAt, chunk_end-returns, next_start_lem}

pub cutter-IsSound :
    (fragmenter : DocumentFragmenter) (content : String) (min_step : ℕ)
    → IsSound (cutter fragmenter content min_step)
unfolding cutter
cutter-IsSound fragmenter content min_step = record {
  positive = omega arith;
  low = omega arith;
  high = omega arith;
}

module _ (sha256_hex : List HashInput → String) where
  -- A fragment of `start..end`, the `emitted`-th one.
  pub record Fragment (cut : Cutter) (emitted start end : ℕ) (f : DocumentFragment) : Type 0 where
    pub index : f.fragment_index ≡ emitted % 2 ^ 32
    pub trimmed : Trimmed cut.text start end f.char_start f.char_end
    pub non_empty : f.char_start < f.char_end
    pub text : f.content ≡ from_chars (slice cut.text f.char_start f.char_end)

  -- A piece of the document gives one fragment, or none when it is white space.
  pub cut_fragment-cases :
      (cut : Cutter) (emitted start end : ℕ)
      → start ≤ end
      → end ≤ length cut.text
      → ((cut_fragment sha256_hex cut emitted start end ≡ [])
          × ((i : ℕ) → start ≤ i → i < end → whitespace_at cut.text i ≢ false))
        ⊎ ((f : DocumentFragment) × (cut_fragment sha256_hex cut emitted start end ≡ f ∷ [])
            × Fragment cut emitted start end f)
  unfolding cut_fragment
  cut_fragment-cases cut emitted start end h b =
      let t = trim_range cut.text start end in
      let trimmed = trim_range-Trimmed cut.text start end h b in
      elim (Bool-cases (ltb t.0 t.1)) [
        | inl l ↦
            (let f : DocumentFragment = record {
              fragment_index = emitted % 2 ^ 32;
              content = from_chars (slice cut.text t.0 t.1);
              char_start = t.0;
              char_end = t.1;
              token_estimate = estimate_tokens (from_chars (slice cut.text t.0 t.1));
              checksum =
                  fragment_checksum sha256_hex (emitted % 2 ^ 32) t.0 t.1
                    (from_chars (slice cut.text t.0 t.1));
            } in
              inr (
                f,
                rw l refl,
                record { index = refl; trimmed = trimmed; non_empty = ground arith; text = refl },
              ))
        | inr g ↦ inl (rw g refl, λ i a c f. (let k = trimmed.keeps i a c f in ground (arith, k)))
      ]

  -- The iterations of the loop, from the `emitted`-th fragment at `start` on.
  pub data Cuts (cut : Cutter) : ℕ → ℕ → List DocumentFragment → Type 0 where
    done : (emitted start : ℕ) → length cut.text ≤ start → Cuts cut emitted start []
    last :
        (emitted start end : ℕ)
        → EndsAt cut start end
        → length cut.text ≤ end
        → Cuts cut emitted start (cut_fragment sha256_hex cut emitted start end)
    more :
        (emitted start end : ℕ) {rest : List DocumentFragment}
        → EndsAt cut start end
        → end < length cut.text
        → Cuts cut
            (emitted + length (cut_fragment sha256_hex cut emitted start end))
            (next_start cut start end)
            rest
        → Cuts cut emitted start (cut_fragment sha256_hex cut emitted start end ++ rest)

  -- One iteration of the loop, in each of its cases.
  module _ (cut : Cutter) (fuel emitted start : ℕ) where
    cut_from-done :
        length cut.text ≤ start → cut_from sha256_hex cut (suc fuel) emitted start ≡ ok []
    unfolding cut_from
    cut_from-done h = ground arith

    cut_from-last :
        (end : ℕ)
        → EndsAt cut start end
        → length cut.text ≤ end
        → cut_from sha256_hex cut (suc fuel) emitted start
          ≡ ok (cut_fragment sha256_hex cut emitted start end)
    unfolding cut_from
    cut_from-last end at h =
        let l : ltb start (length cut.text) ≡ true =
          (let f = at.forward in let i = at.inside in ground arith) in
        let e : leb (length cut.text) end ≡ true = ground arith in
        rw (l, at.returns, e, ◌>>=◌, cut_from) refl

    cut_from-more :
        (end : ℕ) {rest : List DocumentFragment}
        → EndsAt cut start end
        → end < length cut.text
        → cut_from sha256_hex cut fuel
            (emitted + length (cut_fragment sha256_hex cut emitted start end))
            (next_start cut start end)
          ≡ ok rest
        → cut_from sha256_hex cut (suc fuel) emitted start
          ≡ ok (cut_fragment sha256_hex cut emitted start end ++ rest)
    unfolding cut_from
    cut_from-more end at h returns =
        let l : ltb start (length cut.text) ≡ true =
          (let f = at.forward in let i = at.inside in ground arith) in
        let e : leb (length cut.text) end ≡ false = ground arith in
        rw (l, at.returns, e, returns, ◌>>=◌, cut_from) refl

  -- With fuel for the characters that are left, the loop returns.
  cut_from-returns :
      (cut : Cutter)
      → IsSound cut
      → (fuel emitted start : ℕ) → start ≤ length cut.text
      → length cut.text < start + fuel
      → (fs : List DocumentFragment) × (cut_from sha256_hex cut fuel emitted start ≡ ok fs)
        × Cuts cut emitted start fs
  cut_from-returns cut sound zero emitted start b enough = absurd (omega arith)
  cut_from-returns cut sound (suc fuel) emitted start b enough =
      let len = length cut.text in
      elim (first_or_later start len b) [
        | inl g ↦ (
          [],
          cut_from-done cut fuel emitted start (omega arith),
          done emitted start (omega arith),
        )
        | inr l ↦
            let (end, at) = chunk_end-returns cut start sound l in
            let piece = cut_fragment sha256_hex cut emitted start end in
            elim (first_or_later end len at.inside) [
              | inl e ↦ (
                piece,
                cut_from-last cut fuel emitted start end at (omega arith),
                last emitted start end at (omega arith),
              )
              | inr inside ↦
                  let (onward, behind, _) = next_start_lem cut start end sound at inside in
                  let (rest, returns, cuts) =
                    cut_from-returns cut sound fuel (emitted + length piece)
                      (next_start cut start end) (omega (arith, behind, inside))
                      (omega (arith, onward, sound, enough)) in
                  (
                    piece ++ rest,
                    cut_from-more cut fuel emitted start end at inside returns,
                    more emitted start end at inside cuts,
                  )
            ]
      ]

  -- Whatever the policy, the text and the step, the fragmenter returns.
  pub fragment_with_min_step-returns :
      (fragmenter : DocumentFragmenter) (content : String) (min_step : ℕ)
      → (fs : List DocumentFragment) × (fragment_with_min_step sha256_hex fragmenter content
            min_step
          ≡ ok fs)
        × Cuts (cutter fragmenter content min_step) 0 0 fs
  unfolding fragment_with_min_step
  fragment_with_min_step-returns fragmenter content min_step =
      let cut = cutter fragmenter content min_step in
      elim (Bool-cases (length cut.text == 0)) [
        | inl e ↦ ([], rw e refl, done 0 0 (ground arith))
        | inr g ↦ rw g (
            cut_from-returns cut (cutter-IsSound fragmenter content min_step)
              (suc (length cut.text)) 0 0 (omega arith) (omega arith))
      ]
