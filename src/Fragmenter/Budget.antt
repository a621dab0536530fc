-- ===== src/Fragmenter/Budget.antt =====
-- `from_policy` and `fragment` of src/fragmenter.rs from a caller's view: limits of the policy, of
-- the number of fragments and of their length.
use nowledge.Prelude.{
  ℕ, suc, subst, ◌+◌, ◌*◌, ◌≤◌, ◌<◌, max, String, ◌≡◌, List, length, All, arith, ok, Option, none,
  some,
}
use native.Mathlib.Nat.{lt_of_mul-lt-mul_right}
use nowledge.Fragmenter.Chars.{
  max_fragment_chunk_chars, max_fragments_per_document, chars, min_step_for,
}
use nowledge.Fragmenter.Documents.{
  HashInput, FragmentPolicy, apply_policy, from_policy, DocumentFragment, DocumentFragmenter,
  cutter, fragment, fragment_with_min_step,
}
use nowledge.Fragmenter.Limits.{Numbered, width, IsPiece, Limits, Cuts-Limits}
use nowledge.Fragmenter.Cuts.{cutter-IsSound, fragment_with_min_step-returns}

-- Whatever the policy asks for, the chunk size is between 1 and `max_fragment_chunk_chars`, the
-- overlap is smaller than it, and the least chunk size is at least 1 and at most the chunk size.
pub from_policy_bounds :
    (policy : Option FragmentPolicy)
    → let fragmenter = from_policy policy in
      (1 ≤ fragmenter.chunk_size_chars)
      × (fragmenter.chunk_size_chars ≤ max_fragment_chunk_chars)
      × (fragmenter.overlap_chars < fragmenter.chunk_size_chars)
      × (1 ≤ fragmenter.min_chunk_chars)
      × (fragmenter.min_chunk_chars ≤ fragmenter.chunk_size_chars)
unfolding from_policy apply_policy
from_policy_bounds none = omega arith
from_policy_bounds (some policy) = ground arith

pub min_step_for_enough :
    (n : ℕ) → (1 ≤ min_step_for n) × (n ≤ max_fragments_per_document * min_step_for n)
unfolding min_step_for
min_step_for_enough n = (omega arith, omega arith)

-- The smallest step keeps the number of steps within the limit.
pub few_enough :
    (count n step : ℕ)
    → 1 ≤ step
    → n ≤ max_fragments_per_document * step
    → count * step < n + step
    → count ≤ max_fragments_per_document
few_enough count n step positive enough few =
    let c : count < suc max_fragments_per_document =
      lt_of_mul-lt-mul_right step (omega (arith, few, enough)) in
    omega (arith, c)

module _ (sha256_hex : List HashInput → String) where
  pub fragment_with_min_step-Limits :
      (fragmenter : DocumentFragmenter) (content : String) (min_step : ℕ)
      → let cut = cutter fragmenter content min_step in
        (fs : List DocumentFragment) × (fragment_with_min_step sha256_hex fragmenter content
            min_step
          ≡ ok fs)
        × Limits sha256_hex cut 0 0 fs
  fragment_with_min_step-Limits fragmenter content min_step =
      let (fs, returns, cuts) =
        fragment_with_min_step-returns sha256_hex fragmenter content min_step in
      let cut = cutter fragmenter content min_step in
      (
        fs,
        returns,
        Cuts-Limits sha256_hex cut (cutter-IsSound fragmenter content min_step) 0 0 fs cuts,
      )

  fragment-Limits :
      (fragmenter : DocumentFragmenter) (content : String)
      → let cut = cutter fragmenter content (min_step_for (length (chars content))) in
        (fs : List DocumentFragment) × (fragment sha256_hex fragmenter content ≡ ok fs)
        × Limits sha256_hex cut 0 0 fs
  unfolding fragment
  fragment-Limits fragmenter content =
      fragment_with_min_step-Limits fragmenter content (min_step_for (length (chars content)))

  -- Whatever the policy, the fragmenter returns at most `max_fragments_per_document` fragments,
  -- and their total length is at most seven times that of the document.
  pub fragment_limits :
      (fragmenter : DocumentFragmenter) (content : String)
      → (fs : List DocumentFragment) × (fragment sha256_hex fragmenter content ≡ ok fs)
        × (length fs ≤ max_fragments_per_document)
        × (width fs ≤ 7 * length (chars content))
  unfolding cutter
  fragment_limits fragmenter content =
      let n = length (chars content) in
      let (fs, returns, limits) = fragment-Limits fragmenter content in
      let (positive, enough) = min_step_for_enough n in
      let step : max (min_step_for n) 1 ≡ min_step_for n = omega (arith, positive) in
      let few = limits.few (omega arith) in
      (
        fs,
        returns,
        few_enough (length fs) n (min_step_for n) positive enough
            (omega (arith, subst (λ m. length fs * m + 0 < n + m) step few)),
        omega (arith, limits.total),
      )

  -- Each fragment is a piece of the document that starts and ends with something else than white
  -- space, no longer than the chunk size and the least step allow, and they are numbered in order.
  pub fragment_pieces :
      (fragmenter : DocumentFragmenter) (content : String)
      → (fs : List DocumentFragment) × (fragment sha256_hex fragmenter content ≡ ok fs)
        × Numbered 0 fs
        × All
            (IsPiece
              (chars content)
              (max fragmenter.chunk_size_chars (max (min_step_for (length (chars content))) 1)))
            fs
  unfolding cutter
  fragment_pieces fragmenter content =
      let (fs, returns, limits) = fragment-Limits fragmenter content in
      (fs, returns, limits.numbered, limits.pieces)
