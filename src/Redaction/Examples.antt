-- ===== src/Redaction/Examples.antt =====
-- Runs of the redaction of src/util.rs on concrete secrets and texts.
use nowledge.Prelude.{◌<◌, ◌≤◌, ◌⊎◌, ℕ, true, ◌≡◌, ◌≢◌, refl, arith, List, [], ◌∷◌, ◌++◌, length}
use nowledge.Redaction.Texts.{take, Text, codes, is_credential_character, member}
use nowledge.Redaction.Secrets.{collision_free_mask_character, new_matcher}
use nowledge.Redaction.Exact.{redact_exact, redact_locator, mask_exact}
use nowledge.Redaction.Masks.{
  redact_egress_text, redact_response_string, windowed, mask_egress_projection,
  mask_fragment_projection,
}
use nowledge.Redaction.Overlaps.{at, fall_back, prefix_table, longest_suffix_matching_prefix}
use nowledge.Redaction.Overlaps.Matching.{EndsWith, longest_suffix_matching_prefix_lem}
use nowledge.Redaction.Overlaps.Tables.{fall_back_settles}
use nowledge.Redaction.Projections.{projections-keep_or_mask}
use nowledge.Redaction.Egress.{egress_text_clean}
use nowledge.Redaction.Clean.{redacted_text_clean}
use nowledge.Redaction.Keeps.{keeps_or_masks}
use nowledge.Redaction.Streaming.{
  all_patterns, new, stream, accept, start_credential_suppression_if_complete,
  mask_complete_configured_suffixes,
}
use nowledge.Redaction.Streaming.Hidden.{stream_hides_patterns, is_hidden}
use nowledge.Redaction.Streaming.Chunks.{stream-keeps_or_masks}

abbrev star : ℕ
star = 42

abbrev secrets : List Text
secrets = codes "hunter22" ∷ []

abbrev deltas : List Text
deltas = codes "my hun" ∷ codes "ter22 ok" ∷ []

stream_hides_patterns_example :
    (before : Text) × ((hidden : Text) × ((after : Text) × (stream (new star secrets) deltas
          ≡ before ++ (hidden ++ after))
        × (length before ≡ length (codes "my "))
        × (is_hidden star (codes "hunter22") hidden ≡ true)))
unfolding member all_patterns codes
stream_hides_patterns_example =
    stream_hides_patterns star secrets deltas (codes "my ") (codes "hunter22") (codes " ok") refl
      refl

stream-keeps_or_masks_example :
    keeps_or_masks star (codes "my hunter22 ok") (stream (new star secrets) deltas) ≡ true
unfolding codes
stream-keeps_or_masks_example = stream-keeps_or_masks star secrets deltas

redacted_text_clean_example :
    let matcher = new_matcher star secrets in
    (redact_locator matcher (codes "my hunter22 ok")
      ≢ codes "my " ++ (codes "hunter22" ++ codes " ok"))
    × (redact_exact matcher (codes "my hunter22 ok")
        ≢ codes "my " ++ (codes "hunter22" ++ codes " ok"))
unfolding member codes
redacted_text_clean_example =
    redacted_text_clean star secrets (codes "my hunter22 ok") (codes "my ") (codes "hunter22")
      (codes " ok") refl (omega arith)

longest_suffix_matching_prefix_lem_example :
    let r =
      longest_suffix_matching_prefix
        (codes "aabaac")
        (prefix_table (codes "aabaac"))
        (codes "xaabaab") in
    (r < length (codes "aabaac"))
    × EndsWith (codes "xaabaab") (take r (codes "aabaac"))
    × ((j : ℕ)
        → j < length (codes "aabaac")
        → EndsWith (codes "xaabaab") (take j (codes "aabaac"))
        → j ≤ r)
unfolding codes
longest_suffix_matching_prefix_lem_example =
    longest_suffix_matching_prefix_lem (codes "aabaac") (codes "xaabaab") (omega arith)

fall_back_settles_example :
    let run =
      λ (fuel : ℕ). fall_back (codes "aabaac") (prefix_table (codes "aabaac")) b'b' fuel 5 in
    ((run 6 ≡ 0) ⊎ (at (codes "aabaac") (run 6) ≡ b'b'))
    × ((fuel : ℕ) → 5 < fuel → run fuel ≡ run 6)
unfolding codes
fall_back_settles_example = fall_back_settles (codes "aabaac") b'b' 5 (omega arith)

projections-keep_or_mask_example :
    let matcher = new_matcher star secrets in
    let keeps = keeps_or_masks star (codes "my hunter22 ok") in
    (keeps (mask_exact matcher (codes "my hunter22 ok")) ≡ true)
    × (keeps (mask_egress_projection matcher (codes "my hunter22 ok")) ≡ true)
    × (keeps (mask_fragment_projection matcher (codes "my hunter22 ok")) ≡ true)
projections-keep_or_mask_example = projections-keep_or_mask star secrets (codes "my hunter22 ok")

finds_the_longest :
    longest_suffix_matching_prefix
      (codes "aabaac")
      (prefix_table (codes "aabaac"))
      (codes "xaabaab")
    ≡ 3
unfolding longest_suffix_matching_prefix prefix_table codes
finds_the_longest = refl

masks_a_fragment :
    mask_egress_projection (new_matcher star (codes "hunter2222" ∷ [])) (codes "say unter222...")
    ≡ codes "say ********..."
unfolding mask_egress_projection new_matcher codes
masks_a_fragment = refl

egress_text_clean_example :
    let matcher = new_matcher star secrets in
    (redact_egress_text matcher (codes "my hunter22 ok")
      ≢ codes "my " ++ (codes "hunter22" ++ codes " ok"))
    × (redact_response_string matcher (codes "my hunter22 ok") windowed
        ≢ codes "my " ++ (codes "hunter22" ++ codes " ok"))
unfolding member codes collision_free_mask_character
egress_text_clean_example =
    egress_text_clean secrets star (codes "my hunter22 ok") windowed (codes "my ")
      (codes "hunter22") (codes " ok") refl refl (omega arith)

streams_the_rest : stream (new star secrets) deltas ≡ codes "my ******** ok"
unfolding stream new accept start_credential_suppression_if_complete
    mask_complete_configured_suffixes is_credential_character codes
streams_the_rest = refl

redacts_the_secret :
    redact_exact (new_matcher star secrets) (codes "my hunter22 ok") ≡ codes "my [REDACTED] ok"
unfolding redact_exact new_matcher codes
redacts_the_secret = refl

masks_a_shaped_value :
    mask_exact (new_matcher star secrets) (codes "Bearer abcd1234!") ≡ codes "***************!"
unfolding mask_exact new_matcher codes
masks_a_shaped_value = refl
