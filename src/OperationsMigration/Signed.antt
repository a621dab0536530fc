-- ===== src/OperationsMigration/Signed.antt =====
-- The plan that `create_plan` makes of an observation: its validation, and the guards of `apply_plan`.
use nowledge.Prelude.{
  ℕ, String, str_eq, eq_refl, true, false, not, ◌≡◌, refl, Option, none, some, arith, ok, is_blank,
  same_text, is_none_or, ◌⊎◌, inl, inr, if◌then◌else◌, Bool-cases,
}
use nowledge.Json.Equal.{same_value_refl}
use nowledge.Json.Canonical.{Encoder, checksum_value}
use nowledge.Meili.Settings.{settings_for}
use nowledge.OperationsMigration.Plans.{
  target_index_uid, target_primary_key, MigrationPlan, ObservedIndex, validate_plan,
  compute_plan_checksum, validate_generation, ready_index, drifted_index, IndexState, missing,
  same_state, already_present, settings_drift,
}
use nowledge.OperationsMigration.Reports.{
  verification_report, signed_plan, unsigned_plan, planned, require_before_apply,
  require_planned_generation, require_after_apply, require_compatible_primary_key,
}
use nowledge.OperationsMigration.Reads.{Index, observe, inspected}

-- An index that the migration can work with: the key that it needs, and a generation.
abbrev pub IsUsable : Index → Type 0
IsUsable index =
    (index.primary_key ≡ some target_primary_key) × (is_none_or index.created_at is_blank ≡ false)

-- Missing, or usable.
abbrev pub IsCompatible : Option Index → Type 0
IsCompatible none = Unit
IsCompatible (some index) = IsUsable index

-- The checksum does not depend on itself.
pub signed_checksum :
    (encoder : Encoder) (observed : ObservedIndex)
    → str_eq
        (compute_plan_checksum encoder (unsigned_plan encoder observed))
        (compute_plan_checksum encoder (signed_plan encoder observed))
      ≡ true
unfolding compute_plan_checksum signed_plan
signed_checksum encoder observed =
    eq_refl (compute_plan_checksum encoder (unsigned_plan encoder observed))

pub inspected_usable :
    (index : Index)
    → IsUsable index
    → inspected index ≡ (if index.settings_match then ready_index else drifted_index)
unfolding inspected same_text
inspected_usable index h = rw h.0 refl

pub usable_generation :
    (state : IndexState) (index : Index)
    → IsUsable index
    → (state ≡ already_present) ⊎ (state ≡ settings_drift)
    → validate_generation state index.created_at ≡ ok tt
unfolding validate_generation
usable_generation state index h p = ground arith

-- A plan passes its own validation.
pub signed_plan-valid :
    (encoder : Encoder) (found : Option Index)
    → IsCompatible found
    → validate_plan encoder (signed_plan encoder (observe found)) ≡ ok tt
unfolding validate_plan signed_plan observe
signed_plan-valid encoder none h =
    rw
      (
        same_value_refl (settings_for target_index_uid),
        eq_refl (checksum_value encoder (settings_for target_index_uid)),
        signed_checksum encoder (observe none),
      )
      refl
signed_plan-valid encoder (some index) h =
    rw
      (
        same_value_refl (settings_for target_index_uid),
        eq_refl (checksum_value encoder (settings_for target_index_uid)),
        signed_checksum encoder (observe (some index)),
        inspected_usable index h,
      )
      (elim (Bool-cases index.settings_match) [
        | inl matches ↦ rw (matches, usable_generation already_present index h (inl refl)) refl
        | inr drifted ↦ rw (drifted, usable_generation settings_drift index h (inr refl)) refl
      ])

pub planned-valid :
    (encoder : Encoder) (found : Option Index)
    → IsCompatible found
    → planned encoder (observe found) ≡ ok (signed_plan encoder (observe found))
unfolding planned observe require_compatible_primary_key
planned-valid encoder none h = rw (signed_plan-valid encoder none h) refl
planned-valid encoder (some index) h =
    rw (signed_plan-valid encoder (some index) h, inspected_usable index h)
      (elim (Bool-cases index.settings_match) [
        | inl matches ↦ rw matches refl
        | inr drifted ↦ rw drifted refl
      ])

pub after_ready :
    (plan : MigrationPlan) (n : ℕ) (index : Index)
    → IsUsable index
    → index.settings_match ≡ true
    → (same_state plan.observed_state missing ≡ true)
      ⊎ (require_planned_generation plan (observe (some index)) ≡ ok tt)
    → require_after_apply plan n (observe (some index))
      ≡ ok (n, not (same_state plan.observed_state missing))
unfolding require_after_apply observe
after_ready plan n index h matches (inl planned_missing) =
    rw (inspected_usable index h, matches, planned_missing) refl
after_ready plan n index h matches (inr same) =
    rw (same, inspected_usable index h, matches)
      (elim (Bool-cases (same_state plan.observed_state missing)) [
        | inl e ↦ rw e refl
        | inr e ↦ rw e refl
      ])

pub same_text_refl : (o : Option String) → same_text o o ≡ true
unfolding same_text
same_text_refl none = refl
same_text_refl (some s) = eq_refl s

pub inspected_exists : (index : Index) → (inspected index).exists ≡ true
unfolding inspected
inspected_exists index = ground arith

-- The plan that is made of what is there passes the guards there, and after a write that keeps the
-- generation of an index that was present.
pub guards_pass :
    (encoder : Encoder) (found : Option Index)
    → IsCompatible found
    → require_before_apply (signed_plan encoder (observe found)) (observe found) ≡ ok tt
unfolding require_before_apply require_compatible_primary_key require_planned_generation signed_plan
    observe
guards_pass encoder none h = refl
guards_pass encoder (some index) h =
    rw (inspected_usable index h) (elim (Bool-cases index.settings_match) [
      | inl matches ↦ rw (matches, same_text_refl index.created_at) refl
      | inr drifted ↦ rw (drifted, same_text_refl index.created_at) refl
    ])

abbrev pub Bound : Encoder → Option Index → Index → Type 0
Bound encoder found index =
    let plan = signed_plan encoder (observe found) in
    (same_state plan.observed_state missing ≡ true)
    ⊎ (require_planned_generation plan (observe (some index)) ≡ ok tt)

pub missing-Bound : (encoder : Encoder) (index : Index) → Bound encoder none index
unfolding signed_plan observe same_state
missing-Bound encoder index = inl refl

pub kept_generation :
    (encoder : Encoder) (old new : Index)
    → IsUsable old
    → new.created_at ≡ old.created_at
    → Bound encoder (some old) new
unfolding require_planned_generation signed_plan observe
kept_generation encoder old new h same = inr (
    rw (same, inspected_usable old h)
      (elim (Bool-cases old.settings_match) [
        | inl matches ↦ rw (matches, inspected_exists new, same_text_refl old.created_at) refl
        | inr drifted ↦ rw (drifted, inspected_exists new, same_text_refl old.created_at) refl
      ]))

-- A plan that is made of a ready index is verified there.
pub bound_ready :
    (encoder : Encoder) (index : Index)
    → IsUsable index
    → index.settings_match ≡ true
    → (verification_report
        (signed_plan encoder (observe (some index)))
        (observe (some index))).ready
      ≡ true
unfolding verification_report signed_plan observe
bound_ready encoder index h matches =
    rw (inspected_usable index h, matches, same_text_refl index.created_at) refl
