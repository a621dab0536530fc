-- ===== src/OperationsMigration/Converges.antt =====
-- A whole migration over a backend that answers: plan, apply, plan again and verify.
use nowledge.Prelude.{
  ℕ, String, true, false, not, ◌≡◌, refl, Option, none, some, is_some, length, List, [], ok,
  same_text, ◌⊎◌, inl, inr, Bool-cases,
}
use nowledge.Json.Canonical.{Encoder}
use nowledge.OperationsMigration.Plans.{
  target_index_uid, target_primary_key, MigrationPlan, validate_plan, IndexInspection, missing,
  same_state,
}
use nowledge.OperationsMigration.Reports.{
  ApplyReport, VerificationReport, verification_report, signed_plan, require_planned_generation,
  apply_report, require_generation,
}
use nowledge.OperationsMigration.Commands.{
  OperationsV1Backend, inspect, inspect_existing, inspect_present, inspect_key, inspect_settings,
  provide_index, execute, outcome_of, apply_observed, create_plan, apply_plan, verify_plan,
}
use nowledge.OperationsMigration.Verified.{verification_report-ready_iff}
use nowledge.OperationsMigration.Reads.{Index, observe}
use nowledge.OperationsMigration.Signed.{
  IsUsable, IsCompatible, inspected_usable, signed_plan-valid, planned-valid, after_ready,
  guards_pass, Bound, missing-Bound, kept_generation, bound_ready,
}

-- A search engine that answers every call and has no other client.
pub record IsResponsive {S : Type 0} (backend : OperationsV1Backend S) (view : S → Option Index)
    : Type 0 where
  pub exists_answers :
      (s : S) → backend.index_exists target_index_uid s ≡ (ok (is_some (view s)), s)
  pub created_at_answers :
      (s : S) (index : Index)
      → view s ≡ some index
      → backend.index_created_at target_index_uid s ≡ (ok index.created_at, s)
  pub primary_key_answers :
      (s : S) (index : Index)
      → view s ≡ some index
      → backend.index_primary_key target_index_uid s ≡ (ok index.primary_key, s)
  pub settings_answers :
      (s : S) (index : Index)
      → view s ≡ some index
      → backend.index_settings_match target_index_uid s ≡ (ok index.settings_match, s)
  pub creates :
      (s : S)
      → view s ≡ none
      → (uids : List String) × ((s' : S) × ((index : Index) × (backend.create_index_strict
                target_index_uid target_primary_key true s
              ≡ (ok uids, s'))
            × (view s' ≡ some index)
            × IsUsable index
            × (index.settings_match ≡ true)))
  pub reconciles :
      (s : S) (index : Index)
      → view s ≡ some index
      → IsUsable index
      → (uids : List String) × ((s' : S) × (backend.reconcile_existing_index target_index_uid
              target_primary_key true s
            ≡ (ok uids, s'))
          × (view s' ≡ some (record index { settings_match = true })))

module _ {S : Type 0} {backend : OperationsV1Backend S} {view : S → Option Index}
    (responsive : IsResponsive backend view) (encoder : Encoder) where
  open responsive use {
    exists_answers, created_at_answers, primary_key_answers, settings_answers, creates, reconciles,
  }

  -- The four reads, in the state where the index is present.
  inspect_present-answers :
      (s : S) (index : Index)
      → view s ≡ some index
      → IsUsable index
      → inspect backend s ≡ (ok (observe (some index)), s)
  unfolding inspect inspect_existing inspect_present inspect_key inspect_settings require_generation
      observe same_text
  inspect_present-answers s index here h =
      rw
        (
          exists_answers s,
          here,
          created_at_answers s index here,
          h.1,
          primary_key_answers s index here,
          h.0,
          settings_answers s index here,
        )
        refl

  inspect-answers :
      (s : S) (found : Option Index)
      → view s ≡ found
      → IsCompatible found
      → inspect backend s ≡ (ok (observe found), s)
  inspect-answers s none here h =
      unfold inspect in
      unfold inspect_existing in unfold observe in rw (exists_answers s, here) refl
  inspect-answers s (some index) here h = inspect_present-answers s index here h

  create_plan-answers :
      (s : S) (found : Option Index)
      → view s ≡ found
      → IsCompatible found
      → create_plan backend encoder s ≡ (ok (signed_plan encoder (observe found)), s)
  unfolding create_plan
  create_plan-answers s found here h =
      rw (inspect-answers s found here h, planned-valid encoder found h) refl

  verify_plan-answers :
      (plan : MigrationPlan) (s : S) (index : Index)
      → validate_plan encoder plan ≡ ok tt
      → view s ≡ some index
      → IsUsable index
      → verify_plan backend encoder plan s
        ≡ (ok (verification_report plan (observe (some index))), s)
  unfolding verify_plan
  verify_plan-answers plan s index valid here h =
      rw (valid, inspect_present-answers s index here h) refl

  execute-answers :
      (plan : MigrationPlan) (before : IndexInspection) (s s' : S) (n : ℕ) (index : Index)
      → provide_index backend before s ≡ (ok n, s')
      → view s' ≡ some index
      → IsUsable index
      → index.settings_match ≡ true
      → (same_state plan.observed_state missing ≡ true)
        ⊎ (require_planned_generation plan (observe (some index)) ≡ ok tt)
      → execute backend encoder plan before s
        ≡ (ok (n, not (same_state plan.observed_state missing)), s')
  unfolding execute
  execute-answers plan before s s' n index provided here h matches same =
      rw
        (provided, inspect_present-answers s' index here h, after_ready plan n index h matches same)
        refl

  -- The write makes the index ready.
  provide_index-answers :
      (s : S) (found : Option Index)
      → view s ≡ found
      → IsCompatible found
      → (n : ℕ) × ((s' : S) × ((index : Index) × (provide_index backend (observe found).inspection s
              ≡ (ok n, s'))
            × (view s' ≡ some index)
            × IsUsable index
            × (index.settings_match ≡ true)
            × Bound encoder found index))
  unfolding provide_index observe
  provide_index-answers s none here h =
      let (uids, (s', (index, made, there, usable, matches))) = creates s here in
      (
        length uids,
        (s', (index, rw made refl, there, usable, matches, missing-Bound encoder index)),
      )
  provide_index-answers s (some index) here h = elim (Bool-cases index.settings_match) [
    | inl matches ↦ (
      0,
      (
        s,
        (
          index,
          rw (inspected_usable index h, matches) refl,
          here,
          h,
          matches,
          kept_generation encoder index index h refl,
        ),
      ),
    )
    | inr drifted ↦
        let (uids, (s', made, there)) = reconciles s index here h in
        (
          length uids,
          (
            s',
            (
              record index { settings_match = true },
              rw (inspected_usable index h, drifted, made) refl,
              there,
              h,
              refl,
              kept_generation encoder index (record index { settings_match = true }) h refl,
            ),
          ),
        )
  ]

  apply_plan-answers :
      (s : S) (found : Option Index)
      → view s ≡ found
      → IsCompatible found
      → (report : ApplyReport) × ((s' : S) × ((index : Index) × (apply_plan backend encoder
                (signed_plan encoder (observe found))
                false
                s
              ≡ (ok report, s'))
            × (view s' ≡ some index)
            × IsUsable index
            × (index.settings_match ≡ true)))
  unfolding apply_plan apply_observed outcome_of
  apply_plan-answers s found here h =
      let plan = signed_plan encoder (observe found) in
      let (n, (s', (index, provided, there, usable, matches, bound))) =
        provide_index-answers s found here h in
      (
        apply_report plan false (observe found).inspection
            (n, not (same_state plan.observed_state missing)),
        (
          s',
          (
            index,
            rw
                (
                  signed_plan-valid encoder found h,
                  inspect-answers s found here h,
                  guards_pass encoder found h,
                  execute-answers plan (observe found).inspection s s' n index provided there usable
                      matches bound,
                )
                refl,
            there,
            usable,
            matches,
          ),
        ),
      )

  -- Over a search engine that answers every call and has no other client, from a state where the
  -- index is missing, or has the primary key `id` and a `createdAt`: `create_plan` answers a plan,
  -- `apply_plan` of it succeeds, and in the state it leaves a second `create_plan` answers a plan that
  -- `verify_plan` finds ready, with no failure. Only `apply_plan` changes the state.
  pub migration_succeeds :
      (s : S)
      → IsCompatible (view s)
      → (plan : MigrationPlan) × ((report : ApplyReport) × ((s' : S) × ((bound : MigrationPlan)
              × ((verification : VerificationReport) × (create_plan backend encoder s
                    ≡ (ok plan, s))
                  × (apply_plan backend encoder plan false s ≡ (ok report, s'))
                  × (create_plan backend encoder s' ≡ (ok bound, s'))
                  × (verify_plan backend encoder bound s' ≡ (ok verification, s'))
                  × (verification.ready ≡ true)
                  × (verification.failures ≡ [])))))
  migration_succeeds s h =
      let (report, (s', (index, applied, there, usable, matches))) =
        apply_plan-answers s (view s) refl h in
      let bound = signed_plan encoder (observe (some index)) in
      let ready = bound_ready encoder index usable matches in
      (
        signed_plan encoder (observe (view s)),
        (
          report,
          (
            s',
            (
              bound,
              (
                verification_report bound (observe (some index)),
                create_plan-answers s (view s) refl h,
                applied,
                create_plan-answers s' (some index) there usable,
                verify_plan-answers bound s' index (signed_plan-valid encoder (some index) usable)
                    there usable,
                ready,
                (verification_report-ready_iff bound (observe (some index))).0 ready,
              ),
            ),
          ),
        ),
      )
