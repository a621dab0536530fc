-- ===== src/Mutation/Compaction/Valid.antt =====
-- Compaction of a settled operation (src/mutation.rs): when it succeeds, and its result.
use nowledge.Prelude.{
  String, ◌≡◌, refl, true, false, ◌&&◌, ◌||◌, not, none, some, List, [], ◌∷◌, map, arith, Result,
  ok, >>-eq-ok, >>=-eq-ok, contains, same_set,
}
use nowledge.Prelude.Sets.{same_set_of_contains}
use nowledge.Json.{
  Value, null, object, Fields, end, is_null, is_object, get_in, get_field, as_object, insert_in,
  field_names,
}
use nowledge.Json.Laws.{get_in-insert_in, contains-field_names-insert_in}
use nowledge.Models.Operations.{OperationResource, OperationStep, OperationPlan, OperationRecord}
use nowledge.Mutation.Checks.{for_each_from}
use nowledge.Mutation.Plans.{
  operation_steps, validate_steps, bind_step, validate_company_source_delete_steps,
  owner_commitment, validate_analysis_owner, validate_analysis_materialization_steps,
  validate_plan_header, validate_operation_plan,
}
use nowledge.Mutation.Records.{
  compacted_payloads_metadata_key, operation_is_settled, operation_is_compacted, step_ids,
  matches_plan, derive_operation_state, covers, validate_compaction, validate_operation_record,
}
use nowledge.Mutation.Records.Valid.{IsValidRecord, validate_operation_record_iff}
use nowledge.Mutation.Compaction.{
  clear_step, metadata_fields, compacted_plan, digest, serialized_step, collect_digests, compact,
  compact_settled_operation,
}
use nowledge.Mutation.Compaction.Bodies.{
  check_delete_step-clear, bind_step-clear, validate_step-clear, validate_side_effect-clear,
  step_ids-clear, clear_step-role, side_statuses-clear,
}

-- The metadata's fields answer as the metadata did.
get_field-metadata :
    (k : String) (metadata : Value) (fields : Fields)
    → metadata_fields metadata ≡ ok fields
    → get_field k metadata ≡ get_in k fields
unfolding metadata_fields get_field get_in
get_field-metadata k metadata fields h = ground arith

module _ (plan : OperationPlan) (fields digests : Fields)
    (known : metadata_fields plan.redacted_metadata ≡ ok fields) where
  abbrev cleared : OperationPlan
  cleared = compacted_plan plan fields digests

  header_kept : validate_plan_header plan ≡ ok tt → validate_plan_header cleared ≡ ok tt
  unfolding validate_plan_header compacted_plan is_null is_object
  header_kept h = ground arith

  steps_kept : validate_steps cleared ≡ validate_steps plan
  unfolding validate_steps compacted_plan
  steps_kept =
      simp ((clear_step-role plan.primary).0, validate_step-clear, validate_side_effect-clear)

  deletes_kept :
      validate_company_source_delete_steps cleared ≡ validate_company_source_delete_steps plan
  unfolding validate_company_source_delete_steps compacted_plan operation_steps
  deletes_kept = rw (check_delete_step-clear [] (plan.primary ∷ plan.side_effects))

  commitment_kept :
      owner_commitment cleared.redacted_metadata ≡ owner_commitment plan.redacted_metadata
  unfolding owner_commitment compacted_plan get_field
  commitment_kept = ground (
    arith,
    get_field-metadata "target_owner_user_id_hash" plan.redacted_metadata fields known,
    get_in-insert_in compacted_payloads_metadata_key "target_owner_user_id_hash" (object digests)
        fields,
  )

  steps_bound :
      (hash : String)
      → for_each_from
          (bind_step hash)
          none
          (clear_step plan.primary ∷ map clear_step plan.side_effects)
        ≡ for_each_from (bind_step hash) none (plan.primary ∷ plan.side_effects)
  steps_bound hash = bind_step-clear hash none (plan.primary ∷ plan.side_effects)

  analysis_kept :
      validate_analysis_materialization_steps cleared ≡ validate_analysis_materialization_steps plan
  unfolding validate_analysis_materialization_steps validate_analysis_owner compacted_plan
      operation_steps
  analysis_kept = simp (commitment_kept, steps_bound)

  plan_kept : validate_operation_plan plan ≡ ok tt → validate_operation_plan cleared ≡ ok tt
  unfolding validate_operation_plan
  plan_kept h =
      let header = >>-eq-ok (validate_plan_header plan) _ h in
      rw (header_kept header.0, steps_kept, deletes_kept, analysis_kept) header.1

metadata_test :
    (plan : OperationPlan)
    → validate_plan_header plan ≡ ok tt
    → (not (is_null plan.redacted_metadata) && not (is_object plan.redacted_metadata)) ≡ false
unfolding validate_plan_header
metadata_test plan h = ground arith

known_of_test :
    (metadata : Value)
    → (not (is_null metadata) && not (is_object metadata)) ≡ false
    → (fields : Fields) × (metadata_fields metadata ≡ ok fields)
unfolding is_null is_object metadata_fields
known_of_test null h = (end, refl)
known_of_test (object fields) h = (fields, refl)
known_of_test _ h = absurd (cc)

-- The metadata of an accepted plan is an object or null.
metadata_known :
    (plan : OperationPlan)
    → validate_plan_header plan ≡ ok tt
    → (fields : Fields) × (metadata_fields plan.redacted_metadata ≡ ok fields)
metadata_known plan h = known_of_test plan.redacted_metadata (metadata_test plan h)

-- The digests are kept under the ids of the steps.
module _ (to_string : OperationResource → Result String String)
    (fingerprint : String → String) where
  digest_names :
      (digests result : Fields) (steps : List OperationStep) (a : String)
      → collect_digests to_string fingerprint digests steps ≡ ok result
      → contains (field_names result) a
        ≡ (contains (field_names digests) a || contains (step_ids steps) a)
  unfolding collect_digests step_ids contains
  digest_names digests result [] a h = ground arith
  digest_names digests result (step ∷ rest) a h =
      let (text, given, later) = >>=-eq-ok (serialized_step step (to_string step.resource)) _ h in
      ground (
        arith,
        digest_names (insert_in step.id (digest fingerprint text) digests) result rest a later,
        contains-field_names-insert_in step.id a (digest fingerprint text) digests,
      )

  collect_total :
      ((x : OperationResource) → (text : String) × (to_string x ≡ ok text))
      → (digests : Fields) (steps : List OperationStep)
      → (result : Fields) × (collect_digests to_string fingerprint digests steps ≡ ok result)
  unfolding collect_digests serialized_step
  collect_total total digests [] = (digests, refl)
  collect_total total digests (step ∷ rest) =
      let (text, given) = total step.resource in
      let (result, rest_done) =
        collect_total total (insert_in step.id (digest fingerprint text) digests) rest in
      (result, rw given rest_done)

  module _ (r : OperationRecord) (fields digests : Fields) (v : IsValidRecord r)
      (settled : operation_is_settled r ≡ true)
      (known : metadata_fields r.plan.redacted_metadata ≡ ok fields)
      (given : collect_digests to_string fingerprint end (r.plan.primary ∷ r.plan.side_effects)
        ≡ ok digests) where
    abbrev compacted : OperationRecord
    compacted = record r { plan = compacted_plan r.plan fields digests }

    ids_kept : step_ids (operation_steps compacted.plan) ≡ step_ids (operation_steps r.plan)
    unfolding compacted_plan operation_steps
    ids_kept = step_ids-clear (r.plan.primary ∷ r.plan.side_effects)

    identity_kept : matches_plan compacted ≡ true
    unfolding compacted_plan matches_plan
    identity_kept = v.identity

    derived_kept : derive_operation_state compacted ≡ ok (r.status, r.indexing_state)
    unfolding compacted_plan derive_operation_state
    derived_kept =
        rw
          (
            (clear_step-role r.plan.primary).1,
            side_statuses-clear r.progress.steps r.plan.side_effects,
          )
          v.derived

    settled_kept : operation_is_settled compacted ≡ true
    unfolding operation_is_settled
    settled_kept = settled

    ids_digested : same_set (field_names digests) (step_ids (operation_steps r.plan)) ≡ true
    unfolding operation_steps field_names contains
    ids_digested =
        same_set_of_contains (field_names digests) (step_ids (operation_steps r.plan))
          (λ a. digest_names end digests (r.plan.primary ∷ r.plan.side_effects) a given)

    compaction_kept :
        validate_compaction compacted
          (get_field compacted_payloads_metadata_key compacted.plan.redacted_metadata)
        ≡ ok tt
    unfolding validate_compaction covers get_field as_object compacted_plan
    compaction_kept =
        rw
          (get_in-insert_in compacted_payloads_metadata_key compacted_payloads_metadata_key
            (object digests) fields)
          (rw (settled_kept, ids_kept, ids_digested))

    -- What `compact` makes of a valid, settled record that was not compacted.
    compacted-IsValidRecord : IsValidRecord compacted
    compacted-IsValidRecord = record {
      plan_valid = plan_kept r.plan fields digests known v.plan_valid;
      identity = identity_kept;
      times = v.times;
      covered = rw ids_kept v.covered;
      entries = v.entries;
      derived = derived_kept;
      completion = v.completion;
      compaction = compaction_kept;
    }

  header_of : (r : OperationRecord) → IsValidRecord r → validate_plan_header r.plan ≡ ok tt
  unfolding validate_operation_plan
  header_of r v = (>>-eq-ok (validate_plan_header r.plan) _ v.plan_valid).0

  now_compacted :
      (plan : OperationPlan) (fields digests : Fields)
      → get_field compacted_payloads_metadata_key
          (compacted_plan plan fields digests).redacted_metadata
        ≡ some (object digests)
  unfolding compacted_plan get_field
  now_compacted plan fields digests =
      get_in-insert_in compacted_payloads_metadata_key compacted_payloads_metadata_key
        (object digests) fields

  -- If payloads can be serialized, compaction of a valid and settled record that was not compacted
  -- succeeds: the result is valid and still settled, has the same progress, state and cleared steps
  -- under the same ids, and is compacted, so that a second compaction does nothing.
  pub compact_succeeds :
      (r : OperationRecord)
      → ((x : OperationResource) → (text : String) × (to_string x ≡ ok text))
      → validate_operation_record r ≡ ok tt
      → operation_is_settled r ≡ true
      → operation_is_compacted r ≡ false
      → (r' : OperationRecord) × (compact_settled_operation to_string fingerprint r ≡ ok (some r'))
        × (validate_operation_record r' ≡ ok tt)
        × (r'.progress ≡ r.progress)
        × (r'.status ≡ r.status)
        × (operation_steps r'.plan ≡ map clear_step (operation_steps r.plan))
        × (compact_settled_operation to_string fingerprint r' ≡ ok none)
  unfolding compact_settled_operation compact operation_is_compacted operation_is_settled
      compacted_plan operation_steps
  compact_succeeds r total valid settled fresh =
      let v = (validate_operation_record_iff r).0 valid in
      let (fields, known) = metadata_known r.plan (header_of r v) in
      let (digests, given) = collect_total total end (r.plan.primary ∷ r.plan.side_effects) in
      let valid' =
        (validate_operation_record_iff _).1
          (compacted-IsValidRecord r fields digests v settled known given) in
      (
        record r { plan = compacted_plan r.plan fields digests },
        rw (settled, fresh, known, given, valid'),
        valid',
        refl,
        refl,
        refl,
        rw (now_compacted r.plan fields digests, settled),
      )
