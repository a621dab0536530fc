-- ===== src/OperationsMigration/Reads.antt =====
-- A backend whose reads tell what the index is and change nothing, and what `inspect` makes of it.
use nowledge.Prelude.{
  String, Bool, ◌≡◌, refl, sym, subst, inl, inr, Option, none, some, is_some, if◌then◌else◌, Result,
  ok, err, same_text, Bool-cases, Option-cases,
}
use nowledge.Prelude.Effects.{Effect, continue, ◌>>◌, return, lift}
use nowledge.OperationsMigration.Plans.{
  target_index_uid, target_primary_key, missing_index, ready_index, drifted_index, mismatched_index,
  ObservedIndex, IndexInspection,
}
use nowledge.OperationsMigration.Reports.{require_generation}
use nowledge.OperationsMigration.Commands.{
  OperationsV1Backend, inspect_settings, inspect_key, inspect_present, inspect_existing, inspect,
}

-- What Meilisearch holds of the target index.
pub record Index : Type 0 where
  pub primary_key : Option String
  pub created_at : Option String
  pub settings_match : Bool

-- The call leaves the state alone; if it answers, it answers `a`.
abbrev pub Reads : {S E A : Type 0} → Result E A × S → S → A → Type 0
Reads {A} outcome s a = (outcome.1 ≡ s) × ((b : A) → outcome.0 ≡ ok b → b ≡ a)

-- The four reads of a backend, with no other writer at work.
pub record IsFaithful {S : Type 0} (backend : OperationsV1Backend S) (view : S → Option Index)
    : Type 0 where
  pub exists_reads : (s : S) → Reads (backend.index_exists target_index_uid s) s (is_some (view s))
  pub created_at_reads :
      (s : S) (index : Index)
      → view s ≡ some index
      → Reads (backend.index_created_at target_index_uid s) s index.created_at
  pub primary_key_reads :
      (s : S) (index : Index)
      → view s ≡ some index
      → Reads (backend.index_primary_key target_index_uid s) s index.primary_key
  pub settings_reads :
      (s : S) (index : Index)
      → view s ≡ some index
      → Reads (backend.index_settings_match target_index_uid s) s index.settings_match

unfoldable pub inspected : Index → IndexInspection
inspected index =
    if same_text index.primary_key (some target_primary_key)
    then if index.settings_match then ready_index else drifted_index
    else mismatched_index

-- What an inspection finds.
unfoldable pub observe : Option Index → ObservedIndex
unfolding inspected
observe none = record { inspection = missing_index; created_at = none }
observe (some index) = record { inspection = inspected index; created_at = index.created_at }

pub Reads-return : {S E A : Type 0} (a : A) (s : S) → Reads {E = E} (return a s) s a
Reads-return a s = (refl, λ b h. cc)

module _ {S E B : Type 0} where
  pub Reads-continue :
      {A : Type 0} (outcome : Result E A × S) (rest : A → Effect S E B) (s : S) {a : A} {b : B}
      → Reads outcome s a
      → Reads (rest a s) s b
      → Reads (continue outcome rest) s b
  Reads-continue (err e, s') rest s h k = (h.0, λ c p. absurd (cc))
  Reads-continue (ok a', s') rest s {a} {b} h k =
      subst (λ t. Reads (rest a' t) s b) (sym h.0)
        (subst (λ x. Reads (rest x s) s b) (sym (h.1 a' refl)) k)

  -- After a check that reads nothing.
  pub Reads-check :
      (check : Result E (Unit {0})) (rest : Effect S E B) (s : S) {b : B}
      → Reads (rest s) s b
      → Reads ((lift check >> rest) s) s b
  Reads-check (ok tt) rest s h = h
  Reads-check (err e) rest s h = (refl, λ c p. absurd (cc))

module _ {S : Type 0} {backend : OperationsV1Backend S} {view : S → Option Index}
    (faithful : IsFaithful backend view) where
  inspect_settings-Reads :
      (s : S) (index : Index)
      → view s ≡ some index
      → Reads (inspect_settings backend index.created_at s) s record {
        inspection = if index.settings_match then ready_index else drifted_index;
        created_at = index.created_at;
      }
  unfolding inspect_settings
  inspect_settings-Reads s index here =
      Reads-continue (backend.index_settings_match target_index_uid s) _ s
        (faithful.settings_reads s index here) (Reads-return _ s)

  inspect_key-Reads :
      (s : S) (index : Index)
      → view s ≡ some index
      → Reads (inspect_key backend index.created_at index.primary_key s) s (observe (some index))
  unfolding inspect_key observe
  inspect_key-Reads s index here =
      elim (Bool-cases (same_text index.primary_key (some target_primary_key))) [
        | inl keyed ↦ rw keyed (inspect_settings-Reads s index here)
        | inr other ↦ rw other (Reads-return _ s)
      ]

  inspect_present-Reads :
      (s : S) (index : Index)
      → view s ≡ some index
      → Reads (inspect_present backend index.created_at s) s (observe (some index))
  unfolding inspect_present
  inspect_present-Reads s index here = Reads-check (require_generation index.created_at) _ s (
      Reads-continue (backend.index_primary_key target_index_uid s)
        (inspect_key backend index.created_at) s (faithful.primary_key_reads s index here)
        (inspect_key-Reads s index here))

  inspect_existing-Reads :
      (s : S) → Reads (inspect_existing backend (is_some (view s)) s) s (observe (view s))
  unfolding inspect_existing observe
  inspect_existing-Reads s = elim (Option-cases (view s)) [
    | inl absent ↦ rw absent (Reads-return _ s)
    | inr (index, here) ↦ rw here (
        Reads-continue (backend.index_created_at target_index_uid s) (inspect_present backend) s
          (faithful.created_at_reads s index here) (inspect_present-Reads s index here))
  ]

  -- An inspection changes nothing and, if it answers, answers what is there.
  pub inspect-Reads : (s : S) → Reads (inspect backend s) s (observe (view s))
  unfolding inspect
  inspect-Reads s =
      Reads-continue (backend.index_exists target_index_uid s) (inspect_existing backend) s
        (faithful.exists_reads s) (inspect_existing-Reads s)

-- A call that is known to answer reads.
pub Reads-answers :
    {S E A : Type 0} (outcome : Result E A × S) (s : S) (a : A)
    → outcome ≡ (ok a, s)
    → Reads outcome s a
Reads-answers outcome s a e = rw e (refl, λ b h. cc)
