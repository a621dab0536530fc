-- ===== src/Mutation/Checks.antt =====
-- The errors of src/mutation.rs and its small checks.
pub mod Unique
pub mod Loops
use nowledge.Prelude.{
  String, str_eq, Bool, true, false, ◌&&◌, not, List, [], ◌∷◌, Result, ok, err, ◌>>=◌, ◌>>◌,
  fail_if, if◌then◌else◌, format, is_blank, is_empty, contains,
}

pub data MutationPlanError : Type 0 where
  invalid_plan : (message : String) → MutationPlanError
  unknown_step : (step_id : String) → MutationPlanError
  invalid_transition : (step_id reason : String) → MutationPlanError

abbrev pub Checked {ℓ} : Type ℓ → Type ℓ
Checked A = Result MutationPlanError A

-- A `for` loop whose body may return an error, without and with a state.
unfoldable pub for_each {ℓ} : {A : Type ℓ} → (A → Checked (Unit {0})) → List A → Checked (Unit {0})
for_each body [] = ok tt
for_each body (x ∷ xs) = body x >> for_each body xs

unfoldable pub for_each_from {ℓ κ} :
    {A : Type ℓ} {S : Type κ} → (S → A → Checked S) → S → List A → Checked S
for_each_from body s [] = ok s
for_each_from body s (x ∷ xs) = body s x >>= λ s'. for_each_from body s' xs

unfoldable pub require_non_empty : String → String → Checked (Unit {0})
require_non_empty label value =
    fail_if (is_blank value) (invalid_plan (format (label ∷ " must not be empty" ∷ [])))

unfoldable pub require_non_empty_slice {ℓ} : {A : Type ℓ} → String → List A → Checked (Unit {0})
require_non_empty_slice label [] = err (invalid_plan (format (label ∷ " must not be empty" ∷ [])))
require_non_empty_slice label (x ∷ xs) = ok tt

-- The loop of `validate_unique_non_empty`; `seen` is its `HashSet`.
unfoldable pub validate_unique_from : String → List String → List String → Checked (Unit {0})
validate_unique_from label seen [] = ok tt
validate_unique_from label seen (value ∷ values) = do
  require_non_empty label value
  fail_if (contains seen value)
      (invalid_plan (format ("duplicate " ∷ label ∷ " `" ∷ value ∷ "`" ∷ [])))
  validate_unique_from label (value ∷ seen) values

unfoldable pub validate_unique_non_empty : String → List String → Checked (Unit {0})
unfolding validate_unique_from
validate_unique_non_empty label values = validate_unique_from label [] values

-- The loop of `validate_task_uids`.
unfoldable pub validate_task_uids_from : String → List String → List String → Checked (Unit {0})
validate_task_uids_from step_id seen [] = ok tt
validate_task_uids_from step_id seen (task_uid ∷ task_uids) = do
  require_non_empty "task UID" task_uid
  fail_if (contains seen task_uid)
      (invalid_plan (format ("step `" ∷ step_id ∷ "` contains a duplicate task UID" ∷ [])))
  validate_task_uids_from step_id (task_uid ∷ seen) task_uids

unfoldable pub validate_task_uids : String → List String → Checked (Unit {0})
unfolding validate_task_uids_from
validate_task_uids step_id task_uids = validate_task_uids_from step_id [] task_uids

unfoldable pub tenant_matches : String → String → String → Checked (Unit {0})
tenant_matches expected actual resource =
    fail_if (not (str_eq actual expected))
      (invalid_plan (format (resource ∷ " tenant does not match the operation tenant" ∷ [])))

-- The filter of `dedup_non_empty`: an empty text is dropped before it is counted as seen.
unfoldable pub dedup_from : List String → List String → List String
dedup_from seen [] = []
dedup_from seen (value ∷ values) =
    let keep = not (is_empty value) && not (contains seen value) in
    let rest = dedup_from (if keep then value ∷ seen else seen) values in
    if keep then value ∷ rest else rest

unfoldable pub dedup_non_empty : List String → List String
unfolding dedup_from
dedup_non_empty values = dedup_from [] values
