-- ===== src/Mutation/Checks/Unique.antt =====
-- The uniqueness checks and the removal of duplicates of src/mutation.rs.
use nowledge.Prelude.{
  String, eq_iff, eq_refl, ◌≡◌, refl, ap, ◌↔◌, false, ◌&&◌, not, List, [], ◌∷◌, ◌++◌, arith, All,
  All-map, ok, >>-eq-ok, fail_if-eq-ok, fail_if, is_blank, is_empty, contains,
}
use nowledge.Prelude.Sets.{IsUnique, str_eq_comm, append-IsUnique}
use nowledge.Mutation.Checks.{
  require_non_empty, validate_unique_from, validate_unique_non_empty, validate_task_uids_from,
  validate_task_uids, dedup_from, dedup_non_empty,
}

pub require_non_empty_iff :
    (label value : String) → (require_non_empty label value ≡ ok tt) ↔ (is_blank value ≡ false)
unfolding require_non_empty
require_non_empty_iff label value = ground arith

-- A text that may follow those seen.
abbrev IsFresh : List String → String → Type 0
IsFresh seen value = (is_blank value ≡ false) × (contains seen value ≡ false)

-- Texts fresh after one more text are fresh, and that text is none of them.
IsFresh-tail :
    (v : String) (seen vs : List String)
    → All (IsFresh (v ∷ seen)) vs
    → All (IsFresh seen) vs × (contains vs v ≡ false)
unfolding contains
IsFresh-tail v seen [] h = (tt, refl)
IsFresh-tail v seen (w ∷ ws) h =
    let rest = IsFresh-tail v seen ws h.1 in
    ((ground arith, rest.0), ground (arith, str_eq_comm v w))

IsFresh-cons :
    (v : String) (seen vs : List String)
    → All (IsFresh seen) vs
    → contains vs v ≡ false
    → All (IsFresh (v ∷ seen)) vs
unfolding contains
IsFresh-cons v seen [] h c = tt
IsFresh-cons v seen (w ∷ ws) h c =
    (ground (arith, str_eq_comm v w), IsFresh-cons v seen ws h.1 (ground arith))

validate_unique_from_sound :
    (label : String) (seen vs : List String)
    → validate_unique_from label seen vs ≡ ok tt
    → All (IsFresh seen) vs × IsUnique vs
unfolding validate_unique_from
validate_unique_from_sound label seen [] h = (tt, tt)
validate_unique_from_sound label seen (v ∷ vs) h =
    let blank = >>-eq-ok (require_non_empty label v) _ h in
    let fresh = >>-eq-ok (fail_if (contains seen v) _) _ blank.1 in
    let rest = validate_unique_from_sound label (v ∷ seen) vs fresh.1 in
    let older = IsFresh-tail v seen vs rest.0 in
    (
      (((require_non_empty_iff label v).0 blank.0, fail_if-eq-ok _ _ fresh.0), older.0),
      (older.1, rest.1),
    )

validate_unique_from_complete :
    (label : String) (seen vs : List String)
    → All (IsFresh seen) vs
    → IsUnique vs
    → validate_unique_from label seen vs ≡ ok tt
unfolding validate_unique_from
validate_unique_from_complete label seen [] h u = refl
validate_unique_from_complete label seen (v ∷ vs) h u =
    rw ((require_non_empty_iff label v).1 h.0.0, h.0.1)
      (validate_unique_from_complete label (v ∷ seen) vs (IsFresh-cons v seen vs h.1 u.0) u.1)

task_uids_unique :
    (label step_id : String) (seen vs : List String)
    → validate_task_uids_from step_id seen vs ≡ ok tt
    → validate_unique_from label seen vs ≡ ok tt
unfolding validate_task_uids_from validate_unique_from require_non_empty
task_uids_unique label step_id seen [] h = refl
task_uids_unique label step_id seen (v ∷ vs) h =
    ground (arith, task_uids_unique label step_id (v ∷ seen) vs)

unique-task_uids :
    (label step_id : String) (seen vs : List String)
    → validate_unique_from label seen vs ≡ ok tt
    → validate_task_uids_from step_id seen vs ≡ ok tt
unfolding validate_task_uids_from validate_unique_from require_non_empty
unique-task_uids label step_id seen [] h = refl
unique-task_uids label step_id seen (v ∷ vs) h =
    ground (arith, unique-task_uids label step_id (v ∷ seen) vs)

-- What `validate_unique_non_empty` and `validate_task_uids` accept.
abbrev pub IsUidList : List String → Type 0
IsUidList vs = All (λ v. is_blank v ≡ false) vs × IsUnique vs

IsFresh-nil : (vs : List String) → All (λ v. is_blank v ≡ false) vs → All (IsFresh []) vs
unfolding contains
IsFresh-nil vs = All-map (λ v. is_blank v ≡ false) (IsFresh []) (λ v b. (b, refl)) vs

-- The check passes exactly when no value is blank and none stands twice.
pub validate_unique_non_empty_iff :
    (label : String) (values : List String)
    → (validate_unique_non_empty label values ≡ ok tt) ↔ IsUidList values
unfolding validate_unique_non_empty
validate_unique_non_empty_iff label values = (
  λ h.
      let both = validate_unique_from_sound label [] values h in
      (All-map (IsFresh []) (λ v. is_blank v ≡ false) (λ v f. f.0) values both.0, both.1),
  λ u. validate_unique_from_complete label [] values (IsFresh-nil values u.0) u.1,
)

-- The check of a list of task UIDs passes exactly when no UID is blank and none stands twice.
pub validate_task_uids_iff :
    (step_id : String) (task_uids : List String)
    → (validate_task_uids step_id task_uids ≡ ok tt) ↔ IsUidList task_uids
unfolding validate_task_uids validate_unique_non_empty
validate_task_uids_iff step_id uids = (
  λ h. (validate_unique_non_empty_iff "" uids).0 (task_uids_unique "" step_id [] uids h),
  λ u. unique-task_uids "" step_id [] uids ((validate_unique_non_empty_iff "" uids).1 u),
)

-- `dedup_non_empty` keeps what is not empty and not seen.
pub contains-dedup_from :
    (seen vs : List String) (a : String)
    → contains (dedup_from seen vs) a ≡ (contains vs a && not (is_empty a) && not (contains seen a))
unfolding dedup_from contains
contains-dedup_from seen [] a = refl
contains-dedup_from seen (v ∷ vs) a =
    ground (arith, contains-dedup_from seen vs a, contains-dedup_from (v ∷ seen) vs a, eq_iff v a)

pub dedup_from-IsUnique : (seen vs : List String) → IsUnique (dedup_from seen vs)
unfolding dedup_from contains
dedup_from-IsUnique seen [] = tt
dedup_from-IsUnique seen (v ∷ vs) = ground (
  arith,
  dedup_from-IsUnique seen vs,
  dedup_from-IsUnique (v ∷ seen) vs,
  contains-dedup_from (v ∷ seen) vs v,
  eq_refl v,
)

-- Unique texts, followed by those of others that they lack, are unique.
pub append-dedup_from-IsUnique :
    (seen vs : List String) → IsUnique seen → IsUnique (seen ++ dedup_from seen vs)
append-dedup_from-IsUnique seen vs u =
    append-IsUnique seen (dedup_from seen vs) u (dedup_from-IsUnique seen vs)
      (λ a c. ground (arith, contains-dedup_from seen vs a))

not_empty_of_not_blank : (v : String) → is_blank v ≡ false → is_empty v ≡ false
unfolding is_blank
not_empty_of_not_blank String.[] h = cc
not_empty_of_not_blank (String.◌∷◌ c v) h = refl

dedup_from_fresh :
    (seen vs : List String) → All (IsFresh seen) vs → IsUnique vs → dedup_from seen vs ≡ vs
unfolding dedup_from
dedup_from_fresh seen [] h u = refl
dedup_from_fresh seen (v ∷ vs) h u =
    rw (not_empty_of_not_blank v h.0.0, h.0.1)
      (ap (λ (rest : List String). v ∷ rest)
        (dedup_from_fresh (v ∷ seen) vs (IsFresh-cons v seen vs h.1 u.0) u.1))

-- On task UIDs that were validated, the removal of duplicates changes nothing.
pub dedup_non_empty_of_IsUidList : (vs : List String) → IsUidList vs → dedup_non_empty vs ≡ vs
unfolding dedup_non_empty
dedup_non_empty_of_IsUidList vs u = dedup_from_fresh [] vs (IsFresh-nil vs u.0) u.1
