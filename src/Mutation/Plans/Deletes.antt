-- ===== src/Mutation/Plans/Deletes.antt =====
-- The order of a company source's deletions in an accepted plan (src/mutation.rs).
use nowledge.Prelude.{
  ℕ, zero, suc, ◌+◌, ◌≤◌, String, str_eq, eq_iff, ◌≡◌, refl, ap, ◌∙◌, ◌⊎◌, inl, inr, Option, none,
  some, List, [], ◌∷◌, arith, ok, >>-eq-ok, >>=-eq-ok, if◌then◌else◌, Option-cases,
}
use nowledge.Prelude.Table.{Table, get}
use nowledge.Prelude.Entries.{get-insert, All-get}
use nowledge.Models.Operations.{
  CompanySourceDeleteTarget, OperationResource, OperationStep, OperationPlan,
}
use nowledge.Mutation.Checks.{for_each, for_each_from}
use nowledge.Mutation.Checks.Loops.{for_each_sound}
use nowledge.Mutation.Plans.{
  or_zero, operation_steps, target_index, check_delete_target, check_delete_step, check_all_targets,
  validate_company_source_delete_steps, validate_plan_header, validate_steps,
  validate_operation_plan,
}

-- The index of the target that a resource deletes from the source, if it does.
abbrev own_target : String → OperationResource → Option ℕ
own_target source (OperationResource.delete_company_source_index id target) =
    if str_eq id source then some (target_index target) else none
own_target source _ = none

abbrev with_target : Option ℕ → List ℕ → List ℕ
with_target none rest = rest
with_target (some n) rest = n ∷ rest

-- The targets that the steps delete from the source, in order.
pub targets : String → List OperationStep → List ℕ
targets source [] = []
targets source (step ∷ rest) = with_target (own_target source step.resource) (targets source rest)

-- `n` numbers from the first one on.
pub count_up : ℕ → ℕ → List ℕ
count_up first zero = []
count_up first (suc n) = first ∷ count_up (suc first) n

-- The target that the source needs next.
abbrev due : String → Table ℕ → ℕ
due source next = or_zero (get source next)

target_index_bound : (target : CompanySourceDeleteTarget) → target_index target ≤ 7
unfolding target_index
target_index_bound target = ground arith

-- One step: the source's next target is deleted and counted, or nothing changes for the source.
step_due :
    (source : String) (next next' : Table ℕ) (id : String) (resource : OperationResource)
    → check_delete_target next id resource ≡ ok next'
    → ((own_target source resource ≡ none) × (due source next' ≡ due source next))
      ⊎ ((own_target source resource ≡ some (due source next))
          × (due source next' ≡ suc (due source next))
          × (due source next ≤ 7))
unfolding check_delete_target
step_due source next next' id (OperationResource.delete_company_source_index owner target) h =
    ground (
      arith,
      get-insert owner source (or_zero (get owner next) + 1) next,
      eq_iff owner source,
      target_index_bound target,
    )
step_due source next next' id (OperationResource.history_events events) h = inl (refl, ground arith)
step_due source next next' id _ h = inl (refl, ground arith)

-- The loop deletes the source's targets one by one, from the one that is due.
loop_targets :
    (source : String) (next final : Table ℕ) (steps : List OperationStep)
    → for_each_from check_delete_step next steps ≡ ok final
    → (n : ℕ) × (targets source steps ≡ count_up (due source next) n)
      × (due source final ≡ due source next + n)
unfolding for_each_from check_delete_step targets count_up
loop_targets source next final [] h = (0, refl, ground arith)
loop_targets source next final (step ∷ rest) h =
    let (next', first, later) = >>=-eq-ok (check_delete_target next step.id step.resource) _ h in
    let (n, listed, total) = loop_targets source next' final rest later in
    elim (step_due source next next' step.id step.resource first) [
      | inl (skipped, same) ↦
          (n, rw skipped (listed ∙ ap (λ (d : ℕ). count_up d n) same), omega (arith, total, same))
      | inr (deleted, moved, small) ↦ (
        suc n,
        rw deleted (
            ap (λ (l : List ℕ). due source next ∷ l) (listed ∙ ap (λ (d : ℕ). count_up d n) moved)),
        omega (arith, total, moved),
      )
    ]

-- No source is ever past its eighth target.
loop_bound :
    (source : String) (next final : Table ℕ) (steps : List OperationStep)
    → due source next ≤ 8
    → for_each_from check_delete_step next steps ≡ ok final
    → due source final ≤ 8
unfolding for_each_from check_delete_step
loop_bound source next final [] b h = ground arith
loop_bound source next final (step ∷ rest) b h =
    let (next', first, later) = >>=-eq-ok (check_delete_target next step.id step.resource) _ h in
    loop_bound source next' final rest
      (ground (arith, step_due source next next' step.id step.resource first)) later

-- A source that was deleted from at all has lost its seven required targets.
required :
    (source : String) (final : Table ℕ)
    → for_each check_all_targets final ≡ ok tt
    → (due source final ≡ 0) ⊎ (7 ≤ due source final)
unfolding check_all_targets
required source final h = elim (Option-cases (get source final)) [
  | inl e ↦ inl (rw e)
  | inr (n, e) ↦
      let enough =
        All-get (λ s. check_all_targets s ≡ ok tt) source n final e
          (for_each_sound check_all_targets final h) in
      inr (ground (arith, enough))
]

-- In an accepted plan the deletions of each source are, in this order, the seven required targets
-- 0 to 6 (fragments, revisions, source, source documents, parse artifacts, ingest tasks, ingest
-- results), these and then 7 (links), or none at all.
pub deletes_in_order :
    (plan : OperationPlan) (source : String)
    → validate_operation_plan plan ≡ ok tt
    → (targets source (operation_steps plan) ≡ [])
      ⊎ (targets source (operation_steps plan) ≡ count_up 0 7)
      ⊎ (targets source (operation_steps plan) ≡ count_up 0 8)
unfolding validate_operation_plan validate_company_source_delete_steps count_up get
deletes_in_order plan source h =
    let header = >>-eq-ok (validate_plan_header plan) _ h in
    let (ids, steps, rest) = >>=-eq-ok (validate_steps plan) _ header.1 in
    let deletes = >>-eq-ok (validate_company_source_delete_steps plan) _ rest in
    let (final, loop, all) =
      >>=-eq-ok (for_each_from check_delete_step [] (operation_steps plan)) _ deletes.0 in
    let (n, listed, total) = loop_targets source [] final (operation_steps plan) loop in
    let bound = loop_bound source [] final (operation_steps plan) (omega arith) loop in
    counted (targets source (operation_steps plan)) n listed
      (ground (arith, total, bound, required source final all))
  where
    counted :
        (l : List ℕ) (n : ℕ)
        → l ≡ count_up 0 n
        → (n ≡ 0) ⊎ (n ≡ 7) ⊎ (n ≡ 8)
        → (l ≡ []) ⊎ (l ≡ count_up 0 7) ⊎ (l ≡ count_up 0 8)
    counted l n e (inl z) = inl (e ∙ ap (count_up 0) z)
    counted l n e (inr (inl z)) = inr (inl (e ∙ ap (count_up 0) z))
    counted l n e (inr (inr z)) = inr (inr (e ∙ ap (count_up 0) z))
