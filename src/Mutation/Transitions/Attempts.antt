-- ===== src/Mutation/Transitions/Attempts.antt =====
-- The attempt counters of src/mutation.rs, of a record and of its steps.
use nowledge.Prelude.{
  ℕ, ◌+◌, ◌-◌, ◌^◌, ◌≤◌, min, String, str_eq, ◌≡◌, refl, ap, ◌∙◌, inl, inr, some, List, [], ◌∷◌,
  arith, All, All-map, Bool-cases,
}
use nowledge.Prelude.Table.{Table, get, insert, write}
use nowledge.Prelude.Entries.{All-write, All-insert, All-get}
use nowledge.Models.Common.{Time}
use nowledge.Models.Operations.{
  OperationStepStatus as StepStatus, OperationStep, OperationPlan,
  OperationStepProgress as StepProgress, OperationRecord,
}
use nowledge.Mutation.Plans.{operation_steps}
use nowledge.Mutation.Records.{new_progress, collect_progress, new_record}
use nowledge.Mutation.Transitions.{count_attempt}
use nowledge.Mutation.Transitions.Change.{Transition, Reach, here, next, Transition-Change}

-- The attempts of all steps.
pub total_attempts : Table StepProgress → ℕ
total_attempts [] = 0
total_attempts ((k, p) ∷ m) = p.attempts + total_attempts m

abbrev pub u32_max : ℕ
u32_max = 2 ^ 32 - 1

-- An entry's counter is a `u32`.
abbrev InRange : String × StepProgress → Type 0
InRange e = e.1.attempts ≤ u32_max

total_attempts-write :
    (k : String) (new old : StepProgress) (m : Table StepProgress)
    → get k m ≡ some old
    → total_attempts (write k new m) + old.attempts ≡ total_attempts m + new.attempts
unfolding total_attempts write get
total_attempts-write k new old [] g = absurd (cc)
total_attempts-write k new old ((j, p) ∷ m) g = elim (Bool-cases (str_eq j k)) [
  | inl e ↦
      let same : p ≡ old = ground arith in
      rw e (omega (arith, ap (λ (q : StepProgress). q.attempts) same))
  | inr e ↦ rw e (omega (arith, total_attempts-write k new old m (rw e at g)))
]

attempts-le-total :
    (k : String) (p : StepProgress) (m : Table StepProgress)
    → get k m ≡ some p
    → p.attempts ≤ total_attempts m
unfolding total_attempts get
attempts-le-total k p [] g = absurd (cc)
attempts-le-total k p ((j, q) ∷ m) g = elim (Bool-cases (str_eq j k)) [
  | inl e ↦
      let same : q ≡ p = ground arith in omega (arith, ap (λ (r : StepProgress). r.attempts) same)
  | inr e ↦ omega (arith, attempts-le-total k p m (rw e at g))
]

-- The counters of a record, and how they agree.
abbrev Accounted : OperationRecord → Type 0
Accounted r =
    All InRange r.progress.steps
    × (r.progress.attempt_count ≡ min (total_attempts r.progress.steps) u32_max)

counted_once :
    (s : StepStatus) (a b total total' : ℕ)
    → b ≡ count_attempt s a
    → a ≤ u32_max
    → a ≤ total
    → total' + a ≡ total + b
    → (b ≤ u32_max) × (count_attempt s (min total u32_max) ≡ min total' u32_max)
unfolding count_attempt
counted_once StepStatus.submitted a b total total' e h l t = omega arith
counted_once _ a b total total' e h l t = omega arith

Transition-Accounted :
    {r r' : OperationRecord} {id : String} → Transition r r' id → Accounted r → Accounted r'
Transition-Accounted {r} {r'} {id} t (ranges, sum) =
    let c = Transition-Change t in
    let small = All-get InRange id c.before r.progress.steps c.present ranges in
    let once =
      counted_once c.before.status c.before.attempts c.after.attempts
        (total_attempts r.progress.steps) (total_attempts (write id c.after r.progress.steps))
        c.counted small (attempts-le-total id c.before r.progress.steps c.present)
        (total_attempts-write id c.after c.before r.progress.steps c.present) in
    rw c.written (
      All-write InRange id c.after r.progress.steps once.0 ranges,
      c.total ∙ ap (count_attempt c.before.status) sum ∙ once.1,
    )

-- A new entry of the table has made no attempt.
abbrev IsUntried : String × StepProgress → Type 0
IsUntried e = e.1.attempts ≡ 0

collect-IsUntried :
    (at : Time) (m : Table StepProgress) (steps : List OperationStep)
    → All IsUntried m
    → All IsUntried (collect_progress at m steps)
unfolding collect_progress new_progress
collect-IsUntried at m [] h = h
collect-IsUntried at m (step ∷ rest) h =
    collect-IsUntried at (insert step.id (new_progress at step) m) rest
      (All-insert IsUntried step.id (new_progress at step) m refl h)

untried_total : (m : Table StepProgress) → All IsUntried m → total_attempts m ≡ 0
unfolding total_attempts
untried_total [] h = refl
untried_total ((k, p) ∷ m) h = omega (arith, untried_total m h.1)

new_record-Accounted : (plan : OperationPlan) → Accounted (new_record plan)
unfolding new_record
new_record-Accounted plan =
    let m = collect_progress plan.created_at [] (operation_steps plan) in
    let untried = collect-IsUntried plan.created_at [] (operation_steps plan) tt in
    (
      All-map IsUntried InRange (λ e h. omega arith) m untried,
      omega (arith, untried_total m untried),
    )

Reach-Accounted : {r r' : OperationRecord} → Reach r r' → Accounted r → Accounted r'
Reach-Accounted here h = h
Reach-Accounted (next id path t) h = Transition-Accounted t (Reach-Accounted path h)

-- In every record that transitions reach from a plan's new record, `attempt_count` is the sum of
-- the steps' attempts, cut at the largest `u32`.
pub attempts_accounted :
    (plan : OperationPlan) {r : OperationRecord}
    → Reach (new_record plan) r
    → r.progress.attempt_count ≡ min (total_attempts r.progress.steps) u32_max
attempts_accounted plan path = (Reach-Accounted path (new_record-Accounted plan)).1
