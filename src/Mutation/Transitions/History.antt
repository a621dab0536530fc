-- ===== src/Mutation/Transitions/History.antt =====
-- Any number of transitions of a record of src/mutation.rs.
use nowledge.Prelude.{
  String, str_eq, eq_iff, ◌≡◌, refl, ◌∙◌, inl, inr, false, some, arith, Bool-cases,
}
use nowledge.Prelude.Table.{get, get-write}
use nowledge.Models.Operations.{
  OperationStepStatus as StepStatus, OperationStepProgress as StepProgress, OperationRecord,
}
use nowledge.Mutation.Transitions.Change.{Transition, Reach, here, next, Transition-Change}

-- A transition of one step leaves the plan and the progress of every other step as they were.
pub Transition-frame :
    {r r' : OperationRecord} {id : String}
    → Transition r r' id
    → (r'.plan ≡ r.plan)
      × ((other : String)
          → str_eq id other ≡ false
          → get other r'.progress.steps ≡ get other r.progress.steps)
Transition-frame {r} {r'} {id} t =
    let c = Transition-Change t in
    (
      c.same_plan,
      λ other ne.
          rw c.written (rw (get-write id other c.after r.progress.steps c.before c.present, ne)),
    )

kept_by-Transition :
    {r r' : OperationRecord} {id : String} (other : String) (p : StepProgress)
    → Transition r r' id
    → get other r.progress.steps ≡ some p
    → p.status ≡ StepStatus.completed
    → get other r'.progress.steps ≡ some p
kept_by-Transition {r} {r'} {id} other p t g done =
    let c = Transition-Change t in
    elim (Bool-cases (str_eq id other)) [
      | inl e ↦ absurd (c.unfinished (ground (arith, c.present, g, done, (eq_iff id other).0 e)))
      | inr e ↦ (Transition-frame t).1 other e ∙ g
    ]

-- A completed step is final: whatever succeeds afterwards leaves its progress as it is.
pub completed_is_final :
    {r r' : OperationRecord} (id : String) (p : StepProgress)
    → Reach r r'
    → get id r.progress.steps ≡ some p
    → p.status ≡ StepStatus.completed
    → get id r'.progress.steps ≡ some p
completed_is_final id p here g done = g
completed_is_final id p (next changed path t) g done =
    kept_by-Transition id p t (completed_is_final id p path g done) done

pub Reach-plan : {r r' : OperationRecord} → Reach r r' → r'.plan ≡ r.plan
Reach-plan here = refl
Reach-plan (next id path t) = (Transition-frame t).0 ∙ Reach-plan path
