-- ===== src/Prelude/Effects.antt =====
-- Fallible code that changes a state: an `async fn` of `&self` that returns a `Result`. What it wrote
-- before an error stays written.
use mathlib.Core.Path.{◌≡◌, refl}
use nowledge.Prelude.Results.{Result, ok, err}

abbrev pub Effect : Type 0 → Type 0 → Type 0 → Type 0
Effect S E A = S → Result E A × S

-- The rest of a chain, by the outcome of its first call.
abbrev pub continue : {S E A B : Type 0} → Result E A × S → (A → Effect S E B) → Result E B × S
continue (ok a, s) rest = rest a s
continue (err e, s) rest = (err e, s)

infixl 5 ◌>>=◌ ◌>>◌
abbrev pub ◌>>=◌ : {S E A B : Type 0} → Effect S E A → (A → Effect S E B) → Effect S E B
◌>>=◌ act rest s = continue (act s) rest

abbrev pub ◌>>◌ : {S E B : Type 0} → Effect S E (Unit {0}) → Effect S E B → Effect S E B
act >> rest = act >>= λ _. rest

abbrev pub return : {S E A : Type 0} → A → Effect S E A
return a s = (ok a, s)

-- A `Result` of a pure function, under `?`.
abbrev pub lift : {S E A : Type 0} → Result E A → Effect S E A
lift r s = (r, s)

-- A chain succeeds only when its first call does, and goes on from the state that call leaves.
pub continue-eq-ok :
    {S E X Y : Type 0} (outcome : Result E X × S) (rest : X → Effect S E Y) {y : Y}
    → (continue outcome rest).0 ≡ ok y
    → (x : X) × (outcome.0 ≡ ok x)
      × ((rest x outcome.1).0 ≡ ok y)
      × ((continue outcome rest).1 ≡ (rest x outcome.1).1)
continue-eq-ok (ok x, s) rest h = (x, refl, h, refl)
continue-eq-ok (err e, s) rest h = absurd (cc)
