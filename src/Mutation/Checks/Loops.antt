-- ===== src/Mutation/Checks/Loops.antt =====
-- The checking loops of src/mutation.rs.
use mathlib.Core.Path.{fun_ext}
use nowledge.Prelude.{◌≡◌, refl, ap, List, [], ◌∷◌, map, All, ok, ◌>>=◌, >>-eq-ok}
use nowledge.Mutation.Checks.{Checked, for_each, for_each_from}

module _ {ℓ} {A : Type ℓ} (body : A → Checked (Unit {0})) where
  pub for_each_sound : (xs : List A) → for_each body xs ≡ ok tt → All (λ x. body x ≡ ok tt) xs
  unfolding for_each
  for_each_sound [] h = tt
  for_each_sound (x ∷ xs) h =
      let both = >>-eq-ok (body x) (for_each body xs) h in (both.0, for_each_sound xs both.1)

  pub for_each_complete : (xs : List A) → All (λ x. body x ≡ ok tt) xs → for_each body xs ≡ ok tt
  unfolding for_each
  for_each_complete [] h = refl
  for_each_complete (x ∷ xs) h = rw h.0 (for_each_complete xs h.1)

-- The loop over changed elements is the loop with the change in its body.
pub for_each-map {ℓ κ} :
    {A : Type ℓ} {B : Type κ} (f : A → B) (p : B → Checked (Unit {0})) (q : A → Checked (Unit {0}))
    (xs : List A)
    → ((x : A) → p (f x) ≡ q x)
    → for_each p (map f xs) ≡ for_each q xs
unfolding for_each
for_each-map f p q [] same = refl
for_each-map f p q (x ∷ xs) same = rw (same x, for_each-map f p q xs same)

pub for_each_from-map {ℓ κ μ} :
    {A : Type ℓ} {B : Type κ} {S : Type μ} (f : A → B) (p : S → B → Checked S)
    (q : S → A → Checked S) (s : S) (xs : List A)
    → ((s : S) (x : A) → p s (f x) ≡ q s x)
    → for_each_from p s (map f xs) ≡ for_each_from q s xs
unfolding for_each_from
for_each_from-map f p q s [] same = refl
for_each_from-map f p q s (x ∷ xs) same =
    rw (same s x) (ap (λ k. q s x >>= k) (fun_ext (λ s'. for_each_from-map f p q s' xs same)))
