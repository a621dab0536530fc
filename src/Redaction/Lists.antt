-- ===== src/Redaction/Lists.antt =====
-- Lemmas on `take`, `drop`, `reversed` and `all` of Redaction.Texts.
use nowledge.Prelude.{
  ℕ, zero, suc, ◌+◌, ◌≤◌, min, Bool, true, ◌≡◌, refl, sym, ap, ◌∙◌, List, [], ◌∷◌, ◌++◌, map,
  length, arith,
}
use mathlib.Core.List.{append-nil, append_assoc, map-append}
use nowledge.Redaction.Texts.{take, drop, reverse_onto, reversed, all}

module _ {ℓ} {A : Type ℓ} where
  pub length-append : (xs ys : List A) → length (xs ++ ys) ≡ length xs + length ys
  length-append [] ys = omega arith
  length-append (x ∷ xs) ys = omega (arith, length-append xs ys)

  pub length-take : (n : ℕ) (xs : List A) → length (take n xs) ≡ min n (length xs)
  unfolding take
  length-take zero xs = omega arith
  length-take (suc n) [] = omega arith
  length-take (suc n) (x ∷ xs) = omega (arith, length-take n xs)

  pub take-append-drop : (n : ℕ) (xs : List A) → take n xs ++ drop n xs ≡ xs
  unfolding take drop
  take-append-drop zero xs = refl
  take-append-drop (suc n) [] = refl
  take-append-drop (suc n) (x ∷ xs) = ap (λ ys. x ∷ ys) (take-append-drop n xs)

  pub take-take : (m n : ℕ) (xs : List A) → m ≤ n → take m (take n xs) ≡ take m xs
  unfolding take
  take-take zero n xs h = refl
  take-take (suc m) zero xs h = absurd (omega arith)
  take-take (suc m) (suc n) [] h = refl
  take-take (suc m) (suc n) (x ∷ xs) h = ap (λ ys. x ∷ ys) (take-take m n xs (omega arith))

  pub take-append_left : (n : ℕ) (xs ys : List A) → n ≤ length xs → take n (xs ++ ys) ≡ take n xs
  unfolding take
  take-append_left zero xs ys h = refl
  take-append_left (suc n) [] ys h = absurd (omega arith)
  take-append_left (suc n) (x ∷ xs) ys h =
      ap (λ zs. x ∷ zs) (take-append_left n xs ys (omega arith))

  pub take-length-append : (xs ys : List A) → take (length xs) (xs ++ ys) ≡ xs
  unfolding take
  take-length-append [] ys = refl
  take-length-append (x ∷ xs) ys = ap (λ zs. x ∷ zs) (take-length-append xs ys)

  pub drop-length-append : (xs ys : List A) → drop (length xs) (xs ++ ys) ≡ ys
  unfolding drop
  drop-length-append [] ys = refl
  drop-length-append (x ∷ xs) ys = drop-length-append xs ys

  pub reverse_onto-eq : (xs acc : List A) → reverse_onto xs acc ≡ reversed xs ++ acc
  unfolding reverse_onto
  reverse_onto-eq [] acc = refl
  reverse_onto-eq (x ∷ xs) acc =
      reverse_onto-eq xs (x ∷ acc)
      ∙ sym (append_assoc (reversed xs) (x ∷ []) acc)
      ∙ ap (λ ys. ys ++ acc) (sym (reverse_onto-eq xs (x ∷ [])))

  pub reversed-cons : (x : A) (xs : List A) → reversed (x ∷ xs) ≡ reversed xs ++ x ∷ []
  unfolding reverse_onto
  reversed-cons x xs = reverse_onto-eq xs (x ∷ [])

  pub reversed-append : (xs ys : List A) → reversed (xs ++ ys) ≡ reversed ys ++ reversed xs
  unfolding reverse_onto
  reversed-append [] ys = sym (append-nil (reversed ys))
  reversed-append (x ∷ xs) ys =
      reversed-cons x (xs ++ ys)
      ∙ ap (λ zs. zs ++ x ∷ []) (reversed-append xs ys)
      ∙ append_assoc (reversed ys) (reversed xs) (x ∷ [])
      ∙ ap (λ zs. reversed ys ++ zs) (sym (reversed-cons x xs))

  pub length-reversed : (xs : List A) → length (reversed xs) ≡ length xs
  unfolding reverse_onto
  length-reversed [] = refl
  length-reversed (x ∷ xs) =
      ap length (reversed-cons x xs)
      ∙ omega (arith, length-append (reversed xs) (x ∷ []), length-reversed xs)

  pub reversed-reversed : (xs : List A) → reversed (reversed xs) ≡ xs
  unfolding reverse_onto
  reversed-reversed [] = refl
  reversed-reversed (x ∷ xs) =
      ap reversed (reversed-cons x xs)
      ∙ reversed-append (reversed xs) (x ∷ [])
      ∙ ap (λ ys. x ∷ ys) (reversed-reversed xs)

  pub all-take :
      (test : A → Bool) (m n : ℕ) (xs : List A)
      → m ≤ n
      → all test (take n xs) ≡ true
      → all test (take m xs) ≡ true
  unfolding all take
  all-take test zero n xs h p = refl
  all-take test (suc m) zero xs h p = absurd (omega arith)
  all-take test (suc m) (suc n) [] h p = refl
  all-take test (suc m) (suc n) (x ∷ xs) h p = ground (arith, all-take test m n xs)

pub map-take {ℓ κ} :
    {A : Type ℓ} {B : Type κ} (f : A → B) (n : ℕ) (xs : List A)
    → map f (take n xs) ≡ take n (map f xs)
unfolding take
map-take f zero xs = refl
map-take f (suc n) [] = refl
map-take f (suc n) (x ∷ xs) = ap (λ ys. f x ∷ ys) (map-take f n xs)

pub length-map {ℓ κ} :
    {A : Type ℓ} {B : Type κ} (f : A → B) (xs : List A) → length (map f xs) ≡ length xs
length-map f [] = refl
length-map f (x ∷ xs) = ap suc (length-map f xs)

pub map-reversed {ℓ κ} :
    {A : Type ℓ} {B : Type κ} (f : A → B) (xs : List A) → map f (reversed xs) ≡ reversed (map f xs)
unfolding reverse_onto
map-reversed f [] = refl
map-reversed f (x ∷ xs) =
    ap (map f) (reversed-cons x xs)
    ∙ map-append f (reversed xs) (x ∷ [])
    ∙ ap (λ ys. ys ++ f x ∷ []) (map-reversed f xs)
    ∙ sym (reversed-cons (f x) (map f xs))

pub map-drop {ℓ κ} :
    {A : Type ℓ} {B : Type κ} (f : A → B) (n : ℕ) (xs : List A)
    → map f (drop n xs) ≡ drop n (map f xs)
unfolding drop
map-drop f zero xs = refl
map-drop f (suc n) [] = refl
map-drop f (suc n) (x ∷ xs) = map-drop f n xs
