-- ===== src/Prelude/Sets.antt =====
-- Lists of texts as finite sets: membership, inclusion, and lists with no text twice.
use nowledge.Prelude.{
  String, str_eq, eq_iff, eq_refl, ◌≡◌, refl, sym, true, false, ◌||◌, List, [], ◌∷◌, ◌++◌, ◌∙◌,
  arith, and_true, contains, is_subset, same_set,
}

pub str_eq_comm : (a b : String) → str_eq a b ≡ str_eq b a
str_eq_comm a b = ground (arith, eq_iff a b, eq_iff b a)

-- No text stands twice in the list.
abbrev pub IsUnique : List String → Type 0
IsUnique [] = Unit
IsUnique (x ∷ xs) = (contains xs x ≡ false) × IsUnique xs

pub contains-append :
    (xs ys : List String) (a : String) → contains (xs ++ ys) a ≡ (contains xs a || contains ys a)
unfolding contains
contains-append [] ys a = refl
contains-append (x ∷ xs) ys a = ground (arith, contains-append xs ys a)

-- What a larger set contains.
pub contains_of_is_subset :
    (xs ys : List String) (a : String)
    → is_subset xs ys ≡ true
    → contains xs a ≡ true
    → contains ys a ≡ true
unfolding contains is_subset
contains_of_is_subset [] ys a h c = cc
contains_of_is_subset (x ∷ xs) ys a h c = ground (arith, contains_of_is_subset xs ys a, eq_iff x a)

-- To prove an inclusion, element by element.
pub is_subset_of_contains :
    (xs ys : List String)
    → ((a : String) → contains xs a ≡ true → contains ys a ≡ true)
    → is_subset xs ys ≡ true
unfolding contains is_subset
is_subset_of_contains [] ys h = refl
is_subset_of_contains (x ∷ xs) ys h =
    ground (arith, h x, eq_refl x, is_subset_of_contains xs ys (λ a c. h a (ground arith)))

pub same_set_of_contains :
    (xs ys : List String) → ((a : String) → contains xs a ≡ contains ys a) → same_set xs ys ≡ true
unfolding same_set
same_set_of_contains xs ys h = ground (
  arith,
  is_subset_of_contains xs ys (λ a c. sym (h a) ∙ c),
  is_subset_of_contains ys xs (λ a c. h a ∙ c),
)

pub contains_of_same_set :
    (xs ys : List String) (a : String) → same_set xs ys ≡ true → contains xs a ≡ contains ys a
unfolding same_set
contains_of_same_set xs ys a h =
    let both = and_true (is_subset xs ys) (is_subset ys xs) h in
    ground (arith, contains_of_is_subset xs ys a both.0, contains_of_is_subset ys xs a both.1)

pub append-IsUnique :
    (xs ys : List String)
    → IsUnique xs
    → IsUnique ys
    → ((a : String) → contains xs a ≡ true → contains ys a ≡ false)
    → IsUnique (xs ++ ys)
unfolding contains
append-IsUnique [] ys u v h = v
append-IsUnique (x ∷ xs) ys u v h = (
  ground (arith, contains-append xs ys x, h x, eq_refl x),
  append-IsUnique xs ys u.1 v (λ a c. h a (ground arith)),
)
