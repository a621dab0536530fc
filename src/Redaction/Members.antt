-- ===== src/Redaction/Members.antt =====
-- Texts in a list of texts.
use nowledge.Prelude.{true, ◌||◌, ◌≡◌, refl, ◌⊎◌, inl, inr, List, [], ◌∷◌, ◌++◌, arith, Bool-cases}
use nowledge.Redaction.Texts.{Text, same_chars, member}

pub same_chars-eq : (a b : Text) → same_chars a b ≡ true → a ≡ b
unfolding same_chars
same_chars-eq [] [] h = refl
same_chars-eq [] (y ∷ b) h = absurd (cc)
same_chars-eq (x ∷ a) [] h = absurd (cc)
same_chars-eq (x ∷ a) (y ∷ b) h = ground (arith, same_chars-eq a b)

pub same_chars_refl : (a : Text) → same_chars a a ≡ true
unfolding same_chars
same_chars_refl [] = refl
same_chars_refl (x ∷ a) = ground (arith, same_chars_refl a)

pub member-append :
    (xs ys : List Text) (t : Text) → member (xs ++ ys) t ≡ (member xs t || member ys t)
unfolding member
member-append [] ys t = refl
member-append (x ∷ xs) ys t = ground (arith, member-append xs ys t)

-- The two ways in which a text stands in a list.
pub member-cons :
    (x : Text) (xs : List Text) (t : Text)
    → member (x ∷ xs) t ≡ true
    → (x ≡ t) ⊎ (member xs t ≡ true)
unfolding member
member-cons x xs t h = elim (Bool-cases (same_chars x t)) [
  | inl e ↦ inl (same_chars-eq x t e)
  | inr e ↦ inr (rw e at h)
]

pub member_of_append :
    (xs ys : List Text) (t : Text)
    → member (xs ++ ys) t ≡ true
    → (member xs t ≡ true) ⊎ (member ys t ≡ true)
member_of_append xs ys t h = elim (Bool-cases (member xs t)) [
  | inl e ↦ inl e
  | inr e ↦ inr (ground (arith, member-append xs ys t))
]

pub member_left : (xs ys : List Text) (t : Text) → member xs t ≡ true → member (xs ++ ys) t ≡ true
member_left xs ys t h = rw (member-append xs ys t, h) refl

pub member_right : (xs ys : List Text) (t : Text) → member ys t ≡ true → member (xs ++ ys) t ≡ true
member_right xs ys t h = ground (arith, member-append xs ys t)

pub member_here : (x : Text) (xs : List Text) → member (x ∷ xs) x ≡ true
unfolding member
member_here x xs = rw (same_chars_refl x) refl

pub member_there :
    (x : Text) (xs : List Text) (t : Text) → member xs t ≡ true → member (x ∷ xs) t ≡ true
unfolding member
member_there x xs t h = ground arith
