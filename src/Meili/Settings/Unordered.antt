-- ===== src/Meili/Settings/Unordered.antt =====
-- `unordered_string_arrays_equal` of src/meili.rs against lists in any order.
use nowledge.Prelude.{
  suc, String, str_eq, eq_iff, ◌≡◌, refl, sym, ap, ◌∙◌, true, ◌&&◌, not, and_true, Option, none,
  some, List, [], ◌∷◌, arith, ◌==◌, contains, same_set, Option-cases, Bool-cases, subst, inl, inr,
}
use nowledge.Prelude.Sets.{same_set_of_contains, contains_of_same_set}
use mathlib.Core.Logic.{◌↔◌, ∥∥₁_elim}
use mathlib.Core.Bool.{Bool-set}
use native.Mathlib.Nat.{ℕ_set}
use mathlib.Core.List.{
  Mem, Memᴰ, Nodup, Perm, Permᴰ, Nodup-cons, mem-cons_self, mem-cons_of_mem, perm_ext_iff_of_Nodup,
}
use mathlib.Core.List.{Pairwise}
use mathlib.Core.List.Perm
use nowledge.Json.{Value, null, boolean, number, string, array, object, Items, nil, cons}
use nowledge.Meili.Indexes.{texts}
use nowledge.Meili.Settings.{
  item_count, item_texts, distinct, same_texts, same_arrays, as_array, given_array,
  unordered_string_arrays_equal,
}

-- Both are arrays of texts in which nothing stands twice, and one is the other in some order.
abbrev pub IsReordered : Option Value → Option Value → Type 0
IsReordered left right =
    (ls : List String) × ((rs : List String) × (left ≡ some (array (texts ls)))
      × (right ≡ some (array (texts rs)))
      × Nodup ls
      × Perm ls rs)

contains_of_Memᴰ : (a : String) (xs : List String) → Memᴰ a xs → contains xs a ≡ true
unfolding contains
contains_of_Memᴰ a [] m = elim m [ ]
contains_of_Memᴰ a (x ∷ xs) (Memᴰ.head e) = ground (arith, eq_iff x a, e)
contains_of_Memᴰ a (x ∷ xs) (Memᴰ.tail m) = ground (arith, contains_of_Memᴰ a xs m)

contains_of_Mem : (a : String) (xs : List String) → Mem a xs → contains xs a ≡ true
contains_of_Mem a xs m = ∥∥₁_elim m (Bool-set _ _) (contains_of_Memᴰ a xs)

Mem-contains : (a : String) (xs : List String) → contains xs a ≡ true → Mem a xs
unfolding contains
Mem-contains a [] h = absurd (cc)
Mem-contains a (x ∷ xs) h = elim (Bool-cases (str_eq x a)) [
  | inl here ↦ subst (λ y. Mem a (y ∷ xs)) (sym ((eq_iff x a).0 here)) mem-cons_self
  | inr other ↦ mem-cons_of_mem x (Mem-contains a xs (rw other at h))
]

pub Nodup-distinct : (xs : List String) → distinct xs ≡ true → Nodup xs
unfolding distinct
Nodup-distinct [] h = Pairwise.nil
Nodup-distinct (x ∷ xs) h =
    let both = and_true (not (contains xs x)) (distinct xs) h in
    Nodup-cons.1
      ((λ m. let there = contains_of_Mem x xs m in absurd (ground arith)), Nodup-distinct xs both.1)

distinct-Nodup : (xs : List String) → Nodup xs → distinct xs ≡ true
unfolding distinct
distinct-Nodup [] h = refl
distinct-Nodup (x ∷ xs) h =
    let (fresh, rest) = Nodup-cons.0 h in
    elim (Bool-cases (contains xs x)) [
      | inl there ↦ absurd (fresh (Mem-contains x xs there))
      | inr absent ↦ rw (absent, distinct-Nodup xs rest) refl
    ]

item_texts-texts : (ss : List String) → item_texts (texts ss) ≡ some ss
unfolding item_texts
item_texts-texts [] = refl
item_texts-texts (s ∷ ss) = rw (item_texts-texts ss) refl

pub texts-item_texts : (xs : Items) (ss : List String) → item_texts xs ≡ some ss → xs ≡ texts ss
unfolding item_texts
texts-item_texts nil ss h = let e : [] ≡ ss = cc in ap texts e
texts-item_texts (cons (string s) xs) ss h = elim (Option-cases (item_texts xs)) [
  | inl nothing ↦ absurd (let clash = rw nothing at h in cc)
  | inr (rest, there) ↦
      let e : s ∷ rest ≡ ss = cc (rw there at h) in
      ap (cons (string s)) (texts-item_texts xs rest there) ∙ ap texts e
]
texts-item_texts (cons null xs) ss h = absurd (cc)
texts-item_texts (cons (boolean b) xs) ss h = absurd (cc)
texts-item_texts (cons (number n) xs) ss h = absurd (cc)
texts-item_texts (cons (array ys) xs) ss h = absurd (cc)
texts-item_texts (cons (object fs) xs) ss h = absurd (cc)

item_count_of_Permᴰ :
    (ls rs : List String) → Permᴰ ls rs → item_count (texts ls) ≡ item_count (texts rs)
unfolding item_count
item_count_of_Permᴰ ls rs Permᴰ.nil = refl
item_count_of_Permᴰ ls rs (Permᴰ.cons e p) = ap suc (item_count_of_Permᴰ _ _ p)
item_count_of_Permᴰ ls rs (Permᴰ.swap e e') = refl
item_count_of_Permᴰ ls rs (Permᴰ.trans p q) = item_count_of_Permᴰ _ _ p ∙ item_count_of_Permᴰ _ _ q

item_count-Perm : (ls rs : List String) → Perm ls rs → item_count (texts ls) ≡ item_count (texts rs)
item_count-Perm ls rs p = ∥∥₁_elim p (ℕ_set _ _) (item_count_of_Permᴰ ls rs)

same_contains :
    (ls rs : List String) (a : String) → (Mem a ls ↔ Mem a rs) → contains ls a ≡ contains rs a
same_contains ls rs a h = elim (Bool-cases (contains ls a)) [
  | inl left ↦ left ∙ sym (contains_of_Mem a rs (h.0 (Mem-contains a ls left)))
  | inr no_left ↦ elim (Bool-cases (contains rs a)) [
    | inl right ↦ contains_of_Mem a ls (h.1 (Mem-contains a rs right)) ∙ sym right
    | inr no_right ↦ no_left ∙ sym no_right
  ]
]

same_texts_sound :
    (ls rs : List String) → same_texts (some ls) (some rs) ≡ true → Nodup ls × Perm ls rs
unfolding same_texts
same_texts_sound ls rs h =
    let one = and_true (distinct ls) (distinct rs && same_set ls rs) h in
    let two = and_true (distinct rs) (same_set ls rs) one.1 in
    let left = Nodup-distinct ls one.0 in
    (
      left,
      (perm_ext_iff_of_Nodup left (Nodup-distinct rs two.0)).1 (λ a.
          let same = contains_of_same_set ls rs a two.1 in
          (
            (λ m. Mem-contains a rs (sym same ∙ contains_of_Mem a ls m)),
            (λ m. Mem-contains a ls (same ∙ contains_of_Mem a rs m)),
          )),
    )

same_texts_complete :
    (ls rs : List String) → Nodup ls → Perm ls rs → same_texts (some ls) (some rs) ≡ true
unfolding same_texts
same_texts_complete ls rs left p =
    rw
      (
        distinct-Nodup ls left,
        distinct-Nodup rs (Perm.nodup p left),
        same_set_of_contains ls rs (λ a. same_contains ls rs a (Perm.mem_iff p)),
      )
      refl

pub given_array-some :
    (v : Option Value) (items : Items) → given_array v ≡ some items → v ≡ some (array items)
unfolding given_array as_array
given_array-some none items h = absurd (cc)
given_array-some (some (array xs)) items h = let e : xs ≡ items = cc in ap (λ ys. some (array ys)) e
given_array-some (some null) items h = absurd (cc)
given_array-some (some (boolean b)) items h = absurd (cc)
given_array-some (some (number n)) items h = absurd (cc)
given_array-some (some (string s)) items h = absurd (cc)
given_array-some (some (object fs)) items h = absurd (cc)

both_texts :
    (l r : Option (List String))
    → same_texts l r ≡ true
    → (ls : List String) × ((bs : List String) × (l ≡ some ls)
        × (r ≡ some bs)
        × Nodup ls
        × Perm ls bs)
unfolding same_texts
both_texts none r h = absurd (cc)
both_texts (some ls) none h = absurd (cc)
both_texts (some ls) (some bs) h =
    let (unique, perm) = same_texts_sound ls bs h in (ls, (bs, refl, refl, unique, perm))

both_arrays :
    (left right : Option Items)
    → same_arrays left right ≡ true
    → (xs : Items) × ((ys : Items) × (left ≡ some xs)
        × (right ≡ some ys)
        × (same_texts (item_texts xs) (item_texts ys) ≡ true))
unfolding same_arrays
both_arrays none right h = absurd (cc)
both_arrays (some xs) none h = absurd (cc)
both_arrays (some xs) (some ys) h = elim (Bool-cases (item_count xs == item_count ys)) [
  | inl same ↦ (xs, (ys, refl, refl, rw same at h))
  | inr other ↦ absurd (let clash = rw other at h in cc)
]

reordered_arrays :
    (ls bs : List String)
    → Nodup ls
    → Perm ls bs
    → unordered_string_arrays_equal (some (array (texts ls))) (some (array (texts bs))) ≡ true
unfolding unordered_string_arrays_equal same_arrays given_array as_array
reordered_arrays ls bs unique perm =
    let counts : (item_count (texts ls) == item_count (texts bs)) ≡ true =
      ground (arith, item_count-Perm ls bs perm) in
    rw (counts, item_texts-texts ls, item_texts-texts bs) (same_texts_complete ls bs unique perm)

-- The comparison of two arrays holds exactly when each is an array of texts without a repetition and
-- one is the other in some order.
pub unordered_string_arrays_equal_iff :
    (left right : Option Value)
    → (unordered_string_arrays_equal left right ≡ true) ↔ IsReordered left right
unfolding unordered_string_arrays_equal
unordered_string_arrays_equal_iff left right = (sound, complete)
  where
    sound : unordered_string_arrays_equal left right ≡ true → IsReordered left right
    sound h =
        let (xs, (ys, l, r, same)) = both_arrays (given_array left) (given_array right) h in
        let (ls, (bs, a, b, unique, perm)) = both_texts (item_texts xs) (item_texts ys) same in
        (
          ls,
          (
            bs,
            given_array-some left xs l ∙ ap (λ zs. some (array zs)) (texts-item_texts xs ls a),
            given_array-some right ys r ∙ ap (λ zs. some (array zs)) (texts-item_texts ys bs b),
            unique,
            perm,
          ),
        )

    complete : IsReordered left right → unordered_string_arrays_equal left right ≡ true
    complete (ls, (bs, l, r, unique, perm)) = rw (l, r) (reordered_arrays ls bs unique perm)
