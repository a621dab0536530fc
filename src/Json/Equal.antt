-- ===== src/Json/Equal.antt =====
-- `Value: PartialEq`, the derived equality of serde_json, and that it is equality.
use nowledge.Prelude.{
  str_eq, eq_iff, eq_refl, ap, ap₂, ◌≡◌, refl, Bool, true, false, ◌&&◌, and_true, arith, ◌==◌,
}
use nowledge.Json.{
  Number, pos_int, neg_int, float, Value, null, boolean, number, string, array, object, Items, nil,
  cons, Fields, end, field,
}

unfoldable pub same_bool : Bool → Bool → Bool
same_bool true true = true
same_bool false false = true
same_bool _ _ = false

unfoldable pub same_number : Number → Number → Bool
same_number (pos_int a) (pos_int b) = a == b
same_number (neg_int a) (neg_int b) = a == b
same_number (float a) (float b) = str_eq a b
same_number _ _ = false

unfoldable mutual
  unfolding same_bool same_number

  pub same_value : Value → Value → Bool
  same_value null null = true
  same_value (boolean a) (boolean b) = same_bool a b
  same_value (number a) (number b) = same_number a b
  same_value (string a) (string b) = str_eq a b
  same_value (array xs) (array ys) = same_items xs ys
  same_value (object fs) (object gs) = same_fields fs gs
  same_value _ _ = false

  pub same_items : Items → Items → Bool
  same_items nil nil = true
  same_items (cons x xs) (cons y ys) = same_value x y && same_items xs ys
  same_items _ _ = false

  pub same_fields : Fields → Fields → Bool
  same_fields end end = true
  same_fields (field j v fs) (field k w gs) = str_eq j k && (same_value v w && same_fields fs gs)
  same_fields _ _ = false

pub same_number_refl : (n : Number) → same_number n n ≡ true
unfolding same_number
same_number_refl (pos_int a) = ground arith
same_number_refl (neg_int a) = ground arith
same_number_refl (float a) = eq_refl a

mutual
  unfolding same_value same_items same_fields

  pub same_value_refl : (v : Value) → same_value v v ≡ true
  same_value_refl null = refl
  same_value_refl (boolean true) = refl
  same_value_refl (boolean false) = refl
  same_value_refl (number n) = same_number_refl n
  same_value_refl (string s) = eq_refl s
  same_value_refl (array xs) = same_items_refl xs
  same_value_refl (object fs) = same_fields_refl fs

  pub same_items_refl : (xs : Items) → same_items xs xs ≡ true
  same_items_refl nil = refl
  same_items_refl (cons x xs) = rw (same_value_refl x, same_items_refl xs)

  pub same_fields_refl : (fs : Fields) → same_fields fs fs ≡ true
  same_fields_refl end = refl
  same_fields_refl (field k v fs) = rw (eq_refl k, same_value_refl v, same_fields_refl fs)

same_bool_sound : (a b : Bool) → same_bool a b ≡ true → a ≡ b
unfolding same_bool
same_bool_sound true true h = refl
same_bool_sound false false h = refl
same_bool_sound true false h = absurd (cc)
same_bool_sound false true h = absurd (cc)

same_number_sound : (a b : Number) → same_number a b ≡ true → a ≡ b
unfolding same_number
same_number_sound (pos_int a) (pos_int b) h = let same : a ≡ b = ground arith in ap pos_int same
same_number_sound (neg_int a) (neg_int b) h = let same : a ≡ b = ground arith in ap neg_int same
same_number_sound (float a) (float b) h = ap float ((eq_iff a b).0 h)
same_number_sound (pos_int a) (neg_int b) h = absurd (cc)
same_number_sound (pos_int a) (float b) h = absurd (cc)
same_number_sound (neg_int a) (pos_int b) h = absurd (cc)
same_number_sound (neg_int a) (float b) h = absurd (cc)
same_number_sound (float a) (pos_int b) h = absurd (cc)
same_number_sound (float a) (neg_int b) h = absurd (cc)

-- Equality of values is equality.
mutual
  unfolding same_value same_items same_fields

  pub same_value_sound : (a b : Value) → same_value a b ≡ true → a ≡ b
  same_value_sound null null h = refl
  same_value_sound (boolean a) (boolean b) h = ap boolean (same_bool_sound a b h)
  same_value_sound (number a) (number b) h = ap number (same_number_sound a b h)
  same_value_sound (string a) (string b) h = ap string ((eq_iff a b).0 h)
  same_value_sound (array xs) (array ys) h = ap array (same_items_sound xs ys h)
  same_value_sound (object fs) (object gs) h = ap object (same_fields_sound fs gs h)
  same_value_sound null (boolean b) h = absurd (cc)
  same_value_sound null (number b) h = absurd (cc)
  same_value_sound null (string b) h = absurd (cc)
  same_value_sound null (array b) h = absurd (cc)
  same_value_sound null (object b) h = absurd (cc)
  same_value_sound (boolean a) null h = absurd (cc)
  same_value_sound (boolean a) (number b) h = absurd (cc)
  same_value_sound (boolean a) (string b) h = absurd (cc)
  same_value_sound (boolean a) (array b) h = absurd (cc)
  same_value_sound (boolean a) (object b) h = absurd (cc)
  same_value_sound (number a) null h = absurd (cc)
  same_value_sound (number a) (boolean b) h = absurd (cc)
  same_value_sound (number a) (string b) h = absurd (cc)
  same_value_sound (number a) (array b) h = absurd (cc)
  same_value_sound (number a) (object b) h = absurd (cc)
  same_value_sound (string a) null h = absurd (cc)
  same_value_sound (string a) (boolean b) h = absurd (cc)
  same_value_sound (string a) (number b) h = absurd (cc)
  same_value_sound (string a) (array b) h = absurd (cc)
  same_value_sound (string a) (object b) h = absurd (cc)
  same_value_sound (array a) null h = absurd (cc)
  same_value_sound (array a) (boolean b) h = absurd (cc)
  same_value_sound (array a) (number b) h = absurd (cc)
  same_value_sound (array a) (string b) h = absurd (cc)
  same_value_sound (array a) (object b) h = absurd (cc)
  same_value_sound (object a) null h = absurd (cc)
  same_value_sound (object a) (boolean b) h = absurd (cc)
  same_value_sound (object a) (number b) h = absurd (cc)
  same_value_sound (object a) (string b) h = absurd (cc)
  same_value_sound (object a) (array b) h = absurd (cc)

  pub same_items_sound : (xs ys : Items) → same_items xs ys ≡ true → xs ≡ ys
  same_items_sound nil nil h = refl
  same_items_sound nil (cons y ys) h = absurd (cc)
  same_items_sound (cons x xs) nil h = absurd (cc)
  same_items_sound (cons x xs) (cons y ys) h =
      let both = and_true (same_value x y) (same_items xs ys) h in
      ap₂ cons (same_value_sound x y both.0) (same_items_sound xs ys both.1)

  pub same_fields_sound : (fs gs : Fields) → same_fields fs gs ≡ true → fs ≡ gs
  same_fields_sound end end h = refl
  same_fields_sound end (field k w gs) h = absurd (cc)
  same_fields_sound (field j v fs) end h = absurd (cc)
  same_fields_sound (field j v fs) (field k w gs) h =
      let one = and_true (str_eq j k) (same_value v w && same_fields fs gs) h in
      let both = and_true (same_value v w) (same_fields fs gs) one.1 in
      let key = (eq_iff j k).0 one.0 in
      let value = same_value_sound v w both.0 in let rest = same_fields_sound fs gs both.1 in cc
