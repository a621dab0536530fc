-- ===== src/Prelude/Table.antt =====
-- `BTreeMap<String, V>`: the entries in the order of their keys.
use Prim.Native.Nat.{Ordering}
use Prim.Native.String.{compare}
use nowledge.Prelude.{
  String, str_eq, eq_iff, ◌≡◌, refl, inl, inr, Option, none, some, List, [], ◌∷◌, arith,
  if◌then◌else◌, Bool-cases,
}

abbrev pub Table {ℓ} : Type ℓ → Type ℓ
Table V = List (String × V)

module _ {ℓ} {V : Type ℓ} where
  unfoldable pub get : String → Table V → Option V
  get k [] = none
  get k ((j, v) ∷ m) = if str_eq j k then some v else get k m

  -- A new key stands before the first larger one.
  unfoldable pub insert : String → V → Table V → Table V
  insert k v [] = (k, v) ∷ []
  insert k v ((j, w) ∷ m) =
      let rest = insert k v m in
      elim (compare k j) [
        | Ordering.lt ↦ (k, v) ∷ (j, w) ∷ m
        | Ordering.eq ↦ (k, v) ∷ m
        | Ordering.gt ↦ (j, w) ∷ rest
      ]

  -- A write through `get_mut`: the entry keeps its key and its place.
  unfoldable pub write : String → V → Table V → Table V
  write k v [] = []
  write k v ((j, w) ∷ m) = if str_eq j k then (j, v) ∷ m else (j, w) ∷ write k v m

  unfoldable pub keys : Table V → List String
  keys [] = []
  keys ((k, v) ∷ m) = k ∷ keys m

  unfoldable pub values : Table V → List V
  values [] = []
  values ((k, v) ∷ m) = v ∷ values m

  pub keys-write : (k : String) (v : V) (m : Table V) → keys (write k v m) ≡ keys m
  unfolding keys write
  keys-write k v [] = refl
  keys-write k v ((j, w) ∷ m) = elim (Bool-cases (str_eq j k)) [
    | inl e ↦ rw e
    | inr e ↦ rw e (rw (keys-write k v m))
  ]

  pub get-write :
      (k j : String) (v : V) (m : Table V) (old : V)
      → get k m ≡ some old
      → get j (write k v m) ≡ (if str_eq k j then some v else get j m)
  unfolding get write
  get-write k j v [] old h = cc
  get-write k j v ((i, w) ∷ m) old h =
      ground (arith, eq_iff k j, eq_iff i k, eq_iff i j, get-write k j v m old)
