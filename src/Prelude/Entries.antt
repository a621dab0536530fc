-- ===== src/Prelude/Entries.antt =====
-- The laws of `Table`: what `insert` and `write` do to lookups, keys and to what holds of entries.
use Prim.Native.Nat.{Ordering}
use Prim.Native.String.{compare}
use text.Mathlib.TextEquality.{path_by_compare}
use nowledge.Prelude.{
  String, str_eq, eq_iff, ◌≡◌, refl, subst, inl, inr, ◌||◌, some, [], ◌∷◌, arith, All,
  if◌then◌else◌, Bool-cases, is_some, contains,
}
use nowledge.Prelude.Table.{Table, get, insert, write, keys}

module _ {ℓ} {V : Type ℓ} where
  pub contains-keys : (k : String) (m : Table V) → contains (keys m) k ≡ is_some (get k m)
  unfolding contains keys get
  contains-keys k [] = refl
  contains-keys k ((j, v) ∷ m) = ground (arith, contains-keys k m)

  pub get-insert :
      (k j : String) (v : V) (m : Table V)
      → get j (insert k v m) ≡ (if str_eq k j then some v else get j m)
  unfolding get insert
  get-insert k j v [] = refl
  get-insert k j v ((i, w) ∷ m) =
      ground (arith, path_by_compare k i, eq_iff k j, eq_iff i k, eq_iff i j, get-insert k j v m)

  pub contains-keys-insert :
      (k j : String) (v : V) (m : Table V)
      → contains (keys (insert k v m)) j ≡ (str_eq k j || contains (keys m) j)
  contains-keys-insert k j v m =
      ground (arith, contains-keys j (insert k v m), contains-keys j m, get-insert k j v m)

module _ {ℓ κ} {V : Type ℓ} (P : String × V → Type κ) where
  -- The three places of `insert`, for each outcome of the comparison.
  All-ordered :
      (k : String) (v : V) (j : String) (w : V) (m : Table V) (o : Ordering)
      → P (k, v)
      → All P ((j, w) ∷ m)
      → All P (insert k v m)
      → All P (elim o [
        | Ordering.lt ↦ (k, v) ∷ (j, w) ∷ m
        | Ordering.eq ↦ (k, v) ∷ m
        | Ordering.gt ↦ (j, w) ∷ insert k v m
      ])
  All-ordered k v j w m Ordering.lt p h rest = (p, h)
  All-ordered k v j w m Ordering.eq p h rest = (p, h.1)
  All-ordered k v j w m Ordering.gt p h rest = (h.0, rest)

  pub All-insert : (k : String) (v : V) (m : Table V) → P (k, v) → All P m → All P (insert k v m)
  unfolding insert
  All-insert k v [] p h = (p, tt)
  All-insert k v ((j, w) ∷ m) p h = All-ordered k v j w m (compare k j) p h (All-insert k v m p h.1)

  -- A write keeps what holds of every entry, if the new value has it at its key.
  pub All-write : (k : String) (v : V) (m : Table V) → P (k, v) → All P m → All P (write k v m)
  unfolding write
  All-write k v [] p h = tt
  All-write k v ((j, w) ∷ m) p h = elim (Bool-cases (str_eq j k)) [
    | inl e ↦ rw (e, (eq_iff j k).0 e) (p, h.1)
    | inr e ↦ rw e (h.0, All-write k v m p h.1)
  ]

  pub All-get : (k : String) (v : V) (m : Table V) → get k m ≡ some v → All P m → P (k, v)
  unfolding get
  All-get k v [] g h = absurd (cc)
  All-get k v ((j, w) ∷ m) g h = elim (Bool-cases (str_eq j k)) [
    | inl e ↦ subst (λ i. P (i, v)) ((eq_iff j k).0 e) (subst (λ u. P (j, u)) (ground arith) h.0)
    | inr e ↦ All-get k v m (rw e at g) h.1
  ]
