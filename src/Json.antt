-- ===== src/Json.antt =====
-- `serde_json::Value`, as far as src/mutation.rs and src/tenant_scope.rs use it. A float is kept as
-- the text of its literal.
pub mod Laws
pub mod Equal
pub mod Canonical
use Prim.Native.Nat.{Ordering}
use Prim.Native.String.{compare}
use nowledge.Prelude.{
  ℕ, String, str_eq, Bool, true, false, Option, none, some, List, [], ◌∷◌, if◌then◌else◌,
}

pub data Number : Type 0 where
  pos_int : ℕ → Number
  neg_int : ℕ → Number
  float : String → Number

mutual
  pub data Value : Type 0 where
    null : Value
    boolean : Bool → Value
    number : Number → Value
    string : String → Value
    array : Items → Value
    object : Fields → Value

  pub data Items : Type 0 where
    nil : Items
    cons : Value → Items → Items

  -- `serde_json::Map`, a `BTreeMap<String, Value>`.
  pub data Fields : Type 0 where
    end : Fields
    field : String → Value → Fields → Fields

unfoldable pub is_null : Value → Bool
is_null null = true
is_null _ = false

unfoldable pub is_object : Value → Bool
is_object (object _) = true
is_object _ = false

-- `Map::get`.
unfoldable pub get_in : String → Fields → Option Value
get_in k end = none
get_in k (field j v m) = if str_eq j k then some v else get_in k m

-- `Value::get` by a key: `None` for what is no object.
unfoldable pub get_field : String → Value → Option Value
unfolding get_in
get_field k (object fields) = get_in k fields
get_field k _ = none

unfoldable pub as_str : Value → Option String
as_str (string s) = some s
as_str _ = none

unfoldable pub as_object : Value → Option Fields
as_object (object fields) = some fields
as_object _ = none

-- `Map::insert`.
unfoldable pub insert_in : String → Value → Fields → Fields
insert_in k v end = field k v end
insert_in k v (field j w m) =
    let rest = insert_in k v m in
    elim (compare k j) [
      | Ordering.lt ↦ field k v (field j w m)
      | Ordering.eq ↦ field k v m
      | Ordering.gt ↦ field j w rest
    ]

unfoldable pub field_names : Fields → List String
field_names end = []
field_names (field k v m) = k ∷ field_names m

-- `Map::retain` by a test on the keys.
unfoldable pub retain : (String → Bool) → Fields → Fields
retain p end = end
retain p (field k v m) = if p k then field k v (retain p m) else retain p m
