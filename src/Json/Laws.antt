-- ===== src/Json/Laws.antt =====
-- `Map::insert` of serde_json: lookups and keys afterwards.
use text.Mathlib.TextEquality.{path_by_compare}
use nowledge.Prelude.{String, str_eq, eq_iff, ◌≡◌, refl, ◌||◌, some, arith, if◌then◌else◌, contains}
use nowledge.Json.{Value, Fields, end, field, get_in, insert_in, field_names}

pub get_in-insert_in :
    (k j : String) (v : Value) (m : Fields)
    → get_in j (insert_in k v m) ≡ (if str_eq k j then some v else get_in j m)
unfolding get_in insert_in
get_in-insert_in k j v end = refl
get_in-insert_in k j v (field i w m) =
    ground
      (arith, path_by_compare k i, eq_iff k j, eq_iff i k, eq_iff i j, get_in-insert_in k j v m)

pub contains-field_names-insert_in :
    (k j : String) (v : Value) (m : Fields)
    → contains (field_names (insert_in k v m)) j ≡ (str_eq k j || contains (field_names m) j)
unfolding field_names insert_in contains
contains-field_names-insert_in k j v end = refl
contains-field_names-insert_in k j v (field i w m) =
    ground
      (arith, path_by_compare k i, eq_iff k j, eq_iff i j, contains-field_names-insert_in k j v m)
