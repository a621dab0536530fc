-- ===== src/Json/Canonical.antt =====
-- `checksum_value` of src/tenant_scope_v1.rs: the canonical text of a JSON value, and its digest.
-- The texts that serde_json gives a string and a number, and SHA-256 in hex, are parameters.
use Prim.Native.String.{◌++◌}
use nowledge.Prelude.{String, true, false}
use nowledge.Json.{
  Number, Value, null, boolean, number, string, array, object, Items, nil, cons, Fields, end, field,
}

-- What the crates give.
pub record Encoder : Type 0 where
  pub quoted : String → String
  pub number_text : Number → String
  pub sha256_hex : String → String

module _ (encoder : Encoder) where
  -- The fields of a `Fields` stand in key order, so that sorting them changes nothing. An item after
  -- the first follows a comma.
  unfoldable mutual
    pub write_canonical_json : Value → String
    write_canonical_json null = "null"
    write_canonical_json (boolean true) = "true"
    write_canonical_json (boolean false) = "false"
    write_canonical_json (number n) = encoder.number_text n
    write_canonical_json (string s) = encoder.quoted s
    write_canonical_json (array items) = "[" ++ (write_items items ++ "]")
    write_canonical_json (object fields) = "{" ++ (write_fields fields ++ "}")

    pub write_items : Items → String
    write_items nil = ""
    write_items (cons x nil) = write_canonical_json x
    write_items (cons x (cons y ys)) = write_canonical_json x ++ ("," ++ write_items (cons y ys))

    pub write_fields : Fields → String
    write_fields end = ""
    write_fields (field k v end) = encoder.quoted k ++ (":" ++ write_canonical_json v)
    write_fields (field k v (field j w rest)) =
        encoder.quoted k
        ++ (":" ++ (write_canonical_json v ++ ("," ++ write_fields (field j w rest))))

  unfoldable pub checksum_value : Value → String
  unfolding write_canonical_json
  checksum_value value = encoder.sha256_hex (write_canonical_json value)
