-- ===== src/Types/Mapping.antt =====
-- `mariadb_to_cql_type`, `is_supported_type` and `can_be_primary_key`.
use mariadb_scylla_storage_e.Prelude.{Bool, true, false, ◌≡◌, ◌↔◌, arith, if◌then◌else◌}
use mariadb_scylla_storage_e.Prelude.Text.{Bytes, codes}
use mariadb_scylla_storage_e.Server.{Server, FieldType}

-- The switch of `mariadb_to_cql_type`, given whether the character set is binary.
unfoldable pub cql_type : FieldType → Bool → Bytes
cql_type FieldType.tiny binary = codes "tinyint"
cql_type FieldType.short binary = codes "smallint"
cql_type FieldType.long binary = codes "int"
cql_type FieldType.int24 binary = codes "int"
cql_type FieldType.longlong binary = codes "bigint"
cql_type FieldType.float binary = codes "float"
cql_type FieldType.double binary = codes "double"
cql_type FieldType.decimal binary = codes "decimal"
cql_type FieldType.newdecimal binary = codes "decimal"
cql_type FieldType.varchar binary = codes "text"
cql_type FieldType.var_string binary = codes "text"
cql_type FieldType.string binary = codes "text"
cql_type FieldType.tiny_blob binary = if binary then codes "blob" else codes "text"
cql_type FieldType.medium_blob binary = if binary then codes "blob" else codes "text"
cql_type FieldType.long_blob binary = if binary then codes "blob" else codes "text"
cql_type FieldType.blob binary = if binary then codes "blob" else codes "text"
cql_type FieldType.date binary = codes "date"
cql_type FieldType.time binary = codes "time"
cql_type FieldType.datetime binary = codes "timestamp"
cql_type FieldType.timestamp binary = codes "timestamp"
cql_type FieldType.timestamp2 binary = codes "timestamp"
cql_type FieldType.enum binary = codes "text"
cql_type FieldType.set binary = codes "text"
cql_type FieldType.bit binary = codes "boolean"
cql_type FieldType.other binary = codes "text"

module _ (S : Server) where
  unfoldable pub mariadb_to_cql_type : S.Field → Bytes
  unfolding cql_type
  mariadb_to_cql_type field = cql_type (S.field_type field) (S.is_binary field)

unfoldable pub is_supported_type : FieldType → Bool
is_supported_type FieldType.other = false
is_supported_type _ = true

unfoldable pub can_be_primary_key : FieldType → Bool
can_be_primary_key FieldType.tiny_blob = false
can_be_primary_key FieldType.medium_blob = false
can_be_primary_key FieldType.long_blob = false
can_be_primary_key FieldType.blob = false
can_be_primary_key _ = true

-- A field becomes a CQL blob exactly when its type cannot be a primary key and its character set
-- is the binary one.
cql_type-eq-blob_iff :
    (ty : FieldType) (binary : Bool)
    → (cql_type ty binary ≡ codes "blob") ↔ ((can_be_primary_key ty ≡ false) × (binary ≡ true))
unfolding cql_type can_be_primary_key
cql_type-eq-blob_iff FieldType.tiny binary = ground arith
cql_type-eq-blob_iff _ binary = ground arith
