-- ===== src/Handler/Readback.antt =====
-- What a value of the cluster becomes in a field: the text of the connection, through
-- `store_result_to_record` and `store_field_value`.
use mariadb_scylla_storage_e.Prelude.{
  ◌||◌, ◌+◌, ◌*◌, Bool, true, some, [], ◌∷◌, ◌++◌, ◌≡◌, refl, arith, if◌then◌else◌, Bool-cases, inl,
  inr, length,
}
use mariadb_scylla_storage_e.Prelude.Int.{ℤ}
use mariadb_scylla_storage_e.Prelude.Text.{Bytes, codes, is_empty, bytes_eq}
use mariadb_scylla_storage_e.Numerals.{ok, to_string, fits, hex_byte}
use mariadb_scylla_storage_e.Numerals.RoundTrip.{stoll-to_string}
use mariadb_scylla_storage_e.Server.{Server, FieldType, own}
use mariadb_scylla_storage_e.Types.Literal.{hex_bytes, hex_literal}
use mariadb_scylla_storage_e.Types.Store.{reads_as_null, store_as, store_field_value}
use mariadb_scylla_storage_e.Types.Quoting.{is_blob, is_textual}
use mariadb_scylla_storage_e.Types.ReadBack.{is_integer, reads_as_null_of_stoll, store_as_integer}
use mariadb_scylla_storage_e.Connection.Driver.{Driver, CassValue}
use mariadb_scylla_storage_e.Connection.Values.{value_string}
use mariadb_scylla_storage_e.Handler.Record.{store_column}

module _ (S : Server) (D : Driver) (m : S.Memory) (field : S.Field) where
  store_as_textual :
      (m : S.Memory) (ty : FieldType) (b : Bool) (s : Bytes)
      → is_textual ty b ≡ true
      → store_as S m field ty s ≡ ok (S.store_str m field own s)
  unfolding store_as
  store_as_textual m FieldType.tiny b s h = cc
  store_as_textual m _ b s h = ground arith

  store_as_blob :
      (m : S.Memory) (ty : FieldType) (s : Bytes)
      → is_blob ty ≡ true
      → store_as S m field ty s ≡ ok (S.store_str m field own s)
  unfolding store_as
  store_as_blob m FieldType.tiny s h = cc
  store_as_blob m _ s h = ground arith

  reads_as_null-or : (s : Bytes) → reads_as_null s ≡ (is_empty s || bytes_eq s (codes "NULL"))
  reads_as_null-or [] = refl
  reads_as_null-or (c ∷ s) = ground arith

  -- A text of the cluster in a field of a textual type becomes the field's text, except that an
  -- empty text and the text "NULL" set the field to SQL NULL and store no text.
  pub store_column-text :
      (s : Bytes)
      → is_textual (S.field_type field) (S.is_binary field) ≡ true
      → store_column S m field (some (value_string D (CassValue.text s)))
        ≡ ok (
            if is_empty s || bytes_eq s (codes "NULL")
            then S.set_null m field
            else S.store_str (S.set_notnull (S.set_notnull m field) field) field own s)
  unfolding store_column value_string store_field_value
  store_column-text s t = rw (← reads_as_null-or s) (elim (Bool-cases (reads_as_null s)) [
    | inl e ↦ rw e
    | inr e ↦ rw (e, store_as_textual _ (S.field_type field) (S.is_binary field) s t)
  ])

  -- An integer of the cluster that fits 64 bits, whatever its CQL type, becomes the integer of a
  -- field of an integer type.
  pub store_column-bigint :
      (z : ℤ)
      → is_integer (S.field_type field) ≡ true
      → fits 64 z ≡ true
      → store_column S m field (some (value_string D (CassValue.bigint z)))
        ≡ ok (S.store_int (S.set_notnull (S.set_notnull m field) field) field z)
  unfolding store_column value_string store_field_value
  store_column-bigint z t f =
      let read = stoll-to_string z f in
      rw (
        reads_as_null_of_stoll (to_string z) z read,
        store_as_integer S _ field (S.field_type field) (to_string z) z t read,
      )

length-hex_bytes : (s : Bytes) → length (hex_bytes s) ≡ 2 * length s
unfolding hex_bytes hex_byte
length-hex_bytes [] = refl
length-hex_bytes (b ∷ s) = omega (arith, length-hex_bytes s)

module _ (S : Server) (D : Driver) (m : S.Memory) (field : S.Field) where
  -- A blob of the cluster in a field of a blob type becomes the text "0x" with two digits for each
  -- byte, which is longer than the blob by its length and 2: the field never holds the blob's bytes.
  pub store_column-blob :
      (s : Bytes)
      → is_blob (S.field_type field) ≡ true
      → (store_column S m field (some (value_string D (CassValue.blob s)))
          ≡ ok
              (S.store_str (S.set_notnull (S.set_notnull m field) field) field own (hex_literal s)))
        × (length (hex_literal s) ≡ length s + length s + 2)
  unfolding store_column value_string store_field_value hex_literal
  store_column-blob s t = (
    rw (store_as_blob S D m field _ (S.field_type field) (codes "0x" ++ hex_bytes s) t),
    omega (arith, length-hex_bytes s),
  )
