-- ===== src/Types/Quoting.antt =====
-- What the cluster reads in the literals of `get_cql_value`.
use mariadb_scylla_storage_e.Prelude.{Bool, true, false, not, ◌++◌, some, ◌≡◌, arith}
use mariadb_scylla_storage_e.Prelude.Text.{Bytes, codes}
use mariadb_scylla_storage_e.Server.{Server, IsLawful, FieldType}
use mariadb_scylla_storage_e.Types.Literal.{
  quoted, hex_literal, read_literal, EndsLiteral, read_literal-quoted, hex_bytes, read_hex,
  read_hex-hex_bytes,
}
use mariadb_scylla_storage_e.Types.Value.{literal_of, get_cql_value}

abbrev pub is_blob : FieldType → Bool
is_blob FieldType.tiny_blob = true
is_blob FieldType.medium_blob = true
is_blob FieldType.long_blob = true
is_blob FieldType.blob = true
is_blob _ = false

-- The types that are written as text; a blob is, unless its character set is the binary one.
abbrev pub is_textual : FieldType → Bool → Bool
is_textual FieldType.varchar binary = true
is_textual FieldType.var_string binary = true
is_textual FieldType.string binary = true
is_textual FieldType.enum binary = true
is_textual FieldType.set binary = true
is_textual FieldType.other binary = true
is_textual FieldType.tiny_blob binary = not binary
is_textual FieldType.medium_blob binary = not binary
is_textual FieldType.long_blob binary = not binary
is_textual FieldType.blob binary = not binary
is_textual _ binary = false

module _ (S : Server) (m : S.Memory) (field : S.Field) where
  literal_of_textual :
      (ty : FieldType)
      → is_textual ty (S.is_binary field) ≡ true
      → literal_of S m field ty ≡ quoted (S.val_str m field)
  unfolding literal_of
  literal_of_textual FieldType.tiny h = cc
  literal_of_textual _ h = ground arith

  literal_of_blob :
      (ty : FieldType)
      → is_blob ty ≡ true
      → S.is_binary field ≡ true
      → literal_of S m field ty ≡ hex_literal (S.val_str m field)
  unfolding literal_of
  literal_of_blob FieldType.tiny h b = cc
  literal_of_blob _ h b = ground arith

  -- A field of a textual type that is not null is written as a literal which CQL reads as exactly
  -- the field's text and which ends where the engine ended it, whatever characters the text holds;
  -- nothing of the text is read as CQL. No quote may follow the literal.
  pub read_literal-get_cql_value :
      (rest : Bytes)
      → S.is_null m field ≡ false
      → is_textual (S.field_type field) (S.is_binary field) ≡ true
      → EndsLiteral rest
      → read_literal (get_cql_value S m field ++ rest) ≡ some (S.val_str m field, rest)
  unfolding get_cql_value
  read_literal-get_cql_value rest n t e =
      rw (n, literal_of_textual (S.field_type field) t)
        (read_literal-quoted (S.val_str m field) rest e)

  -- A blob with the binary character set that is not null is written as "0x" and digits that spell
  -- exactly its bytes.
  pub read_hex-get_cql_value :
      IsLawful S
      → S.is_null m field ≡ false
      → is_blob (S.field_type field) ≡ true
      → S.is_binary field ≡ true
      → (h : Bytes) × (get_cql_value S m field ≡ codes "0x" ++ h)
        × (read_hex h ≡ some (S.val_str m field))
  unfolding get_cql_value hex_literal
  read_hex-get_cql_value law n t b = (
    hex_bytes (S.val_str m field),
    rw n (literal_of_blob (S.field_type field) t b),
    read_hex-hex_bytes (S.val_str m field) (law.val_str-IsBytes m field),
  )
