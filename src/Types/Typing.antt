-- ===== src/Types/Typing.antt =====
-- The values that CQL reads in the literals of `get_cql_value`.
use mariadb_scylla_storage_e.Prelude.{
  ℕ, Bool, true, false, not, Option, none, some, [], append-nil, ◌≡◌, refl, ap, if◌then◌else◌,
  Bool-cases, inl, inr,
}
use mariadb_scylla_storage_e.Prelude.Int.{ℤ, pos, is_zero, to_word}
use mariadb_scylla_storage_e.Prelude.Text.{Bytes, codes, bytes_eq, bytes_eq_iff}
use mariadb_scylla_storage_e.Numerals.{to_string, integer_prefix, fits}
use mariadb_scylla_storage_e.Numerals.RoundTrip.{integer_prefix-to_string}
use mariadb_scylla_storage_e.Server.{Server, IsLawful, FieldType, MysqlTime}
use mariadb_scylla_storage_e.Types.Mapping.{mariadb_to_cql_type, cql_type}
use mariadb_scylla_storage_e.Types.Literal.{
  quoted, hex_literal, read_literal-quoted, read_hex-hex_bytes,
}
use mariadb_scylla_storage_e.Types.Value.{
  get_cql_value, literal_of, millis, date_literal, time_literal,
}
use mariadb_scylla_storage_e.Types.Cql.{
  CqlValue, null, integer, text, blob, boolean, read_integer, read_text, read_blob, read_boolean,
  read_as, read_value, dated, clocked,
}
use mariadb_scylla_storage_e.Types.Moments.{read_date-date_literal, read_time-time_literal}

abbrev pub ranged : ℕ → ℤ → Option CqlValue
ranged w z = if fits w z then some (integer z) else none

read_integer-to_string : (w : ℕ) (z : ℤ) → read_integer w (to_string z) ≡ ranged w z
unfolding read_integer
read_integer-to_string w z = rw (← append-nil (to_string z)) (rw (integer_prefix-to_string z [] tt))

read_text-quoted : (s : Bytes) → read_text (quoted s) ≡ some (text s)
unfolding read_text
read_text-quoted s = rw (← append-nil (quoted s)) (rw (read_literal-quoted s [] tt))

abbrev pub IsNotNull : Bytes → Type 0
IsNotNull lit = bytes_eq lit (codes "NULL") ≡ false

integer_prefix-null : integer_prefix (codes "NULL") ≡ none
unfolding integer_prefix
integer_prefix-null = refl

pub to_string-IsNotNull : (z : ℤ) → IsNotNull (to_string z)
to_string-IsNotNull z = elim (Bool-cases (bytes_eq (to_string z) (codes "NULL"))) [
  | inl same ↦
      let read : integer_prefix (to_string z) ≡ some (z, []) =
        rw (append-nil (to_string z)) at (integer_prefix-to_string z [] tt) in
      cc (
        integer_prefix-null,
        read,
        ap integer_prefix ((bytes_eq_iff (to_string z) (codes "NULL")).0 same),
      )
  | inr other ↦ other
]

quoted-IsNotNull : (s : Bytes) → IsNotNull (quoted s)
unfolding quoted
quoted-IsNotNull s = refl

date-IsNotNull : (t : MysqlTime) → IsNotNull (date_literal t)
unfolding date_literal
date-IsNotNull t = refl

time-IsNotNull : (t : MysqlTime) → IsNotNull (time_literal t)
unfolding time_literal
time-IsNotNull t = refl

read_boolean-literal :
    (b : Bool) → read_boolean (if b then codes "true" else codes "false") ≡ some (boolean b)
unfolding read_boolean
read_boolean-literal true = refl
read_boolean-literal false = refl

boolean-IsNotNull : (b : Bool) → IsNotNull (if b then codes "true" else codes "false")
boolean-IsNotNull true = refl
boolean-IsNotNull false = refl

-- The types whose literals are read here: all but floating point numbers and decimals.
abbrev pub is_typed : FieldType → Bool
is_typed FieldType.float = false
is_typed FieldType.double = false
is_typed FieldType.decimal = false
is_typed FieldType.newdecimal = false
is_typed _ = true

module _ (S : Server) (law : IsLawful S) (m : S.Memory) (field : S.Field) where
  open S use {val_int, val_str, get_date}

  -- The number that is written for a date and time.
  abbrev pub written : ℤ
  written = pos (to_word 64 (millis S m field))

  abbrev pub bytes_value : CqlValue
  bytes_value = if S.is_binary field then blob (val_str m field) else text (val_str m field)

  -- The value of a field of the type: an integer only in the range of the column's type.
  abbrev pub value_of : FieldType → Option CqlValue
  value_of FieldType.tiny = ranged 8 (val_int m field)
  value_of FieldType.short = ranged 16 (val_int m field)
  value_of FieldType.long = ranged 32 (val_int m field)
  value_of FieldType.int24 = ranged 32 (val_int m field)
  value_of FieldType.longlong = ranged 64 (val_int m field)
  value_of FieldType.datetime = ranged 64 written
  value_of FieldType.timestamp = ranged 64 written
  value_of FieldType.timestamp2 = ranged 64 written
  value_of FieldType.bit = some (boolean (not (is_zero (val_int m field))))
  value_of FieldType.tiny_blob = some bytes_value
  value_of FieldType.medium_blob = some bytes_value
  value_of FieldType.long_blob = some bytes_value
  value_of FieldType.blob = some bytes_value
  value_of FieldType.date =
      dated (get_date m field).year (get_date m field).month (get_date m field).day
  value_of FieldType.time =
      clocked (get_date m field).hour (get_date m field).minute (get_date m field).second
  value_of _ = some (text (val_str m field))

  abbrev Reads : Bytes → Bytes → Option CqlValue → Type 0
  Reads ty lit v = (read_as ty lit ≡ v) × IsNotNull lit

  blob-Reads :
      (b : Bool)
      → S.is_binary field ≡ b
      → Reads
          (if b then codes "blob" else codes "text")
          (if b then hex_literal (val_str m field) else quoted (val_str m field))
          (some (if b then blob (val_str m field) else text (val_str m field)))
  unfolding read_as hex_literal read_blob
  blob-Reads true e =
      (rw (read_hex-hex_bytes (val_str m field) (law.val_str-IsBytes m field)), refl)
  blob-Reads false e = (read_text-quoted (val_str m field), quoted-IsNotNull (val_str m field))

  literal_of-Reads :
      (ty : FieldType)
      → is_typed ty ≡ true
      → Reads (cql_type ty (S.is_binary field)) (literal_of S m field ty) (value_of ty)
  unfolding cql_type literal_of read_as
  literal_of-Reads FieldType.tiny h =
      (read_integer-to_string 8 (val_int m field), to_string-IsNotNull (val_int m field))
  literal_of-Reads FieldType.short h =
      (read_integer-to_string 16 (val_int m field), to_string-IsNotNull (val_int m field))
  literal_of-Reads FieldType.long h =
      (read_integer-to_string 32 (val_int m field), to_string-IsNotNull (val_int m field))
  literal_of-Reads FieldType.int24 h =
      (read_integer-to_string 32 (val_int m field), to_string-IsNotNull (val_int m field))
  literal_of-Reads FieldType.longlong h =
      (read_integer-to_string 64 (val_int m field), to_string-IsNotNull (val_int m field))
  literal_of-Reads FieldType.datetime h =
      (read_integer-to_string 64 written, to_string-IsNotNull written)
  literal_of-Reads FieldType.timestamp h =
      (read_integer-to_string 64 written, to_string-IsNotNull written)
  literal_of-Reads FieldType.timestamp2 h =
      (read_integer-to_string 64 written, to_string-IsNotNull written)
  literal_of-Reads FieldType.bit h =
      let b = not (is_zero (val_int m field)) in (read_boolean-literal b, boolean-IsNotNull b)
  literal_of-Reads FieldType.tiny_blob h = blob-Reads (S.is_binary field) refl
  literal_of-Reads FieldType.medium_blob h = blob-Reads (S.is_binary field) refl
  literal_of-Reads FieldType.long_blob h = blob-Reads (S.is_binary field) refl
  literal_of-Reads FieldType.blob h = blob-Reads (S.is_binary field) refl
  literal_of-Reads FieldType.float h = cc
  literal_of-Reads FieldType.double h = cc
  literal_of-Reads FieldType.decimal h = cc
  literal_of-Reads FieldType.newdecimal h = cc
  literal_of-Reads FieldType.date h =
      (read_date-date_literal (get_date m field), date-IsNotNull (get_date m field))
  literal_of-Reads FieldType.time h =
      (read_time-time_literal (get_date m field), time-IsNotNull (get_date m field))
  literal_of-Reads _ h = (read_text-quoted (val_str m field), quoted-IsNotNull (val_str m field))

  -- What CQL reads in the literal that is written for a field, as a value of the column's CQL type:
  -- null for a null; the integer that `val_int` gives, or nothing for one outside the range of the
  -- type; the text; the bytes of a blob; for a BIT whether any of its bits is set; the date, or
  -- nothing for one that no calendar has; the hours, minutes and seconds of a TIME without its sign
  -- and its fraction, or nothing from 24 hours on; and for a date and time its milliseconds modulo
  -- 2^64, or nothing if these are 2^63 or more, as they are before 1970.
  pub read_value-get_cql_value :
      is_typed (S.field_type field) ≡ true
      → read_value (mariadb_to_cql_type S field) (get_cql_value S m field)
        ≡ (if S.is_null m field then some null else value_of (S.field_type field))
  unfolding read_value mariadb_to_cql_type get_cql_value
  read_value-get_cql_value h = elim (Bool-cases (S.is_null m field)) [
    | inl e ↦ rw e
    | inr e ↦
        let (read, not_null) = literal_of-Reads (S.field_type field) h in rw (e, not_null) read
  ]
