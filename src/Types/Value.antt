-- ===== src/Types/Value.antt =====
-- `get_cql_value`: the CQL literal of a field's value.
use mariadb_scylla_storage_e.Prelude.{◌/◌, not, [], ◌∷◌, ◌++◌, if◌then◌else◌, ◌==◌}
use mariadb_scylla_storage_e.Prelude.Int.{ℤ, pos, ◌+ℤ◌, ◌-ℤ◌, mul_ℕ, is_zero, to_word}
use mariadb_scylla_storage_e.Prelude.Text.{Bytes, codes}
use mariadb_scylla_storage_e.Numerals.{show_ℕ, to_string, padded}
use mariadb_scylla_storage_e.Calendar.{Tm}
use mariadb_scylla_storage_e.Server.{Server, FieldType, MysqlTime}
use mariadb_scylla_storage_e.Types.Literal.{quoted, hex_literal}

-- The text that a C string shows: up to the first zero byte.
c_string : Bytes → Bytes
c_string [] = []
c_string (c ∷ s) = if c == 0 then [] else c ∷ c_string s

-- `'YYYY-MM-DD'` and `'HH:MM:SS'`
unfoldable pub date_literal : MysqlTime → Bytes
date_literal t =
    b'\''
    ∷ (padded 4 (show_ℕ t.year)
        ++ (b'-' ∷ (padded 2 (show_ℕ t.month) ++ (b'-' ∷ (padded 2 (show_ℕ t.day) ++ b'\'' ∷ [])))))

unfoldable pub time_literal : MysqlTime → Bytes
time_literal t =
    b'\''
    ∷ (padded 2 (show_ℕ t.hour)
        ++ (b':'
            ∷ (padded 2 (show_ℕ t.minute) ++ (b':' ∷ (padded 2 (show_ℕ t.second) ++ b'\'' ∷ [])))))

-- The `tm_struct` of a date and time.
unfoldable pub broken_down : MysqlTime → Tm
broken_down t = record {
  tm_year = pos t.year -ℤ pos 1900;
  tm_mon = pos t.month -ℤ pos 1;
  tm_mday = t.day;
  tm_hour = t.hour;
  tm_min = t.minute;
  tm_sec = t.second;
}

module _ (S : Server) (m : S.Memory) (field : S.Field) where
  open S use {val_int, val_real, val_str, get_date}

  -- The milliseconds since 1970. `second_part` is an `unsigned long`, and so is the sum with it: a
  -- negative one is printed as the 64-bit number that it wraps around to.
  unfoldable pub millis : ℤ
  unfolding broken_down
  millis =
      let ltime = get_date m field in
      mul_ℕ (S.mktime (broken_down ltime)) 1000 +ℤ pos (ltime.second_part / 1000)

  timestamp_literal : Bytes
  unfolding millis
  timestamp_literal = to_string (pos (to_word 64 millis))

  text_literal : Bytes
  text_literal = quoted (val_str m field)

  blob_literal : Bytes
  blob_literal =
      if S.is_binary field then hex_literal (val_str m field) else quoted (val_str m field)

  -- The switch on the type of a field that is not null.
  unfoldable pub literal_of : FieldType → Bytes
  unfolding c_string date_literal time_literal timestamp_literal text_literal blob_literal
  literal_of FieldType.tiny = to_string (val_int m field)
  literal_of FieldType.short = to_string (val_int m field)
  literal_of FieldType.long = to_string (val_int m field)
  literal_of FieldType.int24 = to_string (val_int m field)
  literal_of FieldType.longlong = to_string (val_int m field)
  literal_of FieldType.float = S.show_real (val_real m field)
  literal_of FieldType.double = S.show_real (val_real m field)
  literal_of FieldType.decimal = c_string (val_str m field)
  literal_of FieldType.newdecimal = c_string (val_str m field)
  literal_of FieldType.tiny_blob = blob_literal
  literal_of FieldType.medium_blob = blob_literal
  literal_of FieldType.long_blob = blob_literal
  literal_of FieldType.blob = blob_literal
  literal_of FieldType.date = date_literal (get_date m field)
  literal_of FieldType.time = time_literal (get_date m field)
  literal_of FieldType.datetime = timestamp_literal
  literal_of FieldType.timestamp = timestamp_literal
  literal_of FieldType.timestamp2 = timestamp_literal
  literal_of FieldType.bit = if not (is_zero (val_int m field)) then codes "true" else codes "false"
  literal_of _ = text_literal

  unfoldable pub get_cql_value : Bytes
  get_cql_value = if S.is_null m field then codes "NULL" else literal_of (S.field_type field)
