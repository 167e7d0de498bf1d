-- ===== src/Types/Store.antt =====
-- `store_field_value`: storing a text that came back from the cluster into a field.
use mariadb_scylla_storage_e.Prelude.{
  ℕ, Bool, false, ◌||◌, Option, none, some, [], ◌∷◌, if◌then◌else◌, ◌==◌,
}
use mariadb_scylla_storage_e.Prelude.Int.{ℤ, pos, ◌+ℤ◌, mul_ℕ, div_ℕ, rem_ℕ, to_word}
use mariadb_scylla_storage_e.Prelude.Text.{Bytes, codes, bytes_eq, is_empty}
use mariadb_scylla_storage_e.Numerals.{Result, ok, throw, ◌>>=◌, integer_prefix, stoll}
use mariadb_scylla_storage_e.Calendar.{gmtime}
use mariadb_scylla_storage_e.Server.{
  Server, FieldType, MysqlTime, TimestampType, timestamp_date, timestamp_time, timestamp_datetime,
  latin1, own,
}

-- `sscanf` with "%d", a separator, "%d", a separator and "%d" into three unsigned fields that are 0
-- before; it stops at the first thing that does not fit.
unfoldable pub scan_next : ℕ → Bytes → Option (ℤ × Bytes)
scan_next sep [] = none
scan_next sep (c ∷ s) = if c == sep then integer_prefix s else none

unfoldable pub scan_three : ℕ → Bytes → ℕ × ℕ × ℕ
unfolding scan_next
scan_three sep s = elim (integer_prefix s) [
  | none ↦ (0, 0, 0)
  | some (a, s') ↦ elim (scan_next sep s') [
    | none ↦ (to_word 32 a, 0, 0)
    | some (b, s'') ↦ elim (scan_next sep s'') [
      | none ↦ (to_word 32 a, to_word 32 b, 0)
      | some (c, _) ↦ (to_word 32 a, to_word 32 b, to_word 32 c)
    ]
  ]
]

abbrev pub zero_time : TimestampType → MysqlTime
zero_time ty = record {
  year = 0;
  month = 0;
  day = 0;
  hour = 0;
  minute = 0;
  second = 0;
  second_part = 0;
  neg = false;
  time_type = ty;
}

unfoldable pub parsed_date : Bytes → MysqlTime
unfolding scan_three
parsed_date s =
    let (y, mo, d) = scan_three b'-' s in
    record (zero_time timestamp_date) { year = y; month = mo; day = d }

unfoldable pub parsed_time : Bytes → MysqlTime
unfolding scan_three
parsed_time s =
    let (h, mi, sec) = scan_three b':' s in
    record (zero_time timestamp_time) { hour = h; minute = mi; second = sec }

-- The date and time of a number of milliseconds since the epoch. The fields are unsigned, so a
-- negative number wraps around.
unfoldable pub time_of_ms : ℤ → MysqlTime
time_of_ms ms =
    let tm = gmtime (div_ℕ ms 1000) in
    record {
      year = to_word 32 (tm.tm_year +ℤ pos 1900);
      month = to_word 32 (tm.tm_mon +ℤ pos 1);
      day = tm.tm_mday;
      hour = tm.tm_hour;
      minute = tm.tm_min;
      second = tm.tm_sec;
      second_part = to_word 64 (mul_ℕ (rem_ℕ ms 1000) 1000);
      neg = false;
      time_type = timestamp_datetime;
    }

module _ (S : Server) (m : S.Memory) (field : S.Field) where
  store_integer : Bytes → Result S.Memory
  store_integer value = do int_val ← stoll value; ok (S.store_int m field int_val)

  store_floating : Bytes → Result S.Memory
  store_floating value = do double_val ← S.stod value; ok (S.store_real m field double_val)

  store_text : Bytes → Result S.Memory
  store_text value = ok (S.store_str m field own value)

  -- The `try` block of the timestamps: on any exception the text itself is stored.
  store_timestamp : Bytes → Result S.Memory
  unfolding store_text
  store_timestamp value = elim (stoll value) [
    | ok timestamp_ms ↦ ok (S.store_time m field (time_of_ms timestamp_ms))
    | throw _ ↦ store_text value
  ]

  -- The switch on the type.
  unfoldable pub store_as : FieldType → Bytes → Result S.Memory
  unfolding store_integer store_floating store_text store_timestamp
  store_as FieldType.tiny value = store_integer value
  store_as FieldType.short value = store_integer value
  store_as FieldType.long value = store_integer value
  store_as FieldType.int24 value = store_integer value
  store_as FieldType.longlong value = store_integer value
  store_as FieldType.float value = store_floating value
  store_as FieldType.double value = store_floating value
  store_as FieldType.decimal value = ok (S.store_str m field latin1 value)
  store_as FieldType.newdecimal value = ok (S.store_str m field latin1 value)
  store_as FieldType.date value = ok (S.store_time m field (parsed_date value))
  store_as FieldType.time value = ok (S.store_time m field (parsed_time value))
  store_as FieldType.datetime value = store_timestamp value
  store_as FieldType.timestamp value = store_timestamp value
  store_as FieldType.timestamp2 value = store_timestamp value
  store_as FieldType.bit value = ok (
      S.store_int m field
        (if bytes_eq value (codes "true") || bytes_eq value (codes "1") then pos 1 else pos 0))
  store_as _ value = store_text value

-- `value == "NULL" || value.empty()`
abbrev pub reads_as_null : Bytes → Bool
reads_as_null value = bytes_eq value (codes "NULL") || is_empty value

module _ (S : Server) where
  unfoldable pub store_field_value : S.Memory → S.Field → Bytes → Result S.Memory
  store_field_value m field value =
      if reads_as_null value
      then ok (S.set_null m field)
      else store_as S (S.set_notnull m field) field (S.field_type field) value
