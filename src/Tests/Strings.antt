-- ===== src/Tests/Strings.antt =====
-- The theorems on numbers, types and values at concrete inputs.
use mariadb_scylla_storage_e.Prelude.{
  ◌*◌, false, some, none, [], ◌∷◌, ◌++◌, ◌≡◌, refl, arith, ◌+◌, length,
}
use mariadb_scylla_storage_e.Prelude.Int.{pos, negsuc, ◌+ℤ◌}
use mariadb_scylla_storage_e.Prelude.Text.{Bytes, codes}
use mariadb_scylla_storage_e.Numerals.{ok, to_string, padded, show_ℕ}
use mariadb_scylla_storage_e.Server.{own, timestamp_date, timestamp_datetime}
use mariadb_scylla_storage_e.Server.Cells.{cells, cells-IsLawful}
use mariadb_scylla_storage_e.Types.Literal.{read_literal, read_hex, hex_literal}
use mariadb_scylla_storage_e.Types.Value.{millis, get_cql_value}
use mariadb_scylla_storage_e.Types.Store.{
  store_field_value, parsed_date, parsed_time, time_of_ms, zero_time,
}
use mariadb_scylla_storage_e.Types.Quoting.{read_literal-get_cql_value, read_hex-get_cql_value}
use mariadb_scylla_storage_e.Types.Years.{store_field_value-year}
use mariadb_scylla_storage_e.Types.Before1970.{get_cql_value-before_1970}
use mariadb_scylla_storage_e.Connection.Driver.{CassValue}
use mariadb_scylla_storage_e.Connection.Values.{time_string, varint_value, unscaled, value_string}
use mariadb_scylla_storage_e.Connection.Numbers.{varint_value_lem, unscaled-varint_value}
use mariadb_scylla_storage_e.Connection.Values.{decimal_string}
use mariadb_scylla_storage_e.Connection.DecimalText.{read_decimal, read_decimal-decimal_string}
use mariadb_scylla_storage_e.Connection.TimeText.{get_cql_value-time_string}
use mariadb_scylla_storage_e.Types.Mapping.{mariadb_to_cql_type}
use mariadb_scylla_storage_e.Types.Cql.{CqlValue, read_value}
use mariadb_scylla_storage_e.Types.Zones.{store_field_value-time_of_ms}
use mariadb_scylla_storage_e.Calendar.{gmtime, civil_from_days}
use mariadb_scylla_storage_e.Connection.DateText.{get_cql_value-date_string}
use mariadb_scylla_storage_e.Connection.Values.{date_string}
use mariadb_scylla_storage_e.Server.Cells.{CellField}
use mariadb_scylla_storage_e.Server.{Server, IsLawful, FieldType}
use mariadb_scylla_storage_e.Server.Cells.{CellMemory, moment}
use mariadb_scylla_storage_e.Handler.Record.{store_column}
use mariadb_scylla_storage_e.Handler.Readback.{store_column-text, store_column-blob}
use mariadb_scylla_storage_e.Tests.{counter, name_field, photo_field, seen_field, memory}

read_literal-get_cql_value_example :
    read_literal (get_cql_value cells memory name_field ++ codes ")")
    ≡ some (codes "O'Hara", codes ")")
read_literal-get_cql_value_example =
    read_literal-get_cql_value cells memory name_field (codes ")") refl refl (omega arith)

read_hex-get_cql_value_example :
    (h : Bytes) × (get_cql_value cells memory photo_field ≡ codes "0x" ++ h)
    × (read_hex h ≡ some (10 ∷ 255 ∷ []))
read_hex-get_cql_value_example =
    read_hex-get_cql_value cells memory photo_field cells-IsLawful refl refl refl

store_field_value-year_example :
    store_field_value cells memory seen_field (codes "2024-05-06 07:08:09")
    ≡ ok (
        cells.store_time (cells.set_notnull memory seen_field) seen_field (record {
          year = 1970;
          month = 1;
          day = 1;
          hour = 0;
          minute = 0;
          second = 2;
          second_part = 24000;
          neg = false;
          time_type = timestamp_datetime;
        }))
unfolding padded show_ℕ
store_field_value-year_example =
    store_field_value-year cells memory seen_field 2024 (codes "05-06 07:08:09") refl (omega arith)
      (omega arith)

read_decimal-decimal_string_example :
    read_decimal (decimal_string (1 ∷ 44 ∷ []) (pos 2)) ≡ some (300, 2)
read_decimal-decimal_string_example =
    read_decimal-decimal_string (1 ∷ 44 ∷ []) 2 (omega arith, (omega arith, tt)) (omega arith)
      (omega arith)

varint_value_lem_example : varint_value 255 (0 ∷ []) ≡ negsuc 255
varint_value_lem_example =
    varint_value_lem 255 (0 ∷ []) (omega arith, (omega arith, tt)) (omega arith)

unscaled-varint_value_example : unscaled (255 ∷ 0 ∷ []) ≡ varint_value 255 (0 ∷ []) +ℤ pos 65536
unscaled-varint_value_example =
    unscaled-varint_value 255 (0 ∷ []) (omega arith, (omega arith, tt)) (omega arith)

store_column-text_example :
    store_column cells memory name_field (some (value_string counter (CassValue.text [])))
    ≡ ok (cells.set_null memory name_field)
store_column-text_example = store_column-text cells counter memory name_field [] refl

store_column-blob_example :
    (store_column cells memory photo_field
        (some (value_string counter (CassValue.blob (10 ∷ 255 ∷ []))))
      ≡ ok (
          cells.store_str
            (cells.set_notnull (cells.set_notnull memory photo_field) photo_field)
            photo_field
            own
            (hex_literal (10 ∷ 255 ∷ []))))
    × (length (hex_literal (10 ∷ 255 ∷ [])) ≡ 2 + 2 + 2)
store_column-blob_example = store_column-blob cells counter memory photo_field (10 ∷ 255 ∷ []) refl

abbrev clock_field : CellField
clock_field = record seen_field { type = FieldType.time }

abbrev afternoon : CellMemory
afternoon = record {
  cell = λ p. moment (parsed_time (time_string (pos 45296123456789)));
  null = λ p. false;
}

get_cql_value-time_string_example :
    read_value (mariadb_to_cql_type cells clock_field) (get_cql_value cells afternoon clock_field)
    ≡ some (CqlValue.time 12 34 56)
get_cql_value-time_string_example =
    get_cql_value-time_string cells cells-IsLawful afternoon clock_field 45296123456789
      (omega arith) refl refl refl

-- A server one hour east of Greenwich, right for the first day of 1970, and a field with the time
-- 02:05:12.345 of that day.
abbrev east : Server
east = record cells {
  mktime = λ t. pos (t.tm_hour * 3600 + t.tm_min * 60 + t.tm_sec) +ℤ negsuc 3599;
}

abbrev dated : CellMemory
dated = record { cell = λ p. moment (time_of_ms (pos 7512345)); null = λ p. false }

store_field_value-time_of_ms_example :
    (get_cql_value east dated seen_field ≡ codes "3912345")
    × (store_field_value east dated seen_field (get_cql_value east dated seen_field)
        ≡ ok (
            east.store_time
              (east.set_notnull dated seen_field)
              seen_field
              (time_of_ms (pos 3912345))))
unfolding gmtime ◌+ℤ◌ to_string
store_field_value-time_of_ms_example =
    store_field_value-time_of_ms east dated seen_field 7512345 3912345 (negsuc 3599) refl refl refl
      (omega arith) refl refl (omega arith)

-- The same server at midnight, which is one hour before 1970 in UTC.
abbrev midnight : CellMemory
midnight = record { cell = λ p. moment (time_of_ms (pos 0)); null = λ p. false }

abbrev east-IsLawful : IsLawful east
east-IsLawful = record {
  ptr-move_field = cells-IsLawful.ptr-move_field;
  move_field-move_field = cells-IsLawful.move_field-move_field;
  move_field_self = cells-IsLawful.move_field_self;
  field_name-move_field = cells-IsLawful.field_name-move_field;
  field_type-move_field = cells-IsLawful.field_type-move_field;
  is_binary-move_field = cells-IsLawful.is_binary-move_field;
  pack_length-move_field = cells-IsLawful.pack_length-move_field;
  field_name-move_field_offset = cells-IsLawful.field_name-move_field_offset;
  field_type-move_field_offset = cells-IsLawful.field_type-move_field_offset;
  is_binary-move_field_offset = cells-IsLawful.is_binary-move_field_offset;
  move_field_offset_back = cells-IsLawful.move_field_offset_back;
  val_int-fits = cells-IsLawful.val_int-fits;
  val_str-IsBytes = cells-IsLawful.val_str-IsBytes;
}

get_cql_value-before_1970_example :
    (get_cql_value east midnight seen_field ≡ codes "18446744073705951616")
    × (read_value (mariadb_to_cql_type east seen_field) (get_cql_value east midnight seen_field)
        ≡ none)
    × (store_field_value east midnight seen_field (get_cql_value east midnight seen_field)
        ≡ ok (
            east.store_str
              (east.set_notnull midnight seen_field)
              seen_field
              own
              (codes "18446744073705951616")))
unfolding millis gmtime ◌+ℤ◌ to_string time_of_ms
get_cql_value-before_1970_example =
    get_cql_value-before_1970 east midnight seen_field east-IsLawful 3599999 refl refl refl
      (omega arith)

-- A DATE that was read from the CQL date of 2024-02-29.
abbrev born_field : CellField
born_field = record seen_field { type = FieldType.date }

abbrev leap : CellMemory
leap = record { cell = λ p. moment (parsed_date (date_string [] 2147503430)); null = λ p. false }

get_cql_value-date_string_example :
    (parsed_date (date_string [] 2147503430)
      ≡ record (zero_time timestamp_date) { year = 2024; month = 2; day = 29 })
    × (get_cql_value cells leap born_field ≡ b'\'' ∷ (date_string [] 2147503430 ++ b'\'' ∷ []))
unfolding civil_from_days
get_cql_value-date_string_example =
    get_cql_value-date_string cells leap born_field [] 2147503430 2024 (omega arith) refl
      (omega arith) (omega arith) refl refl refl
