-- ===== src/Server.antt =====
-- What the engine uses of the MariaDB server and of the platform: the `Field` class over record
-- buffers, floating point numbers and the local time zone. None of it is code of this repository;
-- it is a parameter of the model, with the documented behaviour in `IsLawful`.
pub mod Cells
use mariadb_scylla_storage_e.Prelude.{ℕ, Bool, true, ◌≡◌, All, ◌<◌}
use mariadb_scylla_storage_e.Prelude.Int.{ℤ, negate}
use mariadb_scylla_storage_e.Prelude.Text.{Bytes}
use mariadb_scylla_storage_e.Numerals.{Result, fits}
use mariadb_scylla_storage_e.Calendar.{Tm}

-- `enum_field_types`: the types that the source names; `other` stands for all that it does not.
pub data FieldType : Type 0 where
  tiny short long int24 longlong : FieldType
  float double decimal newdecimal : FieldType
  varchar var_string string : FieldType
  tiny_blob medium_blob long_blob blob : FieldType
  date time datetime timestamp timestamp2 : FieldType
  enum set bit other : FieldType

-- `enum_mysql_timestamp_type`, as far as it is used.
pub data TimestampType : Type 0 where
  timestamp_date timestamp_datetime timestamp_time : TimestampType

-- `MYSQL_TIME`
pub record MysqlTime : Type 0 where
  pub year : ℕ
  pub month : ℕ
  pub day : ℕ
  pub hour : ℕ
  pub minute : ℕ
  pub second : ℕ
  pub second_part : ℕ
  pub neg : Bool
  pub time_type : TimestampType

-- The character set argument of `Field::store`: `my_charset_latin1`, or the field's own.
pub data Charset : Type 0 where
  latin1 own : Charset

pub record Server : Type 1 where
  pub Memory : Type 0
  pub Field : Type 0
  pub Real : Type 0
  -- What a field is (an address is an integer): `field_name`, `type()`, `charset() == &my_charset_bin`, `ptr`, `pack_length()`,
  -- `null_ptr != nullptr`.
  pub field_name : Field → Bytes
  pub field_type : Field → FieldType
  pub is_binary : Field → Bool
  pub ptr : Field → ℤ
  pub pack_length : Field → ℕ
  pub has_null_ptr : Field → Bool
  -- `move_field` with one argument, which sets `ptr`, and `move_field_offset`.
  pub move_field : Field → ℤ → Field
  pub move_field_offset : Field → ℤ → Field
  -- Reading the bytes under a field.
  pub is_null : Memory → Field → Bool
  pub val_int : Memory → Field → ℤ
  pub val_real : Memory → Field → Real
  pub val_str : Memory → Field → Bytes
  pub get_date : Memory → Field → MysqlTime
  -- Writing them.
  pub set_null : Memory → Field → Memory
  pub set_notnull : Memory → Field → Memory
  pub store_int : Memory → Field → ℤ → Memory
  pub store_real : Memory → Field → Real → Memory
  pub store_str : Memory → Field → Charset → Bytes → Memory
  pub store_time : Memory → Field → MysqlTime → Memory
  -- `memset(buf, 0, length)`.
  pub clear : Memory → ℤ → ℕ → Memory
  -- Printing with `std::setprecision(15)`, `std::stod`; `mktime` in local time.
  pub show_real : Real → Bytes
  pub stod : Bytes → Result Real
  pub mktime : Tm → ℤ

pub record IsLawful (S : Server) : Type 0 where
  pub ptr-move_field : (f : S.Field) (p : ℤ) → S.ptr (S.move_field f p) ≡ p
  pub move_field-move_field :
      (f : S.Field) (p q : ℤ) → S.move_field (S.move_field f p) q ≡ S.move_field f q
  pub move_field_self : (f : S.Field) → S.move_field f (S.ptr f) ≡ f
  pub field_name-move_field :
      (f : S.Field) (p : ℤ) → S.field_name (S.move_field f p) ≡ S.field_name f
  pub field_type-move_field :
      (f : S.Field) (p : ℤ) → S.field_type (S.move_field f p) ≡ S.field_type f
  pub is_binary-move_field : (f : S.Field) (p : ℤ) → S.is_binary (S.move_field f p) ≡ S.is_binary f
  pub pack_length-move_field :
      (f : S.Field) (p : ℤ) → S.pack_length (S.move_field f p) ≡ S.pack_length f
  pub field_name-move_field_offset :
      (f : S.Field) (d : ℤ) → S.field_name (S.move_field_offset f d) ≡ S.field_name f
  pub field_type-move_field_offset :
      (f : S.Field) (d : ℤ) → S.field_type (S.move_field_offset f d) ≡ S.field_type f
  pub is_binary-move_field_offset :
      (f : S.Field) (d : ℤ) → S.is_binary (S.move_field_offset f d) ≡ S.is_binary f
  pub move_field_offset_back :
      (f : S.Field) (d : ℤ) → S.move_field_offset (S.move_field_offset f d) (negate d) ≡ f
  pub val_int-fits : (m : S.Memory) (f : S.Field) → fits 64 (S.val_int m f) ≡ true
  pub val_str-IsBytes : (m : S.Memory) (f : S.Field) → All (λ b. b < 256) (S.val_str m f)
