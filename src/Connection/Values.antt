-- ===== src/Connection/Values.antt =====
-- The text of each value of a result: the switch on `cass_value_type` in `execute`, which stands
-- there twice.
use mariadb_scylla_storage_e.Prelude.{
  ℕ, ◌+◌, ◌-◌, ◌*◌, ◌^◌, ◌%◌, not, ◌||◌, ◌&&◌, [], ◌∷◌, ◌++◌, ◌≡◌, refl, if◌then◌else◌, ltb, leb,
  length, take, drop, replicate,
}
use mariadb_scylla_storage_e.Prelude.Int.{
  ℤ, pos, negsuc, ◌+ℤ◌, mul_ℕ, div_ℕ, rem_ℕ, is_zero, to_word, signed,
}
use mariadb_scylla_storage_e.Prelude.Text.{Bytes, codes}
use mariadb_scylla_storage_e.Numerals.{show_ℕ, to_string, padded}
use mariadb_scylla_storage_e.Calendar.{gmtime, date_text}
use mariadb_scylla_storage_e.Types.Literal.{hex_literal}
use mariadb_scylla_storage_e.Connection.Driver.{Driver, CassValue}

-- The days since the epoch of a CQL date, computed in 32 bits: `EPOCH_OFFSET` is 2147483648 as an
-- `int32_t`, which is -2147483648.
unfoldable pub days_since_epoch : ℕ → ℤ
days_since_epoch date_val = signed 32 ((date_val + 2 ^ 31) % 2 ^ 32)

-- `gmtime` at midnight and `strftime` into 11 characters, the last of them for the final zero byte.
unfoldable pub date_string : Bytes → ℕ → Bytes
date_string unset date_val =
    let tm = gmtime (mul_ℕ (days_since_epoch date_val) 86400) in
    let s = date_text (tm.tm_year +ℤ pos 1900) (to_word 32 (tm.tm_mon +ℤ pos 1)) tm.tm_mday in
    if ltb (length s) 11 then s else unset

-- `"%0wd"`
unfoldable pub zero_padded : ℕ → ℤ → Bytes
zero_padded w (pos n) = padded w (show_ℕ n)
zero_padded w (negsuc n) = b'-' ∷ padded (w - 1) (show_ℕ (n + 1))

abbrev pub billion : ℕ
billion = 1000000000

-- A CQL time, as `snprintf` prints it into 20 characters.
unfoldable pub time_string : ℤ → Bytes
time_string time_val =
    let total_seconds = div_ℕ time_val billion in
    let hours = div_ℕ total_seconds 3600 in
    let minutes = div_ℕ (rem_ℕ total_seconds 3600) 60 in
    let seconds = rem_ℕ total_seconds 60 in
    let micros = div_ℕ (rem_ℕ time_val billion) 1000 in
    take 19 (
      zero_padded 2 hours
      ++ (b':'
          ∷ (zero_padded 2 minutes
              ++ (b':' ∷ (zero_padded 2 seconds ++ (b'.' ∷ zero_padded 6 micros))))))

-- `(value_int << 8) | byte` on the 64 bits of an `int64_t`.
abbrev pub shift_in : ℕ → ℕ → ℕ
shift_in value byte = value * 256 % 2 ^ 64 + byte

unfoldable pub shift_all : ℕ → Bytes → ℕ
shift_all value [] = value
shift_all value (byte ∷ bytes) = shift_all (shift_in value byte) bytes

-- The number that the bytes of a decimal give, and the text with its decimal point.
unfoldable pub unscaled : Bytes → ℤ
unfolding shift_all
unscaled bytes = signed 64 (shift_all 0 bytes)

unfoldable pub point_in : ℕ → Bytes → Bytes
point_in scale num_str =
    if leb (length num_str) scale
    then codes "0." ++ (replicate (scale - length num_str) b'0' ++ num_str)
    else take (length num_str - scale) num_str ++ (b'.' ∷ drop (length num_str - scale) num_str)

unfoldable pub decimal_string : Bytes → ℤ → Bytes
unfolding unscaled point_in
decimal_string bytes scale =
    if is_zero scale
    then to_string (unscaled bytes)
    else point_in (to_word 64 scale) (to_string (unscaled bytes))

-- A varint starts from all ones if its first byte has the sign bit, and takes eight bytes at most.
unfoldable pub varint_value : ℕ → Bytes → ℤ
unfolding shift_all
varint_value first rest =
    let start = if leb 128 first then 2 ^ 64 - 1 else 0 in
    signed 64 (shift_all start (take 8 (first ∷ rest)))

unit_text : ℤ → ℕ → Bytes
unit_text n letter = if is_zero n then [] else to_string n ++ letter ∷ []

-- The part of a duration behind the "T".
clock_text : ℤ → Bytes
unfolding unit_text
clock_text nanos =
    let total_seconds = div_ℕ nanos billion in
    let hours = div_ℕ total_seconds 3600 in
    let minutes = div_ℕ (rem_ℕ total_seconds 3600) 60 in
    let seconds = rem_ℕ total_seconds 60 in
    let fraction = rem_ℕ nanos billion in
    unit_text hours b'H'
    ++ (unit_text minutes b'M'
        ++ (if not (is_zero seconds) || not (is_zero fraction)
            then to_string seconds
              ++ ((if is_zero fraction then [] else b'.' ∷ to_string fraction) ++ b'S' ∷ [])
            else []))

unfoldable pub duration_string : ℤ → ℤ → ℤ → Bytes
unfolding clock_text
duration_string months days nanos =
    b'P'
    ∷ (unit_text months b'M'
        ++ (unit_text days b'D'
            ++ ((if is_zero nanos then [] else b'T' ∷ clock_text nanos)
                ++ (if is_zero months && is_zero days && is_zero nanos then codes "T0S" else []))))

module _ (D : Driver) where
  abbrev pub Value : Type 0
  Value = CassValue D.Real D.Uuid D.Inet

  unfoldable pub value_string : Value → Bytes
  value_string CassValue.null = codes "NULL"
  value_string (CassValue.tiny_int z) = to_string z
  value_string (CassValue.small_int z) = to_string z
  value_string (CassValue.int z) = to_string z
  value_string (CassValue.bigint z) = to_string z
  value_string (CassValue.float r) = D.to_string_real r
  value_string (CassValue.double r) = D.to_string_real r
  value_string (CassValue.boolean b) = if b then codes "1" else codes "0"
  value_string (CassValue.text s) = s
  value_string (CassValue.varchar s) = s
  value_string (CassValue.ascii s) = s
  value_string (CassValue.timestamp z) = to_string z
  value_string (CassValue.date d) = date_string D.unset_buffer d
  value_string (CassValue.uuid u) = D.uuid_string u
  value_string (CassValue.timeuuid u) = D.uuid_string u
  value_string (CassValue.blob s) = hex_literal s
  value_string (CassValue.decimal bytes scale) = decimal_string bytes scale
  value_string (CassValue.varint first rest) = to_string (varint_value first rest)
  value_string (CassValue.time t) = time_string t
  value_string (CassValue.duration months days nanos) = duration_string months days nanos
  value_string (CassValue.inet i) = D.inet_string i
  value_string CassValue.unsupported = codes "[UNSUPPORTED_TYPE]"

small_decimal : decimal_string (5 ∷ []) (pos 2) ≡ codes "0.05"
unfolding decimal_string to_string
small_decimal = refl

minus_two : varint_value 254 [] ≡ negsuc 1
unfolding varint_value
minus_two = refl

half_past_one : time_string (pos 5400000001000) ≡ codes "01:30:00.000001"
unfolding time_string zero_padded padded show_ℕ
half_past_one = refl

mixed_duration : duration_string (pos 1) (pos 0) (pos 61500000000) ≡ codes "P1MT1M1.500000000S"
unfolding duration_string to_string
mixed_duration = refl
