-- ===== src/Types/Timestamps.antt =====
-- Dates and times that `store_field_value` reads from texts.
use mariadb_scylla_storage_e.Prelude.{
  ℕ, ◌<◌, ◌^◌, Bool, true, false, some, [], ◌∷◌, ◌++◌, append-nil, ◌≡◌, refl, arith,
}
use mariadb_scylla_storage_e.Prelude.Int.{ℤ, pos}
use mariadb_scylla_storage_e.Prelude.Text.{Bytes}
use mariadb_scylla_storage_e.Numerals.{ok, show_ℕ, to_string, padded, stoll, fits, integer_prefix}
use mariadb_scylla_storage_e.Numerals.RoundTrip.{
  EndsNumber, integer_prefix-padded, integer_prefix-to_string, stoll-to_string_append,
}
use mariadb_scylla_storage_e.Calendar.{date_text}
use mariadb_scylla_storage_e.Server.{Server, FieldType, timestamp_date}
use mariadb_scylla_storage_e.Types.Store.{
  scan_three, scan_next, zero_time, parsed_date, time_of_ms, store_as, store_field_value,
}
use mariadb_scylla_storage_e.Types.ReadBack.{reads_as_null_of_stoll}

abbrev pub is_timestamp : FieldType → Bool
is_timestamp FieldType.datetime = true
is_timestamp FieldType.timestamp = true
is_timestamp FieldType.timestamp2 = true
is_timestamp _ = false

store_as_timestamp :
    (S : Server) (m : S.Memory) (field : S.Field) (ty : FieldType) (s : Bytes) (z : ℤ)
    → is_timestamp ty ≡ true
    → stoll s ≡ ok z
    → store_as S m field ty s ≡ ok (S.store_time m field (time_of_ms z))
unfolding store_as
store_as_timestamp S m field FieldType.tiny s z h e = cc
store_as_timestamp S m field _ s z h e = ground arith

-- A text for a DATETIME or TIMESTAMP field that begins with a 64-bit number as it is printed, with
-- anything but a digit behind it, is stored as that many milliseconds since 1970.
pub store_field_value-datetime_text :
    (S : Server) (m : S.Memory) (field : S.Field) (z : ℤ) (rest : Bytes)
    → is_timestamp (S.field_type field) ≡ true
    → fits 64 z ≡ true
    → EndsNumber rest
    → store_field_value S m field (to_string z ++ rest)
      ≡ ok (S.store_time (S.set_notnull m field) field (time_of_ms z))
unfolding store_field_value
store_field_value-datetime_text S m field z rest t f e =
    let read = stoll-to_string_append z rest e f in
    rw (
      reads_as_null_of_stoll (to_string z ++ rest) z read,
      store_as_timestamp S _ field (S.field_type field) _ z t read,
    )

-- What `scan_three` reads of three numbers that fit 32 bits.
pub scan_three-numbers :
    (sep a b c : ℕ) (s t u : Bytes)
    → a < 2 ^ 32
    → b < 2 ^ 32
    → c < 2 ^ 32
    → integer_prefix s ≡ some (pos a, sep ∷ t)
    → integer_prefix t ≡ some (pos b, sep ∷ u)
    → (r : Bytes) → integer_prefix u ≡ some (pos c, r)
    → scan_three sep s ≡ (a, b, c)
unfolding scan_three scan_next
scan_three-numbers sep a b c s t u ha hb hc p q r w = ground arith

EndsNumber-dash : (s : Bytes) → EndsNumber (b'-' ∷ s)
EndsNumber-dash s = refl

-- A date that the connection printed, with a year of at most 32 bits, is read back as the same
-- year, month and day.
pub parsed_date-date_text :
    (y mo d : ℕ)
    → y < 2 ^ 32
    → mo < 2 ^ 32
    → d < 2 ^ 32
    → parsed_date (date_text (pos y) mo d)
      ≡ record (zero_time timestamp_date) { year = y; month = mo; day = d }
unfolding parsed_date date_text
parsed_date-date_text y mo d hy hmo hd =
    let day = padded 2 (show_ℕ d) in
    let rest = padded 2 (show_ℕ mo) ++ (b'-' ∷ day) in
    let read_year = integer_prefix-to_string (pos y) (b'-' ∷ rest) (EndsNumber-dash rest) in
    let read_month = integer_prefix-padded 2 mo (b'-' ∷ day) (EndsNumber-dash day) in
    let read_day : integer_prefix day ≡ some (pos d, []) =
      rw (append-nil day) at (integer_prefix-padded 2 d [] tt) in
    rw (scan_three-numbers b'-' y mo d _ rest day hy hmo hd read_year read_month [] read_day)
