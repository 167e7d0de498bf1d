-- ===== src/Types/Exact.antt =====
-- The values of fields that their literals stand for exactly.
use mariadb_scylla_storage_e.Prelude.{
  ℕ, ◌%◌, ◌^◌, Bool, true, false, not, ◌&&◌, ◌||◌, some, ◌==◌, leb, ltb, ◌≡◌, refl, ap, arith,
  if◌then◌else◌,
}
use mariadb_scylla_storage_e.Prelude.Int.{ℤ, pos, negsuc, is_zero, to_word, ◌==ℤ◌}
use mariadb_scylla_storage_e.Numerals.{fits}
use mariadb_scylla_storage_e.Server.{Server, IsLawful, FieldType}
use mariadb_scylla_storage_e.Types.Value.{millis}
use mariadb_scylla_storage_e.Types.Cql.{CqlValue, days_in_month}
use mariadb_scylla_storage_e.Types.Typing.{ranged, value_of}

abbrev pub is_day : ℕ → ℕ → ℕ → Bool
is_day y mo d = leb 1 mo && leb mo 12 && leb 1 d && leb d (days_in_month y mo)

-- A number of milliseconds from 0 up to 2^63.
abbrev pub is_moment : ℤ → Bool
is_moment (pos n) = ltb n (2 ^ 63)
is_moment (negsuc n) = false

ranged-moment :
    (z : ℤ) → is_moment z ≡ true → ranged 64 (pos (to_word 64 z)) ≡ some (CqlValue.integer z)
ranged-moment (pos n) h = ground arith
ranged-moment (negsuc n) h = cc

left : (a b : Bool) → (a && b) ≡ true → a ≡ true
left true b h = refl
left false b h = h

module _ (S : Server) (law : IsLawful S) (m : S.Memory) (field : S.Field) where
  open S use {val_int, val_str, get_date}

  abbrev held_bytes : CqlValue
  held_bytes =
      if S.is_binary field then CqlValue.blob (val_str m field) else CqlValue.text (val_str m field)

  abbrev is_whole_moment : Bool
  is_whole_moment = is_moment (millis S m field) && ((get_date m field).second_part % 1000 == 0)

  -- The value of a field of the type that is not null; for an integer it is what `val_int` gives,
  -- which is negative for an unsigned BIGINT in its upper half.
  abbrev pub held : FieldType → CqlValue
  held FieldType.tiny = CqlValue.integer (val_int m field)
  held FieldType.short = CqlValue.integer (val_int m field)
  held FieldType.long = CqlValue.integer (val_int m field)
  held FieldType.int24 = CqlValue.integer (val_int m field)
  held FieldType.longlong = CqlValue.integer (val_int m field)
  held FieldType.datetime = CqlValue.integer (millis S m field)
  held FieldType.timestamp = CqlValue.integer (millis S m field)
  held FieldType.timestamp2 = CqlValue.integer (millis S m field)
  held FieldType.bit = CqlValue.boolean (val_int m field ==ℤ pos 1)
  held FieldType.tiny_blob = held_bytes
  held FieldType.medium_blob = held_bytes
  held FieldType.long_blob = held_bytes
  held FieldType.blob = held_bytes
  held FieldType.date =
      CqlValue.date (get_date m field).year (get_date m field).month (get_date m field).day
  held FieldType.time =
      CqlValue.time (get_date m field).hour (get_date m field).minute (get_date m field).second
  held _ = CqlValue.text (val_str m field)

  -- The column's CQL type has this value, and nothing of it is left out: an integer, as `val_int`
  -- gives it, in range; a BIT of 0 or 1; a date of the calendar; a TIME of a day without a sign and a
  -- fraction; and a date and time from 1970 on in whole milliseconds. The literals of floating point
  -- numbers and decimals are not read.
  abbrev pub is_exact : FieldType → Bool
  is_exact FieldType.tiny = fits 8 (val_int m field)
  is_exact FieldType.short = fits 16 (val_int m field)
  is_exact FieldType.long = fits 32 (val_int m field)
  is_exact FieldType.int24 = fits 32 (val_int m field)
  is_exact FieldType.longlong = fits 64 (val_int m field)
  is_exact FieldType.float = false
  is_exact FieldType.double = false
  is_exact FieldType.decimal = false
  is_exact FieldType.newdecimal = false
  is_exact FieldType.datetime = is_whole_moment
  is_exact FieldType.timestamp = is_whole_moment
  is_exact FieldType.timestamp2 = is_whole_moment
  is_exact FieldType.bit = (val_int m field ==ℤ pos 0) || (val_int m field ==ℤ pos 1)
  is_exact FieldType.date =
      is_day (get_date m field).year (get_date m field).month (get_date m field).day
  is_exact FieldType.time =
      (ltb (get_date m field).hour 24
        && ltb (get_date m field).minute 60
        && ltb (get_date m field).second 60)
      && (not (get_date m field).neg && (get_date m field).second_part == 0)
  is_exact _ = true

  bit_held : (z : ℤ) → ((z ==ℤ pos 0) || (z ==ℤ pos 1)) ≡ true → not (is_zero z) ≡ (z ==ℤ pos 1)
  bit_held (pos n) h = ground arith
  bit_held (negsuc n) h = ground arith

  pub value_of-held :
      (ty : FieldType) → is_exact ty ≡ true → value_of S law m field ty ≡ some (held ty)
  value_of-held FieldType.tiny h = rw h
  value_of-held FieldType.short h = rw h
  value_of-held FieldType.long h = rw h
  value_of-held FieldType.int24 h = rw h
  value_of-held FieldType.longlong h = rw h
  value_of-held FieldType.datetime h = ranged-moment (millis S m field) (left _ _ h)
  value_of-held FieldType.timestamp h = ranged-moment (millis S m field) (left _ _ h)
  value_of-held FieldType.timestamp2 h = ranged-moment (millis S m field) (left _ _ h)
  value_of-held FieldType.bit h = ap (λ b. some (CqlValue.boolean b)) (bit_held (val_int m field) h)
  value_of-held FieldType.date h = rw h
  value_of-held FieldType.time h =
      let t = get_date m field in
      let inside : (ltb t.hour 24 && ltb t.minute 60 && ltb t.second 60) ≡ true = left _ _ h in
      rw inside
  value_of-held FieldType.float h = cc
  value_of-held FieldType.double h = cc
  value_of-held FieldType.decimal h = cc
  value_of-held FieldType.newdecimal h = cc
  value_of-held _ h = refl
