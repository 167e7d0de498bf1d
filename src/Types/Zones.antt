-- ===== src/Types/Zones.antt =====
-- Dates and times that go out by `get_cql_value` and come back by `store_field_value`: the one uses
-- `mktime`, which reads local time, and the other `gmtime`.
use mariadb_scylla_storage_e.Prelude.{
  ℕ, ◌+◌, ◌-◌, ◌*◌, ◌/◌, ◌%◌, ◌^◌, ◌<◌, Bool, true, false, [], ◌≡◌, ◌∙◌, refl, sym, ap, arith,
  append-nil, ◌++◌, if◌then◌else◌,
}
use mariadb_scylla_storage_e.Prelude.Int.{ℤ, pos, ◌+ℤ◌, ◌-ℤ◌, mul_ℕ, div_ℕ, rem_ℕ, to_word, negsuc}
use mariadb_scylla_storage_e.Numerals.{ok, to_string, fits}
use mariadb_scylla_storage_e.Calendar.{gmtime, civil_from_days}
use mariadb_scylla_storage_e.Server.{Server, FieldType}
use mariadb_scylla_storage_e.Types.Value.{broken_down, millis, literal_of, get_cql_value}
use mariadb_scylla_storage_e.Types.Store.{time_of_ms, store_field_value}
use mariadb_scylla_storage_e.Types.Timestamps.{is_timestamp, store_field_value-datetime_text}

year_small :
    (z doe : ℕ)
    → z < 107000000000
    → doe < 146097
    → z / 146097 * 400 + (doe - doe / 1460 + doe / 36524 - doe / 146096) / 365 + 1 < 2 ^ 32
year_small z doe h g = omega arith

month_small : (doy : ℕ) → doy < 146097 → (5 * doy + 2) / 153 + 3 < 2 ^ 32
month_small doy h = omega arith

pos_add : (a b : ℕ) → pos a +ℤ pos b ≡ pos (a + b)
unfolding ◌+ℤ◌
pos_add a b = ground arith

pub mul_ℕ-pos : (a k : ℕ) → mul_ℕ (pos a) k ≡ pos (a * k)
mul_ℕ-pos a k = ground arith

year_case :
    (b : Bool) (y : ℕ)
    → y + 1 < 2 ^ 32
    → (y' : ℕ) × ((if b then pos y +ℤ pos 1 else pos y) ≡ pos y') × (y' < 2 ^ 32)
year_case true y h = (y + 1, pos_add y 1, h)
year_case false y h = (y, refl, omega arith)

month_case : (b : Bool) (mp : ℕ) → mp + 3 < 2 ^ 32 → (if b then mp + 3 else mp - 9) < 2 ^ 32
month_case true mp h = h
month_case false mp h = omega arith

civil_from_days-pos :
    (d : ℕ)
    → d < 106800000000
    → ((y : ℕ) × ((civil_from_days (pos d)).0 ≡ pos y) × (y < 2 ^ 32))
      × ((civil_from_days (pos d)).1 < 2 ^ 32)
unfolding civil_from_days
civil_from_days-pos d h =
    let doe = (d + 719468) % 146097 in
    let small : doe < 146097 = omega arith in
    let yoe = (doe - doe / 1460 + doe / 36524 - doe / 146096) / 365 in
    rw
      (
        pos_add d 719468,
        mul_ℕ-pos ((d + 719468) / 146097) 400,
        pos_add ((d + 719468) / 146097 * 400) yoe,
      )
      (
        year_case _ _ (year_small (d + 719468) doe (omega arith) small),
        month_case _ _ (month_small (doe - (365 * yoe + yoe / 4 - yoe / 100)) (omega arith)),
      )

pub div_ℕ-pos : (a k : ℕ) → div_ℕ (pos a) k ≡ pos (a / k)
div_ℕ-pos a k = ground arith

pub rem_ℕ-pos : (a k : ℕ) → rem_ℕ (pos a) k ≡ pos (a % k)
rem_ℕ-pos a k = ground arith

from_1900 : (y : ℕ) → pos y +ℤ negsuc 1899 +ℤ pos 1900 ≡ pos y
unfolding ◌+ℤ◌
from_1900 y = ground arith

less_1900 : (y : ℕ) → pos y -ℤ pos 1900 ≡ pos y +ℤ negsuc 1899
unfolding ◌+ℤ◌ ◌-ℤ◌
less_1900 y = ground arith

in_word_small : (y : ℕ) → y < 2 ^ 32 → y % 2 ^ 32 ≡ y
in_word_small y h = omega arith

year_back :
    (year : ℤ) (y : ℕ)
    → year ≡ pos y
    → y < 2 ^ 32
    → pos (to_word 32 (year +ℤ negsuc 1899 +ℤ pos 1900)) -ℤ pos 1900 ≡ year +ℤ negsuc 1899
year_back year y e h = rw e (
    ap (λ z. pos (to_word 32 z) -ℤ pos 1900) (from_1900 y)
    ∙ (ap (λ n. pos n -ℤ pos 1900) (in_word_small y h) ∙ less_1900 y))

month_back : (n : ℕ) → n + 1 < 2 ^ 32 → pos (to_word 32 (pos n +ℤ pos 1)) -ℤ pos 1 ≡ pos n
unfolding ◌+ℤ◌ ◌-ℤ◌
month_back n h = ground arith

-- What `mktime` gets for a date and time that came from the cluster is what `gmtime` made of it.
broken_down-time_of_ms :
    (ms : ℕ) → ms < 2 ^ 63 → broken_down (time_of_ms (pos ms)) ≡ gmtime (pos (ms / 1000))
unfolding broken_down time_of_ms gmtime
broken_down-time_of_ms ms h =
    let d = ms / 1000 / 86400 in
    let ((y, year, short), month) = civil_from_days-pos d (omega arith) in
    rw (div_ℕ-pos ms 1000) (λ i. record {
      tm_year = year_back (civil_from_days (pos d)).0 y year short i;
      tm_mon = month_back ((civil_from_days (pos d)).1 - 1) (omega (arith, month)) i;
      tm_mday = (civil_from_days (pos d)).2;
      tm_hour = ms / 1000 % 86400 / 3600;
      tm_min = ms / 1000 % 86400 % 3600 / 60;
      tm_sec = ms / 1000 % 86400 % 60;
    })

second_part_back : (ms : ℕ) → to_word 64 (mul_ℕ (rem_ℕ (pos ms) 1000) 1000) / 1000 ≡ ms % 1000
second_part_back ms = rw (rem_ℕ-pos ms 1000) (rw (mul_ℕ-pos (ms % 1000) 1000) (omega arith))

zone_shift :
    (ms : ℕ) (zone : ℤ)
    → mul_ℕ (pos (ms / 1000) +ℤ zone) 1000 +ℤ pos (ms % 1000) ≡ pos ms +ℤ mul_ℕ zone 1000
unfolding ◌+ℤ◌
zone_shift ms (pos n) = ground arith
zone_shift ms (negsuc n) = ground arith

small_word : (n : ℕ) → n < 2 ^ 63 → to_word 64 (pos n) ≡ n
small_word n h = ground arith

small_fits : (n : ℕ) → n < 2 ^ 63 → fits 64 (pos n) ≡ true
small_fits n h = ground arith

module _ (S : Server) (m : S.Memory) (field : S.Field) where
  -- The milliseconds of a date and time that came from the cluster.
  milliseconds :
      (ms : ℕ) (zone : ℤ)
      → S.get_date m field ≡ time_of_ms (pos ms)
      → ms < 2 ^ 63
      → S.mktime (gmtime (pos (ms / 1000))) ≡ pos (ms / 1000) +ℤ zone
      → millis S m field ≡ pos ms +ℤ mul_ℕ zone 1000
  unfolding time_of_ms millis
  milliseconds ms zone date h local =
      let broken = ap broken_down date ∙ broken_down-time_of_ms ms h in
      let part = ap (λ t. t.second_part / 1000) date ∙ second_part_back ms in
      rw (broken, local, part) (zone_shift ms zone)

  literal_of-millis :
      (ty : FieldType)
      → is_timestamp ty ≡ true
      → literal_of S m field ty ≡ to_string (pos (to_word 64 (millis S m field)))
  unfolding literal_of
  literal_of-millis FieldType.datetime t = refl
  literal_of-millis FieldType.timestamp t = refl
  literal_of-millis FieldType.timestamp2 t = refl
  literal_of-millis _ t = cc

  pub get_cql_value-millis :
      (z : ℤ)
      → is_timestamp (S.field_type field) ≡ true
      → S.is_null m field ≡ false
      → millis S m field ≡ z
      → get_cql_value S m field ≡ to_string (pos (to_word 64 z))
  unfolding get_cql_value
  get_cql_value-millis z t present e =
      rw present
        (literal_of-millis (S.field_type field) t ∙ ap (λ x. to_string (pos (to_word 64 x))) e)

  -- A date and time that came from the cluster, from 1970 on, is written as the milliseconds it came
  -- as, and read back as the same date and time, when `mktime` reads it in UTC, with a zone of 0.
  -- When `mktime` is off by a zone of so many seconds, what is written and read back is off by
  -- them. The number of milliseconds is less than 2^63, and with the zone it is not negative and less
  -- than 2^63 too.
  pub store_field_value-time_of_ms :
      (ms total : ℕ) (zone : ℤ)
      → is_timestamp (S.field_type field) ≡ true
      → S.is_null m field ≡ false
      → S.get_date m field ≡ time_of_ms (pos ms)
      → ms < 2 ^ 63
      → S.mktime (gmtime (pos (ms / 1000))) ≡ pos (ms / 1000) +ℤ zone
      → pos ms +ℤ mul_ℕ zone 1000 ≡ pos total
      → total < 2 ^ 63
      → (get_cql_value S m field ≡ to_string (pos total))
        × (store_field_value S m field (get_cql_value S m field)
            ≡ ok (S.store_time (S.set_notnull m field) field (time_of_ms (pos total))))
  store_field_value-time_of_ms ms total zone t present date h local sum short =
      let literal : get_cql_value S m field ≡ to_string (pos total) =
        get_cql_value-millis (pos total) t present (milliseconds ms zone date h local ∙ sum)
        ∙ ap (λ w. to_string (pos w)) (small_word total short) in
      let number : get_cql_value S m field ≡ to_string (pos total) ++ [] =
        literal ∙ sym (append-nil (to_string (pos total))) in
      (
        literal,
        ap (store_field_value S m field) number
            ∙ store_field_value-datetime_text S m field (pos total) [] t (small_fits total short)
                tt,
      )
