-- ===== src/Types/Years.antt =====
-- A year that is taken for milliseconds by `store_field_value`.
use mariadb_scylla_storage_e.Prelude.{
  ℕ, ◌-◌, ◌*◌, ◌/◌, ◌%◌, ◌≤◌, ◌<◌, ap, ◌∙◌, true, false, ◌∷◌, ◌++◌, ◌≡◌, refl, arith,
}
use mariadb_scylla_storage_e.Prelude.Int.{pos, negsuc, ◌+ℤ◌, rem_ℕ, mul_ℕ, to_word}
use mariadb_scylla_storage_e.Prelude.Text.{Bytes}
use mariadb_scylla_storage_e.Numerals.{ok, show_ℕ, to_string, padded}
use mariadb_scylla_storage_e.Numerals.Width.{padded-show_ℕ}
use mariadb_scylla_storage_e.Calendar.{gmtime, civil_from_days}
use mariadb_scylla_storage_e.Server.{Server, timestamp_datetime}
use mariadb_scylla_storage_e.Types.Store.{time_of_ms, store_field_value}
use mariadb_scylla_storage_e.Types.Timestamps.{is_timestamp, store_field_value-datetime_text}
use mariadb_scylla_storage_e.Types.Zones.{div_ℕ-pos, rem_ℕ-pos, mul_ℕ-pos}

epoch_day : civil_from_days (pos 0) ≡ (pos 1970, 1, 1)
unfolding civil_from_days
epoch_day = refl

gmtime-small :
    (k : ℕ)
    → k < 10
    → gmtime (pos k) ≡ record {
      tm_year = pos 70;
      tm_mon = pos 0;
      tm_mday = 1;
      tm_hour = 0;
      tm_min = 0;
      tm_sec = k;
    }
unfolding gmtime ◌+ℤ◌
gmtime-small k h =
    let none_passed : k / 86400 ≡ 0 = omega arith in
    let date = ap (λ d. civil_from_days (pos d)) none_passed ∙ epoch_day in
    let hours : k % 86400 / 3600 ≡ 0 = omega arith in
    let minutes : k % 86400 % 3600 / 60 ≡ 0 = omega arith in
    let seconds : k % 86400 % 60 ≡ k = omega arith in
    λ i. record {
      tm_year = (date i).0 +ℤ negsuc 1899;
      tm_mon = pos ((date i).1 - 1);
      tm_mday = (date i).2;
      tm_hour = hours i;
      tm_min = minutes i;
      tm_sec = seconds i;
    }

part_small : (n : ℕ) → to_word 64 (mul_ℕ (rem_ℕ (pos n) 1000) 1000) ≡ n % 1000 * 1000
part_small n = rw (rem_ℕ-pos n 1000) (rw (mul_ℕ-pos (n % 1000) 1000) (omega arith))

-- The first ten seconds of 1970.
time_of_ms-small :
    (n : ℕ)
    → n < 10000
    → time_of_ms (pos n) ≡ record {
      year = 1970;
      month = 1;
      day = 1;
      hour = 0;
      minute = 0;
      second = n / 1000;
      second_part = n % 1000 * 1000;
      neg = false;
      time_type = timestamp_datetime;
    }
unfolding time_of_ms ◌+ℤ◌
time_of_ms-small n h = rw (div_ℕ-pos n 1000, gmtime-small (n / 1000) (omega arith), part_small n)

-- A date, or a date and time, whose year from 1000 to 9999 stands in front with a dash behind it is
-- not stored in a DATETIME or TIMESTAMP field as what it says: the year is taken for milliseconds,
-- and the field becomes a moment in the first ten seconds of 1970.
pub store_field_value-year :
    (S : Server) (m : S.Memory) (field : S.Field) (y : ℕ) (rest : Bytes)
    → is_timestamp (S.field_type field) ≡ true
    → 1000 ≤ y
    → y < 10000
    → store_field_value S m field (padded 4 (show_ℕ y) ++ (b'-' ∷ rest))
      ≡ ok (
          S.store_time (S.set_notnull m field) field (record {
            year = 1970;
            month = 1;
            day = 1;
            hour = 0;
            minute = 0;
            second = y / 1000;
            second_part = y % 1000 * 1000;
            neg = false;
            time_type = timestamp_datetime;
          }))
unfolding to_string
store_field_value-year S m field y rest t low high =
    ap (λ s. store_field_value S m field (s ++ (b'-' ∷ rest))) (padded-show_ℕ y low)
    ∙ (store_field_value-datetime_text S m field (pos y) (b'-' ∷ rest) t (ground arith) refl
        ∙ ap (λ v. ok (S.store_time (S.set_notnull m field) field v)) (time_of_ms-small y high))
