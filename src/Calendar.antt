-- ===== src/Calendar.antt =====
-- `gmtime` and `strftime` with "%Y-%m-%d", which `scylla_connection.cc` and `scylla_types.cc` call:
-- the proleptic Gregorian calendar in UTC.
use mariadb_scylla_storage_e.Prelude.{
  ℕ, ◌+◌, ◌-◌, ◌*◌, ◌/◌, ◌%◌, ◌≡◌, refl, ◌++◌, ◌∷◌, ltb, if◌then◌else◌,
}
use mariadb_scylla_storage_e.Prelude.Int.{ℤ, pos, negsuc, ◌+ℤ◌, mul_ℕ, floor_div, floor_mod}
use mariadb_scylla_storage_e.Prelude.Text.{Bytes}
use mariadb_scylla_storage_e.Numerals.{show_ℕ, to_string, padded}

-- `struct tm`: the year counts from 1900 and the month from 0.
pub record Tm : Type 0 where
  pub tm_year : ℤ
  pub tm_mon : ℤ
  pub tm_mday : ℕ
  pub tm_hour : ℕ
  pub tm_min : ℕ
  pub tm_sec : ℕ

-- A day of an era of 400 years that begins on a first of March: its year, and its day in the year.
year_of_era : ℕ → ℕ
year_of_era doe = (doe - doe / 1460 + doe / 36524 - doe / 146096) / 365

day_of_year : ℕ → ℕ
unfolding year_of_era
day_of_year doe = let yoe = year_of_era doe in doe - (365 * yoe + yoe / 4 - yoe / 100)

-- The month counted from March, of a day of the year.
shifted_month : ℕ → ℕ
shifted_month doy = (5 * doy + 2) / 153

-- The year, the month from 1 and the day of the month, of a day counted from 1970-01-01.
unfoldable pub civil_from_days : ℤ → ℤ × ℕ × ℕ
unfolding ◌+ℤ◌ year_of_era day_of_year shifted_month
civil_from_days days =
    let z = days +ℤ pos 719468 in
    let doe = floor_mod z 146097 in
    let doy = day_of_year doe in
    let mp = shifted_month doy in
    let month = if ltb mp 10 then mp + 3 else mp - 9 in
    let year = mul_ℕ (floor_div z 146097) 400 +ℤ pos (year_of_era doe) in
    (if ltb month 3 then year +ℤ pos 1 else year, month, doy - (153 * mp + 2) / 5 + 1)

-- `gmtime`
unfoldable pub gmtime : ℤ → Tm
unfolding ◌+ℤ◌ civil_from_days
gmtime seconds =
    let (year, month, day) = civil_from_days (floor_div seconds 86400) in
    let clock = floor_mod seconds 86400 in
    record {
      tm_year = year +ℤ negsuc 1899;
      tm_mon = pos (month - 1);
      tm_mday = day;
      tm_hour = clock / 3600;
      tm_min = clock % 3600 / 60;
      tm_sec = clock % 60;
    }

-- The "%Y-%m-%d" of `strftime`.
unfoldable pub date_text : ℤ → ℕ → ℕ → Bytes
date_text year month day =
    to_string year ++ (b'-' ∷ (padded 2 (show_ℕ month) ++ (b'-' ∷ padded 2 (show_ℕ day))))

leap_day : civil_from_days (pos 19782) ≡ (pos 2024, 2, 29)
unfolding civil_from_days
leap_day = refl

before_epoch : civil_from_days (negsuc 0) ≡ (pos 1969, 12, 31)
unfolding civil_from_days
before_epoch = refl
