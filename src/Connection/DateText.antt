-- ===== src/Connection/DateText.antt =====
-- The text of a CQL date against the reading and the writing of a DATE.
use mariadb_scylla_storage_e.Prelude.{
  ℕ, ◌+◌, ◌-◌, ◌*◌, ◌/◌, ◌<◌, ◌≤◌, ◌^◌, false, Bool, [], ◌∷◌, ◌++◌, ◌≡◌, ◌∙◌, refl, sym, ap, arith,
  append_assoc, ltb, length, length-append, if◌then◌else◌,
}
use mariadb_scylla_storage_e.Prelude.Int.{
  ℤ, pos, negsuc, sub_ℕ, ◌+ℤ◌, mul_ℕ, floor_div, floor_mod, to_word,
}
use mariadb_scylla_storage_e.Prelude.Text.{Bytes}
use mariadb_scylla_storage_e.Numerals.{show_ℕ, to_string, padded}
use mariadb_scylla_storage_e.Numerals.Width.{length-padded, padded-show_ℕ}
use mariadb_scylla_storage_e.Calendar.{civil_from_days, gmtime, date_text}
use mariadb_scylla_storage_e.Server.{Server, FieldType, timestamp_date}
use mariadb_scylla_storage_e.Types.Value.{date_literal, literal_of, get_cql_value}
use mariadb_scylla_storage_e.Types.Store.{zero_time, parsed_date}
use mariadb_scylla_storage_e.Types.Timestamps.{parsed_date-date_text}
use mariadb_scylla_storage_e.Connection.Values.{date_string}
use mariadb_scylla_storage_e.Connection.Numbers.{days_since_epoch_lem}

-- A day of an era lies in a year of 366 days at most.
day_of_year_small :
    (doe yoe : ℕ)
    → doe < 146097
    → yoe ≡ (doe - doe / 1460 + doe / 36524 - doe / 146096) / 365
    → doe - (365 * yoe + yoe / 4 - yoe / 100) < 366
day_of_year_small doe yoe h e = omega arith

month_small : (doy : ℕ) → doy < 366 → (5 * doy + 2) / 153 < 12
month_small doy h = omega arith

day_small : (doy : ℕ) → doy < 366 → doy - (153 * ((5 * doy + 2) / 153) + 2) / 5 + 1 < 32
day_small doy h = omega arith

floor_mod_small : (z : ℤ) → floor_mod z 146097 < 146097
floor_mod_small (pos n) = omega arith
floor_mod_small (negsuc n) = omega arith

month_case :
    (b : Bool) (mp : ℕ)
    → mp < 12
    → b ≡ ltb mp 10
    → (1 ≤ (if b then mp + 3 else mp - 9)) × ((if b then mp + 3 else mp - 9) < 13)
month_case b mp h e = ground arith

-- Every day has a month from 1 to 12 and a day from 1 to 31.
pub civil_from_days_small :
    (days : ℤ)
    → (1 ≤ (civil_from_days days).1)
      × ((civil_from_days days).1 < 13)
      × ((civil_from_days days).2 < 32)
unfolding civil_from_days
civil_from_days_small days =
    let doe = floor_mod (days +ℤ pos 719468) 146097 in
    let yoe = (doe - doe / 1460 + doe / 36524 - doe / 146096) / 365 in
    let doy = doe - (365 * yoe + yoe / 4 - yoe / 100) in
    let short = day_of_year_small doe yoe (floor_mod_small (days +ℤ pos 719468)) refl in
    let (low, high) = month_case _ ((5 * doy + 2) / 153) (month_small doy short) refl in
    (low, high, day_small doy short)

midnight : (days : ℤ) → floor_div (mul_ℕ days 86400) 86400 ≡ days
midnight (pos n) = ground arith
midnight (negsuc n) = ground arith

less_1900 : (y : ℕ) → pos y +ℤ negsuc 1899 +ℤ pos 1900 ≡ pos y
unfolding ◌+ℤ◌
less_1900 y = ground arith

month_back : (n : ℕ) → 1 ≤ n → n < 13 → to_word 32 (pos (n - 1) +ℤ pos 1) ≡ n
unfolding ◌+ℤ◌
month_back n h g = ground arith

length-date_text :
    (y mo d : ℕ) → y < 10000 → mo < 100 → d < 100 → 1000 ≤ y → length (date_text (pos y) mo d) ≡ 10
unfolding date_text to_string
length-date_text y mo d hy hmo hd ly = rw (← padded-show_ℕ y ly) (
    omega (
      arith,
      length-padded 3 y hy,
      length-padded 1 mo hmo,
      length-padded 1 d hd,
      length-append (padded 4 (show_ℕ y))
          (b'-' ∷ (padded 2 (show_ℕ mo) ++ (b'-' ∷ padded 2 (show_ℕ d)))),
      length-append (padded 2 (show_ℕ mo)) (b'-' ∷ padded 2 (show_ℕ d)),
    ))

-- The month and the day of a CQL date.
abbrev pub month_of : ℕ → ℕ
month_of date_val = (civil_from_days (sub_ℕ date_val (2 ^ 31))).1

abbrev pub day_of : ℕ → ℕ
day_of date_val = (civil_from_days (sub_ℕ date_val (2 ^ 31))).2

module _ (unset : Bytes) (date_val y : ℕ) where
  pub date_string-date_text :
      date_val < 2 ^ 32
      → (civil_from_days (sub_ℕ date_val (2 ^ 31))).0 ≡ pos y
      → 1000 ≤ y
      → y < 10000
      → date_string unset date_val ≡ date_text (pos y) (month_of date_val) (day_of date_val)
  unfolding date_string gmtime
  date_string-date_text h e ly hy =
      let (low, high, short) = civil_from_days_small (sub_ℕ date_val (2 ^ 31)) in
      rw
        (
          days_since_epoch_lem date_val h,
          midnight (sub_ℕ date_val (2 ^ 31)),
          e,
          less_1900 y,
          month_back (month_of date_val) low high,
        )
        (rw (
          length-date_text y (month_of date_val) (day_of date_val) hy (omega (arith, high))
            (omega (arith, short)) ly))

date_literal-date_text :
    (y mo d : ℕ)
    → 1000 ≤ y
    → date_literal (record (zero_time timestamp_date) { year = y; month = mo; day = d })
      ≡ b'\'' ∷ (date_text (pos y) mo d ++ b'\'' ∷ [])
unfolding date_literal date_text to_string
date_literal-date_text y mo d ly = rw (
  padded-show_ℕ y ly,
  append_assoc (show_ℕ y) (b'-' ∷ (padded 2 (show_ℕ mo) ++ (b'-' ∷ padded 2 (show_ℕ d))))
      (b'\'' ∷ []),
  append_assoc (padded 2 (show_ℕ mo)) (b'-' ∷ padded 2 (show_ℕ d)) (b'\'' ∷ []),
)

literal_of-date :
    (S : Server) (m : S.Memory) (field : S.Field)
    → literal_of S m field FieldType.date ≡ date_literal (S.get_date m field)
unfolding literal_of
literal_of-date S m field = refl

-- A CQL date with a year from 1000 to 9999 is read into a DATE as its year, month and day, whether it
-- lies before 1970 or after it, and the literal of a DATE that holds them is the text that came
-- from the cluster between quotes.
pub get_cql_value-date_string :
    (S : Server) (m : S.Memory) (field : S.Field) (unset : Bytes) (date_val y : ℕ)
    → date_val < 2 ^ 32
    → (civil_from_days (sub_ℕ date_val (2 ^ 31))).0 ≡ pos y
    → 1000 ≤ y
    → y < 10000
    → S.field_type field ≡ FieldType.date
    → S.is_null m field ≡ false
    → S.get_date m field ≡ parsed_date (date_string unset date_val)
    → (parsed_date (date_string unset date_val) ≡ record (zero_time timestamp_date) {
      year = y;
      month = month_of date_val;
      day = day_of date_val;
    })
      × (get_cql_value S m field ≡ b'\'' ∷ (date_string unset date_val ++ b'\'' ∷ []))
unfolding get_cql_value
get_cql_value-date_string S m field unset date_val y h e ly hy ty present date =
    let text = date_string-date_text unset date_val y h e ly hy in
    let (low, high, short) = civil_from_days_small (sub_ℕ date_val (2 ^ 31)) in
    let read =
      ap parsed_date text
      ∙ parsed_date-date_text y (month_of date_val) (day_of date_val) (omega arith)
          (omega (arith, high)) (omega (arith, short)) in
    (
      read,
      rw (present, ty, literal_of-date S m field)
          (ap date_literal (date ∙ read)
            ∙ (date_literal-date_text y (month_of date_val) (day_of date_val) ly
                ∙ ap (λ s. b'\'' ∷ (s ++ b'\'' ∷ [])) (sym text))),
    )
