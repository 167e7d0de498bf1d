-- ===== src/Connection/TimeText.antt =====
-- The text of a CQL time against the reading and the writing of a TIME.
use mariadb_scylla_storage_e.Prelude.{
  ℕ, ◌/◌, ◌%◌, ◌<◌, ◌≤◌, ◌∷◌, ◌++◌, ◌≡◌, ◌∙◌, some, false, refl, ap, arith, length, length-append,
  take,
}
use mariadb_scylla_storage_e.Prelude.Int.{ℤ, pos, sub_ℕ, div_ℕ, rem_ℕ}
use mariadb_scylla_storage_e.Prelude.Text.{Bytes}
use mariadb_scylla_storage_e.Numerals.{show_ℕ, padded, stoll}
use mariadb_scylla_storage_e.Numerals.RoundTrip.{integer_prefix-padded}
use mariadb_scylla_storage_e.Numerals.Width.{length-padded}
use mariadb_scylla_storage_e.Server.{Server, IsLawful, FieldType, MysqlTime, timestamp_time}
use mariadb_scylla_storage_e.Types.Mapping.{mariadb_to_cql_type}
use mariadb_scylla_storage_e.Types.Value.{get_cql_value}
use mariadb_scylla_storage_e.Types.Cql.{CqlValue, clocked, read_value}
use mariadb_scylla_storage_e.Types.Typing.{read_value-get_cql_value}
use mariadb_scylla_storage_e.Types.Store.{scan_three, zero_time, parsed_time, reads_as_null}
use mariadb_scylla_storage_e.Types.ReadBack.{reads_as_null_of_stoll}
use mariadb_scylla_storage_e.Types.Timestamps.{scan_three-numbers}
use mariadb_scylla_storage_e.Connection.Values.{zero_padded, time_string}
use mariadb_scylla_storage_e.Connection.Numbers.{take_all}

-- "HH:MM:SS.ffffff"
clock : ℕ → ℕ → ℕ → ℕ → Bytes
clock h mi s us =
    padded 2 (show_ℕ h)
    ++ (b':'
        ∷ (padded 2 (show_ℕ mi) ++ (b':' ∷ (padded 2 (show_ℕ s) ++ (b'.' ∷ padded 6 (show_ℕ us))))))

length-clock :
    (h mi s us : ℕ) → h < 100 → mi < 100 → s < 100 → us < 1000000 → length (clock h mi s us) ≤ 19
unfolding clock
length-clock h mi s us lh lm ls lu = omega (
  arith,
  length-padded 1 h lh,
  length-padded 1 mi lm,
  length-padded 1 s ls,
  length-padded 5 us lu,
  length-append (padded 2 (show_ℕ h)) (
      b':'
      ∷ (padded 2 (show_ℕ mi) ++ (b':' ∷ (padded 2 (show_ℕ s) ++ (b'.' ∷ padded 6 (show_ℕ us)))))),
  length-append (padded 2 (show_ℕ mi))
      (b':' ∷ (padded 2 (show_ℕ s) ++ (b'.' ∷ padded 6 (show_ℕ us)))),
  length-append (padded 2 (show_ℕ s)) (b'.' ∷ padded 6 (show_ℕ us)),
)

scan_three-clock :
    (h mi s us : ℕ) → h < 100 → mi < 100 → s < 100 → scan_three b':' (clock h mi s us) ≡ (h, mi, s)
unfolding clock
scan_three-clock h mi s us lh lm ls =
    let micros = b'.' ∷ padded 6 (show_ℕ us) in
    let seconds = padded 2 (show_ℕ s) ++ micros in
    let minutes = padded 2 (show_ℕ mi) ++ (b':' ∷ seconds) in
    scan_three-numbers b':' h mi s _ minutes seconds (omega arith) (omega arith) (omega arith)
      (integer_prefix-padded 2 h (b':' ∷ minutes) refl)
      (integer_prefix-padded 2 mi (b':' ∷ seconds) refl) micros
      (integer_prefix-padded 2 s micros refl)

-- The text that `time_string` makes of its four numbers.
printed : ℤ → ℤ → ℤ → ℤ → Bytes
unfolding zero_padded
printed h mi s us = take 19 (
    zero_padded 2 h
    ++ (b':' ∷ (zero_padded 2 mi ++ (b':' ∷ (zero_padded 2 s ++ (b'.' ∷ zero_padded 6 us))))))

sub_zero : (n : ℕ) → sub_ℕ n 0 ≡ pos n
sub_zero n = ground arith

time_string-printed :
    (n : ℕ)
    → time_string (pos n)
      ≡ printed
          (pos (n / 1000000000 / 3600))
          (pos (n / 1000000000 % 3600 / 60))
          (pos (n / 1000000000 % 60))
          (pos (n % 1000000000 / 1000))
unfolding time_string printed
time_string-printed n =
    let total : div_ℕ (pos n) 1000000000 ≡ pos (n / 1000000000) = sub_zero (n / 1000000000) in
    let hours = ap (λ t. div_ℕ t 3600) total ∙ sub_zero (n / 1000000000 / 3600) in
    let rest = ap (λ t. rem_ℕ t 3600) total ∙ sub_zero (n / 1000000000 % 3600) in
    let minutes = ap (λ t. div_ℕ t 60) rest ∙ sub_zero (n / 1000000000 % 3600 / 60) in
    let seconds = ap (λ t. rem_ℕ t 60) total ∙ sub_zero (n / 1000000000 % 60) in
    let below : rem_ℕ (pos n) 1000000000 ≡ pos (n % 1000000000) = sub_zero (n % 1000000000) in
    let micros = ap (λ t. div_ℕ t 1000) below ∙ sub_zero (n % 1000000000 / 1000) in
    λ i. printed (hours i) (minutes i) (seconds i) (micros i)

time_string-clock :
    (n : ℕ)
    → n < 360000000000000
    → time_string (pos n)
      ≡ clock
          (n / 1000000000 / 3600)
          (n / 1000000000 % 3600 / 60)
          (n / 1000000000 % 60)
          (n % 1000000000 / 1000)
unfolding printed clock
time_string-clock n h =
    let total = n / 1000000000 in
    time_string-printed n
    ∙ take_all 19 (clock (total / 3600) (total % 3600 / 60) (total % 60) (n % 1000000000 / 1000)) (
        length-clock (total / 3600) (total % 3600 / 60) (total % 60) (n % 1000000000 / 1000)
          (omega arith) (omega arith) (omega arith) (omega arith))

clock-not_null : (h mi s us : ℕ) → h < 100 → reads_as_null (clock h mi s us) ≡ false
unfolding clock stoll
clock-not_null h mi s us lh =
    reads_as_null_of_stoll (clock h mi s us) (pos h)
      (rw (integer_prefix-padded 2 h (b':' ∷ _) refl) (ground arith))

pub time_string-not_null :
    (n : ℕ) → n < 360000000000000 → reads_as_null (time_string (pos n)) ≡ false
time_string-not_null n h =
    ap reads_as_null (time_string-clock n h) ∙ clock-not_null _ _ _ _ (omega arith)

-- The text of a time of day, in nanoseconds and below 100 hours, is read back as its hours, minutes
-- and seconds; the part below a second is lost.
pub parsed_time-time_string :
    (n : ℕ)
    → n < 360000000000000
    → parsed_time (time_string (pos n)) ≡ record (zero_time timestamp_time) {
      hour = n / 1000000000 / 3600;
      minute = n / 1000000000 % 3600 / 60;
      second = n / 1000000000 % 60;
    }
unfolding parsed_time
parsed_time-time_string n h =
    let total = n / 1000000000 in
    ap parsed_time (time_string-clock n h)
    ∙ ap
        (λ (r : ℕ × ℕ × ℕ). record (zero_time timestamp_time) {
          hour = r.0;
          minute = r.1;
          second = r.2;
        })
        (scan_three-clock (total / 3600) (total % 3600 / 60) (total % 60) _ (omega arith)
          (omega arith) (omega arith))

clocked-time :
    (h mi s : ℕ) → h < 24 → mi < 60 → s < 60 → clocked h mi s ≡ some (CqlValue.time h mi s)
clocked-time h mi s lh lm ls = ground arith

-- The whole seconds of a CQL time come back: a TIME that holds what was read from the text of a time
-- of day, in nanoseconds, is written as a literal that CQL reads as the hours, minutes and seconds of
-- that time. What is below a second is lost.
pub get_cql_value-time_string :
    (S : Server) (law : IsLawful S) (m : S.Memory) (field : S.Field) (n : ℕ)
    → n < 86400000000000
    → S.field_type field ≡ FieldType.time
    → S.is_null m field ≡ false
    → S.get_date m field ≡ parsed_time (time_string (pos n))
    → read_value (mariadb_to_cql_type S field) (get_cql_value S m field)
      ≡ some
          (CqlValue.time (n / 1000000000 / 3600) (n / 1000000000 % 3600 / 60) (n / 1000000000 % 60))
get_cql_value-time_string S law m field n h ty present held =
    read_value-get_cql_value S law m field (rw ty)
    ∙ rw (present, ty)
        (ap (λ (t : MysqlTime). clocked t.hour t.minute t.second)
            (held ∙ parsed_time-time_string n (omega arith))
          ∙ clocked-time (n / 1000000000 / 3600) (n / 1000000000 % 3600 / 60) (n / 1000000000 % 60)
              (omega arith) (omega arith) (omega arith))
