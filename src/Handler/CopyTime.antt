-- ===== src/Handler/CopyTime.antt =====
-- A date, a time of day, and a date and time that are stored into a field of a record buffer.
use mariadb_scylla_storage_e.Prelude.{
  ℕ, ◌∙◌, ◌+◌, ◌*◌, ◌/◌, ◌%◌, ap, ◌<◌, Bool, true, false, some, [], append-nil, ◌≡◌, refl, arith,
}
use mariadb_scylla_storage_e.Prelude.Int.{ℤ, pos}
use mariadb_scylla_storage_e.Prelude.Text.{Bytes}
use mariadb_scylla_storage_e.Numerals.{ok, to_string, fits}
use mariadb_scylla_storage_e.Numerals.RoundTrip.{stoll-to_string, stoll-to_string_append}
use mariadb_scylla_storage_e.Calendar.{date_text}
use mariadb_scylla_storage_e.Server.{Server, IsLawful, FieldType, timestamp_date, timestamp_time}
use mariadb_scylla_storage_e.Types.Store.{
  reads_as_null, zero_time, parsed_date, parsed_time, time_of_ms, store_as, store_field_value,
}
use mariadb_scylla_storage_e.Types.ReadBack.{reads_as_null_of_stoll}
use mariadb_scylla_storage_e.Types.Timestamps.{
  is_timestamp, parsed_date-date_text, store_field_value-datetime_text,
}
use mariadb_scylla_storage_e.Types.Cql.{CqlValue, dated, clocked}
use mariadb_scylla_storage_e.Types.Typing.{value_of, written, ranged}
use mariadb_scylla_storage_e.Connection.Values.{time_string}
use mariadb_scylla_storage_e.Connection.TimeText.{parsed_time-time_string, time_string-not_null}
use mariadb_scylla_storage_e.Handler.Record.{store_column}

abbrev pub is_date : FieldType → Bool
is_date FieldType.date = true
is_date _ = false

abbrev pub is_time : FieldType → Bool
is_time FieldType.time = true
is_time _ = false

-- The nanoseconds of a time of day.
abbrev pub nanos : ℕ → ℕ → ℕ → ℕ
nanos h mi s = (h * 3600 + mi * 60 + s) * 1000000000

clocked-some :
    (h mi s : ℕ) (x : CqlValue)
    → clocked h mi s ≡ some x
    → (CqlValue.time h mi s ≡ x) × (h < 24) × (mi < 60) × (s < 60)
clocked-some h mi s x e = ground arith

time_parts :
    (h mi s : ℕ)
    → h < 24
    → mi < 60
    → s < 60
    → parsed_time (time_string (pos (nanos h mi s)))
      ≡ record (zero_time timestamp_time) { hour = h; minute = mi; second = s }
time_parts h mi s lh lm ls =
    let n = nanos h mi s in
    let total : n / 1000000000 ≡ h * 3600 + mi * 60 + s = omega arith in
    let hours : (h * 3600 + mi * 60 + s) / 3600 ≡ h = omega arith in
    let minutes : (h * 3600 + mi * 60 + s) % 3600 / 60 ≡ mi = omega arith in
    let seconds : (h * 3600 + mi * 60 + s) % 60 ≡ s = omega arith in
    parsed_time-time_string n (omega arith)
    ∙ ap
        (λ (t : ℕ). record (zero_time timestamp_time) {
          hour = t / 3600;
          minute = t % 3600 / 60;
          second = t % 60;
        })
        total
    ∙ (λ i. record (zero_time timestamp_time) {
      hour = hours i;
      minute = minutes i;
      second = seconds i;
    })

-- The value of a date is the date, and that of a date and time the number that is written, if they have one.
dated-some : (y mo d : ℕ) (x : CqlValue) → dated y mo d ≡ some x → CqlValue.date y mo d ≡ x
dated-some y mo d x e = ground arith

ranged-some :
    (w : ℕ) (z : ℤ) (x : CqlValue)
    → ranged w z ≡ some x
    → (CqlValue.integer z ≡ x) × (fits w z ≡ true)
ranged-some w z x e = ground arith

date_text-not_null : (y mo d : ℕ) → y < 10000 → reads_as_null (date_text (pos y) mo d) ≡ false
unfolding date_text
date_text-not_null y mo d h =
    reads_as_null_of_stoll _ (pos y) (stoll-to_string_append (pos y) _ refl (ground arith))

module _ (S : Server) (law : IsLawful S) (m : S.Memory) (field : S.Field) where
  pub value_of-date :
      (ty : FieldType) (x : CqlValue)
      → is_date ty ≡ true
      → value_of S law m field ty ≡ some x
      → CqlValue.date (S.get_date m field).year (S.get_date m field).month (S.get_date m field).day
        ≡ x
  value_of-date FieldType.date x h e = dated-some _ _ _ x e
  value_of-date _ x h e = cc

  pub value_of-timestamp :
      (ty : FieldType) (x : CqlValue)
      → is_timestamp ty ≡ true
      → value_of S law m field ty ≡ some x
      → (CqlValue.integer (written S law m field) ≡ x) × (fits 64 (written S law m field) ≡ true)
  value_of-timestamp FieldType.datetime x h e = ranged-some 64 _ x e
  value_of-timestamp FieldType.timestamp x h e = ranged-some 64 _ x e
  value_of-timestamp FieldType.timestamp2 x h e = ranged-some 64 _ x e
  value_of-timestamp _ x h e = cc

  pub value_of-time :
      (ty : FieldType) (x : CqlValue)
      → is_time ty ≡ true
      → value_of S law m field ty ≡ some x
      → (CqlValue.time
            (S.get_date m field).hour
            (S.get_date m field).minute
            (S.get_date m field).second
          ≡ x)
        × ((S.get_date m field).hour < 24)
        × ((S.get_date m field).minute < 60)
        × ((S.get_date m field).second < 60)
  value_of-time FieldType.time x h e = clocked-some _ _ _ x e
  value_of-time _ x h e = cc

  store_as-time :
      (m' : S.Memory) (ty : FieldType) (s : Bytes)
      → is_time ty ≡ true
      → store_as S m' field ty s ≡ ok (S.store_time m' field (parsed_time s))
  unfolding store_as
  store_as-time m' FieldType.time s h = refl
  store_as-time m' _ s h = cc

  pub store_column-time_string :
      (h mi s : ℕ)
      → is_time (S.field_type field) ≡ true
      → h < 24
      → mi < 60
      → s < 60
      → store_column S m field (some (time_string (pos (nanos h mi s))))
        ≡ ok (
            S.store_time
              (S.set_notnull (S.set_notnull m field) field)
              field
              (record (zero_time timestamp_time) { hour = h; minute = mi; second = s }))
  unfolding store_column store_field_value
  store_column-time_string h mi s t lh lm ls = rw (
    time_string-not_null (nanos h mi s) (omega arith),
    store_as-time _ (S.field_type field) (time_string (pos (nanos h mi s))) t,
    time_parts h mi s lh lm ls,
  )

  store_as-date :
      (m' : S.Memory) (ty : FieldType) (s : Bytes)
      → is_date ty ≡ true
      → store_as S m' field ty s ≡ ok (S.store_time m' field (parsed_date s))
  unfolding store_as
  store_as-date m' FieldType.date s h = refl
  store_as-date m' _ s h = cc

  pub store_column-date_text :
      (y mo d : ℕ)
      → is_date (S.field_type field) ≡ true
      → y < 10000
      → mo < 13
      → d < 32
      → store_column S m field (some (date_text (pos y) mo d))
        ≡ ok (
            S.store_time
              (S.set_notnull (S.set_notnull m field) field)
              field
              (record (zero_time timestamp_date) { year = y; month = mo; day = d }))
  unfolding store_column store_field_value
  store_column-date_text y mo d t hy hmo hd = rw (
    date_text-not_null y mo d hy,
    store_as-date _ (S.field_type field) (date_text (pos y) mo d) t,
    parsed_date-date_text y mo d (omega arith) (omega arith) (omega arith),
  )

  pub store_column-millis :
      (z : ℤ)
      → is_timestamp (S.field_type field) ≡ true
      → fits 64 z ≡ true
      → store_column S m field (some (to_string z))
        ≡ ok (S.store_time (S.set_notnull (S.set_notnull m field) field) field (time_of_ms z))
  unfolding store_column
  store_column-millis z t f =
      let stored = store_field_value-datetime_text S (S.set_notnull m field) field z [] t f tt in
      rw (reads_as_null_of_stoll (to_string z) z (stoll-to_string z f))
        (rw (append-nil (to_string z)) at stored)
