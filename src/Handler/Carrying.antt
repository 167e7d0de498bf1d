-- ===== src/Handler/Carrying.antt =====
-- The values of the driver that stand for a value of a column, and the texts that the connection makes
-- of them.
use mariadb_scylla_storage_e.Prelude.{ℕ, ◌<◌, ◌≤◌, ◌^◌, ap, [], ◌≡◌, ◌∙◌, refl, arith}
use mariadb_scylla_storage_e.Prelude.Int.{ℤ, pos, sub_ℕ}
use mariadb_scylla_storage_e.Prelude.Text.{Bytes, codes}
use mariadb_scylla_storage_e.Numerals.{to_string}
use mariadb_scylla_storage_e.Types.Cql.{CqlValue}
use mariadb_scylla_storage_e.Connection.Driver.{Driver, CassValue}
use mariadb_scylla_storage_e.Connection.Values.{Value, value_string, time_string}
use mariadb_scylla_storage_e.Calendar.{civil_from_days, date_text}
use mariadb_scylla_storage_e.Connection.DateText.{civil_from_days_small, date_string-date_text}
use mariadb_scylla_storage_e.Handler.CopyTime.{nanos}

-- The values of the driver that carry a value of a column.
pub data Carries (Real Uuid Inet : Type 0) : CqlValue → CassValue Real Uuid Inet → Type 0 where
  null : Carries Real Uuid Inet CqlValue.null CassValue.null
  tiny_int : (z : ℤ) → Carries Real Uuid Inet (CqlValue.integer z) (CassValue.tiny_int z)
  small_int : (z : ℤ) → Carries Real Uuid Inet (CqlValue.integer z) (CassValue.small_int z)
  int : (z : ℤ) → Carries Real Uuid Inet (CqlValue.integer z) (CassValue.int z)
  bigint : (z : ℤ) → Carries Real Uuid Inet (CqlValue.integer z) (CassValue.bigint z)
  text : (s : Bytes) → Carries Real Uuid Inet (CqlValue.text s) (CassValue.text s)
  varchar : (s : Bytes) → Carries Real Uuid Inet (CqlValue.text s) (CassValue.varchar s)
  timestamp : (z : ℤ) → Carries Real Uuid Inet (CqlValue.integer z) (CassValue.timestamp z)
  time :
      (h mi s : ℕ)
      → Carries Real Uuid Inet (CqlValue.time h mi s) (CassValue.time (pos (nanos h mi s)))
  date :
      (date_val y mo d : ℕ)
      → date_val < 2 ^ 32
      → civil_from_days (sub_ℕ date_val (2 ^ 31)) ≡ (pos y, mo, d)
      → 1000 ≤ y
      → y < 10000
      → Carries Real Uuid Inet (CqlValue.date y mo d) (CassValue.date date_val)

abbrev pub text_of : CqlValue → Bytes
text_of CqlValue.null = codes "NULL"
text_of (CqlValue.integer z) = to_string z
text_of (CqlValue.text s) = s
text_of (CqlValue.blob s) = s
text_of (CqlValue.date y mo d) = date_text (pos y) mo d
text_of (CqlValue.time h mi s) = time_string (pos (nanos h mi s))
text_of _ = []

module _ (D : Driver) where
  pub value_string-Carries :
      {x : CqlValue} {v : Value D} → Carries D.Real D.Uuid D.Inet x v → value_string D v ≡ text_of x
  unfolding value_string
  value_string-Carries null = refl
  value_string-Carries (tiny_int z) = refl
  value_string-Carries (small_int z) = refl
  value_string-Carries (int z) = refl
  value_string-Carries (bigint z) = refl
  value_string-Carries (text s) = refl
  value_string-Carries (varchar s) = refl
  value_string-Carries (timestamp z) = refl
  value_string-Carries (time h mi s) = refl
  value_string-Carries (date v y mo d h e low high) =
      date_string-date_text D.unset_buffer v y h (ap (λ (t : ℤ × ℕ × ℕ). t.0) e) low high
      ∙ ap (λ (t : ℤ × ℕ × ℕ). date_text (pos y) t.1 t.2) e

  -- A date that is carried has a year, a month and a day of these sizes.
  pub Carries-small :
      {x : CqlValue} {v : Value D} (y mo d : ℕ)
      → Carries D.Real D.Uuid D.Inet x v
      → CqlValue.date y mo d ≡ x
      → (y < 10000) × (mo < 13) × (d < 32)
  Carries-small y mo d (date v y' mo' d' h e low high) same =
      let (_, month, day) = civil_from_days_small (sub_ℕ v (2 ^ 31)) in
      let year : y' ≡ y = cc in
      let months : (civil_from_days (sub_ℕ v (2 ^ 31))).1 ≡ mo =
        ap (λ (t : ℤ × ℕ × ℕ). t.1) e ∙ cc same in
      let days : (civil_from_days (sub_ℕ v (2 ^ 31))).2 ≡ d =
        ap (λ (t : ℤ × ℕ × ℕ). t.2) e ∙ cc same in
      (omega (arith, year, high), rw months at month, rw days at day)
  Carries-small y mo d null same = cc
  Carries-small y mo d (tiny_int z) same = cc
  Carries-small y mo d (small_int z) same = cc
  Carries-small y mo d (int z) same = cc
  Carries-small y mo d (bigint z) same = cc
  Carries-small y mo d (text s) same = cc
  Carries-small y mo d (varchar s) same = cc
  Carries-small y mo d (timestamp z) same = cc
  Carries-small y mo d (time h mi s) same = cc
