-- ===== src/Handler/Copy.antt =====
-- A field's value on its way through the cluster: from a record buffer into a literal, from the
-- value that CQL reads in the literal into a text, and from the text into another record buffer.
use mariadb_scylla_storage_e.Prelude.{
  not, Bool, true, ◌||◌, some, ◌≡◌, ◌∙◌, refl, sym, arith, if◌then◌else◌, Bool-cases, inl, inr,
}
use mariadb_scylla_storage_e.Prelude.Text.{codes, is_empty, bytes_eq}
use mariadb_scylla_storage_e.Numerals.{ok}
use mariadb_scylla_storage_e.Server.{
  Server, IsLawful, FieldType, MysqlTime, own, timestamp_date, timestamp_time,
}
use mariadb_scylla_storage_e.Types.Mapping.{mariadb_to_cql_type}
use mariadb_scylla_storage_e.Types.Value.{get_cql_value}
use mariadb_scylla_storage_e.Types.Store.{zero_time, time_of_ms}
use mariadb_scylla_storage_e.Types.Quoting.{is_textual}
use mariadb_scylla_storage_e.Types.ReadBack.{is_integer}
use mariadb_scylla_storage_e.Types.Cql.{CqlValue, read_value}
use mariadb_scylla_storage_e.Types.Typing.{is_typed, value_of, written, read_value-get_cql_value}
use mariadb_scylla_storage_e.Connection.Driver.{Driver}
use mariadb_scylla_storage_e.Connection.Values.{Value, value_string}
use mariadb_scylla_storage_e.Handler.Record.{store_column}
use mariadb_scylla_storage_e.Handler.Readback.{store_column-text, store_column-bigint}
use mariadb_scylla_storage_e.Types.Timestamps.{is_timestamp}
use mariadb_scylla_storage_e.Handler.CopyTime.{
  is_date, is_time, value_of-date, value_of-time, value_of-timestamp, store_column-date_text,
  store_column-time_string, store_column-millis,
}
use mariadb_scylla_storage_e.Handler.Carrying.{
  Carries, text_of, value_string-Carries, Carries-small,
}

-- The integer types, the text types, and the types of dates and times.
abbrev pub is_plain : FieldType → Bool → Bool
is_plain ty binary =
    is_integer ty || is_textual ty binary || is_time ty || is_date ty || is_timestamp ty

is_typed_of_plain : (ty : FieldType) (b : Bool) → is_plain ty b ≡ true → is_typed ty ≡ true
is_typed_of_plain FieldType.tiny b h = refl
is_typed_of_plain _ b h = ground arith

module _ (S : Server) (law : IsLawful S) (m : S.Memory) (field : S.Field) where
  value_of-integer :
      (ty : FieldType) (x : CqlValue)
      → is_integer ty ≡ true
      → value_of S law m field ty ≡ some x
      → x ≡ CqlValue.integer (S.val_int m field)
  value_of-integer FieldType.tiny x h e = ground arith
  value_of-integer _ x h e = ground arith

  value_of-textual :
      (ty : FieldType)
      → is_textual ty (S.is_binary field) ≡ true
      → value_of S law m field ty ≡ some (CqlValue.text (S.val_str m field))
  value_of-textual FieldType.tiny h = cc
  value_of-textual _ h = ground arith

-- What becomes of a field `dst` of the record that is read, for a field `src` of the one written.
module _ (S : Server) (law : IsLawful S) (m : S.Memory) where
  abbrev pub copied_time : S.Field → MysqlTime
  copied_time src =
      if is_date (S.field_type src)
      then record (zero_time timestamp_date) {
        year = (S.get_date m src).year;
        month = (S.get_date m src).month;
        day = (S.get_date m src).day;
      }
      else if is_time (S.field_type src)
      then record (zero_time timestamp_time) {
        hour = (S.get_date m src).hour;
        minute = (S.get_date m src).minute;
        second = (S.get_date m src).second;
      }
      else time_of_ms (written S law m src)

  abbrev pub copied : S.Memory → S.Field → S.Field → S.Memory
  copied m' src dst =
      if S.is_null m src
      then S.set_null m' dst
      else if is_integer (S.field_type src)
      then S.store_int (S.set_notnull (S.set_notnull m' dst) dst) dst (S.val_int m src)
      else if not (is_textual (S.field_type src) (S.is_binary src))
      then S.store_time (S.set_notnull (S.set_notnull m' dst) dst) dst (copied_time src)
      else if is_empty (S.val_str m src) || bytes_eq (S.val_str m src) (codes "NULL")
      then S.set_null m' dst
      else S.store_str (S.set_notnull (S.set_notnull m' dst) dst) dst own (S.val_str m src)

module _ (S : Server) (law : IsLawful S) (D : Driver) (m : S.Memory) (src : S.Field) where
  -- The value `v` is what CQL reads in the literal of the field.
  abbrev pub Answered : Value D → Type 0
  Answered v =
      (x : CqlValue) × (read_value (mariadb_to_cql_type S src) (get_cql_value S m src) ≡ some x)
      × Carries D.Real D.Uuid D.Inet x v

  copied_null :
      (m' : S.Memory) (dst : S.Field)
      → store_column S m' dst (some (codes "NULL")) ≡ ok (S.set_null m' dst)
  unfolding store_column
  copied_null m' dst = refl

  read_plain :
      (x : CqlValue)
      → is_plain (S.field_type src) (S.is_binary src) ≡ true
      → read_value (mariadb_to_cql_type S src) (get_cql_value S m src) ≡ some x
      → (if S.is_null m src then some CqlValue.null else value_of S law m src (S.field_type src))
        ≡ some x
  read_plain x plain read =
      sym (read_value-get_cql_value S law m src (is_typed_of_plain (S.field_type src) _ plain))
      ∙ read

  store_column-time :
      (m' : S.Memory) (dst : S.Field) (x : CqlValue) (v : Value D)
      → S.field_type dst ≡ S.field_type src
      → (is_time (S.field_type src)
          || is_date (S.field_type src)
          || is_timestamp (S.field_type src))
        ≡ true
      → Carries D.Real D.Uuid D.Inet x v
      → value_of S law m src (S.field_type src) ≡ some x
      → store_column S m' dst (some (text_of x))
        ≡ ok (S.store_time (S.set_notnull (S.set_notnull m' dst) dst) dst (copied_time S law m src))
  store_column-time m' dst x v ty timed carries read =
      elim (Bool-cases (is_date (S.field_type src))) [
        | inl d ↦
            let ex = value_of-date S law m src (S.field_type src) x d read in
            let (y, mo, day) = Carries-small D _ _ _ carries ex in
            rw (d, ← ex) (store_column-date_text S law m' dst _ _ _ (rw ty d) y mo day)
        | inr d ↦ elim (Bool-cases (is_time (S.field_type src))) [
          | inl t ↦
              let (ex, h, mi, sec) = value_of-time S law m src (S.field_type src) x t read in
              rw (d, t, ← ex) (store_column-time_string S law m' dst _ _ _ (rw ty t) h mi sec)
          | inr t ↦
              let (ex, fit) =
                value_of-timestamp S law m src (S.field_type src) x (rw (d, t) at timed) read in
              rw (d, t, ← ex)
                (store_column-millis S law m' dst (written S law m src) (rw ty (rw (d, t) at timed))
                  fit)
        ]
      ]

  pub store_column-copied :
      (m' : S.Memory) (dst : S.Field) (v : Value D)
      → S.field_type dst ≡ S.field_type src
      → S.is_binary dst ≡ S.is_binary src
      → is_plain (S.field_type src) (S.is_binary src) ≡ true
      → Answered v
      → store_column S m' dst (some (value_string D v)) ≡ ok (copied S law m m' src dst)
  unfolding value_string
  store_column-copied m' dst v ty bin plain (x, read, carries) =
      rw (value_string-Carries D carries) (elim (Bool-cases (S.is_null m src)) [
        | inl e ↦
            let ex : CqlValue.null ≡ x = cc (rw e at (read_plain x plain read)) in
            rw (e, ← ex) (copied_null m' dst)
        | inr e ↦ elim (Bool-cases (is_integer (S.field_type src))) [
          | inl i ↦
              let ex =
                value_of-integer S law m src (S.field_type src) x i
                  (rw e at (read_plain x plain read)) in
              rw (e, i, ex)
                (store_column-bigint S D m' dst (S.val_int m src) (rw ty i)
                  (law.val_int-fits m src))
          | inr i ↦ elim (Bool-cases (is_textual (S.field_type src) (S.is_binary src))) [
            | inl t ↦
                let ex : CqlValue.text (S.val_str m src) ≡ x = cc (
                  value_of-textual S law m src (S.field_type src) t,
                  rw e at (read_plain x plain read),
                ) in
                rw (e, i, t, ← ex) (store_column-text S D m' dst (S.val_str m src) (rw (ty, bin) t))
            | inr t ↦
                rw (e, i, t)
                  (store_column-time m' dst x v ty (rw (i, t) at plain) carries
                    (rw e at (read_plain x plain read)))
          ]
        ]
      ])
