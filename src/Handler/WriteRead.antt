-- ===== src/Handler/WriteRead.antt =====
-- A row that is written by `write_row` and read by a scan.
use mariadb_scylla_storage_e.Prelude.{
  true, false, List, [], ◌∷◌, map, ◌≡◌, ◌∙◌, refl, ap, if◌then◌else◌, Bool-cases, inl, inr, All,
}
use mariadb_scylla_storage_e.Prelude.Int.{ℤ, ◌+ℤ◌, ◌-ℤ◌, is_zero}
use mariadb_scylla_storage_e.Numerals.{ok}
use mariadb_scylla_storage_e.Server.{Server, IsLawful}
use mariadb_scylla_storage_e.Connection.Driver.{Driver}
use mariadb_scylla_storage_e.Connection.Values.{Value, value_string}
use mariadb_scylla_storage_e.Handler.Record.{
  lower, column_value, store_column, store_columns, move_all,
}
use mariadb_scylla_storage_e.Handler.Copy.{is_plain, copied, Answered, store_column-copied}
use mariadb_scylla_storage_e.Handler.Columns.{
  Columns, names_of, texts_of, IsDistinct, HasColumn, column_value-HasColumn,
}

-- A field moved by an offset, unless that is 0.
module _ (S : Server) where
  abbrev pub moved : ℤ → S.Field → S.Field
  moved d f = if is_zero d then f else S.move_field_offset f d

  map-moved_zero :
      (d : ℤ) (fields : List S.Field) → is_zero d ≡ true → fields ≡ map (moved d) fields
  map-moved_zero d [] e = refl
  map-moved_zero d (f ∷ fields) e = rw (e, ← map-moved_zero d fields e)

  map-moved_offset :
      (d : ℤ) (fields : List S.Field)
      → is_zero d ≡ false
      → map (λ f. S.move_field_offset f d) fields ≡ map (moved d) fields
  map-moved_offset d [] e = refl
  map-moved_offset d (f ∷ fields) e = rw (e, map-moved_offset d fields e)

  pub move_all-map : (d : ℤ) (fields : List S.Field) → move_all S d fields ≡ map (moved d) fields
  unfolding move_all
  move_all-map d fields = elim (Bool-cases (is_zero d)) [
    | inl e ↦
        ap (λ b. if b then fields else map (λ f. S.move_field_offset f d) fields) e
        ∙ map-moved_zero d fields e
    | inr e ↦
        ap (λ b. if b then fields else map (λ f. S.move_field_offset f d) fields) e
        ∙ map-moved_offset d fields e
  ]

module _ (S : Server) (law : IsLawful S) (D : Driver) (m : S.Memory) (base buf : ℤ) where
  -- The field in the record buffer that is written.
  abbrev pub source : S.Field → S.Field
  source f = S.move_field f (buf +ℤ (S.ptr f -ℤ base))

  -- The answer has a column of the field's name, whose value is what CQL reads in the field's literal.
  abbrev pub IsAnswered : Columns → S.Field → Type 0
  IsAnswered cols f =
      (is_plain (S.field_type f) (S.is_binary f) ≡ true)
      × ((v : Value D) × HasColumn (lower (S.field_name f)) (value_string D v) cols
          × Answered S law D m (source f) v)

  -- The memory after all the fields are copied.
  abbrev pub copies : ℤ → S.Memory → List S.Field → S.Memory
  copies d m' [] = m'
  copies d m' (f ∷ fields) = copies d (copied S law m m' (source f) (moved S d f)) fields

  moved-field_name : (d : ℤ) (f : S.Field) → S.field_name (moved S d f) ≡ S.field_name f
  moved-field_name d f = elim (Bool-cases (is_zero d)) [
    | inl e ↦ rw e
    | inr e ↦ rw e (law.field_name-move_field_offset f d)
  ]

  moved-field_type : (d : ℤ) (f : S.Field) → S.field_type (moved S d f) ≡ S.field_type f
  moved-field_type d f = elim (Bool-cases (is_zero d)) [
    | inl e ↦ rw e
    | inr e ↦ rw e (law.field_type-move_field_offset f d)
  ]

  moved-is_binary : (d : ℤ) (f : S.Field) → S.is_binary (moved S d f) ≡ S.is_binary f
  moved-is_binary d f = elim (Bool-cases (is_zero d)) [
    | inl e ↦ rw e
    | inr e ↦ rw e (law.is_binary-move_field_offset f d)
  ]

  store_one :
      (cols : Columns) (d : ℤ) (m' : S.Memory) (f : S.Field)
      → IsDistinct cols
      → IsAnswered cols f
      → store_column S m'
          (moved S d f)
          (column_value (names_of cols) (texts_of cols) (lower (S.field_name (moved S d f))))
        ≡ ok (copied S law m m' (source f) (moved S d f))
  store_one cols d m' f distinct (plain, (v, has, answered)) =
      rw (moved-field_name d f, column_value-HasColumn cols _ _ distinct has)
        (store_column-copied S law D m (source f) m' (moved S d f) v
          (rw (moved-field_type d f, law.field_type-move_field f _))
          (rw (moved-is_binary d f, law.is_binary-move_field f _))
          (rw (law.field_type-move_field f, law.is_binary-move_field f) plain) answered)

  pub store_columns-copies :
      (cols : Columns) (d : ℤ) (fields : List S.Field) (m' : S.Memory)
      → IsDistinct cols
      → All (IsAnswered cols) fields
      → store_columns S (names_of cols) (texts_of cols) m' (map (moved S d) fields)
        ≡ ok (copies d m' fields)
  unfolding store_columns
  store_columns-copies cols d [] m' distinct h = refl
  store_columns-copies cols d (f ∷ fields) m' distinct (h, hs) =
      rw (store_one cols d m' f distinct h) (store_columns-copies cols d fields _ distinct hs)
