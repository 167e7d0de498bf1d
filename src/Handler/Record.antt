-- ===== src/Handler/Record.antt =====
-- `store_result_to_record`: one row of the result set into a record buffer.
use mariadb_scylla_storage_e.Prelude.{
  ℕ, ◌+◌, ◌&&◌, Option, none, some, List, [], ◌∷◌, map, if◌then◌else◌, leb, get_elem?,
}
use mariadb_scylla_storage_e.Prelude.Int.{ℤ, ◌-ℤ◌, negate, is_zero}
use mariadb_scylla_storage_e.Prelude.Text.{Bytes, bytes_eq}
use mariadb_scylla_storage_e.Numerals.{Result, ok, ◌>>=◌}
use mariadb_scylla_storage_e.Server.{Server}
use mariadb_scylla_storage_e.Types.Store.{reads_as_null, store_field_value}
use mariadb_scylla_storage_e.Connection.Driver.{Driver}
use mariadb_scylla_storage_e.Handler.State.{Code, success, end_of_file, State}

-- `::tolower` in the C locale, on each character.
abbrev to_lower : ℕ → ℕ
to_lower c = if leb b'A' c && leb c b'Z' then c + 32 else c

unfoldable pub lower : Bytes → Bytes
lower = map to_lower

-- `column_map` over a row: the value under the last column whose name is `key` without regard to
-- case. Columns past the row's values and values past the columns do not count.
unfoldable pub column_value : List Bytes → List Bytes → Bytes → Option Bytes
column_value [] row key = none
column_value (name ∷ names) [] key = none
column_value (name ∷ names) (value ∷ row) key = elim (column_value names row key) [
  | some later ↦ some later
  | none ↦ if bytes_eq (lower name) key then some value else none
]

module _ (S : Server) where
  -- One round of the loop over the fields, from what `column_map` finds.
  unfoldable pub store_column : S.Memory → S.Field → Option Bytes → Result S.Memory
  store_column m field none = ok (S.set_null m field)
  store_column m field (some value) =
      if reads_as_null value
      then ok (S.set_null m field)
      else store_field_value S (S.set_notnull m field) field value

  unfoldable pub store_columns : List Bytes → List Bytes → S.Memory → List S.Field → Result S.Memory
  store_columns names row m [] = ok m
  store_columns names row m (field ∷ fields) =
      store_column m field (column_value names row (lower (S.field_name field))) >>= λ m'.
      store_columns names row m' fields

  -- `if (offset)` before a loop of `move_field_offset`.
  unfoldable pub move_all : ℤ → List S.Field → List S.Field
  move_all offset fields =
      if is_zero offset then fields else map (λ f. S.move_field_offset f offset) fields

module _ (S : Server) (D : Driver) where
  -- The part behind the test of `row_index`. If a conversion throws, the call does not return.
  unfoldable pub store_row : State S D → ℤ → List Bytes → Result (Code × State S D)
  store_row st buf row =
      let t = st.table in
      let offset = buf -ℤ t.record0 in
      let moved = move_all S offset t.field in
      store_columns S st.handler.column_names row (S.clear st.memory buf t.reclength) moved >>= λ m.
      ok (
        success,
        record st { memory = m; table = record t { field = move_all S (negate offset) moved } },
      )

  unfoldable pub store_result_to_record : State S D → ℤ → ℕ → Result (Code × State S D)
  store_result_to_record st buf row_index = elim (get_elem? st.handler.result_set row_index) [
    | none ↦ ok (end_of_file, st)
    | some row ↦ store_row st buf row
  ]
