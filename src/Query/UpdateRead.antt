-- ===== src/Query/UpdateRead.antt =====
-- What CQL reads in the UPDATE and the DELETE that are written for a row.
use mathlib.Core.Option.{bind}
use mariadb_scylla_storage_e.Prelude.{
  none, some, List, [], ◌∷◌, ◌++◌, append-nil, map, ◌≡◌, ◌≢◌, ◌∙◌, refl, sym, ap, arith, All,
  All-imp, All-map,
}
use mariadb_scylla_storage_e.Prelude.Int.{ℤ}
use mariadb_scylla_storage_e.Prelude.Text.{Bytes, codes}
use mariadb_scylla_storage_e.Server.{Server, IsLawful}
use mariadb_scylla_storage_e.Query.Table.{Table, HasLinkedKey}
use mariadb_scylla_storage_e.Query.Shape.{join, cell, equation, other_columns, where_columns}
use mariadb_scylla_storage_e.Query.Statements.{full_name, build_update_cql, build_delete_cql}
use mariadb_scylla_storage_e.Query.Texts.{build_update_cql_lem, build_delete_cql_lem}
use mariadb_scylla_storage_e.Query.Reader.{
  Equation, read_where, read_set, read_update, read_delete, strip,
}
use mariadb_scylla_storage_e.Query.Scanning.{strip-append}
use mariadb_scylla_storage_e.Query.Listing.{IsName, read_table-full_name}
use mariadb_scylla_storage_e.Query.FieldTerm.{
  IsReadable, IsExact, HasValue, cell-IsTerm, IsExact-HasValue,
}
use mariadb_scylla_storage_e.Query.Clauses.{key_fields}
use mariadb_scylla_storage_e.Query.EquationRead.{
  show_equation, IsEquation, equations_read, read_where-join,
}
use mariadb_scylla_storage_e.Query.Columns.{All-other_columns, All-where_columns, map-not_nil}

-- The text of an UPDATE and of a DELETE.
abbrev where_text : List Equation → Bytes
where_text es = codes " WHERE " ++ join (codes " AND ") (map show_equation es)

abbrev update_of : Bytes → Bytes → List Equation → List Equation → Bytes
update_of keyspace table assigned compared =
    codes "UPDATE "
    ++ (full_name keyspace table
        ++ (codes " SET "
            ++ (join (codes ", ") (map show_equation assigned) ++ where_text compared)))

read_where_text :
    (es : List Equation) → es ≢ [] → All IsEquation es → read_where (where_text es) ≡ some (es, [])
unfolding strip
read_where_text es ne h =
    ap (λ s. read_where (codes " WHERE " ++ s))
      (sym (append-nil (join (codes " AND ") (map show_equation es))))
    ∙ read_where-join es [] ne h tt refl

no_equation : (es : List Equation) → strip (codes ", ") (where_text es) ≡ none
unfolding strip
no_equation es = refl

read_update-update_of :
    (keyspace table : Bytes) (assigned compared : List Equation)
    → IsName keyspace
    → IsName table
    → assigned ≢ []
    → compared ≢ []
    → All IsEquation assigned
    → All IsEquation compared
    → read_update (update_of keyspace table assigned compared)
      ≡ some
          (record { keyspace = keyspace; table = table; assigned = assigned; compared = compared })
unfolding read_update read_set bind
read_update-update_of keyspace table assigned compared hk ht na nc ha hc =
    let equations = join (codes ", ") (map show_equation assigned) ++ where_text compared in
    rw (
      strip-append (codes "UPDATE ") (full_name keyspace table ++ (codes " SET " ++ equations)),
      read_table-full_name keyspace table (codes " SET " ++ equations) hk ht refl,
      strip-append (codes " SET ") equations,
      equations_read (codes ", ") (λ s. refl) (omega arith) assigned (where_text compared) na ha
          refl (no_equation compared),
      read_where_text compared nc hc,
    )

read_delete-text :
    (keyspace table : Bytes) (compared : List Equation)
    → IsName keyspace
    → IsName table
    → compared ≢ []
    → All IsEquation compared
    → read_delete (codes "DELETE FROM " ++ (full_name keyspace table ++ where_text compared))
      ≡ some (record { keyspace = keyspace; table = table; compared = compared })
unfolding read_delete bind
read_delete-text keyspace table compared hk ht nc hc = rw (
  strip-append (codes "DELETE FROM ") (full_name keyspace table ++ where_text compared),
  read_table-full_name keyspace table (where_text compared) hk ht refl,
  read_where_text compared nc hc,
)

module _ (S : Server) (law : IsLawful S) (m : S.Memory) (table : Table S) where
  -- A column with the literal of its value in `buf`.
  abbrev pub written : ℤ → S.Field → Equation
  written buf f = (S.field_name f, cell S m table.record0 buf f)

  show-written :
      (buf : ℤ) (fs : List S.Field)
      → map show_equation (map (written buf) fs) ≡ map (equation S m table.record0 buf) fs
  show-written buf [] = refl
  show-written buf (f ∷ fs) = ap (λ es. equation S m table.record0 buf f ∷ es) (show-written buf fs)

  written-IsEquation :
      (buf : ℤ) (fs : List S.Field) → All (IsReadable S) fs → All IsEquation (map (written buf) fs)
  written-IsEquation buf fs h =
      All-map IsEquation (written buf) fs
        (All-imp (IsReadable S) _ fs (λ f g. (g.0, cell-IsTerm S law m table buf f g.1)) h)

  -- The columns that an UPDATE assigns to and those that it compares.
  abbrev pub assigned_columns : List S.Field
  assigned_columns = other_columns (key_fields table.primary_key) 0 table.field

  abbrev pub compared_columns : List S.Field
  compared_columns = where_columns table.primary_key table.field

  -- CQL reads the UPDATE of a row as one UPDATE of the table, which assigns to the columns outside
  -- the primary key the values that they have in the new row and compares the columns of the key
  -- with the values that they have in the old row, whatever the texts of the rows hold. There are
  -- columns of both kinds, the parts of the key point to fields of the table, the names need no
  -- quotes, no column is a floating point number or a decimal, and every value that is written and
  -- not null is one of its CQL type that the literal stands for exactly, as `is_exact` says.
  pub read_update-build_update_cql :
      (old_data new_data : ℤ) (keyspace table_name : Bytes)
      → HasLinkedKey table.field table.primary_key
      → assigned_columns ≢ []
      → compared_columns ≢ []
      → IsName keyspace
      → IsName table_name
      → All (IsReadable S) table.field
      → All (IsExact S law m table new_data) assigned_columns
      → All (IsExact S law m table old_data) compared_columns
      → (read_update (build_update_cql S m table old_data new_data keyspace table_name).0
          ≡ some (record {
            keyspace = keyspace;
            table = table_name;
            assigned = map (written new_data) assigned_columns;
            compared = map (written old_data) compared_columns;
          }))
        × (All (HasValue S law m table new_data) assigned_columns
            × All (HasValue S law m table old_data) compared_columns)
  read_update-build_update_cql old_data new_data keyspace table_name linked na nc hk ht h xa xc =
      let ha = All-other_columns (IsReadable S) (key_fields table.primary_key) 0 table.field h in
      let hc = All-where_columns (IsReadable S) table.primary_key table.field h in
      let es = map (written new_data) assigned_columns in
      let cs = map (written old_data) compared_columns in
      (
        ap (λ (r : Bytes × Table S). read_update r.0)
              (build_update_cql_lem S law m table old_data new_data keyspace table_name linked)
            ∙ rw
                (
                  sym (show-written new_data assigned_columns),
                  sym (show-written old_data compared_columns),
                )
                (read_update-update_of keyspace table_name es cs hk ht
                  (map-not_nil (written new_data) assigned_columns na)
                  (map-not_nil (written old_data) compared_columns nc)
                  (written-IsEquation new_data assigned_columns ha)
                  (written-IsEquation old_data compared_columns hc)),
        (
          IsExact-HasValue S law m table new_data assigned_columns ha xa,
          IsExact-HasValue S law m table old_data compared_columns hc xc,
        ),
      )

  -- CQL reads the DELETE of a row as one DELETE from the table, which compares the columns of the
  -- primary key with the values that they have in the row, whatever the texts of the row hold. A
  -- column is compared, the parts of the key point to fields of the table, the names need no quotes,
  -- no column is a floating point number or a decimal, and every value that is compared and not null
  -- is one of its CQL type that the literal stands for exactly, as `is_exact` says.
  pub read_delete-build_delete_cql :
      (buf : ℤ) (keyspace table_name : Bytes)
      → HasLinkedKey table.field table.primary_key
      → compared_columns ≢ []
      → IsName keyspace
      → IsName table_name
      → All (IsReadable S) table.field
      → All (IsExact S law m table buf) compared_columns
      → (read_delete (build_delete_cql S m table buf keyspace table_name).0
          ≡ some (record {
            keyspace = keyspace;
            table = table_name;
            compared = map (written buf) compared_columns;
          }))
        × All (HasValue S law m table buf) compared_columns
  read_delete-build_delete_cql buf keyspace table_name linked nc hk ht h xc =
      let hc = All-where_columns (IsReadable S) table.primary_key table.field h in
      (
        ap (λ (r : Bytes × Table S). read_delete r.0)
              (build_delete_cql_lem S law m table buf keyspace table_name linked)
            ∙ rw (sym (show-written buf compared_columns)) (
                read_delete-text keyspace table_name (map (written buf) compared_columns) hk ht
                  (map-not_nil (written buf) compared_columns nc)
                  (written-IsEquation buf compared_columns hc)),
        IsExact-HasValue S law m table buf compared_columns hc xc,
      )
