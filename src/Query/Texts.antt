-- ===== src/Query/Texts.antt =====
-- The statements as texts.
use mariadb_scylla_storage_e.Prelude.{
  Bool, true, false, Option, none, some, List, [], ◌∷◌, ◌++◌, append_assoc, map, ◌≡◌, ◌≢◌, refl,
  arith, All,
}
use mariadb_scylla_storage_e.Prelude.Int.{ℤ}
use mariadb_scylla_storage_e.Prelude.Text.{Bytes, codes}
use mariadb_scylla_storage_e.Server.{Server, IsLawful}
use mariadb_scylla_storage_e.Types.Mapping.{mariadb_to_cql_type}
use mariadb_scylla_storage_e.Query.Table.{KeyPart, Table, IsLinked, HasLinkedKey}
use mariadb_scylla_storage_e.Query.Clauses.{key_fields}
use mariadb_scylla_storage_e.Query.Statements.{
  full_name, definitions_from, key_names_from, key_clause, key_definition, build_create_table_cql,
  build_insert_cql, build_update_cql, build_delete_cql,
}
use mariadb_scylla_storage_e.Query.Shape.{
  join, separated, separated-join, key_columns, other_columns, where_columns, cell, equation,
  build_column_list-join, build_values_list-join, build_primary_key_where-join,
  build_set_clause-join,
}

module _ (S : Server) (law : IsLawful S) (m : S.Memory) (table : Table S) where
  -- INSERT names every column of the table once, in order, and gives for each the literal of its
  -- value in `buf`, in the same order. The fields of the table are left as they were.
  pub build_insert_cql_lem :
      (buf : ℤ) (keyspace table_name : Bytes)
      → build_insert_cql S m table buf keyspace table_name ≡ (
        codes "INSERT INTO "
            ++ (full_name keyspace table_name
                ++ (codes " ("
                    ++ (join (codes ", ") (map S.field_name table.field)
                        ++ (codes ") VALUES ("
                            ++ (join (codes ", ") (map (cell S m table.record0 buf) table.field)
                                ++ codes ")"))))),
        table,
      )
  unfolding build_insert_cql
  build_insert_cql_lem buf keyspace table_name =
      rw (build_values_list-join S law m table buf, build_column_list-join S table)

  -- UPDATE assigns to exactly the columns outside the primary key, in order, their values in the new
  -- row, and its WHERE clause compares every part of the primary key, in order, with its value in
  -- the old row; with no primary key the first column is the one compared. The fields of the table
  -- are left as they were. The parts of the key point to fields of the table.
  pub build_update_cql_lem :
      (old_data new_data : ℤ) (keyspace table_name : Bytes)
      → HasLinkedKey table.field table.primary_key
      → build_update_cql S m table old_data new_data keyspace table_name ≡ (
        codes "UPDATE "
            ++ (full_name keyspace table_name
                ++ (codes " SET "
                    ++ (join (codes ", ") (
                          map
                            (equation S m table.record0 new_data)
                            (other_columns (key_fields table.primary_key) 0 table.field))
                        ++ (codes " WHERE "
                            ++ join (codes " AND ") (
                                map
                                  (equation S m table.record0 old_data)
                                  (where_columns table.primary_key table.field)))))),
        table,
      )
  unfolding build_update_cql
  build_update_cql_lem old_data new_data keyspace table_name h = rw (
    build_set_clause-join S law m table old_data new_data,
    build_primary_key_where-join S law m table old_data h,
  )

  -- DELETE compares every part of the primary key, in order, with its value in `buf`; with no
  -- primary key it compares the first column. The fields of the table are left as they were. The
  -- parts of the key point to fields of the table.
  pub build_delete_cql_lem :
      (buf : ℤ) (keyspace table_name : Bytes)
      → HasLinkedKey table.field table.primary_key
      → build_delete_cql S m table buf keyspace table_name ≡ (
        codes "DELETE FROM "
            ++ (full_name keyspace table_name
                ++ (codes " WHERE "
                    ++ join (codes " AND ") (
                        map
                          (equation S m table.record0 buf)
                          (where_columns table.primary_key table.field)))),
        table,
      )
  unfolding build_delete_cql
  build_delete_cql_lem buf keyspace table_name h =
      rw (build_primary_key_where-join S law m table buf h)

module _ (S : Server) where
  -- `name type`
  abbrev pub definition : S.Field → Bytes
  definition f = S.field_name f ++ (b' ' ∷ mariadb_to_cql_type S f)

  definitions_from-separated :
      (first : Bool) (fs : List S.Field)
      → definitions_from S first fs ≡ separated (codes ", ") first (map definition fs)
  unfolding definitions_from separated
  definitions_from-separated first [] = refl
  definitions_from-separated first (f ∷ fs) =
      rw (definitions_from-separated false fs) (rw append_assoc)

  key_names_from-separated :
      (first : Bool) (parts : List KeyPart) (fs : List S.Field)
      → All (IsLinked fs) parts
      → key_names_from S first parts fs
        ≡ separated (codes ", ") first (map S.field_name (key_columns parts fs))
  unfolding key_names_from separated
  key_names_from-separated first [] fs h = refl
  key_names_from-separated first (part ∷ parts) fs ((_, (f, e)), h) =
      rw (e, key_names_from, key_columns) (rw (key_names_from-separated false parts fs h))

  key_definition-join :
      (table : Table S)
      → HasLinkedKey table.field table.primary_key
      → where_columns table.primary_key table.field ≢ []
      → key_definition S table
        ≡ codes ", PRIMARY KEY ("
          ++ (join (codes ", ") (map S.field_name (where_columns table.primary_key table.field))
              ++ codes ")")
  unfolding key_definition key_clause
  key_definition-join table h ne = go table.primary_key h ne
    where
      go :
          (key : Option (List KeyPart))
          → HasLinkedKey table.field key
          → where_columns key table.field ≢ []
          → key_clause S key table.field
            ≡ codes ", PRIMARY KEY ("
              ++ (join (codes ", ") (map S.field_name (where_columns key table.field)) ++ codes ")")
      go none h ne = ground arith
      go (some parts) h ne = rw (key_names_from-separated true parts table.field h, separated-join)

  -- CREATE TABLE defines every column of the table once, in order, with its CQL type, and its
  -- primary key is made of the columns that the WHERE clause of UPDATE and DELETE compares, in order.
  -- The parts of the key point to fields of the table, and there is at least one such column.
  pub build_create_table_cql_lem :
      (table : Table S) (keyspace table_name : Bytes)
      → HasLinkedKey table.field table.primary_key
      → where_columns table.primary_key table.field ≢ []
      → build_create_table_cql S table keyspace table_name
        ≡ codes "CREATE TABLE IF NOT EXISTS "
          ++ (full_name keyspace table_name
              ++ (codes " ("
                  ++ (join (codes ", ") (map definition table.field)
                      ++ ((codes ", PRIMARY KEY ("
                            ++ (join
                                  (codes ", ")
                                  (map S.field_name (where_columns table.primary_key table.field))
                                ++ codes ")"))
                          ++ codes ")"))))
  unfolding build_create_table_cql
  build_create_table_cql_lem table keyspace table_name h ne =
      rw (
        definitions_from-separated true table.field,
        separated-join,
        key_definition-join table h ne,
      )
