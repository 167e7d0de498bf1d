-- ===== src/Query/Statements.antt =====
-- The public builders of statements.
use mariadb_scylla_storage_e.Prelude.{
  Bool, true, false, Option, none, some, List, [], ◌∷◌, ◌++◌, if◌then◌else◌, get_elem?,
}
use mariadb_scylla_storage_e.Prelude.Int.{ℤ}
use mariadb_scylla_storage_e.Prelude.Text.{Bytes, codes}
use mariadb_scylla_storage_e.Server.{Server}
use mariadb_scylla_storage_e.Types.Mapping.{mariadb_to_cql_type}
use mariadb_scylla_storage_e.Query.Table.{KeyPart, Table}
use mariadb_scylla_storage_e.Query.Clauses.{
  build_column_list, build_values_list, build_set_clause, build_primary_key_where, has_where_clause,
}

-- `keyspace << "." << table_name`
abbrev pub full_name : Bytes → Bytes → Bytes
full_name keyspace table_name = keyspace ++ (b'.' ∷ table_name)

module _ (S : Server) where
  -- The loops of `build_create_table_cql` over the columns and over the parts of the key.
  unfoldable pub definitions_from : Bool → List S.Field → Bytes
  definitions_from first [] = []
  definitions_from first (f ∷ fs) =
      (if first then [] else codes ", ")
      ++ (S.field_name f ++ (b' ' ∷ (mariadb_to_cql_type S f ++ definitions_from false fs)))

  unfoldable pub key_names_from : Bool → List KeyPart → List S.Field → Bytes
  key_names_from first [] fields = []
  key_names_from first (part ∷ parts) fields = elim (get_elem? fields part.field) [
    | none ↦ []
    | some f ↦
        (if first then [] else codes ", ") ++ (S.field_name f ++ key_names_from false parts fields)
  ]

  -- The two branches that add the primary key.
  unfoldable pub key_clause : Option (List KeyPart) → List S.Field → Bytes
  key_clause (some parts) fields =
      codes ", PRIMARY KEY (" ++ (key_names_from true parts fields ++ codes ")")
  key_clause none [] = []
  key_clause none (f ∷ _) = codes ", PRIMARY KEY (" ++ (S.field_name f ++ codes ")")

  unfoldable pub key_definition : Table S → Bytes
  unfolding key_clause
  key_definition table = key_clause table.primary_key table.field

  unfoldable pub build_create_table_cql : Table S → Bytes → Bytes → Bytes
  build_create_table_cql table keyspace table_name =
      codes "CREATE TABLE IF NOT EXISTS "
      ++ (full_name keyspace table_name
          ++ (codes " ("
              ++ (definitions_from true table.field ++ (key_definition table ++ codes ")"))))

  unfoldable pub build_insert_cql : S.Memory → Table S → ℤ → Bytes → Bytes → Bytes × Table S
  build_insert_cql m table buf keyspace table_name =
      let (values, table') = build_values_list S m table buf in
      (
        codes "INSERT INTO "
            ++ (full_name keyspace table_name
                ++ (codes " ("
                    ++ (build_column_list S table
                        ++ (codes ") VALUES (" ++ (values ++ codes ")"))))),
        table',
      )

  unfoldable pub build_update_cql : S.Memory → Table S → ℤ → ℤ → Bytes → Bytes → Bytes × Table S
  build_update_cql m table old_data new_data keyspace table_name =
      let (assignments, table') = build_set_clause S m table old_data new_data in
      let (where_clause, table'') = build_primary_key_where S m table' old_data in
      (
        codes "UPDATE "
            ++ (full_name keyspace table_name
                ++ (codes " SET " ++ (assignments ++ (codes " WHERE " ++ where_clause)))),
        table'',
      )

  unfoldable pub build_delete_cql : S.Memory → Table S → ℤ → Bytes → Bytes → Bytes × Table S
  build_delete_cql m table buf keyspace table_name =
      let (where_clause, table') = build_primary_key_where S m table buf in
      (
        codes "DELETE FROM "
            ++ (full_name keyspace table_name ++ (codes " WHERE " ++ where_clause)),
        table',
      )

  unfoldable pub build_select_cql : Table S → Bytes → Bytes → Bool → Bytes → Bytes
  build_select_cql table keyspace table_name allow_filtering where_clause =
      codes "SELECT "
      ++ (build_column_list S table
          ++ (codes " FROM "
              ++ (full_name keyspace table_name
                  ++ ((if has_where_clause where_clause
                        then codes " WHERE " ++ where_clause
                        else [])
                      ++ (if allow_filtering then codes " ALLOW FILTERING" else [])))))
