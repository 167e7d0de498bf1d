-- ===== src/Handler/Rows.antt =====
-- `write_row`, `update_row` and `delete_row`.
use mariadb_scylla_storage_e.Prelude.Int.{ℤ}
use mariadb_scylla_storage_e.Server.{Server}
use mariadb_scylla_storage_e.Query.Statements.{build_insert_cql, build_update_cql, build_delete_cql}
use mariadb_scylla_storage_e.Connection.Driver.{Driver}
use mariadb_scylla_storage_e.Handler.State.{Code, State}
use mariadb_scylla_storage_e.Handler.Cql.{execute_cql}

module _ (S : Server) (D : Driver) where
  unfoldable pub write_row : State S D → ℤ → Code × State S D
  write_row st buf =
      let h = st.handler in
      let (cql, table) = build_insert_cql S st.memory st.table buf h.keyspace_name h.table_name in
      execute_cql S D (record st { table = table }) cql

  unfoldable pub update_row : State S D → ℤ → ℤ → Code × State S D
  update_row st old_data new_data =
      let h = st.handler in
      let (cql, table) =
        build_update_cql S st.memory st.table old_data new_data h.keyspace_name h.table_name in
      execute_cql S D (record st { table = table }) cql

  unfoldable pub delete_row : State S D → ℤ → Code × State S D
  delete_row st buf =
      let h = st.handler in
      let (cql, table) = build_delete_cql S st.memory st.table buf h.keyspace_name h.table_name in
      execute_cql S D (record st { table = table }) cql
