-- ===== src/Handler/Interference.antt =====
-- Statements that run while a scan is open: they share the result set with it.
use mariadb_scylla_storage_e.Prelude.{true, false, none, some, List, [], ◌≡◌, ◌∙◌, refl, ap}
use mariadb_scylla_storage_e.Prelude.Int.{ℤ}
use mariadb_scylla_storage_e.Prelude.Text.{Bytes}
use mariadb_scylla_storage_e.Numerals.{ok}
use mariadb_scylla_storage_e.Server.{Server, IsLawful}
use mariadb_scylla_storage_e.Query.Statements.{build_update_cql, build_delete_cql}
use mariadb_scylla_storage_e.Connection.Driver.{Driver, CassValue, Response, failed, done}
use mariadb_scylla_storage_e.Connection.Session.{Connection, execute, take_response, is_closed}
use mariadb_scylla_storage_e.Handler.State.{success, end_of_file, State}
use mariadb_scylla_storage_e.Handler.Cql.{
  is_online, connect_to_scylla, run_on, on_success, execute_cql,
}
use mariadb_scylla_storage_e.Handler.Rows.{update_row, delete_row}
use mariadb_scylla_storage_e.Handler.Scan.{rnd_next}
use mariadb_scylla_storage_e.Handler.Cursor.{rnd_next_lem}

-- The rows of an answer: none, if it failed or has no result.
abbrev pub rows_of :
    {Real Uuid Inet : Type 0} → Response Real Uuid Inet → List (List (CassValue Real Uuid Inet))
rows_of failed = []
rows_of (done none) = []
rows_of (done (some result)) = result.rows

-- The handler has a connection with an open session.
abbrev pub IsServing : {S : Server} {D : Driver} → State S D → Connection → Type 0
IsServing st c = (st.handler.conn ≡ some c) × (c.connected ≡ true) × (c.session ≡ true)

module _ (S : Server) (law : IsLawful S) (D : Driver) where
  take_response_rows :
      (r : Response D.Real D.Uuid D.Inet × D.World) → rows_of r.0 ≡ [] → (take_response D r).2 ≡ []
  unfolding take_response
  take_response_rows (failed, w) h = refl
  take_response_rows (done none, w) h = refl
  take_response_rows (done (some result), w) h = rw h

  pub connect_to_scylla_online :
      (st : State S D)
      → is_online S D st.handler.conn ≡ true
      → connect_to_scylla S D st ≡ (success, st)
  unfolding connect_to_scylla
  connect_to_scylla_online st e = rw (e, connect_to_scylla)

  pub execute_cql_serving :
      (st : State S D) (c : Connection) (cql : Bytes)
      → IsServing st c
      → execute_cql S D st cql ≡ run_on S D (some c) st cql
  unfolding execute_cql on_success
  execute_cql_serving st c cql (e, connected, session) =
      let online : is_online S D st.handler.conn ≡ true = rw e connected in
      rw (connect_to_scylla_online st online) (ap (λ o. run_on S D o st cql) e)

  -- A statement whose answer has no rows leaves the result set empty.
  result_set-execute_cql :
      (st : State S D) (c : Connection) (cql : Bytes)
      → IsServing st c
      → rows_of (D.session_execute (D.statement_new st.world cql) cql).0 ≡ []
      → (execute_cql S D st cql).1.handler.result_set ≡ []
  unfolding run_on execute
  result_set-execute_cql st c cql s quiet =
      let is_open : is_closed D c ≡ false = rw (s.1, s.2) in
      rw (execute_cql_serving st c cql s) (
        rw (is_open, execute)
          (take_response_rows (D.session_execute (D.statement_new st.world cql) cql) quiet))

  rnd_next-empty :
      (st : State S D) (buf : ℤ)
      → st.handler.result_set ≡ []
      → rnd_next S D st buf ≡ ok (end_of_file, st)
  rnd_next-empty st buf e = rnd_next_lem S law D st buf ∙ rw e

  -- Updating a row in the middle of a scan ends the scan: whatever rows were still to be read, the
  -- next read reports the end of the file. The handler is connected, and the cluster answers the
  -- UPDATE with no rows or with an error.
  pub rnd_next-update_row :
      (st : State S D) (c : Connection) (old_data new_data buf : ℤ)
      → IsServing st c
      → (let cql =
            (build_update_cql S st.memory st.table old_data new_data st.handler.keyspace_name
              st.handler.table_name).0 in
          rows_of (D.session_execute (D.statement_new st.world cql) cql).0 ≡ [])
      → rnd_next S D (update_row S D st old_data new_data).1 buf
        ≡ ok (end_of_file, (update_row S D st old_data new_data).1)
  unfolding update_row
  rnd_next-update_row st c old_data new_data buf s quiet =
      rnd_next-empty _ buf (result_set-execute_cql _ c _ s quiet)

  -- So does deleting a row, under the same conditions on the DELETE.
  rnd_next-delete_row :
      (st : State S D) (c : Connection) (old_data buf : ℤ)
      → IsServing st c
      → (let cql =
            (build_delete_cql S st.memory st.table old_data st.handler.keyspace_name
              st.handler.table_name).0 in
          rows_of (D.session_execute (D.statement_new st.world cql) cql).0 ≡ [])
      → rnd_next S D (delete_row S D st old_data).1 buf
        ≡ ok (end_of_file, (delete_row S D st old_data).1)
  unfolding delete_row
  rnd_next-delete_row st c old_data buf s quiet =
      rnd_next-empty _ buf (result_set-execute_cql _ c _ s quiet)
