-- ===== src/Handler/Keeping.antt =====
-- What a property of states needs to hold after every call.
use mariadb_scylla_storage_e.Prelude.{true, false, Option, ◌≡◌, refl}
use mariadb_scylla_storage_e.Prelude.Text.{Bytes}
use mariadb_scylla_storage_e.Numerals.{Result, ok, throw, ◌>>=◌}
use mariadb_scylla_storage_e.Server.{Server}
use mariadb_scylla_storage_e.Query.Table.{Table}
use mariadb_scylla_storage_e.Query.Clauses.{build_where_from_key}
use mariadb_scylla_storage_e.Query.Statements.{build_insert_cql, build_update_cql, build_delete_cql}
use mariadb_scylla_storage_e.Connection.Driver.{Driver}
use mariadb_scylla_storage_e.Connection.Session.{Connection}
use mariadb_scylla_storage_e.Handler.State.{
  Globals, Handler, Code, success, end_of_file, key_not_found, no_connection, generic,
  wrong_command, State,
}
use mariadb_scylla_storage_e.Handler.Cql.{connect_to_scylla, on_success, execute_cql}
use mariadb_scylla_storage_e.Handler.Tables as Tables
use mariadb_scylla_storage_e.Handler.Rows as Rows
use mariadb_scylla_storage_e.Handler.Scan as Scan
use mariadb_scylla_storage_e.Handler.Storing.{
  Holds, IsStable, store_result-Holds, rnd_next-Holds, first_match-Holds,
}
use mariadb_scylla_storage_e.Handler.Parsing.{HasConn, parse_table_comment-HasConn}
use mariadb_scylla_storage_e.Handler.Calls.{Call, run}

module _ (S : Server) (D : Driver) (g : Globals) where
  -- A stable property that connecting and sending a statement keep too.
  pub record IsKept (P : State S D → Type 0) : Type 0 where
    pub stable : IsStable S D P
    pub connect : (st : State S D) → P st → P (connect_to_scylla S D st).1
    pub execute : (st : State S D) (cql : Bytes) → P st → P (execute_cql S D st cql).1
    pub use_on :
        (c : Option Connection) (st : State S D)
        → st.handler.conn ≡ c
        → P st
        → P (Tables.use_on S D g c st)

  -- The table as the call leaves it, where it builds a statement from a row or a key, or opens it.
  abbrev pub table_after : State S D → Call S → Table S
  table_after st (Call.open_table name) =
      let t = st.table in
      record t { field = Tables.adjust_first S D g t.record0 t.null_bytes t.field }
  table_after st (Call.write_row buf) =
      (build_insert_cql S st.memory st.table buf st.handler.keyspace_name st.handler.table_name).1
  table_after st (Call.update_row old_data new_data) =
      (build_update_cql S st.memory st.table old_data new_data st.handler.keyspace_name
        st.handler.table_name).1
  table_after st (Call.delete_row buf) =
      (build_delete_cql S st.memory st.table buf st.handler.keyspace_name st.handler.table_name).1
  table_after st (Call.index_read_map buf key keypart_map) =
      (build_where_from_key S st.memory st.table key keypart_map).1
  table_after st _ = st.table

module _ (S : Server) (D : Driver) (g : Globals) (P : State S D → Type 0)
    (kept : IsKept S D g P) where
  on_success-Holds_after :
      (r : Code × State S D) (k : State S D → Code × State S D)
      → P r.1
      → ((st : State S D) → P st → P (k st).1)
      → P (on_success S D r k).1
  unfolding on_success
  on_success-Holds_after (success, st) k h f = f st h
  on_success-Holds_after (end_of_file, st) k h f = h
  on_success-Holds_after (key_not_found, st) k h f = h
  on_success-Holds_after (no_connection, st) k h f = h
  on_success-Holds_after (generic, st) k h f = h
  on_success-Holds_after (wrong_command, st) k h f = h

  create_connected-Holds_after :
      (name : Bytes) (form : Table S) (st : State S D)
      → P st
      → P (Tables.create_connected S D g name form st).1
  unfolding Tables.create_connected Tables.create_scylla_table
  create_connected-Holds_after name form st a =
      let made = kept.execute st (Tables.create_keyspace_cql st.handler.keyspace_name) a in
      let used = kept.use_on _ _ refl made in
      kept.execute _ _ (kept.stable.same _ _ refl refl refl used)

  -- What stands behind the parsing of the comment, for `create` and `open`.
  parsed-Holds :
      (st : State S D) (r : Result Handler) (f : Handler → Code × State S D)
      → HasConn st.handler.conn r
      → ((h : Handler) → h.conn ≡ st.handler.conn → P (f h).1)
      → Holds P (r >>= λ h. ok (f h))
  parsed-Holds st (ok h) f e k = k h e
  parsed-Holds st (throw x) f e k = tt

  pub run-Holds :
      (st : State S D) (c : Call S)
      → ((st' : State S D) → P st' → P (record st' { table = table_after S D g st' c }))
      → P st
      → Holds P (run S D g st c)
  unfolding run Tables.close Tables.rename_table Tables.truncate Tables.delete_table
      Tables.open_table Tables.create Tables.create_connected Tables.create_scylla_table
      Tables.adjusted Rows.write_row Rows.delete_row Rows.update_row Scan.rnd_init Scan.rnd_pos
      Scan.position Scan.rnd_end Scan.index_init Scan.index_end Scan.index_next Scan.index_prev
      Scan.index_first Scan.index_last Scan.index_read_map
  run-Holds st (Call.create name form comment) moves a =
      parsed-Holds st _ _ (parse_table_comment-HasConn st.handler comment) (λ h e.
        on_success-Holds_after _ _ (kept.connect _ (kept.stable.same st _ e refl refl a))
          (create_connected-Holds_after name form))
  run-Holds st (Call.open_table name) moves a =
      parsed-Holds st _ _ (parse_table_comment-HasConn st.handler st.table.comment) (λ h e.
        on_success-Holds_after _ _ (kept.connect _ (kept.stable.same st _ e refl refl a)) moves)
  run-Holds st (Call.delete_table name) moves a =
      on_success-Holds_after _ _ (kept.connect _ (kept.stable.same st _ refl refl refl a))
        (λ st' h. kept.execute st' _ h)
  run-Holds st Call.close moves a = a
  run-Holds st Call.truncate moves a = kept.execute st _ a
  run-Holds st (Call.rename_table from to) moves a = a
  run-Holds st (Call.write_row buf) moves a = kept.execute _ _ (moves st a)
  run-Holds st (Call.delete_row buf) moves a = kept.execute _ _ (moves st a)
  run-Holds st (Call.update_row old_data new_data) moves a = kept.execute _ _ (moves st a)
  run-Holds st (Call.rnd_init true) moves a =
      kept.execute _ _ (kept.stable.same st _ refl refl refl a)
  run-Holds st (Call.rnd_init false) moves a = kept.stable.same st _ refl refl refl a
  run-Holds st (Call.rnd_next buf) moves a = rnd_next-Holds S D P kept.stable st buf a
  run-Holds st (Call.index_next buf) moves a = rnd_next-Holds S D P kept.stable st buf a
  run-Holds st (Call.index_prev buf) moves a = a
  run-Holds st (Call.index_first buf) moves a =
      rnd_next-Holds S D P kept.stable _ buf (kept.stable.same st _ refl refl refl a)
  run-Holds st (Call.index_last buf) moves a = a
  run-Holds st (Call.rnd_pos buf pos) moves a = store_result-Holds S D P kept.stable st buf pos a
  run-Holds st Call.position moves a = kept.stable.same st _ refl refl refl a
  run-Holds st Call.rnd_end moves a = kept.stable.same st _ refl refl refl a
  run-Holds st Call.index_end moves a = kept.stable.same st _ refl refl refl a
  run-Holds st (Call.index_init idx) moves a = kept.stable.same st _ refl refl refl a
  run-Holds st (Call.index_read_map buf key keypart_map) moves a =
      first_match-Holds S D P kept.stable buf _
        (kept.execute _ _ (kept.stable.same _ _ refl refl refl (moves st a)))
