-- ===== src/Handler/Sent.antt =====
-- Every call against the statements of its script.
use mariadb_scylla_storage_e.Prelude.{
  ℕ, true, false, List, [], ◌∷◌, ◌++◌, append-nil, ◌≡◌, ◌∙◌, refl, sym,
}
use mariadb_scylla_storage_e.Prelude.Text.{Bytes, codes}
use mariadb_scylla_storage_e.Numerals.{Result, ok, throw, ◌>>=◌}
use mariadb_scylla_storage_e.Server.{Server, IsLawful}
use mariadb_scylla_storage_e.Query.Statements.{full_name, build_select_cql}
use mariadb_scylla_storage_e.Query.Clauses.{build_where_from_key}
use mariadb_scylla_storage_e.Connection.Driver.{Driver, IsLedger}
use mariadb_scylla_storage_e.Connection.Journal.{IsJournal}
use mariadb_scylla_storage_e.Handler.State.{Globals, Handler, Code, State}
use mariadb_scylla_storage_e.Handler.Parsing.{HasConn, parse_table_comment-HasConn}
use mariadb_scylla_storage_e.Handler.Cql.{execute_cql}
use mariadb_scylla_storage_e.Handler.Tables as Tables
use mariadb_scylla_storage_e.Handler.Rows as Rows
use mariadb_scylla_storage_e.Handler.Scan as Scan
use mariadb_scylla_storage_e.Handler.Calls.{Call, run}
use mariadb_scylla_storage_e.Handler.Storing.{
  Holds, rnd_next-Holds, store_result-Holds, first_match-Holds,
}
use mariadb_scylla_storage_e.Handler.Reconnect.{IsAccounted}
use mariadb_scylla_storage_e.Handler.Sending.{Sends, sent-on_success, sent-execute_cql}
use mariadb_scylla_storage_e.Handler.Script.{
  script, says, parsed, Wrote, Wrote-IsStable, sent-serving, create_connected-Sends,
}

module _ (S : Server) (law : IsLawful S) (D : Driver) (journal : IsJournal D) (g : Globals)
    (ledger : IsLedger D) (others : ℕ) where
  open journal use {sent}

  abbrev WroteAll : State S D → List Bytes → Result (Code × State S D) → Type 0
  WroteAll st body r = Wrote S law D journal g st body r

  IsAccounted-same :
      (st st' : State S D)
      → st'.handler.conn ≡ st.handler.conn
      → st'.world ≡ st.world
      → IsAccounted S D ledger others st
      → IsAccounted S D ledger others st'
  IsAccounted-same st st' e f a = record { sound = rw e (a.sound); counted = rw (e, f) (a.counted) }

  IsAccounted-handler :
      (st : State S D) (h : Handler)
      → h.conn ≡ st.handler.conn
      → IsAccounted S D ledger others st
      → IsAccounted S D ledger others (record st { handler = h })
  IsAccounted-handler st h e a = IsAccounted-same st _ e refl a

  -- DROP TABLE, under the names that the handler connected with.
  drop-Sends :
      (h : Handler)
      → Sends S law D journal ledger h
          (λ st. execute_cql S D st (Tables.drop_cql st.handler))
          (Tables.drop_cql h ∷ [])
  unfolding Tables.drop_cql
  drop-Sends h st c s (keyspace, table) = sent-serving S law D journal g ledger st c _ s ∙ (λ i.
      sent st.world ++ (codes "DROP TABLE IF EXISTS " ++ full_name (keyspace i) (table i)) ∷ [])

  -- `create` and `open` behind the parsing of the comment.
  Wrote-parsed :
      (st : State S D) (r : Result Handler) (f : Handler → Code × State S D)
      (body : Handler → List Bytes)
      → HasConn st.handler.conn r
      → ((h : Handler) → h.conn ≡ st.handler.conn → sent (f h).1.world ≡ sent st.world ++ body h)
      → WroteAll st (parsed S law D journal g r body) (r >>= λ h. ok (f h))
  Wrote-parsed st (ok h) f body e k = k h e
  Wrote-parsed st (throw x) f body e k = tt

  -- A call that returns has sent exactly the statements of its script, in their order: none if the
  -- cluster cannot be reached, a USE in front of them if the handler had to connect, and else the
  -- statements that the call builds from the state before it. The connection is consistent, as it is
  -- after any calls on a new handler.
  pub run-script :
      (st : State S D) (c : Call S)
      → IsAccounted S D ledger others st
      → Holds
          (λ st'. sent st'.world ≡ sent st.world ++ script S law D journal g st c)
          (run S D g st c)
  unfolding run Tables.create Tables.open_table Tables.adjusted Tables.delete_table Tables.close
      Tables.truncate Tables.rename_table Rows.write_row Rows.update_row Rows.delete_row
      Scan.rnd_init Scan.rnd_pos Scan.position Scan.rnd_end Scan.index_init Scan.index_end
      Scan.index_next Scan.index_prev Scan.index_first Scan.index_last Scan.index_read_map
  run-script st (Call.create name form comment) a =
      Wrote-parsed st _ _ _ (parse_table_comment-HasConn st.handler comment) (λ h e.
        sent-on_success S law D journal ledger _ others _ _
          (IsAccounted-handler st (Tables.with_keyspace g h) e a)
          (create_connected-Sends S law D journal g ledger (Tables.with_keyspace g h) name form))
  run-script st (Call.open_table name) a =
      Wrote-parsed st _ _ _ (parse_table_comment-HasConn st.handler st.table.comment) (λ h e.
        sent-on_success S law D journal ledger _ others _ []
          (IsAccounted-handler st (Tables.with_keyspace g (Tables.with_table_name h name)) e a)
          (λ st' c s names. sym (append-nil (sent st'.world))))
  run-script st (Call.delete_table name) a =
      sent-on_success S law D journal ledger _ others _ _
        (IsAccounted-handler st (Tables.with_table_name st.handler name) refl a)
        (drop-Sends (Tables.with_table_name st.handler name))
  run-script st Call.close a = sym (append-nil (sent st.world))
  run-script st Call.truncate a = sent-execute_cql S law D journal ledger st others _ a
  run-script st (Call.rename_table from to) a = sym (append-nil (sent st.world))
  run-script st (Call.write_row buf) a =
      sent-execute_cql S law D journal ledger _ others _ (IsAccounted-same st _ refl refl a)
  run-script st (Call.delete_row buf) a =
      sent-execute_cql S law D journal ledger _ others _ (IsAccounted-same st _ refl refl a)
  run-script st (Call.update_row old_data new_data) a =
      sent-execute_cql S law D journal ledger _ others _ (IsAccounted-same st _ refl refl a)
  run-script st (Call.rnd_init true) a =
      sent-execute_cql S law D journal ledger _ others _ (IsAccounted-same st _ refl refl a)
  run-script st (Call.rnd_init false) a = sym (append-nil (sent st.world))
  run-script st (Call.rnd_next buf) a =
      rnd_next-Holds S D _ (Wrote-IsStable S law D journal g (sent st.world ++ [])) st buf
        (sym (append-nil (sent st.world)))
  run-script st (Call.index_next buf) a =
      rnd_next-Holds S D _ (Wrote-IsStable S law D journal g (sent st.world ++ [])) st buf
        (sym (append-nil (sent st.world)))
  run-script st (Call.index_first buf) a =
      rnd_next-Holds S D _ (Wrote-IsStable S law D journal g (sent st.world ++ [])) _ buf
        (sym (append-nil (sent st.world)))
  run-script st (Call.rnd_pos buf pos) a =
      store_result-Holds S D _ (Wrote-IsStable S law D journal g (sent st.world ++ [])) st buf pos
        (sym (append-nil (sent st.world)))
  run-script st (Call.index_read_map buf key keypart_map) a =
      let clause = build_where_from_key S st.memory st.table key keypart_map in
      let st' = record st {
        table = clause.1;
        handler = record (st.handler) { result_set = []; current_position = 0 };
      } in
      let cql =
        build_select_cql S clause.1 st.handler.keyspace_name st.handler.table_name true clause.0 in
      first_match-Holds S D _
        (Wrote-IsStable S law D journal g (sent st.world ++ says S law D journal g st cql)) buf
        (execute_cql S D st' cql)
        (sent-execute_cql S law D journal ledger st' others cql
          (IsAccounted-same st st' refl refl a))
  run-script st (Call.index_prev buf) a = sym (append-nil (sent st.world))
  run-script st (Call.index_last buf) a = sym (append-nil (sent st.world))
  run-script st Call.position a = sym (append-nil (sent st.world))
  run-script st Call.rnd_end a = sym (append-nil (sent st.world))
  run-script st Call.index_end a = sym (append-nil (sent st.world))
  run-script st (Call.index_init idx) a = sym (append-nil (sent st.world))
