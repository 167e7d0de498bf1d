-- ===== src/Handler/Lookup.antt =====
-- What an index read makes of the answer to its SELECT.
use mariadb_scylla_storage_e.Prelude.{ℕ, true, false, some, get_elem?, [], ◌∷◌, ◌≡◌, ◌∙◌, refl, ap}
use mariadb_scylla_storage_e.Prelude.Int.{ℤ}
use mariadb_scylla_storage_e.Prelude.Text.{Bytes, is_empty}
use mariadb_scylla_storage_e.Numerals.{Result, ok, ◌>>=◌}
use mariadb_scylla_storage_e.Server.{Server, IsLawful}
use mariadb_scylla_storage_e.Query.Clauses.{build_where_from_key}
use mariadb_scylla_storage_e.Query.Statements.{build_select_cql}
use mariadb_scylla_storage_e.Connection.Driver.{Driver, done}
use mariadb_scylla_storage_e.Connection.Session.{Connection, Rows}
use mariadb_scylla_storage_e.Handler.State.{Code, success, key_not_found, State}
use mariadb_scylla_storage_e.Handler.Record.{store_result_to_record}
use mariadb_scylla_storage_e.Handler.Scan.{first_match, index_read_map}
use mariadb_scylla_storage_e.Handler.Cursor.{stored, store_row_lem, >>=-ok}
use mariadb_scylla_storage_e.Handler.Interference.{IsServing}
use mariadb_scylla_storage_e.Handler.FullScan.{
  Answer, texts, answered, world_of, execute_cql-answered,
}

module _ (S : Server) (law : IsLawful S) (D : Driver) where
  -- The SELECT of a lookup, and the state that it is sent from.
  abbrev pub lookup_cql : State S D → ℤ → ℕ → Bytes
  lookup_cql st key keypart_map =
      let (where_clause, table) = build_where_from_key S st.memory st.table key keypart_map in
      build_select_cql S table st.handler.keyspace_name st.handler.table_name true where_clause

  abbrev pub looking : State S D → ℤ → ℕ → State S D
  looking st key keypart_map = record st {
    table = (build_where_from_key S st.memory st.table key keypart_map).1;
    handler = record (st.handler) { result_set = []; current_position = 0 };
  }

  -- What is made of the rows of the answer: the first is stored, and the position is behind it.
  abbrev pub first_stored : State S D → ℤ → Rows → Result (Code × State S D)
  first_stored st buf [] = ok (key_not_found, st)
  first_stored st buf (row ∷ _) = stored S law D st buf row >>= λ m.
      ok (success, record st { memory = m; handler = record (st.handler) { current_position = 1 } })

  first_match-first_stored :
      (st : State S D) (buf : ℤ) (rows : Rows)
      → st.handler.result_set ≡ rows
      → first_match S D buf (success, st) ≡ first_stored st buf rows
  unfolding first_match store_result_to_record
  first_match-first_stored st buf [] e = rw (e, first_match)
  first_match-first_stored st buf (row ∷ rows) e =
      let filled : is_empty st.handler.result_set ≡ false = ap is_empty e in
      let here : get_elem? st.handler.result_set 0 ≡ some row = ap (λ rs. get_elem? rs 0) e in
      rw (filled, first_match, here, store_result_to_record)
        (rw (store_row_lem S law D st buf row) (>>=-ok (stored S law D st buf row) _ _))

  -- An index read, on a connected handler whose SELECT the cluster answers with a result, reports a
  -- missing key if the answer has no row; else it stores the first row, and the rows behind the
  -- first are those that `index_next` goes on with. A conversion that throws ends the call.
  pub index_read_map-first_stored :
      (st : State S D) (c : Connection) (result : Answer S law D) (buf key : ℤ) (keypart_map : ℕ)
      → IsServing st c
      → (let cql = lookup_cql st key keypart_map in
          (D.session_execute (D.statement_new st.world cql) cql).0 ≡ done (some result))
      → index_read_map S D st buf key keypart_map ≡ (
          let cql = lookup_cql st key keypart_map in
          let st' = looking st key keypart_map in
          first_stored
            (answered S law D st' result (world_of S law D c st' cql))
            buf
            (texts S law D result))
  unfolding index_read_map
  index_read_map-first_stored st c result buf key keypart_map s answer =
      let cql = lookup_cql st key keypart_map in
      let st' = looking st key keypart_map in
      ap (first_match S D buf) (execute_cql-answered S law D st' c cql result s answer)
      ∙ first_match-first_stored (answered S law D st' result (world_of S law D c st' cql)) buf
          (texts S law D result) refl
