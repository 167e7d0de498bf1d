-- ===== src/Handler/FullScan.antt =====
-- `rnd_init` and the reading of all the rows of its answer.
use mariadb_scylla_storage_e.Prelude.{
  suc, Bool, if◌then◌else◌, true, false, some, List, [], map, length, ◌≡◌, ◌∙◌, refl, ap,
}
use mariadb_scylla_storage_e.Prelude.Int.{ℤ}
use mariadb_scylla_storage_e.Prelude.Text.{Bytes}
use mariadb_scylla_storage_e.Numerals.{ok, ◌>>=◌}
use mariadb_scylla_storage_e.Server.{Server, IsLawful}
use mariadb_scylla_storage_e.Query.Statements.{build_select_cql}
use mariadb_scylla_storage_e.Connection.Driver.{Driver, CassResult, Response, done}
use mariadb_scylla_storage_e.Connection.Values.{value_string}
use mariadb_scylla_storage_e.Connection.Session.{
  Connection, Rows, execute, take_response, is_closed,
}
use mariadb_scylla_storage_e.Handler.State.{success, generic, State}
use mariadb_scylla_storage_e.Handler.Cql.{run_on, execute_cql}
use mariadb_scylla_storage_e.Handler.Scan.{rnd_init}
use mariadb_scylla_storage_e.Handler.Interference.{IsServing, execute_cql_serving}
use mariadb_scylla_storage_e.Handler.Sequence.{all_rows, read_to_end, read_to_end-all_rows}

module _ (S : Server) (law : IsLawful S) (D : Driver) where
  abbrev pub Answer : Type 0
  Answer = CassResult D.Real D.Uuid D.Inet

  -- The rows of an answer as texts.
  abbrev pub texts : Answer → Rows
  texts result = map (map (value_string D)) result.rows

  -- The SELECT of a scan.
  abbrev pub scan_cql : State S D → Bytes
  scan_cql st = build_select_cql S st.table st.handler.keyspace_name st.handler.table_name true []

  -- The state with the answer as the result set and the position in front of its first row.
  abbrev pub opened : State S D → Answer → D.World → State S D
  opened st result w = record st {
    handler = record (st.handler) {
      column_names = result.columns;
      result_set = texts result;
      current_position = 0;
      scan_active = true;
    };
    world = w;
  }

  abbrev pub world_after : Connection → State S D → D.World
  world_after c st = (execute D c st.world (scan_cql st) st.handler.column_names []).3

  take_response_done :
      (r : Response D.Real D.Uuid D.Inet × D.World) (result : Answer)
      → r.0 ≡ done (some result)
      → take_response D r ≡ (true, result.columns, texts result, (take_response D r).3)
  unfolding take_response
  take_response_done (response, w) result e = rw (e, take_response)

  execute_done :
      (c : Connection) (w : D.World) (cql : Bytes) (names : List Bytes) (rows : Rows)
      (result : Answer)
      → is_closed D c ≡ false
      → (D.session_execute (D.statement_new w cql) cql).0 ≡ done (some result)
      → execute D c w cql names rows
        ≡ (true, result.columns, texts result, (execute D c w cql names rows).3)
  unfolding execute
  execute_done c w cql names rows result connected answer =
      rw (connected, execute)
        (take_response_done (D.session_execute (D.statement_new w cql) cql) result answer)

  -- The state with an answer as the result set.
  abbrev pub answered : State S D → Answer → D.World → State S D
  answered st result w = record st {
    handler = record (st.handler) { column_names = result.columns; result_set = texts result };
    world = w;
  }

  abbrev pub world_of : Connection → State S D → Bytes → D.World
  world_of c st cql = (execute D c st.world cql st.handler.column_names st.handler.result_set).3

  -- A statement that the cluster answers with a result replaces the result set and the column names
  -- by those of the answer.
  pub execute_cql-answered :
      (st : State S D) (c : Connection) (cql : Bytes) (result : Answer)
      → IsServing st c
      → (D.session_execute (D.statement_new st.world cql) cql).0 ≡ done (some result)
      → execute_cql S D st cql ≡ (success, answered st result (world_of c st cql))
  unfolding run_on
  execute_cql-answered st c cql result s answer =
      execute_cql_serving S law D st c cql s
      ∙ ap
          (λ (r : Bool × List Bytes × Rows × D.World). (
            if r.0 then success else generic,
            record st {
              handler = record (st.handler) { column_names = r.1; result_set = r.2 };
              world = r.3;
            },
          ))
          (execute_done c st.world cql st.handler.column_names st.handler.result_set result
            (rw (s.1, s.2)) answer)

  rnd_init_serving :
      (st : State S D) (c : Connection) (result : Answer)
      → IsServing st c
      → (D.session_execute (D.statement_new st.world (scan_cql st)) (scan_cql st)).0
        ≡ done (some result)
      → rnd_init S D st true ≡ (success, opened st result (world_after c st))
  unfolding rnd_init
  rnd_init_serving st c result s answer = execute_cql-answered _ c (scan_cql st) result s answer

  -- A scan of a table, on a connected handler whose SELECT the cluster answers with a result, takes
  -- the answer as its result set, and reading to the end then stores exactly the rows of the
  -- answer, in order and each of them once. A conversion that throws ends the scan.
  pub rnd_init-all_rows :
      (st : State S D) (c : Connection) (result : Answer) (buf : ℤ)
      → IsServing st c
      → (D.session_execute (D.statement_new st.world (scan_cql st)) (scan_cql st)).0
        ≡ done (some result)
      → (rnd_init S D st true ≡ (success, opened st result (world_after c st)))
        × (read_to_end S D (suc (length (texts result))) (rnd_init S D st true).1 buf ≡ (
            all_rows S law D (opened st result (world_after c st)) buf st.memory (texts result)
            >>= λ ms. ok (some ms)))
  rnd_init-all_rows st c result buf s answer =
      let begun = rnd_init_serving st c result s answer in
      (
        begun,
        ap (λ r. read_to_end S D (suc (length (texts result))) r.1 buf) begun
            ∙ read_to_end-all_rows S law D (opened st result (world_after c st)) buf st.memory 0
                (texts result) refl,
      )
