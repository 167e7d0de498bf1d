-- ===== src/Handler/Scan.antt =====
-- Table scans and index scans.
use mariadb_scylla_storage_e.Prelude.{
  ℕ, ◌+◌, ◌-◌, ◌%◌, ◌^◌, Bool, true, false, none, some, [], if◌then◌else◌, leb, length,
}
use mariadb_scylla_storage_e.Prelude.Int.{ℤ}
use mariadb_scylla_storage_e.Prelude.Text.{is_empty}
use mariadb_scylla_storage_e.Numerals.{Result, ok, ◌>>=◌}
use mariadb_scylla_storage_e.Server.{Server}
use mariadb_scylla_storage_e.Query.Clauses.{build_where_from_key}
use mariadb_scylla_storage_e.Query.Statements.{build_select_cql}
use mariadb_scylla_storage_e.Connection.Driver.{Driver}
use mariadb_scylla_storage_e.Handler.State.{
  Handler, Code, success, end_of_file, key_not_found, wrong_command, State,
}
use mariadb_scylla_storage_e.Handler.Cql.{execute_cql}
use mariadb_scylla_storage_e.Handler.Record.{store_result_to_record}

module _ (S : Server) (D : Driver) where
  abbrev pub with_handler : State S D → Handler → State S D
  with_handler st h = record st { handler = h }

  unfoldable pub rnd_init : State S D → Bool → Code × State S D
  rnd_init st scan =
      let h = record (st.handler) { scan_active = scan; current_position = 0; result_set = [] } in
      let cql = build_select_cql S st.table h.keyspace_name h.table_name true [] in
      if scan then execute_cql S D (with_handler st h) cql else (success, with_handler st h)

  -- `current_position++` and the return code of the store.
  advance : Code × State S D → Result (Code × State S D)
  advance (code, st) =
      let h = st.handler in
      ok (code, with_handler st (record h { current_position = h.current_position + 1 }))

  unfoldable pub rnd_next : State S D → ℤ → Result (Code × State S D)
  unfolding advance
  rnd_next st buf =
      if leb (length st.handler.result_set) st.handler.current_position
      then ok (end_of_file, st)
      else (store_result_to_record S D st buf st.handler.current_position >>= advance)

  -- `position`: `current_position - 1` as a `size_t`.
  unfoldable pub position : State S D → State S D
  position st =
      with_handler st
        (record (st.handler) { ref = (st.handler.current_position + 2 ^ 64 - 1) % 2 ^ 64 })

  unfoldable pub rnd_pos : State S D → ℤ → ℕ → Result (Code × State S D)
  rnd_pos st buf pos = store_result_to_record S D st buf pos

  unfoldable pub rnd_end : State S D → Code × State S D
  rnd_end st =
      (success, with_handler st (record (st.handler) { scan_active = false; current_position = 0 }))

  unfoldable pub index_init : State S D → ℕ → Code × State S D
  index_init st idx = (success, with_handler st (record (st.handler) { active_index = some idx }))

  unfoldable pub index_end : State S D → Code × State S D
  index_end st = (success, with_handler st (record (st.handler) { active_index = none }))

  -- The first row of the answer, after which the position is 1.
  at_one : Code × State S D → Result (Code × State S D)
  at_one (code, st) = ok (code, with_handler st (record (st.handler) { current_position = 1 }))

  unfoldable pub first_match : ℤ → Code × State S D → Result (Code × State S D)
  unfolding at_one
  first_match buf (success, st) =
      if is_empty st.handler.result_set
      then ok (key_not_found, st)
      else (store_result_to_record S D st buf 0 >>= at_one)
  first_match buf (code, st) = ok (code, st)

  unfoldable pub index_read_map : State S D → ℤ → ℤ → ℕ → Result (Code × State S D)
  unfolding first_match
  index_read_map st buf key keypart_map =
      let (where_clause, table) = build_where_from_key S st.memory st.table key keypart_map in
      let h = st.handler in
      let cql = build_select_cql S table h.keyspace_name h.table_name true where_clause in
      let st' = record st {
        table = table;
        handler = record h { result_set = []; current_position = 0 };
      } in
      first_match buf (execute_cql S D st' cql)

  unfoldable pub index_next : State S D → ℤ → Result (Code × State S D)
  index_next st buf = rnd_next st buf

  unfoldable pub index_prev : State S D → ℤ → Code × State S D
  index_prev st buf = (wrong_command, st)

  unfoldable pub index_first : State S D → ℤ → Result (Code × State S D)
  index_first st buf = rnd_next (with_handler st (record (st.handler) { current_position = 0 })) buf

  unfoldable pub index_last : State S D → ℤ → Code × State S D
  index_last st buf = (wrong_command, st)
