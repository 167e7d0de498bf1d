-- ===== src/Handler/Cql.antt =====
-- `connect_to_scylla` and `execute_cql`.
use mariadb_scylla_storage_e.Prelude.{Bool, true, false, Option, none, some, if◌then◌else◌}
use mariadb_scylla_storage_e.Prelude.Text.{Bytes, codes, is_empty}
use mariadb_scylla_storage_e.Server.{Server}
use mariadb_scylla_storage_e.Connection.Driver.{Driver}
use mariadb_scylla_storage_e.Connection.Session.{
  Connection, new_connection, cleanup, connect, use_keyspace, execute,
}
use mariadb_scylla_storage_e.Handler.State.{Handler, Code, success, no_connection, generic, State}

module _ (S : Server) (D : Driver) where
  -- `conn && conn->is_connected()`
  abbrev pub is_online : Option Connection → Bool
  is_online none = false
  is_online (some c) = c.connected

  -- The destructor of the connection that `conn` pointed to, if it pointed to one.
  unfoldable pub destroy : Option Connection → D.World → D.World
  destroy none w = w
  destroy (some c) w = (cleanup D c w).1

  -- `if (!keyspace_name.empty()) conn->use_keyspace(keyspace_name)`, whose result is not looked at.
  unfoldable pub select_keyspace : Bytes → Connection × D.World → Connection × D.World
  select_keyspace keyspace (c, w) = elim (is_empty keyspace) [
    | true ↦ (c, w)
    | false ↦ let (_, c', w') = use_keyspace D c w keyspace in (c', w')
  ]

  -- The rest of `connect_to_scylla`, from the answer of `connect`.
  unfoldable pub settle : State S D → Handler → Bool × Connection × D.World → Code × State S D
  unfolding select_keyspace
  settle st h (false, c, w) =
      (no_connection, record st { handler = record h { conn = some c }; world = w })
  settle st h (true, c, w) =
      let (c', w') = select_keyspace h.keyspace_name (c, w) in
      (success, record st { handler = record h { conn = some c' }; world = w' })

  unfoldable pub connect_to_scylla : State S D → Code × State S D
  unfolding destroy
  connect_to_scylla st = elim (is_online st.handler.conn) [
    | true ↦ (success, st)
    | false ↦
        let w = destroy st.handler.conn st.world in
        let h = record (st.handler) {
          scylla_hosts =
              if is_empty st.handler.scylla_hosts
              then codes "127.0.0.1"
              else st.handler.scylla_hosts;
        } in
        settle st h (connect D (new_connection) w h.scylla_hosts h.scylla_port)
  ]

  -- `conn->execute(cql, column_names, result_set)`; `conn` is set once `connect_to_scylla` returns 0.
  unfoldable pub run_on : Option Connection → State S D → Bytes → Code × State S D
  run_on none st cql = (generic, st)
  run_on (some c) st cql =
      let (done, names, rows, w) =
        execute D c st.world cql st.handler.column_names st.handler.result_set in
      (
        if done then success else generic,
        record st {
          handler = record (st.handler) { column_names = names; result_set = rows };
          world = w;
        },
      )

  -- A return code other than 0 ends the call.
  unfoldable pub on_success : Code × State S D → (State S D → Code × State S D) → Code × State S D
  on_success (success, st) next = next st
  on_success (code, st) next = (code, st)

  unfoldable pub execute_cql : State S D → Bytes → Code × State S D
  execute_cql st cql = on_success (connect_to_scylla st) (λ st'. run_on st'.handler.conn st' cql)
