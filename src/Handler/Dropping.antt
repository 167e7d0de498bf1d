-- ===== src/Handler/Dropping.antt =====
-- The table that `delete_table` drops.
use mariadb_scylla_storage_e.Prelude.{Bool, true, false, ◌++◌, ◌≡◌, refl, ap, Bool-cases, inl, inr}
use mariadb_scylla_storage_e.Prelude.Text.{Bytes, codes}
use mariadb_scylla_storage_e.Server.{Server}
use mariadb_scylla_storage_e.Query.Statements.{full_name}
use mariadb_scylla_storage_e.Connection.Driver.{Driver}
use mariadb_scylla_storage_e.Connection.Session.{Connection}
use mariadb_scylla_storage_e.Handler.State.{
  Globals, Handler, new_handler, or_empty, Code, success, end_of_file, key_not_found, no_connection,
  generic, wrong_command, State,
}
use mariadb_scylla_storage_e.Handler.Cql.{
  is_online, settle, connect_to_scylla, on_success, execute_cql,
}
use mariadb_scylla_storage_e.Handler.Tables.{base_name, with_table_name, drop_cql, delete_table}

module _ (S : Server) (D : Driver) where
  abbrev pub HasNames : Handler → Handler → Type 0
  HasNames h h' = (h'.keyspace_name ≡ h.keyspace_name) × (h'.table_name ≡ h.table_name)

  settle-HasNames :
      (st : State S D) (h : Handler) (r : Bool × Connection × D.World)
      → HasNames h (settle S D st h r).1.handler
  unfolding settle
  settle-HasNames st h (false, c, w) = (refl, refl)
  settle-HasNames st h (true, c, w) = (refl, refl)

  pub connect_to_scylla-HasNames :
      (st : State S D) → HasNames st.handler (connect_to_scylla S D st).1.handler
  unfolding connect_to_scylla
  connect_to_scylla-HasNames st = elim (Bool-cases (is_online S D st.handler.conn)) [
    | inl e ↦ rw (e, connect_to_scylla) (refl, refl)
    | inr e ↦ rw (e, connect_to_scylla) (settle-HasNames st _ _)
  ]

  on_success_cong :
      (r : Code × State S D) (f g : State S D → Code × State S D)
      → f r.1 ≡ g r.1
      → on_success S D r f ≡ on_success S D r g
  unfolding on_success
  on_success_cong (success, st) f g e = e
  on_success_cong (end_of_file, st) f g e = refl
  on_success_cong (key_not_found, st) f g e = refl
  on_success_cong (no_connection, st) f g e = refl
  on_success_cong (generic, st) f g e = refl
  on_success_cong (wrong_command, st) f g e = refl

  -- On a handler that was made but not opened, DROP TABLE is sent for the table that the last part of
  -- `name` gives, in the default keyspace of the plugin: the comment of the table, which may name
  -- another keyspace and table, has no part in the statement.
  pub delete_table-new_handler :
      (g : Globals) (st : State S D) (name : Bytes)
      → st.handler ≡ new_handler g
      → delete_table S D g st name
        ≡ on_success S D
            (connect_to_scylla S D (record st { handler = with_table_name st.handler name }))
            (λ st'. execute_cql S D st' (
              codes "DROP TABLE IF EXISTS "
              ++ full_name (or_empty g.default_keyspace) (base_name name)))
  unfolding delete_table drop_cql new_handler
  delete_table-new_handler g st name e =
      let st' = record st { handler = with_table_name st.handler name } in
      let (keyspace, table) = connect_to_scylla-HasNames st' in
      on_success_cong (connect_to_scylla S D st') _ _
        (ap (execute_cql S D (connect_to_scylla S D st').1) (rw (keyspace, table, e) refl))
