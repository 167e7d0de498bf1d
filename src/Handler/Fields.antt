-- ===== src/Handler/Fields.antt =====
-- The open table of a handler as a property that most calls keep.
use mariadb_scylla_storage_e.Prelude.{
  Bool, true, false, Option, none, some, ◌≡◌, ◌∙◌, refl, ap, Bool-cases, inl, inr,
}
use mariadb_scylla_storage_e.Prelude.Text.{Bytes}
use mariadb_scylla_storage_e.Server.{Server, IsLawful}
use mariadb_scylla_storage_e.Query.Table.{Table, HasLinkedKey}
use mariadb_scylla_storage_e.Query.Texts.{
  build_insert_cql_lem, build_update_cql_lem, build_delete_cql_lem,
}
use mariadb_scylla_storage_e.Connection.Session.{Connection}
use mariadb_scylla_storage_e.Connection.Driver.{Driver}
use mariadb_scylla_storage_e.Handler.State.{
  Globals, Handler, Code, success, end_of_file, key_not_found, no_connection, generic,
  wrong_command, State,
}
use mariadb_scylla_storage_e.Handler.Cql.{
  is_online, settle, connect_to_scylla, run_on, on_success, execute_cql,
}
use mariadb_scylla_storage_e.Handler.Tables.{use_on}
use mariadb_scylla_storage_e.Handler.Cursor.{move_all_back}
use mariadb_scylla_storage_e.Handler.Calls.{Call, run}
use mariadb_scylla_storage_e.Handler.Storing.{Holds}
use mariadb_scylla_storage_e.Handler.Keeping.{IsKept, table_after, run-Holds}

-- The calls that move fields for good: `open`, which makes room for the null bytes, and an index
-- read.
abbrev pub moves_fields : {S : Server} → Call S → Bool
moves_fields (Call.open_table name) = true
moves_fields (Call.index_read_map buf key keypart_map) = true
moves_fields _ = false

module _ (S : Server) (law : IsLawful S) (D : Driver) (g : Globals) (t : Table S) where
  abbrev HasTable : State S D → Type 0
  HasTable st = st.table ≡ t

  settle-table :
      (st : State S D) (h : Handler) (r : Bool × Connection × D.World)
      → (settle S D st h r).1.table ≡ st.table
  unfolding settle
  settle-table st h (false, c, w) = refl
  settle-table st h (true, c, w) = refl

  pub connect_to_scylla-table : (st : State S D) → (connect_to_scylla S D st).1.table ≡ st.table
  unfolding connect_to_scylla
  connect_to_scylla-table st = elim (Bool-cases (is_online S D st.handler.conn)) [
    | inl e ↦ rw (e, connect_to_scylla)
    | inr e ↦ rw (e, connect_to_scylla) (settle-table st _ _)
  ]

  run_on-table :
      (c : Option Connection) (st : State S D) (cql : Bytes)
      → (run_on S D c st cql).1.table ≡ st.table
  unfolding run_on
  run_on-table none st cql = refl
  run_on-table (some c) st cql = refl

  pub execute_cql-table :
      (st : State S D) (cql : Bytes) → (execute_cql S D st cql).1.table ≡ st.table
  unfolding execute_cql on_success
  execute_cql-table st cql = go (connect_to_scylla S D st) (connect_to_scylla-table st)
    where
      go :
          (r : Code × State S D)
          → r.1.table ≡ st.table
          → (on_success S D r (λ st'. run_on S D st'.handler.conn st' cql)).1.table ≡ st.table
      go (success, st') e = run_on-table st'.handler.conn st' cql ∙ e
      go (end_of_file, st') e = e
      go (key_not_found, st') e = e
      go (no_connection, st') e = e
      go (generic, st') e = e
      go (wrong_command, st') e = e

  use_on-table : (c : Option Connection) (st : State S D) → (use_on S D g c st).table ≡ st.table
  unfolding use_on
  use_on-table none st = refl
  use_on-table (some c) st = refl

  HasTable-IsKept : IsKept S D g HasTable
  HasTable-IsKept = record {
    stable = record {
      same = λ st st' _ _ e h. e ∙ h;
      back = λ st offset h.
          ap (λ fields. record (st.table) { field = fields })
            (move_all_back S law offset st.table.field)
          ∙ h;
    };
    connect = λ st h. connect_to_scylla-table st ∙ h;
    execute = λ st cql h. execute_cql-table st cql ∙ h;
    use_on = λ c st _ h. use_on-table c st ∙ h;
  }

  HasLinkedKey-at :
      (st : State S D)
      → HasTable st
      → HasLinkedKey t.field t.primary_key
      → HasLinkedKey st.table.field st.table.primary_key
  HasLinkedKey-at st e linked = rw e linked

  table_after-HasTable :
      (c : Call S) (st : State S D)
      → moves_fields c ≡ false
      → HasLinkedKey t.field t.primary_key
      → HasTable st
      → table_after S D g st c ≡ t
  table_after-HasTable (Call.write_row buf) st m linked e =
      ap (λ r. r.1)
        (build_insert_cql_lem S law st.memory st.table buf st.handler.keyspace_name
          st.handler.table_name)
      ∙ e
  table_after-HasTable (Call.update_row old_data new_data) st m linked e =
      ap (λ r. r.1)
        (build_update_cql_lem S law st.memory st.table old_data new_data st.handler.keyspace_name
          st.handler.table_name (HasLinkedKey-at st e linked))
      ∙ e
  table_after-HasTable (Call.delete_row buf) st m linked e =
      ap (λ r. r.1)
        (build_delete_cql_lem S law st.memory st.table buf st.handler.keyspace_name
          st.handler.table_name (HasLinkedKey-at st e linked))
      ∙ e
  table_after-HasTable (Call.open_table name) st m linked e = cc
  table_after-HasTable (Call.index_read_map buf key keypart_map) st m linked e = cc
  table_after-HasTable _ st m linked e = e

-- A call that returns leaves the fields of the open table where they were, and all else of the table
-- too, whatever its return code, unless it opens the table or is an index read. The parts of the
-- key point to fields of the table.
pub run-table :
    (S : Server) (law : IsLawful S) (D : Driver) (g : Globals) (st : State S D) (c : Call S)
    → HasLinkedKey st.table.field st.table.primary_key
    → moves_fields c ≡ false
    → Holds (λ st'. st'.table ≡ st.table) (run S D g st c)
run-table S law D g st c linked m =
    run-Holds S D g (HasTable S law D g st.table) (HasTable-IsKept S law D g st.table) st c
      (λ st' e. table_after-HasTable S law D g st.table c st' m linked e) refl
