-- ===== src/Handler/Tables.antt =====
-- `create`, `open`, `close`, `delete_table`, `truncate` and `rename_table`.
use mariadb_scylla_storage_e.Prelude.{
  ℕ, not, ◌&&◌, Option, none, some, List, [], ◌∷◌, ◌++◌, if◌then◌else◌, ltb, ◌==◌,
}
use mariadb_scylla_storage_e.Prelude.Int.{ℤ, pos, ◌+ℤ◌, ◌-ℤ◌, ◌==ℤ◌}
use mariadb_scylla_storage_e.Prelude.Text.{Bytes, codes, is_empty}
use mariadb_scylla_storage_e.Numerals.{Result, ok, ◌>>=◌}
use mariadb_scylla_storage_e.Server.{Server}
use mariadb_scylla_storage_e.Query.Table.{Table}
use mariadb_scylla_storage_e.Query.Statements.{full_name, build_create_table_cql}
use mariadb_scylla_storage_e.Connection.Driver.{Driver}
use mariadb_scylla_storage_e.Connection.Session.{Connection, use_keyspace}
use mariadb_scylla_storage_e.Handler.State.{Globals, Handler, Code, success, wrong_command, State}
use mariadb_scylla_storage_e.Handler.Comment.{parse_table_comment}
use mariadb_scylla_storage_e.Handler.Cql.{connect_to_scylla, on_success, execute_cql}

-- The text behind the last '/', or the whole text: `strrchr`.
after_slash : Bytes → Bytes → Bytes
after_slash found [] = found
after_slash found (c ∷ s) = after_slash (if c == b'/' then s else found) s

unfoldable pub base_name : Bytes → Bytes
unfolding after_slash
base_name name = after_slash name name

-- "Extract table name if not specified"
abbrev pub with_table_name : Handler → Bytes → Handler
with_table_name h name = record h {
  table_name = if is_empty h.table_name then base_name name else h.table_name;
}

abbrev pub default_keyspace_of : Globals → Bytes
default_keyspace_of g = elim g.default_keyspace [ none ↦ codes "mariadb" | some ks ↦ ks ]

-- "Use defaults if not specified"
abbrev pub with_keyspace : Globals → Handler → Handler
with_keyspace g h = record h {
  keyspace_name = if is_empty h.keyspace_name then default_keyspace_of g else h.keyspace_name;
}

unfoldable pub create_keyspace_cql : Bytes → Bytes
create_keyspace_cql keyspace =
    codes "CREATE KEYSPACE IF NOT EXISTS "
    ++ (keyspace
        ++ codes " WITH replication = {'class': 'SimpleStrategy', 'replication_factor': 1}")

unfoldable pub drop_cql : Handler → Bytes
drop_cql h = codes "DROP TABLE IF EXISTS " ++ full_name h.keyspace_name h.table_name

module _ (S : Server) (D : Driver) (g : Globals) where
  unfoldable pub create_scylla_table : State S D → Bytes → Table S → Code × State S D
  create_scylla_table st name form =
      let h = with_table_name st.handler name in
      execute_cql S D (record st { handler = h })
        (build_create_table_cql S form h.keyspace_name h.table_name)

  -- `conn->use_keyspace(keyspace_name)`, whose result is not looked at.
  unfoldable pub use_on : Option Connection → State S D → State S D
  use_on none st = st
  use_on (some c) st =
      let (_, c', w) = use_keyspace D c st.world st.handler.keyspace_name in
      record st { handler = record (st.handler) { conn = some c' }; world = w }

  unfoldable pub create_connected : Bytes → Table S → State S D → Code × State S D
  unfolding use_on
  create_connected name form st =
      let (_, st') = execute_cql S D st (create_keyspace_cql st.handler.keyspace_name) in
      create_scylla_table (use_on st'.handler.conn st') name form

  unfoldable pub create : State S D → Bytes → Table S → Option Bytes → Result (Code × State S D)
  unfolding create_connected
  create st name form comment = parse_table_comment st.handler comment >>= λ h. ok (
      on_success S D (connect_to_scylla S D (record st { handler = with_keyspace g h }))
        (create_connected name form))

  -- The shift of the first field past the null bytes.
  unfoldable pub adjust_first : ℤ → ℕ → List S.Field → List S.Field
  adjust_first record0 null_bytes (first ∷ second ∷ fields) =
      let first_off = S.ptr first -ℤ record0 in
      let second_off = S.ptr second -ℤ record0 in
      let expected_second = first_off +ℤ pos (S.pack_length first) +ℤ pos null_bytes in
      let overlaps =
        not (S.has_null_ptr first) && (first_off ==ℤ pos 0) && (second_off ==ℤ expected_second) in
      (if ltb 0 null_bytes && overlaps
        then S.move_field first (S.ptr first +ℤ pos null_bytes)
        else first)
      ∷ second
      ∷ fields
  adjust_first record0 null_bytes fields = fields

  unfoldable pub adjusted : State S D → Code × State S D
  adjusted st =
      let t = st.table in
      (
        success,
        record st { table = record t { field = adjust_first t.record0 t.null_bytes t.field } },
      )

  unfoldable pub open_table : State S D → Bytes → Result (Code × State S D)
  unfolding adjusted
  open_table st name = parse_table_comment st.handler st.table.comment >>= λ h. ok (
      on_success S D
        (connect_to_scylla S D (record st { handler = with_keyspace g (with_table_name h name) }))
        adjusted)

  unfoldable pub close : State S D → Code × State S D
  close st = (success, st)

  unfoldable pub delete_table : State S D → Bytes → Code × State S D
  unfolding drop_cql
  delete_table st name =
      on_success S D
        (connect_to_scylla S D (record st { handler = with_table_name st.handler name }))
        (λ st'. execute_cql S D st' (drop_cql st'.handler))

  unfoldable pub truncate : State S D → Code × State S D
  truncate st =
      execute_cql S D st
        (codes "TRUNCATE " ++ full_name st.handler.keyspace_name st.handler.table_name)

  unfoldable pub rename_table : State S D → Bytes → Bytes → Code × State S D
  rename_table st from to = (wrong_command, st)
