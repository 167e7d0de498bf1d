-- ===== src/Handler/Outage.antt =====
-- Calls when the cluster can be reached and when it cannot.
use mariadb_scylla_storage_e.Prelude.{
  Bool, true, false, Option, none, some, ◌≡◌, refl, ap, if◌then◌else◌, ◌∙◌,
}
use mariadb_scylla_storage_e.Prelude.Text.{Bytes}
use mariadb_scylla_storage_e.Numerals.{Result, ok, throw, ◌>>=◌}
use mariadb_scylla_storage_e.Server.{Server}
use mariadb_scylla_storage_e.Connection.Driver.{Driver}
use mariadb_scylla_storage_e.Connection.Session.{Connection}
use mariadb_scylla_storage_e.Handler.State.{Globals, Handler, Code, State}
use mariadb_scylla_storage_e.Handler.Cql.{is_online, connect_to_scylla, on_success, execute_cql}
use mariadb_scylla_storage_e.Handler.Comment.{parse_table_comment}
use mariadb_scylla_storage_e.Query.Table.{Table}
use mariadb_scylla_storage_e.Handler.Tables as Tables
use mariadb_scylla_storage_e.Handler.Rows as Rows
use mariadb_scylla_storage_e.Handler.Scan as Scan
use mariadb_scylla_storage_e.Handler.Calls.{Call, run}
use mariadb_scylla_storage_e.Handler.Reaching.{reaches, use_keyspace-connected, connect-online}
use mariadb_scylla_storage_e.Handler.Answering.{
  Answers, IsLost, IsSent, on_success-IsLost, connect-IsLost, execute-IsLost, on_success-IsSent,
  connect-IsSent, execute-IsSent, first_match-IsLost, first_match-IsSent, reaches_online,
  execute-online,
}

-- The state behind the parsing of the comment, if that does not throw.
abbrev pub parsed_outset {ℓ} : {A : Type ℓ} → Result Handler → (Handler → A) → Option A
parsed_outset (ok h) f = some (f h)
parsed_outset (throw e) f = none

module _ (S : Server) (D : Driver) (g : Globals) where
  use_on-online :
      (st : State S D)
      → is_online S D st.handler.conn ≡ true
      → is_online S D (Tables.use_on S D g st.handler.conn st).handler.conn ≡ true
  unfolding Tables.use_on
  use_on-online st e = go st.handler.conn refl
    where
      go :
          (c : Option Connection)
          → st.handler.conn ≡ c
          → is_online S D (Tables.use_on S D g c st).handler.conn ≡ true
      go none f = e
      go (some c) f = use_keyspace-connected S D c st.world st.handler.keyspace_name ∙ (rw f at e)

  create_connected-IsSent :
      (st : State S D) (name : Bytes) (form : Table S)
      → is_online S D st.handler.conn ≡ true
      → IsSent S D (Tables.create_connected S D g name form st)
  unfolding Tables.create_connected Tables.create_scylla_table
  create_connected-IsSent st name form e =
      let st1 = (execute_cql S D st (Tables.create_keyspace_cql st.handler.keyspace_name)).1 in
      let st2 = Tables.use_on S D g st1.handler.conn st1 in
      let st3 : State S D = record st2 { handler = Tables.with_table_name st2.handler name } in
      execute-IsSent S D st3 _
        (reaches_online S D st3 (use_on-online st1 (execute-online S D st _ e)))

  -- The state from which a call goes to the cluster: with the settings of the table comment and the
  -- name of the table, for the calls that take these. The other calls do not go there.
  abbrev pub outset : State S D → Call S → Option (State S D)
  outset st (Call.create name form comment) =
      parsed_outset (parse_table_comment st.handler comment)
        (λ h. record st { handler = Tables.with_keyspace g h })
  outset st (Call.open_table name) =
      parsed_outset (parse_table_comment st.handler st.table.comment)
        (λ h. record st { handler = Tables.with_keyspace g (Tables.with_table_name h name) })
  outset st (Call.delete_table name) =
      some (record st { handler = Tables.with_table_name st.handler name })
  outset st Call.truncate = some st
  outset st (Call.write_row buf) = some st
  outset st (Call.delete_row buf) = some st
  outset st (Call.update_row old_data new_data) = some st
  outset st (Call.rnd_init scan) = if scan then some st else none
  outset st (Call.index_read_map buf key keypart_map) = some st
  outset st _ = none

  unreached :
      (st from : State S D) (b : Bool)
      → some st ≡ some from
      → reaches S D from ≡ b
      → reaches S D st ≡ b
  unreached st from b e h = let same : st ≡ from = cc in ap (λ st'. reaches S D st') same ∙ h

  parsed-IsLost :
      (m : S.Memory) (r : Result Handler) (f : Handler → State S D)
      (k : State S D → Code × State S D) (from : State S D)
      → parsed_outset r f ≡ some from
      → reaches S D from ≡ false
      → ((h : Handler) → (f h).memory ≡ m)
      → Answers S D (IsLost S D m) (r >>= λ h. ok (on_success S D (connect_to_scylla S D (f h)) k))
  parsed-IsLost m (throw x) f k from e h same = tt
  parsed-IsLost m (ok h') f k from e h same =
      let (code, memory) = connect-IsLost S D (f h') (unreached (f h') from false e h) in
      on_success-IsLost S D _ m k (code, memory ∙ same h')

  parsed-IsSent :
      (r : Result Handler) (f : Handler → State S D) (k : State S D → Code × State S D)
      (from : State S D)
      → parsed_outset r f ≡ some from
      → reaches S D from ≡ true
      → ((st : State S D) → is_online S D st.handler.conn ≡ true → IsSent S D (k st))
      → Answers S D (IsSent S D) (r >>= λ h. ok (on_success S D (connect_to_scylla S D (f h)) k))
  parsed-IsSent (throw x) f k from e h sent = tt
  parsed-IsSent (ok h') f k from e h sent =
      let reached = unreached (f h') from true e h in
      on_success-IsSent S D _ k (connect-IsSent S D (f h') reached)
        (sent _ (connect-online S D (f h') reached))

  -- While the handler is not connected and the cluster refuses a new connection, every call that
  -- goes to the cluster and returns reports that there is no connection, and leaves the record
  -- buffers alone. These are the calls that create, open, drop and truncate a table, that write,
  -- update and delete a row, that begin a table scan and that look up a key; `create` and `open` go
  -- to the hosts of the table comment.
  pub run-IsLost :
      (st from : State S D) (c : Call S)
      → outset st c ≡ some from
      → reaches S D from ≡ false
      → Answers S D (IsLost S D st.memory) (run S D g st c)
  unfolding run Tables.create Tables.open_table Tables.truncate Tables.delete_table Rows.write_row
      Rows.delete_row Rows.update_row Scan.rnd_init Scan.index_read_map
  run-IsLost st from (Call.create name form comment) e h =
      parsed-IsLost st.memory (parse_table_comment st.handler comment) _ _ from e h (λ h'. refl)
  run-IsLost st from (Call.open_table name) e h =
      parsed-IsLost st.memory (parse_table_comment st.handler st.table.comment) _ _ from e h
        (λ h'. refl)
  run-IsLost st from (Call.delete_table name) e h =
      on_success-IsLost S D _ _ _ (connect-IsLost S D _ (unreached _ from false e h))
  run-IsLost st from Call.truncate e h = execute-IsLost S D _ _ (unreached st from false e h)
  run-IsLost st from (Call.write_row buf) e h = execute-IsLost S D _ _ (unreached st from false e h)
  run-IsLost st from (Call.delete_row buf) e h =
      execute-IsLost S D _ _ (unreached st from false e h)
  run-IsLost st from (Call.update_row old_data new_data) e h =
      execute-IsLost S D _ _ (unreached st from false e h)
  run-IsLost st from (Call.rnd_init true) e h = execute-IsLost S D _ _ (unreached st from false e h)
  run-IsLost st from (Call.index_read_map buf key keypart_map) e h =
      first_match-IsLost S D buf _ _ (execute-IsLost S D _ _ (unreached st from false e h))
  run-IsLost st from (Call.rnd_init false) e h = cc
  run-IsLost st from _ e h = cc

  -- As soon as the handler is connected or the cluster accepts a connection, none of these calls
  -- that returns reports a missing connection, whatever happened before; for `create` and `open` it
  -- is the cluster of the table comment.
  pub run-IsSent :
      (st from : State S D) (c : Call S)
      → outset st c ≡ some from
      → reaches S D from ≡ true
      → Answers S D (IsSent S D) (run S D g st c)
  unfolding run Tables.create Tables.open_table Tables.adjusted Tables.truncate Tables.delete_table
      Rows.write_row Rows.delete_row Rows.update_row Scan.rnd_init Scan.index_read_map
  run-IsSent st from (Call.create name form comment) e h =
      parsed-IsSent (parse_table_comment st.handler comment) _ _ from e h
        (λ st'. create_connected-IsSent st' name form)
  run-IsSent st from (Call.open_table name) e h =
      parsed-IsSent (parse_table_comment st.handler st.table.comment) _ _ from e h
        (λ st' online. (cc))
  run-IsSent st from (Call.delete_table name) e h =
      let st' = record st { handler = Tables.with_table_name st.handler name } in
      let reached = unreached st' from true e h in
      on_success-IsSent S D _ _ (connect-IsSent S D st' reached) (
        execute-IsSent S D (connect_to_scylla S D st').1 _
          (reaches_online S D (connect_to_scylla S D st').1 (connect-online S D st' reached)))
  run-IsSent st from Call.truncate e h = execute-IsSent S D _ _ (unreached st from true e h)
  run-IsSent st from (Call.write_row buf) e h = execute-IsSent S D _ _ (unreached st from true e h)
  run-IsSent st from (Call.delete_row buf) e h = execute-IsSent S D _ _ (unreached st from true e h)
  run-IsSent st from (Call.update_row old_data new_data) e h =
      execute-IsSent S D _ _ (unreached st from true e h)
  run-IsSent st from (Call.rnd_init true) e h = execute-IsSent S D _ _ (unreached st from true e h)
  run-IsSent st from (Call.index_read_map buf key keypart_map) e h =
      first_match-IsSent S D buf _ (execute-IsSent S D _ _ (unreached st from true e h))
  run-IsSent st from (Call.rnd_init false) e h = cc
  run-IsSent st from _ e h = cc
