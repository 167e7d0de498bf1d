-- ===== src/Handler/Script.antt =====
-- The statements that each call sends.
use mariadb_scylla_storage_e.Prelude.{
  true, some, List, [], ◌∷◌, ◌++◌, ◌≡◌, ◌∙◌, refl, arith, ap, if◌then◌else◌,
}
use mariadb_scylla_storage_e.Prelude.Text.{Bytes, codes, is_empty}
use mariadb_scylla_storage_e.Numerals.{Result, ok, throw}
use mariadb_scylla_storage_e.Server.{Server, IsLawful}
use mariadb_scylla_storage_e.Query.Table.{Table}
use mariadb_scylla_storage_e.Query.Clauses.{build_where_from_key}
use mariadb_scylla_storage_e.Query.Statements.{
  full_name, build_create_table_cql, build_insert_cql, build_update_cql, build_delete_cql,
  build_select_cql,
}
use mariadb_scylla_storage_e.Connection.Driver.{Driver, IsLedger}
use mariadb_scylla_storage_e.Connection.Session.{Connection, use_keyspace}
use mariadb_scylla_storage_e.Connection.Journal.{IsJournal, sent-use_keyspace}
use mariadb_scylla_storage_e.Handler.State.{Globals, Handler, Code, State}
use mariadb_scylla_storage_e.Handler.Comment.{parse_table_comment}
use mariadb_scylla_storage_e.Handler.Cql.{run_on, execute_cql}
use mariadb_scylla_storage_e.Handler.Tables as Tables
use mariadb_scylla_storage_e.Handler.Calls.{Call}
use mariadb_scylla_storage_e.Handler.Storing.{Holds, IsStable}
use mariadb_scylla_storage_e.Handler.Interference.{IsServing, execute_cql_serving}
use mariadb_scylla_storage_e.Handler.Reaching.{use_keyspace-connected}
use mariadb_scylla_storage_e.Handler.Dropping.{HasNames}
use mariadb_scylla_storage_e.Handler.Dialogue.{dialogue, sent-run_on}
use mariadb_scylla_storage_e.Handler.Sending.{Sends}

append_three {ℓ} :
    {A : Type ℓ} (xs : List A) (x y z : A)
    → ((xs ++ x ∷ []) ++ y ∷ []) ++ z ∷ [] ≡ xs ++ x ∷ y ∷ z ∷ []
append_three [] x y z = refl
append_three (a ∷ xs) x y z = ap (λ ys. a ∷ ys) (append_three xs x y z)

module _ (S : Server) (law : IsLawful S) (D : Driver) (journal : IsJournal D) (g : Globals) where
  open journal use {sent}

  abbrev pub says : State S D → Bytes → List Bytes
  says st cql = dialogue S law D journal st (cql ∷ [])

  -- The statements of `create`, under the names that the comment leaves.
  abbrev pub creation : Handler → Bytes → Table S → List Bytes
  creation h name form =
      Tables.create_keyspace_cql h.keyspace_name
      ∷ (codes "USE " ++ h.keyspace_name)
      ∷ build_create_table_cql S form h.keyspace_name (Tables.with_table_name h name).table_name
      ∷ []

  abbrev pub parsed : Result Handler → (Handler → List Bytes) → List Bytes
  parsed (ok h) f = f h
  parsed (throw e) f = []

  -- The statements that a call sends, in their order.
  abbrev pub script : State S D → Call S → List Bytes
  script st (Call.create name form comment) = parsed (parse_table_comment st.handler comment) (λ h.
      let h' = Tables.with_keyspace g h in
      dialogue S law D journal (record st { handler = h' }) (creation h' name form))
  script st (Call.open_table name) = parsed (parse_table_comment st.handler st.table.comment) (λ h.
      dialogue S law D journal
        (record st { handler = Tables.with_keyspace g (Tables.with_table_name h name) }) [])
  script st (Call.delete_table name) =
      says st (Tables.drop_cql (Tables.with_table_name st.handler name))
  script st Call.truncate =
      says st (codes "TRUNCATE " ++ full_name st.handler.keyspace_name st.handler.table_name)
  script st (Call.write_row buf) =
      says st
        (build_insert_cql S st.memory st.table buf st.handler.keyspace_name st.handler.table_name).0
  script st (Call.update_row old_data new_data) =
      says st
        (build_update_cql S st.memory st.table old_data new_data st.handler.keyspace_name
          st.handler.table_name).0
  script st (Call.delete_row buf) =
      says st
        (build_delete_cql S st.memory st.table buf st.handler.keyspace_name st.handler.table_name).0
  script st (Call.rnd_init scan) =
      if scan
      then says st
          (build_select_cql S st.table st.handler.keyspace_name st.handler.table_name true [])
      else []
  script st (Call.index_read_map buf key keypart_map) =
      let (where_clause, table) = build_where_from_key S st.memory st.table key keypart_map in
      says st
        (build_select_cql S table st.handler.keyspace_name st.handler.table_name true where_clause)
  script st _ = []

  -- The state after a call that returns has sent the statements.
  abbrev pub Wrote : State S D → List Bytes → Result (Code × State S D) → Type 0
  Wrote st body r = Holds (λ st'. sent st'.world ≡ sent st.world ++ body) r

  -- Storing a row sends nothing.
  pub Wrote-IsStable : (log : List Bytes) → IsStable S D (λ st. sent st.world ≡ log)
  Wrote-IsStable log = record { same = λ st st' _ e _ h. ap sent e ∙ h; back = λ st offset h. h }

  module _ (ledger : IsLedger D) where
    use_keyspace-session :
        (c : Connection) (w : D.World) (keyspace : Bytes)
        → (use_keyspace D c w keyspace).1.session ≡ c.session
    unfolding use_keyspace
    use_keyspace-session c w keyspace = ground arith

    use_on-IsServing :
        (st : State S D) (c : Connection)
        → IsServing st c
        → IsServing
            (Tables.use_on S D g (some c) st)
            (use_keyspace D c st.world st.handler.keyspace_name).1
    unfolding Tables.use_on
    use_on-IsServing st c s = (
      refl,
      use_keyspace-connected S D c st.world st.handler.keyspace_name ∙ s.1,
      use_keyspace-session c st.world st.handler.keyspace_name ∙ s.2,
    )

    sent-use_on :
        (st : State S D) (c : Connection)
        → IsServing st c
        → sent (Tables.use_on S D g (some c) st).world
          ≡ sent st.world ++ (codes "USE " ++ st.handler.keyspace_name) ∷ []
    unfolding Tables.use_on
    sent-use_on st c s =
        sent-use_keyspace D journal c st.world st.handler.keyspace_name (rw (s.1, s.2))

    -- A statement on a serving handler.
    pub sent-serving :
        (st : State S D) (c : Connection) (cql : Bytes)
        → IsServing st c
        → sent (execute_cql S D st cql).1.world ≡ sent st.world ++ cql ∷ []
    sent-serving st c cql s =
        ap (λ (p : Code × State S D). sent p.1.world) (execute_cql_serving S law D st c cql s)
        ∙ sent-run_on S law D journal ledger st c cql s

    sent-create_scylla_table :
        (st : State S D) (c : Connection) (name : Bytes) (form : Table S)
        → IsServing st c
        → sent (Tables.create_scylla_table S D g st name form).1.world
          ≡ sent st.world
            ++ build_create_table_cql S form st.handler.keyspace_name
                (Tables.with_table_name st.handler name).table_name
              ∷ []
    unfolding Tables.create_scylla_table
    sent-create_scylla_table st c name form s =
        sent-serving (record st { handler = Tables.with_table_name st.handler name }) c _ s

    creation_names :
        (h h' : Handler) (name : Bytes) (form : Table S)
        → h'.keyspace_name ≡ h.keyspace_name
        → h'.table_name ≡ h.table_name
        → creation h' name form ≡ creation h name form
    creation_names h h' name form keyspace table = λ i.
        Tables.create_keyspace_cql (keyspace i)
        ∷ (codes "USE " ++ keyspace i)
        ∷ build_create_table_cql S form (keyspace i)
            (if is_empty (table i) then Tables.base_name name else table i)
        ∷ []

    -- The state after CREATE KEYSPACE and USE.
    create_rest :
        (st st1 : State S D) (c : Connection) (name : Bytes) (form : Table S)
        → IsServing st1 c
        → HasNames S D st.handler st1.handler
        → sent st1.world ≡ sent st.world ++ Tables.create_keyspace_cql st.handler.keyspace_name ∷ []
        → sent
            (Tables.create_scylla_table S D g
              (Tables.use_on S D g st1.handler.conn st1)
              name
              form).1.world
          ≡ sent st.world ++ creation st.handler name form
    unfolding Tables.use_on
    create_rest st st1 c name form s (keyspace, table) e =
        let st2 = Tables.use_on S D g (some c) st1 in
        let c' = (use_keyspace D c st1.world st1.handler.keyspace_name).1 in
        let statement =
          build_create_table_cql S form st1.handler.keyspace_name
            (Tables.with_table_name st1.handler name).table_name in
        ap
          (λ o.
            sent (Tables.create_scylla_table S D g (Tables.use_on S D g o st1) name form).1.world)
          s.0
        ∙ (sent-create_scylla_table st2 c' name form (use_on-IsServing st1 c s)
            ∙ (ap (λ log. log ++ statement ∷ []) (sent-use_on st1 c s)
                ∙ (ap
                      (λ log.
                        (log ++ (codes "USE " ++ st1.handler.keyspace_name) ∷ []) ++ statement ∷ [])
                      e
                    ∙ (append_three (sent st.world) _ _ _ ∙ (λ i.
                        sent st.world
                        ++ Tables.create_keyspace_cql st.handler.keyspace_name
                          ∷ (codes "USE " ++ keyspace i)
                          ∷ build_create_table_cql S form (keyspace i)
                              (if is_empty (table i) then Tables.base_name name else table i)
                          ∷ [])))))

    -- `create` once it is connected.
    pub create_connected-Sends :
        (h : Handler) (name : Bytes) (form : Table S)
        → Sends S law D journal ledger h
            (Tables.create_connected S D g name form)
            (creation h name form)
    unfolding Tables.create_connected run_on
    create_connected-Sends h name form st c s (keyspace, table) =
        let cql = Tables.create_keyspace_cql st.handler.keyspace_name in
        ap
          (λ (p : Code × State S D).
            sent
              (Tables.create_scylla_table S D g (Tables.use_on S D g p.1.handler.conn p.1) name
                form).1.world)
          (execute_cql_serving S law D st c cql s)
        ∙ (create_rest st (run_on S D (some c) st cql).1 c name form s (refl, refl)
              (sent-run_on S law D journal ledger st c cql s)
            ∙ ap (λ log. sent st.world ++ log)
                (creation_names h st.handler name form keyspace table))
