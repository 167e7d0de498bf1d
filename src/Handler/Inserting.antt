-- ===== src/Handler/Inserting.antt =====
-- `write_row`, then a scan of the table with one row in the answer.
use mariadb_scylla_storage_e.Prelude.{some, [], ◌∷◌, ◌++◌, map, ◌≡◌}
use mariadb_scylla_storage_e.Prelude.Int.{ℤ}
use mariadb_scylla_storage_e.Prelude.Text.{Bytes, codes}
use mariadb_scylla_storage_e.Numerals.{Result, ok}
use mariadb_scylla_storage_e.Server.{Server, IsLawful}
use mariadb_scylla_storage_e.Query.Shape.{join, cell}
use mariadb_scylla_storage_e.Query.Statements.{full_name}
use mariadb_scylla_storage_e.Connection.Driver.{Driver, done}
use mariadb_scylla_storage_e.Connection.Session.{Connection}
use mariadb_scylla_storage_e.Handler.State.{Code, success, State}
use mariadb_scylla_storage_e.Handler.FullScan.{Answer, texts, scan_cql}
use mariadb_scylla_storage_e.Handler.Columns.{Columns, names_of, texts_of, IsDistinct}

module _ (S : Server) (law : IsLawful S) (D : Driver) where
  -- The cluster answers the SELECT of a scan with one row of these columns.
  abbrev pub AnswersWith : State S D → Answer S law D → Columns → Type 0
  AnswersWith st result cols =
      ((D.session_execute (D.statement_new st.world (scan_cql S law D st)) (scan_cql S law D st)).0
        ≡ done (some result))
      × (result.columns ≡ names_of cols)
      × (texts S law D result ≡ texts_of cols ∷ [])
      × IsDistinct cols

  -- The call returns 0, with this memory.
  abbrev pub Returns : Result (Code × State S D) → S.Memory → Type 0
  Returns r m = (st : State S D) × (r ≡ ok (success, st)) × (st.memory ≡ m)

  abbrev pub insert_text : State S D → ℤ → Bytes
  insert_text st buf =
      codes "INSERT INTO "
      ++ (full_name st.handler.keyspace_name st.handler.table_name
          ++ (codes " ("
              ++ (join (codes ", ") (map S.field_name st.table.field)
                  ++ (codes ") VALUES ("
                      ++ (join (codes ", ")
                            (map (cell S st.memory st.table.record0 buf) st.table.field)
                          ++ codes ")")))))
