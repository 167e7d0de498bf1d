-- ===== src/Connection/Journal.antt =====
-- The statements that the driver sends, in their order, and those that the methods of a connection
-- send.
use mariadb_scylla_storage_e.Prelude.{
  Bool, true, false, Option, none, some, List, [], ◌∷◌, ◌++◌, ◌≡◌, ◌∙◌, refl, Bool-cases, inl, inr,
}
use mariadb_scylla_storage_e.Prelude.Int.{ℤ}
use mariadb_scylla_storage_e.Prelude.Text.{Bytes, codes}
use mariadb_scylla_storage_e.Connection.Driver.{Driver, ClusterConfig, Response, failed, done}
use mariadb_scylla_storage_e.Connection.Session.{
  Connection, Rows, configured, close_session, free_cluster, cleanup, await_session, open_session,
  open_cluster, connect, is_closed, use_keyspace, take_response, execute,
}

-- A driver sends a statement when it executes one, and at no other call.
pub record IsJournal (D : Driver) : Type 0 where
  pub sent : D.World → List Bytes
  pub sent-session_execute :
      (w : D.World) (cql : Bytes) → sent (D.session_execute w cql).1 ≡ sent w ++ cql ∷ []
  pub sent-cluster_new : (w : D.World) → sent (D.cluster_new w).1 ≡ sent w
  pub sent-cluster_free : (w : D.World) → sent (D.cluster_free w) ≡ sent w
  pub sent-session_new : (w : D.World) → sent (D.session_new w).1 ≡ sent w
  pub sent-session_free : (w : D.World) → sent (D.session_free w) ≡ sent w
  pub sent-session_connect :
      (w : D.World) (c : ClusterConfig) → sent (D.session_connect w c).1 ≡ sent w
  pub sent-session_close : (w : D.World) → sent (D.session_close w) ≡ sent w
  pub sent-statement_new : (w : D.World) (cql : Bytes) → sent (D.statement_new w cql) ≡ sent w
  pub sent-statement_free : (w : D.World) → sent (D.statement_free w) ≡ sent w
  pub sent-future_free : (w : D.World) → sent (D.future_free w) ≡ sent w
  pub sent-get_result : (w : D.World) → sent (D.get_result w) ≡ sent w
  pub sent-result_free : (w : D.World) → sent (D.result_free w) ≡ sent w
  pub sent-iterator_new : (w : D.World) → sent (D.iterator_new w) ≡ sent w
  pub sent-iterator_free : (w : D.World) → sent (D.iterator_free w) ≡ sent w

module _ (D : Driver) (journal : IsJournal D) where
  open journal use {sent}

  sent-take_response :
      (r : Response D.Real D.Uuid D.Inet × D.World) → sent (take_response D r).3 ≡ sent r.1
  unfolding take_response
  sent-take_response (failed, w) = rw (journal.sent-statement_free, journal.sent-future_free)
  sent-take_response (done none, w) = rw (journal.sent-statement_free, journal.sent-future_free)
  sent-take_response (done (some result), w) = rw (
    journal.sent-statement_free, journal.sent-future_free, journal.sent-result_free,
    journal.sent-iterator_free, journal.sent-iterator_new, journal.sent-get_result,
  )

  statement_sent :
      (w : D.World) (cql : Bytes)
      → sent (D.session_execute (D.statement_new w cql) cql).1 ≡ sent w ++ cql ∷ []
  statement_sent w cql = rw (journal.sent-session_execute, journal.sent-statement_new)

  -- `execute` and `use_keyspace` on an open connection send one statement.
  pub sent-execute :
      (c : Connection) (w : D.World) (cql : Bytes) (names : List Bytes) (rows : Rows)
      → is_closed D c ≡ false
      → sent (execute D c w cql names rows).3 ≡ sent w ++ cql ∷ []
  unfolding execute
  sent-execute c w cql names rows e =
      rw (e, execute)
        (sent-take_response (D.session_execute (D.statement_new w cql) cql) ∙ statement_sent w cql)

  pub sent-use_keyspace :
      (c : Connection) (w : D.World) (keyspace : Bytes)
      → is_closed D c ≡ false
      → sent (use_keyspace D c w keyspace).2 ≡ sent w ++ (codes "USE " ++ keyspace) ∷ []
  unfolding use_keyspace
  sent-use_keyspace c w keyspace e =
      rw (e, use_keyspace)
        (rw (journal.sent-statement_free, journal.sent-future_free)
          (statement_sent w (codes "USE " ++ keyspace)))

  sent-close_session : (b : Bool) (w : D.World) → sent (close_session D b w) ≡ sent w
  unfolding close_session
  sent-close_session false w = refl
  sent-close_session true w =
      rw (journal.sent-session_free, journal.sent-future_free, journal.sent-session_close)

  sent-free_cluster : (c : Option ClusterConfig) (w : D.World) → sent (free_cluster D c w) ≡ sent w
  unfolding free_cluster
  sent-free_cluster none w = refl
  sent-free_cluster (some _) w = journal.sent-cluster_free w

  -- `cleanup` and `connect` send none.
  pub sent-cleanup : (c : Connection) (w : D.World) → sent (cleanup D c w).1 ≡ sent w
  unfolding cleanup
  sent-cleanup c w =
      sent-free_cluster c.cluster (close_session D c.session w) ∙ sent-close_session c.session w

  sent-await_session :
      (c : Connection) (config : ClusterConfig) (r : Bool × D.World)
      → sent (await_session D c config r).2 ≡ sent r.1
  unfolding await_session
  sent-await_session c config (true, w) = journal.sent-future_free w
  sent-await_session c config (false, w) =
      rw (journal.sent-cluster_free, journal.sent-session_free, journal.sent-future_free)

  sent-open_session :
      (c : Connection) (config : ClusterConfig) (r : Bool × D.World)
      → sent (open_session D c config r).2 ≡ sent r.1
  unfolding open_session
  sent-open_session c config (true, w) =
      sent-await_session c config (D.session_connect w config)
      ∙ journal.sent-session_connect w config
  sent-open_session c config (false, w) = journal.sent-cluster_free w

  sent-open_cluster :
      (c : Connection) (config : ClusterConfig) (r : Bool × D.World)
      → sent (open_cluster D c config r).2 ≡ sent r.1
  unfolding open_cluster
  sent-open_cluster c config (true, w) =
      sent-open_session c config (D.session_new w) ∙ journal.sent-session_new w
  sent-open_cluster c config (false, w) = refl

  pub sent-connect :
      (c : Connection) (w : D.World) (hosts : Bytes) (port : ℤ)
      → sent (connect D c w hosts port).2 ≡ sent w
  unfolding connect
  sent-connect c w hosts port = elim (Bool-cases c.connected) [
    | inl e ↦ rw (e, connect)
    | inr e ↦
        rw (e, connect)
          (sent-open_cluster c (configured hosts port) (D.cluster_new w)
            ∙ journal.sent-cluster_new w)
  ]
