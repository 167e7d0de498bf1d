-- ===== src/Handler/Reaching.antt =====
-- When `connect_to_scylla` succeeds.
use mariadb_scylla_storage_e.Prelude.{
  ◌&&◌, ◌||◌, Bool, true, false, ◌≡◌, ◌∙◌, refl, ap, arith, Bool-cases, inl, inr, if◌then◌else◌,
}
use mariadb_scylla_storage_e.Prelude.Text.{Bytes, codes, is_empty}
use mariadb_scylla_storage_e.Server.{Server}
use mariadb_scylla_storage_e.Connection.Driver.{Driver, ClusterConfig}
use mariadb_scylla_storage_e.Connection.Session.{
  Connection, new_connection, configured, await_session, open_session, open_cluster, connect,
  use_keyspace,
}
use mariadb_scylla_storage_e.Handler.State.{Handler, success, no_connection, State}
use mariadb_scylla_storage_e.Handler.Cql.{
  is_online, destroy, select_keyspace, settle, connect_to_scylla,
}

module _ (S : Server) (D : Driver) where
  -- The answers of the driver to an attempt to connect: whether it makes a cluster object, a session
  -- object and the session.
  abbrev pub accepted : ClusterConfig → D.World → Bool
  accepted config w =
      let (made, w1) = D.cluster_new w in
      let (begun, w2) = D.session_new w1 in made && (begun && (D.session_connect w2 config).0)

  abbrev pub hosts_of : Handler → Bytes
  hosts_of h = if is_empty h.scylla_hosts then codes "127.0.0.1" else h.scylla_hosts

  -- The handler is connected, or an attempt to connect now succeeds.
  abbrev pub reaches : State S D → Bool
  reaches st =
      is_online S D st.handler.conn
      || accepted (configured (hosts_of st.handler) st.handler.scylla_port)
          (destroy S D st.handler.conn st.world)

  pub open_cluster-accepted :
      (c : Connection) (config : ClusterConfig) (w : D.World)
      → (open_cluster D c config (D.cluster_new w)).0 ≡ accepted config w
  unfolding open_cluster open_session await_session
  open_cluster-accepted c config w = go (D.cluster_new w)
    where
      third : (r : Bool × D.World) → (await_session D c config r).0 ≡ r.0
      third (true, w') = refl
      third (false, w') = refl

      second :
          (r : Bool × D.World)
          → (open_session D c config r).0 ≡ (r.0 && (D.session_connect r.1 config).0)
      second (true, w') = third (D.session_connect w' config)
      second (false, w') = refl

      go :
          (r : Bool × D.World)
          → (open_cluster D c config r).0
            ≡ (r.0 && ((D.session_new r.1).0 && (D.session_connect (D.session_new r.1).1 config).0))
      go (true, w') = second (D.session_new w')
      go (false, w') = refl

  settle_code :
      (st : State S D) (h : Handler) (r : Bool × Connection × D.World)
      → (settle S D st h r).0 ≡ (if r.0 then success else no_connection)
  unfolding settle
  settle_code st h (true, c, w) = refl
  settle_code st h (false, c, w) = refl

  settle_memory :
      (st : State S D) (h : Handler) (r : Bool × Connection × D.World)
      → (settle S D st h r).1.memory ≡ st.memory
  unfolding settle
  settle_memory st h (true, c, w) = refl
  settle_memory st h (false, c, w) = refl

  pub connect_to_scylla-reaches :
      (st : State S D)
      → ((connect_to_scylla S D st).0 ≡ (if reaches st then success else no_connection))
        × ((connect_to_scylla S D st).1.memory ≡ st.memory)
  unfolding connect_to_scylla connect new_connection
  connect_to_scylla-reaches st = elim (Bool-cases (is_online S D st.handler.conn)) [
    | inl e ↦ (rw (e, connect_to_scylla), rw (e, connect_to_scylla))
    | inr e ↦ (
      rw (e, connect_to_scylla)
          (settle_code st _ _
            ∙ ap (λ (b : Bool). if b then success else no_connection)
                (open_cluster-accepted _ _ _)),
      rw (e, connect_to_scylla) (settle_memory st _ _),
    )
  ]

  pub use_keyspace-connected :
      (c : Connection) (w : D.World) (keyspace : Bytes)
      → (use_keyspace D c w keyspace).1.connected ≡ c.connected
  unfolding use_keyspace
  use_keyspace-connected c w keyspace = ground arith

  select_keyspace-connected :
      (keyspace : Bytes) (c : Connection) (w : D.World)
      → (select_keyspace S D keyspace (c, w)).0.connected ≡ c.connected
  unfolding select_keyspace
  select_keyspace-connected keyspace c w = elim (Bool-cases (is_empty keyspace)) [
    | inl e ↦ rw (e, select_keyspace)
    | inr e ↦ rw (e, select_keyspace) (use_keyspace-connected c w keyspace)
  ]

  settle-online :
      (st : State S D) (h : Handler) (r : Bool × Connection × D.World)
      → r.1.connected ≡ r.0
      → is_online S D (settle S D st h r).1.handler.conn ≡ r.0
  unfolding settle
  settle-online st h (true, c, w) e = select_keyspace-connected h.keyspace_name c w ∙ e
  settle-online st h (false, c, w) e = e

  open_cluster-connected :
      (c : Connection) (config : ClusterConfig) (r : Bool × D.World)
      → c.connected ≡ false
      → (open_cluster D c config r).1.connected ≡ (open_cluster D c config r).0
  unfolding open_cluster open_session await_session
  open_cluster-connected c config (false, w) e = e
  open_cluster-connected c config (true, w) e = second (D.session_new w)
    where
      third :
          (r : Bool × D.World)
          → (await_session D c config r).1.connected ≡ (await_session D c config r).0
      third (true, w') = refl
      third (false, w') = e

      second :
          (r : Bool × D.World)
          → (open_session D c config r).1.connected ≡ (open_session D c config r).0
      second (true, w') = third (D.session_connect w' config)
      second (false, w') = e

  pub connect-online :
      (st : State S D)
      → reaches st ≡ true
      → is_online S D (connect_to_scylla S D st).1.handler.conn ≡ true
  unfolding connect_to_scylla connect new_connection
  connect-online st h = elim (Bool-cases (is_online S D st.handler.conn)) [
    | inl e ↦ rw (e, connect_to_scylla) e
    | inr e ↦
        rw (e, connect_to_scylla)
          (settle-online st _ _ (open_cluster-connected _ _ _ refl)
            ∙ (open_cluster-accepted _ _ _ ∙ (rw e at h)))
  ]
