-- ===== src/Handler/Dialogue.antt =====
-- The statements that connecting and sending a statement bring about.
use mariadb_scylla_storage_e.Prelude.{
  Bool, true, false, Option, none, some, List, [], ◌∷◌, ◌++◌, append-nil, ◌≡◌, ◌∙◌, refl, sym, ap,
  ap₂, arith, Bool-cases, inl, inr, if◌then◌else◌,
}
use mariadb_scylla_storage_e.Prelude.Text.{Bytes, codes, is_empty}
use mariadb_scylla_storage_e.Server.{Server, IsLawful}
use mariadb_scylla_storage_e.Connection.Driver.{Driver, IsLedger}
use mariadb_scylla_storage_e.Connection.Session.{
  Connection, new_connection, configured, connect, is_closed,
}
use mariadb_scylla_storage_e.Connection.Resources.{IsConsistent, connect-IsConsistent}
use mariadb_scylla_storage_e.Connection.Journal.{
  IsJournal, sent-execute, sent-use_keyspace, sent-cleanup, sent-connect,
}
use mariadb_scylla_storage_e.Handler.State.{Handler, State}
use mariadb_scylla_storage_e.Handler.Cql.{
  is_online, destroy, select_keyspace, settle, connect_to_scylla, run_on,
}
use mariadb_scylla_storage_e.Handler.Interference.{IsServing}
use mariadb_scylla_storage_e.Handler.Reconnect.{IsSound}
use mariadb_scylla_storage_e.Handler.Reaching.{reaches, accepted, hosts_of, open_cluster-accepted}

module _ (S : Server) (law : IsLawful S) (D : Driver) (journal : IsJournal D) where
  open journal use {sent}

  -- What a new connection sends.
  abbrev pub greeting : Bytes → List Bytes
  greeting keyspace = if is_empty keyspace then [] else (codes "USE " ++ keyspace) ∷ []

  -- What is sent for statements of a call: nothing if the cluster cannot be reached, and else the
  -- statements, behind a greeting if the handler was not connected.
  abbrev pub exchange : Bool → Bool → Bytes → List Bytes → List Bytes
  exchange reached online keyspace body =
      if reached then (if online then body else greeting keyspace ++ body) else []

  abbrev pub dialogue : State S D → List Bytes → List Bytes
  dialogue st body =
      exchange (reaches S D st) (is_online S D st.handler.conn) st.handler.keyspace_name body

  pub exchange_known :
      (reached online b c : Bool) (keyspace : Bytes) (body : List Bytes)
      → reached ≡ b
      → online ≡ c
      → exchange b c keyspace body ≡ exchange reached online keyspace body
  exchange_known reached online b c keyspace body e f = rw (e, f) refl

  sent-select_keyspace :
      (keyspace : Bytes) (c : Connection) (w : D.World)
      → is_closed D c ≡ false
      → sent (select_keyspace S D keyspace (c, w)).1 ≡ sent w ++ greeting keyspace
  unfolding select_keyspace
  sent-select_keyspace keyspace c w e = elim (Bool-cases (is_empty keyspace)) [
    | inl k ↦ rw (k, select_keyspace) (sym (append-nil (sent w)))
    | inr k ↦ rw (k, select_keyspace) (sent-use_keyspace D journal c w keyspace e)
  ]

  sent-settle :
      (st : State S D) (h : Handler) (r : Bool × Connection × D.World)
      → IsConsistent r.1
      → r.1.connected ≡ r.0
      → sent (settle S D st h r).1.world
        ≡ sent r.2 ++ (if r.0 then greeting h.keyspace_name else [])
  unfolding settle
  sent-settle st h (false, c, w) v e = sym (append-nil (sent w))
  sent-settle st h (true, c, w) v e =
      sent-select_keyspace h.keyspace_name c w (rw (v.session_if, e))

  sent-destroy : (c : Option Connection) (w : D.World) → sent (destroy S D c w) ≡ sent w
  unfolding destroy
  sent-destroy none w = refl
  sent-destroy (some c) w = sent-cleanup D journal c w

  module _ (ledger : IsLedger D) where
    -- The new connection of an attempt.
    attempt_sent :
        (st : State S D) (h : Handler) (w : D.World)
        → sent (settle S D st h (connect D new_connection w h.scylla_hosts h.scylla_port)).1.world
          ≡ sent w
            ++ (if accepted S D (configured h.scylla_hosts h.scylla_port) w
                then greeting h.keyspace_name
                else [])
    unfolding new_connection connect
    attempt_sent st h w =
        let (sound, online, _) =
          connect-IsConsistent D ledger new_connection w h.scylla_hosts h.scylla_port
            (ledger.live w) (record { cluster_if = refl; session_if = refl }) (omega arith) in
        sent-settle st h (connect D new_connection w h.scylla_hosts h.scylla_port) sound online
        ∙ ap₂ (λ (log : List Bytes) (b : Bool). log ++ (if b then greeting h.keyspace_name else []))
            (sent-connect D journal new_connection w h.scylla_hosts h.scylla_port)
            (open_cluster-accepted S D new_connection (configured h.scylla_hosts h.scylla_port) w)

    pub sent-connect_offline :
        (st : State S D)
        → is_online S D st.handler.conn ≡ false
        → sent (connect_to_scylla S D st).1.world
          ≡ sent st.world ++ (if reaches S D st then greeting st.handler.keyspace_name else [])
    unfolding connect_to_scylla
    sent-connect_offline st e =
        rw (e, connect_to_scylla)
          (attempt_sent st _ (destroy S D st.handler.conn st.world)
            ∙ ap
                (λ log.
                  log
                  ++ (if accepted S D (configured (hosts_of S D st.handler) st.handler.scylla_port)
                        (destroy S D st.handler.conn st.world)
                      then greeting st.handler.keyspace_name
                      else []))
                (sent-destroy st.handler.conn st.world))

    -- A sound handler that is online serves.
    pub IsServing-of :
        (st : State S D) (o : Option Connection)
        → st.handler.conn ≡ o
        → IsSound S D ledger o
        → is_online S D o ≡ true
        → (c : Connection) × IsServing st c
    IsServing-of st none e v online = cc
    IsServing-of st (some c) e v online = (c, (e, online, v.session_if ∙ online))

    pub sent-run_on :
        (st : State S D) (c : Connection) (cql : Bytes)
        → IsServing st c
        → sent (run_on S D (some c) st cql).1.world ≡ sent st.world ++ cql ∷ []
    unfolding run_on
    sent-run_on st c cql s =
        sent-execute D journal c st.world cql st.handler.column_names st.handler.result_set
          (rw (s.1, s.2))
