-- ===== src/Handler/Reconnect.antt =====
-- What `connect_to_scylla` establishes, and the statements that depend on it.
use mariadb_scylla_storage_e.Prelude.{
  ℕ, ◌+◌, Bool, true, false, Option, none, some, ◌≡◌, refl, ◌∙◌, arith, if◌then◌else◌, Bool-cases,
  inl, inr,
}
use mariadb_scylla_storage_e.Prelude.Text.{Bytes, is_empty}
use mariadb_scylla_storage_e.Server.{Server}
use mariadb_scylla_storage_e.Connection.Driver.{Driver, IsLedger}
use mariadb_scylla_storage_e.Connection.Session.{Connection, new_connection, connect}
use mariadb_scylla_storage_e.Connection.Resources.{
  IsConsistent, held, connect-IsConsistent, cleanup-IsConsistent,
}
use mariadb_scylla_storage_e.Connection.Ledger.{live-execute, live-use_keyspace, held-use_keyspace}
use mariadb_scylla_storage_e.Handler.State.{
  Handler, Code, success, end_of_file, key_not_found, no_connection, generic, wrong_command, State,
}
use mariadb_scylla_storage_e.Handler.Cql.{
  is_online, destroy, select_keyspace, settle, connect_to_scylla, run_on, on_success, execute_cql,
}

module _ (S : Server) (D : Driver) (ledger : IsLedger D) where
  open ledger use {live}

  abbrev pub held_by : Option Connection → ℕ
  held_by none = 0
  held_by (some c) = held c

  abbrev pub IsSound : Option Connection → Type 0
  IsSound none = Unit
  IsSound (some c) = IsConsistent c

  -- The connection of the handler is consistent, and the objects that the driver counts are those
  -- that it holds and `others`.
  pub record IsAccounted (others : ℕ) (st : State S D) : Type 0 where
    pub sound : IsSound st.handler.conn
    pub counted : live st.world ≡ others + held_by st.handler.conn

  -- What an attempt to go online leaves.
  abbrev pub IsReady : ℕ → Code × State S D → Type 0
  IsReady others r =
      IsAccounted others r.1
      × (r.0 ≡ (if is_online S D r.1.handler.conn then success else no_connection))

  select_keyspace-IsConsistent :
      (keyspace : Bytes) (c : Connection) (w : D.World) (others : ℕ)
      → IsConsistent c
      → c.connected ≡ true
      → live w ≡ others + held c
      → IsConsistent (select_keyspace S D keyspace (c, w)).0
        × ((select_keyspace S D keyspace (c, w)).0.connected ≡ true)
        × (live (select_keyspace S D keyspace (c, w)).1
            ≡ others + held (select_keyspace S D keyspace (c, w)).0)
  unfolding select_keyspace
  select_keyspace-IsConsistent keyspace c w others v online h =
      elim (Bool-cases (is_empty keyspace)) [
        | inl e ↦ rw (e, select_keyspace) (v, online, h)
        | inr e ↦
            let (v', online', same) = held-use_keyspace D ledger c w keyspace v online in
            rw (e, select_keyspace)
              (v', online', omega (arith, live-use_keyspace D ledger c w keyspace))
      ]

  settle-IsReady :
      (st : State S D) (h : Handler) (r : Bool × Connection × D.World) (others : ℕ)
      → IsConsistent r.1
      → r.1.connected ≡ r.0
      → live r.2 ≡ others + held r.1
      → IsReady others (settle S D st h r)
  unfolding settle
  settle-IsReady st h (false, c, w) others v e n = (record { sound = v; counted = n }, rw e)
  settle-IsReady st h (true, c, w) others v e n =
      let (v', e', n') = select_keyspace-IsConsistent h.keyspace_name c w others v e n in
      (record { sound = v'; counted = n' }, rw e')

  pub live-destroy :
      (c : Option Connection) (w : D.World) (others : ℕ)
      → live w ≡ others + held_by c
      → live (destroy S D c w) ≡ others
  unfolding destroy
  live-destroy none w others h = omega arith
  live-destroy (some c) w others h = (cleanup-IsConsistent D ledger c w others h).2

  attempt-IsReady :
      (st : State S D) (h : Handler) (w : D.World) (others : ℕ)
      → live w ≡ others
      → IsReady others (settle S D st h (connect D new_connection w h.scylla_hosts h.scylla_port))
  unfolding new_connection
  attempt-IsReady st h w others n =
      let fresh =
        connect-IsConsistent D ledger new_connection w h.scylla_hosts h.scylla_port others
          (record { cluster_if = refl; session_if = refl }) (omega arith) in
      settle-IsReady st h (connect D new_connection w h.scylla_hosts h.scylla_port) others fresh.0
        fresh.1 fresh.2

  -- `connect_to_scylla` answers 0 exactly when the handler is connected after it, and else that there
  -- is no connection; on every path the connection it leaves is consistent, and the one that it
  -- replaces has given back all its driver objects.
  pub connect_to_scylla-IsReady :
      (st : State S D) (others : ℕ)
      → IsAccounted others st
      → IsReady others (connect_to_scylla S D st)
  unfolding connect_to_scylla
  connect_to_scylla-IsReady st others a = elim (Bool-cases (is_online S D st.handler.conn)) [
    | inl e ↦ rw (e, connect_to_scylla) (a, rw e)
    | inr e ↦
        rw (e, connect_to_scylla)
          (attempt-IsReady st _ _ others (live-destroy st.handler.conn st.world others a.counted))
  ]

  run_on-IsAccounted :
      (c : Option Connection) (st : State S D) (cql : Bytes) (others : ℕ)
      → st.handler.conn ≡ c
      → IsAccounted others st
      → IsAccounted others (run_on S D c st cql).1
  unfolding run_on
  run_on-IsAccounted none st cql others e a = a
  run_on-IsAccounted (some c) st cql others e a = record {
    sound = a.sound;
    counted =
        live-execute D ledger c st.world cql st.handler.column_names st.handler.result_set
        ∙ a.counted;
  }

  -- The same is kept by `execute_cql`, whichever of its steps fails.
  pub execute_cql-IsAccounted :
      (st : State S D) (cql : Bytes) (others : ℕ)
      → IsAccounted others st
      → IsAccounted others (execute_cql S D st cql).1
  unfolding execute_cql on_success
  execute_cql-IsAccounted st cql others a =
      go (connect_to_scylla S D st) (connect_to_scylla-IsReady st others a).0
    where
      go :
          (r : Code × State S D)
          → IsAccounted others r.1
          → IsAccounted others (on_success S D r (λ st'. run_on S D st'.handler.conn st' cql)).1
      go (success, st') b = run_on-IsAccounted st'.handler.conn st' cql others refl b
      go (end_of_file, st') b = b
      go (key_not_found, st') b = b
      go (no_connection, st') b = b
      go (generic, st') b = b
      go (wrong_command, st') b = b
