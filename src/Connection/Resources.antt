-- ===== src/Connection/Resources.antt =====
-- The driver's objects that a connection holds, before and after each method.
use mariadb_scylla_storage_e.Prelude.{
  ℕ, ◌+◌, Bool, true, false, Option, none, some, ◌≡◌, refl, arith, Bool-cases, inl, inr,
}
use mariadb_scylla_storage_e.Prelude.Int.{ℤ}
use mariadb_scylla_storage_e.Prelude.Text.{Bytes}
use mariadb_scylla_storage_e.Connection.Driver.{Driver, IsLedger, ClusterConfig}
use mariadb_scylla_storage_e.Connection.Session.{
  Connection, is_some, cleanup, configured, await_session, open_session, open_cluster, connect,
  close_session, free_cluster,
}

abbrev count : Bool → ℕ
count true = 1
count false = 0

-- The number of driver objects that the connection's pointers hold.
abbrev pub held : Connection → ℕ
held c = count (is_some c.cluster) + count c.session

-- A connected connection has both objects, and one that is not has neither.
pub record IsConsistent (c : Connection) : Type 0 where
  pub cluster_if : is_some c.cluster ≡ c.connected
  pub session_if : c.session ≡ c.connected

module _ (D : Driver) (ledger : IsLedger D) where
  open ledger use {live}

  -- What an attempt to connect leaves: its answer, the connection and the world.
  abbrev IsSettled : ℕ → Bool × Connection × D.World → Type 0
  IsSettled others r = IsConsistent r.1 × (r.1.connected ≡ r.0) × (live r.2 ≡ others + held r.1)

  await_session-IsSettled :
      (c : Connection) (config : ClusterConfig) (r : Bool × D.World) (others : ℕ)
      → c.connected ≡ false
      → live r.1 ≡ others + 3
      → IsSettled others (await_session D c config r)
  unfolding await_session
  await_session-IsSettled c config (true, w) others e h = (
    record { cluster_if = refl; session_if = refl },
    refl,
    omega (arith, ledger.live-future_free w),
  )
  await_session-IsSettled c config (false, w) others e h = (
    record { cluster_if = rw e; session_if = rw e },
    e,
    omega (
      arith,
      ledger.live-future_free w,
      ledger.live-session_free (D.future_free w),
      ledger.live-cluster_free (D.session_free (D.future_free w)),
    ),
  )

  open_session-IsSettled :
      (c : Connection) (config : ClusterConfig) (r : Bool × D.World) (others : ℕ)
      → c.connected ≡ false
      → live r.1 ≡ others + 1 + count r.0
      → IsSettled others (open_session D c config r)
  unfolding open_session
  open_session-IsSettled c config (true, w) others e h =
      await_session-IsSettled c config (D.session_connect w config) others e
        (omega (arith, ledger.live-session_connect w config))
  open_session-IsSettled c config (false, w) others e h = (
    record { cluster_if = rw e; session_if = rw e },
    e,
    omega (arith, ledger.live-cluster_free w),
  )

  open_cluster-IsSettled :
      (c : Connection) (config : ClusterConfig) (r : Bool × D.World) (others : ℕ)
      → IsConsistent c
      → c.connected ≡ false
      → live r.1 ≡ others + count r.0
      → IsSettled others (open_cluster D c config r)
  unfolding open_cluster
  open_cluster-IsSettled c config (true, w) others v e h =
      open_session-IsSettled c config (D.session_new w) others e
        (ground (arith, ledger.live-session_new w))
  open_cluster-IsSettled c config (false, w) others v e h =
      (record { cluster_if = rw e; session_if = v.session_if }, e, ground arith)

  -- `connect` keeps a connection consistent on every path, is true exactly when the connection is
  -- connected after it, and the objects that the driver counts change by those that the connection
  -- holds: a failed attempt leaks nothing.
  pub connect-IsConsistent :
      (c : Connection) (w : D.World) (hosts : Bytes) (port : ℤ) (others : ℕ)
      → IsConsistent c
      → live w ≡ others + held c
      → IsConsistent (connect D c w hosts port).1
        × ((connect D c w hosts port).1.connected ≡ (connect D c w hosts port).0)
        × (live (connect D c w hosts port).2 ≡ others + held (connect D c w hosts port).1)
  unfolding connect
  connect-IsConsistent c w hosts port others v h = elim (Bool-cases c.connected) [
    | inl e ↦ rw (e, connect) (v, e, h)
    | inr e ↦
        rw (e, connect)
          (open_cluster-IsSettled c (configured hosts port) (D.cluster_new w) others v e
            (ground (arith, ledger.live-cluster_new w)))
  ]

  live-close_session :
      (b : Bool) (w : D.World) (n : ℕ) → live w ≡ n + count b → live (close_session D b w) ≡ n
  unfolding close_session
  live-close_session false w n h = omega arith
  live-close_session true w n h = omega (
    arith,
    ledger.live-session_close w,
    ledger.live-future_free (D.session_close w),
    ledger.live-session_free (D.future_free (D.session_close w)),
  )

  live-free_cluster :
      (c : Option ClusterConfig) (w : D.World) (n : ℕ)
      → live w ≡ n + count (is_some c)
      → live (free_cluster D c w) ≡ n
  unfolding free_cluster
  live-free_cluster none w n h = omega arith
  live-free_cluster (some _) w n h = omega (arith, ledger.live-cluster_free w)

  -- `cleanup` frees exactly the objects that the connection holds and leaves it consistent and
  -- holding none, in whatever state it was.
  pub cleanup-IsConsistent :
      (c : Connection) (w : D.World) (others : ℕ)
      → live w ≡ others + held c
      → IsConsistent (cleanup D c w).0
        × (held (cleanup D c w).0 ≡ 0)
        × (live (cleanup D c w).1 ≡ others)
  unfolding cleanup
  cleanup-IsConsistent c w others h = (record { cluster_if = refl; session_if = refl }, refl, freed)
    where
      freed : live (cleanup D c w).1 ≡ others
      freed =
          live-free_cluster c.cluster (close_session D c.session w) others
            (live-close_session c.session w (others + count (is_some c.cluster)) (omega arith))
