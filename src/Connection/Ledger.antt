-- ===== src/Connection/Ledger.antt =====
-- The driver's objects before and after a statement, and the connection after `use_keyspace`.
use mariadb_scylla_storage_e.Prelude.{
  ℕ, ◌+◌, Bool, true, false, none, some, List, ◌≡◌, refl, arith, ◌++◌, if◌then◌else◌, Bool-cases,
  inl, inr,
}
use mariadb_scylla_storage_e.Prelude.Text.{Bytes, codes}
use mariadb_scylla_storage_e.Connection.Driver.{Driver, IsLedger, Response, failed, done}
use mariadb_scylla_storage_e.Connection.Session.{
  Connection, Rows, take_response, is_closed, use_keyspace, succeeded, execute,
}
use mariadb_scylla_storage_e.Connection.Resources.{held, IsConsistent}

module _ (D : Driver) (ledger : IsLedger D) where
  open ledger use {live}

  live-take_response :
      (r : Response D.Real D.Uuid D.Inet × D.World) (n : ℕ)
      → live r.1 ≡ n + 2
      → live (take_response D r).3 ≡ n
  unfolding take_response
  live-take_response (failed, w) n h =
      omega (arith, ledger.live-future_free w, ledger.live-statement_free (D.future_free w))
  live-take_response (done none, w) n h =
      omega (arith, ledger.live-future_free w, ledger.live-statement_free (D.future_free w))
  live-take_response (done (some result), w) n h =
      let a = D.get_result w in
      let b = D.iterator_new a in
      let c = D.iterator_free b in
      let d = D.result_free c in
      omega (
        arith,
        ledger.live-get_result w,
        ledger.live-iterator_new a,
        ledger.live-iterator_free b,
        ledger.live-result_free c,
        ledger.live-future_free d,
        ledger.live-statement_free (D.future_free d),
      )

  -- A statement leaves as many driver objects as there were before it, on every path: not connected,
  -- failed, no result, and a result.
  pub live-execute :
      (c : Connection) (w : D.World) (cql : Bytes) (column_names : List Bytes) (result : Rows)
      → live (execute D c w cql column_names result).3 ≡ live w
  unfolding execute
  live-execute c w cql column_names result = elim (Bool-cases (is_closed D c)) [
    | inl e ↦ rw (e, execute)
    | inr e ↦
        rw (e, execute)
          (live-take_response (D.session_execute (D.statement_new w cql) cql) (live w) (
            omega (
              arith,
              ledger.live-statement_new w cql,
              ledger.live-session_execute (D.statement_new w cql) cql,
            )))
  ]

  -- The same of `use_keyspace`, which changes no pointer of the connection.
  pub live-use_keyspace :
      (c : Connection) (w : D.World) (keyspace : Bytes)
      → live (use_keyspace D c w keyspace).2 ≡ live w
  unfolding use_keyspace
  live-use_keyspace c w keyspace = elim (Bool-cases (is_closed D c)) [
    | inl e ↦ rw (e, use_keyspace)
    | inr e ↦
        let cql = codes "USE " ++ keyspace in
        let a = D.statement_new w cql in
        let b = (D.session_execute a cql).1 in
        rw (e, use_keyspace)
          (omega (
            arith,
            ledger.live-statement_new w cql,
            ledger.live-session_execute a cql,
            ledger.live-future_free b,
            ledger.live-statement_free (D.future_free b),
          ))
  ]

  pub held-use_keyspace :
      (c : Connection) (w : D.World) (keyspace : Bytes)
      → IsConsistent c
      → c.connected ≡ true
      → IsConsistent (use_keyspace D c w keyspace).1
        × ((use_keyspace D c w keyspace).1.connected ≡ true)
        × (held (use_keyspace D c w keyspace).1 ≡ held c)
  unfolding use_keyspace succeeded
  held-use_keyspace c w keyspace v online =
      rw (e, use_keyspace) (kept (D.session_execute (D.statement_new w cql) cql).0)
    where
      cql : Bytes
      cql = codes "USE " ++ keyspace

      e : is_closed D c ≡ false
      e = rw (v.session_if, online)

      renamed : Bool → Connection
      renamed b = if b then record c { current_keyspace = keyspace } else c

      kept :
          (r : Response D.Real D.Uuid D.Inet)
          → IsConsistent (renamed (succeeded D r))
            × ((renamed (succeeded D r)).connected ≡ true)
            × (held (renamed (succeeded D r)) ≡ held c)
      kept failed = (v, online, refl)
      kept (done _) =
          (record { cluster_if = v.cluster_if; session_if = v.session_if }, online, refl)

  -- The same whether it is connected or not.
  pub held-use_keyspace_any :
      (c : Connection) (w : D.World) (keyspace : Bytes)
      → IsConsistent c
      → IsConsistent (use_keyspace D c w keyspace).1
        × (held (use_keyspace D c w keyspace).1 ≡ held c)
  unfolding use_keyspace
  held-use_keyspace_any c w keyspace v = elim (Bool-cases c.connected) [
    | inl e ↦ let (v', _, same) = held-use_keyspace c w keyspace v e in (v', same)
    | inr e ↦ let closed : is_closed D c ≡ true = rw e in rw (closed, use_keyspace) (v, refl)
  ]
