-- ===== src/Connection/Session.antt =====
-- The methods of `ScyllaConnection`. Each holds the mutex of the connection from its first to its
-- last statement, so a method is one step.
use mariadb_scylla_storage_e.Prelude.{
  ℕ, Bool, true, false, not, ◌||◌, Option, none, some, List, [], ◌++◌, map, if◌then◌else◌,
}
use mariadb_scylla_storage_e.Prelude.Int.{ℤ}
use mariadb_scylla_storage_e.Prelude.Text.{Bytes, codes}
use mariadb_scylla_storage_e.Connection.Driver.{Driver, ClusterConfig, Response, failed, done}
use mariadb_scylla_storage_e.Connection.Values.{value_string}

-- `ScyllaConnection`: a null `cluster` is `none`, and `session` says whether the pointer is set.
pub record Connection : Type 0 where
  pub cluster : Option ClusterConfig
  pub session : Bool
  pub current_keyspace : Bytes
  pub connected : Bool

-- The constructor.
unfoldable pub new_connection : Connection
new_connection = record {
  cluster = none;
  session = false;
  current_keyspace = [];
  connected = false;
}

abbrev pub Rows : Type 0
Rows = List (List Bytes)

-- What the calls before `cass_session_connect` make of the new cluster.
abbrev pub configured : Bytes → ℤ → ClusterConfig
configured hosts port = record {
  contact_points = hosts;
  port = port;
  protocol_version = 4;
  connect_timeout = 10000;
  request_timeout = 10000;
  num_threads_io = none;
}

abbrev pub is_some {ℓ} : {A : Type ℓ} → Option A → Bool
is_some none = false
is_some (some _) = true

module _ (D : Driver) where
  open D use {World}

  unfoldable pub close_session : Bool → World → World
  close_session false w = w
  close_session true w = D.session_free (D.future_free (D.session_close w))

  unfoldable pub free_cluster : Option ClusterConfig → World → World
  free_cluster none w = w
  free_cluster (some _) w = D.cluster_free w

  -- `cleanup`, which `disconnect` and the destructor are.
  unfoldable pub cleanup : Connection → World → Connection × World
  cleanup c w = (
    record c { cluster = none; session = false; connected = false },
    free_cluster c.cluster (close_session c.session w),
  )

  -- `connect` once the session is made: the wait for the future and its error code.
  unfoldable pub await_session :
      Connection → ClusterConfig → Bool × World → Bool × Connection × World
  await_session c config (true, w) =
      (true, record c { cluster = some config; session = true; connected = true }, D.future_free w)
  await_session c config (false, w) = (
    false,
    record c { cluster = none; session = false },
    D.cluster_free (D.session_free (D.future_free w)),
  )

  unfoldable pub open_session :
      Connection → ClusterConfig → Bool × World → Bool × Connection × World
  open_session c config (true, w) = await_session c config (D.session_connect w config)
  open_session c config (false, w) =
      (false, record c { cluster = none; session = false }, D.cluster_free w)

  unfoldable pub open_cluster :
      Connection → ClusterConfig → Bool × World → Bool × Connection × World
  open_cluster c config (true, w) = open_session c config (D.session_new w)
  open_cluster c config (false, w) = (false, record c { cluster = none }, w)

  unfoldable pub connect : Connection → World → Bytes → ℤ → Bool × Connection × World
  connect c w hosts port = elim c.connected [
    | true ↦ (true, c, w)
    | false ↦ open_cluster c (configured hosts port) (D.cluster_new w)
  ]

  unfoldable pub succeeded : Response D.Real D.Uuid D.Inet → Bool
  succeeded failed = false
  succeeded (done _) = true

  -- `!connected || !session`
  abbrev pub is_closed : Connection → Bool
  is_closed c = not c.connected || not c.session

  unfoldable pub use_keyspace : Connection → World → Bytes → Bool × Connection × World
  unfolding succeeded
  use_keyspace c w keyspace = elim (is_closed c) [
    | true ↦ (false, c, w)
    | false ↦
        let cql = codes "USE " ++ keyspace in
        let (response, w') = D.session_execute (D.statement_new w cql) cql in
        let success = succeeded response in
        (
          success,
          if success then record c { current_keyspace = keyspace } else c,
          D.statement_free (D.future_free w'),
        )
  ]

  -- What `execute` does with the future: whether it succeeded, the column names and the rows, and
  -- the frees.
  unfoldable pub take_response :
      Response D.Real D.Uuid D.Inet × World → Bool × List Bytes × Rows × World
  take_response (failed, w) = (false, [], [], D.statement_free (D.future_free w))
  take_response (done none, w) = (true, [], [], D.statement_free (D.future_free w))
  take_response (done (some result), w) = (
    true,
    result.columns,
    map (map (value_string D)) result.rows,
    D.statement_free
        (D.future_free (D.result_free (D.iterator_free (D.iterator_new (D.get_result w))))),
  )

  -- `execute` with column names. The vectors of the caller are cleared before the statement is sent.
  unfoldable pub execute :
      Connection → World → Bytes → List Bytes → Rows → Bool × List Bytes × Rows × World
  execute c w cql column_names result = elim (is_closed c) [
    | true ↦ (false, column_names, result, w)
    | false ↦ take_response (D.session_execute (D.statement_new w cql) cql)
  ]

  -- `execute` without column names.
  unfoldable pub execute_rows : Connection → World → Bytes → Rows → Bool × Rows × World
  execute_rows c w cql result = elim (is_closed c) [
    | true ↦ (false, result, w)
    | false ↦
        let (success, _, rows, w') =
          take_response (D.session_execute (D.statement_new w cql) cql) in
        (success, rows, w')
  ]

  -- `execute` without results.
  unfoldable pub execute_only : Connection → World → Bytes → Bool × World
  unfolding execute_rows
  execute_only c w cql = let (success, _, w') = execute_rows c w cql [] in (success, w')

with_timeout : ℕ → Option ClusterConfig → Option ClusterConfig
with_timeout ms none = none
with_timeout ms (some config) = some (record config { connect_timeout = ms; request_timeout = ms })

unfoldable pub set_timeout : Connection → ℕ → Connection
unfolding with_timeout
set_timeout c timeout_ms = record c { cluster = with_timeout timeout_ms c.cluster }

with_threads : ℕ → Option ClusterConfig → Option ClusterConfig
with_threads n none = none
with_threads n (some config) = some (record config { num_threads_io = some n })

unfoldable pub set_num_threads : Connection → ℕ → Connection
unfolding with_threads
set_num_threads c num_threads = record c { cluster = with_threads num_threads c.cluster }

unfoldable pub disconnect : (D : Driver) → Connection → D.World → Connection × D.World
unfolding cleanup
disconnect D c w = cleanup D c w

unfoldable pub is_connected : Connection → Bool
is_connected c = c.connected

unfoldable pub get_keyspace : Connection → Bytes
get_keyspace c = c.current_keyspace
