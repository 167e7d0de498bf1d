-- ===== src/Connection/Driver.antt =====
-- What the engine uses of the cpp-rs-driver, a C library that is not code of this repository, and of
-- the cluster behind it. The state of both is a `World`; a call returns what it answers and the
-- world after it. `IsLedger` states that the driver's objects are counted: each `new` makes one,
-- each `free` takes one away, and nothing else changes their number.
use mariadb_scylla_storage_e.Prelude.{ℕ, ◌+◌, ◌-◌, Bool, Option, List, ◌≡◌, if◌then◌else◌}
use mariadb_scylla_storage_e.Prelude.Int.{ℤ}
use mariadb_scylla_storage_e.Prelude.Text.{Bytes}

-- `CassCluster`, as it is configured here.
pub record ClusterConfig : Type 0 where
  pub contact_points : Bytes
  pub port : ℤ
  pub protocol_version : ℕ
  pub connect_timeout : ℕ
  pub request_timeout : ℕ
  pub num_threads_io : Option ℕ

-- The non-null and null values of `CassValue`, by `CassValueType`. A varint has at least one byte.
-- `unsupported` stands for the types that the source does not name.
pub data CassValue (Real Uuid Inet : Type 0) : Type 0 where
  null : CassValue Real Uuid Inet
  tiny_int small_int int bigint timestamp time : ℤ → CassValue Real Uuid Inet
  float double : Real → CassValue Real Uuid Inet
  boolean : Bool → CassValue Real Uuid Inet
  text varchar ascii blob : Bytes → CassValue Real Uuid Inet
  date : ℕ → CassValue Real Uuid Inet
  uuid timeuuid : Uuid → CassValue Real Uuid Inet
  decimal : Bytes → ℤ → CassValue Real Uuid Inet
  varint : ℕ → Bytes → CassValue Real Uuid Inet
  duration : ℤ → ℤ → ℤ → CassValue Real Uuid Inet
  inet : Inet → CassValue Real Uuid Inet
  unsupported : CassValue Real Uuid Inet

-- `CassResult`: the names of the columns, and the rows, each with a value for every column.
pub record CassResult (Real Uuid Inet : Type 0) : Type 0 where
  pub columns : List Bytes
  pub rows : List (List (CassValue Real Uuid Inet))

-- The future of a statement: an error code, or a result that may be null.
pub data Response (Real Uuid Inet : Type 0) : Type 0 where
  failed : Response Real Uuid Inet
  done : Option (CassResult Real Uuid Inet) → Response Real Uuid Inet

pub record Driver : Type 1 where
  pub World : Type 0
  pub Real : Type 0
  pub Uuid : Type 0
  pub Inet : Type 0
  -- `std::to_string` of a float or double, `cass_uuid_string`, `cass_inet_string`, and what a
  -- character buffer holds that `strftime` found too short.
  pub to_string_real : Real → Bytes
  pub uuid_string : Uuid → Bytes
  pub inet_string : Inet → Bytes
  pub unset_buffer : Bytes
  -- `false` is a null pointer.
  pub cluster_new : World → Bool × World
  pub cluster_free : World → World
  pub session_new : World → Bool × World
  pub session_free : World → World
  -- `cass_session_connect` and `cass_session_close` with the wait for their futures.
  pub session_connect : World → ClusterConfig → Bool × World
  pub session_close : World → World
  pub statement_new : World → Bytes → World
  pub statement_free : World → World
  -- `cass_session_execute` with the wait for its future.
  pub session_execute : World → Bytes → Response Real Uuid Inet × World
  pub future_free : World → World
  pub get_result : World → World
  pub result_free : World → World
  pub iterator_new : World → World
  pub iterator_free : World → World

pub record IsLedger (D : Driver) : Type 0 where
  pub live : D.World → ℕ
  pub live-cluster_new :
      (w : D.World)
      → live (D.cluster_new w).1 ≡ (if (D.cluster_new w).0 then live w + 1 else live w)
  pub live-cluster_free : (w : D.World) → live (D.cluster_free w) ≡ live w - 1
  pub live-session_new :
      (w : D.World)
      → live (D.session_new w).1 ≡ (if (D.session_new w).0 then live w + 1 else live w)
  pub live-session_free : (w : D.World) → live (D.session_free w) ≡ live w - 1
  pub live-session_connect :
      (w : D.World) (c : ClusterConfig) → live (D.session_connect w c).1 ≡ live w + 1
  pub live-session_close : (w : D.World) → live (D.session_close w) ≡ live w + 1
  pub live-statement_new : (w : D.World) (cql : Bytes) → live (D.statement_new w cql) ≡ live w + 1
  pub live-statement_free : (w : D.World) → live (D.statement_free w) ≡ live w - 1
  pub live-session_execute :
      (w : D.World) (cql : Bytes) → live (D.session_execute w cql).1 ≡ live w + 1
  pub live-future_free : (w : D.World) → live (D.future_free w) ≡ live w - 1
  pub live-get_result : (w : D.World) → live (D.get_result w) ≡ live w + 1
  pub live-result_free : (w : D.World) → live (D.result_free w) ≡ live w - 1
  pub live-iterator_new : (w : D.World) → live (D.iterator_new w) ≡ live w + 1
  pub live-iterator_free : (w : D.World) → live (D.iterator_free w) ≡ live w - 1
