-- ===== src/Handler/State.antt =====
-- The state of a handler, and of what it works on.
use mariadb_scylla_storage_e.Prelude.{ℕ, Bool, false, Option, none, some, List, []}
use mariadb_scylla_storage_e.Prelude.Int.{ℤ}
use mariadb_scylla_storage_e.Prelude.Text.{Bytes}
use mariadb_scylla_storage_e.Server.{Server}
use mariadb_scylla_storage_e.Query.Table.{Table}
use mariadb_scylla_storage_e.Connection.Driver.{Driver}
use mariadb_scylla_storage_e.Connection.Session.{Connection, Rows}

-- The plugin's system variables.
pub record Globals : Type 0 where
  pub default_hosts : Option Bytes
  pub default_port : ℤ
  pub default_keyspace : Option Bytes
  pub default_verbose : Bool

-- What a handler call returns: 0, or one of the `HA_ERR_` codes.
pub data Code : Type 0 where
  success end_of_file key_not_found no_connection generic wrong_command : Code

-- `ha_scylla`, with `active_index` and `ref` of its base class; `none` is `MAX_KEY`.
pub record Handler : Type 0 where
  pub conn : Option Connection
  pub keyspace_name : Bytes
  pub table_name : Bytes
  pub column_names : List Bytes
  pub result_set : Rows
  pub current_position : ℕ
  pub scan_active : Bool
  pub scylla_hosts : Bytes
  pub verbose_logging : Bool
  pub scylla_port : ℤ
  pub active_index : Option ℕ
  pub ref : ℕ

abbrev pub or_empty : Option Bytes → Bytes
or_empty none = []
or_empty (some s) = s

-- The constructor.
unfoldable pub new_handler : Globals → Handler
new_handler g = record {
  conn = none;
  keyspace_name = or_empty g.default_keyspace;
  table_name = [];
  column_names = [];
  result_set = [];
  current_position = 0;
  scan_active = false;
  scylla_hosts = or_empty g.default_hosts;
  verbose_logging = g.default_verbose;
  scylla_port = g.default_port;
  active_index = none;
  ref = 0;
}

-- A handler, its open table, the record buffers, and the driver with the cluster.
pub record State (S : Server) (D : Driver) : Type 0 where
  pub handler : Handler
  pub table : Table S
  pub memory : S.Memory
  pub world : D.World
