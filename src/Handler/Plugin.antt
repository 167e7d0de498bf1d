-- ===== src/Handler/Plugin.antt =====
-- The declaration of the plugin: the system variables with their defaults, and the calls by which the
-- server makes a handler.
use mariadb_scylla_storage_e.Prelude.{ℕ, Bool, false, Option, none, some, List, [], ◌∷◌}
use mariadb_scylla_storage_e.Prelude.Int.{pos}
use mariadb_scylla_storage_e.Prelude.Text.{Bytes, codes}
use mariadb_scylla_storage_e.Handler.State.{Globals, Handler, new_handler, Code, success}

-- `MYSQL_SYSVAR_STR`, `MYSQL_SYSVAR_UINT` and `MYSQL_SYSVAR_BOOL`: the name, the default and the
-- bounds.
pub data SystemVariable : Type 0 where
  text_variable : Bytes → Bytes → SystemVariable
  number_variable : Bytes → ℕ → ℕ → ℕ → SystemVariable
  switch_variable : Bytes → Bool → SystemVariable

unfoldable pub scylla_system_variables : List SystemVariable
scylla_system_variables =
    text_variable (codes "hosts") (codes "127.0.0.1")
    ∷ number_variable (codes "port") 9042 1 65535
    ∷ text_variable (codes "keyspace") (codes "mariadb")
    ∷ switch_variable (codes "verbose") false
    ∷ []

-- The variables once the server has set them to their defaults.
unfoldable pub default_globals : Globals
default_globals = record {
  default_hosts = some (codes "127.0.0.1");
  default_port = pos 9042;
  default_keyspace = some (codes "mariadb");
  default_verbose = false;
}

-- `handlerton`, as far as the plugin sets it; no flag is set in its `flags`.
pub record Handlerton : Type 0 where
  pub create : Globals → Handler
  pub flags : List ℕ

unfoldable pub scylla_create_handler : Globals → Handler
scylla_create_handler g = new_handler g

unfoldable pub scylla_init_func : Handlerton → Code × Handlerton
scylla_init_func hton = (success, record hton { create = scylla_create_handler; flags = [] })

unfoldable pub scylla_done_func : Code
scylla_done_func = success

-- The words of the server that the declaration uses.
pub data PluginType : Type 0 where
  storage_engine : PluginType

pub data License : Type 0 where
  gpl : License

pub data Maturity : Type 0 where
  gamma : Maturity

-- `st_mysql_storage_engine`
pub record StorageEngine : Type 0 where
  pub interface_version : ℕ

-- `st_maria_plugin`: what `mysql_declare_plugin` declares. A null pointer is `none`.
pub record Plugin : Type 0 where
  pub type : PluginType
  pub engine : StorageEngine
  pub name : Bytes
  pub author : Bytes
  pub description : Bytes
  pub license : License
  pub init : Handlerton → Code × Handlerton
  pub deinit : Code
  pub version : ℕ
  pub status_variables : Option (List Bytes)
  pub system_variables : List SystemVariable
  pub version_text : Option Bytes
  pub maturity : Maturity

module _ (handlerton_interface_version : ℕ) where
  unfoldable pub scylla_storage_engine : StorageEngine
  scylla_storage_engine = record { interface_version = handlerton_interface_version }

  unfoldable pub scylla_plugin : Plugin
  scylla_plugin = record {
    type = PluginType.storage_engine;
    engine = scylla_storage_engine;
    name = codes "SCYLLA";
    author = codes "MariaDB Corporation";
    description = codes "ScyllaDB storage engine for MariaDB";
    license = License.gpl;
    init = scylla_init_func;
    deinit = scylla_done_func;
    version = 256;
    status_variables = none;
    system_variables = scylla_system_variables;
    version_text = none;
    maturity = Maturity.gamma;
  }
