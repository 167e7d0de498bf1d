-- ===== src/Tests.antt =====
-- A concrete driver and a concrete table, on which the theorems are run.
mod Strings
mod Statements
mod Calls
mod Sequences
mod Inserts
mod Dialogues
use mariadb_scylla_storage_e.Prelude.{
  ℕ, ◌+◌, ◌-◌, Bool, true, false, Option, none, some, List, [], ◌∷◌, refl, if◌then◌else◌,
}
use mariadb_scylla_storage_e.Prelude.Int.{ℤ, pos, ◌==ℤ◌}
use mariadb_scylla_storage_e.Prelude.Text.{Bytes, codes}
use mariadb_scylla_storage_e.Server.{FieldType}
use mariadb_scylla_storage_e.Server.Cells.{Cell, int, text, empty, CellMemory, CellField, cells}
use mariadb_scylla_storage_e.Query.Table.{KeyPart, Table}
use mariadb_scylla_storage_e.Connection.Driver.{Driver, IsLedger, CassResult, CassValue, done}
use mariadb_scylla_storage_e.Connection.Session.{Connection, configured}
use mariadb_scylla_storage_e.Handler.State.{Globals, Handler, new_handler, State}

-- A driver whose world is the number of its objects: every call succeeds, and every statement has
-- this result.
abbrev pub serving : CassResult Bytes Bytes Bytes → Driver
serving result = record {
  World = ℕ;
  Real = Bytes;
  Uuid = Bytes;
  Inet = Bytes;
  to_string_real = λ r. r;
  uuid_string = λ u. u;
  inet_string = λ i. i;
  unset_buffer = [];
  cluster_new = λ w. (true, w + 1);
  cluster_free = λ w. w - 1;
  session_new = λ w. (true, w + 1);
  session_free = λ w. w - 1;
  session_connect = λ w c. (true, w + 1);
  session_close = λ w. w + 1;
  statement_new = λ w cql. w + 1;
  statement_free = λ w. w - 1;
  session_execute = λ w cql. (done (some result), w + 1);
  future_free = λ w. w - 1;
  get_result = λ w. w + 1;
  result_free = λ w. w - 1;
  iterator_new = λ w. w + 1;
  iterator_free = λ w. w - 1;
}

-- The driver whose results have no rows, and one whose results have two.
abbrev pub counter : Driver
counter = serving (record { columns = []; rows = [] })

abbrev pub two_users : CassResult Bytes Bytes Bytes
two_users = record {
  columns = codes "id" ∷ codes "name" ∷ [];
  rows =
      (CassValue.int (pos 7) ∷ CassValue.text (codes "Ann") ∷ [])
      ∷ (CassValue.int (pos 8) ∷ CassValue.null ∷ [])
      ∷ [];
}

abbrev pub counter-IsLedger : IsLedger counter
counter-IsLedger = record {
  live = λ w. w;
  live-cluster_new = λ w. refl;
  live-cluster_free = λ w. refl;
  live-session_new = λ w. refl;
  live-session_free = λ w. refl;
  live-session_connect = λ w c. refl;
  live-session_close = λ w. refl;
  live-statement_new = λ w cql. refl;
  live-statement_free = λ w. refl;
  live-session_execute = λ w cql. refl;
  live-future_free = λ w. refl;
  live-get_result = λ w. refl;
  live-result_free = λ w. refl;
  live-iterator_new = λ w. refl;
  live-iterator_free = λ w. refl;
}

-- Two columns, the first of which is the primary key. `record[0]` begins at 100, and another row
-- stands at 200.
abbrev pub id_field : CellField
id_field = record {
  name = codes "id";
  type = FieldType.long;
  binary = false;
  ptr = pos 101;
  null_ptr = none;
}

abbrev pub name_field : CellField
name_field = record {
  name = codes "name";
  type = FieldType.varchar;
  binary = false;
  ptr = pos 102;
  null_ptr = none;
}

abbrev pub photo_field : CellField
photo_field = record {
  name = codes "photo";
  type = FieldType.blob;
  binary = true;
  ptr = pos 103;
  null_ptr = none;
}

abbrev pub seen_field : CellField
seen_field = record {
  name = codes "seen";
  type = FieldType.datetime;
  binary = false;
  ptr = pos 104;
  null_ptr = none;
}

abbrev pub id_part : KeyPart
id_part = record { field = 0; fieldnr = 1; store_length = 4 }

abbrev pub users : Table cells
users = record {
  field = id_field ∷ name_field ∷ [];
  record0 = pos 100;
  primary_key = some (id_part ∷ []);
  null_bytes = 0;
  reclength = 8;
  comment = none;
}

abbrev cell_at : ℤ → Cell
cell_at p =
    if p ==ℤ pos 101
    then int (pos 7)
    else if p ==ℤ pos 102
    then text (codes "O'Hara")
    else if p ==ℤ pos 103
    then text (10 ∷ 255 ∷ [])
    else if p ==ℤ pos 201
    then int (pos 8)
    else if p ==ℤ pos 202
    then text (codes "Ann")
    else empty

abbrev pub memory : CellMemory
memory = record { cell = cell_at; null = λ p. false }

-- A connection, and a handler in the middle of a scan.
abbrev pub online : Connection
online = record {
  cluster = some (configured (codes "127.0.0.1") (pos 9042));
  session = true;
  current_keyspace = [];
  connected = true;
}

abbrev pub reader : Handler
reader = record {
  conn = some online;
  keyspace_name = codes "shop";
  table_name = codes "users";
  column_names = codes "id" ∷ codes "name" ∷ [];
  result_set = (codes "7" ∷ codes "Ann" ∷ []) ∷ (codes "8" ∷ codes "Bob" ∷ []) ∷ [];
  current_position = 1;
  scan_active = true;
  scylla_hosts = codes "127.0.0.1";
  verbose_logging = false;
  scylla_port = pos 9042;
  active_index = none;
  ref = 0;
}

abbrev pub scanning : State cells counter
scanning = record { handler = reader; table = users; memory = memory; world = 2 }

-- The same before the first connection.
abbrev pub offline : State cells counter
offline = record {
  handler = record reader { conn = none };
  table = users;
  memory = memory;
  world = 0;
}

-- The same with a cluster that answers with two rows.
abbrev pub waiting : State cells (serving two_users)
waiting = record { handler = reader; table = users; memory = memory; world = 2 }

abbrev pub defaults : Globals
defaults = record {
  default_hosts = some (codes "127.0.0.1");
  default_port = pos 9042;
  default_keyspace = some (codes "mariadb");
  default_verbose = false;
}

abbrev pub unopened : State cells counter
unopened = record { handler = new_handler defaults; table = users; memory = memory; world = 0 }
