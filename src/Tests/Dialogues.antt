-- ===== src/Tests/Dialogues.antt =====
-- The theorems on what the cluster is sent and what CQL reads in it, at a concrete state.
use mariadb_scylla_storage_e.Prelude.{
  ℕ, ◌+◌, ◌-◌, true, none, some, List, [], ◌∷◌, ◌++◌, ◌≡◌, refl, All, map,
}
use mariadb_scylla_storage_e.Prelude.Int.{pos, ◌+ℤ◌, ◌-ℤ◌}
use mariadb_scylla_storage_e.Prelude.Text.{Bytes, codes}
use mariadb_scylla_storage_e.Server.Cells.{cells, cells-IsLawful}
use mariadb_scylla_storage_e.Types.Value.{get_cql_value, literal_of}
use mariadb_scylla_storage_e.Types.Literal.{quoted, escape_string}
use mariadb_scylla_storage_e.Numerals.{to_string}
use mariadb_scylla_storage_e.Query.Shape.{cell}
use mariadb_scylla_storage_e.Query.Statements.{build_insert_cql, build_update_cql, build_delete_cql}
use mariadb_scylla_storage_e.Query.Reader.{read_insert, read_update, read_delete, read_select}
use mariadb_scylla_storage_e.Query.Listing.{IsName}
use mariadb_scylla_storage_e.Query.FieldTerm.{IsReadable, HasValue}
use mariadb_scylla_storage_e.Query.UpdateRead.{
  read_update-build_update_cql, read_delete-build_delete_cql,
}
use mariadb_scylla_storage_e.Query.LookupRead.{
  lookup_cql, HoldsValue, read_select-build_where_from_key,
}
use mariadb_scylla_storage_e.Query.InsertRead.{read_insert-build_insert_cql}
use mariadb_scylla_storage_e.Connection.Driver.{Driver, IsLedger, done}
use mariadb_scylla_storage_e.Connection.Journal.{IsJournal}
use mariadb_scylla_storage_e.Handler.State.{State}
use mariadb_scylla_storage_e.Handler.Calls.{Call, run}
use mariadb_scylla_storage_e.Handler.Storing.{Holds}
use mariadb_scylla_storage_e.Handler.Sent.{run-script}
use mariadb_scylla_storage_e.Tests.{id_field, id_part, name_field, users, memory, defaults, reader}

-- A driver that counts its objects and keeps the statements it sends.
abbrev recording : Driver
recording = record {
  World = ℕ × List Bytes;
  Real = Bytes;
  Uuid = Bytes;
  Inet = Bytes;
  to_string_real = λ r. r;
  uuid_string = λ u. u;
  inet_string = λ i. i;
  unset_buffer = [];
  cluster_new = λ w. (true, (w.0 + 1, w.1));
  cluster_free = λ w. (w.0 - 1, w.1);
  session_new = λ w. (true, (w.0 + 1, w.1));
  session_free = λ w. (w.0 - 1, w.1);
  session_connect = λ w c. (true, (w.0 + 1, w.1));
  session_close = λ w. (w.0 + 1, w.1);
  statement_new = λ w cql. (w.0 + 1, w.1);
  statement_free = λ w. (w.0 - 1, w.1);
  session_execute = λ w cql. (done none, (w.0 + 1, w.1 ++ cql ∷ []));
  future_free = λ w. (w.0 - 1, w.1);
  get_result = λ w. (w.0 + 1, w.1);
  result_free = λ w. (w.0 - 1, w.1);
  iterator_new = λ w. (w.0 + 1, w.1);
  iterator_free = λ w. (w.0 - 1, w.1);
}

abbrev recording-IsLedger : IsLedger recording
recording-IsLedger = record {
  live = λ w. w.0;
  live-cluster_new = λ w. refl;
  live-cluster_free = λ w. refl;
  live-session_new = λ w. refl;
  live-session_free = λ w. refl;
  live-session_connect = λ w c. refl;
  live-session_close = λ w. refl;
  live-statement_new = λ w cql. refl;
  live-statement_free = λ w. refl;
  live-session_execute = λ w cql. refl;
  live-future_free = λ w. refl;
  live-get_result = λ w. refl;
  live-result_free = λ w. refl;
  live-iterator_new = λ w. refl;
  live-iterator_free = λ w. refl;
}

abbrev recording-IsJournal : IsJournal recording
recording-IsJournal = record {
  sent = λ w. w.1;
  sent-session_execute = λ w cql. refl;
  sent-cluster_new = λ w. refl;
  sent-cluster_free = λ w. refl;
  sent-session_new = λ w. refl;
  sent-session_free = λ w. refl;
  sent-session_connect = λ w c. refl;
  sent-session_close = λ w. refl;
  sent-statement_new = λ w cql. refl;
  sent-statement_free = λ w. refl;
  sent-future_free = λ w. refl;
  sent-get_result = λ w. refl;
  sent-result_free = λ w. refl;
  sent-iterator_new = λ w. refl;
  sent-iterator_free = λ w. refl;
}

abbrev unconnected : State cells recording
unconnected = record {
  handler = record reader { conn = none };
  table = users;
  memory = memory;
  world = (0, []);
}

run-script_example :
    Holds
      (λ st. st.world.1 ≡ codes "USE shop" ∷ codes "TRUNCATE shop.users" ∷ [])
      (run cells recording defaults unconnected Call.truncate)
unfolding run
run-script_example =
    run-script cells cells-IsLawful recording recording-IsJournal defaults recording-IsLedger 0
      unconnected Call.truncate (record { sound = tt; counted = refl })

id_field-IsName : IsName (codes "id")
id_field-IsName = (cc, (refl, (refl, tt)))

column-IsName : IsName (codes "name")
column-IsName = (cc, (refl, (refl, (refl, (refl, tt)))))

shop-IsName : IsName (codes "shop")
shop-IsName = (cc, (refl, (refl, (refl, (refl, tt)))))

users-IsName : IsName (codes "users")
users-IsName = (cc, (refl, (refl, (refl, (refl, (refl, tt))))))

users-IsReadable : All (IsReadable cells) users.field
users-IsReadable = ((id_field-IsName, refl), ((column-IsName, refl), tt))

read_insert-build_insert_cql_example :
    (read_insert (build_insert_cql cells memory users (pos 200) (codes "shop") (codes "users")).0
      ≡ some (record {
        keyspace = codes "shop";
        table = codes "users";
        columns = codes "id" ∷ codes "name" ∷ [];
        literals = map (cell cells memory (pos 100) (pos 200)) users.field;
      }))
    × All (HasValue cells cells-IsLawful memory users (pos 200)) users.field
unfolding ◌+ℤ◌ ◌-ℤ◌
read_insert-build_insert_cql_example =
    read_insert-build_insert_cql cells cells-IsLawful memory users (pos 200) (codes "shop")
      (codes "users") (cc) shop-IsName users-IsName users-IsReadable (refl, (refl, tt))

read_update-build_update_cql_example :
    (read_update
        (build_update_cql cells memory users (pos 100) (pos 200) (codes "shop") (codes "users")).0
      ≡ some (record {
        keyspace = codes "shop";
        table = codes "users";
        assigned = (codes "name", codes "'Ann'") ∷ [];
        compared = (codes "id", codes "7") ∷ [];
      }))
    × (All (HasValue cells cells-IsLawful memory users (pos 200)) (name_field ∷ [])
        × All (HasValue cells cells-IsLawful memory users (pos 100)) (id_field ∷ []))
unfolding get_cql_value literal_of to_string ◌+ℤ◌ ◌-ℤ◌ quoted escape_string
read_update-build_update_cql_example =
    read_update-build_update_cql cells cells-IsLawful memory users (pos 100) (pos 200)
      (codes "shop") (codes "users") ((refl, (id_field, refl)), tt) (cc) (cc) shop-IsName
      users-IsName users-IsReadable (refl, tt) (refl, tt)

read_delete-build_delete_cql_example :
    (read_delete (build_delete_cql cells memory users (pos 100) (codes "shop") (codes "users")).0
      ≡ some (record {
        keyspace = codes "shop";
        table = codes "users";
        compared = (codes "id", codes "7") ∷ [];
      }))
    × All (HasValue cells cells-IsLawful memory users (pos 100)) (id_field ∷ [])
unfolding get_cql_value literal_of to_string ◌+ℤ◌ ◌-ℤ◌ quoted escape_string
read_delete-build_delete_cql_example =
    read_delete-build_delete_cql cells cells-IsLawful memory users (pos 100) (codes "shop")
      (codes "users") ((refl, (id_field, refl)), tt) (cc) shop-IsName users-IsName users-IsReadable
      (refl, tt)

read_select-build_where_from_key_example :
    (read_select
        (lookup_cql cells cells-IsLawful memory users (pos 101) 1 (codes "shop") (codes "users"))
      ≡ some (record {
        columns = codes "id" ∷ codes "name" ∷ [];
        keyspace = codes "shop";
        table = codes "users";
        compared = (codes "id", codes "7") ∷ [];
        filtering = true;
      }))
    × All (HoldsValue cells cells-IsLawful memory) ((id_field, pos 101) ∷ [])
unfolding get_cql_value literal_of to_string
read_select-build_where_from_key_example =
    read_select-build_where_from_key cells cells-IsLawful memory users (pos 101) 1 (codes "shop")
      (codes "users") (id_part ∷ []) refl ((refl, (id_field, refl)), tt) (cc) shop-IsName
      users-IsName users-IsReadable (refl, tt)
