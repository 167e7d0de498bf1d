-- ===== src/Tests/Sequences.antt =====
-- The theorems on the calls of a handler, at concrete states.
use mariadb_scylla_storage_e.Prelude.{true, false, some, ◌≡◌, refl, ◌+◌, [], ◌∷◌, arith}
use mariadb_scylla_storage_e.Prelude.Int.{pos}
use mariadb_scylla_storage_e.Prelude.Text.{codes}
use mariadb_scylla_storage_e.Numerals.{ok, ◌>>=◌}
use mariadb_scylla_storage_e.Server.Cells.{cells, cells-IsLawful}
use mariadb_scylla_storage_e.Types.Mapping.{mariadb_to_cql_type}
use mariadb_scylla_storage_e.Types.Value.{get_cql_value}
use mariadb_scylla_storage_e.Types.Cql.{CqlValue, read_value}
use mariadb_scylla_storage_e.Types.Typing.{read_value-get_cql_value}
use mariadb_scylla_storage_e.Connection.Driver.{Driver}
use mariadb_scylla_storage_e.Handler.State.{State}
use mariadb_scylla_storage_e.Handler.Cql.{destroy}
use mariadb_scylla_storage_e.Handler.Tables as Tables
use mariadb_scylla_storage_e.Handler.Tables.{with_keyspace}
use mariadb_scylla_storage_e.Handler.Scan as Scan
use mariadb_scylla_storage_e.Handler.Calls.{Call, run, Reach, here, next, call, fill, elsewhere}
use mariadb_scylla_storage_e.Handler.Storing.{Holds}
use mariadb_scylla_storage_e.Handler.Reconnect.{IsAccounted}
use mariadb_scylla_storage_e.Handler.Lifetime.{Reach-destroy}
use mariadb_scylla_storage_e.Handler.Fields.{run-table}
use mariadb_scylla_storage_e.Handler.Answering.{Answers, IsLost, IsSent}
use mariadb_scylla_storage_e.Handler.Outage.{outset, run-IsLost, run-IsSent}
use mariadb_scylla_storage_e.Handler.Comment.{
  parse_table_comment, apply_setting, trim, apply_tokens, tokens, apply_token, split_at_equals,
}
use mariadb_scylla_storage_e.Handler.Sequence.{at, all_rows, read_to_end, read_to_end-all_rows}
use mariadb_scylla_storage_e.Handler.Tape.{Tape, play, Implements}
use mariadb_scylla_storage_e.Handler.Refining.{run-play}
use mariadb_scylla_storage_e.Tests.{
  reader, counter, counter-IsLedger, defaults, id_field, memory, offline, scanning, unopened, users,
}

-- A new handler truncates its table; the server fills the record buffer; a scan begins; and another
-- handler does something.
abbrev truncated : State cells counter
truncated = (Tables.truncate cells counter defaults unopened).1

abbrev begun : State cells counter
begun = (Scan.rnd_init cells counter (record truncated { memory = memory }) true).1

history :
    Reach cells counter defaults counter-IsLedger unopened (record begun { world = begun.world })
unfolding run
history =
    next
      (next
        (next
          (next here (call Call.truncate (Tables.truncate cells counter defaults unopened).0 refl))
          (fill truncated memory))
        (call (Call.rnd_init true)
          (Scan.rnd_init cells counter (record truncated { memory = memory }) true).0 refl))
      (elsewhere begun begun.world refl)

Reach-destroy_example :
    IsAccounted cells counter counter-IsLedger 0 begun
    × (destroy cells counter begun.handler.conn begun.world ≡ 0)
Reach-destroy_example =
    Reach-destroy cells counter defaults counter-IsLedger unopened begun refl history

run-table_example :
    Holds
      (λ st. st.table ≡ users)
      (run cells counter defaults scanning (Call.update_row (pos 100) (pos 200)))
run-table_example =
    run-table cells cells-IsLawful counter defaults scanning (Call.update_row (pos 100) (pos 200))
      ((refl, (id_field, refl)), tt) refl

-- A driver whose cluster refuses every connection.
abbrev refusing : Driver
refusing = record counter { session_connect = λ w c. (false, w + 1) }

abbrev stranded : State cells refusing
stranded = record { handler = offline.handler; table = users; memory = memory; world = 0 }

-- The handler with the hosts of a table comment.
abbrev away : State cells refusing
away = record stranded {
  handler = with_keyspace defaults (record (stranded.handler) { scylla_hosts = codes "10.0.0.9" });
}

outset-away :
    outset cells refusing defaults stranded
      (Call.create (codes "./test/users") users (some (codes "scylla_hosts=10.0.0.9")))
    ≡ some away
unfolding parse_table_comment apply_setting trim apply_tokens tokens apply_token split_at_equals
outset-away = refl

run-IsLost_example : Answers cells refusing (IsLost cells refusing memory) (
    run cells refusing defaults stranded
      (Call.create (codes "./test/users") users (some (codes "scylla_hosts=10.0.0.9"))))
run-IsLost_example =
    run-IsLost cells refusing defaults stranded away
      (Call.create (codes "./test/users") users (some (codes "scylla_hosts=10.0.0.9"))) outset-away
      refl

run-IsSent_example :
    Answers cells counter
      (IsSent cells counter)
      (run cells counter defaults offline (Call.write_row (pos 200)))
run-IsSent_example =
    run-IsSent cells counter defaults offline offline (Call.write_row (pos 200)) refl refl

read_value-get_cql_value_example :
    read_value (mariadb_to_cql_type cells id_field) (get_cql_value cells memory id_field)
    ≡ some (CqlValue.integer (pos 7))
read_value-get_cql_value_example =
    read_value-get_cql_value cells cells-IsLawful memory id_field refl

-- A scan that has read one of its two rows.
abbrev halfway : Tape
halfway = record {
  read = (codes "7" ∷ codes "Ann" ∷ []) ∷ [];
  unread = (codes "8" ∷ codes "Bob" ∷ []) ∷ [];
  noted = 0;
}

run-play_example :
    Implements cells cells-IsLawful counter scanning
      (play {S = cells} halfway (Call.rnd_next (pos 200)))
      (run cells counter defaults scanning (Call.rnd_next (pos 200)))
run-play_example =
    run-play cells cells-IsLawful counter defaults scanning halfway (Call.rnd_next (pos 200))
      (record { rows = refl; place = refl; note = refl; short = omega arith }) refl

read_to_end-all_rows_example :
    read_to_end cells counter 3
      (at cells cells-IsLawful counter scanning (pos 200) memory 0)
      (pos 200)
    ≡ (all_rows cells cells-IsLawful counter scanning (pos 200) memory reader.result_set >>= λ ms.
        ok (some ms))
read_to_end-all_rows_example =
    read_to_end-all_rows cells cells-IsLawful counter scanning (pos 200) memory 0 reader.result_set
      refl
