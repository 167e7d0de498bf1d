-- ===== src/Tests/Calls.antt =====
-- The theorems on connections and handlers at concrete states.
use mariadb_scylla_storage_e.Prelude.{true, some, [], ◌∷◌, ◌≡◌, refl, arith, if◌then◌else◌}
use mariadb_scylla_storage_e.Prelude.Int.{pos, ◌+ℤ◌}
use mariadb_scylla_storage_e.Prelude.Text.{codes}
use mariadb_scylla_storage_e.Numerals.{ok, to_string, ◌>>=◌}
use mariadb_scylla_storage_e.Server.Cells.{cells, cells-IsLawful}
use mariadb_scylla_storage_e.Connection.Session.{take_response, execute}
use mariadb_scylla_storage_e.Connection.Values.{value_string}
use mariadb_scylla_storage_e.Handler.State.{State, new_handler, success, end_of_file, no_connection}
use mariadb_scylla_storage_e.Handler.Comment.{parse_table_comment, apply_setting, trim}
use mariadb_scylla_storage_e.Handler.Settings.{IsWritable, apply_settings, parse_table_comment-join}
use mariadb_scylla_storage_e.Handler.Cql.{on_success, is_online, connect_to_scylla, execute_cql}
use mariadb_scylla_storage_e.Handler.Rows.{update_row}
use mariadb_scylla_storage_e.Handler.Scan.{rnd_next, index_read_map, rnd_init, rnd_pos, position}
use mariadb_scylla_storage_e.Handler.Sequence.{all_rows, read_to_end, rnd_pos-position}
use mariadb_scylla_storage_e.Handler.FullScan.{
  answered, opened, world_after, texts, rnd_init-all_rows,
}
use mariadb_scylla_storage_e.Handler.Lookup.{first_stored, looking, index_read_map-first_stored}
use mariadb_scylla_storage_e.Handler.Tables.{base_name, with_table_name, delete_table, open_table}
use mariadb_scylla_storage_e.Server.Cells.{CellField}
use mariadb_scylla_storage_e.Handler.Storing.{Holds}
use mariadb_scylla_storage_e.Handler.Opening.{named, open_table-fits}
use mariadb_scylla_storage_e.Tests.{id_field, name_field}
use mariadb_scylla_storage_e.Handler.Dropping.{delete_table-new_handler}
use mariadb_scylla_storage_e.Handler.Cursor.{stored, rnd_next_lem}
use mariadb_scylla_storage_e.Handler.Interference.{rnd_next-update_row}
use mariadb_scylla_storage_e.Handler.Reconnect.{IsAccounted, connect_to_scylla-IsReady}
use mariadb_scylla_storage_e.Tests.{
  counter, counter-IsLedger, online, reader, memory, scanning, offline, serving, two_users, waiting,
  defaults, unopened, users,
}

connect_to_scylla-IsReady_example :
    IsAccounted cells counter counter-IsLedger 0 (connect_to_scylla cells counter offline).1
    × ((connect_to_scylla cells counter offline).0 ≡ (
        if is_online cells counter (connect_to_scylla cells counter offline).1.handler.conn
        then success
        else no_connection))
connect_to_scylla-IsReady_example =
    connect_to_scylla-IsReady cells counter counter-IsLedger offline 0
      (record { sound = tt; counted = refl })

rnd_next_lem_example : rnd_next cells counter scanning (pos 200) ≡ (
    stored cells cells-IsLawful counter scanning (pos 200) (codes "8" ∷ codes "Bob" ∷ []) >>= λ m.
    ok (success, record scanning { memory = m; handler = record reader { current_position = 2 } }))
rnd_next_lem_example = rnd_next_lem cells cells-IsLawful counter scanning (pos 200)

rnd_next-update_row_example :
    rnd_next cells counter (update_row cells counter scanning (pos 100) (pos 200)).1 (pos 100)
    ≡ ok (end_of_file, (update_row cells counter scanning (pos 100) (pos 200)).1)
rnd_next-update_row_example =
    rnd_next-update_row cells cells-IsLawful counter scanning online (pos 100) (pos 200) (pos 100)
      (refl, refl, refl) refl

table_setting-IsWritable : IsWritable (codes "scylla_table", codes "people")
unfolding trim
table_setting-IsWritable = record {
  key_semicolon = ground arith;
  key_equals = ground arith;
  value_semicolon = ground arith;
  key_trimmed = refl;
  value_trimmed = refl;
}

parse_table_comment-join_example :
    parse_table_comment reader (some (codes "scylla_table=people"))
    ≡ ok (record reader { table_name = codes "people" })
unfolding apply_settings apply_setting
parse_table_comment-join_example =
    parse_table_comment-join reader ((codes "scylla_table", codes "people") ∷ [])
      (table_setting-IsWritable, tt)

rnd_init-all_rows_example :
    (rnd_init cells (serving two_users) waiting true ≡ (
      success,
      opened cells cells-IsLawful
          (serving two_users)
          waiting
          two_users
          (world_after cells cells-IsLawful (serving two_users) online waiting),
    ))
    × (read_to_end cells
          (serving two_users)
          3
          (rnd_init cells (serving two_users) waiting true).1
          (pos 200)
        ≡ (all_rows cells cells-IsLawful
              (serving two_users)
              (opened cells cells-IsLawful
                (serving two_users)
                waiting
                two_users
                (world_after cells cells-IsLawful (serving two_users) online waiting))
              (pos 200)
              memory
              (texts cells cells-IsLawful (serving two_users) two_users)
            >>= λ ms. ok (some ms)))
rnd_init-all_rows_example =
    rnd_init-all_rows cells cells-IsLawful (serving two_users) waiting online two_users (pos 200)
      (refl, refl, refl) refl

rnd_pos-position_example :
    rnd_pos cells counter
      (position cells counter scanning)
      (pos 200)
      (position cells counter scanning).handler.ref
    ≡ (stored cells cells-IsLawful counter scanning (pos 200) (codes "7" ∷ codes "Ann" ∷ [])
        >>= λ m. ok (success, position cells counter (record scanning { memory = m })))
rnd_pos-position_example =
    rnd_pos-position cells cells-IsLawful counter scanning (pos 200) memory 0
      (codes "7" ∷ codes "Ann" ∷ []) (omega arith) refl

delete_table-new_handler_example :
    delete_table cells counter defaults unopened (codes "./test/users")
    ≡ on_success cells counter
        (connect_to_scylla cells counter (record unopened {
          handler = with_table_name (new_handler defaults) (codes "./test/users");
        }))
        (λ st. execute_cql cells counter st (codes "DROP TABLE IF EXISTS mariadb.users"))
unfolding base_name
delete_table-new_handler_example =
    delete_table-new_handler cells counter defaults unopened (codes "./test/users") refl

index_read_map-first_stored_example :
    index_read_map cells (serving two_users) waiting (pos 200) (pos 101) 1
    ≡ first_stored cells cells-IsLawful
        (serving two_users)
        (answered cells cells-IsLawful
          (serving two_users)
          (looking cells cells-IsLawful (serving two_users) waiting (pos 101) 1)
          two_users
          2)
        (pos 200)
        ((codes "7" ∷ codes "Ann" ∷ []) ∷ (codes "8" ∷ codes "NULL" ∷ []) ∷ [])
unfolding value_string execute to_string take_response
index_read_map-first_stored_example =
    index_read_map-first_stored cells cells-IsLawful (serving two_users) waiting online two_users
      (pos 200) (pos 101) 1 (refl, refl, refl) refl

-- The first of two fields of one byte each stands on the byte of the null bits.
abbrev low_field : CellField
low_field = record id_field { ptr = pos 100 }

abbrev overlapping : State cells counter
overlapping = record scanning {
  table = record users { field = low_field ∷ name_field ∷ []; null_bytes = 1 };
}

open_table-fits_example :
    (let moved = cells.move_field low_field (pos 100 +ℤ pos 1) in
      let opened : State cells counter =
        record (named cells cells-IsLawful counter defaults overlapping (codes "./test/users")) {
          table = record (overlapping.table) { field = moved ∷ name_field ∷ [] };
        } in
      (open_table cells counter defaults overlapping (codes "./test/users") ≡ ok (success, opened))
      × (cells.ptr moved +ℤ pos 1 ≡ pos 102)
      × Holds
          (λ st'. st'.table ≡ opened.table)
          (open_table cells counter defaults opened (codes "./test/users")))
unfolding ◌+ℤ◌
open_table-fits_example =
    open_table-fits cells cells-IsLawful counter defaults overlapping (codes "./test/users")
      low_field name_field [] refl refl refl (omega arith) refl refl refl
