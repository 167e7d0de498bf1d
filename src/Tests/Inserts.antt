-- ===== src/Tests/Inserts.antt =====
-- The theorem on a row that is written and read, at a concrete row.
use mariadb_scylla_storage_e.Prelude.{[], if◌then◌else◌, ◌∷◌}
use mariadb_scylla_storage_e.Prelude.Int.{pos, ◌==ℤ◌}
use mariadb_scylla_storage_e.Prelude.Text.{Bytes, codes}
use mariadb_scylla_storage_e.Server.Cells.{CellField, CellMemory, moment, cells, cells-IsLawful}
use mariadb_scylla_storage_e.Server.{FieldType, MysqlTime, timestamp_date}
use mariadb_scylla_storage_e.Types.Store.{zero_time}
use mariadb_scylla_storage_e.Query.Table.{Table}
use mariadb_scylla_storage_e.Connection.Driver.{CassResult, CassValue}
use mariadb_scylla_storage_e.Connection.Values.{value_string}
use mariadb_scylla_storage_e.Handler.State.{State}
use mariadb_scylla_storage_e.Handler.Columns.{Columns}
use mariadb_scylla_storage_e.Handler.WriteRead.{source}
use mariadb_scylla_storage_e.Tests.{serving, id_field, name_field, users, memory, reader}

-- A table with a date; the row at 200 has the date 2024-02-29.
abbrev due_field : CellField
due_field = record id_field { name = codes "due"; type = FieldType.date; ptr = pos 103 }

abbrev people : Table cells
people = record users { field = id_field ∷ name_field ∷ due_field ∷ [] }

abbrev leap_day : MysqlTime
leap_day = record (zero_time timestamp_date) { year = 2024; month = 2; day = 29 }

abbrev rows : CellMemory
rows = record {
  cell = λ p. if p ==ℤ pos 203 then moment leap_day else memory.cell p;
  null = memory.null;
}

-- The answer has the columns in another order than the table, and in capitals.
abbrev ann : CassResult Bytes Bytes Bytes
ann = record {
  columns = codes "NAME" ∷ codes "ID" ∷ codes "due" ∷ [];
  rows =
      (CassValue.text (codes "Ann") ∷ CassValue.int (pos 8) ∷ CassValue.date 2147503430 ∷ []) ∷ [];
}

abbrev inserting : State cells (serving ann)
inserting = record { handler = reader; table = people; memory = rows; world = 2 }

abbrev ann_columns : Columns
ann_columns =
    (codes "NAME", value_string (serving ann) (CassValue.text (codes "Ann")))
    ∷ (codes "ID", value_string (serving ann) (CassValue.int (pos 8)))
    ∷ (codes "due", value_string (serving ann) (CassValue.date 2147503430))
    ∷ []

abbrev at_buffer : CellField → CellField
at_buffer = source cells cells-IsLawful (serving ann) rows (pos 100) (pos 200)
