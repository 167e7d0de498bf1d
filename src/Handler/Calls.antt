-- ===== src/Handler/Calls.antt =====
-- The calls of the server on a handler, and what a sequence of them does. A call that throws has no
-- state after it.
use mariadb_scylla_storage_e.Prelude.{ℕ, Bool, Option, ◌≡◌}
use mariadb_scylla_storage_e.Prelude.Int.{ℤ}
use mariadb_scylla_storage_e.Prelude.Text.{Bytes}
use mariadb_scylla_storage_e.Numerals.{Result, ok}
use mariadb_scylla_storage_e.Server.{Server}
use mariadb_scylla_storage_e.Query.Table.{Table}
use mariadb_scylla_storage_e.Connection.Driver.{Driver, IsLedger}
use mariadb_scylla_storage_e.Handler.State.{Globals, Code, success, State}
use mariadb_scylla_storage_e.Handler.Tables as Tables
use mariadb_scylla_storage_e.Handler.Rows as Rows
use mariadb_scylla_storage_e.Handler.Scan as Scan

pub data Call (S : Server) : Type 0 where
  create : Bytes → Table S → Option Bytes → Call S
  open_table delete_table : Bytes → Call S
  close truncate : Call S
  rename_table : Bytes → Bytes → Call S
  write_row delete_row : ℤ → Call S
  update_row : ℤ → ℤ → Call S
  rnd_init : Bool → Call S
  rnd_next index_next index_prev index_first index_last : ℤ → Call S
  rnd_pos : ℤ → ℕ → Call S
  position rnd_end index_end : Call S
  index_init : ℕ → Call S
  index_read_map : ℤ → ℤ → ℕ → Call S

module _ (S : Server) (D : Driver) (g : Globals) where
  unfoldable pub run : State S D → Call S → Result (Code × State S D)
  run st (Call.create name form comment) = Tables.create S D g st name form comment
  run st (Call.open_table name) = Tables.open_table S D g st name
  run st (Call.delete_table name) = ok (Tables.delete_table S D g st name)
  run st Call.close = ok (Tables.close S D g st)
  run st Call.truncate = ok (Tables.truncate S D g st)
  run st (Call.rename_table from to) = ok (Tables.rename_table S D g st from to)
  run st (Call.write_row buf) = ok (Rows.write_row S D st buf)
  run st (Call.delete_row buf) = ok (Rows.delete_row S D st buf)
  run st (Call.update_row old_data new_data) = ok (Rows.update_row S D st old_data new_data)
  run st (Call.rnd_init scan) = ok (Scan.rnd_init S D st scan)
  run st (Call.rnd_next buf) = Scan.rnd_next S D st buf
  run st (Call.index_next buf) = Scan.index_next S D st buf
  run st (Call.index_prev buf) = ok (Scan.index_prev S D st buf)
  run st (Call.index_first buf) = Scan.index_first S D st buf
  run st (Call.index_last buf) = ok (Scan.index_last S D st buf)
  run st (Call.rnd_pos buf pos) = Scan.rnd_pos S D st buf pos
  run st Call.position = ok (success, Scan.position S D st)
  run st Call.rnd_end = ok (Scan.rnd_end S D st)
  run st Call.index_end = ok (Scan.index_end S D st)
  run st (Call.index_init idx) = ok (Scan.index_init S D st idx)
  run st (Call.index_read_map buf key keypart_map) = Scan.index_read_map S D st buf key keypart_map

  -- One step: a call that returns; the server writes into the record buffers; or the cluster and the
  -- other handlers go on, without taking or freeing objects of this handler.
  pub data Step (ledger : IsLedger D) : State S D → State S D → Type 0 where
    call :
        {st st' : State S D} (c : Call S) (code : Code)
        → run st c ≡ ok (code, st')
        → Step ledger st st'
    fill : (st : State S D) (m : S.Memory) → Step ledger st (record st { memory = m })
    elsewhere :
        (st : State S D) (w : D.World)
        → ledger.live w ≡ ledger.live st.world
        → Step ledger st (record st { world = w })

  pub data Reach (ledger : IsLedger D) (st : State S D) : State S D → Type 0 where
    here : Reach ledger st st
    next :
        {st' st'' : State S D} → Reach ledger st st' → Step ledger st' st'' → Reach ledger st st''
