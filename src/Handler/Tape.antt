-- ===== src/Handler/Tape.antt =====
-- What a handler's cursor promises, without positions: a tape of rows, those that were read and those
-- that are still to be read, and what `rnd_next`, `rnd_pos`, `position`, `rnd_end` and the calls on
-- an index do to it.
use mariadb_scylla_storage_e.Prelude.{
  ℕ, ◌-◌, ◌<◌, ◌^◌, Bool, true, false, Option, none, some, List, [], ◌∷◌, ◌++◌, ◌≡◌, get_elem?,
  length,
}
use mariadb_scylla_storage_e.Prelude.Int.{ℤ}
use mariadb_scylla_storage_e.Prelude.Text.{Bytes}
use mariadb_scylla_storage_e.Numerals.{Result, ok, ◌>>=◌}
use mariadb_scylla_storage_e.Server.{Server, IsLawful}
use mariadb_scylla_storage_e.Connection.Driver.{Driver}
use mariadb_scylla_storage_e.Handler.State.{Code, success, end_of_file, wrong_command, State}
use mariadb_scylla_storage_e.Handler.Cursor.{stored}
use mariadb_scylla_storage_e.Handler.Calls.{Call}

pub record Tape : Type 0 where
  pub read : List (List Bytes)
  pub unread : List (List Bytes)
  -- The number that `position` noted.
  pub noted : ℕ

-- What a call shows: a row in the buffer, or a return code alone.
pub data Outcome : Type 0 where
  row : ℤ → List Bytes → Outcome
  answer : Code → Outcome

abbrev pub all_of : Tape → List (List Bytes)
all_of t = t.read ++ t.unread

abbrev pub rewound : Tape → Tape
rewound t = record { read = []; unread = all_of t; noted = t.noted }

-- The next row is read, or there is none.
abbrev pub read_next : ℤ → ℕ → List (List Bytes) → List (List Bytes) → Outcome × Tape
read_next buf noted read [] =
    (answer end_of_file, record { read = read; unread = []; noted = noted })
read_next buf noted read (r ∷ unread) =
    (row buf r, record { read = read ++ (r ∷ []); unread = unread; noted = noted })

abbrev pub read_at : ℤ → Option (List Bytes) → Outcome
read_at buf none = answer end_of_file
read_at buf (some r) = row buf r

-- The number of the row that was read last; before the first row, the largest `size_t`.
abbrev pub last_of : List (List Bytes) → ℕ
last_of [] = 2 ^ 64 - 1
last_of (_ ∷ rows) = length rows

module _ {S : Server} where
  -- The calls of a cursor, and what they do.
  abbrev pub browses : Call S → Bool
  browses (Call.rnd_next buf) = true
  browses (Call.index_next buf) = true
  browses (Call.index_prev buf) = true
  browses (Call.index_first buf) = true
  browses (Call.index_last buf) = true
  browses (Call.rnd_pos buf pos) = true
  browses Call.position = true
  browses Call.rnd_end = true
  browses (Call.index_init idx) = true
  browses Call.index_end = true
  browses _ = false

  abbrev pub play : Tape → Call S → Outcome × Tape
  play t (Call.rnd_next buf) = read_next buf t.noted t.read t.unread
  play t (Call.index_next buf) = read_next buf t.noted t.read t.unread
  play t (Call.index_first buf) = read_next buf t.noted [] (all_of t)
  play t (Call.index_prev buf) = (answer wrong_command, t)
  play t (Call.index_last buf) = (answer wrong_command, t)
  play t (Call.rnd_pos buf pos) = (read_at buf (get_elem? (all_of t) pos), t)
  play t Call.position = (answer success, record t { noted = last_of t.read })
  play t Call.rnd_end = (answer success, rewound t)
  play t _ = (answer success, t)

module _ (S : Server) (law : IsLawful S) (D : Driver) where
  -- The state of a handler that stands for a tape.
  pub record Shows (t : Tape) (st : State S D) : Type 0 where
    pub rows : st.handler.result_set ≡ all_of t
    pub place : st.handler.current_position ≡ length t.read
    pub note : st.handler.ref ≡ t.noted
    pub short : length (all_of t) < 2 ^ 64

  -- The call does to the state what it does to the tape: it returns the code, or converts the row
  -- into the buffer and returns 0 unless the conversion throws; all else of the memory stays.
  abbrev pub Implements : State S D → Outcome × Tape → Result (Code × State S D) → Type 0
  Implements st (row buf r, t) result =
      (st' : State S D) × Shows t st'
      × (result ≡ (stored S law D st buf r >>= λ m. ok (success, record st' { memory = m })))
  Implements st (answer code, t) result =
      (st' : State S D) × Shows t st' × (result ≡ ok (code, st')) × (st'.memory ≡ st.memory)
