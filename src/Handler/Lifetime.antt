-- ===== src/Handler/Lifetime.antt =====
-- The driver objects of a handler as a property that every call keeps.
use mariadb_scylla_storage_e.Prelude.{ℕ, ◌+◌, Option, none, some, ◌≡◌, ◌∙◌, sym, ap, arith}
use mariadb_scylla_storage_e.Server.{Server}
use mariadb_scylla_storage_e.Connection.Driver.{Driver, IsLedger}
use mariadb_scylla_storage_e.Connection.Session.{Connection}
use mariadb_scylla_storage_e.Connection.Resources.{IsConsistent}
use mariadb_scylla_storage_e.Connection.Ledger.{live-use_keyspace, held-use_keyspace_any}
use mariadb_scylla_storage_e.Handler.State.{Globals, new_handler, State}
use mariadb_scylla_storage_e.Handler.Cql.{destroy}
use mariadb_scylla_storage_e.Handler.Tables as Tables
use mariadb_scylla_storage_e.Handler.Reconnect.{
  IsAccounted, connect_to_scylla-IsReady, execute_cql-IsAccounted, live-destroy,
}
use mariadb_scylla_storage_e.Handler.Calls.{
  Call, run, Step, Reach, call, fill, elsewhere, here, next,
}
use mariadb_scylla_storage_e.Handler.Storing.{Holds}
use mariadb_scylla_storage_e.Handler.Keeping.{IsKept, run-Holds}

module _ (S : Server) (D : Driver) (g : Globals) (ledger : IsLedger D) (others : ℕ) where
  abbrev pub IsCounted : State S D → Type 0
  IsCounted st = IsAccounted S D ledger others st

  IsCounted-same :
      (st st' : State S D)
      → st'.handler.conn ≡ st.handler.conn
      → st'.world ≡ st.world
      → IsCounted st
      → IsCounted st'
  IsCounted-same st st' e f a = record { sound = rw e (a.sound); counted = rw (e, f) (a.counted) }

  use_on-IsCounted :
      (c : Option Connection) (st : State S D)
      → st.handler.conn ≡ c
      → IsCounted st
      → IsCounted (Tables.use_on S D g c st)
  unfolding Tables.use_on
  use_on-IsCounted none st e a = a
  use_on-IsCounted (some c) st e a =
      let v : IsConsistent c = rw e at (a.sound) in
      let (v', same) = held-use_keyspace_any D ledger c st.world st.handler.keyspace_name v in
      record {
        sound = v';
        counted =
            live-use_keyspace D ledger c st.world st.handler.keyspace_name
            ∙ (a.counted ∙ rw e (ap (λ n. others + n) (sym same)));
      }

  IsCounted-IsKept : IsKept S D g IsCounted
  IsCounted-IsKept = record {
    stable = record {
      same = λ st st' e f _ a. IsCounted-same st st' e f a;
      back = λ st offset a. record { sound = a.sound; counted = a.counted };
    };
    connect = λ st a. (connect_to_scylla-IsReady S D ledger st others a).0;
    execute = λ st cql a. execute_cql-IsAccounted S D ledger st cql others a;
    use_on = use_on-IsCounted;
  }

  pub run-IsCounted :
      (st : State S D) (c : Call S) → IsCounted st → Holds IsCounted (run S D g st c)
  run-IsCounted st c =
      run-Holds S D g IsCounted IsCounted-IsKept st c
        (λ st' a. record { sound = a.sound; counted = a.counted })

  Step-IsCounted : {st st' : State S D} → Step S D g ledger st st' → IsCounted st → IsCounted st'
  Step-IsCounted (call {st} c code e) a = rw e at (run-IsCounted st c a)
  Step-IsCounted (fill st m) a = record { sound = a.sound; counted = a.counted }
  Step-IsCounted (elsewhere st w e) a = record { sound = a.sound; counted = e ∙ a.counted }

  Reach-IsCounted : {st st' : State S D} → Reach S D g ledger st st' → IsCounted st → IsCounted st'
  Reach-IsCounted here a = a
  Reach-IsCounted (next r s) a = Step-IsCounted s (Reach-IsCounted r a)

-- Over any sequence of calls on a new handler, whichever of them fail, and with whatever the server
-- and the cluster do between them, the connection stays consistent and the driver counts the objects
-- that it counted before and those that the connection holds; the destructor of the handler gives
-- those back. The calls return; a call that throws ends the sequence.
pub Reach-destroy :
    (S : Server) (D : Driver) (g : Globals) (ledger : IsLedger D) (st st' : State S D)
    → st.handler ≡ new_handler g
    → Reach S D g ledger st st'
    → IsAccounted S D ledger (ledger.live st.world) st'
      × (ledger.live (destroy S D st'.handler.conn st'.world) ≡ ledger.live st.world)
unfolding new_handler
Reach-destroy S D g ledger st st' e r =
    let start : IsAccounted S D ledger (ledger.live st.world) st = record {
      sound = rw e tt;
      counted = rw e (omega arith);
    } in
    let a = Reach-IsCounted S D g ledger (ledger.live st.world) r start in
    (a, live-destroy S D ledger st'.handler.conn st'.world (ledger.live st.world) a.counted)
