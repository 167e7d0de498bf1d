-- ===== src/Handler/Answering.antt =====
-- What `connect_to_scylla` and `execute_cql` answer when the cluster can be reached and when it
-- cannot, and what the calls that go on behind them answer.
use mariadb_scylla_storage_e.Prelude.{
  ℕ, List, get_elem?, true, false, Option, none, some, ◌≡◌, ◌≢◌, ◌∙◌, arith, Bool-cases, inl, inr,
}
use mariadb_scylla_storage_e.Prelude.Text.{Bytes, is_empty}
use mariadb_scylla_storage_e.Prelude.Int.{ℤ}
use mariadb_scylla_storage_e.Numerals.{Result, ok, throw, ◌>>=◌}
use mariadb_scylla_storage_e.Server.{Server}
use mariadb_scylla_storage_e.Connection.Driver.{Driver}
use mariadb_scylla_storage_e.Connection.Session.{Connection}
use mariadb_scylla_storage_e.Handler.State.{
  Code, success, end_of_file, key_not_found, no_connection, generic, wrong_command, State,
}
use mariadb_scylla_storage_e.Handler.Cql.{
  is_online, connect_to_scylla, run_on, on_success, execute_cql,
}
use mariadb_scylla_storage_e.Handler.Record.{store_row, store_result_to_record}
use mariadb_scylla_storage_e.Handler.Scan as Scan
use mariadb_scylla_storage_e.Handler.Reaching.{reaches, connect_to_scylla-reaches}

module _ (S : Server) (D : Driver) where
  -- What an answer of a call is, if the call returns.
  abbrev pub Answers : (Code × State S D → Type 0) → Result (Code × State S D) → Type 0
  Answers P (ok r) = P r
  Answers P (throw e) = Unit

  -- No connection, and nothing stored in a record buffer.
  abbrev pub IsLost : S.Memory → Code × State S D → Type 0
  IsLost m r = (r.0 ≡ no_connection) × (r.1.memory ≡ m)

  abbrev pub IsSent : Code × State S D → Type 0
  IsSent r = r.0 ≢ no_connection

  pub on_success-IsLost :
      (r : Code × State S D) (m : S.Memory) (k : State S D → Code × State S D)
      → IsLost m r
      → IsLost m (on_success S D r k)
  unfolding on_success
  on_success-IsLost (success, st) m k h = cc
  on_success-IsLost (end_of_file, st) m k h = h
  on_success-IsLost (key_not_found, st) m k h = h
  on_success-IsLost (no_connection, st) m k h = h
  on_success-IsLost (generic, st) m k h = h
  on_success-IsLost (wrong_command, st) m k h = h

  pub connect-IsLost :
      (st : State S D) → reaches S D st ≡ false → IsLost st.memory (connect_to_scylla S D st)
  connect-IsLost st e =
      let (code, memory) = connect_to_scylla-reaches S D st in (code ∙ rw e, memory)

  pub execute-IsLost :
      (st : State S D) (cql : Bytes)
      → reaches S D st ≡ false
      → IsLost st.memory (execute_cql S D st cql)
  unfolding execute_cql
  execute-IsLost st cql e =
      on_success-IsLost (connect_to_scylla S D st) st.memory _ (connect-IsLost st e)

  run_on-IsSent :
      (c : Option Connection) (st : State S D) (cql : Bytes) → IsSent (run_on S D c st cql)
  unfolding run_on
  run_on-IsSent none st cql = cc
  run_on-IsSent (some c) st cql = ground arith

  pub on_success-IsSent :
      (r : Code × State S D) (k : State S D → Code × State S D)
      → r.0 ≡ success
      → IsSent (k r.1)
      → IsSent (on_success S D r k)
  unfolding on_success
  on_success-IsSent (success, st) k e h = h
  on_success-IsSent (end_of_file, st) k e h = cc
  on_success-IsSent (key_not_found, st) k e h = cc
  on_success-IsSent (no_connection, st) k e h = cc
  on_success-IsSent (generic, st) k e h = cc
  on_success-IsSent (wrong_command, st) k e h = cc

  pub connect-IsSent :
      (st : State S D) → reaches S D st ≡ true → (connect_to_scylla S D st).0 ≡ success
  connect-IsSent st e = (connect_to_scylla-reaches S D st).0 ∙ rw e

  pub execute-IsSent :
      (st : State S D) (cql : Bytes) → reaches S D st ≡ true → IsSent (execute_cql S D st cql)
  unfolding execute_cql
  execute-IsSent st cql e =
      on_success-IsSent (connect_to_scylla S D st) _ (connect-IsSent st e) (run_on-IsSent _ _ cql)

  pub first_match-IsLost :
      (buf : ℤ) (m : S.Memory) (r : Code × State S D)
      → IsLost m r
      → Answers (IsLost m) (Scan.first_match S D buf r)
  unfolding Scan.first_match
  first_match-IsLost buf m (success, st) h = cc
  first_match-IsLost buf m (end_of_file, st) h = h
  first_match-IsLost buf m (key_not_found, st) h = h
  first_match-IsLost buf m (no_connection, st) h = h
  first_match-IsLost buf m (generic, st) h = h
  first_match-IsLost buf m (wrong_command, st) h = h

  store_row-IsSent :
      (st : State S D) (buf : ℤ) (row : List Bytes) → Answers IsSent (store_row S D st buf row)
  unfolding store_row
  store_row-IsSent st buf row = go _ _
    where
      go :
          (r : Result S.Memory) (f : S.Memory → State S D)
          → Answers IsSent (r >>= λ m. ok (success, f m))
      go (ok m) f = cc
      go (throw e) f = tt

  store_result-IsSent :
      (st : State S D) (buf : ℤ) (i : ℕ) → Answers IsSent (store_result_to_record S D st buf i)
  unfolding store_result_to_record
  store_result-IsSent st buf i = go (get_elem? st.handler.result_set i)
    where
      go :
          (r : Option (List Bytes))
          → Answers IsSent
              (elim r [ none ↦ ok (end_of_file, st) | some row ↦ store_row S D st buf row ])
      go none = cc
      go (some row) = store_row-IsSent st buf row

  keep-IsSent :
      (r : Result (Code × State S D)) (f : State S D → State S D)
      → Answers IsSent r
      → Answers IsSent (r >>= λ p. ok (p.0, f p.1))
  keep-IsSent (ok p) f h = h
  keep-IsSent (throw e) f h = tt

  pub first_match-IsSent :
      (buf : ℤ) (r : Code × State S D) → IsSent r → Answers IsSent (Scan.first_match S D buf r)
  unfolding Scan.first_match
  first_match-IsSent buf (success, st) h = elim (Bool-cases (is_empty st.handler.result_set)) [
    | inl e ↦ rw (e, Scan.first_match) (cc)
    | inr e ↦
        rw (e, Scan.first_match)
          (keep-IsSent (store_result_to_record S D st buf 0) _ (store_result-IsSent st buf 0))
  ]
  first_match-IsSent buf (end_of_file, st) h = h
  first_match-IsSent buf (key_not_found, st) h = h
  first_match-IsSent buf (no_connection, st) h = h
  first_match-IsSent buf (generic, st) h = h
  first_match-IsSent buf (wrong_command, st) h = h

  pub reaches_online :
      (st : State S D) → is_online S D st.handler.conn ≡ true → reaches S D st ≡ true
  reaches_online st e = rw e

  run_on-online :
      (c : Option Connection) (st : State S D) (cql : Bytes)
      → is_online S D st.handler.conn ≡ true
      → is_online S D (run_on S D c st cql).1.handler.conn ≡ true
  unfolding run_on
  run_on-online none st cql e = e
  run_on-online (some c) st cql e = e

  -- A statement on a handler that is connected leaves it connected.
  pub execute-online :
      (st : State S D) (cql : Bytes)
      → is_online S D st.handler.conn ≡ true
      → is_online S D (execute_cql S D st cql).1.handler.conn ≡ true
  unfolding execute_cql connect_to_scylla on_success
  execute-online st cql e = rw (e, connect_to_scylla) (run_on-online _ st cql e)
