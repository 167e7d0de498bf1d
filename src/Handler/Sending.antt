-- ===== src/Handler/Sending.antt =====
-- A step behind `connect_to_scylla`, as `execute_cql`, against its dialogue.
use mariadb_scylla_storage_e.Prelude.{
  ℕ, Bool, true, false, List, [], ◌∷◌, ◌++◌, append_assoc, ◌≡◌, ◌∙◌, refl, ap, Bool-cases, inl, inr,
  if◌then◌else◌,
}
use mariadb_scylla_storage_e.Prelude.Text.{Bytes}
use mariadb_scylla_storage_e.Server.{Server, IsLawful}
use mariadb_scylla_storage_e.Connection.Driver.{Driver, IsLedger}
use mariadb_scylla_storage_e.Connection.Session.{Connection}
use mariadb_scylla_storage_e.Connection.Journal.{IsJournal}
use mariadb_scylla_storage_e.Handler.State.{
  Handler, Code, success, end_of_file, key_not_found, no_connection, generic, wrong_command, State,
}
use mariadb_scylla_storage_e.Handler.Cql.{
  is_online, connect_to_scylla, run_on, on_success, execute_cql,
}
use mariadb_scylla_storage_e.Handler.Interference.{IsServing, connect_to_scylla_online}
use mariadb_scylla_storage_e.Handler.Reconnect.{IsAccounted, connect_to_scylla-IsReady}
use mariadb_scylla_storage_e.Handler.Reaching.{reaches, connect_to_scylla-reaches, connect-online}
use mariadb_scylla_storage_e.Handler.Dropping.{HasNames, connect_to_scylla-HasNames}
use mariadb_scylla_storage_e.Handler.Dialogue.{
  greeting, dialogue, exchange_known, sent-connect_offline, IsServing-of, sent-run_on,
}

module _ (S : Server) (law : IsLawful S) (D : Driver) (journal : IsJournal D)
    (ledger : IsLedger D) where
  open journal use {sent}

  -- What a step behind a connection finds, and what it is to send.
  abbrev pub Sends : Handler → (State S D → Code × State S D) → List Bytes → Type 0
  Sends h k body =
      (st : State S D) (c : Connection)
      → IsServing st c
      → HasNames S D h st.handler
      → sent (k st).1.world ≡ sent st.world ++ body

  after_success :
      (r : Code × State S D) (k : State S D → Code × State S D)
      → r.0 ≡ success
      → on_success S D r k ≡ k r.1
  unfolding on_success
  after_success (success, st) k e = refl
  after_success (end_of_file, st) k e = cc
  after_success (key_not_found, st) k e = cc
  after_success (no_connection, st) k e = cc
  after_success (generic, st) k e = cc
  after_success (wrong_command, st) k e = cc

  after_failure :
      (r : Code × State S D) (k : State S D → Code × State S D)
      → r.0 ≡ no_connection
      → on_success S D r k ≡ r
  unfolding on_success
  after_failure (success, st) k e = cc
  after_failure (end_of_file, st) k e = refl
  after_failure (key_not_found, st) k e = refl
  after_failure (no_connection, st) k e = refl
  after_failure (generic, st) k e = refl
  after_failure (wrong_command, st) k e = refl

  offline_of : (st : State S D) → reaches S D st ≡ false → is_online S D st.handler.conn ≡ false
  offline_of st e = elim (Bool-cases (is_online S D st.handler.conn)) [ inl o ↦ cc | inr o ↦ o ]

  sent-connected :
      (st : State S D) (others : ℕ) (k : State S D → Code × State S D) (body : List Bytes)
      → IsAccounted S D ledger others st
      → Sends st.handler k body
      → reaches S D st ≡ true
      → sent (on_success S D (connect_to_scylla S D st) k).1.world
        ≡ sent (connect_to_scylla S D st).1.world ++ body
  sent-connected st others k body a sends e =
      let r = connect_to_scylla S D st in
      let (ready, _) = connect_to_scylla-IsReady S D ledger st others a in
      let (c, serving) =
        IsServing-of S law D journal ledger r.1 r.1.handler.conn refl ready.sound
          (connect-online S D st e) in
      let made : r.0 ≡ success = (connect_to_scylla-reaches S D st).0 ∙ rw e in
      ap (λ (p : Code × State S D). sent p.1.world) (after_success r k made)
      ∙ sends r.1 c serving (connect_to_scylla-HasNames S D st)

  -- A step behind `connect_to_scylla` sends its statements in a dialogue S law D journal.
  pub sent-on_success :
      (st : State S D) (others : ℕ) (k : State S D → Code × State S D) (body : List Bytes)
      → IsAccounted S D ledger others st
      → Sends st.handler k body
      → sent (on_success S D (connect_to_scylla S D st) k).1.world
        ≡ sent st.world ++ dialogue S law D journal st body
  sent-on_success st others k body a sends = elim (Bool-cases (reaches S D st)) [
    | inl e ↦
        sent-connected st others k body a sends e
        ∙ elim (Bool-cases (is_online S D st.handler.conn)) [
          | inl o ↦
              ap (λ (p : Code × State S D). sent p.1.world ++ body)
                (connect_to_scylla_online S law D st o)
              ∙ ap (λ log. sent st.world ++ log)
                  (exchange_known S law D journal _ _ true true st.handler.keyspace_name body e o)
          | inr o ↦
              ap (λ log. log ++ body)
                (sent-connect_offline S law D journal ledger st o
                  ∙ ap
                      (λ (b : Bool).
                        sent st.world
                        ++ (if b then greeting S law D journal st.handler.keyspace_name else []))
                      e)
              ∙ (append_assoc (sent st.world) (greeting S law D journal st.handler.keyspace_name)
                    body
                  ∙ ap (λ log. sent st.world ++ log)
                      (exchange_known S law D journal _ _ true false st.handler.keyspace_name body e
                        o))
        ]
    | inr e ↦
        let lost : (connect_to_scylla S D st).0 ≡ no_connection =
          (connect_to_scylla-reaches S D st).0 ∙ rw e in
        ap (λ (p : Code × State S D). sent p.1.world)
          (after_failure (connect_to_scylla S D st) k lost)
        ∙ (sent-connect_offline S law D journal ledger st (offline_of st e)
            ∙ (ap
                  (λ (b : Bool).
                    sent st.world
                    ++ (if b then greeting S law D journal st.handler.keyspace_name else []))
                  e
                ∙ ap (λ log. sent st.world ++ log)
                    (exchange_known S law D journal _ _ false false st.handler.keyspace_name body e
                      (offline_of st e))))
  ]

  -- `execute_cql`
  pub sent-execute_cql :
      (st : State S D) (others : ℕ) (cql : Bytes)
      → IsAccounted S D ledger others st
      → sent (execute_cql S D st cql).1.world
        ≡ sent st.world ++ dialogue S law D journal st (cql ∷ [])
  unfolding execute_cql
  sent-execute_cql st others cql a =
      sent-on_success st others (λ st'. run_on S D st'.handler.conn st' cql) (cql ∷ []) a
        (λ st' c s names.
          ap (λ o. sent (run_on S D o st' cql).1.world) s.0
          ∙ sent-run_on S law D journal ledger st' c cql s)
