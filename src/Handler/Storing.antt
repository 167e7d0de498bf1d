-- ===== src/Handler/Storing.antt =====
-- What a property of states needs to hold after a row is stored.
use mariadb_scylla_storage_e.Prelude.{
  ℕ, Option, none, some, List, ◌≡◌, refl, Bool-cases, inl, inr, get_elem?, leb, length,
}
use mariadb_scylla_storage_e.Prelude.Int.{ℤ, ◌-ℤ◌, negate}
use mariadb_scylla_storage_e.Prelude.Text.{Bytes, is_empty}
use mariadb_scylla_storage_e.Numerals.{Result, ok, throw, ◌>>=◌}
use mariadb_scylla_storage_e.Server.{Server}
use mariadb_scylla_storage_e.Connection.Driver.{Driver}
use mariadb_scylla_storage_e.Handler.State.{
  Code, success, end_of_file, key_not_found, no_connection, generic, wrong_command, State,
}
use mariadb_scylla_storage_e.Handler.Record.{move_all, store_row, store_result_to_record}
use mariadb_scylla_storage_e.Handler.Scan as Scan

-- The state after a call that returns has the property.
abbrev pub Holds {ℓ} :
    {S : Server} {D : Driver} → (State S D → Type ℓ) → Result (Code × State S D) → Type ℓ
Holds P (ok r) = P r.1
Holds P (throw e) = Unit

module _ (S : Server) (D : Driver) where
  -- A property that changes of the handler's own data and of the memory keep, and so does the fields'
  -- way to a record buffer and back.
  pub record IsStable (P : State S D → Type 0) : Type 0 where
    pub same :
        (st st' : State S D)
        → st'.handler.conn ≡ st.handler.conn
        → st'.world ≡ st.world
        → st'.table ≡ st.table
        → P st
        → P st'
    pub back :
        (st : State S D) (offset : ℤ)
        → P st
        → P (record st {
          table = record (st.table) {
            field = move_all S (negate offset) (move_all S offset st.table.field);
          };
        })

module _ (S : Server) (D : Driver) (P : State S D → Type 0) (stable : IsStable S D P) where
  Holds-bind :
      (r : Result (Code × State S D)) (k : Code × State S D → Result (Code × State S D))
      → Holds P r
      → ((p : Code × State S D) → P p.1 → Holds P (k p))
      → Holds P (r >>= k)
  Holds-bind (ok p) k h f = f p h
  Holds-bind (throw e) k h f = tt

  store_row-Holds :
      (st : State S D) (buf : ℤ) (row : List Bytes) → P st → Holds P (store_row S D st buf row)
  unfolding store_row
  store_row-Holds st buf row a = go _
    where
      go :
          (r : Result S.Memory)
          → Holds P (
              r >>= λ m. ok (
                success,
                record st {
                  memory = m;
                  table = record (st.table) {
                    field =
                        move_all S
                          (negate (buf -ℤ st.table.record0))
                          (move_all S (buf -ℤ st.table.record0) st.table.field);
                  };
                },
              ))
      go (ok m) = stable.same _ _ refl refl refl (stable.back st (buf -ℤ st.table.record0) a)
      go (throw e) = tt

  pub store_result-Holds :
      (st : State S D) (buf : ℤ) (i : ℕ) → P st → Holds P (store_result_to_record S D st buf i)
  unfolding store_result_to_record
  store_result-Holds st buf i a = go (get_elem? st.handler.result_set i)
    where
      go :
          (r : Option (List Bytes))
          → Holds P (elim r [ none ↦ ok (end_of_file, st) | some row ↦ store_row S D st buf row ])
      go none = a
      go (some row) = store_row-Holds st buf row a

  pub rnd_next-Holds : (st : State S D) (buf : ℤ) → P st → Holds P (Scan.rnd_next S D st buf)
  unfolding Scan.rnd_next
  rnd_next-Holds st buf a =
      elim (Bool-cases (leb (length st.handler.result_set) st.handler.current_position)) [
        | inl e ↦ rw (e, Scan.rnd_next) a
        | inr e ↦
            rw (e, Scan.rnd_next)
              (Holds-bind (store_result_to_record S D st buf st.handler.current_position) _
                (store_result-Holds st buf st.handler.current_position a)
                (λ p h. stable.same p.1 _ refl refl refl h))
      ]

  pub first_match-Holds :
      (buf : ℤ) (r : Code × State S D) → P r.1 → Holds P (Scan.first_match S D buf r)
  unfolding Scan.first_match
  first_match-Holds buf (success, st) a = elim (Bool-cases (is_empty st.handler.result_set)) [
    | inl e ↦ rw (e, Scan.first_match) a
    | inr e ↦
        rw (e, Scan.first_match)
          (Holds-bind (store_result_to_record S D st buf 0) _ (store_result-Holds st buf 0 a)
            (λ p h. stable.same p.1 _ refl refl refl h))
  ]
  first_match-Holds buf (end_of_file, st) a = a
  first_match-Holds buf (key_not_found, st) a = a
  first_match-Holds buf (no_connection, st) a = a
  first_match-Holds buf (generic, st) a = a
  first_match-Holds buf (wrong_command, st) a = a
