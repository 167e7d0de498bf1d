-- ===== src/Handler/Sequence.antt =====
-- A whole scan, and reading a row again by its position.
use mariadb_scylla_storage_e.Prelude.{
  ℕ, zero, suc, ◌+◌, ◌-◌, ◌<◌, ◌^◌, ◌%◌, Option, none, some, List, [], ◌∷◌, ◌≡◌, ◌∙◌, refl, sym, ap,
  arith, get_elem?, length, drop,
}
use mariadb_scylla_storage_e.Prelude.Int.{ℤ}
use mariadb_scylla_storage_e.Prelude.Text.{Bytes}
use mariadb_scylla_storage_e.Numerals.{Result, ok, throw, ◌>>=◌}
use mariadb_scylla_storage_e.Server.{Server, IsLawful}
use mariadb_scylla_storage_e.Connection.Driver.{Driver}
use mariadb_scylla_storage_e.Handler.State.{
  Code, success, end_of_file, key_not_found, no_connection, generic, wrong_command, State,
}
use mariadb_scylla_storage_e.Handler.Scan.{rnd_next, rnd_pos, position}
use mariadb_scylla_storage_e.Handler.Record.{store_result_to_record}
use mariadb_scylla_storage_e.Handler.Cursor.{stored, rnd_next_lem, store_row_lem}

abbrev pub collect {ℓ} : {A : Type ℓ} → A → Option (List A) → Option (List A)
collect m none = none
collect m (some ms) = some (m ∷ ms)

module _ (S : Server) (D : Driver) where
  -- What a caller does that reads to the end of the file: the memory after each row that was read,
  -- or nothing if the fuel does not reach the end or a call reports anything else.
  abbrev pub read_on :
      (State S D → Result (Option (List S.Memory)))
      → Code × State S D
      → Result (Option (List S.Memory))
  read_on next (success, st) = next st >>= λ ms. ok (collect st.memory ms)
  read_on next (end_of_file, st) = ok (some [])
  read_on next (key_not_found, st) = ok none
  read_on next (no_connection, st) = ok none
  read_on next (generic, st) = ok none
  read_on next (wrong_command, st) = ok none

  unfoldable pub read_to_end : ℕ → State S D → ℤ → Result (Option (List S.Memory))
  read_to_end zero st buf = ok none
  read_to_end (suc fuel) st buf = rnd_next S D st buf >>= read_on (λ st'. read_to_end fuel st' buf)

last_position : (p : ℕ) → p + 1 < 2 ^ 64 → (p + 1 + 2 ^ 64 - 1) % 2 ^ 64 ≡ p
last_position p h = omega arith

suc_add : (n : ℕ) → suc n ≡ n + 1
suc_add n = omega arith

abbrev head? {ℓ} : {A : Type ℓ} → List A → Option A
head? [] = none
head? (x ∷ _) = some x

drop-cons {ℓ} :
    {A : Type ℓ} (n : ℕ) (xs : List A) (x : A) (rest : List A)
    → drop n xs ≡ x ∷ rest
    → (get_elem? xs n ≡ some x) × (drop (suc n) xs ≡ rest)
drop-cons zero [] x rest h = cc
drop-cons zero (y ∷ xs) x rest h = (ap head? h, ap (drop 1) h)
drop-cons (suc n) [] x rest h = cc
drop-cons (suc n) (y ∷ xs) x rest h = drop-cons n xs x rest h

drop-nil {ℓ} : {A : Type ℓ} (n : ℕ) (xs : List A) → drop n xs ≡ [] → get_elem? xs n ≡ none
drop-nil zero [] h = refl
drop-nil zero (y ∷ xs) h = cc
drop-nil (suc n) [] h = refl
drop-nil (suc n) (y ∷ xs) h = drop-nil n xs h

collect-some {ℓ} :
    {A : Type ℓ} (m : A) (r : Result (List A))
    → ((r >>= λ ms. ok (some ms)) >>= λ ms. ok (collect m ms))
      ≡ ((r >>= λ ms. ok (m ∷ ms)) >>= λ ms. ok (some ms))
collect-some m (ok ms) = refl
collect-some m (throw e) = refl

module _ (S : Server) (law : IsLawful S) (D : Driver) (st : State S D) (buf : ℤ) where
  -- The state with this memory and position.
  abbrev pub at : S.Memory → ℕ → State S D
  at m p = record st { memory = m; handler = record (st.handler) { current_position = p } }

  -- The memory after each of the rows is stored into the buffer, one after the other.
  abbrev pub all_rows : S.Memory → List (List Bytes) → Result (List S.Memory)
  all_rows m [] = ok []
  all_rows m (row ∷ rows) = stored S law D (record st { memory = m }) buf row >>= λ m'.
      all_rows m' rows >>= λ ms. ok (m' ∷ ms)

  read_rest :
      (p : ℕ) (rows : List (List Bytes))
      → ((m : S.Memory)
          → read_to_end S D (suc (length rows)) (at m (p + 1)) buf
            ≡ (all_rows m rows >>= λ ms. ok (some ms)))
      → (r : Result S.Memory)
      → ((r >>= λ m. ok (success, at m (p + 1)))
          >>= read_on S D (λ st'. read_to_end S D (suc (length rows)) st' buf))
        ≡ ((r >>= λ m. all_rows m rows >>= λ ms. ok (m ∷ ms)) >>= λ ms. ok (some ms))
  read_rest p rows rest (ok m) = rw (rest m) (collect-some m (all_rows m rows))
  read_rest p rows rest (throw e) = refl

  -- A scan from any position, read to the end of the file, stores exactly the rows from that
  -- position on, in order and each of them once, and then ends. The fuel is one call for each row
  -- and one for the end. A conversion that throws ends the scan.
  pub read_to_end-all_rows :
      (m : S.Memory) (p : ℕ) (rows : List (List Bytes))
      → drop p st.handler.result_set ≡ rows
      → read_to_end S D (suc (length rows)) (at m p) buf ≡ (all_rows m rows >>= λ ms. ok (some ms))
  unfolding read_to_end
  read_to_end-all_rows m p [] e =
      rw (rnd_next_lem S law D (at m p) buf, drop-nil p st.handler.result_set e)
  read_to_end-all_rows m p (row ∷ rows) e =
      let (here, there) = drop-cons p st.handler.result_set row rows e in
      rw (rnd_next_lem S law D (at m p) buf, here)
        (read_rest p rows
          (λ m'.
            read_to_end-all_rows m' (p + 1) rows
              (ap (λ n. drop n st.handler.result_set) (sym (suc_add p)) ∙ there))
          (stored S law D (at m p) buf row))

  -- The row that a scan has just read is read again from the position that `position` notes for it,
  -- into any buffer. Fewer than 2^64 rows come before it.
  pub rnd_pos-position :
      (m : S.Memory) (p : ℕ) (row : List Bytes)
      → p + 1 < 2 ^ 64
      → get_elem? st.handler.result_set p ≡ some row
      → rnd_pos S D (position S D (at m (p + 1))) buf (position S D (at m (p + 1))).handler.ref ≡ (
          stored S law D (record st { memory = m }) buf row >>= λ m'.
          ok (success, position S D (at m' (p + 1))))
  unfolding rnd_pos position store_result_to_record
  rnd_pos-position m p row h e =
      let noted = position S D (at m (p + 1)) in
      ap (λ q. rnd_pos S D noted buf q) (last_position p h)
      ∙ rw (e, store_result_to_record) (store_row_lem S law D noted buf row)
