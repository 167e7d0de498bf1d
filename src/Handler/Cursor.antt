-- ===== src/Handler/Cursor.antt =====
-- One step of a scan.
use mariadb_scylla_storage_e.Prelude.{
  ℕ, zero, suc, ◌+◌, false, true, Option, none, some, List, [], ◌∷◌, map, ◌≡◌, refl, arith,
  Bool-cases, inl, inr, length, leb, get_elem?,
}
use mariadb_scylla_storage_e.Prelude.Int.{ℤ, ◌-ℤ◌, negate, is_zero}
use mariadb_scylla_storage_e.Prelude.Text.{Bytes}
use mariadb_scylla_storage_e.Numerals.{Result, ok, throw, ◌>>=◌}
use mariadb_scylla_storage_e.Server.{Server, IsLawful}
use mariadb_scylla_storage_e.Connection.Driver.{Driver}
use mariadb_scylla_storage_e.Handler.State.{Code, success, end_of_file, State}
use mariadb_scylla_storage_e.Handler.Record.{
  store_columns, move_all, store_row, store_result_to_record,
}
use mariadb_scylla_storage_e.Handler.Scan.{rnd_next}

map-move_back :
    (S : Server) (law : IsLawful S) (d : ℤ) (fields : List S.Field)
    → map (λ f. S.move_field_offset f (negate d)) (map (λ f. S.move_field_offset f d) fields)
      ≡ fields
map-move_back S law d [] = refl
map-move_back S law d (f ∷ fields) =
    rw (law.move_field_offset_back f d, map-move_back S law d fields)

is_zero-negate : (d : ℤ) → is_zero (negate d) ≡ is_zero d
is_zero-negate d = ground arith

pub move_all_back :
    (S : Server) (law : IsLawful S) (d : ℤ) (fields : List S.Field)
    → move_all S (negate d) (move_all S d fields) ≡ fields
unfolding move_all
move_all_back S law d fields = elim (Bool-cases (is_zero d)) [
  | inl e ↦ rw (is_zero-negate d, e)
  | inr e ↦ rw (is_zero-negate d, e) (map-move_back S law d fields)
]

-- Two steps behind a conversion are one.
pub >>=-ok {ℓ κ μ} :
    {A : Type ℓ} {B : Type κ} {C : Type μ} (r : Result A) (g : A → B) (f : B → Result C)
    → ((r >>= λ a. ok (g a)) >>= f) ≡ (r >>= λ a. f (g a))
>>=-ok (ok a) g f = refl
>>=-ok (throw e) g f = refl

length-get_elem? {ℓ} :
    {A : Type ℓ} (xs : List A) (i : ℕ) (x : A) → get_elem? xs i ≡ some x → leb (length xs) i ≡ false
length-get_elem? [] i x h = cc
length-get_elem? (y ∷ xs) zero x h = ground arith
length-get_elem? (y ∷ xs) (suc i) x h = ground (arith, length-get_elem? xs i x h)

length-get_elem?-none {ℓ} :
    {A : Type ℓ} (xs : List A) (i : ℕ) → get_elem? xs i ≡ none → leb (length xs) i ≡ true
length-get_elem?-none [] i h = ground arith
length-get_elem?-none (y ∷ xs) zero h = cc
length-get_elem?-none (y ∷ xs) (suc i) h = ground (arith, length-get_elem?-none xs i h)

module _ (S : Server) (law : IsLawful S) (D : Driver) (st : State S D) (buf : ℤ) where
  open st use {table, handler}

  -- The memory after the row is converted into the fields, moved to `buf`.
  abbrev pub stored : List Bytes → Result S.Memory
  stored row =
      store_columns S handler.column_names row (S.clear st.memory buf table.reclength)
        (move_all S (buf -ℤ table.record0) table.field)

  pub store_row_lem :
      (row : List Bytes)
      → store_row S D st buf row ≡ (stored row >>= λ m. ok (success, record st { memory = m }))
  unfolding store_row
  store_row_lem row = λ i. stored row >>= λ m. ok (
    success,
    record st {
      memory = m;
      table = record table { field = move_all_back S law (buf -ℤ table.record0) table.field i };
    },
  )

  -- What a scan makes of the row at its position.
  abbrev pub read_step : Option (List Bytes) → Result (Code × State S D)
  read_step none = ok (end_of_file, st)
  read_step (some row) = stored row >>= λ m. ok (
    success,
    record st {
      memory = m;
      handler = record handler { current_position = handler.current_position + 1 };
    },
  )

  read_row :
      (r : Option (List Bytes))
      → get_elem? handler.result_set handler.current_position ≡ r
      → rnd_next S D st buf ≡ read_step r
  unfolding rnd_next store_result_to_record
  read_row none e = rw (length-get_elem?-none handler.result_set handler.current_position e)
  read_row (some row) e =
      rw (length-get_elem? handler.result_set handler.current_position row e)
        (rw (e, store_result_to_record) (rw (store_row_lem row) (>>=-ok (stored row) _ _)))

  -- A scan reads the row at its position into the buffer and moves on by one; the result set, the
  -- fields of the table and everything else but the memory stay as they were. Behind the last row
  -- it reports the end of the file and changes nothing. A conversion that throws ends the call.
  pub rnd_next_lem :
      rnd_next S D st buf ≡ read_step (get_elem? handler.result_set handler.current_position)
  rnd_next_lem = read_row (get_elem? handler.result_set handler.current_position) refl
