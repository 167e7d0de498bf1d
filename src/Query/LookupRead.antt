-- ===== src/Query/LookupRead.antt =====
-- What CQL reads in the SELECT of an index lookup.
use mariadb_scylla_storage_e.Prelude.{
  ℕ, zero, ◌+◌, ◌/◌, ◌%◌, ◌^◌, suc, true, none, some, List, [], ◌∷◌, map, ◌≡◌, ◌≢◌, ◌∙◌, refl, ap,
  sym, get_elem?, set, All, All-imp, All-map, Bool-cases, inl, inr, ◌==◌, Option-cases,
}
use mariadb_scylla_storage_e.Prelude.Int.{ℤ, pos, ◌+ℤ◌}
use mariadb_scylla_storage_e.Prelude.Text.{Bytes, codes}
use mariadb_scylla_storage_e.Server.{Server, IsLawful}
use mariadb_scylla_storage_e.Types.Mapping.{mariadb_to_cql_type}
use mariadb_scylla_storage_e.Types.Value.{get_cql_value}
use mariadb_scylla_storage_e.Types.Cql.{read_value}
use mariadb_scylla_storage_e.Query.Table.{KeyPart, Table, IsLinked}
use mariadb_scylla_storage_e.Query.Clauses.{lookup_from, build_where_from_key}
use mariadb_scylla_storage_e.Query.Shape.{join}
use mariadb_scylla_storage_e.Query.Statements.{build_select_cql}
use mariadb_scylla_storage_e.Query.KeyLookup.{
  selected, returned, lookup_from_step, lookup_from_stop,
}
use mariadb_scylla_storage_e.Query.KeyText.{key_equations, build_where_from_key-join}
use mariadb_scylla_storage_e.Query.Reader.{Equation, read_select}
use mariadb_scylla_storage_e.Query.Listing.{IsName}
use mariadb_scylla_storage_e.Query.FieldTerm.{
  IsExactAt, IsReadable, value_moved, moved-IsTerm, read_value-moved,
}
use mariadb_scylla_storage_e.Query.EquationRead.{show_equation, IsEquation}
use mariadb_scylla_storage_e.Query.Columns.{All-get_elem?, map-not_nil}
use mariadb_scylla_storage_e.Query.SelectRead.{read_select-build_select_cql}

map-set {ℓ κ} :
    {A : Type ℓ} {B : Type κ} (f : A → B) (xs : List A) (i : ℕ) (x y : A)
    → get_elem? xs i ≡ some x
    → f y ≡ f x
    → map f (set xs i y) ≡ map f xs
map-set f [] i x y e h = refl
map-set f (z ∷ xs) zero x y e h =
    let same : z ≡ x = cc in ap (λ b. b ∷ map f xs) (h ∙ ap f (sym same))
map-set f (z ∷ xs) (suc i) x y e h = ap (λ bs. f z ∷ bs) (map-set f xs i x y e h)

module _ (S : Server) (law : IsLawful S) (m : S.Memory) where
  -- The loop of the lookup leaves the columns with their names.
  lookup_from-field_name :
      (record0 : ℤ) (keypart_map i : ℕ) (key_ptr : ℤ) (parts : List KeyPart) (fs : List S.Field)
      → map S.field_name (lookup_from S m record0 keypart_map i key_ptr parts fs).1
        ≡ map S.field_name fs
  unfolding lookup_from
  lookup_from-field_name record0 keypart_map i key_ptr [] fs = refl
  lookup_from-field_name record0 keypart_map i key_ptr (part ∷ parts) fs =
      elim (Bool-cases ((keypart_map / 2 ^ i) % 2 == 1)) [
        | inr b ↦ rw (lookup_from_stop S m record0 keypart_map i key_ptr part parts fs b)
        | inl b ↦ elim (Option-cases (get_elem? fs part.field)) [
          | inl e ↦ rw (e, lookup_from)
          | inr (f, e) ↦
              rw (lookup_from_step S m record0 keypart_map i key_ptr part parts fs f e b) (
                lookup_from-field_name record0 keypart_map (i + 1)
                  (key_ptr +ℤ pos part.store_length) parts
                  (set fs part.field (returned S m record0 keypart_map key_ptr f))
                ∙ map-set S.field_name fs part.field f (returned S m record0 keypart_map key_ptr f)
                    e (rw (law.field_name-move_field, law.field_name-move_field)))
        ]
      ]

  -- The fields that a lookup compares, each with its place in the key.
  abbrev pub key_places : ℤ → List KeyPart → List S.Field → List (S.Field × ℤ)
  key_places key_ptr [] fields = []
  key_places key_ptr (part ∷ parts) fields = elim (get_elem? fields part.field) [
    | none ↦ []
    | some f ↦ (f, key_ptr) ∷ key_places (key_ptr +ℤ pos part.store_length) parts fields
  ]

  abbrev pub sought : S.Field × ℤ → Equation
  sought (f, p) = (S.field_name f, get_cql_value S m (S.move_field f p))

  show-sought :
      (key_ptr : ℤ) (parts : List KeyPart) (fields : List S.Field)
      → map show_equation (map sought (key_places key_ptr parts fields))
        ≡ key_equations S m key_ptr parts fields
  show-sought key_ptr [] fields = refl
  show-sought key_ptr (part ∷ parts) fields = elim (Option-cases (get_elem? fields part.field)) [
    | inl e ↦ rw (e, key_places, key_equations)
    | inr (f, e) ↦
        rw (e, key_places, key_equations)
          (rw (show-sought (key_ptr +ℤ pos part.store_length) parts fields))
  ]

  All-key_places :
      (P : S.Field → Type 0) (key_ptr : ℤ) (parts : List KeyPart) (fields : List S.Field)
      → All P fields
      → All (λ (x : S.Field × ℤ). P x.0) (key_places key_ptr parts fields)
  All-key_places P key_ptr [] fields h = tt
  All-key_places P key_ptr (part ∷ parts) fields h =
      elim (Option-cases (get_elem? fields part.field)) [
        | inl e ↦ rw (e, key_places) tt
        | inr (f, e) ↦
            rw (e, key_places)
              (
                All-get_elem? P fields part.field f h e,
                All-key_places P (key_ptr +ℤ pos part.store_length) parts fields h,
              )
      ]

  sought-IsEquation :
      (places : List (S.Field × ℤ))
      → All (λ (x : S.Field × ℤ). IsReadable S x.0) places
      → All IsEquation (map sought places)
  sought-IsEquation places h = All-map IsEquation sought places (
      All-imp (λ (x : S.Field × ℤ). IsReadable S x.0) _ places
        (λ x g. (g.0, moved-IsTerm S law m x.1 x.0 g.1)) h)

  -- The field, pointed at its place, has a value that the literal stands for exactly.
  abbrev pub IsExactPlace : S.Field × ℤ → Type 0
  IsExactPlace (f, p) = IsExactAt S law m p f

  -- CQL reads in the literal the value that the field has when it points at its place.
  abbrev pub HoldsValue : S.Field × ℤ → Type 0
  HoldsValue (f, p) =
      read_value (mariadb_to_cql_type S f) (get_cql_value S m (S.move_field f p))
      ≡ some (value_moved S law m p f)

  exact-HoldsValue :
      (places : List (S.Field × ℤ))
      → All (λ (x : S.Field × ℤ). IsReadable S x.0) places
      → All IsExactPlace places
      → All HoldsValue places
  exact-HoldsValue [] h x = tt
  exact-HoldsValue ((f, p) ∷ places) (h, hs) (x, xs) =
      (read_value-moved S law m p f h.1 x, exact-HoldsValue places hs xs)

  -- The SELECT of `index_read_map`.
  abbrev pub lookup_cql : Table S → ℤ → ℕ → Bytes → Bytes → Bytes
  lookup_cql table key keypart_map keyspace table_name =
      let (clause, moved) = build_where_from_key S m table key keypart_map in
      build_select_cql S moved keyspace table_name true clause

  build_where_from_key-field_name :
      (table : Table S) (key : ℤ) (keypart_map : ℕ) (parts : List KeyPart)
      → table.primary_key ≡ some parts
      → map S.field_name (build_where_from_key S m table key keypart_map).1.field
        ≡ map S.field_name table.field
  unfolding build_where_from_key
  build_where_from_key-field_name table key keypart_map parts e =
      rw (e, build_where_from_key)
        (lookup_from-field_name table.record0 keypart_map 0 key parts table.field)

  -- CQL reads the SELECT of an index lookup as one SELECT of all columns from the table that
  -- compares the key parts up to the first that the map does not select, each with the value that its
  -- field has when it points at the part's place in the key, whatever texts stand there, and allows
  -- filtering. The parts of the key point to fields of the table, the names need no quotes, no column
  -- is a floating point number or a decimal, and every such value that is not null is one of its CQL
  -- type that the literal stands for exactly, as `is_exact` says.
  pub read_select-build_where_from_key :
      (table : Table S) (key : ℤ) (keypart_map : ℕ) (keyspace table_name : Bytes)
      (parts : List KeyPart)
      → table.primary_key ≡ some parts
      → All (IsLinked table.field) parts
      → table.field ≢ []
      → IsName keyspace
      → IsName table_name
      → All (IsReadable S) table.field
      → All IsExactPlace (key_places key (selected keypart_map 0 parts) table.field)
      → (read_select (lookup_cql table key keypart_map keyspace table_name)
          ≡ some (record {
            columns = map S.field_name table.field;
            keyspace = keyspace;
            table = table_name;
            compared = map sought (key_places key (selected keypart_map 0 parts) table.field);
            filtering = true;
          }))
        × All HoldsValue (key_places key (selected keypart_map 0 parts) table.field)
  read_select-build_where_from_key table key keypart_map keyspace table_name parts e linked ne hk ht
        h exact =
      let places = key_places key (selected keypart_map 0 parts) table.field in
      let hp = All-key_places (IsReadable S) key (selected keypart_map 0 parts) table.field h in
      let moved = (build_where_from_key S m table key keypart_map).1 in
      (
        ap (λ clause. read_select (build_select_cql S moved keyspace table_name true clause))
              (build_where_from_key-join S law m table key keypart_map parts e linked
                ∙ sym (
                    ap (join (codes " AND "))
                      (show-sought key (selected keypart_map 0 parts) table.field)))
            ∙ read_select-build_select_cql S moved keyspace table_name true
                (map S.field_name table.field) (map sought places)
                (build_where_from_key-field_name table key keypart_map parts e)
                (map-not_nil S.field_name table.field ne) hk ht
                (All-map IsName S.field_name table.field
                  (All-imp (IsReadable S) _ table.field (λ f g. g.0) h))
                (sought-IsEquation places hp),
        exact-HoldsValue places hp exact,
      )
