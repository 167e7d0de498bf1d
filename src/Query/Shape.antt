-- ===== src/Query/Shape.antt =====
-- The loops of the private builders against lists joined by a separator, with the fields that each
-- loop returns.
use mariadb_scylla_storage_e.Prelude.{
  ℕ, suc, ◌+◌, Bool, true, false, Option, none, some, List, [], ◌∷◌, ◌++◌, append-nil, map, ◌≡◌,
  refl, ap, arith, if◌then◌else◌, ltb, get_elem?, set-get_elem?, All, Bool-cases, inl, inr, ◌==◌,
}
use mariadb_scylla_storage_e.Prelude.Int.{ℤ, ◌+ℤ◌, ◌-ℤ◌, rebase_back}
use mariadb_scylla_storage_e.Prelude.Text.{Bytes, codes}
use mariadb_scylla_storage_e.Server.{Server, IsLawful}
use mariadb_scylla_storage_e.Types.Value.{get_cql_value}
use mariadb_scylla_storage_e.Query.Table.{KeyPart, Table, IsLinked, HasLinkedKey}
use mariadb_scylla_storage_e.Query.Clauses.{
  contains, columns_from, value_in, values_from, assignment, key_where_from, first_where, where_on,
  set_from, key_fields, build_column_list, build_values_list, build_primary_key_where,
  build_set_clause,
}

-- The texts with the separator between them.
abbrev pub join : Bytes → List Bytes → Bytes
join sep [] = []
join sep (x ∷ []) = x
join sep (x ∷ y ∷ xs) = x ++ (sep ++ join sep (y ∷ xs))

-- The same with a separator in front unless the first text is the first of all.
unfoldable pub separated : Bytes → Bool → List Bytes → Bytes
separated sep first [] = []
separated sep first (x ∷ xs) = (if first then [] else sep) ++ (x ++ separated sep false xs)

pub separated-join : (sep : Bytes) (xs : List Bytes) → separated sep true xs ≡ join sep xs
unfolding separated
separated-join sep [] = refl
separated-join sep (x ∷ []) = append-nil x
separated-join sep (x ∷ y ∷ xs) = ap (λ s. x ++ (sep ++ s)) (separated-join sep (y ∷ xs))

-- The fields that the parts of a key point to.
abbrev pub key_columns {ℓ} : {A : Type ℓ} → List KeyPart → List A → List A
key_columns [] fields = []
key_columns (part ∷ parts) fields = elim (get_elem? fields part.field) [
  | none ↦ []
  | some f ↦ f ∷ key_columns parts fields
]

-- The fields whose place is not one of `pk_fields`.
abbrev pub other_columns {ℓ} : {A : Type ℓ} → List ℕ → ℕ → List A → List A
other_columns pk_fields i [] = []
other_columns pk_fields i (f ∷ fs) =
    let rest = other_columns pk_fields (suc i) fs in if contains pk_fields i then rest else f ∷ rest

abbrev pub first_column {ℓ} : {A : Type ℓ} → List A → List A
first_column [] = []
first_column (f ∷ _) = f ∷ []

-- The columns of a WHERE clause on the primary key; with no key the first field stands in.
abbrev pub where_columns {ℓ} : {A : Type ℓ} → Option (List KeyPart) → List A → List A
where_columns none fields = first_column fields
where_columns (some parts) fields = key_columns parts fields

module _ (S : Server) where
  columns_from-separated :
      (first : Bool) (fs : List S.Field)
      → columns_from S first fs ≡ separated (codes ", ") first (map S.field_name fs)
  unfolding columns_from separated
  columns_from-separated first [] = refl
  columns_from-separated first (f ∷ fs) = rw (columns_from-separated false fs)

  pub build_column_list-join :
      (table : Table S)
      → build_column_list S table ≡ join (codes ", ") (map S.field_name table.field)
  unfolding build_column_list
  build_column_list-join table = rw (columns_from-separated true table.field) (separated-join _ _)

module _ (S : Server) (m : S.Memory) (record0 buf : ℤ) where
  -- The literal of the value that the field has in `buf`, and the name with it.
  abbrev pub cell : S.Field → Bytes
  cell f = get_cql_value S m (S.move_field f (buf +ℤ (S.ptr f -ℤ record0)))

  abbrev pub equation : S.Field → Bytes
  equation f = S.field_name f ++ (codes " = " ++ cell f)

pub suc_nonzero : (i : ℕ) → (i + 1 == 0) ≡ false
suc_nonzero i = ground arith

pub and_text :
    (i : ℕ) → (if ltb 0 i then codes " AND " else []) ≡ (if i == 0 then [] else codes " AND ")
and_text i = ground arith

module _ (S : Server) (law : IsLawful S) (m : S.Memory) (record0 buf : ℤ) where
  value_in-cell : (f : S.Field) → value_in S m record0 buf f ≡ (cell S m record0 buf f, f)
  unfolding value_in
  value_in-cell f = rw (
    law.move_field-move_field,
    law.ptr-move_field,
    rebase_back record0 buf (S.ptr f),
    law.move_field_self,
  )

  assignment-equation :
      (f : S.Field) → assignment S m record0 buf f ≡ (equation S m record0 buf f, f)
  unfolding assignment
  assignment-equation f = rw (value_in-cell f)

  values_from-separated :
      (first : Bool) (fs : List S.Field)
      → values_from S m record0 buf first fs
        ≡ (separated (codes ", ") first (map (cell S m record0 buf) fs), fs)
  unfolding values_from separated
  values_from-separated first [] = refl
  values_from-separated first (f ∷ fs) = rw (value_in-cell f, values_from-separated false fs)

  key_where_from-separated :
      (i : ℕ) (parts : List KeyPart) (fs : List S.Field)
      → All (IsLinked fs) parts
      → key_where_from S m record0 buf i parts fs ≡ (
        separated (codes " AND ") (i == 0) (map (equation S m record0 buf) (key_columns parts fs)),
        fs,
      )
  unfolding key_where_from separated
  key_where_from-separated i [] fs h = refl
  key_where_from-separated i (part ∷ parts) fs ((_, (f, e)), h) =
      let later : key_where_from S m record0 buf (i + 1) parts fs ≡ (
        separated (codes " AND ") false (map (equation S m record0 buf) (key_columns parts fs)),
        fs,
      ) =
        rw (suc_nonzero i) at (key_where_from-separated (i + 1) parts fs h) in
      rw (e, key_where_from, assignment-equation f, set-get_elem? fs part.field f e, later)
        (rw (e, key_columns, and_text i))

  first_where-join :
      (fs : List S.Field)
      → first_where S m record0 buf fs
        ≡ (join (codes " AND ") (map (equation S m record0 buf) (first_column fs)), fs)
  unfolding first_where
  first_where-join [] = refl
  first_where-join (f ∷ fs) = rw (assignment-equation f)

  where_on-join :
      (key : Option (List KeyPart)) (fs : List S.Field)
      → HasLinkedKey fs key
      → where_on S m record0 buf key fs
        ≡ (join (codes " AND ") (map (equation S m record0 buf) (where_columns key fs)), fs)
  unfolding where_on
  where_on-join none fs h = first_where-join fs
  where_on-join (some parts) fs h = rw (key_where_from-separated 0 parts fs h, separated-join)

  set_from-separated :
      (pk_fields : List ℕ) (first : Bool) (i : ℕ) (fs : List S.Field)
      → set_from S m record0 buf pk_fields first i fs ≡ (
        separated
            (codes ", ")
            first
            (map (equation S m record0 buf) (other_columns pk_fields i fs)),
        fs,
      )
  unfolding set_from separated
  set_from-separated pk_fields first i [] = refl
  set_from-separated pk_fields first i (f ∷ fs) = elim (Bool-cases (contains pk_fields i)) [
    | inl e ↦ rw (e, set_from-separated pk_fields first (suc i) fs)
    | inr e ↦ rw (e, assignment-equation f, set_from-separated pk_fields false (suc i) fs)
  ]

module _ (S : Server) (law : IsLawful S) (m : S.Memory) (table : Table S) where
  pub build_values_list-join :
      (buf : ℤ)
      → build_values_list S m table buf
        ≡ (join (codes ", ") (map (cell S m table.record0 buf) table.field), table)
  unfolding build_values_list
  build_values_list-join buf =
      rw (values_from-separated S law m table.record0 buf true table.field, separated-join)

  pub build_primary_key_where-join :
      (buf : ℤ)
      → HasLinkedKey table.field table.primary_key
      → build_primary_key_where S m table buf ≡ (
        join
            (codes " AND ")
            (map (equation S m table.record0 buf) (where_columns table.primary_key table.field)),
        table,
      )
  unfolding build_primary_key_where
  build_primary_key_where-join buf h =
      rw (where_on-join S law m table.record0 buf table.primary_key table.field h)

  pub build_set_clause-join :
      (old_data new_data : ℤ)
      → build_set_clause S m table old_data new_data ≡ (
        join (codes ", ") (
            map
              (equation S m table.record0 new_data)
              (other_columns (key_fields table.primary_key) 0 table.field)),
        table,
      )
  unfolding build_set_clause
  build_set_clause-join old_data new_data = rw (
    set_from-separated S law m table.record0 new_data (key_fields table.primary_key) true 0
        table.field,
    separated-join,
  )
