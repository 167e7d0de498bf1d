-- ===== src/Query/Clauses.antt =====
-- The private builders: column list, values list, SET clause and WHERE clauses.
use mariadb_scylla_storage_e.Prelude.{
  ℕ, suc, ◌+◌, ◌-◌, ◌/◌, ◌%◌, ◌^◌, Bool, true, false, not, ◌||◌, ◌&&◌, Option, none, some, List, [],
  ◌∷◌, ◌++◌, map, if◌then◌else◌, ltb, ◌==◌, get_elem?, set,
}
use mariadb_scylla_storage_e.Prelude.Int.{ℤ, pos, ◌+ℤ◌, ◌-ℤ◌}
use mariadb_scylla_storage_e.Prelude.Text.{Bytes, codes, is_empty, is_blank}
use mariadb_scylla_storage_e.Server.{Server}
use mariadb_scylla_storage_e.Types.Value.{get_cql_value}
use mariadb_scylla_storage_e.Query.Table.{KeyPart, Table}

-- `find_first_not_of(" \t\r\n") != npos`
unfoldable pub has_nonblank : Bytes → Bool
has_nonblank [] = false
has_nonblank (c ∷ s) = not (is_blank c) || has_nonblank s

unfoldable pub has_where_clause : Bytes → Bool
unfolding has_nonblank
has_where_clause where_clause = not (is_empty where_clause) && has_nonblank where_clause

-- Whether some element is the number.
abbrev pub contains : List ℕ → ℕ → Bool
contains [] i = false
contains (n ∷ ns) i = (n == i) || contains ns i

-- `pk_fields`
abbrev pub key_fields : Option (List KeyPart) → List ℕ
key_fields none = []
key_fields (some parts) = map (λ part. part.fieldnr - 1) parts

module _ (S : Server) where
  -- The loop of `build_column_list`.
  unfoldable pub columns_from : Bool → List S.Field → Bytes
  columns_from first [] = []
  columns_from first (f ∷ fs) =
      (if first then [] else codes ", ") ++ (S.field_name f ++ columns_from false fs)

  unfoldable pub build_column_list : Table S → Bytes
  build_column_list table = columns_from true table.field

  module _ (m : S.Memory) (record0 buf : ℤ) where
    -- Move the field to its place in `buf`, write its value, and move it back.
    unfoldable pub value_in : S.Field → Bytes × S.Field
    value_in f =
        let moved = S.move_field f (buf +ℤ (S.ptr f -ℤ record0)) in
        (get_cql_value S m moved, S.move_field moved (record0 +ℤ (S.ptr moved -ℤ buf)))

    unfoldable pub values_from : Bool → List S.Field → Bytes × List S.Field
    values_from first [] = ([], [])
    values_from first (f ∷ fs) =
        let (value, f') = value_in f in
        let (rest, fs') = values_from false fs in
        ((if first then [] else codes ", ") ++ (value ++ rest), f' ∷ fs')

    -- `name = value`
    unfoldable pub assignment : S.Field → Bytes × S.Field
    assignment f = let (value, f') = value_in f in (S.field_name f ++ (codes " = " ++ value), f')

    -- The loop over the parts of the primary key, from the `i`th. A part that points to no field of
    -- the table does not occur.
    unfoldable pub key_where_from : ℕ → List KeyPart → List S.Field → Bytes × List S.Field
    key_where_from i [] fields = ([], fields)
    key_where_from i (part ∷ parts) fields = elim (get_elem? fields part.field) [
      | none ↦ ([], fields)
      | some f ↦
          let (text, f') = assignment f in
          let (rest, fields') = key_where_from (i + 1) parts (set fields part.field f') in
          ((if ltb 0 i then codes " AND " else []) ++ (text ++ rest), fields')
    ]

    -- With no primary key the first field stands in.
    unfoldable pub first_where : List S.Field → Bytes × List S.Field
    first_where [] = ([], [])
    first_where (f ∷ fs) = let (text, f') = assignment f in (text, f' ∷ fs)

    -- The two branches of `build_primary_key_where`.
    unfoldable pub where_on : Option (List KeyPart) → List S.Field → Bytes × List S.Field
    where_on (some parts) fields = key_where_from 0 parts fields
    where_on none fields = first_where fields

    -- The loop of `build_set_clause` over the fields from the `i`th, past those of the key.
    unfoldable pub set_from : List ℕ → Bool → ℕ → List S.Field → Bytes × List S.Field
    set_from pk_fields first i [] = ([], [])
    set_from pk_fields first i (f ∷ fs) =
        let is_pk = contains pk_fields i in
        let (text, f') = assignment f in
        let (rest, fs') = set_from pk_fields (if is_pk then first else false) (suc i) fs in
        (
          if is_pk then rest else (if first then [] else codes ", ") ++ (text ++ rest),
          (if is_pk then f else f') ∷ fs',
        )

  unfoldable pub build_values_list : S.Memory → Table S → ℤ → Bytes × Table S
  build_values_list m table buf =
      let (text, fields) = values_from m table.record0 buf true table.field in
      (text, record table { field = fields })

  unfoldable pub build_primary_key_where : S.Memory → Table S → ℤ → Bytes × Table S
  build_primary_key_where m table buf =
      let (text, fields) = where_on m table.record0 buf table.primary_key table.field in
      (text, record table { field = fields })

  unfoldable pub build_set_clause : S.Memory → Table S → ℤ → ℤ → Bytes × Table S
  build_set_clause m table old_data new_data =
      let (text, fields) =
        set_from m table.record0 new_data (key_fields table.primary_key) true 0 table.field in
      (text, record table { field = fields })

  -- The loop of `build_where_from_key`: `key_ptr` moves over the key, and the loop ends at the first
  -- part that `keypart_map` does not select.
  unfoldable pub lookup_from :
      S.Memory → ℤ → ℕ → ℕ → ℤ → List KeyPart → List S.Field → Bytes × List S.Field
  lookup_from m record0 keypart_map i key_ptr [] fields = ([], fields)
  lookup_from m record0 keypart_map i key_ptr (part ∷ parts) fields =
      elim (get_elem? fields part.field) [
        | none ↦ ([], fields)
        | some f ↦
            let moved = S.move_field f key_ptr in
            let text = S.field_name moved ++ (codes " = " ++ get_cql_value S m moved) in
            let back = S.move_field moved (record0 +ℤ (S.ptr moved -ℤ key_ptr)) in
            let next = set fields part.field back in
            elim ((keypart_map / 2 ^ i) % 2 == 1) [
              | false ↦ ([], fields)
              | true ↦
                  let (rest, fields') =
                    lookup_from m record0 keypart_map (i + 1) (key_ptr +ℤ pos part.store_length)
                      parts next in
                  ((if ltb 0 i then codes " AND " else []) ++ (text ++ rest), fields')
            ]
      ]

  unfoldable pub build_where_from_key : S.Memory → Table S → ℤ → ℕ → Bytes × Table S
  build_where_from_key m table key keypart_map = elim table.primary_key [
    | none ↦ ([], table)
    | some parts ↦
        let (text, fields) = lookup_from m table.record0 keypart_map 0 key parts table.field in
        (text, record table { field = fields })
  ]
