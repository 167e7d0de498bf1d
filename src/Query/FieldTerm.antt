-- ===== src/Query/FieldTerm.antt =====
-- The literal of a field as a term, and the value that CQL reads in it.
use mariadb_scylla_storage_e.Prelude.{
  List, [], ◌∷◌, All, ◌||◌, Bool, true, false, some, ◌≡◌, ◌∙◌, refl, sym, ap, if◌then◌else◌,
  Bool-cases, inl, inr,
}
use mariadb_scylla_storage_e.Prelude.Int.{ℤ, ◌+ℤ◌, ◌-ℤ◌}
use mariadb_scylla_storage_e.Prelude.Text.{Bytes, codes}
use mariadb_scylla_storage_e.Server.{Server, IsLawful, FieldType}
use mariadb_scylla_storage_e.Types.Mapping.{mariadb_to_cql_type}
use mariadb_scylla_storage_e.Types.Literal.{quoted, hex_literal}
use mariadb_scylla_storage_e.Types.Value.{get_cql_value, literal_of}
use mariadb_scylla_storage_e.Types.Moments.{date_literal-quoted, time_literal-quoted}
use mariadb_scylla_storage_e.Types.Cql.{CqlValue, read_value}
use mariadb_scylla_storage_e.Types.Exact.{held, is_exact, value_of-held}
use mariadb_scylla_storage_e.Types.Typing.{is_typed, value_of, read_value-get_cql_value}
use mariadb_scylla_storage_e.Query.Table.{Table}
use mariadb_scylla_storage_e.Query.Shape.{cell}
use mariadb_scylla_storage_e.Query.Scanning.{
  IsTerm, quoted-IsTerm, IsWord-IsTerm, to_string-IsTerm, hex_literal-IsTerm,
}
use mariadb_scylla_storage_e.Query.Listing.{IsName}

IsTerm-same : {lit lit' : Bytes} → lit ≡ lit' → IsTerm lit' → IsTerm lit
IsTerm-same e h = rw e h

module _ (S : Server) (law : IsLawful S) (m : S.Memory) (field : S.Field) where
  blob-IsTerm :
      (b : Bool)
      → S.is_binary field ≡ b
      → IsTerm (if b then hex_literal (S.val_str m field) else quoted (S.val_str m field))
  blob-IsTerm true e = hex_literal-IsTerm (S.val_str m field) (law.val_str-IsBytes m field)
  blob-IsTerm false e = quoted-IsTerm (S.val_str m field)

  bit-IsTerm : (b : Bool) → IsTerm (if b then codes "true" else codes "false")
  bit-IsTerm true = IsWord-IsTerm (codes "true") ((cc), (refl, (refl, (refl, (refl, tt)))))
  bit-IsTerm false =
      IsWord-IsTerm (codes "false") ((cc), (refl, (refl, (refl, (refl, (refl, tt))))))

  literal_of-IsTerm : (ty : FieldType) → is_typed ty ≡ true → IsTerm (literal_of S m field ty)
  unfolding literal_of
  literal_of-IsTerm FieldType.tiny h = to_string-IsTerm (S.val_int m field)
  literal_of-IsTerm FieldType.short h = to_string-IsTerm (S.val_int m field)
  literal_of-IsTerm FieldType.long h = to_string-IsTerm (S.val_int m field)
  literal_of-IsTerm FieldType.int24 h = to_string-IsTerm (S.val_int m field)
  literal_of-IsTerm FieldType.longlong h = to_string-IsTerm (S.val_int m field)
  literal_of-IsTerm FieldType.datetime h = to_string-IsTerm _
  literal_of-IsTerm FieldType.timestamp h = to_string-IsTerm _
  literal_of-IsTerm FieldType.timestamp2 h = to_string-IsTerm _
  literal_of-IsTerm FieldType.bit h = bit-IsTerm _
  literal_of-IsTerm FieldType.tiny_blob h = blob-IsTerm (S.is_binary field) refl
  literal_of-IsTerm FieldType.medium_blob h = blob-IsTerm (S.is_binary field) refl
  literal_of-IsTerm FieldType.long_blob h = blob-IsTerm (S.is_binary field) refl
  literal_of-IsTerm FieldType.blob h = blob-IsTerm (S.is_binary field) refl
  literal_of-IsTerm FieldType.float h = cc
  literal_of-IsTerm FieldType.double h = cc
  literal_of-IsTerm FieldType.decimal h = cc
  literal_of-IsTerm FieldType.newdecimal h = cc
  literal_of-IsTerm FieldType.date h =
      IsTerm-same (date_literal-quoted (S.get_date m field)) (quoted-IsTerm _)
  literal_of-IsTerm FieldType.time h =
      IsTerm-same (time_literal-quoted (S.get_date m field)) (quoted-IsTerm _)
  literal_of-IsTerm _ h = quoted-IsTerm (S.val_str m field)

  pub get_cql_value-IsTerm : is_typed (S.field_type field) ≡ true → IsTerm (get_cql_value S m field)
  unfolding get_cql_value
  get_cql_value-IsTerm h = elim (Bool-cases (S.is_null m field)) [
    | inl e ↦ rw e (IsWord-IsTerm (codes "NULL") ((cc), (refl, (refl, (refl, (refl, tt))))))
    | inr e ↦ rw e (literal_of-IsTerm (S.field_type field) h)
  ]

-- A column whose name needs no quotes and whose literal is read.
abbrev pub IsReadable : (S : Server) → S.Field → Type 0
IsReadable S f = IsName (S.field_name f) × (is_typed (S.field_type f) ≡ true)

module _ (S : Server) (law : IsLawful S) (m : S.Memory) where
  -- The value that stands at `p` for a field, and whether its literal stands for it exactly.
  abbrev pub value_moved : ℤ → S.Field → CqlValue
  value_moved p f =
      let g = S.move_field f p in
      if S.is_null m g then CqlValue.null else held S law m g (S.field_type f)

  abbrev pub IsExactAt : ℤ → S.Field → Type 0
  IsExactAt p f =
      let g = S.move_field f p in (S.is_null m g || is_exact S law m g (S.field_type f)) ≡ true

  same_typed :
      (f g : S.Field)
      → S.field_type g ≡ S.field_type f
      → is_typed (S.field_type f) ≡ true
      → is_typed (S.field_type g) ≡ true
  same_typed f g e h = ap is_typed e ∙ h

  mariadb_to_cql_type-move_field :
      (f : S.Field) (p : ℤ) → mariadb_to_cql_type S (S.move_field f p) ≡ mariadb_to_cql_type S f
  unfolding mariadb_to_cql_type
  mariadb_to_cql_type-move_field f p = rw (law.field_type-move_field, law.is_binary-move_field)

  pub moved-IsTerm :
      (p : ℤ) (f : S.Field)
      → is_typed (S.field_type f) ≡ true
      → IsTerm (get_cql_value S m (S.move_field f p))
  moved-IsTerm p f h = get_cql_value-IsTerm S law m _ (rw law.field_type-move_field h)

  exact_value :
      (g : S.Field) (ty : FieldType)
      → (S.is_null m g || is_exact S law m g ty) ≡ true
      → (if S.is_null m g then some CqlValue.null else value_of S law m g ty)
        ≡ some (if S.is_null m g then CqlValue.null else held S law m g ty)
  exact_value g ty h = elim (Bool-cases (S.is_null m g)) [
    | inl e ↦ rw e
    | inr e ↦ rw e (value_of-held S law m g ty (rw e at h))
  ]

  pub read_value-moved :
      (p : ℤ) (f : S.Field)
      → is_typed (S.field_type f) ≡ true
      → IsExactAt p f
      → read_value (mariadb_to_cql_type S f) (get_cql_value S m (S.move_field f p))
        ≡ some (value_moved p f)
  read_value-moved p f h exact =
      let g = S.move_field f p in
      let same = law.field_type-move_field f p in
      ap (λ ty. read_value ty (get_cql_value S m g)) (sym (mariadb_to_cql_type-move_field f p))
      ∙ (read_value-get_cql_value S law m g (same_typed f g same h)
          ∙ (ap (λ ty. if S.is_null m g then some CqlValue.null else value_of S law m g ty) same
              ∙ exact_value g (S.field_type f) exact))

module _ (S : Server) (law : IsLawful S) (m : S.Memory) (table : Table S) where
  -- The same for the value in the row `buf`.
  abbrev pub value_at : ℤ → S.Field → CqlValue
  value_at buf f = value_moved S law m (buf +ℤ (S.ptr f -ℤ table.record0)) f

  abbrev pub IsExact : ℤ → S.Field → Type 0
  IsExact buf f = IsExactAt S law m (buf +ℤ (S.ptr f -ℤ table.record0)) f

  -- CQL reads in the literal of the column the value that the row has in it.
  abbrev pub HasValue : ℤ → S.Field → Type 0
  HasValue buf f =
      read_value (mariadb_to_cql_type S f) (cell S m table.record0 buf f) ≡ some (value_at buf f)

  pub cell-IsTerm :
      (buf : ℤ) (f : S.Field)
      → is_typed (S.field_type f) ≡ true
      → IsTerm (cell S m table.record0 buf f)
  cell-IsTerm buf f h = moved-IsTerm S law m (buf +ℤ (S.ptr f -ℤ table.record0)) f h

  pub IsExact-HasValue :
      (buf : ℤ) (fs : List S.Field)
      → All (IsReadable S) fs
      → All (IsExact buf) fs
      → All (HasValue buf) fs
  IsExact-HasValue buf [] h x = tt
  IsExact-HasValue buf (f ∷ fs) (h, hs) (x, xs) = (
    read_value-moved S law m (buf +ℤ (S.ptr f -ℤ table.record0)) f h.1 x,
    IsExact-HasValue buf fs hs xs,
  )
