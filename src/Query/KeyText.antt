-- ===== src/Query/KeyText.antt =====
-- The clause of an index lookup, as a text.
use native.Mathlib.Decide.{ℕ_discrete}
use mariadb_scylla_storage_e.Prelude.{
  ℕ, ◌+◌, ◌/◌, ◌%◌, ◌^◌, false, none, some, List, [], ◌∷◌, ◌++◌, ◌≡◌, refl, sym, ap, ◌∙◌, ◌==◌,
  Bool-cases, inl, inr, get_elem?, set, get_elem?-set_self, get_elem?-set_ne, All,
}
use mariadb_scylla_storage_e.Prelude.Int.{ℤ, pos, ◌+ℤ◌}
use mariadb_scylla_storage_e.Prelude.Text.{Bytes, codes}
use mariadb_scylla_storage_e.Server.{Server, IsLawful}
use mariadb_scylla_storage_e.Types.Value.{get_cql_value}
use mariadb_scylla_storage_e.Query.Table.{KeyPart, Table, IsLinked}
use mariadb_scylla_storage_e.Query.Clauses.{lookup_from, build_where_from_key}
use mariadb_scylla_storage_e.Query.Shape.{join, separated, separated-join, suc_nonzero}
use mariadb_scylla_storage_e.Query.KeyLookup.{
  selected, returned, lookup_from_step, lookup_from_stop,
}

-- What each part is compared with: the value at its place in the key, which begins behind the
-- stored lengths of the parts before it.
abbrev pub key_equations : (S : Server) → S.Memory → ℤ → List KeyPart → List S.Field → List Bytes
key_equations S m key_ptr [] fields = []
key_equations S m key_ptr (part ∷ parts) fields = elim (get_elem? fields part.field) [
  | none ↦ []
  | some f ↦
      (S.field_name f ++ (codes " = " ++ get_cql_value S m (S.move_field f key_ptr)))
      ∷ key_equations S m (key_ptr +ℤ pos part.store_length) parts fields
]

-- The fields differ at most in where they point.
abbrev SameButMoved : (S : Server) → List S.Field → List S.Field → Type 0
SameButMoved S fs gs =
    (i : ℕ) (f : S.Field)
    → get_elem? fs i ≡ some f
    → (g : S.Field) × (get_elem? gs i ≡ some g)
      × ((q : ℤ) → S.move_field g q ≡ S.move_field f q)
      × (S.field_name g ≡ S.field_name f)

module _ (S : Server) (law : IsLawful S) (m : S.Memory) (record0 : ℤ) (keypart_map : ℕ) where
  set-SameButMoved :
      (fs gs : List S.Field) (i : ℕ) (f g g' : S.Field)
      → SameButMoved S fs gs
      → get_elem? fs i ≡ some f
      → get_elem? gs i ≡ some g
      → ((q : ℤ) → S.move_field g' q ≡ S.move_field f q)
      → S.field_name g' ≡ S.field_name f
      → SameButMoved S fs (set gs i g')
  set-SameButMoved fs gs i f g g' same e d moved name j f' e' = elim (ℕ_discrete i j) [
    | yes here ↦
        let f-eq-f' : f ≡ f' = let e'' : get_elem? fs i ≡ some f' = rw here e' in cc (sym e, e'') in
        (
          g',
          rw (← here) (get_elem?-set_self gs i g g' d),
          λ q. moved q ∙ ap (λ x. S.move_field x q) f-eq-f',
          name ∙ ap S.field_name f-eq-f',
        )
    | no other ↦
        let (h, at_j, move_j, name_j) = same j f' e' in
        (h, get_elem?-set_ne gs i j g' other ∙ at_j, move_j, name_j)
  ]

  lookup_from-separated :
      (i : ℕ) (key_ptr : ℤ) (parts : List KeyPart) (fs gs : List S.Field)
      → SameButMoved S fs gs
      → All (IsLinked fs) parts
      → (lookup_from S m record0 keypart_map i key_ptr parts gs).0
        ≡ separated
            (codes " AND ")
            (i == 0)
            (key_equations S m key_ptr (selected keypart_map i parts) fs)
  unfolding separated lookup_from
  lookup_from-separated i key_ptr [] fs gs same h = refl
  lookup_from-separated i key_ptr (part ∷ parts) fs gs same ((_, (f, e)), h) =
      let (g, at_g, move_g, name_g) = same part.field f e in
      let next = key_ptr +ℤ pos part.store_length in
      let back = returned S m record0 keypart_map key_ptr g in
      let same_next : SameButMoved S fs (set gs part.field back) =
        set-SameButMoved fs gs part.field f g back same e at_g
          (λ q. rw (law.move_field-move_field, law.move_field-move_field) (move_g q))
          (rw (law.field_name-move_field, law.field_name-move_field) name_g) in
      let later : (lookup_from S m record0 keypart_map (i + 1) next parts
            (set gs part.field back)).0
          ≡ separated (codes " AND ") false
              (key_equations S m next (selected keypart_map (i + 1) parts) fs) =
        rw (suc_nonzero i) at
          (lookup_from-separated (i + 1) next parts fs (set gs part.field back) same_next h) in
      elim (Bool-cases ((keypart_map / 2 ^ i) % 2 == 1)) [
        | inl b ↦
            rw (lookup_from_step S m record0 keypart_map i key_ptr part parts gs g at_g b) (
              rw (later, b)
                (rw (e, key_equations) (rw (move_g key_ptr, law.field_name-move_field))))
        | inr b ↦ rw (lookup_from_stop S m record0 keypart_map i key_ptr part parts gs b) (rw b)
      ]

-- The clause of an index lookup compares, joined by " AND ", exactly the key parts up to the first
-- that the map does not select, each with the literal that `get_cql_value` makes when the part's
-- field points into the key, behind the stored lengths of the parts before it. The parts of the key
-- point to fields of the table.
pub build_where_from_key-join :
    (S : Server) (law : IsLawful S) (m : S.Memory) (table : Table S) (key : ℤ) (keypart_map : ℕ)
    (parts : List KeyPart)
    → table.primary_key ≡ some parts
    → All (IsLinked table.field) parts
    → (build_where_from_key S m table key keypart_map).0
      ≡ join (codes " AND ") (key_equations S m key (selected keypart_map 0 parts) table.field)
unfolding build_where_from_key
build_where_from_key-join S law m table key keypart_map parts e h =
    rw (e, build_where_from_key)
      (rw
        (lookup_from-separated S law m table.record0 keypart_map 0 key parts table.field table.field
          (λ i f at_i. (f, at_i, λ q. refl, refl)) h)
        (separated-join _ _))
