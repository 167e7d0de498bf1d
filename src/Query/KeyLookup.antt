-- ===== src/Query/KeyLookup.antt =====
-- `build_where_from_key`: the clause that it builds, and where it leaves the fields of the key.
use native.Mathlib.Decide.{ℕ_discrete}
use mariadb_scylla_storage_e.Prelude.{
  ℕ, ◌+◌, ◌/◌, ◌%◌, ◌^◌, true, false, some, List, [], ◌∷◌, ◌++◌, ◌≡◌, ◌∙◌, if◌then◌else◌, ◌==◌,
  Bool-cases, Option-cases, inl, inr, get_elem?, set, get_elem?-set_self, get_elem?-set_ne, All,
}
use mariadb_scylla_storage_e.Prelude.Int.{ℤ, pos, ◌+ℤ◌, ◌-ℤ◌, +ℤ-self_sub}
use mariadb_scylla_storage_e.Prelude.Text.{Bytes, codes}
use mariadb_scylla_storage_e.Server.{Server, IsLawful}
use mariadb_scylla_storage_e.Types.Value.{get_cql_value}
use mariadb_scylla_storage_e.Query.Table.{KeyPart, Table, IsLinked}
use mariadb_scylla_storage_e.Query.Clauses.{lookup_from, build_where_from_key}
use mariadb_scylla_storage_e.Query.Shape.{and_text}

-- The parts up to the first that the map does not select.
abbrev pub selected : ℕ → ℕ → List KeyPart → List KeyPart
selected keypart_map i [] = []
selected keypart_map i (part ∷ parts) =
    let rest = selected keypart_map (i + 1) parts in
    if (keypart_map / 2 ^ i) % 2 == 1 then part ∷ rest else []

-- The field list holds, at the place, a field that points to `record[0]`.
abbrev pub IsAtBase : (S : Server) → ℤ → List S.Field → ℕ → Type 0
IsAtBase S record0 fields i = (f : S.Field) × (get_elem? fields i ≡ some f) × (S.ptr f ≡ record0)

module _ (S : Server) (m : S.Memory) (record0 : ℤ) (keypart_map : ℕ) where
  -- What one round writes, and how it leaves the field.
  abbrev pub lookup_text : ℤ → S.Field → Bytes
  lookup_text key_ptr f =
      S.field_name (S.move_field f key_ptr)
      ++ (codes " = " ++ get_cql_value S m (S.move_field f key_ptr))

  abbrev pub returned : ℤ → S.Field → S.Field
  returned key_ptr f =
      S.move_field (S.move_field f key_ptr) (record0 +ℤ (S.ptr (S.move_field f key_ptr) -ℤ key_ptr))

  abbrev pub rest_of :
      ℕ → ℤ → KeyPart → List KeyPart → List S.Field → S.Field → Bytes × List S.Field
  rest_of i key_ptr part parts fields f =
      lookup_from S m record0 keypart_map (i + 1) (key_ptr +ℤ pos part.store_length) parts
        (set fields part.field (returned key_ptr f))

  pub lookup_from_step :
      (i : ℕ) (key_ptr : ℤ) (part : KeyPart) (parts : List KeyPart) (fields : List S.Field)
      (f : S.Field)
      → get_elem? fields part.field ≡ some f
      → ((keypart_map / 2 ^ i) % 2 == 1) ≡ true
      → lookup_from S m record0 keypart_map i key_ptr (part ∷ parts) fields ≡ (
        (if i == 0 then [] else codes " AND ")
            ++ (lookup_text key_ptr f ++ (rest_of i key_ptr part parts fields f).0),
        (rest_of i key_ptr part parts fields f).1,
      )
  unfolding lookup_from
  lookup_from_step i key_ptr part parts fields f e b = rw (e, lookup_from) (rw b (rw (and_text i)))

  -- A part that is not selected ends the loop.
  pub lookup_from_stop :
      (i : ℕ) (key_ptr : ℤ) (part : KeyPart) (parts : List KeyPart) (fields : List S.Field)
      → ((keypart_map / 2 ^ i) % 2 == 1) ≡ false
      → lookup_from S m record0 keypart_map i key_ptr (part ∷ parts) fields ≡ ([], fields)
  unfolding lookup_from
  lookup_from_stop i key_ptr part parts fields b =
      elim (Option-cases (get_elem? fields part.field)) [
        | inl e ↦ rw (e, lookup_from)
        | inr (f, e) ↦ rw (e, lookup_from) (rw b)
      ]

module _ (S : Server) (law : IsLawful S) (m : S.Memory) (record0 : ℤ) (keypart_map : ℕ) where
  -- One round of the loop leaves the part's field at the base of the record.
  ptr-returned :
      (f : S.Field) (key_ptr : ℤ) → S.ptr (returned S m record0 keypart_map key_ptr f) ≡ record0
  ptr-returned f key_ptr = rw (law.ptr-move_field, law.ptr-move_field) (+ℤ-self_sub record0 key_ptr)

  set-IsAtBase :
      (fields : List S.Field) (i j : ℕ) (f : S.Field)
      → S.ptr f ≡ record0
      → IsAtBase S record0 fields j
      → IsAtBase S record0 (set fields i f) j
  set-IsAtBase fields i j f h (g, e, k) = elim (ℕ_discrete i j) [
    | yes same ↦ (f, rw same (get_elem?-set_self fields j g f e), h)
    | no other ↦ (g, get_elem?-set_ne fields i j f other ∙ e, k)
  ]

  set-IsLinked :
      (fields : List S.Field) (i : ℕ) (f : S.Field) (part : KeyPart)
      → IsLinked fields part
      → IsLinked (set fields i f) part
  set-IsLinked fields i f part (n, (g, e)) = elim (ℕ_discrete i part.field) [
    | yes same ↦ (n, (f, rw same (get_elem?-set_self fields part.field g f e)))
    | no other ↦ (n, (g, get_elem?-set_ne fields i part.field f other ∙ e))
  ]

  set-HasLinked :
      (fields : List S.Field) (i : ℕ) (f : S.Field) (parts : List KeyPart)
      → All (IsLinked fields) parts
      → All (IsLinked (set fields i f)) parts
  set-HasLinked fields i f [] h = tt
  set-HasLinked fields i f (part ∷ parts) (p, h) =
      (set-IsLinked fields i f part p, set-HasLinked fields i f parts h)

  lookup_from-IsAtBase :
      (i : ℕ) (key_ptr : ℤ) (parts : List KeyPart) (fields : List S.Field) (j : ℕ)
      → All (IsLinked fields) parts
      → IsAtBase S record0 fields j
      → IsAtBase S record0 (lookup_from S m record0 keypart_map i key_ptr parts fields).1 j
  lookup_from-IsAtBase i key_ptr [] fields j l h = unfold lookup_from in h
  lookup_from-IsAtBase i key_ptr (part ∷ parts) fields j ((_, (f, e)), l) h =
      let back = returned S m record0 keypart_map key_ptr f in
      elim (Bool-cases ((keypart_map / 2 ^ i) % 2 == 1)) [
        | inl b ↦ rw (lookup_from_step S m record0 keypart_map i key_ptr part parts fields f e b) (
            lookup_from-IsAtBase (i + 1) (key_ptr +ℤ pos part.store_length) parts
              (set fields part.field back) j (set-HasLinked fields part.field back parts l)
              (set-IsAtBase fields part.field j back (ptr-returned f key_ptr) h))
        | inr b ↦ rw (lookup_from_stop S m record0 keypart_map i key_ptr part parts fields b) h
      ]

  lookup_from-selected :
      (i : ℕ) (key_ptr : ℤ) (parts : List KeyPart) (fields : List S.Field)
      → All (IsLinked fields) parts
      → All
          (λ part.
            IsAtBase S record0
              (lookup_from S m record0 keypart_map i key_ptr parts fields).1
              part.field)
          (selected keypart_map i parts)
  lookup_from-selected i key_ptr [] fields h = tt
  lookup_from-selected i key_ptr (part ∷ parts) fields ((_, (f, e)), h) =
      let back = returned S m record0 keypart_map key_ptr f in
      let next = set fields part.field back in
      let linked = set-HasLinked fields part.field back parts h in
      let here : IsAtBase S record0 next part.field =
        (back, get_elem?-set_self fields part.field f back e, ptr-returned f key_ptr) in
      elim (Bool-cases ((keypart_map / 2 ^ i) % 2 == 1)) [
        | inl b ↦ rw (lookup_from_step S m record0 keypart_map i key_ptr part parts fields f e b) (
            rw b (
              lookup_from-IsAtBase (i + 1) (key_ptr +ℤ pos part.store_length) parts next part.field
                  linked here,
              lookup_from-selected (i + 1) (key_ptr +ℤ pos part.store_length) parts next linked,
            ))
        | inr b ↦ rw b tt
      ]

-- After `build_where_from_key` the field of every key part that the map selects points to the start
-- of `record[0]`, wherever it pointed before; its own offset in the record is lost. The parts of the
-- key point to fields of the table.
pub build_where_from_key-IsAtBase :
    (S : Server) (law : IsLawful S) (m : S.Memory) (table : Table S) (key : ℤ) (keypart_map : ℕ)
    (parts : List KeyPart)
    → table.primary_key ≡ some parts
    → All (IsLinked table.field) parts
    → All
        (λ part.
          IsAtBase S table.record0
            (build_where_from_key S m table key keypart_map).1.field
            part.field)
        (selected keypart_map 0 parts)
unfolding build_where_from_key
build_where_from_key-IsAtBase S law m table key keypart_map parts e h =
    rw (e, build_where_from_key)
      (lookup_from-selected S law m table.record0 keypart_map 0 key parts table.field h)
