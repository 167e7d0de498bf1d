-- ===== src/Query/Columns.antt =====
-- What holds of every column of a table holds of those of a clause.
use mariadb_scylla_storage_e.Prelude.{
  ℕ, zero, suc, Option, none, some, List, [], ◌∷◌, ◌≡◌, ◌≢◌, refl, get_elem?, All, map, Bool-cases,
  inl, inr,
}
use mariadb_scylla_storage_e.Query.Table.{KeyPart}
use mariadb_scylla_storage_e.Query.Clauses.{contains}
use mariadb_scylla_storage_e.Query.Shape.{key_columns, other_columns, where_columns}

module _ {ℓ κ} {A : Type ℓ} (P : A → Type κ) where
  pub All-get_elem? : (xs : List A) (i : ℕ) (x : A) → All P xs → get_elem? xs i ≡ some x → P x
  All-get_elem? [] i x h e = cc
  All-get_elem? (y ∷ xs) zero x (h, hs) e = let same : y ≡ x = cc in rw same at h
  All-get_elem? (y ∷ xs) (suc i) x (h, hs) e = All-get_elem? xs i x hs e

  All-key_columns : (parts : List KeyPart) (xs : List A) → All P xs → All P (key_columns parts xs)
  All-key_columns [] xs h = tt
  All-key_columns (part ∷ parts) xs h =
      go (get_elem? xs part.field) refl (All-key_columns parts xs h)
    where
      go :
          (found : Option A)
          → get_elem? xs part.field ≡ found
          → All P (key_columns parts xs)
          → All P (elim found [ none ↦ [] | some f ↦ f ∷ key_columns parts xs ])
      go none e rest = tt
      go (some x) e rest = (All-get_elem? xs part.field x h e, rest)

  pub All-other_columns :
      (pk_fields : List ℕ) (i : ℕ) (xs : List A) → All P xs → All P (other_columns pk_fields i xs)
  All-other_columns pk_fields i [] h = tt
  All-other_columns pk_fields i (x ∷ xs) (h, hs) = elim (Bool-cases (contains pk_fields i)) [
    | inl e ↦ rw e (All-other_columns pk_fields (suc i) xs hs)
    | inr e ↦ rw e (h, All-other_columns pk_fields (suc i) xs hs)
  ]

  pub All-where_columns :
      (key : Option (List KeyPart)) (xs : List A) → All P xs → All P (where_columns key xs)
  All-where_columns none [] h = tt
  All-where_columns none (x ∷ xs) h = (h.0, tt)
  All-where_columns (some parts) xs h = All-key_columns parts xs h

pub map-not_nil {ℓ κ} :
    {A : Type ℓ} {B : Type κ} (f : A → B) (xs : List A) → xs ≢ [] → map f xs ≢ []
map-not_nil f [] ne = absurd (ne refl)
map-not_nil f (x ∷ xs) ne = cc
